-- ===== src/Snapshot/Patch.antt =====
-- ApplyDelta of snapshot_manager.cpp on what CalculateDelta writes: one assignment for each change.
use working_for_codex.Base.{
  Each, ℕ, suc, ◌+◌, ◌%◌, ◌<◌, ◌≤◌, ◌≡◌, refl, ap, sym, ◌∙◌, true, Bytes, List, [], ◌∷◌, ◌++◌,
  if◌then◌else◌, ltb, length, drop, ok, arith, lt→ltb, append_assoc, append-nil, Bool-cases, inl,
  inr,
}
use working_for_codex.Base.Real.{Real, HasFloats}
use working_for_codex.Game.Player.{PlayerState}
use working_for_codex.Packet.Buffer.{nonzero, write_uint8}
use working_for_codex.Packet.Codec.{Codec-uint8, clipped, length-at, drop-at}
use working_for_codex.Packet.RoundTrip.{IsInt32}
use working_for_codex.Snapshot.Types.{Snapshot, write_each}
use working_for_codex.Snapshot.Wire.{write_each-append}
use working_for_codex.Snapshot.Deltas.{
  find_player, flags_against, write_change, collect_changes, changes_between, apply_change,
  read_changes, apply_delta,
}
use working_for_codex.Snapshot.Changes.{
  fields_of, write_one, change_bytes, write_change-bytes, change-Codec,
}

module _ {ℓ} {D : Type ℓ} ⦃r : Real D⦄ where
  -- The players that the delta names, with their flags.
  unfoldable pub changed : List (PlayerState D) → List (PlayerState D) → List (ℕ × PlayerState D)
  unfolding flags_against find_player
  changed base [] = []
  changed base (p ∷ ps) =
      let flags = flags_against (find_player p.player_id base) p in
      let rest = changed base ps in if nonzero flags then (flags, p) ∷ rest else rest

  unfoldable pub apply_all : List (ℕ × PlayerState D) → List (PlayerState D) → List (PlayerState D)
  unfolding apply_change fields_of
  apply_all [] players = players
  apply_all ((flags, p) ∷ cs) players =
      apply_all cs (apply_change (clipped p.player_id) (fields_of flags p) players)

  collect_changes-changed :
      (base ps : List (PlayerState D)) (count : ℕ) (bytes : Bytes)
      → count < 256
      → collect_changes base ps (count, bytes)
        ≡ ((count + length (changed base ps)) % 256, write_each write_one bytes (changed base ps))
  unfolding collect_changes changed write_each
  collect_changes-changed base [] count bytes small =
      let e : (count + 0) % 256 ≡ count = omega arith in rw e refl
  collect_changes-changed base (p ∷ ps) count bytes small =
      let flags = flags_against (find_player p.player_id base) p in
      elim (Bool-cases (nonzero flags)) [
        | inl e ↦
            let n = length (changed base ps) in
            let sum : ((count + 1) % 256 + n) % 256 ≡ (count + suc n) % 256 = omega arith in
            rw e (
              collect_changes-changed base ps ((count + 1) % 256) (write_change bytes flags p)
                (omega arith)
              ∙ rw sum refl)
        | inr e ↦ rw e (collect_changes-changed base ps count bytes small)
      ]

  write_one-append :
      (buffer : Bytes) (c : ℕ × PlayerState D) → write_one buffer c ≡ buffer ++ write_one [] c
  unfolding write_change
  write_one-append buffer (flags, p) =
      write_change-bytes buffer flags p
      ∙ ap (λ l. buffer ++ l) (sym (write_change-bytes [] flags p))

  change_bytes-nonempty : (flags : ℕ) (p : PlayerState D) → 0 < length (change_bytes flags p)
  unfolding change_bytes
  change_bytes-nonempty flags p = omega arith

  write_each-one :
      (flags : ℕ) (p : PlayerState D) (cs : List (ℕ × PlayerState D)) (rest : Bytes)
      → write_each write_one [] ((flags, p) ∷ cs) ++ rest
        ≡ change_bytes flags p ++ (write_each write_one [] cs ++ rest)
  unfolding write_each write_change
  write_each-one flags p cs rest =
      ap (λ l. l ++ rest)
        (write_each-append write_one write_one-append cs (write_change [] flags p)
          ∙ ap (λ l. l ++ write_each write_one [] cs) (write_change-bytes [] flags p))
      ∙ append_assoc (change_bytes flags p) (write_each write_one [] cs) rest

  module _ (floats : HasFloats D) where
    read_changes-apply_all :
        (cs : List (ℕ × PlayerState D)) (players : List (PlayerState D)) (payload : Bytes)
        (offset : ℕ) (rest : Bytes)
        → Each (λ (c : ℕ × PlayerState D). IsInt32 c.1.health) cs
        → offset ≤ length payload
        → drop offset payload ≡ write_each write_one [] cs ++ rest
        → (end : ℕ) × (read_changes (length cs) players payload offset
            ≡ ok (apply_all cs players, end))
    unfolding read_changes apply_all write_each
    read_changes-apply_all [] players payload offset rest v here at = (offset, refl)
    read_changes-apply_all ((flags, p) ∷ cs) players payload offset rest v here at =
        let bs = change_bytes flags p in
        let more = write_each write_one [] cs ++ rest in
        let at' : drop offset payload ≡ bs ++ more = at ∙ write_each-one flags p cs rest in
        let c = change-Codec floats players flags p v.0 in
        let len = length-at payload offset bs more here at' in
        let inside : ltb offset (length payload) ≡ true =
          lt→ltb offset (length payload) (omega (arith, len, change_bytes-nonempty flags p)) in
        let next = apply_change (clipped p.player_id) (fields_of flags p) players in
        rw (inside, c.reads payload offset more here at')
          (read_changes-apply_all cs next payload (offset + length bs) rest v.1 (omega (arith, len))
            (drop-at payload offset bs more here at'))

    -- The healths of the changed players fit when those of the target do.
    changed-Each :
        (base ps : List (PlayerState D))
        → Each (λ (p : PlayerState D). IsInt32 p.health) ps
        → Each (λ (c : ℕ × PlayerState D). IsInt32 c.1.health) (changed base ps)
    unfolding changed
    changed-Each base [] v = tt
    changed-Each base (p ∷ ps) v =
        elim (Bool-cases (nonzero (flags_against (find_player p.player_id base) p))) [
          | inl e ↦ rw e (v.0, changed-Each base ps v.1)
          | inr e ↦ rw e (changed-Each base ps v.1)
        ]

    pub apply_delta-changes_between :
        (base target : Snapshot D) (base_seq target_seq : ℕ)
        → Each (λ (p : PlayerState D). IsInt32 p.health) target.players
        → length (changed base.players target.players) < 256
        → apply_delta base (record {
          base_sequence = base_seq;
          target_sequence = target_seq;
          changes = changes_between base target;
        })
          ≡ ok (record base {
            sequence = target_seq;
            players = apply_all (changed base.players target.players) base.players;
          })
    unfolding apply_delta changes_between write_uint8
    apply_delta-changes_between base target base_seq target_seq v few =
        let cs = changed base.players target.players in
        let bytes = write_each write_one [] cs in
        let e : (0 + length cs) % 256 ≡ length cs = omega arith in
        let first =
          (Codec-uint8 (length cs)).reads (length cs ∷ bytes) 0 bytes (omega arith) refl in
        let done =
          read_changes-apply_all cs base.players (length cs ∷ bytes) 1 []
            (changed-Each base.players target.players v) (omega arith) (sym (append-nil bytes)) in
        rw (collect_changes-changed base.players target.players 0 [] (omega arith), e, first)
          (rw done.1 refl)
