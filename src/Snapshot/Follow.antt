-- ===== src/Snapshot/Follow.antt =====
-- What a player is after ApplyDelta of snapshot_manager.cpp has taken the base to the target.
use working_for_codex.Base.{
  Each, ℕ, ◌≡◌, inl, inr, refl, ap, ◌∙◌, false, Bytes, List, [], ◌∷◌, Option, none, some,
  if◌then◌else◌, length, take, min, arith, same, bytes_eq, same_iff, Bool-cases,
}
use working_for_codex.Base.Real.{Real}
use working_for_codex.Game.Player.{PlayerState, fresh_player}
use working_for_codex.Packet.Buffer.{nonzero}
use working_for_codex.Packet.Codec.{clipped}
use working_for_codex.Snapshot.Size.{IsShort}
use working_for_codex.Snapshot.Deltas.{
  Fields, or_else, find_player, assign, flags_against, apply_change,
}
use working_for_codex.Snapshot.Changes.{fields_of}
use working_for_codex.Snapshot.Patch.{changed, apply_all}

clipped_short : (id : Bytes) → IsShort id → clipped id ≡ id
clipped_short id h = let e : min (length id) 255 ≡ length id = omega arith in rw e (take-all id)
  where
    take-all : (xs : Bytes) → take (length xs) xs ≡ xs
    take-all [] = refl
    take-all (x ∷ xs) = ap (λ l. x ∷ l) (take-all xs)

module _ {ℓ} {D : Type ℓ} where
  -- No two players have the same id.
  abbrev pub Distinct : List (PlayerState D) → Type ℓ
  Distinct [] = Unit
  Distinct (p ∷ ps) = (find_player p.player_id ps ≡ none) × Distinct ps

  pub find_player-id :
      (id : Bytes) (ps : List (PlayerState D)) (p : PlayerState D)
      → find_player id ps ≡ some p
      → p.player_id ≡ id
  unfolding find_player
  find_player-id id [] p e = cc
  find_player-id id (q ∷ ps) p e =
      ground (arith, e, same_iff q.player_id id, find_player-id id ps p)

fresh_player-id {ℓ} :
    (D : Type ℓ) ⦃r : Real D⦄ (id : Bytes) → (fresh_player {D = D} id).player_id ≡ id
unfolding fresh_player
fresh_player-id D id = refl

module _ {ℓ} {D : Type ℓ} ⦃r : Real D⦄ where
  assign-id : (f : Fields D) (p : PlayerState D) → (assign f p).player_id ≡ p.player_id
  unfolding assign
  assign-id f p = refl

  find-apply_change :
      (id j : Bytes) (f : Fields D) (ps : List (PlayerState D))
      → find_player id (apply_change j f ps) ≡ (
          if same j id
          then some (assign f (or_else (find_player j ps) (fresh_player j)))
          else find_player id ps)
  unfolding find_player apply_change
  find-apply_change id j f [] = rw (assign-id f (fresh_player j), fresh_player-id D j) refl
  find-apply_change id j f (p ∷ ps) = elim (Bool-cases (same p.player_id j)) [
    | inl e ↦ rw (e, assign-id f p, (same_iff p.player_id j).0 e) (ground arith)
    | inr e ↦
        rw (e, find-apply_change id j f ps)
          (elim (Bool-cases (same p.player_id id)) [
            | inl g ↦
                let other : same j id ≡ false =
                  ground (arith, same_iff j id, same_iff p.player_id id, same_iff p.player_id j) in
                rw (g, other) refl
            | inr g ↦ rw g refl
          ])
  ]

  -- A player of the target over the one that is there, by the flags against the base.
  unfoldable pub patched :
      Option (PlayerState D)
      → Option (PlayerState D)
      → Option (PlayerState D)
      → Option (PlayerState D)
  unfolding flags_against assign fields_of fresh_player
  patched base now none = now
  patched base now (some p) =
      let flags = flags_against base p in
      if nonzero flags
      then some (assign (fields_of flags p) (or_else now (fresh_player p.player_id)))
      else now

  skip :
      (flags : ℕ) (p : PlayerState D) (cs : List (ℕ × PlayerState D)) (now : List (PlayerState D))
      → clipped p.player_id ≡ p.player_id
      → apply_all ((flags, p) ∷ cs) now
        ≡ apply_all cs (apply_change p.player_id (fields_of flags p) now)
  unfolding apply_all
  skip flags p cs now shape = ap (λ k. apply_all cs (apply_change k (fields_of flags p) now)) shape

  pub find-apply_all :
      (id : Bytes) (base ps now : List (PlayerState D))
      → Distinct ps
      → Each (λ (p : PlayerState D). IsShort p.player_id) ps
      → find_player id (apply_all (changed base ps) now)
        ≡ patched (find_player id base) (find_player id now) (find_player id ps)
  unfolding apply_all changed patched find_player
  find-apply_all id base [] now d v = refl
  find-apply_all id base (p ∷ ps) now d v =
      let flags = flags_against (find_player p.player_id base) p in
      let shape = clipped_short p.player_id v.0 in
      elim (Bool-cases (nonzero flags)) [
        | inl e ↦
            let next = apply_change p.player_id (fields_of flags p) now in
            let rest = find-apply_all id base ps next d.1 v.1 in
            let here = find-apply_change id p.player_id (fields_of flags p) now in
            rw e (
              ap (find_player id) (skip flags p (changed base ps) now shape)
              ∙ rest
              ∙ rw here (elim (Bool-cases (same p.player_id id)) [
                | inl f ↦ rw (f, ← (same_iff p.player_id id).0 f, d.0, e) refl
                | inr f ↦ rw f refl
              ]))
        | inr e ↦
            let rest = find-apply_all id base ps now d.1 v.1 in
            rw (e, rest)
              (elim (Bool-cases (same p.player_id id)) [
                | inl f ↦ rw (f, ← (same_iff p.player_id id).0 f, d.0, e) refl
                | inr f ↦ rw f refl
              ])
      ]
