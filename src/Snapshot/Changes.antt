-- ===== src/Snapshot/Changes.antt =====
-- The bytes of a delta of snapshot_manager.cpp as the list of changes that they stand for.
use working_for_codex.Base.{
  ℕ, ◌≡◌, refl, ap, sym, ◌∙◌, Bool, true, false, Bytes, List, [], ◌∷◌, ◌++◌, Option, none, some,
  if◌then◌else◌, length, min, append_assoc, append-nil,
}
use working_for_codex.Base.Real.{narrow, Real, HasFloats}
use working_for_codex.Game.Player.{PlayerState}
use working_for_codex.Packet.Buffer.{
  write_uint8, write_uint32_be, write_float, write_string, Reader, pure, ◌>>=◌, read_float,
  uint32_of_int, int_of_uint32, bit_of, nonzero,
}
use working_for_codex.Packet.Codec.{
  Codec, Codec-pure, Codec-bind, Codec-uint8, Codec-uint32, Codec-string, clipped, bytes32,
}
use working_for_codex.Packet.RoundTrip.{IsInt32, Codec-resp, bool_bit, uint32-fits, int-uint32}
use working_for_codex.Snapshot.Deltas.{
  Fields, flag, read_if, write_change, read_fields, apply_change, read_change,
}

abbrev pub only_if {ℓ} : {A : Type ℓ} → Bool → A → Option A
only_if b a = if b then some a else none

Codec-if {ℓ} :
    {A : Type ℓ} {r : Reader A} {bs : Bytes} {a : A} (b : Bool)
    → Codec r bs a
    → Codec (read_if b r) (if b then bs else []) (only_if b a)
Codec-if true c = Codec-resp (Codec-bind _ _ c (Codec-pure _)) (append-nil _) refl
Codec-if false c = Codec-pure none

-- One optional field more on a buffer that starts with `before`.
extend :
    (b : Bool) (before xs bs : Bytes) {buffer written : Bytes}
    → buffer ≡ before ++ xs
    → written ≡ buffer ++ bs
    → (if b then written else buffer) ≡ before ++ (xs ++ (if b then bs else []))
extend true before xs bs e f = f ∙ ap (λ l. l ++ bs) e ∙ append_assoc before xs bs
extend false before xs bs e f = e ∙ ap (λ l. before ++ l) (sym (append-nil xs))

write_uint32-bytes : (buffer : Bytes) (v : ℕ) → write_uint32_be buffer v ≡ buffer ++ bytes32 v
unfolding write_uint32_be
write_uint32-bytes buffer v = simp (append_assoc)

module _ {ℓ} {D : Type ℓ} ⦃r : Real D⦄ where
  -- The fields of a player that the flags name, as they arrive.
  unfoldable pub fields_of : ℕ → PlayerState D → Fields D
  unfolding narrow
  fields_of flags p = record {
    x = only_if (flag flags 0) (narrow p.x);
    y = only_if (flag flags 1) (narrow p.y);
    facing_radians = only_if (flag flags 2) (narrow p.facing_radians);
    health = only_if (flag flags 3) p.health;
    is_alive = only_if (flag flags 4) p.is_alive;
  }

  abbrev pub write_one : Bytes → ℕ × PlayerState D → Bytes
  unfolding write_change
  write_one buffer (flags, p) = write_change buffer flags p

  -- The parts of a change on the wire.
  unfoldable pub change_bytes : ℕ → PlayerState D → Bytes
  change_bytes flags p =
      (min (length p.player_id) 255 ∷ clipped p.player_id)
      ++ ((flags ∷ [])
          ++ ((if flag flags 0 then bytes32 (r.to_bits p.x) else [])
              ++ ((if flag flags 1 then bytes32 (r.to_bits p.y) else [])
                  ++ ((if flag flags 2 then bytes32 (r.to_bits p.facing_radians) else [])
                      ++ ((if flag flags 3 then bytes32 (uint32_of_int p.health) else [])
                          ++ (if flag flags 4 then bit_of p.is_alive ∷ [] else []))))))

  pub write_change-bytes :
      (buffer : Bytes) (flags : ℕ) (p : PlayerState D)
      → write_change buffer flags p ≡ buffer ++ change_bytes flags p
  unfolding write_change change_bytes write_float write_string write_uint8
  write_change-bytes buffer flags p =
      let named : Bytes = min (length p.player_id) 255 ∷ clipped p.player_id in
      let e0 : ((buffer ++ min (length p.player_id) 255 ∷ []) ++ clipped p.player_id) ++ flags ∷ []
          ≡ buffer ++ (named ++ flags ∷ []) =
        simp (append_assoc) in
      let e1 =
        extend (flag flags 0) buffer _ (bytes32 (r.to_bits p.x)) e0 (write_uint32-bytes _ _) in
      let e2 =
        extend (flag flags 1) buffer _ (bytes32 (r.to_bits p.y)) e1 (write_uint32-bytes _ _) in
      let e3 =
        extend (flag flags 2) buffer _ (bytes32 (r.to_bits p.facing_radians)) e2
          (write_uint32-bytes _ _) in
      let e4 =
        extend (flag flags 3) buffer _ (bytes32 (uint32_of_int p.health)) e3
          (write_uint32-bytes _ _) in
      let e5 = extend (flag flags 4) buffer _ (bit_of p.is_alive ∷ []) e4 refl in
      e5 ∙ ap (λ l. buffer ++ l) (simp (append_assoc))

  module _ (floats : HasFloats D) where
    float-Codec :
        (v : D) → Codec (read_float >>= λ b. pure (r.of_bits b)) (bytes32 (r.to_bits v)) (narrow v)
    unfolding read_float narrow
    float-Codec v = Codec-bind _ _ (Codec-uint32 (r.to_bits v) (floats v)) (Codec-pure _)

    pub change-Codec :
        (players : List (PlayerState D)) (flags : ℕ) (p : PlayerState D)
        → IsInt32 p.health
        → Codec
            (read_change players)
            (change_bytes flags p)
            (apply_change (clipped p.player_id) (fields_of flags p) players)
    unfolding read_change read_fields change_bytes fields_of
    change-Codec players flags p v =
        let health =
          Codec-resp
            (Codec-bind _ _ (Codec-uint32 (uint32_of_int p.health) (uint32-fits p.health))
              (Codec-pure (int_of_uint32 (uint32_of_int p.health))))
            refl (int-uint32 p.health v) in
        let alive =
          Codec-resp
            (Codec-bind _ _ (Codec-uint8 (bit_of p.is_alive))
              (Codec-pure (nonzero (bit_of p.is_alive))))
            refl (bool_bit p.is_alive) in
        let fields = Codec-bind _ _ (Codec-if (flag flags 0) (float-Codec p.x)) (
          Codec-bind _ _ (Codec-if (flag flags 1) (float-Codec p.y)) (
            Codec-bind _ _ (Codec-if (flag flags 2) (float-Codec p.facing_radians)) (
              Codec-bind _ _ (Codec-if (flag flags 3) health)
                (Codec-bind _ _ (Codec-if (flag flags 4) alive) (Codec-pure _))))) in
        Codec-resp
          (Codec-bind _ _ (Codec-string p.player_id)
            (Codec-bind _ _ (Codec-uint8 flags) (Codec-bind _ _ fields (Codec-pure _))))
          (simp (append_assoc, append-nil)) refl
