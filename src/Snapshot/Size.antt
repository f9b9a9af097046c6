-- ===== src/Snapshot/Size.antt =====
-- EstimatedSize of snapshot_manager.cpp against the length of what Serialize writes.
use working_for_codex.Base.{
  Each, ℕ, ◌+◌, ◌≤◌, ◌≡◌, Bytes, List, [], ◌∷◌, length, min, arith, append_assoc, length-append,
}
use working_for_codex.Base.Real.{Real}
use working_for_codex.Game.Player.{PlayerState}
use working_for_codex.Packet.Buffer.{write_uint8, write_uint32_be, write_uint64_be, write_float}
use working_for_codex.Packet.Types.{ProjectileSnapshot}
use working_for_codex.Packet.Codec.{length-clipped}
use working_for_codex.Snapshot.Types.{
  Snapshot, write_each, write_projectile, write_player, serialize, add_players, add_projectiles,
  estimated_size,
}

-- An id that `WriteString` does not cut.
abbrev pub IsShort : Bytes → Type 0
IsShort id = length id ≤ 255

length-projectile :
    (buffer : Bytes) (p : ProjectileSnapshot)
    → length (write_projectile buffer p) ≡ length buffer + (21 + min (length p.owner_id) 255)
unfolding write_projectile write_float
length-projectile buffer p = simp (append_assoc, length-append, length-clipped) (omega arith)

write_projectiles-fit :
    (ps : List ProjectileSnapshot) (buffer : Bytes) (size : ℕ)
    → length (write_each write_projectile buffer ps) + size
      ≤ length buffer + add_projectiles size ps
unfolding write_each add_projectiles
write_projectiles-fit [] buffer size = omega arith
write_projectiles-fit (p ∷ ps) buffer size = omega (
  arith,
  write_projectiles-fit ps (write_projectile buffer p) (size + (21 + length p.owner_id)),
  length-projectile buffer p,
)

write_projectiles-fill :
    (ps : List ProjectileSnapshot) (buffer : Bytes) (size : ℕ)
    → Each (λ (p : ProjectileSnapshot). IsShort p.owner_id) ps
    → length (write_each write_projectile buffer ps) + size
      ≡ length buffer + add_projectiles size ps
unfolding write_each add_projectiles
write_projectiles-fill [] buffer size v = omega arith
write_projectiles-fill (p ∷ ps) buffer size v = omega (
  arith,
  write_projectiles-fill ps (write_projectile buffer p) (size + (21 + length p.owner_id)) v.1,
  length-projectile buffer p,
  v.0,
)

module _ {ℓ} {D : Type ℓ} ⦃r : Real D⦄ where
  length-player :
      (buffer : Bytes) (p : PlayerState D)
      → length (write_player buffer p) ≡ length buffer + (22 + min (length p.player_id) 255)
  unfolding write_player write_float
  length-player buffer p = simp (append_assoc, length-append, length-clipped) (omega arith)

  write_players-fit :
      (ps : List (PlayerState D)) (buffer : Bytes) (size : ℕ)
      → length (write_each write_player buffer ps) + size ≤ length buffer + add_players size ps
  unfolding write_each add_players
  write_players-fit [] buffer size = omega arith
  write_players-fit (p ∷ ps) buffer size = omega (
    arith,
    write_players-fit ps (write_player buffer p) (size + (1 + length p.player_id + 21)),
    length-player buffer p,
  )

  write_players-fill :
      (ps : List (PlayerState D)) (buffer : Bytes) (size : ℕ)
      → Each (λ (p : PlayerState D). IsShort p.player_id) ps
      → length (write_each write_player buffer ps) + size ≡ length buffer + add_players size ps
  unfolding write_each add_players
  write_players-fill [] buffer size v = omega arith
  write_players-fill (p ∷ ps) buffer size v = omega (
    arith,
    write_players-fill ps (write_player buffer p) (size + (1 + length p.player_id + 21)) v.1,
    length-player buffer p,
    v.0,
  )

  -- No player's id and no owner's id is longer than 255 bytes.
  pub record HasShortIds (s : Snapshot D) : Type ℓ where
    pub players_short : Each (λ (p : PlayerState D). IsShort p.player_id) s.players
    pub owners_short : Each (λ (p : ProjectileSnapshot). IsShort p.owner_id) s.projectiles

  -- EstimatedSize is never smaller than what Serialize writes.
  pub serialize-fits : (s : Snapshot D) → length (serialize s) ≤ estimated_size s
  unfolding serialize estimated_size write_uint8 write_uint32_be write_uint64_be
  serialize-fits s =
      let head = write_uint64_be (write_uint32_be [] s.sequence) s.timestamp in
      let counted = write_uint8 head (min (length s.players) 255) in
      let people = write_each write_player counted s.players in
      let both = write_uint8 people (min (length s.projectiles) 255) in
      omega (
        arith,
        write_projectiles-fit s.projectiles both (add_players 14 s.players),
        write_players-fit s.players counted 14,
        length-append people (min (length s.projectiles) 255 ∷ []),
      )

  -- When no player's id and no owner's id is longer than 255 bytes, EstimatedSize is exactly the
  -- number of bytes that Serialize writes.
  pub length-serialize : (s : Snapshot D) → HasShortIds s → length (serialize s) ≡ estimated_size s
  unfolding serialize estimated_size write_uint8 write_uint32_be write_uint64_be
  length-serialize s v =
      let head = write_uint64_be (write_uint32_be [] s.sequence) s.timestamp in
      let counted = write_uint8 head (min (length s.players) 255) in
      let people = write_each write_player counted s.players in
      let both = write_uint8 people (min (length s.projectiles) 255) in
      omega (
        arith,
        write_projectiles-fill s.projectiles both (add_players 14 s.players) v.owners_short,
        write_players-fill s.players counted 14 v.players_short,
        length-append people (min (length s.projectiles) 255 ∷ []),
      )
