-- ===== src/Snapshot/Wire.antt =====
-- Serialize and Deserialize of the snapshots of snapshot_manager.cpp, against each other.
use working_for_codex.Base.{
  Each, ℕ, ◌%◌, ◌^◌, ◌≤◌, ◌≡◌, refl, ap, ap₂, sym, ◌∙◌, Bytes, List, [], ◌∷◌, ◌++◌, map, length,
  min, ok, arith, append_assoc, append-nil,
}
use working_for_codex.Base.Real.{narrow, Real, HasFloats}
use working_for_codex.Game.Player.{PlayerState, fresh_player}
use working_for_codex.Packet.Buffer.{
  write_uint8, write_uint32_be, write_uint64_be, Reader, uint32_of_int, bit_of,
}
use working_for_codex.Packet.Types.{
  ProjectileSnapshot, serialize_projectile, deserialize_projectile,
}
use working_for_codex.Packet.Codec.{
  Codec, Codec-pure, Codec-bind, Codec-uint8, Codec-uint32, Codec-uint64, Codec-string, clipped,
}
use working_for_codex.Packet.RoundTrip.{
  IsU32, IsU64, IsInt32, IsProjectile, projectile-Codec, Codec-resp, div_one, bool_bit, uint32-fits,
  int-uint32, read-append,
}
use working_for_codex.Snapshot.Types.{
  Snapshot, write_each, read_each, write_projectile, read_projectile, write_player, read_player,
  serialize, read_snapshot, deserialize,
}

-- A loop of writes whose body appends, and the loop of reads that undoes it.
module _ {ℓ} {A : Type ℓ} (write : Bytes → A → Bytes)
    (appends : (buffer : Bytes) (x : A) → write buffer x ≡ buffer ++ write [] x) where
  pub write_each-append :
      (xs : List A) (buffer : Bytes) → write_each write buffer xs ≡ buffer ++ write_each write [] xs
  unfolding write_each
  write_each-append [] buffer = sym (append-nil buffer)
  write_each-append (x ∷ xs) buffer =
      write_each-append xs (write buffer x)
      ∙ rw (appends buffer x) (
          append_assoc buffer (write [] x) (write_each write [] xs)
          ∙ ap (λ l. buffer ++ l) (sym (write_each-append xs (write [] x))))

  pub Codec-each {κ} :
      {P : A → Type κ} (read : Reader A) (f : A → A)
      → ((x : A) → P x → Codec read (write [] x) (f x))
      → (xs : List A) → Each P xs
      → Codec (read_each read (length xs)) (write_each write [] xs) (map f xs)
  unfolding read_each write_each
  Codec-each read f one [] v = Codec-pure []
  Codec-each read f one (x ∷ xs) v =
      Codec-resp
        (Codec-bind _ _ (one x v.0) (Codec-bind _ _ (Codec-each read f one xs v.1) (Codec-pure _)))
        (ap (λ l. write [] x ++ l) (append-nil (write_each write [] xs))
          ∙ sym (write_each-append xs (write [] x)))
        refl

write_projectile-append :
    (buffer : Bytes) (p : ProjectileSnapshot)
    → write_projectile buffer p ≡ buffer ++ write_projectile [] p
unfolding write_projectile
write_projectile-append buffer p = simp (append_assoc)

abbrev pub clip_owner : ProjectileSnapshot → ProjectileSnapshot
clip_owner p = record p { owner_id = clipped p.owner_id }

sent_projectile-Codec :
    (p : ProjectileSnapshot)
    → IsProjectile p
    → Codec read_projectile (write_projectile [] p) (clip_owner p)
unfolding read_projectile write_projectile deserialize_projectile serialize_projectile
sent_projectile-Codec p v = projectile-Codec p v

module _ {ℓ} {D : Type ℓ} ⦃r : Real D⦄ where
  write_player-append :
      (buffer : Bytes) (p : PlayerState D) → write_player buffer p ≡ buffer ++ write_player [] p
  unfolding write_player
  write_player-append buffer p = simp (append_assoc)

  -- What arrives of a player: the counters are not sent.
  unfoldable pub sent_player : PlayerState D → PlayerState D
  unfolding narrow fresh_player
  sent_player p = record (fresh_player (clipped p.player_id)) {
    x = narrow p.x;
    y = narrow p.y;
    facing_radians = narrow p.facing_radians;
    health = p.health;
    is_alive = p.is_alive;
    last_sequence = p.last_sequence % 2 ^ 32;
  }

  unfoldable pub sent : Snapshot D → Snapshot D
  unfolding sent_player
  sent s = record s {
    players = map sent_player s.players;
    projectiles = map clip_owner s.projectiles;
  }

  -- The fields fit in their widths and the numbers of entries in a byte.
  pub record IsSendable (s : Snapshot D) : Type ℓ where
    pub sequence_fits : IsU32 s.sequence
    pub timestamp_fits : IsU64 s.timestamp
    pub few_players : length s.players ≤ 255
    pub healths_fit : Each (λ (p : PlayerState D). IsInt32 p.health) s.players
    pub few_projectiles : length s.projectiles ≤ 255
    pub projectiles_fit : Each IsProjectile s.projectiles

  module _ (floats : HasFloats D) where
    player-Codec :
        (p : PlayerState D)
        → IsInt32 p.health
        → Codec read_player (write_player [] p) (sent_player p)
    unfolding read_player write_player sent_player narrow
    player-Codec p v =
        Codec-resp
          (Codec-bind _ _ (Codec-string p.player_id) (
            Codec-bind _ _ (Codec-uint32 (r.to_bits p.x) (floats p.x)) (
              Codec-bind _ _ (Codec-uint32 (r.to_bits p.y) (floats p.y)) (
                Codec-bind _ _ (Codec-uint32 (r.to_bits p.facing_radians) (floats p.facing_radians))
                  (Codec-bind _ _ (Codec-uint32 (uint32_of_int p.health) (uint32-fits p.health)) (
                    Codec-bind _ _ (Codec-uint8 (bit_of p.is_alive)) (
                      Codec-bind _ _ (Codec-uint32 (p.last_sequence % 2 ^ 32) (omega arith))
                        (Codec-pure _))))))))
          (simp (append_assoc, append-nil))
          (ap₂ (λ h b. record (sent_player p) { health = h; is_alive = b }) (int-uint32 p.health v)
            (bool_bit p.is_alive))

    counted : (n k : ℕ) → n ≤ k → min n k ≡ n
    counted n k le = omega arith

    snapshot-Codec : (s : Snapshot D) → IsSendable s → Codec read_snapshot (serialize s) (sent s)
    unfolding read_snapshot serialize sent write_uint8 write_uint32_be write_uint64_be
    snapshot-Codec s v =
        let shots = write_each write_projectile [] s.projectiles in
        let few = counted (length s.players) 255 v.few_players in
        let fewer = counted (length s.projectiles) 255 v.few_projectiles in
        Codec-resp
          (Codec-bind _ _ (Codec-uint32 s.sequence v.sequence_fits) (
            Codec-bind _ _ (Codec-uint64 s.timestamp v.timestamp_fits) (
              Codec-bind _ _ (Codec-uint8 (length s.players)) (
                Codec-bind _ _
                  (Codec-each write_player write_player-append read_player sent_player player-Codec
                    s.players v.healths_fit)
                  (Codec-bind _ _ (Codec-uint8 (length s.projectiles)) (
                    Codec-bind _ _
                      (Codec-each write_projectile write_projectile-append read_projectile
                        clip_owner sent_projectile-Codec s.projectiles v.projectiles_fit)
                      (Codec-pure _)))))))
          (rw (few, fewer)
            (sym (
              write_each-append write_projectile write_projectile-append s.projectiles _
              ∙ ap (λ l. (l ++ length s.projectiles ∷ []) ++ shots)
                  (write_each-append write_player write_player-append s.players _)
              ∙ simp (append_assoc, append-nil, div_one))))
          refl

    -- Where the bits of a float fit in 32, a snapshot whose numbers fit in their widths and which has
    -- at most 255 players and 255 projectiles is read back whatever follows it: with every entry in
    -- its place, ids cut to 255 bytes, coordinates narrowed to floats and sequence numbers of players
    -- modulo 2^32. The counts of shots, hits and deaths are not sent: they come back as 0.
    pub deserialize-serialize :
        (s : Snapshot D) (rest : Bytes)
        → IsSendable s
        → deserialize (serialize s ++ rest) ≡ ok (sent s)
    unfolding deserialize
    deserialize-serialize s rest v = rw (read-append (snapshot-Codec s v) rest) refl
