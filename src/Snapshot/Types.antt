-- ===== src/Snapshot/Types.antt =====
-- Snapshot and Delta of snapshot_manager.h, with their `Serialize` and `Deserialize`. The helpers of
-- the anonymous namespace write as those of packet_types.cpp do. The readers do not look at the
-- length of the data: a read past the end is undefined, and stands here as the error of that codec.
use working_for_codex.Base.{
  ℕ, zero, suc, ◌+◌, ◌%◌, ◌^◌, Bytes, List, [], ◌∷◌, ◌++◌, length, min, drop, Result,
}
use working_for_codex.Base.Real.{Real}
use working_for_codex.Game.Player.{PlayerState, fresh_player}
use working_for_codex.Packet.Buffer.{
  Error, write_uint8, write_uint32_be, write_uint64_be, write_float, write_string, Reader, pure,
  ◌>>=◌, read_uint8, read_uint32_be, read_uint64_be, read_float, read_string, uint32_of_int,
  int_of_uint32, bit_of, nonzero,
}
use working_for_codex.Packet.Types.{finish, ProjectileSnapshot}

pub record Snapshot {ℓ} (D : Type ℓ) : Type ℓ where
  pub sequence : ℕ
  pub timestamp : ℕ
  pub players : List (PlayerState D)
  pub projectiles : List ProjectileSnapshot

pub record Delta : Type 0 where
  pub base_sequence : ℕ
  pub target_sequence : ℕ
  pub changes : Bytes

-- The body of a loop that appends to the buffer.
unfoldable pub write_each {ℓ} : {A : Type ℓ} → (Bytes → A → Bytes) → Bytes → List A → Bytes
write_each write buffer [] = buffer
write_each write buffer (x ∷ xs) = write_each write (write buffer x) xs

-- The body of a loop that reads so many times.
unfoldable pub read_each {ℓ} : {A : Type ℓ} → Reader A → ℕ → Reader (List A)
read_each read zero = pure []
read_each read (suc n) = read >>= λ x. read_each read n >>= λ xs. pure (x ∷ xs)

unfoldable pub write_projectile : Bytes → ProjectileSnapshot → Bytes
unfolding write_uint32_be write_float write_string
write_projectile buffer p =
    let place =
      write_float (write_float (write_string (write_uint32_be buffer p.id) p.owner_id) p.x) p.y in
    write_float (write_float place p.velocity_x) p.velocity_y

unfoldable pub read_projectile : Reader ProjectileSnapshot
unfolding read_uint32_be read_float read_string
read_projectile = do
  id ← read_uint32_be
  owner_id ← read_string
  x ← read_float
  y ← read_float
  velocity_x ← read_float
  velocity_y ← read_float
  pure (record {
    id = id;
    owner_id = owner_id;
    x = x;
    y = y;
    velocity_x = velocity_x;
    velocity_y = velocity_y;
  })

unfoldable pub add_projectiles : ℕ → List ProjectileSnapshot → ℕ
add_projectiles size [] = size
add_projectiles size (p ∷ ps) = add_projectiles (size + (21 + length p.owner_id)) ps

module _ {ℓ} {D : Type ℓ} ⦃r : Real D⦄ where
  unfoldable pub write_player : Bytes → PlayerState D → Bytes
  unfolding write_uint8 write_uint32_be write_float write_string uint32_of_int
  write_player buffer p =
      let place = write_float (write_string buffer p.player_id) (r.to_bits p.x) in
      let pose = write_float (write_float place (r.to_bits p.y)) (r.to_bits p.facing_radians) in
      let life = write_uint8 (write_uint32_be pose (uint32_of_int p.health)) (bit_of p.is_alive) in
      write_uint32_be life (p.last_sequence % 2 ^ 32)

  unfoldable pub read_player : Reader (PlayerState D)
  unfolding read_uint8 read_uint32_be read_float read_string int_of_uint32 fresh_player
  read_player = do
    player_id ← read_string
    x ← read_float
    y ← read_float
    facing_radians ← read_float
    health ← read_uint32_be
    is_alive ← read_uint8
    last_sequence ← read_uint32_be
    pure (record (fresh_player player_id) {
      x = r.of_bits x;
      y = r.of_bits y;
      facing_radians = r.of_bits facing_radians;
      health = int_of_uint32 health;
      is_alive = nonzero is_alive;
      last_sequence = last_sequence;
    })

  unfoldable pub serialize : Snapshot D → Bytes
  unfolding write_uint8 write_uint32_be write_uint64_be write_each write_player write_projectile
  serialize s =
      let head = write_uint64_be (write_uint32_be [] s.sequence) s.timestamp in
      let counted = write_uint8 head (min (length s.players) 255) in
      let people = write_each write_player counted s.players in
      write_each write_projectile (write_uint8 people (min (length s.projectiles) 255))
        s.projectiles

  unfoldable pub read_snapshot : Reader (Snapshot D)
  unfolding read_uint8 read_uint32_be read_uint64_be read_each read_player read_projectile
  read_snapshot = do
    sequence ← read_uint32_be
    timestamp ← read_uint64_be
    player_count ← read_uint8
    players ← read_each read_player player_count
    proj_count ← read_uint8
    projectiles ← read_each read_projectile proj_count
    pure (record {
      sequence = sequence;
      timestamp = timestamp;
      players = players;
      projectiles = projectiles;
    })

  unfoldable pub deserialize : Bytes → Result Error (Snapshot D)
  unfolding read_snapshot
  deserialize payload = finish (read_snapshot payload 0)

  unfoldable pub add_players : ℕ → List (PlayerState D) → ℕ
  add_players size [] = size
  add_players size (p ∷ ps) = add_players (size + (1 + length p.player_id + 21)) ps

  unfoldable pub estimated_size : Snapshot D → ℕ
  unfolding add_players add_projectiles
  estimated_size s = add_projectiles (add_players 14 s.players) s.projectiles

unfoldable pub serialize_delta : Delta → Bytes
unfolding write_uint32_be
serialize_delta d =
    write_uint32_be (write_uint32_be [] d.base_sequence) d.target_sequence ++ d.changes

-- What is left of the data, as in `assign(data.begin() + offset, data.end())`.
unfoldable pub read_rest : Reader Bytes
read_rest payload offset = pure (drop offset payload) payload (length payload)

unfoldable pub read_delta : Reader Delta
unfolding read_uint32_be read_rest
read_delta = do
  base_sequence ← read_uint32_be
  target_sequence ← read_uint32_be
  changes ← read_rest
  pure (record {
    base_sequence = base_sequence;
    target_sequence = target_sequence;
    changes = changes;
  })

unfoldable pub deserialize_delta : Bytes → Result Error Delta
unfolding read_delta
deserialize_delta payload = finish (read_delta payload 0)
