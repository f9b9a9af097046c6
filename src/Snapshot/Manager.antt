-- ===== src/Snapshot/Manager.antt =====
-- SnapshotManager of snapshot_manager.cpp: the ring of the last snapshots. The lock is left out: each
-- operation holds it from its first statement to its last. The clock is an argument.
use working_for_codex.Base.{
  ℕ, zero, suc, ◌+◌, ◌-◌, ◌%◌, ◌^◌, Bytes, List, [], ◌∷◌, Option, none, some, if◌then◌else◌, ltb,
  leb, nat_beq, set, get_or, replicate, bytes_eq, same,
}
use working_for_codex.Base.Real.{narrow, float_sub, float_mul, float_div, of_nat, Real}
use working_for_codex.Game.Player.{PlayerState}
use working_for_codex.Packet.Types.{ProjectileSnapshot}
use working_for_codex.Snapshot.Types.{Snapshot}

abbrev pub buffer_size : ℕ
buffer_size = 64

-- `Snapshot{}`.
unfoldable pub blank {ℓ} : {D : Type ℓ} → Snapshot D
blank = record { sequence = 0; timestamp = 0; players = []; projectiles = [] }

pub record SnapshotManager {ℓ} (D : Type ℓ) : Type ℓ where
  pub buffer : List (Snapshot D)
  pub current_sequence : ℕ
  pub head : ℕ
  pub count : ℕ

-- A projectile, by what `CreateSnapshot` takes of it.
pub record Shot {ℓ} (D : Type ℓ) : Type ℓ where
  pub owner_id : Bytes
  pub x : D
  pub y : D
  pub direction_x : D
  pub direction_y : D

module _ {ℓ} {D : Type ℓ} where
  unfoldable pub create : SnapshotManager D
  unfolding blank
  create = record {
    buffer = replicate buffer_size blank;
    current_sequence = 0;
    head = 0;
    count = 0;
  }

  unfoldable pub save_snapshot : Snapshot D → SnapshotManager D → SnapshotManager D
  save_snapshot s m = record m {
    buffer = set m.buffer m.head s;
    head = (m.head + 1) % buffer_size;
    count = if ltb m.count buffer_size then m.count + 1 else m.count;
  }

  -- `(head_ + BUFFER_SIZE - 1 - i) % BUFFER_SIZE`, the place of the i-th newest snapshot.
  unfoldable pub place : SnapshotManager D → ℕ → ℕ
  place m i = (m.head + buffer_size - 1 - i) % buffer_size

  unfoldable pub stored : SnapshotManager D → ℕ → Snapshot D
  unfolding blank
  stored m i = get_or m.buffer i blank

  -- The loop of `FindIndex` with n rounds left.
  unfoldable pub find_from : ℕ → ℕ → ℕ → SnapshotManager D → Option ℕ
  unfolding place stored
  find_from zero i sequence m = none
  find_from (suc n) i sequence m =
      let rest = find_from n (i + 1) sequence m in
      let s = stored m (place m i) in if nat_beq s.sequence sequence then some (place m i) else rest

  unfoldable pub find_index : ℕ → SnapshotManager D → Option ℕ
  unfolding find_from
  find_index sequence m = find_from m.count 0 sequence m

  abbrev pub stored_at : SnapshotManager D → Option ℕ → Option (Snapshot D)
  stored_at m none = none
  stored_at m (some i) = some (stored m i)

  unfoldable pub get_snapshot : ℕ → SnapshotManager D → Option (Snapshot D)
  unfolding find_index stored
  get_snapshot sequence m = stored_at m (find_index sequence m)

  unfoldable pub get_latest_snapshot : SnapshotManager D → Option (Snapshot D)
  unfolding stored
  get_latest_snapshot m =
      if nat_beq m.count 0 then none else some (stored m ((m.head + buffer_size - 1) % buffer_size))

  unfoldable pub buffered_count : SnapshotManager D → ℕ
  buffered_count m = m.count

module _ {ℓ} {D : Type ℓ} ⦃r : Real D⦄ where
  -- `std::clamp(t, 0.0f, 1.0f)`.
  unfoldable pub clamp : D → D
  clamp t =
      if r.less t (r.ratio 0 1)
      then r.ratio 0 1
      else if r.less (r.ratio 1 1) t
      then r.ratio 1 1
      else t

  unfoldable pub lerp : D → D → D → D
  lerp t a b = r.add a (r.mul t (r.sub b a))

  -- The inner loop of the interpolation of a player, up to its `break`.
  unfoldable pub interp_player : D → PlayerState D → List (PlayerState D) → PlayerState D
  unfolding lerp
  interp_player t after [] = after
  interp_player t after (before ∷ more) =
      let rest = interp_player t after more in
      if same before.player_id after.player_id
      then record after {
        x = lerp t before.x after.x;
        y = lerp t before.y after.y;
        facing_radians = lerp t before.facing_radians after.facing_radians;
      }
      else rest

  unfoldable pub interp_players :
      D → List (PlayerState D) → List (PlayerState D) → List (PlayerState D)
  unfolding interp_player
  interp_players t [] befores = []
  interp_players t (after ∷ more) befores =
      interp_player t after befores ∷ interp_players t more befores

  -- A coordinate of a projectile is a `float`.
  unfoldable pub lerp_bits : D → ℕ → ℕ → ℕ
  unfolding narrow
  lerp_bits t a b =
      let x = r.of_bits a in r.to_bits (r.add x (float_mul t (float_sub (r.of_bits b) x)))

  unfoldable pub interp_projectile :
      D → ProjectileSnapshot → List ProjectileSnapshot → ProjectileSnapshot
  unfolding lerp_bits
  interp_projectile t after [] = after
  interp_projectile t after (before ∷ more) =
      let rest = interp_projectile t after more in
      if nat_beq before.id after.id
      then record after { x = lerp_bits t before.x after.x; y = lerp_bits t before.y after.y }
      else rest

  unfoldable pub interp_projectiles :
      D → List ProjectileSnapshot → List ProjectileSnapshot → List ProjectileSnapshot
  unfolding interp_projectile
  interp_projectiles t [] befores = []
  interp_projectiles t (after ∷ more) befores =
      interp_projectile t after befores ∷ interp_projectiles t more befores

  -- The end of `GetSnapshotAt`, between the snapshots on both sides of the time.
  unfoldable pub interpolate : ℕ → Snapshot D → Snapshot D → Snapshot D
  unfolding clamp interp_players interp_projectiles
  interpolate timestamp before after =
      let part =
        float_div (narrow (of_nat (timestamp - before.timestamp)))
          (narrow (of_nat (after.timestamp - before.timestamp))) in
      let t = clamp part in
      if nat_beq after.timestamp before.timestamp then after else record {
        sequence = after.sequence;
        timestamp = timestamp;
        players = interp_players t after.players before.players;
        projectiles = interp_projectiles t after.projectiles before.projectiles;
      }

  -- The search of `GetSnapshotAt` with n rounds left, and what follows each of its outcomes.
  unfoldable pub at_from : ℕ → ℕ → ℕ → SnapshotManager D → Snapshot D
  unfolding place stored interpolate
  at_from zero i timestamp m = stored m ((m.head + buffer_size - m.count) % buffer_size)
  at_from (suc n) i timestamp m =
      let rest = at_from n (i + 1) timestamp m in
      let s = stored m (place m i) in
      if leb s.timestamp timestamp
      then if nat_beq i 0
        then s
        else interpolate timestamp s (stored m ((place m i + 1) % buffer_size))
      else rest

  unfoldable pub get_snapshot_at : ℕ → SnapshotManager D → Option (Snapshot D)
  unfolding at_from
  get_snapshot_at timestamp m =
      if nat_beq m.count 0 then none else some (at_from m.count 0 timestamp m)

  -- `proj_id++` for each projectile; `Projectile::Speed()` is 30.
  unfoldable pub shots_from : ℕ → List (Shot D) → List ProjectileSnapshot
  shots_from id [] = []
  shots_from id (s ∷ ss) =
      record {
        id = id;
        owner_id = s.owner_id;
        x = r.to_bits s.x;
        y = r.to_bits s.y;
        velocity_x = r.to_bits (r.mul s.direction_x (r.ratio 30 1));
        velocity_y = r.to_bits (r.mul s.direction_y (r.ratio 30 1));
      }
      ∷ shots_from ((id + 1) % 2 ^ 32) ss

  unfoldable pub create_snapshot :
      ℕ → List (PlayerState D) → List (Shot D) → SnapshotManager D → Snapshot D × SnapshotManager D
  unfolding shots_from
  create_snapshot now players shots m =
      let next = (m.current_sequence + 1) % 2 ^ 32 in
      (
        record {
          sequence = next;
          timestamp = now;
          players = players;
          projectiles = shots_from 0 shots;
        },
        record m { current_sequence = next },
      )
