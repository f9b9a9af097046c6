-- ===== src/Netcode/Rewind.antt =====
-- lag_compensation.h and lag_compensation.cpp.
use working_for_codex.Base.{
  ℕ, ◌+◌, ◌-◌, ◌*◌, ◌/◌, ◌%◌, ◌^◌, Bool, true, false, not, ◌||◌, Bytes, List, [], ◌∷◌, ◌++◌, Option,
  none, some, if◌then◌else◌, ltb, leb, length, drop, bytes_eq, same, codes,
}
use working_for_codex.Base.Real.{Real, narrow, float_add, float_sub, float_mul, float_div, of_nat}
use working_for_codex.Game.Player.{PlayerState}
use working_for_codex.Game.Projectile.{Projectile}
use working_for_codex.Snapshot.Manager.{interp_players}

pub record WorldState {ℓ} (D : Type ℓ) : Type ℓ where
  pub timestamp : ℕ
  pub players : List (PlayerState D)
  pub projectiles : List (Projectile D)

pub record HitRequest {ℓ} (D : Type ℓ) : Type ℓ where
  pub shooter_id : Bytes
  pub client_timestamp : ℕ
  pub origin_x : D
  pub origin_y : D
  pub direction_x : D
  pub direction_y : D

pub record HitResult {ℓ} (D : Type ℓ) : Type ℓ where
  pub valid : Bool
  pub hit_player_id : Bytes
  pub hit_x : D
  pub hit_y : D
  pub damage : D
  pub reject_reason : Bytes

-- The history, oldest first, and `Stats`.
pub record LagCompensation {ℓ} (D : Type ℓ) : Type ℓ where
  pub history : List (WorldState D)
  pub hits_validated : ℕ
  pub hits_accepted : ℕ
  pub hits_rejected : ℕ
  pub avg_rewind_ms : D

abbrev pub history_size : ℕ
history_size = 128

abbrev pub max_rewind_ms : ℕ
max_rewind_ms = 200

-- The first loop drops what is too much from the front.
unfoldable pub save_world_state {ℓ} :
    {D : Type ℓ} → WorldState D → LagCompensation D → LagCompensation D
save_world_state state l =
    let pushed = l.history ++ state ∷ [] in
    record l { history = drop (length pushed - history_size) pushed }

unfoldable pub calculate_rewind_time : ℕ → ℕ → ℕ → ℕ
calculate_rewind_time client_timestamp server_time client_rtt =
    let sent = (client_timestamp + client_rtt / 2) % 2 ^ 64 in
    if leb sent server_time then server_time - sent else 0

-- The closest hit so far: its distance and the player; `closest_player` starts empty.
pub record Closest {ℓ} (D : Type ℓ) : Type ℓ where
  pub distance : D
  pub player : Bytes

abbrev pub unless_unnamed {ℓ} : {D : Type ℓ} → Bytes → Closest D → Option (Closest D)
unless_unnamed [] best = none
unless_unnamed (b ∷ bs) best = some best

module _ {ℓ} {D : Type ℓ} ⦃r : Real D⦄ where
  unfoldable pub new_compensation : LagCompensation D
  new_compensation = record {
    history = [];
    hits_validated = 0;
    hits_accepted = 0;
    hits_rejected = 0;
    avg_rewind_ms = of_nat 0;
  }

  -- The distance along the ray to the circle, or none.
  unfoldable pub ray_circle_intersect : D → D → D → D → D → D → D → Option D
  unfolding narrow
  ray_circle_intersect ox oy dx dy cx cy radius =
      let fx = float_sub ox cx in
      let fy = float_sub oy cy in
      let a = float_add (float_mul dx dx) (float_mul dy dy) in
      let b = float_mul (of_nat 2) (float_add (float_mul fx dx) (float_mul fy dy)) in
      let c = float_sub (float_add (float_mul fx fx) (float_mul fy fy)) (float_mul radius radius) in
      let discriminant = float_sub (float_mul b b) (float_mul (float_mul (of_nat 4) a) c) in
      let root = narrow (r.sqrt discriminant) in
      let minus_b = r.neg b in
      let twice_a = float_mul (of_nat 2) a in
      let t1 = float_div (float_sub minus_b root) twice_a in
      let t2 = float_div (float_add minus_b root) twice_a in
      if r.less discriminant (of_nat 0)
      then none
      else if r.at_most (of_nat 0) t1
      then some t1
      else if r.at_most (of_nat 0) t2
      then some t2
      else none

  -- A hit that is nearer takes the place of the closest one.
  abbrev pub nearer : Bytes → Option D → Closest D → Closest D
  nearer id none best = best
  nearer id (some t) best =
      if r.less t best.distance then record { distance = t; player = id } else best

  -- The loop of `RaycastPlayers`; the radius of a player is 0.5.
  unfoldable pub raycast : HitRequest D → List (PlayerState D) → Closest D → Closest D
  unfolding ray_circle_intersect narrow
  raycast q [] best = best
  raycast q (p ∷ ps) best =
      let met =
        ray_circle_intersect q.origin_x q.origin_y q.direction_x q.direction_y (narrow p.x)
          (narrow p.y) (r.ratio 1 2) in
      let next =
        if same p.player_id q.shooter_id || not p.is_alive
        then best
        else nearer p.player_id met best in
      raycast q ps next

  -- `std::numeric_limits<float>::max()`.
  abbrev pub max_float : D
  max_float = r.ratio ((2 ^ 24 - 1) * 2 ^ 104) 1

  unfoldable pub raycast_players : WorldState D → HitRequest D → Option (Closest D)
  unfolding raycast
  raycast_players w q =
      let start : Closest D = record { distance = max_float; player = [] } in
      let best = raycast q w.players start in unless_unnamed best.player best

  -- The coordinates are interpolated as SnapshotManager does it; the projectiles are the later ones.
  unfoldable pub interpolate : WorldState D → WorldState D → D → WorldState D
  unfolding interp_players narrow
  interpolate a b t = record {
    timestamp =
        (a.timestamp + r.truncate (float_mul t (narrow (of_nat (b.timestamp - a.timestamp)))))
        % 2 ^ 64;
    players = interp_players t b.players a.players;
    projectiles = b.projectiles;
  }

  -- The loop over the pairs of neighbours.
  unfoldable pub between : ℕ → WorldState D → List (WorldState D) → WorldState D → WorldState D
  unfolding interpolate narrow
  between timestamp before [] newest = newest
  between timestamp before (after ∷ more) newest =
      let t =
        float_div (narrow (of_nat (timestamp - before.timestamp)))
          (narrow (of_nat (after.timestamp - before.timestamp))) in
      if leb timestamp after.timestamp
      then interpolate before after t
      else between timestamp after more newest

  unfoldable pub newest_of : WorldState D → List (WorldState D) → WorldState D
  newest_of w [] = w
  newest_of w (v ∷ vs) = newest_of v vs

  unfoldable pub state_at : ℕ → List (WorldState D) → Option (WorldState D)
  unfolding between newest_of
  state_at timestamp [] = none
  state_at timestamp (w ∷ ws) =
      let newest = newest_of w ws in
      if leb timestamp w.timestamp
      then some w
      else if leb newest.timestamp timestamp
      then some newest
      else some (between timestamp w ws newest)

  unfoldable pub get_world_state_at : ℕ → LagCompensation D → Option (WorldState D)
  unfolding state_at
  get_world_state_at timestamp l = state_at timestamp l.history

  abbrev pub rejected : Bytes → LagCompensation D → HitResult D × LagCompensation D
  rejected reason l = (
    record {
      valid = false;
      hit_player_id = [];
      hit_x = of_nat 0;
      hit_y = of_nat 0;
      damage = of_nat 0;
      reject_reason = reason;
    },
    record l { hits_rejected = (l.hits_rejected + 1) % 2 ^ 64 },
  )

  abbrev pub accepted :
      HitRequest D → ℕ → Closest D → LagCompensation D → HitResult D × LagCompensation D
  accepted q rewind best l = (
    record {
      valid = true;
      hit_player_id = best.player;
      hit_x = float_add q.origin_x (float_mul best.distance q.direction_x);
      hit_y = float_add q.origin_y (float_mul best.distance q.direction_y);
      damage = of_nat 20;
      reject_reason = [];
    },
    record l {
      hits_accepted = (l.hits_accepted + 1) % 2 ^ 64;
      avg_rewind_ms =
          float_div
            (float_add (float_mul l.avg_rewind_ms (narrow (of_nat (l.hits_validated - 1))))
              (narrow (of_nat rewind)))
            (narrow (of_nat l.hits_validated));
    },
  )

  abbrev pub judge_hit :
      HitRequest D → ℕ → Option (Closest D) → LagCompensation D → HitResult D × LagCompensation D
  judge_hit q rewind none l = rejected (codes "No hit detected") l
  judge_hit q rewind (some best) l = accepted q rewind best l

  abbrev pub judge_state :
      HitRequest D → ℕ → Option (WorldState D) → LagCompensation D → HitResult D × LagCompensation D
  judge_state q rewind none l = rejected (codes "No historical state available") l
  judge_state q rewind (some w) l = judge_hit q rewind (raycast_players w q) l

  unfoldable pub validate_hit :
      HitRequest D → ℕ → LagCompensation D → HitResult D × LagCompensation D
  unfolding get_world_state_at raycast_players narrow
  validate_hit q server_time l =
      let counted = record l { hits_validated = (l.hits_validated + 1) % 2 ^ 64 } in
      let rewind = server_time - q.client_timestamp in
      if ltb server_time q.client_timestamp
      then rejected (codes "Client timestamp in future") counted
      else if ltb max_rewind_ms rewind
      then rejected (codes "Rewind exceeds maximum") counted
      else judge_state q rewind (get_world_state_at q.client_timestamp counted) counted
