-- ===== src/Game/Session.antt =====
-- game_session.h and game_session.cpp. The lock is left out: each operation holds it from its first
-- statement to its last. What goes to `std::cout` is not kept.
use working_for_codex.Base.{
  ℕ, ◌+◌, ◌%◌, ◌^◌, Bool, true, false, ◌||◌, Bytes, List, [], ◌∷◌, ◌++◌, Option, none, some,
  if◌then◌else◌, not, ltb, bytes_eq, same, codes, decimal,
}
use working_for_codex.Base.Int.{ℤ, pos, ◌+ℤ◌}
use working_for_codex.Base.Real.{Real, of_nat}
use working_for_codex.Base.Dict.{Dict, find, put, erase}
use working_for_codex.Game.Player.{PlayerState, fresh_player}
use working_for_codex.Game.Combat.{
  HealthComponent, new_health, is_alive, reset, CombatEvent, CombatLog, new_log,
}
use working_for_codex.Game.Projectile.{Projectile, new_projectile}

-- movement.h.
pub record MovementInput {ℓ} (D : Type ℓ) : Type ℓ where
  pub sequence : ℕ
  pub up : Bool
  pub down : Bool
  pub left : Bool
  pub right : Bool
  pub mouse_x : D
  pub mouse_y : D
  pub fire : Bool

pub record PlayerRuntimeState {ℓ} (D : Type ℓ) : Type ℓ where
  pub state : PlayerState D
  pub health : HealthComponent
  pub last_fire_time : D
  pub death_announced : Bool
  pub shots_fired : ℤ
  pub hits_landed : ℤ
  pub deaths : ℤ

pub record GameSession {ℓ} (D : Type ℓ) : Type ℓ where
  pub elapsed_time : D
  pub projectile_counter : ℕ
  pub combat_log : CombatLog
  pub projectiles : List (Projectile D)
  pub pending_deaths : List CombatEvent
  pub projectiles_spawned_total : ℕ
  pub projectiles_hits_total : ℕ
  pub players_dead_total : ℕ
  pub collisions_checked_total : ℕ
  pub players : Dict Bytes (PlayerRuntimeState D)

-- How a call ends.
pub data Outcome : Type 0 where
  returned : Outcome
  invalid_argument : Outcome

abbrev pub incr : ℕ → ℕ
incr n = (n + 1) % 2 ^ 64

unfoldable pub drop_owned {ℓ} : {D : Type ℓ} → Bytes → List (Projectile D) → List (Projectile D)
drop_owned id [] = []
drop_owned id (p ∷ ps) =
    let rest = drop_owned id ps in if same p.owner_id id then rest else p ∷ rest

unfoldable pub active_only {ℓ} : {D : Type ℓ} → List (Projectile D) → List (Projectile D)
active_only [] = []
active_only (p ∷ ps) = let rest = active_only ps in if p.active then p ∷ rest else rest

abbrev pub is_empty : Bytes → Bool
is_empty [] = true
is_empty (b ∷ bs) = false

abbrev pub or_new {ℓ} : {A : Type ℓ} → Option A → A → A
or_new none a = a
or_new (some b) a = b

abbrev pub projectile_id : ℕ → Bytes
projectile_id n = codes "projectile-" ++ decimal n

module _ {ℓ} {D : Type ℓ} ⦃r : Real D⦄ where
  unfoldable pub create : GameSession D
  unfolding new_log
  create = record {
    elapsed_time = of_nat 0;
    projectile_counter = 0;
    combat_log = new_log 32;
    projectiles = [];
    pending_deaths = [];
    projectiles_spawned_total = 0;
    projectiles_hits_total = 0;
    players_dead_total = 0;
    collisions_checked_total = 0;
    players = [];
  }

  -- `PlayerRuntimeState{}`, which `players_[player_id]` makes for a new key.
  unfoldable pub new_runtime : PlayerRuntimeState D
  unfolding fresh_player new_health
  new_runtime = record {
    state = fresh_player [];
    health = new_health (pos 100);
    last_fire_time = r.lowest;
    death_announced = false;
    shots_fired = pos 0;
    hits_landed = pos 0;
    deaths = pos 0;
  }

  -- The fields that are set where the id is still empty.
  unfoldable pub placed : Bytes → PlayerRuntimeState D → PlayerRuntimeState D
  placed id rt =
      if is_empty rt.state.player_id
      then record rt {
        state = record rt.state {
          player_id = id;
          x = of_nat 0;
          y = of_nat 0;
          facing_radians = of_nat 0;
          last_sequence = 0;
          shots_fired = pos 0;
          hits_landed = pos 0;
          deaths = pos 0;
        };
        shots_fired = pos 0;
        hits_landed = pos 0;
        deaths = pos 0;
      }
      else rt

  unfoldable pub revived : PlayerRuntimeState D → PlayerRuntimeState D
  unfolding reset is_alive
  revived rt =
      let full = reset rt.health in
      record rt {
        health = full;
        state = record rt.state { health = full.current; is_alive = is_alive full };
        death_announced = false;
        last_fire_time = r.lowest;
      }

  unfoldable pub upsert_player : Bytes → GameSession D → GameSession D
  unfolding new_runtime placed revived
  upsert_player id s = record s {
    players = put id (revived (placed id (or_new (find id s.players) new_runtime))) s.players;
  }

  unfoldable pub remove_player : Bytes → GameSession D → GameSession D
  unfolding drop_owned
  remove_player id s = record s {
    players = erase id s.players;
    projectiles = drop_owned id s.projectiles;
  }

  -- `dy -= 1.0` for up and `dy += 1.0` for down, from 0.
  abbrev pub axis : Bool → Bool → D
  axis minus plus =
      let a = if minus then r.sub (of_nat 0) (of_nat 1) else of_nat 0 in
      if plus then r.add a (of_nat 1) else a

  unfoldable pub unit : D → D → D
  unit magnitude d = if r.less (of_nat 0) magnitude then r.div d magnitude else d

  -- The movement of a living player; the speed is 5.
  unfoldable pub moved : MovementInput D → D → PlayerState D → PlayerState D
  unfolding unit
  moved input delta p =
      let dx = axis input.left input.right in
      let dy = axis input.up input.down in
      let magnitude = r.sqrt (r.add (r.mul dx dx) (r.mul dy dy)) in
      let distance = r.mul (of_nat 5) delta in
      if p.is_alive
      then record p {
        x = r.add p.x (r.mul (unit magnitude dx) distance);
        y = r.add p.y (r.mul (unit magnitude dy) distance);
      }
      else p

  -- The last part of `TrySpawnProjectile`, when the constructor has returned or thrown.
  abbrev pub launched :
      Bytes → PlayerRuntimeState D → Option (Projectile D) → GameSession D → GameSession D × Outcome
  launched id rt none s = (s, invalid_argument)
  launched id rt (some p) s = (
    record s {
      projectiles = s.projectiles ++ p ∷ [];
      projectiles_spawned_total = incr s.projectiles_spawned_total;
      players =
          put id
            (record rt {
              shots_fired = rt.shots_fired +ℤ pos 1;
              state = record rt.state { shots_fired = rt.shots_fired +ℤ pos 1 };
            })
            s.players;
    },
    returned,
  )

  unfoldable pub fire :
      Bytes → MovementInput D → D → PlayerRuntimeState D → GameSession D → GameSession D × Outcome
  unfolding new_projectile
  fire id input aim rt s =
      let counter = incr s.projectile_counter in
      let shooter = record rt { last_fire_time = s.elapsed_time } in
      let dir_x = r.div input.mouse_x aim in
      let dir_y = r.div input.mouse_y aim in
      let made =
        new_projectile (projectile_id counter) rt.state.player_id
          (r.add rt.state.x (r.mul dir_x (r.ratio 3 10)))
          (r.add rt.state.y (r.mul dir_y (r.ratio 3 10))) dir_x dir_y s.elapsed_time in
      launched id shooter made
        (record s { projectile_counter = counter; players = put id shooter s.players })

  -- A guard of `TrySpawnProjectile` that holds returns before anything has changed.
  unfoldable pub try_spawn_projectile :
      Bytes → MovementInput D → PlayerRuntimeState D → GameSession D → GameSession D × Outcome
  unfolding fire
  try_spawn_projectile id input rt s =
      let aim =
        r.sqrt (r.add (r.mul input.mouse_x input.mouse_x) (r.mul input.mouse_y input.mouse_y)) in
      if not input.fire || not rt.state.is_alive
      then (s, returned)
      else if r.less aim (r.ratio 1 1000000)
      then (s, returned)
      else if r.less (r.sub s.elapsed_time rt.last_fire_time) (r.ratio 1 10)
      then (s, returned)
      else fire id input aim rt s

  unfoldable pub steered : MovementInput D → D → PlayerRuntimeState D → PlayerRuntimeState D
  unfolding moved
  steered input delta rt = record rt {
    state = moved input delta (record rt.state {
      last_sequence = input.sequence;
      facing_radians = r.atan2 input.mouse_y input.mouse_x;
    });
  }

  abbrev pub apply_to :
      Bytes
      → MovementInput D
      → D
      → Option (PlayerRuntimeState D)
      → GameSession D
      → GameSession D × Outcome
  apply_to id input delta none s = (s, returned)
  apply_to id input delta (some rt) s =
      let next = steered input delta rt in
      if ltb input.sequence rt.state.last_sequence
      then (s, returned)
      else try_spawn_projectile id input next (record s { players = put id next s.players })

  unfoldable pub apply_input : Bytes → MovementInput D → D → GameSession D → GameSession D × Outcome
  unfolding steered try_spawn_projectile
  apply_input id input delta s = apply_to id input delta (find id s.players) s
