-- ===== src/Game/Tick.antt =====
-- game_session.cpp: the tick, which moves the projectiles and lets them hit, and the queries.
use working_for_codex.Base.{
  ℕ, ◌+◌, ◌%◌, ◌^◌, Bool, true, false, ◌&&◌, ◌||◌, Bytes, List, [], ◌∷◌, ◌++◌, map, Option, none,
  some, if◌then◌else◌, not, length, bytes_eq, same,
}
use working_for_codex.Base.Int.{pos, ◌+ℤ◌}
use working_for_codex.Base.Real.{Real}
use working_for_codex.Base.Dict.{Dict, find, modify}
use working_for_codex.Game.Player.{PlayerState}
use working_for_codex.Game.Combat.{is_alive, apply_damage, CombatEvent, hit, death, add}
use working_for_codex.Game.Projectile.{Projectile, advance, is_expired, radius, deactivate}
use working_for_codex.Game.Session.{PlayerRuntimeState, GameSession, incr, active_only}

abbrev pub keys {ℓ} : {V : Type ℓ} → Dict Bytes V → List Bytes
keys [] = []
keys ((k, v) ∷ m) = k ∷ keys m

module _ {ℓ} {D : Type ℓ} where
  abbrev pub hit_of : ℕ → Projectile D → PlayerRuntimeState D → CombatEvent
  hit_of tick p rt = record {
    kind = hit;
    shooter_id = p.owner_id;
    target_id = rt.state.player_id;
    projectile_id = p.id;
    damage = pos 20;
    tick = tick;
  }

  abbrev pub death_of : ℕ → Projectile D → PlayerRuntimeState D → CombatEvent
  death_of tick p rt = record {
    kind = death;
    shooter_id = p.owner_id;
    target_id = rt.state.player_id;
    projectile_id = p.id;
    damage = pos 0;
    tick = tick;
  }

  -- `ApplyDamage(kDamagePerHit)` and what is copied from it.
  unfoldable pub hurt : PlayerRuntimeState D → PlayerRuntimeState D
  unfolding apply_damage is_alive
  hurt rt =
      let (died, left) = apply_damage (pos 20) rt.health in
      record rt {
        health = left;
        state = record rt.state { health = left.current; is_alive = is_alive left };
      }

  unfoldable pub credited : PlayerRuntimeState D → PlayerRuntimeState D
  credited rt = record rt {
    hits_landed = rt.hits_landed +ℤ pos 1;
    state = record rt.state { hits_landed = rt.hits_landed +ℤ pos 1 };
  }

  unfoldable pub announced : PlayerRuntimeState D → PlayerRuntimeState D
  announced rt = record rt {
    death_announced = true;
    deaths = rt.deaths +ℤ pos 1;
    state = record rt.state { deaths = rt.deaths +ℤ pos 1 };
  }

  unfoldable pub dies : PlayerRuntimeState D → Bool
  unfolding apply_damage
  dies rt = let (died, left) = apply_damage (pos 20) rt.health in died && not rt.death_announced

  unfoldable pub announce :
      ℕ → Projectile D → Bytes → PlayerRuntimeState D → GameSession D → GameSession D
  unfolding announced add
  announce tick p key rt s = record s {
    pending_deaths = s.pending_deaths ++ death_of tick p rt ∷ [];
    combat_log = add (death_of tick p rt) s.combat_log;
    players_dead_total = incr s.players_dead_total;
    players = modify key announced s.players;
  }

  -- The hit of a projectile on the player under a key. Each write goes through its reference into the
  -- map, in the order of the code.
  unfoldable pub strike :
      ℕ → Projectile D → Bytes → PlayerRuntimeState D → GameSession D → GameSession D
  unfolding hurt credited dies announce add
  strike tick p key rt s =
      let struck = record s {
        combat_log = add (hit_of tick p rt) s.combat_log;
        projectiles_hits_total = incr s.projectiles_hits_total;
        players = modify p.owner_id credited (modify key hurt s.players);
      } in
      if dies rt then announce tick p key rt struck else struck

-- A projectile that has gone through the players, the pairs checked and the session.
pub record Flight {ℓ} (D : Type ℓ) : Type ℓ where
  pub projectile : Projectile D
  pub pairs : ℕ
  pub session : GameSession D

module _ {ℓ} {D : Type ℓ} ⦃r : Real D⦄ where
  -- The box test and then the circle test; the radius of a player is 0.5.
  unfoldable pub collides : Projectile D → PlayerState D → Bool
  collides p target =
      let dx = r.sub p.x target.x in
      let dy = r.sub p.y target.y in
      let sum = r.add radius (r.ratio 5 10) in
      if r.less sum (r.abs dx) || r.less sum (r.abs dy)
      then false
      else r.at_most (r.add (r.mul dx dx) (r.mul dy dy)) (r.mul sum sum)

  -- The player is skipped.
  unfoldable pub spared : Projectile D → PlayerRuntimeState D → Bool
  spared p rt = not rt.state.is_alive || same rt.state.player_id p.owner_id

  -- One round of the inner loop: whether it ends by `break`, and what it leaves.
  unfoldable pub pass : ℕ → Bytes → Option (PlayerRuntimeState D) → Flight D → Bool × Flight D
  unfolding spared collides strike deactivate
  pass tick key none f = (false, f)
  pass tick key (some rt) f =
      let checked = record f { pairs = incr f.pairs } in
      if spared f.projectile rt
      then (false, f)
      else if not (collides f.projectile rt.state)
      then (false, checked)
      else (
        true,
        record {
          projectile = deactivate f.projectile;
          pairs = incr f.pairs;
          session = strike tick f.projectile key rt f.session;
        },
      )

  unfoldable pub fly : ℕ → List Bytes → Flight D → Flight D
  unfolding pass
  fly tick [] f = f
  fly tick (key ∷ more) f =
      let (stopped, next) = pass tick key (find key f.session.players) f in
      let rest = fly tick more next in if stopped then next else rest

  unfoldable pub fly_all :
      ℕ → List (Projectile D) → ℕ × GameSession D → List (Projectile D) × (ℕ × GameSession D)
  unfolding fly
  fly_all tick [] (pairs, s) = ([], (pairs, s))
  fly_all tick (p ∷ ps) (pairs, s) =
      let start : Flight D = record { projectile = p; pairs = pairs; session = s } in
      let f = if p.active then fly tick (keys s.players) start else start in
      let (flown, after) = fly_all tick ps (f.pairs, f.session) in (f.projectile ∷ flown, after)

  unfoldable pub aged : D → D → Projectile D → Projectile D
  unfolding advance is_expired deactivate
  aged delta now p = let q = advance delta p in if is_expired now q then deactivate q else q

  unfoldable pub tick : ℕ → D → GameSession D → GameSession D
  unfolding aged fly_all active_only
  tick n delta s =
      let now = r.add s.elapsed_time delta in
      let start = record s { elapsed_time = now } in
      let (flown, (pairs, after)) = fly_all n (map (aged delta now) s.projectiles) (0, start) in
      record after {
        collisions_checked_total = (after.collisions_checked_total + pairs) % 2 ^ 64;
        projectiles = active_only flown;
      }

module _ {ℓ} {D : Type ℓ} where
  unfoldable pub consume_death_events : GameSession D → List CombatEvent × GameSession D
  consume_death_events s = (s.pending_deaths, record s { pending_deaths = [] })

  abbrev pub state_of : Option (PlayerRuntimeState D) → Option (PlayerState D)
  state_of none = none
  state_of (some rt) = some rt.state

  -- `GetPlayer`, with `none` where it throws.
  unfoldable pub get_player : Bytes → GameSession D → Option (PlayerState D)
  get_player id s = state_of (find id s.players)

  unfoldable pub states : Dict Bytes (PlayerRuntimeState D) → List (PlayerState D)
  states [] = []
  states ((k, rt) ∷ m) = rt.state ∷ states m

  -- `Snapshot`.
  unfoldable pub snapshot : GameSession D → List (PlayerState D)
  unfolding states
  snapshot s = states s.players

  unfoldable pub active_projectile_count : GameSession D → ℕ
  unfolding active_only
  active_projectile_count s = length (active_only s.projectiles)
