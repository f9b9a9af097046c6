-- ===== src/Game/Inputs.antt =====
-- game_session.cpp: inputs keep a session well-formed, and with them any history of calls.
use working_for_codex.Base.{
  ℕ, ◌≡◌, refl, Bool, true, false, ◌||◌, not, Bytes, List, [], ◌∷◌, Each-append, Option, none, some,
  if◌then◌else◌, ltb, arith, bytes_eq, Bool-cases, inl, inr,
}
use working_for_codex.Base.Real.{Real}
use working_for_codex.Base.Dict.{find, put}
use working_for_codex.Game.Player.{PlayerState}
use working_for_codex.Game.Projectile.{Projectile, new_projectile}
use working_for_codex.Game.Session.{
  incr, MovementInput, PlayerRuntimeState, GameSession, create, upsert_player, remove_player, moved,
  steered, launched, fire, try_spawn_projectile, apply_to, apply_input,
}
use working_for_codex.Game.Tick.{tick, consume_death_events}
use working_for_codex.Game.Lives.{IsRuntime}
use working_for_codex.Game.Invariant.{IsActive, IsSession}
use working_for_codex.Game.Hits.{tick-IsSession}
use working_for_codex.Game.Calls.{
  put-entries, create-IsSession, upsert_player-IsSession, remove_player-IsSession,
}

module _ {ℓ} {D : Type ℓ} ⦃r : Real D⦄ where
  -- Neither the place nor the times of an entry matter.
  retimed-IsRuntime :
      (key : Bytes) (rt : PlayerRuntimeState D) (x y facing fired : D) (sequence : ℕ)
      → IsRuntime key rt
      → IsRuntime key (record rt {
        state = record rt.state { x = x; y = y; facing_radians = facing; last_sequence = sequence };
        last_fire_time = fired;
      })
  retimed-IsRuntime key rt x y facing fired sequence v = record {
    named = v.named;
    maximum = v.maximum;
    not_negative = v.not_negative;
    not_above = v.not_above;
    health_shown = v.health_shown;
    life_shown = v.life_shown;
    announced_dead = v.announced_dead;
    shots_shown = v.shots_shown;
    hits_shown = v.hits_shown;
    deaths_shown = v.deaths_shown;
  }

  either-IsRuntime :
      (key : Bytes) (rt : PlayerRuntimeState D) (b : Bool) (p q : PlayerState D)
      → IsRuntime key (record rt { state = p })
      → IsRuntime key (record rt { state = q })
      → IsRuntime key (record rt { state = if b then p else q })
  either-IsRuntime key rt true p q v w = v
  either-IsRuntime key rt false p q v w = w

  steered-IsRuntime :
      (key : Bytes) (input : MovementInput D) (delta : D) (rt : PlayerRuntimeState D)
      → IsRuntime key rt
      → IsRuntime key (steered input delta rt)
  unfolding steered moved
  steered-IsRuntime key input delta rt v =
      either-IsRuntime key rt rt.state.is_alive _ _
        (retimed-IsRuntime key rt _ _ _ rt.last_fire_time input.sequence v)
        (retimed-IsRuntime key rt rt.state.x rt.state.y _ rt.last_fire_time input.sequence v)

  -- The session with one entry written.
  with_entry : Bytes → PlayerRuntimeState D → GameSession D → GameSession D
  with_entry key rt s = record s { players = put key rt s.players }

  with_entry-IsSession :
      (key : Bytes) (rt : PlayerRuntimeState D) (s : GameSession D)
      → IsSession s
      → IsRuntime key rt
      → IsSession (with_entry key rt s)
  unfolding with_entry
  with_entry-IsSession key rt s v w = record {
    entries = put-entries key rt s.players v.entries w;
    capacity = v.capacity;
    log_bounded = v.log_bounded;
    log_fair = v.log_fair;
    deaths_fair = v.deaths_fair;
    all_active = v.all_active;
  }

  -- Only the counter of the projectiles' names, which nothing else reads, is written.
  counted-IsSession :
      (n : ℕ) (s : GameSession D) → IsSession s → IsSession (record s { projectile_counter = n })
  counted-IsSession n s v = record {
    entries = v.entries;
    capacity = v.capacity;
    log_bounded = v.log_bounded;
    log_fair = v.log_fair;
    deaths_fair = v.deaths_fair;
    all_active = v.all_active;
  }

  launched-IsSession :
      (key : Bytes) (rt : PlayerRuntimeState D) (o : Option (Projectile D)) (s : GameSession D)
      → IsRuntime key rt
      → ((p : Projectile D) → o ≡ some p → p.active ≡ true)
      → IsSession s
      → IsSession (launched key rt o s).0
  launched-IsSession key rt none s w active v = v
  launched-IsSession key rt (some p) s w active v = record {
    entries = put-entries key _ s.players v.entries (record {
      named = w.named;
      maximum = w.maximum;
      not_negative = w.not_negative;
      not_above = w.not_above;
      health_shown = w.health_shown;
      life_shown = w.life_shown;
      announced_dead = w.announced_dead;
      shots_shown = refl;
      hits_shown = w.hits_shown;
      deaths_shown = w.deaths_shown;
    });
    capacity = v.capacity;
    log_bounded = v.log_bounded;
    log_fair = v.log_fair;
    deaths_fair = v.deaths_fair;
    all_active = Each-append IsActive s.projectiles (p ∷ []) v.all_active (active p refl, tt);
  }

  new_projectile-IsActive :
      (id owner : Bytes) (x y dir_x dir_y now : D) (p : Projectile D)
      → new_projectile id owner x y dir_x dir_y now ≡ some p
      → p.active ≡ true
  unfolding new_projectile
  new_projectile-IsActive id owner x y dir_x dir_y now p e = ground (arith, e)

  fire-IsSession :
      (key : Bytes) (input : MovementInput D) (aim : D) (rt : PlayerRuntimeState D)
      (s : GameSession D)
      → IsRuntime key rt
      → IsSession s
      → IsSession (fire key input aim rt s).0
  unfolding fire with_entry
  fire-IsSession key input aim rt s w v =
      let shooter : PlayerRuntimeState D = record rt { last_fire_time = s.elapsed_time } in
      let p = rt.state in
      let w' = retimed-IsRuntime key rt p.x p.y p.facing_radians s.elapsed_time p.last_sequence w in
      let n = incr s.projectile_counter in
      launched-IsSession key shooter _ _ w' (new_projectile-IsActive _ _ _ _ _ _ _) (
        counted-IsSession n (record s { players = put key shooter s.players })
          (with_entry-IsSession key shooter s v w'))

  try_spawn-IsSession :
      (key : Bytes) (input : MovementInput D) (rt : PlayerRuntimeState D) (s : GameSession D)
      → IsRuntime key rt
      → IsSession s
      → IsSession (try_spawn_projectile key input rt s).0
  unfolding try_spawn_projectile
  try_spawn-IsSession key input rt s w v =
      let aim =
        r.sqrt (r.add (r.mul input.mouse_x input.mouse_x) (r.mul input.mouse_y input.mouse_y)) in
      elim (Bool-cases (not input.fire || not rt.state.is_alive)) [
        | inl a ↦ simp a v
        | inr a ↦ simp a (elim (Bool-cases (r.less aim (r.ratio 1 1000000))) [
          | inl b ↦ simp b v
          | inr b ↦
              simp b
                (elim (Bool-cases
                  (r.less (r.sub s.elapsed_time rt.last_fire_time) (r.ratio 1 10))) [
                    | inl c ↦ simp c v
                    | inr c ↦ simp c (fire-IsSession key input aim rt s w v)
                  ])
        ])
      ]

  apply_to-IsSession :
      (key : Bytes) (input : MovementInput D) (delta : D) (o : Option (PlayerRuntimeState D))
      (s : GameSession D)
      → ((rt : PlayerRuntimeState D) → o ≡ some rt → IsRuntime key rt)
      → IsSession s
      → IsSession (apply_to key input delta o s).0
  unfolding with_entry
  apply_to-IsSession key input delta none s w v = v
  apply_to-IsSession key input delta (some rt) s w v =
      let next = steered input delta rt in
      let w' = steered-IsRuntime key input delta rt (w rt refl) in
      elim (Bool-cases (ltb input.sequence rt.state.last_sequence)) [
        | inl e ↦ simp e v
        | inr e ↦ simp e (
            try_spawn-IsSession key input next (record s { players = put key next s.players }) w'
              (with_entry-IsSession key next s v w'))
      ]

  apply_input-IsSession :
      (key : Bytes) (input : MovementInput D) (delta : D) (s : GameSession D)
      → IsSession s
      → IsSession (apply_input key input delta s).0
  unfolding apply_input
  apply_input-IsSession key input delta s v =
      apply_to-IsSession key input delta (find key s.players) s (v.entries key) v

  consume-IsSession : (s : GameSession D) → IsSession s → IsSession (consume_death_events s).1
  unfolding consume_death_events
  consume-IsSession s v = record {
    entries = v.entries;
    capacity = v.capacity;
    log_bounded = v.log_bounded;
    log_fair = v.log_fair;
    deaths_fair = tt;
    all_active = v.all_active;
  }

-- The calls that change a session.
pub data Call {ℓ} (D : Type ℓ) : Type ℓ where
  upserted : Bytes → Call D
  removed : Bytes → Call D
  given : Bytes → MovementInput D → D → Call D
  ticked : ℕ → D → Call D
  consumed : Call D

module _ {ℓ} {D : Type ℓ} ⦃r : Real D⦄ where
  unfoldable pub call : Call D → GameSession D → GameSession D
  call (upserted key) s = upsert_player key s
  call (removed key) s = remove_player key s
  call (given key input delta) s = (apply_input key input delta s).0
  call (ticked n delta) s = tick n delta s
  call consumed s = (consume_death_events s).1

  call-IsSession : (c : Call D) (s : GameSession D) → IsSession s → IsSession (call c s)
  unfolding call
  call-IsSession (upserted key) s v = upsert_player-IsSession key s v
  call-IsSession (removed key) s v = remove_player-IsSession key s v
  call-IsSession (given key input delta) s v = apply_input-IsSession key input delta s v
  call-IsSession (ticked n delta) s v = tick-IsSession n delta s v
  call-IsSession consumed s v = consume-IsSession s v

  unfoldable pub run : List (Call D) → GameSession D → GameSession D
  unfolding call
  run [] s = s
  run (c ∷ cs) s = run cs (call c s)

  run-IsSession : (cs : List (Call D)) (s : GameSession D) → IsSession s → IsSession (run cs s)
  unfolding run
  run-IsSession [] s v = v
  run-IsSession (c ∷ cs) s v = run-IsSession cs (call c s) (call-IsSession c s v)

  -- After any history of calls on a new session: every entry stands under its own id, shows the health
  -- and the counters that it keeps, has a health between 0 and 100 and has its death announced exactly
  -- while it is dead; the combat log holds at most 32 events; no event in it or among the deaths to be
  -- sent has the same player as shooter and target; and every projectile kept is active.
  pub run-create-IsSession : (cs : List (Call D)) → IsSession (run cs create)
  run-create-IsSession cs = run-IsSession cs create create-IsSession
