-- ===== src/Game/Tally.antt =====
-- game_session.cpp: what a tick counts. A projectile hits at most once, and is then gone.
use working_for_codex.Base.{
  ℕ, ◌+◌, ◌%◌, ◌^◌, ◌⊎◌, length-map, ◌≤◌, ◌≡◌, refl, subst, true, false, Bytes, List, [], ◌∷◌, map,
  Option, none, some, if◌then◌else◌, length, length-append, arith, bytes_eq, Bool-cases, inl, inr,
}
use working_for_codex.Base.Real.{Real}
use working_for_codex.Base.Dict.{find}
use working_for_codex.Game.Projectile.{Projectile, deactivate}
use working_for_codex.Game.Session.{PlayerRuntimeState, GameSession, active_only}
use working_for_codex.Game.Tick.{
  keys, dies, announce, strike, Flight, collides, spared, pass, fly, fly_all, aged, tick, death_of,
}

module _ {ℓ} {D : Type ℓ} where
  -- From one session to the next, with so many hits and deaths.
  record Counts (s t : GameSession D) (hits deaths : ℕ) : Type 0 where
    hits_counted : t.projectiles_hits_total % 2 ^ 64 ≡ (s.projectiles_hits_total + hits) % 2 ^ 64
    deaths_counted : t.players_dead_total % 2 ^ 64 ≡ (s.players_dead_total + deaths) % 2 ^ 64
    deaths_pending : length t.pending_deaths ≡ length s.pending_deaths + deaths
    deaths_bounded : deaths ≤ hits

  Counts-none : (s : GameSession D) → Counts s s 0 0
  Counts-none s = record {
    hits_counted = omega arith;
    deaths_counted = omega arith;
    deaths_pending = omega arith;
    deaths_bounded = omega arith;
  }

  Counts-trans :
      (s t u : GameSession D) (h d h' d' : ℕ)
      → Counts s t h d
      → Counts t u h' d'
      → Counts s u (h + h') (d + d')
  Counts-trans s t u h d h' d' v w = record {
    hits_counted = omega (arith, v.hits_counted, w.hits_counted);
    deaths_counted = omega (arith, v.deaths_counted, w.deaths_counted);
    deaths_pending = omega (arith, v.deaths_pending, w.deaths_pending);
    deaths_bounded = omega (arith, v.deaths_bounded, w.deaths_bounded);
  }

  strike-Counts :
      (n : ℕ) (p : Projectile D) (key : Bytes) (rt : PlayerRuntimeState D) (s : GameSession D)
      → (d : ℕ) × Counts s (strike n p key rt s) 1 d
  unfolding strike announce
  strike-Counts n p key rt s = elim (Bool-cases (dies rt)) [
    | inl e ↦ (
      1,
      rw e (record {
        hits_counted = omega arith;
        deaths_counted = omega arith;
        deaths_pending = omega (arith, length-append s.pending_deaths (death_of n p rt ∷ []));
        deaths_bounded = omega arith;
      }),
    )
    | inr e ↦ (
      0,
      rw e (record {
        hits_counted = omega arith;
        deaths_counted = omega arith;
        deaths_pending = omega arith;
        deaths_bounded = omega arith;
      }),
    )
  ]

-- A flight that has been counted: either nothing was hit or the projectile is spent.
record Landed {ℓ} {D : Type ℓ} (s : GameSession D) (f : Flight D) : Type ℓ where
  hits : ℕ
  deaths : ℕ
  counts : Counts s f.session hits deaths
  once : hits + length (active_only (f.projectile ∷ [])) ≤ 1

module _ {ℓ} {D : Type ℓ} ⦃r : Real D⦄ where
  pass-Landed :
      (n : ℕ) (key : Bytes) (o : Option (PlayerRuntimeState D)) (f : Flight D)
      → ((pass n key o f).0 ≡ false) × ((pass n key o f).1.session ≡ f.session)
        ⊎ ((pass n key o f).0 ≡ true) × Landed f.session (pass n key o f).1
  unfolding pass deactivate active_only
  pass-Landed n key none f = inl (refl, refl)
  pass-Landed n key (some rt) f = elim (Bool-cases (spared f.projectile rt)) [
    | inl g ↦ simp g (inl (refl, refl))
    | inr g ↦ simp g (elim (Bool-cases (collides f.projectile rt.state)) [
      | inl h ↦
          let (d, c) = strike-Counts n f.projectile key rt f.session in
          simp h (inr (refl, record { hits = 1; deaths = d; counts = c; once = omega arith }))
      | inr h ↦ simp h (inl (refl, refl))
    ])
  ]

  one_active : (p : Projectile D) → length (active_only (p ∷ [])) ≤ 1
  unfolding active_only
  one_active p = ground arith

  fly-Landed : (n : ℕ) (ks : List Bytes) (f : Flight D) → Landed f.session (fly n ks f)
  unfolding fly
  fly-Landed n [] f = record {
    hits = 0;
    deaths = 0;
    counts = Counts-none f.session;
    once = omega (arith, one_active f.projectile);
  }
  fly-Landed n (key ∷ more) f =
      let o = find key f.session.players in
      let next = (pass n key o f).1 in
      elim (pass-Landed n key o f) [
        | inl (e, same_session) ↦
            simp e (subst (λ s. Landed s (fly n more next)) same_session (fly-Landed n more next))
        | inr (e, landed) ↦ simp e landed
      ]

  record Swept (s : GameSession D) (ps : List (Projectile D))
      (out : List (Projectile D) × (ℕ × GameSession D)) : Type ℓ where
    hits : ℕ
    deaths : ℕ
    counts : Counts s out.1.1 hits deaths
    spent : length (active_only out.0) + hits ≤ length ps

  fly_all-Swept :
      (n : ℕ) (ps : List (Projectile D)) (pairs : ℕ) (s : GameSession D)
      → Swept s ps (fly_all n ps (pairs, s))
  unfolding fly_all active_only
  fly_all-Swept n [] pairs s = record {
    hits = 0;
    deaths = 0;
    counts = Counts-none s;
    spent = omega arith;
  }
  fly_all-Swept n (p ∷ ps) pairs s =
      let start : Flight D = record { projectile = p; pairs = pairs; session = s } in
      let f = if p.active then fly n (keys s.players) start else start in
      let first : Landed s f = landed start in
      let rest = fly_all-Swept n ps f.pairs f.session in
      record {
        hits = first.hits + rest.hits;
        deaths = first.deaths + rest.deaths;
        counts =
            Counts-trans s f.session (fly_all n ps (f.pairs, f.session)).1.1 first.hits first.deaths
              rest.hits rest.deaths first.counts rest.counts;
        spent = ground (arith, first.once, rest.spent);
      }
    where
      landed :
          (start : Flight D)
          → Landed start.session (if p.active then fly n (keys s.players) start else start)
      landed start = elim (Bool-cases p.active) [
        | inl e ↦ simp e (fly-Landed n (keys s.players) start)
        | inr e ↦ simp e (fly-Landed n [] start)
      ]

  -- In a tick some number of hits is added to the counter of hits, modulo 2^64, and some number of
  -- deaths, not more than the hits, to the counter of deaths and to the deaths to be sent; and the
  -- projectiles that are left and the hits together are not more than the projectiles before.
  pub tick-counts :
      (n : ℕ) (delta : D) (s : GameSession D)
      → (hits : ℕ) × (deaths : ℕ) × ((tick n delta s).projectiles_hits_total % 2 ^ 64
          ≡ (s.projectiles_hits_total + hits) % 2 ^ 64)
        × ((tick n delta s).players_dead_total % 2 ^ 64 ≡ (s.players_dead_total + deaths) % 2 ^ 64)
        × (length (tick n delta s).pending_deaths ≡ length s.pending_deaths + deaths)
        × (deaths ≤ hits)
        × (length (tick n delta s).projectiles + hits ≤ length s.projectiles)
  unfolding tick
  tick-counts n delta s =
      let now = r.add s.elapsed_time delta in
      let w =
        fly_all-Swept n (map (aged delta now) s.projectiles) 0 (record s { elapsed_time = now }) in
      (
        w.hits,
        w.deaths,
        w.counts.hits_counted,
        w.counts.deaths_counted,
        w.counts.deaths_pending,
        w.counts.deaths_bounded,
        omega (arith, w.spent, length-map s.projectiles (aged delta now)),
      )
