-- ===== src/Game/Hits.antt =====
-- game_session.cpp: a tick keeps a session well-formed.
use mathlib.Core.Option
use working_for_codex.Base.{
  ℕ, ◌≡◌, refl, sym, subst, ◌∙◌, true, false, Bytes, List, [], ◌∷◌, Each, Each-append, map, Option,
  none, some, arith, bytes_eq, same, same_iff, Bool-cases, inl, inr,
}
use working_for_codex.Base.Real.{Real}
use working_for_codex.Base.Dict.{find}
use working_for_codex.Game.Combat.{add}
use working_for_codex.Game.Projectile.{Projectile}
use working_for_codex.Game.Session.{PlayerRuntimeState, GameSession, active_only}
use working_for_codex.Game.Tick.{
  keys, credited, dies, announce, strike, Flight, collides, spared, pass, fly, fly_all, aged, tick,
  hit_of, death_of,
}
use working_for_codex.Game.Lives.{IsRuntime, struck, struck-IsRuntime, credited-IsRuntime}
use working_for_codex.Game.Invariant.{
  IsFair, IsActive, IsSession, add-bounded, add-Each, find-strike,
}

map-some {ℓ} :
    {A : Type ℓ} (f : A → A) (o : Option A) (b : A)
    → Option.map f o ≡ some b
    → (a : A) × (o ≡ some a) × (b ≡ f a)
map-some f none b e = absurd cc
map-some f (some a) b e = (a, refl, cc)

module _ {ℓ} {D : Type ℓ} where
  strike-entries :
      (n : ℕ) (p : Projectile D) (key : Bytes) (rt : PlayerRuntimeState D) (s : GameSession D)
      → ((k : Bytes) (v : PlayerRuntimeState D) → find k s.players ≡ some v → IsRuntime k v)
      → find key s.players ≡ some rt
      → rt.state.is_alive ≡ true
      → same p.owner_id key ≡ false
      → (j : Bytes) (v : PlayerRuntimeState D) → find j (strike n p key rt s).players ≡ some v
      → IsRuntime j v
  strike-entries n p key rt s old here alive other j v e =
      let found = sym (find-strike n p key j rt s here other) ∙ e in
      elim (Bool-cases (same key j)) [
        | inl f ↦
            let got = rw f at found in
            let at : struck rt ≡ v = cc in
            subst (λ k. IsRuntime k v) ((same_iff key j).0 f)
              (subst (IsRuntime key) at (struck-IsRuntime key rt (old key rt here) alive))
        | inr f ↦ elim (Bool-cases (same p.owner_id j)) [
          | inl g ↦
              let (a, was, is) = map-some credited (find j s.players) v (rw (f, g) at found) in
              subst (IsRuntime j) (sym is) (credited-IsRuntime j a (old j a was))
          | inr g ↦ old j v (rw (f, g) at found)
        ]
      ]

  strike-IsSession :
      (n : ℕ) (p : Projectile D) (key : Bytes) (rt : PlayerRuntimeState D) (s : GameSession D)
      → IsSession s
      → find key s.players ≡ some rt
      → rt.state.is_alive ≡ true
      → same rt.state.player_id p.owner_id ≡ false
      → IsSession (strike n p key rt s)
  unfolding strike announce
  strike-IsSession n p key rt s v here alive apart =
      let name = (v.entries key rt here).named in
      let other : same p.owner_id key ≡ false =
        ground (arith, same_iff p.owner_id key, same_iff rt.state.player_id p.owner_id, name) in
      let entries = strike-entries n p key rt s v.entries here alive other in
      let (small, cap) = add-bounded (hit_of n p rt) s.combat_log v.capacity v.log_bounded in
      let fair = add-Each (hit_of n p rt) s.combat_log apart v.log_fair in
      let log = add (hit_of n p rt) s.combat_log in
      let (small2, cap2) = add-bounded (death_of n p rt) log cap small in
      elim (Bool-cases (dies rt)) [
        | inl e ↦ rw e (record {
          entries = rw e at entries;
          capacity = cap2;
          log_bounded = small2;
          log_fair = add-Each (death_of n p rt) log apart fair;
          deaths_fair =
              Each-append IsFair s.pending_deaths (death_of n p rt ∷ []) v.deaths_fair (apart, tt);
          all_active = v.all_active;
        })
        | inr e ↦ rw e (record {
          entries = rw e at entries;
          capacity = cap;
          log_bounded = small;
          log_fair = fair;
          deaths_fair = v.deaths_fair;
          all_active = v.all_active;
        })
      ]

module _ {ℓ} {D : Type ℓ} ⦃r : Real D⦄ where
  -- The spared are left alone; the others are alive and not the owner.
  spared-false :
      (p : Projectile D) (rt : PlayerRuntimeState D)
      → spared p rt ≡ false
      → (rt.state.is_alive ≡ true) × (same rt.state.player_id p.owner_id ≡ false)
  unfolding spared
  spared-false p rt e = ground arith

  pass-IsSession :
      (n : ℕ) (key : Bytes) (o : Option (PlayerRuntimeState D)) (f : Flight D)
      → find key f.session.players ≡ o
      → IsSession f.session
      → IsSession (pass n key o f).1.session
  unfolding pass
  pass-IsSession n key none f e v = v
  pass-IsSession n key (some rt) f e v = elim (Bool-cases (spared f.projectile rt)) [
    | inl g ↦ simp g v
    | inr g ↦ simp g (elim (Bool-cases (collides f.projectile rt.state)) [
      | inl h ↦
          let (alive, apart) = spared-false f.projectile rt g in
          simp h (strike-IsSession n f.projectile key rt f.session v e alive apart)
      | inr h ↦ simp h v
    ])
  ]

  fly-IsSession :
      (n : ℕ) (ks : List Bytes) (f : Flight D)
      → IsSession f.session
      → IsSession (fly n ks f).session
  unfolding fly
  fly-IsSession n [] f v = v
  fly-IsSession n (key ∷ more) f v =
      let o = find key f.session.players in
      let w = pass-IsSession n key o f refl v in
      elim (Bool-cases (pass n key o f).0) [
        | inl e ↦ simp e w
        | inr e ↦ simp e (fly-IsSession n more (pass n key o f).1 w)
      ]

  fly_all-IsSession :
      (n : ℕ) (ps : List (Projectile D)) (pairs : ℕ) (s : GameSession D)
      → IsSession s
      → IsSession (fly_all n ps (pairs, s)).1.1
  unfolding fly_all
  fly_all-IsSession n [] pairs s v = v
  fly_all-IsSession n (p ∷ ps) pairs s v =
      let start : Flight D = record { projectile = p; pairs = pairs; session = s } in
      let flown = fly n (keys s.players) start in
      elim (Bool-cases p.active) [
        | inl e ↦ simp e (
            fly_all-IsSession n ps flown.pairs flown.session
              (fly-IsSession n (keys s.players) start v))
        | inr e ↦ simp e (fly_all-IsSession n ps pairs s v)
      ]

  active_only-IsActive : (ps : List (Projectile D)) → Each IsActive (active_only ps)
  unfolding active_only
  active_only-IsActive [] = tt
  active_only-IsActive (p ∷ ps) = elim (Bool-cases p.active) [
    | inl e ↦ simp e (refl, active_only-IsActive ps)
    | inr e ↦ simp e (active_only-IsActive ps)
  ]

  pub tick-IsSession :
      (n : ℕ) (delta : D) (s : GameSession D) → IsSession s → IsSession (tick n delta s)
  unfolding tick
  tick-IsSession n delta s v =
      let now = r.add s.elapsed_time delta in
      let started : IsSession (record s { elapsed_time = now }) = record {
        entries = v.entries;
        capacity = v.capacity;
        log_bounded = v.log_bounded;
        log_fair = v.log_fair;
        deaths_fair = v.deaths_fair;
        all_active = v.all_active;
      } in
      let ps = map (aged delta now) s.projectiles in
      let w = fly_all-IsSession n ps 0 (record s { elapsed_time = now }) started in
      record {
        entries = w.entries;
        capacity = w.capacity;
        log_bounded = w.log_bounded;
        log_fair = w.log_fair;
        deaths_fair = w.deaths_fair;
        all_active = active_only-IsActive (fly_all n ps (0, record s { elapsed_time = now })).0;
      }
