-- ===== src/Game/Calls.antt =====
-- game_session.cpp: every call keeps a session well-formed, so that any history of calls does.
use working_for_codex.Base.{
  ◌≡◌, refl, sym, subst, ◌∙◌, Bytes, List, [], ◌∷◌, Each, Option, none, some, arith, bytes_eq, same,
  same_iff, Bool-cases, inl, inr,
}
use working_for_codex.Base.Real.{Real}
use working_for_codex.Base.Dict.{Dict, find, put, find-put, find-erase}
use working_for_codex.Game.Player.{fresh_player}
use working_for_codex.Game.Combat.{new_health, is_alive, reset, new_log}
use working_for_codex.Game.Projectile.{Projectile}
use working_for_codex.Game.Session.{
  PlayerRuntimeState, GameSession, or_new, is_empty, create, new_runtime, placed, revived,
  upsert_player, remove_player, drop_owned,
}
use working_for_codex.Game.Lives.{IsRuntime}
use working_for_codex.Game.Invariant.{IsActive, IsSession}

module _ {ℓ} {D : Type ℓ} ⦃r : Real D⦄ where
  pub create-IsSession : IsSession (create {D = D})
  unfolding create new_log find
  create-IsSession = record {
    entries = λ key rt e. absurd cc;
    capacity = refl;
    log_bounded = omega arith;
    log_fair = tt;
    deaths_fair = tt;
    all_active = tt;
  }

  -- An entry that is new, or that the same player has had.
  new_entry-IsRuntime : (key : Bytes) → IsRuntime key (revived (placed key (new_runtime {D = D})))
  unfolding revived placed new_runtime fresh_player new_health reset is_alive
  new_entry-IsRuntime key = record {
    named = refl;
    maximum = refl;
    not_negative = omega arith;
    not_above = omega arith;
    health_shown = refl;
    life_shown = refl;
    announced_dead = refl;
    shots_shown = refl;
    hits_shown = refl;
    deaths_shown = refl;
  }

  revived-IsRuntime :
      (key : Bytes) (rt : PlayerRuntimeState D) → IsRuntime key rt → IsRuntime key (revived rt)
  unfolding revived reset is_alive
  revived-IsRuntime key rt v = record {
    named = v.named;
    maximum = v.maximum;
    not_negative = ground (arith, v.maximum);
    not_above = ground (arith, v.maximum);
    health_shown = refl;
    life_shown = refl;
    announced_dead = ground (arith, v.maximum);
    shots_shown = v.shots_shown;
    hits_shown = v.hits_shown;
    deaths_shown = v.deaths_shown;
  }

  placed-IsRuntime :
      (key : Bytes) (rt : PlayerRuntimeState D) → IsRuntime key rt → IsRuntime key (placed key rt)
  unfolding placed
  placed-IsRuntime key rt v = elim (Bool-cases (is_empty rt.state.player_id)) [
    | inl e ↦ simp e (record {
      named = refl;
      maximum = v.maximum;
      not_negative = v.not_negative;
      not_above = v.not_above;
      health_shown = v.health_shown;
      life_shown = v.life_shown;
      announced_dead = v.announced_dead;
      shots_shown = refl;
      hits_shown = refl;
      deaths_shown = refl;
    })
    | inr e ↦ simp e v
  ]

  entry-IsRuntime :
      (key : Bytes) (o : Option (PlayerRuntimeState D))
      → ((rt : PlayerRuntimeState D) → o ≡ some rt → IsRuntime key rt)
      → IsRuntime key (revived (placed key (or_new o new_runtime)))
  entry-IsRuntime key none old = new_entry-IsRuntime key
  entry-IsRuntime key (some rt) old =
      revived-IsRuntime key (placed key rt) (placed-IsRuntime key rt (old rt refl))

  -- A write under a key.
  pub put-entries :
      (key : Bytes) (new : PlayerRuntimeState D) (m : Dict Bytes (PlayerRuntimeState D))
      → ((k : Bytes) (rt : PlayerRuntimeState D) → find k m ≡ some rt → IsRuntime k rt)
      → IsRuntime key new
      → (k : Bytes) (rt : PlayerRuntimeState D) → find k (put key new m) ≡ some rt
      → IsRuntime k rt
  put-entries key new m old v k rt e =
      let found = sym (find-put key k new m) ∙ e in
      elim (Bool-cases (same key k)) [
        | inl f ↦
            let got = rw f at found in
            let is : new ≡ rt = cc in
            subst (λ j. IsRuntime j rt) ((same_iff key k).0 f) (subst (IsRuntime key) is v)
        | inr f ↦ old k rt (rw f at found)
      ]

  pub upsert_player-IsSession :
      (key : Bytes) (s : GameSession D) → IsSession s → IsSession (upsert_player key s)
  unfolding upsert_player
  upsert_player-IsSession key s v = record {
    entries =
        put-entries key (revived (placed key (or_new (find key s.players) new_runtime))) s.players
          v.entries (entry-IsRuntime key (find key s.players) (v.entries key));
    capacity = v.capacity;
    log_bounded = v.log_bounded;
    log_fair = v.log_fair;
    deaths_fair = v.deaths_fair;
    all_active = v.all_active;
  }

  drop_owned-IsActive :
      (key : Bytes) (ps : List (Projectile D))
      → Each IsActive ps
      → Each IsActive (drop_owned key ps)
  unfolding drop_owned
  drop_owned-IsActive key [] v = tt
  drop_owned-IsActive key (p ∷ ps) v = elim (Bool-cases (same p.owner_id key)) [
    | inl e ↦ simp e (drop_owned-IsActive key ps v.1)
    | inr e ↦ simp e (v.0, drop_owned-IsActive key ps v.1)
  ]

  pub remove_player-IsSession :
      (key : Bytes) (s : GameSession D) → IsSession s → IsSession (remove_player key s)
  unfolding remove_player
  remove_player-IsSession key s v = record {
    entries = λ k rt e.
        let found = sym (find-erase key k s.players) ∙ e in
        elim (Bool-cases (same key k)) [
          | inl f ↦ let got = rw f at found in absurd cc
          | inr f ↦ v.entries k rt (rw f at found)
        ];
    capacity = v.capacity;
    log_bounded = v.log_bounded;
    log_fair = v.log_fair;
    deaths_fair = v.deaths_fair;
    all_active = drop_owned-IsActive key s.projectiles v.all_active;
  }
