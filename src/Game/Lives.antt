-- ===== src/Game/Lives.antt =====
-- game_session.cpp and combat.cpp: what each player's entry keeps true of itself.
use working_for_codex.Base.{
  ◌≡◌, refl, ap, sym, ◌∙◌, true, false, not, Bytes, if◌then◌else◌, arith, bytes_eq, Bool-cases, inl,
  inr,
}
use working_for_codex.Base.Int.{pos, ◌-ℤ◌, ◌≤ℤ◌}
use working_for_codex.Game.Combat.{HealthComponent, is_alive, apply_damage}
use working_for_codex.Game.Session.{PlayerRuntimeState}
use working_for_codex.Game.Tick.{hurt, credited, announced, dies}

-- The state that others see is that of the health and of the counters, health lies between 0 and its
-- maximum of 100, and a death is announced exactly while the player is dead.
pub record IsRuntime {ℓ} {D : Type ℓ} (key : Bytes) (rt : PlayerRuntimeState D) : Type 0 where
  pub named : rt.state.player_id ≡ key
  pub maximum : rt.health.max ≡ pos 100
  pub not_negative : pos 0 ≤ℤ rt.health.current
  pub not_above : rt.health.current ≤ℤ pos 100
  pub health_shown : rt.state.health ≡ rt.health.current
  pub life_shown : rt.state.is_alive ≡ is_alive rt.health
  pub announced_dead : rt.death_announced ≡ not rt.state.is_alive
  pub shots_shown : rt.state.shots_fired ≡ rt.shots_fired
  pub hits_shown : rt.state.hits_landed ≡ rt.hits_landed
  pub deaths_shown : rt.state.deaths ≡ rt.deaths

-- After 20 points of damage to a living component that is well-formed.
damaged :
    (h : HealthComponent)
    → pos 0 ≤ℤ h.current
    → h.current ≤ℤ pos 100
    → is_alive h ≡ true
    → (pos 0 ≤ℤ (apply_damage (pos 20) h).1.current)
      × ((apply_damage (pos 20) h).1.current ≤ℤ pos 100)
      × ((apply_damage (pos 20) h).1.max ≡ h.max)
      × (not (is_alive (apply_damage (pos 20) h).1) ≡ (apply_damage (pos 20) h).0)
unfolding apply_damage is_alive ◌-ℤ◌
damaged h low high alive = ground arith

module _ {ℓ} {D : Type ℓ} where
  -- What a hit makes of the player's entry.
  unfoldable pub struck : PlayerRuntimeState D → PlayerRuntimeState D
  unfolding dies announced hurt
  struck rt = if dies rt then announced (hurt rt) else hurt rt

  pub struck-IsRuntime :
      (key : Bytes) (rt : PlayerRuntimeState D)
      → IsRuntime key rt
      → rt.state.is_alive ≡ true
      → IsRuntime key (struck rt)
  unfolding struck dies announced hurt
  struck-IsRuntime key rt v alive =
      let (low, high, top, dead) =
        damaged rt.health v.not_negative v.not_above (sym v.life_shown ∙ alive) in
      elim (Bool-cases (apply_damage (pos 20) rt.health).0) [
        | inl e ↦
            let d : rt.death_announced ≡ false = v.announced_dead ∙ ap not alive in
            rw (e, d)
              (record {
                named = v.named;
                maximum = top ∙ v.maximum;
                not_negative = low;
                not_above = high;
                health_shown = refl;
                life_shown = refl;
                announced_dead = sym (dead ∙ e);
                shots_shown = v.shots_shown;
                hits_shown = v.hits_shown;
                deaths_shown = refl;
              })
        | inr e ↦ rw e (record {
          named = v.named;
          maximum = top ∙ v.maximum;
          not_negative = low;
          not_above = high;
          health_shown = refl;
          life_shown = refl;
          announced_dead = v.announced_dead ∙ ap not alive ∙ sym (dead ∙ e);
          shots_shown = v.shots_shown;
          hits_shown = v.hits_shown;
          deaths_shown = v.deaths_shown;
        })
      ]

  pub credited-IsRuntime :
      (key : Bytes) (rt : PlayerRuntimeState D) → IsRuntime key rt → IsRuntime key (credited rt)
  unfolding credited
  credited-IsRuntime key rt v = record {
    named = v.named;
    maximum = v.maximum;
    not_negative = v.not_negative;
    not_above = v.not_above;
    health_shown = v.health_shown;
    life_shown = v.life_shown;
    announced_dead = v.announced_dead;
    shots_shown = v.shots_shown;
    hits_shown = refl;
    deaths_shown = v.deaths_shown;
  }
