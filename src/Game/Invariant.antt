-- ===== src/Game/Invariant.antt =====
-- game_session.cpp and combat.cpp: what every operation of a session keeps true.
use mathlib.Core.Option
use working_for_codex.Base.{
  ℕ, ◌≤◌, ◌≡◌, refl, subst, true, false, Bytes, [], ◌∷◌, ◌++◌, Each, Each-append, Each-drop, some,
  if◌then◌else◌, ltb, nat_beq, length, length-append, length-drop, arith, bytes_eq, same, same_iff,
  Bool-cases, inl, inr,
}
use working_for_codex.Base.Dict.{find, modify, find-modify}
use working_for_codex.Game.Combat.{CombatEvent, CombatLog, add}
use working_for_codex.Game.Projectile.{Projectile}
use working_for_codex.Game.Session.{PlayerRuntimeState, GameSession}
use working_for_codex.Game.Tick.{hurt, credited, announced, dies, announce, strike}
use working_for_codex.Game.Lives.{IsRuntime, struck}

-- Nobody is hit by a projectile of their own.
abbrev pub IsFair : CombatEvent → Type 0
IsFair e = same e.target_id e.shooter_id ≡ false

abbrev pub IsActive {ℓ} : {D : Type ℓ} → Projectile D → Type 0
IsActive p = p.active ≡ true

pub record IsSession {ℓ} {D : Type ℓ} (s : GameSession D) : Type ℓ where
  pub entries :
      (key : Bytes) (rt : PlayerRuntimeState D) → find key s.players ≡ some rt → IsRuntime key rt
  pub capacity : s.combat_log.capacity ≡ 32
  pub log_bounded : length s.combat_log.events ≤ 32
  pub log_fair : Each IsFair s.combat_log.events
  pub deaths_fair : Each IsFair s.pending_deaths
  pub all_active : Each IsActive s.projectiles

pub add-bounded :
    (e : CombatEvent) (log : CombatLog)
    → log.capacity ≡ 32
    → length log.events ≤ 32
    → (length (add e log).events ≤ 32) × ((add e log).capacity ≡ 32)
unfolding add
add-bounded e log c b =
    ground (arith, c, length-append log.events (e ∷ []), length-drop 1 (log.events ++ e ∷ []))

pub add-Each :
    (e : CombatEvent) (log : CombatLog)
    → IsFair e
    → Each IsFair log.events
    → Each IsFair (add e log).events
unfolding add
add-Each e log fair v =
    let pushed = Each-append IsFair log.events (e ∷ []) v (fair, tt) in
    elim (Bool-cases (nat_beq log.capacity 0)) [
      | inl c ↦ rw c v
      | inr c ↦ rw c (elim (Bool-cases (ltb log.capacity (length (log.events ++ e ∷ [])))) [
        | inl f ↦ rw f (Each-drop IsFair 1 (log.events ++ e ∷ []) pushed)
        | inr f ↦ rw f pushed
      ])
    ]

module _ {ℓ} {D : Type ℓ} where
  pub find-strike :
      (n : ℕ) (p : Projectile D) (key j : Bytes) (rt : PlayerRuntimeState D) (s : GameSession D)
      → find key s.players ≡ some rt
      → same p.owner_id key ≡ false
      → find j (strike n p key rt s).players ≡ (
          if same key j
          then some (struck rt)
          else if same p.owner_id j
          then Option.map credited (find j s.players)
          else find j s.players)
  unfolding strike announce struck
  find-strike n p key j rt s here other = elim (Bool-cases (same key j)) [
    | inl f ↦
        let at : key ≡ j = (same_iff key j).0 f in
        let here_j : find j s.players ≡ some rt = subst (λ k. find k s.players ≡ some rt) at here in
        let other_j : same p.owner_id j ≡ false = subst (λ k. same p.owner_id k ≡ false) at other in
        elim (Bool-cases (dies rt)) [
          | inl e ↦
              rw
                (
                  e,
                  find-modify key j announced
                      (modify p.owner_id credited (modify key hurt s.players)),
                  find-modify p.owner_id j credited (modify key hurt s.players),
                  find-modify key j hurt s.players,
                  f,
                  other_j,
                  here_j,
                )
                refl
          | inr e ↦
              rw
                (
                  e,
                  find-modify p.owner_id j credited (modify key hurt s.players),
                  find-modify key j hurt s.players,
                  f,
                  other_j,
                  here_j,
                )
                refl
        ]
    | inr f ↦ elim (Bool-cases (dies rt)) [
      | inl e ↦
          rw
            (
              e,
              find-modify key j announced (modify p.owner_id credited (modify key hurt s.players)),
              find-modify p.owner_id j credited (modify key hurt s.players),
              find-modify key j hurt s.players,
              f,
            )
            refl
      | inr e ↦
          rw
            (
              e,
              find-modify p.owner_id j credited (modify key hurt s.players),
              find-modify key j hurt s.players,
              f,
            )
            refl
    ]
  ]
