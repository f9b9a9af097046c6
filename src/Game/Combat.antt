-- ===== src/Game/Combat.antt =====
-- combat.h and combat.cpp: health, and the log of the last events.
use working_for_codex.Base.{
  ℕ, Bool, false, Bytes, List, [], ◌∷◌, ◌++◌, if◌then◌else◌, not, ltb, nat_beq, length, drop,
}
use working_for_codex.Base.Int.{ℤ, pos, ◌-ℤ◌, ltb_ℤ, leb_ℤ, beq_ℤ}

pub record HealthComponent : Type 0 where
  pub max : ℤ
  pub current : ℤ

unfoldable pub new_health : ℤ → HealthComponent
new_health max_hp = record { max = max_hp; current = max_hp }

unfoldable pub is_alive : HealthComponent → Bool
is_alive h = ltb_ℤ (pos 0) h.current

-- `std::max(0, value)`.
abbrev pub at_least_zero : ℤ → ℤ
at_least_zero value = if ltb_ℤ value (pos 0) then pos 0 else value

-- Whether this damage kills, and what is left.
unfoldable pub apply_damage : ℤ → HealthComponent → Bool × HealthComponent
unfolding is_alive
apply_damage amount h =
    let left = at_least_zero (h.current -ℤ amount) in
    if leb_ℤ amount (pos 0)
    then (false, h)
    else if not (is_alive h)
    then (false, h)
    else (beq_ℤ left (pos 0), record h { current = left })

unfoldable pub reset : HealthComponent → HealthComponent
reset h = record h { current = h.max }

pub data CombatEventType : Type 0 where
  hit : CombatEventType
  death : CombatEventType

pub record CombatEvent : Type 0 where
  pub kind : CombatEventType
  pub shooter_id : Bytes
  pub target_id : Bytes
  pub projectile_id : Bytes
  pub damage : ℤ
  pub tick : ℕ

-- The oldest event comes first.
pub record CombatLog : Type 0 where
  pub capacity : ℕ
  pub events : List CombatEvent

unfoldable pub new_log : ℕ → CombatLog
new_log capacity = record { capacity = capacity; events = [] }

unfoldable pub add : CombatEvent → CombatLog → CombatLog
add event log =
    let pushed = log.events ++ event ∷ [] in
    if nat_beq log.capacity 0
    then log
    else if ltb log.capacity (length pushed)
    then record log { events = drop 1 pushed }
    else record log { events = pushed }
