-- ===== src/Ban/Escalation.antt =====
-- The policies of ban_service.cpp.
use working_for_codex.Base.{ℕ, ◌≤◌, Bytes, List, [], ◌∷◌, arith, bytes_eq}
use working_for_codex.Base.Int.{ℤ, ◌≤ℤ◌}
use working_for_codex.Ban.Service.{
  BanDuration, warning, temp_1_hour, temp_24_hours, temp_7_days, temp_30_days, permanent, BanPolicy,
  BanService, default_policies, set_default_policies, duration_under, get_ban_duration,
}

-- From a warning up to a ban for ever.
unfoldable pub severity : BanDuration → ℕ
severity warning = 0
severity temp_1_hour = 1
severity temp_24_hours = 2
severity temp_7_days = 3
severity temp_30_days = 4
severity permanent = 5

-- Each policy grows no milder.
abbrev Escalates : List BanPolicy → Type 0
Escalates [] = Unit
Escalates (p ∷ ps) =
    (severity p.first_offense ≤ severity p.second_offense)
    × (severity p.second_offense ≤ severity p.third_and_beyond)
    × Escalates ps

duration_under_mono :
    (ps : List BanPolicy) (kind : Bytes) (c d : ℤ)
    → c ≤ℤ d
    → Escalates ps
    → severity (duration_under ps kind c) ≤ severity (duration_under ps kind d)
unfolding duration_under
duration_under_mono [] kind c d le e = omega arith
duration_under_mono (p ∷ ps) kind c d le e = ground (arith, duration_under_mono ps kind c d le e.2)

default_policies-Escalates : Escalates default_policies
unfolding severity
default_policies-Escalates = omega arith

-- Under the default policies more offenses of any one kind never earn a milder ban.
pub get_ban_duration_mono :
    (svc : BanService) (kind : Bytes) (c d : ℤ)
    → c ≤ℤ d
    → severity (get_ban_duration kind c (set_default_policies svc))
      ≤ severity (get_ban_duration kind d (set_default_policies svc))
unfolding get_ban_duration set_default_policies
get_ban_duration_mono svc kind c d le =
    duration_under_mono default_policies kind c d le default_policies-Escalates
