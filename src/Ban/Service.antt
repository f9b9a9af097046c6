-- ===== src/Ban/Service.antt =====
-- ban_service.h and ban_service.cpp. A call takes the time that it reads from the clock, in seconds
-- of the epoch.
use working_for_codex.Base.{
  ℕ, ◌+◌, Bool, true, false, not, ◌&&◌, Bytes, List, [], ◌∷◌, ◌++◌, Option, none, some,
  if◌then◌else◌, leb, codes, ◌==◌, bytes_eq,
}
use working_for_codex.Base.Int.{ℤ, pos, negsuc, sub_ℕ, leb_ℤ, beq_ℤ}
use working_for_codex.Base.Dict.{Dict, find, erase, put, retain}

pub data BanDuration : Type 0 where
  warning temp_1_hour temp_24_hours temp_7_days temp_30_days permanent : BanDuration

unfoldable pub ban_duration_to_seconds : BanDuration → ℕ
ban_duration_to_seconds warning = 0
ban_duration_to_seconds temp_1_hour = 3600
ban_duration_to_seconds temp_24_hours = 86400
ban_duration_to_seconds temp_7_days = 604800
ban_duration_to_seconds temp_30_days = 2592000
ban_duration_to_seconds permanent = 0

pub record BanRecord : Type 0 where
  pub player_id : Bytes
  pub hardware_id : Bytes
  pub ip_address : Bytes
  pub duration : BanDuration
  pub ban_start : ℕ
  pub ban_end : ℕ
  pub reason : Bytes
  pub evidence : List Bytes
  pub is_active : Bool

pub record BanPolicy : Type 0 where
  pub violation_type : Bytes
  pub first_offense : BanDuration
  pub second_offense : BanDuration
  pub third_and_beyond : BanDuration

pub record BanCheckResult : Type 0 where
  pub is_banned : Bool
  pub reason : Bytes
  pub remaining_seconds : ℤ
  pub duration : BanDuration

pub record BanService : Type 0 where
  pub player_bans : Dict Bytes (List BanRecord)
  pub hwid_bans : Dict Bytes BanRecord
  pub ip_bans : Dict Bytes BanRecord
  pub policies : List BanPolicy

-- `BanCheckResult{}`.
abbrev pub clear : BanCheckResult
clear = record { is_banned = false; reason = []; remaining_seconds = pos 0; duration = warning }

abbrev pub is_permanent : BanDuration → Bool
is_permanent permanent = true
is_permanent _ = false

abbrev pub is_warning : BanDuration → Bool
is_warning warning = true
is_warning _ = false

unfoldable pub is_ban_expired : ℕ → BanRecord → Bool
is_ban_expired now ban =
    if not ban.is_active
    then true
    else if is_permanent ban.duration
    then false
    else if is_warning ban.duration
    then true
    else leb ban.ban_end now

abbrev pub banned_by : Bytes → ℕ → BanRecord → BanCheckResult
banned_by title now ban = record {
  is_banned = true;
  reason = title ++ ban.reason;
  remaining_seconds = if is_permanent ban.duration then negsuc 0 else sub_ℕ ban.ban_end now;
  duration = ban.duration;
}

-- The loop of `CheckPlayer`, up to its first `break`.
unfoldable pub check_bans : ℕ → List BanRecord → BanCheckResult
unfolding is_ban_expired
check_bans now [] = clear
check_bans now (ban ∷ bans) =
    let rest = check_bans now bans in
    if not ban.is_active
    then rest
    else if is_ban_expired now ban
    then rest
    else banned_by [] now ban

abbrev pub bans_found : Option (List BanRecord) → List BanRecord
bans_found none = []
bans_found (some bans) = bans

unfoldable pub check_player : Bytes → ℕ → BanService → BanCheckResult
unfolding check_bans
check_player player_id now svc = check_bans now (bans_found (find player_id svc.player_bans))

abbrev pub check_found : Bytes → ℕ → Option BanRecord → BanCheckResult
check_found title now none = clear
check_found title now (some ban) =
    if not ban.is_active
    then clear
    else if is_ban_expired now ban
    then clear
    else banned_by title now ban

unfoldable pub check_hardware_id : Bytes → ℕ → BanService → BanCheckResult
unfolding is_ban_expired
check_hardware_id hardware_id now svc =
    check_found (codes "Hardware banned: ") now (find hardware_id svc.hwid_bans)

unfoldable pub check_ip_address : Bytes → ℕ → BanService → BanCheckResult
unfolding is_ban_expired
check_ip_address ip now svc = check_found (codes "IP banned: ") now (find ip svc.ip_bans)

abbrev pub is_forever : BanCheckResult → Bool
is_forever r = r.is_banned && is_permanent r.duration

unfoldable pub check_connection : Bytes → Bytes → Bytes → ℕ → BanService → BanCheckResult
check_connection player_id hardware_id ip now svc =
    let player_result = check_player player_id now svc in
    let hwid_result = check_hardware_id hardware_id now svc in
    let ip_result = check_ip_address ip now svc in
    if is_forever player_result
    then player_result
    else if is_forever hwid_result
    then hwid_result
    else if is_forever ip_result
    then ip_result
    else if player_result.is_banned
    then player_result
    else if hwid_result.is_banned
    then hwid_result
    else if ip_result.is_banned
    then ip_result
    else clear

-- The record that `BanPlayer` stores.
unfoldable pub started : BanRecord → ℕ → BanRecord
unfolding ban_duration_to_seconds
started ban now = record ban {
  ban_start = now;
  ban_end = if is_permanent ban.duration then 0 else now + ban_duration_to_seconds ban.duration;
  is_active = true;
}

-- A write under the test `!key.empty()`.
abbrev pub put_named : Bytes → BanRecord → Dict Bytes BanRecord → Dict Bytes BanRecord
put_named [] ban m = m
put_named (c ∷ cs) ban m = put (c ∷ cs) ban m

abbrev pub erase_named : Bytes → Dict Bytes BanRecord → Dict Bytes BanRecord
erase_named [] m = m
erase_named (c ∷ cs) m = erase (c ∷ cs) m

unfoldable pub ban_player : BanRecord → ℕ → BanService → BanService
unfolding started
ban_player details now svc =
    let ban = started details now in
    record svc {
      player_bans =
          put ban.player_id (bans_found (find ban.player_id svc.player_bans) ++ ban ∷ [])
            svc.player_bans;
      hwid_bans = put_named ban.hardware_id ban svc.hwid_bans;
      ip_bans = put_named ban.ip_address ban svc.ip_bans;
    }

-- The loop of `UnbanPlayer`: the player's records, and what is erased beside them.
unfoldable pub deactivated : List BanRecord → List BanRecord
deactivated [] = []
deactivated (ban ∷ bans) =
    let rest = deactivated bans in
    if ban.is_active then record ban { is_active = false } ∷ rest else ban ∷ rest

unfoldable pub lift_hwids : List BanRecord → Dict Bytes BanRecord → Dict Bytes BanRecord
lift_hwids [] m = m
lift_hwids (ban ∷ bans) m =
    lift_hwids bans (if ban.is_active then erase_named ban.hardware_id m else m)

unfoldable pub lift_ips : List BanRecord → Dict Bytes BanRecord → Dict Bytes BanRecord
lift_ips [] m = m
lift_ips (ban ∷ bans) m = lift_ips bans (if ban.is_active then erase_named ban.ip_address m else m)

abbrev unban_found : Bytes → BanService → Option (List BanRecord) → BanService
unban_found player_id svc none = svc
unban_found player_id svc (some bans) = record svc {
  player_bans = put player_id (deactivated bans) svc.player_bans;
  hwid_bans = lift_hwids bans svc.hwid_bans;
  ip_bans = lift_ips bans svc.ip_bans;
}

unfoldable pub unban_player : Bytes → BanService → BanService
unfolding deactivated lift_hwids lift_ips
unban_player player_id svc = unban_found player_id svc (find player_id svc.player_bans)

unfoldable pub get_ban_history : Bytes → BanService → List BanRecord
get_ban_history player_id svc = bans_found (find player_id svc.player_bans)

unfoldable pub first_active : ℕ → List BanRecord → Option BanRecord
unfolding is_ban_expired
first_active now [] = none
first_active now (ban ∷ bans) =
    let rest = first_active now bans in
    if ban.is_active && not (is_ban_expired now ban) then some ban else rest

unfoldable pub get_active_ban : Bytes → ℕ → BanService → Option BanRecord
unfolding first_active
get_active_ban player_id now svc = first_active now (bans_found (find player_id svc.player_bans))

unfoldable pub add_policy : BanPolicy → BanService → BanService
add_policy policy svc = record svc { policies = svc.policies ++ policy ∷ [] }

abbrev policy_of : Bytes → BanDuration → BanDuration → BanDuration → BanPolicy
policy_of kind a b c = record {
  violation_type = kind;
  first_offense = a;
  second_offense = b;
  third_and_beyond = c;
}

abbrev pub default_policies : List BanPolicy
default_policies =
    policy_of (codes "speedhack") temp_7_days temp_30_days permanent
    ∷ policy_of (codes "aimbot") temp_30_days permanent permanent
    ∷ policy_of (codes "wallhack") temp_7_days temp_30_days permanent
    ∷ policy_of (codes "teleport") temp_24_hours temp_7_days temp_30_days
    ∷ policy_of (codes "anomaly") warning temp_24_hours temp_7_days
    ∷ []

unfoldable pub set_default_policies : BanService → BanService
set_default_policies svc = record svc { policies = default_policies }

-- The constructor of the service.
unfoldable pub create : BanService
unfolding set_default_policies
create =
    set_default_policies (record { player_bans = []; hwid_bans = []; ip_bans = []; policies = [] })

unfoldable pub duration_under : List BanPolicy → Bytes → ℤ → BanDuration
duration_under [] kind offense_count = temp_24_hours
duration_under (policy ∷ policies) kind offense_count =
    let rest = duration_under policies kind offense_count in
    if policy.violation_type == kind
    then (if leb_ℤ offense_count (pos 1)
        then policy.first_offense
        else if beq_ℤ offense_count (pos 2)
        then policy.second_offense
        else policy.third_and_beyond)
    else rest

unfoldable pub get_ban_duration : Bytes → ℤ → BanService → BanDuration
unfolding duration_under
get_ban_duration kind offense_count svc = duration_under svc.policies kind offense_count

unfoldable pub expire_bans : ℕ → List BanRecord → List BanRecord
unfolding is_ban_expired
expire_bans now [] = []
expire_bans now (ban ∷ bans) =
    let rest = expire_bans now bans in
    if ban.is_active && is_ban_expired now ban
    then record ban { is_active = false } ∷ rest
    else ban ∷ rest

unfoldable pub expire_players : ℕ → Dict Bytes (List BanRecord) → Dict Bytes (List BanRecord)
unfolding expire_bans
expire_players now [] = []
expire_players now ((id, bans) ∷ m) = (id, expire_bans now bans) ∷ expire_players now m

unfoldable pub cleanup_expired_bans : ℕ → BanService → BanService
unfolding expire_players is_ban_expired
cleanup_expired_bans now svc = record svc {
  player_bans = expire_players now svc.player_bans;
  hwid_bans = retain (λ ban. not (is_ban_expired now ban)) svc.hwid_bans;
  ip_bans = retain (λ ban. not (is_ban_expired now ban)) svc.ip_bans;
}

abbrev pub has_active : Option BanRecord → ℕ
has_active none = 0
has_active (some ban) = 1

unfoldable pub count_active : ℕ → Dict Bytes (List BanRecord) → ℕ
unfolding first_active
count_active now [] = 0
count_active now ((id, bans) ∷ m) = has_active (first_active now bans) + count_active now m

unfoldable pub get_active_ban_count : ℕ → BanService → ℕ
unfolding count_active
get_active_ban_count now svc = count_active now svc.player_bans

unfoldable pub active_bans : ℕ → List BanRecord → List BanRecord
unfolding is_ban_expired
active_bans now [] = []
active_bans now (ban ∷ bans) =
    let rest = active_bans now bans in
    if ban.is_active && not (is_ban_expired now ban) then ban ∷ rest else rest

unfoldable pub all_active : ℕ → Dict Bytes (List BanRecord) → List BanRecord
unfolding active_bans
all_active now [] = []
all_active now ((id, bans) ∷ m) = active_bans now bans ++ all_active now m

unfoldable pub get_all_active_bans : ℕ → BanService → List BanRecord
unfolding all_active
get_all_active_bans now svc = all_active now svc.player_bans
