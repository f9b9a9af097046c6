-- ===== src/Ban/Checks.antt =====
-- The checks of ban_service.cpp at login, and a ban against them.
use working_for_codex.Base.{
  ℕ, ◌+◌, ◌≡◌, ◌⊎◌, inl, refl, true, false, not, ◌&&◌, ◌||◌, Bytes, List, [], ◌∷◌, ◌++◌, Option,
  none, some, if◌then◌else◌, leb, bytes_eq, same_refl, arith, codes, ◌==◌,
}
use working_for_codex.Base.Int.{pos, negsuc, sub_ℕ, ◌≤ℤ◌, ltb_ℤ}
use working_for_codex.Base.Dict.{find, find-put}
use working_for_codex.Ban.Service.{
  BanRecord, BanCheckResult, BanService, clear, is_permanent, is_warning, is_ban_expired, banned_by,
  check_bans, bans_found, check_player, check_found, check_hardware_id, check_ip_address,
  is_forever, check_connection, started, ban_player, first_active, get_active_ban,
  ban_duration_to_seconds,
}

abbrev pub answer : ℕ → Option BanRecord → BanCheckResult
answer now none = clear
answer now (some ban) = banned_by [] now ban

-- `CheckPlayer` reports the ban that `GetActiveBan` returns.
pub check_bans-first_active :
    (now : ℕ) (bans : List BanRecord) → check_bans now bans ≡ answer now (first_active now bans)
unfolding check_bans first_active
check_bans-first_active now [] = refl
check_bans-first_active now (ban ∷ bans) = ground (arith, check_bans-first_active now bans)

abbrev pub or_else : Option BanRecord → Option BanRecord → Option BanRecord
or_else none o = o
or_else (some ban) o = some ban

pub first_active-append :
    (now : ℕ) (xs ys : List BanRecord)
    → first_active now (xs ++ ys) ≡ or_else (first_active now xs) (first_active now ys)
unfolding first_active
first_active-append now [] ys = refl
first_active-append now (x ∷ xs) ys = ground (arith, first_active-append now xs ys)

-- What a ban imposed at `now` amounts to at time t.
abbrev pub standing : BanRecord → ℕ → ℕ → BanCheckResult
standing ban now t =
    let expiry = now + ban_duration_to_seconds ban.duration in
    if is_warning ban.duration || not (is_permanent ban.duration) && leb expiry t
    then clear
    else record {
      is_banned = true;
      reason = ban.reason;
      remaining_seconds = if is_permanent ban.duration then negsuc 0 else sub_ℕ expiry t;
      duration = ban.duration;
    }

answer-started :
    (ban : BanRecord) (now t : ℕ)
    → answer t (first_active t (started ban now ∷ [])) ≡ standing ban now t
unfolding first_active started is_ban_expired ban_duration_to_seconds
answer-started ban now t = ground arith

pub check_player_lem :
    (p : Bytes) (t : ℕ) (svc : BanService)
    → check_player p t svc ≡ answer t (first_active t (bans_found (find p svc.player_bans)))
unfolding check_player
check_player_lem p t svc = check_bans-first_active t (bans_found (find p svc.player_bans))

pub bans-ban_player :
    (ban : BanRecord) (now : ℕ) (svc : BanService) (p : Bytes)
    → bans_found (find p (ban_player ban now svc).player_bans) ≡ (
        if ban.player_id == p
        then bans_found (find ban.player_id svc.player_bans) ++ started ban now ∷ []
        else bans_found (find p svc.player_bans))
unfolding ban_player started
bans-ban_player ban now svc p =
    rw
      (find-put ban.player_id p
        (bans_found (find ban.player_id svc.player_bans) ++ started ban now ∷ []) svc.player_bans)
      (ground arith)

answer-or_else :
    (t : ℕ) (x y : Option BanRecord)
    → answer t (or_else x y) ≡ (if (answer t x).is_banned then answer t x else answer t y)
answer-or_else t none y = refl
answer-or_else t (some ban) y = refl

-- A player who is banned is refused from then on by an earlier ban that still stands, or else by the
-- new one: for ever if it is permanent, never if it is a warning, and up to its last second, with the
-- seconds that remain, if it is temporary.
pub ban_player-check_player :
    (ban : BanRecord) (now t : ℕ) (svc : BanService)
    → check_player ban.player_id t (ban_player ban now svc) ≡ (
        if (check_player ban.player_id t svc).is_banned
        then check_player ban.player_id t svc
        else standing ban now t)
ban_player-check_player ban now t svc = rw (
  check_player_lem ban.player_id t (ban_player ban now svc),
  bans-ban_player ban now svc ban.player_id,
  same_refl ban.player_id,
  first_active-append t (bans_found (find ban.player_id svc.player_bans)) (started ban now ∷ []),
  answer-or_else t (first_active t (bans_found (find ban.player_id svc.player_bans)))
      (first_active t (started ban now ∷ [])),
  answer-started ban now t,
  check_player_lem ban.player_id t svc,
)

-- A player is refused exactly when there is an active ban, and then by that ban.
pub check_player-get_active_ban :
    (p : Bytes) (t : ℕ) (svc : BanService)
    → check_player p t svc ≡ answer t (get_active_ban p t svc)
unfolding get_active_ban
check_player-get_active_ban p t svc = check_player_lem p t svc

-- What a refusal says of the time that remains.
abbrev pub Remaining : BanCheckResult → Type 0
Remaining r =
    (r.is_banned ≡ false)
    ⊎ ((is_permanent r.duration ≡ true) × (r.remaining_seconds ≡ negsuc 0))
    ⊎ ((is_permanent r.duration ≡ false) × (pos 1 ≤ℤ r.remaining_seconds))

check_bans-Remaining : (t : ℕ) (bans : List BanRecord) → Remaining (check_bans t bans)
unfolding check_bans is_ban_expired
check_bans-Remaining t [] = inl refl
check_bans-Remaining t (ban ∷ bans) = ground (arith, check_bans-Remaining t bans)

check_found-Remaining :
    (title : Bytes) (t : ℕ) (o : Option BanRecord) → Remaining (check_found title t o)
unfolding is_ban_expired
check_found-Remaining title t none = inl refl
check_found-Remaining title t (some ban) = ground arith

-- A connection that is refused is refused for ever, which is told by -1, or for at least one more
-- second.
pub check_connection-Remaining :
    (p h ip : Bytes) (t : ℕ) (svc : BanService) → Remaining (check_connection p h ip t svc)
unfolding check_connection check_player check_hardware_id check_ip_address
check_connection-Remaining p h ip t svc = ground (
  arith,
  check_bans-Remaining t (bans_found (find p svc.player_bans)),
  check_found-Remaining (codes "Hardware banned: ") t (find h svc.hwid_bans),
  check_found-Remaining (codes "IP banned: ") t (find ip svc.ip_bans),
)

-- A connection is refused exactly when its player, its hardware or its address is, and for ever
-- exactly when one of the three is refused for ever.
pub check_connection-any :
    (p h ip : Bytes) (t : ℕ) (svc : BanService)
    → ((check_connection p h ip t svc).is_banned ≡ (
        (check_player p t svc).is_banned
        || (check_hardware_id h t svc).is_banned
        || (check_ip_address ip t svc).is_banned))
      × (is_forever (check_connection p h ip t svc) ≡ (
          is_forever (check_player p t svc)
          || is_forever (check_hardware_id h t svc)
          || is_forever (check_ip_address ip t svc)))
unfolding check_connection
check_connection-any p h ip t svc = ground arith

-- The connection check does not report the longest of the temporary bans: where the player's ban is
-- temporary, and that of the hardware is temporary and has longer to run, and the address is not
-- banned for ever, less time is reported than the hardware's ban has to run.
pub check_connection-not_longest :
    (p h ip : Bytes) (t : ℕ) (svc : BanService)
    → (check_player p t svc).is_banned ≡ true
    → is_forever (check_player p t svc) ≡ false
    → is_forever (check_hardware_id h t svc) ≡ false
    → is_forever (check_ip_address ip t svc) ≡ false
    → ltb_ℤ (check_player p t svc).remaining_seconds (check_hardware_id h t svc).remaining_seconds
      ≡ true
    → ltb_ℤ
        (check_connection p h ip t svc).remaining_seconds
        (check_hardware_id h t svc).remaining_seconds
      ≡ true
unfolding check_connection
check_connection-not_longest p h ip t svc banned a b c longer = ground arith
