-- ===== src/Ban/Cleanup.antt =====
-- `CleanupExpiredBans` of ban_service.cpp.
use working_for_codex.Base.{
  ℕ, ◌+◌, ◌≤◌, ◌≡◌, refl, ap, ap₂, ◌∙◌, not, Bytes, List, [], ◌∷◌, ◌++◌, Option, none, some,
  bytes_eq, arith, codes,
}
use working_for_codex.Base.Dict.{Dict, find, kept, find-retain, Unique}
use working_for_codex.Ban.Service.{
  BanRecord, BanService, is_ban_expired, bans_found, check_player, check_found, check_hardware_id,
  check_ip_address, check_connection, expire_bans, expire_players, cleanup_expired_bans,
  first_active, active_bans, all_active, get_all_active_bans, count_active, get_active_ban_count,
  has_active,
}
use working_for_codex.Ban.Checks.{check_player_lem, answer}

module _ (now t : ℕ) (later : now ≤ t) where
  expire_bans-first_active :
      (bans : List BanRecord) → first_active t (expire_bans now bans) ≡ first_active t bans
  unfolding first_active expire_bans is_ban_expired
  expire_bans-first_active [] = refl
  expire_bans-first_active (ban ∷ bans) = ground (arith, expire_bans-first_active bans)

  expire_bans-active_bans :
      (bans : List BanRecord) → active_bans t (expire_bans now bans) ≡ active_bans t bans
  unfolding active_bans expire_bans is_ban_expired
  expire_bans-active_bans [] = refl
  expire_bans-active_bans (ban ∷ bans) = ground (arith, expire_bans-active_bans bans)

  expire_players-first_active :
      (p : Bytes) (m : Dict Bytes (List BanRecord))
      → first_active t (bans_found (find p (expire_players now m)))
        ≡ first_active t (bans_found (find p m))
  unfolding find expire_players
  expire_players-first_active p [] = refl
  expire_players-first_active p ((q, bans) ∷ m) =
      ground (arith, expire_players-first_active p m, expire_bans-first_active bans)

  expire_players-all_active :
      (m : Dict Bytes (List BanRecord)) → all_active t (expire_players now m) ≡ all_active t m
  unfolding all_active expire_players
  expire_players-all_active [] = refl
  expire_players-all_active ((q, bans) ∷ m) =
      ap₂ ◌++◌ (expire_bans-active_bans bans) (expire_players-all_active m)

  expire_players-count_active :
      (m : Dict Bytes (List BanRecord)) → count_active t (expire_players now m) ≡ count_active t m
  unfolding count_active expire_players
  expire_players-count_active [] = refl
  expire_players-count_active ((q, bans) ∷ m) =
      ap₂ ◌+◌ (ap has_active (expire_bans-first_active bans)) (expire_players-count_active m)

  check_found-kept :
      (title : Bytes) (o : Option BanRecord)
      → check_found title t (kept (λ ban. not (is_ban_expired now ban)) o) ≡ check_found title t o
  unfolding is_ban_expired
  check_found-kept title none = refl
  check_found-kept title (some ban) = ground arith

  module _ (svc : BanService) where
    cleanup-check_player :
        (p : Bytes) → check_player p t (cleanup_expired_bans now svc) ≡ check_player p t svc
    unfolding cleanup_expired_bans
    cleanup-check_player p =
        rw (check_player_lem p t (cleanup_expired_bans now svc), check_player_lem p t svc)
          (ap (answer t) (expire_players-first_active p svc.player_bans))

    cleanup-check_hardware_id :
        (h : Bytes)
        → Unique svc.hwid_bans
        → check_hardware_id h t (cleanup_expired_bans now svc) ≡ check_hardware_id h t svc
    unfolding cleanup_expired_bans check_hardware_id
    cleanup-check_hardware_id h u =
        ap (check_found (codes "Hardware banned: ") t)
          (find-retain (λ ban. not (is_ban_expired now ban)) h svc.hwid_bans u)
        ∙ check_found-kept (codes "Hardware banned: ") (find h svc.hwid_bans)

    cleanup-check_ip_address :
        (ip : Bytes)
        → Unique svc.ip_bans
        → check_ip_address ip t (cleanup_expired_bans now svc) ≡ check_ip_address ip t svc
    unfolding cleanup_expired_bans check_ip_address
    cleanup-check_ip_address ip u =
        ap (check_found (codes "IP banned: ") t)
          (find-retain (λ ban. not (is_ban_expired now ban)) ip svc.ip_bans u)
        ∙ check_found-kept (codes "IP banned: ") (find ip svc.ip_bans)

-- A cleanup changes no later check of a connection: what it removes has run out. The keys of the
-- two maps must be distinct.
pub cleanup-check_connection :
    (now t : ℕ) (p h ip : Bytes) (svc : BanService)
    → now ≤ t
    → Unique svc.hwid_bans
    → Unique svc.ip_bans
    → check_connection p h ip t (cleanup_expired_bans now svc) ≡ check_connection p h ip t svc
unfolding check_connection
cleanup-check_connection now t p h ip svc later u w = rw (
  cleanup-check_player now t later svc p,
  cleanup-check_hardware_id now t later svc h u,
  cleanup-check_ip_address now t later svc ip w,
)

-- Nor does it change the later list and number of active bans.
pub cleanup-get_all_active_bans :
    (now t : ℕ) (svc : BanService)
    → now ≤ t
    → (get_all_active_bans t (cleanup_expired_bans now svc) ≡ get_all_active_bans t svc)
      × (get_active_ban_count t (cleanup_expired_bans now svc) ≡ get_active_ban_count t svc)
unfolding get_all_active_bans get_active_ban_count cleanup_expired_bans
cleanup-get_all_active_bans now t svc later = (
  expire_players-all_active now t later svc.player_bans,
  expire_players-count_active now t later svc.player_bans,
)
