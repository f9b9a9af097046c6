-- ===== src/Ban/Lifting.antt =====
-- `UnbanPlayer` of ban_service.cpp.
use working_for_codex.Base.{
  ℕ, ◌≡◌, ◌≢◌, refl, ap, sym, subst, same-ne_false, ◌∙◌, true, Bytes, List, [], ◌∷◌, ◌++◌, none,
  if◌then◌else◌, bytes_eq, same_iff, same_refl, arith, Option-cases, inl, inr, ◌==◌, ◌⊎◌,
}
use mathlib.Core.List.{Memᴰ}
use working_for_codex.Base.Dict.{Dict, find, find-erase, find-put}
use working_for_codex.Ban.Service.{
  BanRecord, BanService, clear, is_ban_expired, bans_found, check_player, check_hardware_id,
  first_active, deactivated, lift_hwids, unban_player, started, ban_player, erase_named,
}
use working_for_codex.Ban.Checks.{check_player_lem, bans-ban_player}

deactivated-first_active :
    (t : ℕ) (bans : List BanRecord) → first_active t (deactivated bans) ≡ none
unfolding first_active deactivated is_ban_expired
deactivated-first_active t [] = refl
deactivated-first_active t (ban ∷ bans) = ground (arith, deactivated-first_active t bans)

bans-unban_player :
    (p q : Bytes) (svc : BanService)
    → bans_found (find q (unban_player p svc).player_bans) ≡ (
        if p == q
        then deactivated (bans_found (find p svc.player_bans))
        else bans_found (find q svc.player_bans))
unfolding unban_player deactivated
bans-unban_player p q svc = elim (Option-cases (find p svc.player_bans)) [
  | inl e ↦ rw (e, unban_player) (ground (arith, same_iff p q))
  | inr (bans, e) ↦
      rw (e, unban_player) (rw (find-put p q (deactivated bans) svc.player_bans) (ground arith))
]

-- A player who is unbanned passes the check at any time, and the check of every other player is as
-- it was.
pub unban_player-check_player :
    (p q : Bytes) (t : ℕ) (svc : BanService)
    → check_player q t (unban_player p svc) ≡ (if p == q then clear else check_player q t svc)
unban_player-check_player p q t svc =
    rw
      (
        check_player_lem q t (unban_player p svc),
        check_player_lem q t svc,
        bans-unban_player p q svc,
      )
      (ground (arith, deactivated-first_active t (bans_found (find p svc.player_bans))))

erase_named-none :
    (k h : Bytes) (m : Dict Bytes BanRecord)
    → (find h m ≡ none) ⊎ ((k ≡ h) × (h ≢ []))
    → find h (erase_named k m) ≡ none
erase_named-none [] h m (inl e) = e
erase_named-none [] h m (inr (e, named)) = absurd (named (sym e))
erase_named-none (c ∷ cs) h m r = ground (arith, find-erase (c ∷ cs) h m, same_iff (c ∷ cs) h)

lift_hwids-none :
    (h : Bytes) (bans : List BanRecord) (m : Dict Bytes BanRecord)
    → find h m ≡ none
    → find h (lift_hwids bans m) ≡ none
unfolding lift_hwids
lift_hwids-none h [] m e = e
lift_hwids-none h (ban ∷ bans) m e =
    lift_hwids-none h bans _ (ground (arith, erase_named-none ban.hardware_id h m (inl e)))

lift_hwids-erased :
    (h : Bytes) (bans : List BanRecord) (m : Dict Bytes BanRecord)
    → h ≢ []
    → find h (lift_hwids bans (erase_named h m)) ≡ none
lift_hwids-erased h bans m named =
    lift_hwids-none h bans (erase_named h m) (erase_named-none h h m (inr (refl, named)))

-- An active ban of the player's takes its hardware out of the map.
lift_hwids-active :
    (bans : List BanRecord) (m : Dict Bytes BanRecord) (ban : BanRecord)
    → Memᴰ ban bans
    → ban.is_active ≡ true
    → ban.hardware_id ≢ []
    → find ban.hardware_id (lift_hwids bans m) ≡ none
unfolding lift_hwids
lift_hwids-active [] m ban x on named = elim x [ ]
lift_hwids-active (b ∷ bans) m ban (Memᴰ.head same_ban) on named =
    rw (sym (ap (λ x. x.is_active) same_ban) ∙ on) (
      subst (λ k. find ban.hardware_id (lift_hwids bans (erase_named k m)) ≡ none)
        (ap (λ x. x.hardware_id) same_ban) (lift_hwids-erased ban.hardware_id bans m named))
lift_hwids-active (b ∷ bans) m ban (Memᴰ.tail x) on named = lift_hwids-active bans _ ban x on named

hwid-unban_player :
    (p : Bytes) (svc : BanService)
    → (unban_player p svc).hwid_bans
      ≡ lift_hwids (bans_found (find p svc.player_bans)) svc.hwid_bans
unfolding unban_player lift_hwids
hwid-unban_player p svc = elim (Option-cases (find p svc.player_bans)) [
  | inl e ↦ rw (e, unban_player)
  | inr (bans, e) ↦ rw (e, unban_player)
]

check_hardware_id-none :
    (h : Bytes) (t : ℕ) (svc : BanService)
    → find h svc.hwid_bans ≡ none
    → check_hardware_id h t svc ≡ clear
unfolding check_hardware_id
check_hardware_id-none h t svc e = rw e

-- Unbanning a player also lifts the bans of all hardware that is named in an active record of the
-- player's.
pub unban_player-check_hardware_id :
    (p : Bytes) (t : ℕ) (svc : BanService) (ban : BanRecord)
    → Memᴰ ban (bans_found (find p svc.player_bans))
    → ban.is_active ≡ true
    → ban.hardware_id ≢ []
    → check_hardware_id ban.hardware_id t (unban_player p svc) ≡ clear
unban_player-check_hardware_id p t svc ban here on named =
    check_hardware_id-none ban.hardware_id t (unban_player p svc) (
      rw (hwid-unban_player p svc)
        (lift_hwids-active (bans_found (find p svc.player_bans)) svc.hwid_bans ban here on named))

-- The bans of two players who share their hardware, one after the other.
unfoldable pub both_banned : BanRecord → BanRecord → ℕ → ℕ → BanService → BanService
unfolding ban_player
both_banned a b first second svc = ban_player b second (ban_player a first svc)

mem-last : (bans : List BanRecord) (ban : BanRecord) → Memᴰ ban (bans ++ ban ∷ [])
mem-last [] ban = Memᴰ.head refl
mem-last (b ∷ bans) ban = Memᴰ.tail (mem-last bans ban)

mem-both_banned :
    (a b : BanRecord) (first second : ℕ) (svc : BanService)
    → a.player_id ≢ b.player_id
    → Memᴰ
        (started a first)
        (bans_found (find a.player_id (both_banned a b first second svc).player_bans))
unfolding both_banned
mem-both_banned a b first second svc apart =
    rw
      (
        bans-ban_player b second (ban_player a first svc) a.player_id,
        same-ne_false b.player_id a.player_id (λ e. apart (sym e)),
        bans-ban_player a first svc a.player_id,
        same_refl a.player_id,
      )
      (mem-last (bans_found (find a.player_id svc.player_bans)) (started a first))

-- When two players with the same hardware id, not empty, are banned one after the other,
-- unbanning the first one also lifts the hardware ban that the second one's ban has put in
-- place.
pub unban_player-shared_hardware :
    (a b : BanRecord) (first second t : ℕ) (svc : BanService)
    → a.player_id ≢ b.player_id
    → b.hardware_id ≡ a.hardware_id
    → a.hardware_id ≢ []
    → check_hardware_id b.hardware_id t
        (unban_player a.player_id (both_banned a b first second svc))
      ≡ clear
unfolding started
unban_player-shared_hardware a b first second t svc apart shared named =
    subst
      (λ h.
        check_hardware_id h t (unban_player a.player_id (both_banned a b first second svc)) ≡ clear)
      (sym shared)
      (unban_player-check_hardware_id a.player_id t (both_banned a b first second svc)
        (started a first) (mem-both_banned a b first second svc apart) refl named)
