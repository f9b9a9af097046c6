-- ===== src/Ban/Examples.antt =====
-- ban_service.cpp run on two players who share a machine.
use working_for_codex.Base.{
  ◌≡◌, ◌≢◌, refl, true, Bytes, [], ◌∷◌, codes, same, same-ne, bytes_eq, arith, if◌then◌else◌,
}
use working_for_codex.Base.Int.{pos}
use working_for_codex.Base.Dict.{find, put, Unique}
use mathlib.Core.List.{Memᴰ}
use working_for_codex.Ban.Service.{
  BanRecord, BanService, BanDuration, temp_1_hour, temp_7_days, clear, started, create, ban_player,
  check_player, check_hardware_id, check_connection, unban_player, cleanup_expired_bans, bans_found,
}
use working_for_codex.Ban.Checks.{standing, ban_player-check_player}
use working_for_codex.Ban.Cleanup.{cleanup-check_connection}
use working_for_codex.Ban.Lifting.{both_banned, unban_player-shared_hardware}

abbrev machine : Bytes
machine = codes "m1"

machine_named : machine ≢ []
machine_named e = cc

abbrev record_of : Bytes → BanDuration → BanRecord
record_of p d = record {
  player_id = p;
  hardware_id = machine;
  ip_address = [];
  duration = d;
  ban_start = 0;
  ban_end = 0;
  reason = codes "aimbot";
  evidence = [];
  is_active = true;
}

abbrev ann : BanRecord
ann = record_of (codes "ann") temp_1_hour

abbrev bob : BanRecord
bob = record_of (codes "bob") temp_7_days

abbrev banned : BanService
banned = record {
  player_bans = (codes "ann", started ann 100 ∷ []) ∷ (codes "bob", started bob 200 ∷ []) ∷ [];
  hwid_bans = (machine, started bob 200) ∷ [];
  ip_bans = [];
  policies = [];
}

banned_lem : record (both_banned ann bob 100 200 create) { policies = [] } ≡ banned
unfolding both_banned create find put same
banned_lem = refl

ann-refused : check_player (codes "ann") 3699 banned ≡ record {
  is_banned = true;
  reason = codes "aimbot";
  remaining_seconds = pos 1;
  duration = temp_1_hour;
}
unfolding check_player find same started
ann-refused = refl

ann-free : check_player (codes "ann") 3700 banned ≡ clear
unfolding check_player find same started
ann-free = refl

ban_player-check_player_example : check_player ann.player_id 3699 (ban_player ann 100 create) ≡ (
    if (check_player ann.player_id 3699 create).is_banned
    then check_player ann.player_id 3699 create
    else standing ann 100 3699)
ban_player-check_player_example = ban_player-check_player ann 100 3699 create

hwids-Unique : Unique banned.hwid_bans
unfolding find
hwids-Unique = (refl, tt)

cleanup-check_connection_example :
    check_connection ann.player_id machine [] 5000 (cleanup_expired_bans 4000 banned)
    ≡ check_connection ann.player_id machine [] 5000 banned
cleanup-check_connection_example =
    cleanup-check_connection 4000 5000 ann.player_id machine [] banned (omega arith) hwids-Unique tt

first_of_ann : Memᴰ (started ann 100) (bans_found (find ann.player_id banned.player_bans))
unfolding find same
first_of_ann = Memᴰ.head refl

ann-ne-bob : ann.player_id ≢ bob.player_id
unfolding same
ann-ne-bob = same-ne ann.player_id bob.player_id refl

unban_player-shared_hardware_example :
    check_hardware_id machine 300 (unban_player ann.player_id (both_banned ann bob 100 200 create))
    ≡ clear
unban_player-shared_hardware_example =
    unban_player-shared_hardware ann bob 100 200 300 create ann-ne-bob refl machine_named
