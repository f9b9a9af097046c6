-- ===== src/Stats/Collector.antt =====
-- MatchStatsCollector::Collect of match_stats.cpp, over the states and the combat log of a session.
use working_for_codex.Base.{
  ℕ, ◌+◌, ◌-◌, ◌%◌, ◌^◌, Bytes, List, [], ◌∷◌, ◌++◌, Option, none, some, if◌then◌else◌, ltb,
  nat_beq, bytes_eq, before, codes, decimal,
}
use working_for_codex.Base.Int.{ℤ, pos, negsuc}
use working_for_codex.Base.Dict.{Dict, find, put}
use working_for_codex.Packet.Buffer.{uint32_of_int}
use working_for_codex.Game.Player.{PlayerState}
use working_for_codex.Game.Combat.{CombatEventType, hit, death, CombatEvent}
use working_for_codex.Game.Session.{GameSession}
use working_for_codex.Game.Tick.{snapshot}
use working_for_codex.Stats.Profiles.{PlayerMatchStats, MatchResult, sum64}

pub record RunningTotals : Type 0 where
  pub player_id : Bytes
  pub shots_fired : ℕ
  pub hits_landed : ℕ
  pub kills : ℕ
  pub deaths : ℕ
  pub damage_dealt : ℕ
  pub damage_taken : ℕ

unfoldable pub no_totals : Bytes → RunningTotals
no_totals id = record {
  player_id = id;
  shots_fired = 0;
  hits_landed = 0;
  kills = 0;
  deaths = 0;
  damage_dealt = 0;
  damage_taken = 0;
}

-- `static_cast<std::uint64_t>` of an `int`.
abbrev pub uint64_of_int : ℤ → ℕ
uint64_of_int (pos n) = n % 2 ^ 64
uint64_of_int (negsuc n) = 2 ^ 64 - 1 - n % 2 ^ 64

-- `totals.emplace(id, entry)` leaves an entry that is there.
abbrev pub emplace :
    Bytes
    → RunningTotals
    → Option RunningTotals
    → Dict Bytes RunningTotals
    → Dict Bytes RunningTotals
emplace id entry none totals = put id entry totals
emplace id entry (some old) totals = totals

unfoldable pub start_totals {ℓ} :
    {D : Type ℓ} → List (PlayerState D) → Dict Bytes RunningTotals → Dict Bytes RunningTotals
unfolding no_totals uint32_of_int
start_totals [] totals = totals
start_totals (p ∷ ps) totals =
    let entry = record (no_totals p.player_id) {
      shots_fired = uint32_of_int p.shots_fired;
      hits_landed = uint32_of_int p.hits_landed;
      deaths = uint32_of_int p.deaths;
    } in
    start_totals ps (emplace p.player_id entry (find p.player_id totals) totals)

abbrev pub or_none : Bytes → Option RunningTotals → RunningTotals
or_none id none = no_totals id
or_none id (some t) = t

-- A write through `ensure_entry(id)`.
unfoldable pub ensure :
    Bytes → (RunningTotals → RunningTotals) → Dict Bytes RunningTotals → Dict Bytes RunningTotals
unfolding no_totals
ensure id f totals = put id (f (or_none id (find id totals))) totals

unfoldable pub dealt : ℕ → RunningTotals → RunningTotals
dealt n t = record t { damage_dealt = sum64 t.damage_dealt n }

unfoldable pub taken : ℕ → RunningTotals → RunningTotals
taken n t = record t { damage_taken = sum64 t.damage_taken n }

unfoldable pub killed : RunningTotals → RunningTotals
killed t = record t { kills = (t.kills + 1) % 2 ^ 32 }

-- `if (t.deaths == 0) t.deaths = 1;`, and the same for the kills.
unfoldable pub some_death : RunningTotals → RunningTotals
some_death t = if nat_beq t.deaths 0 then record t { deaths = 1 } else t

unfoldable pub some_kill : RunningTotals → RunningTotals
some_kill t = if nat_beq t.kills 0 then record t { kills = 1 } else t

abbrev pub add_event :
    CombatEventType → CombatEvent → Dict Bytes RunningTotals → Dict Bytes RunningTotals
add_event hit e totals =
    ensure e.target_id (taken (uint64_of_int e.damage))
      (ensure e.shooter_id (dealt (uint64_of_int e.damage)) totals)
add_event death e totals = ensure e.target_id some_death (ensure e.shooter_id killed totals)

-- The loop over the log, up to the tick of the death that ends the match.
unfoldable pub add_events :
    ℕ → List CombatEvent → Dict Bytes RunningTotals → Dict Bytes RunningTotals
unfolding ensure dealt taken killed some_death
add_events last [] totals = totals
add_events last (e ∷ es) totals =
    add_events last es (if ltb last e.tick then totals else add_event e.kind e totals)

unfoldable pub final_totals {ℓ} :
    {D : Type ℓ} → CombatEvent → GameSession D → Dict Bytes RunningTotals
unfolding start_totals snapshot add_events ensure some_kill some_death
final_totals e s = ensure e.target_id some_death (
    ensure e.shooter_id some_kill
      (add_events e.tick s.combat_log.events (start_totals (snapshot s) [])))

abbrev pub stats_of : Bytes → RunningTotals → PlayerMatchStats
stats_of match_id t = record {
  match_id = match_id;
  player_id = t.player_id;
  shots_fired = t.shots_fired;
  hits_landed = t.hits_landed;
  kills = t.kills;
  deaths = t.deaths;
  damage_dealt = t.damage_dealt;
  damage_taken = t.damage_taken;
}

unfoldable pub all_stats : Bytes → Dict Bytes RunningTotals → List PlayerMatchStats
all_stats match_id [] = []
all_stats match_id ((id, t) ∷ more) = stats_of match_id t ∷ all_stats match_id more

-- `std::sort` by the player's id.
unfoldable pub insert_stats : PlayerMatchStats → List PlayerMatchStats → List PlayerMatchStats
insert_stats p [] = p ∷ []
insert_stats p (q ∷ qs) =
    if before q.player_id p.player_id then q ∷ insert_stats p qs else p ∷ q ∷ qs

unfoldable pub sort_stats : List PlayerMatchStats → List PlayerMatchStats
unfolding insert_stats
sort_stats [] = []
sort_stats (p ∷ ps) = insert_stats p (sort_stats ps)

unfoldable pub match_name : CombatEvent → Bytes
match_name e =
    codes "match-" ++ decimal e.tick ++ codes "-" ++ e.shooter_id ++ codes "-vs-" ++ e.target_id

unfoldable pub collect {ℓ} : {D : Type ℓ} → CombatEvent → GameSession D → ℕ → MatchResult
unfolding final_totals all_stats sort_stats match_name
collect e s completed_at =
    let name = match_name e in
    record {
      match_id = name;
      winner_id = e.shooter_id;
      loser_id = e.target_id;
      completed_at = completed_at;
      player_stats = sort_stats (all_stats name (final_totals e s));
    }
