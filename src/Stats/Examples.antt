-- ===== src/Stats/Examples.antt =====
-- match_stats.cpp and player_profile_service.cpp run on a match of two players.
use working_for_codex.Base.{ℕ, ◌%◌, ◌^◌, ◌≡◌, refl, List, [], ◌∷◌, Option, some, map, codes}
use working_for_codex.Base.Int.{pos}
use working_for_codex.Base.Grid.{grid}
use working_for_codex.Game.Combat.{CombatEvent, hit, death}
use working_for_codex.Game.Session.{GameSession, create, upsert_player}
use working_for_codex.Leaderboard.Store.{InMemoryLeaderboardStore, top_n, upsert, empty_store}
use working_for_codex.Stats.Profiles.{
  MatchResult, top_profiles, record_match, rating_of, new_service,
}
use working_for_codex.Stats.Linked.{record_all}
use working_for_codex.Stats.Ranking.{entry, fresh, top_profiles-top_n}
use working_for_codex.Stats.Collector.{collect}
use working_for_codex.Stats.Damage.{sum_of, collect-damage}

abbrev blow : CombatEvent
blow = record {
  kind = hit;
  shooter_id = codes "a";
  target_id = codes "b";
  projectile_id = codes "projectile-1";
  damage = pos 20;
  tick = 7;
}

abbrev last_blow : CombatEvent
last_blow = record blow { kind = death; damage = pos 0 }

abbrev fought : GameSession ℕ
fought = record (upsert_player (codes "b") (upsert_player (codes "a") create)) {
  combat_log = record { capacity = 32; events = blow ∷ last_blow ∷ [] };
}

collect-damage_example :
    sum_of (λ p. p.damage_dealt) (collect last_blow fought 0).player_stats % 2 ^ 64
    ≡ sum_of (λ p. p.damage_taken) (collect last_blow fought 0).player_stats % 2 ^ 64
collect-damage_example = collect-damage last_blow fought 0

abbrev results : List MatchResult
results = collect last_blow fought 0 ∷ []

-- The leaderboard after the match.
board_after : Option InMemoryLeaderboardStore
board_after = (record_all ℕ results fresh).leaderboard

abbrev board : InMemoryLeaderboardStore
board =
    let m = (record_all ℕ results fresh).aggregates in
    upsert (codes "b") (rating_of (codes "b") m)
      (upsert (codes "a") (rating_of (codes "a") m) empty_store)

board_shown : (record_all ℕ results fresh).leaderboard ≡ some board
unfolding record_all record_match fresh new_service collect
board_shown = refl

top_profiles-top_n_example : map entry (top_profiles 5 (record_all ℕ results fresh)) ≡ top_n 5 board
top_profiles-top_n_example = top_profiles-top_n ℕ results 5 board board_shown
