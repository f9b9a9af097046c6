-- ===== src/Stats/Profiles.antt =====
-- player_profile_service.h and player_profile_service.cpp. The lock is left out: each operation holds
-- it from its first statement to its last. The leaderboard is the store in memory, or none.
use working_for_codex.Base.{
  ℕ, ◌+◌, ◌%◌, ◌^◌, Bool, Bytes, List, [], ◌∷◌, Option, none, some, if◌then◌else◌, take, bytes_eq,
  before,
}
use working_for_codex.Base.Int.{ℤ, pos, ◌-ℤ◌, ltb_ℤ, beq_ℤ}
use working_for_codex.Base.Real.{Real, of_nat}
use working_for_codex.Base.Dict.{Dict, find, put}
use working_for_codex.Leaderboard.Store.{InMemoryLeaderboardStore, upsert, top_n}

-- PlayerMatchStats of match_stats.h.
pub record PlayerMatchStats : Type 0 where
  pub match_id : Bytes
  pub player_id : Bytes
  pub shots_fired : ℕ
  pub hits_landed : ℕ
  pub kills : ℕ
  pub deaths : ℕ
  pub damage_dealt : ℕ
  pub damage_taken : ℕ

-- MatchResult of match_stats.h.
pub record MatchResult : Type 0 where
  pub match_id : Bytes
  pub winner_id : Bytes
  pub loser_id : Bytes
  pub completed_at : ℕ
  pub player_stats : List PlayerMatchStats

pub record AggregateStats : Type 0 where
  pub matches : ℕ
  pub wins : ℕ
  pub losses : ℕ
  pub kills : ℕ
  pub deaths : ℕ
  pub shots_fired : ℕ
  pub hits_landed : ℕ
  pub damage_dealt : ℕ
  pub damage_taken : ℕ
  pub rating : ℤ

-- The id and a copy of every field of the aggregate.
pub record PlayerProfile : Type 0 where
  pub player_id : Bytes
  pub stats : AggregateStats

pub record PlayerProfileService : Type 0 where
  pub leaderboard : Option InMemoryLeaderboardStore
  pub aggregates : Dict Bytes AggregateStats
  pub matches_recorded_total : ℕ
  pub rating_updates_total : ℕ

unfoldable pub new_service : Option InMemoryLeaderboardStore → PlayerProfileService
new_service board = record {
  leaderboard = board;
  aggregates = [];
  matches_recorded_total = 0;
  rating_updates_total = 0;
}

-- `AggregateStats{}`.
unfoldable pub new_stats : AggregateStats
new_stats = record {
  matches = 0;
  wins = 0;
  losses = 0;
  kills = 0;
  deaths = 0;
  shots_fired = 0;
  hits_landed = 0;
  damage_dealt = 0;
  damage_taken = 0;
  rating = pos 1200;
}

-- `EloRatingCalculator::Update`: the new rating of the winner and that of the loser.
unfoldable pub update_ratings {ℓ} : (D : Type ℓ) ⦃r : Real D⦄ → ℤ → ℤ → ℤ × ℤ
update_ratings D ⦃r⦄ winner loser =
    let expected : ℤ → ℤ → D = λ mine other.
      r.div (of_nat 1)
        (r.add (of_nat 1) (r.pow (of_nat 10) (r.div (r.whole (other -ℤ mine)) (of_nat 400)))) in
    (
      r.lround
          (r.add (r.whole winner) (r.mul (of_nat 25) (r.sub (of_nat 1) (expected winner loser)))),
      r.lround
          (r.add (r.whole loser) (r.mul (of_nat 25) (r.sub (of_nat 0) (expected loser winner)))),
    )

abbrev pub sum64 : ℕ → ℕ → ℕ
sum64 a b = (a + b) % 2 ^ 64

abbrev pub or_default : Option AggregateStats → AggregateStats
or_default none = new_stats
or_default (some a) = a

-- A write through `aggregates_[id]`, which makes an entry where there is none.
unfoldable pub alter :
    Bytes
    → (AggregateStats → AggregateStats)
    → Dict Bytes AggregateStats
    → Dict Bytes AggregateStats
alter id f m = put id (f (or_default (find id m))) m

unfoldable pub rating_of : Bytes → Dict Bytes AggregateStats → ℤ
rating_of id m = (or_default (find id m)).rating

unfoldable pub accumulated : PlayerMatchStats → AggregateStats → AggregateStats
accumulated p a = record a {
  matches = sum64 a.matches 1;
  shots_fired = sum64 a.shots_fired p.shots_fired;
  hits_landed = sum64 a.hits_landed p.hits_landed;
  damage_dealt = sum64 a.damage_dealt p.damage_dealt;
  damage_taken = sum64 a.damage_taken p.damage_taken;
  kills = sum64 a.kills p.kills;
  deaths = sum64 a.deaths p.deaths;
}

-- The loop over the statistics of the players.
unfoldable pub accumulate :
    List PlayerMatchStats → Dict Bytes AggregateStats → Dict Bytes AggregateStats
unfolding alter accumulated
accumulate [] m = m
accumulate (p ∷ ps) m = accumulate ps (alter p.player_id (accumulated p) m)

abbrev pub won : AggregateStats → AggregateStats
won a = record a { wins = sum64 a.wins 1 }

abbrev pub lost : AggregateStats → AggregateStats
lost a = record a { losses = sum64 a.losses 1 }

abbrev pub rated : ℤ → AggregateStats → AggregateStats
rated rating a = record a { rating = rating }

-- The winner's and the loser's entries may be the same one. Each write goes to the map, so that the
-- next one sees it.
unfoldable pub rate {ℓ} :
    (D : Type ℓ) ⦃r : Real D⦄
    → Bytes
    → Bytes
    → Dict Bytes AggregateStats
    → Dict Bytes AggregateStats
unfolding alter update_ratings rating_of
rate D winner loser m =
    let scored = alter loser lost (alter winner won m) in
    let (winner_new, loser_new) =
      update_ratings D (rating_of winner scored) (rating_of loser scored) in
    alter loser (rated loser_new) (alter winner (rated winner_new) scored)

abbrev pub publish :
    Bytes
    → Bytes
    → Dict Bytes AggregateStats
    → Option InMemoryLeaderboardStore
    → Option InMemoryLeaderboardStore
publish winner loser m none = none
publish winner loser m (some board) =
    some (upsert loser (rating_of loser m) (upsert winner (rating_of winner m) board))

unfoldable pub record_match {ℓ} :
    (D : Type ℓ) ⦃r : Real D⦄ → MatchResult → PlayerProfileService → PlayerProfileService
unfolding accumulate rate rating_of
record_match D result s =
    let m = rate D result.winner_id result.loser_id (accumulate result.player_stats s.aggregates) in
    record {
      leaderboard = publish result.winner_id result.loser_id m s.leaderboard;
      aggregates = m;
      matches_recorded_total = sum64 s.matches_recorded_total 1;
      rating_updates_total = sum64 s.rating_updates_total 2;
    }

-- `BuildProfileUnsafe`.
abbrev pub build_profile : Bytes → AggregateStats → PlayerProfile
build_profile id a = record { player_id = id; stats = a }

abbrev pub profile_of : Bytes → Option AggregateStats → Option PlayerProfile
profile_of id none = none
profile_of id (some a) = some (build_profile id a)

unfoldable pub get_profile : Bytes → PlayerProfileService → Option PlayerProfile
get_profile id s = profile_of id (find id s.aggregates)

abbrev pub unless_missing : Bytes → Option AggregateStats → List PlayerProfile → List PlayerProfile
unless_missing id none rest = rest
unless_missing id (some a) rest = build_profile id a ∷ rest

-- The loop over the entries of the leaderboard.
unfoldable pub profiles_of : List (Bytes × ℤ) → Dict Bytes AggregateStats → List PlayerProfile
profiles_of [] m = []
profiles_of ((id, score) ∷ more) m = unless_missing id (find id m) (profiles_of more m)

unfoldable pub all_profiles : Dict Bytes AggregateStats → List PlayerProfile
all_profiles [] = []
all_profiles ((id, a) ∷ m) = build_profile id a ∷ all_profiles m

-- The order of `std::sort`: the higher rating first, then the smaller id.
abbrev pub precedes : PlayerProfile → PlayerProfile → Bool
precedes a b =
    if beq_ℤ a.stats.rating b.stats.rating
    then before a.player_id b.player_id
    else ltb_ℤ b.stats.rating a.stats.rating

unfoldable pub insert_profile : PlayerProfile → List PlayerProfile → List PlayerProfile
insert_profile p [] = p ∷ []
insert_profile p (q ∷ qs) = if precedes p q then p ∷ q ∷ qs else q ∷ insert_profile p qs

unfoldable pub sort_profiles : List PlayerProfile → List PlayerProfile
unfolding insert_profile
sort_profiles [] = []
sort_profiles (p ∷ ps) = insert_profile p (sort_profiles ps)

unfoldable pub top_profiles : ℕ → PlayerProfileService → List PlayerProfile
unfolding profiles_of all_profiles sort_profiles
top_profiles limit s = elim s.leaderboard [
  | none ↦ take limit (sort_profiles (all_profiles s.aggregates))
  | some board ↦ profiles_of (top_n limit board) s.aggregates
]
