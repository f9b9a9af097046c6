-- ===== src/Matching/Maker.antt =====
-- match.h, match_notification_channel.cpp, matchmaker.h and matchmaker.cpp. A call is one step: each
-- holds the mutex while it works on the queue and the counters. `RunMatching` lets go of it before it
-- publishes the matches. The callback is left out: it gets the matches that the channel gets, in the
-- same order.
use working_for_codex.Base.{
  ℕ, ◌+◌, ◌/◌, ◌%◌, ◌^◌, Bool, true, false, not, ◌||◌, Bytes, codes, List, [], ◌∷◌, ◌++◌, Option,
  none, some, if◌then◌else◌, same, decimal, replicate,
}
use working_for_codex.Base.Int.{ℤ, pos, negsuc, ◌+ℤ◌, ◌-ℤ◌, ltb_ℤ, leb_ℤ}
use working_for_codex.Matching.Request.{
  MatchRequest, wait_seconds, current_tolerance, regions_compatible, ratings_compatible,
}
use working_for_codex.Matching.Queue.{
  InMemoryMatchQueue, QueuedPlayer, empty_queue, upsert, remove, fetch_ordered, size,
}

pub record Match : Type 0 where
  pub match_id : Bytes
  pub players : Bytes × Bytes
  pub average_elo : ℤ
  pub created_at : ℕ
  pub region : Bytes

abbrev pub MatchNotificationChannel : Type 0
MatchNotificationChannel = List Match

unfoldable pub publish : Match → MatchNotificationChannel → MatchNotificationChannel
publish m [] = m ∷ []
publish m (n ∷ ns) = n ∷ publish m ns

unfoldable pub poll : MatchNotificationChannel → MatchNotificationChannel × Option Match
poll [] = ([], none)
poll (m ∷ ms) = (ms, some m)

-- The loop of `Drain`; each round pops the front.
unfoldable pub drain : MatchNotificationChannel → List Match → List Match
drain [] matches = matches
drain (m ∷ ms) matches = drain ms (matches ++ m ∷ [])

pub record Matchmaker : Type 0 where
  pub queue : InMemoryMatchQueue
  pub notifications : MatchNotificationChannel
  pub order_counter : ℕ
  pub match_counter : ℕ
  pub matches_created : ℕ
  pub last_queue_size : ℕ
  pub wait_bucket_counts : List ℕ
  pub wait_overflow_count : ℕ
  pub wait_sum : ℤ
  pub wait_count : ℕ

unfoldable pub new_matchmaker : Matchmaker
new_matchmaker = record {
  queue = empty_queue;
  notifications = [];
  order_counter = 0;
  match_counter = 0;
  matches_created = 0;
  last_queue_size = 0;
  wait_bucket_counts = replicate 6 0;
  wait_overflow_count = 0;
  wait_sum = pos 0;
  wait_count = 0;
}

-- `++` of a `std::uint64_t`.
unfoldable pub increment : ℕ → ℕ
increment n = (n + 1) % 2 ^ 64

unfoldable pub enqueue : MatchRequest → Matchmaker → Matchmaker
enqueue r m =
    let order = increment m.order_counter in
    let queue = upsert r order m.queue in
    record m { queue = queue; order_counter = order; last_queue_size = size queue }

unfoldable pub cancel : Bytes → Matchmaker → Matchmaker × Bool
cancel player_id m =
    let (queue, removed) = remove player_id m.queue in
    (record m { queue = queue; last_queue_size = size queue }, removed)

-- `kWaitBuckets`, in nanoseconds.
abbrev pub wait_buckets : List ℕ
wait_buckets = 0 ∷ 5000000000 ∷ 10000000000 ∷ 20000000000 ∷ 40000000000 ∷ 80000000000 ∷ []

-- The loop over the buckets: the counts, and whether none took the wait.
unfoldable pub count_wait : ℤ → List ℕ → List ℕ → List ℕ × Bool
count_wait wait [] counts = (counts, true)
count_wait wait (b ∷ bs) [] = ([], true)
count_wait wait (b ∷ bs) (c ∷ cs) =
    let (rest, over) = count_wait wait bs cs in
    if leb_ℤ wait (pos b) then (increment c ∷ cs, false) else (c ∷ rest, over)

unfoldable pub observe_wait : ℤ → Matchmaker → Matchmaker
observe_wait wait m =
    let (counts, over) = count_wait wait wait_buckets m.wait_bucket_counts in
    record m {
      wait_sum = m.wait_sum +ℤ wait;
      wait_count = increment m.wait_count;
      wait_bucket_counts = counts;
      wait_overflow_count = if over then increment m.wait_overflow_count else m.wait_overflow_count;
    }

unfoldable pub resolve_region : MatchRequest → MatchRequest → Bytes
resolve_region lhs rhs =
    if same lhs.preferred_region rhs.preferred_region
    then lhs.preferred_region
    else if same lhs.preferred_region (codes "any")
    then rhs.preferred_region
    else if same rhs.preferred_region (codes "any")
    then lhs.preferred_region
    else lhs.preferred_region

-- `/ 2` of an `int`, which rounds towards 0.
abbrev pub half : ℤ → ℤ
half (pos n) = pos (n / 2)
half (negsuc n) = pos 0 -ℤ pos ((n + 1) / 2)

unfoldable pub is_used : Bytes → List Bytes → Bool
is_used p [] = false
is_used p (q ∷ qs) = same q p || is_used p qs

-- The inner loop of `RunMatching`: the first partner among the players that come later.
unfoldable pub find_partner :
    ℕ → MatchRequest → List Bytes → List QueuedPlayer → Option MatchRequest
find_partner now a used [] = none
find_partner now a used (b ∷ bs) =
    let rest = find_partner now a used bs in
    if is_used b.request.player_id used
    then rest
    else if not (regions_compatible a b.request)
    then rest
    else if ratings_compatible now a b.request
    then some b.request
    else if ltb_ℤ (current_tolerance now a) (b.request.elo -ℤ a.elo)
    then none
    else rest

unfoldable pub make_match : ℕ → MatchRequest → MatchRequest → ℕ → Match
make_match now a b number = record {
  match_id = codes "match-" ++ decimal number;
  players = (a.player_id, b.player_id);
  average_elo = half (a.elo +ℤ b.elo);
  created_at = now;
  region = resolve_region a b;
}

-- What the outer loop does with a pair that it found.
unfoldable pub settle : ℕ → MatchRequest → MatchRequest → Matchmaker → Matchmaker × Match
settle now a b m =
    let queue = (remove b.player_id (remove a.player_id m.queue).0).0 in
    let number = increment m.match_counter in
    let counted = record m {
      queue = queue;
      matches_created = increment m.matches_created;
      match_counter = number;
    } in
    (
      observe_wait (wait_seconds now b) (observe_wait (wait_seconds now a) counted),
      make_match now a b number,
    )

-- The partner of a player at the player's turn, if the player is not taken and one is found.
unfoldable pub choose_partner :
    ℕ → List Bytes → QueuedPlayer → List QueuedPlayer → Option MatchRequest
unfolding find_partner is_used
choose_partner now used p ps =
    if is_used p.request.player_id used then none else find_partner now p.request used ps

abbrev pub use_pair : MatchRequest → MatchRequest → List Bytes → List Bytes
use_pair a b used = b.player_id ∷ a.player_id ∷ used

-- The outer loop of `RunMatching`, from a player on.
unfoldable pub match_players :
    ℕ → List Bytes → List QueuedPlayer → Matchmaker → Matchmaker × List Match
unfolding choose_partner
match_players now used [] m = (m, [])
match_players now used (p ∷ ps) m = elim (choose_partner now used p ps) [
  | none ↦ match_players now used ps m
  | some b ↦
      let (paired, made) = settle now p.request b m in
      let (done, matches) = match_players now (use_pair p.request b used) ps paired in
      (done, made ∷ matches)
]

unfoldable pub publish_all : List Match → MatchNotificationChannel → MatchNotificationChannel
unfolding publish
publish_all [] channel = channel
publish_all (m ∷ ms) channel = publish_all ms (publish m channel)

unfoldable pub run_matching : ℕ → Matchmaker → Matchmaker × List Match
unfolding match_players publish_all
run_matching now m =
    let (done, matches) = match_players now [] (fetch_ordered m.queue) m in
    (
      record done {
        last_queue_size = size done.queue;
        notifications = publish_all matches done.notifications;
      },
      matches,
    )
