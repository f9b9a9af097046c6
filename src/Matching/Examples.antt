-- ===== src/Matching/Examples.antt =====
-- matchmaker.cpp run on three players.
use working_for_codex.Base.{
  ℕ, ◌≡◌, refl, false, Bytes, codes, List, [], ◌∷◌, some, arith, bytes_eq, same, get_elem?, decimal,
}
use working_for_codex.Base.Int.{pos, ◌+ℤ◌}
use working_for_codex.Base.Dict.{find, put}
use working_for_codex.Matching.Request.{MatchRequest, regions_compatible, ratings_compatible}
use working_for_codex.Matching.Queue.{
  InMemoryMatchQueue, QueuedPlayer, empty_queue, upsert, fetch_ordered, snapshot, all_players,
  insert_in, remove,
}
use working_for_codex.Matching.Maker.{
  Matchmaker, new_matchmaker, enqueue, run_matching, is_used, settle, make_match, resolve_region,
  observe_wait, increment,
}
use working_for_codex.Matching.Pairing.{
  Compatible, pair_up, pair_up-Compatible, pair_up-Distinct, Distinct, ids_of, queued_ids,
  compatible,
}
use working_for_codex.Matching.Order.{fetch_ordered-leftover}
use working_for_codex.Matching.Metrics.{IsCounted, run, run-new-IsCounted, enqueued, matched}

abbrev request : Bytes → ℕ → MatchRequest
request id elo = record {
  player_id = id;
  elo = pos elo;
  enqueued_at = 0;
  preferred_region = codes "eu";
}

abbrev queue : InMemoryMatchQueue
queue =
    upsert (request (codes "c") 2000) 3
      (upsert (request (codes "b") 1500) 2 (upsert (request (codes "a") 1000) 1 empty_queue))

queue_lem : snapshot queue ≡ codes "a:1000,b:1500,c:2000"
unfolding snapshot upsert empty_queue find put same all_players insert_in decimal
queue_lem = refl

abbrev player : Bytes → ℕ → ℕ → QueuedPlayer
player id elo order = record { request = request id elo; order = order }

abbrev waiting : List QueuedPlayer
waiting = player (codes "a") 1000 1 ∷ player (codes "b") 1050 2 ∷ []

paired : ids_of (pair_up 0 [] waiting) ≡ codes "a" ∷ codes "b" ∷ []
unfolding ids_of pair_up same regions_compatible ratings_compatible
paired = refl

waiting-Distinct : Distinct (queued_ids waiting)
unfolding queued_ids is_used same
waiting-Distinct = (refl, (let alone : Distinct (codes "b" ∷ []) = (refl, tt) in alone))

pair_up-Compatible_example : Compatible 0 (pair_up 0 [] waiting)
pair_up-Compatible_example = pair_up-Compatible 0 [] waiting

pair_up-Distinct_example : Distinct (ids_of (pair_up 0 [] waiting))
pair_up-Distinct_example = pair_up-Distinct 0 [] waiting waiting-Distinct

abbrev maker : Matchmaker
maker = enqueue (request (codes "b") 1050) (enqueue (request (codes "a") 1000) new_matchmaker)

-- The round makes a match of them.
maker_paired :
    get_elem? (run_matching 0 maker).0.notifications 0
    ≡ some (record {
      match_id = codes "match-1";
      players = (codes "a", codes "b");
      average_elo = pos 1025;
      created_at = 0;
      region = codes "eu";
    })
unfolding run_matching enqueue new_matchmaker upsert empty_queue find put same insert_in decimal
    fetch_ordered regions_compatible ratings_compatible settle make_match resolve_region remove
    observe_wait increment ◌+ℤ◌
maker_paired = refl

first_waits : get_elem? (fetch_ordered queue) 0 ≡ some (player (codes "a") 1000 1)
unfolding fetch_ordered upsert empty_queue find put same insert_in
first_waits = refl

last_waits : get_elem? (fetch_ordered queue) 2 ≡ some (player (codes "c") 2000 3)
unfolding fetch_ordered upsert empty_queue find put same insert_in
last_waits = refl

none_paired :
    (is_used (codes "a") (ids_of (pair_up 0 [] (fetch_ordered queue))) ≡ false)
    × (is_used (codes "c") (ids_of (pair_up 0 [] (fetch_ordered queue))) ≡ false)
unfolding fetch_ordered upsert empty_queue find put same ids_of pair_up is_used insert_in
    regions_compatible ratings_compatible
none_paired = (refl, refl)

fetch_ordered-leftover_example :
    compatible 0 (request (codes "a") 1000) (request (codes "c") 2000) ≡ false
fetch_ordered-leftover_example =
    fetch_ordered-leftover 0 queue 0 2 (player (codes "a") 1000 1) (player (codes "c") 2000 3)
      first_waits last_waits (omega arith) none_paired.0 none_paired.1

run-new-IsCounted_example :
    IsCounted (run new_matchmaker (enqueued (request (codes "a") 1000) ∷ matched 5 ∷ []))
run-new-IsCounted_example = run-new-IsCounted (enqueued (request (codes "a") 1000) ∷ matched 5 ∷ [])
