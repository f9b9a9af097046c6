-- ===== src/Leaderboard/Store.antt =====
-- leaderboard_store.h and leaderboard_store.cpp, the store in memory.
use working_for_codex.Base.{
  ℕ, zero, suc, Bytes, List, [], ◌∷◌, ◌++◌, Option, none, some, if◌then◌else◌, length, bytes_eq,
  same, before,
}
use working_for_codex.Base.Int.{ℤ, ltb_ℤ, beq_ℤ}
use working_for_codex.Base.Dict.{Dict, find, put, erase}

-- `std::map<int, std::set<std::string>, std::greater<int>>`.
abbrev pub Ordered : Type 0
Ordered = List (ℤ × List Bytes)

pub record InMemoryLeaderboardStore : Type 0 where
  pub scores : Dict Bytes ℤ
  pub ordered : Ordered

unfoldable pub empty_store : InMemoryLeaderboardStore
empty_store = record { scores = []; ordered = [] }

-- The set's `insert` and `erase`.
unfoldable pub insert_name : Bytes → List Bytes → List Bytes
insert_name p [] = p ∷ []
insert_name p (q ∷ qs) =
    if same q p then q ∷ qs else if before p q then p ∷ q ∷ qs else q ∷ insert_name p qs

unfoldable pub erase_name : Bytes → List Bytes → List Bytes
erase_name p [] = []
erase_name p (q ∷ qs) = let rest = erase_name p qs in if same q p then rest else q ∷ rest

abbrev pub unless_empty : ℤ → List Bytes → Ordered → Ordered
unless_empty k [] o = o
unless_empty k (q ∷ qs) o = (k, q ∷ qs) ∷ o

unfoldable pub remove_from_ordered : Bytes → ℤ → Ordered → Ordered
unfolding erase_name
remove_from_ordered p score [] = []
remove_from_ordered p score ((k, ps) ∷ o) =
    let rest = remove_from_ordered p score o in
    if beq_ℤ k score then unless_empty k (erase_name p ps) o else (k, ps) ∷ rest

-- `ordered_[score].insert(player_id)`.
unfoldable pub add_to_ordered : Bytes → ℤ → Ordered → Ordered
unfolding insert_name
add_to_ordered p score [] = (score, p ∷ []) ∷ []
add_to_ordered p score ((k, ps) ∷ o) =
    if beq_ℤ k score
    then (k, insert_name p ps) ∷ o
    else if ltb_ℤ k score
    then (score, p ∷ []) ∷ (k, ps) ∷ o
    else (k, ps) ∷ add_to_ordered p score o

abbrev pub set_score : Bytes → ℤ → InMemoryLeaderboardStore → InMemoryLeaderboardStore
set_score p score s = record {
  scores = put p score s.scores;
  ordered = add_to_ordered p score s.ordered;
}

abbrev pub upsert_found : Bytes → ℤ → Option ℤ → InMemoryLeaderboardStore → InMemoryLeaderboardStore
upsert_found p score none s = set_score p score s
upsert_found p score (some old) s =
    if beq_ℤ old score
    then s
    else set_score p score (record s { ordered = remove_from_ordered p old s.ordered })

unfoldable pub upsert : Bytes → ℤ → InMemoryLeaderboardStore → InMemoryLeaderboardStore
unfolding add_to_ordered remove_from_ordered
upsert p score s = upsert_found p score (find p s.scores) s

abbrev pub remove_found : Bytes → Option ℤ → InMemoryLeaderboardStore → InMemoryLeaderboardStore
remove_found p none s = s
remove_found p (some old) s = record {
  scores = erase p s.scores;
  ordered = remove_from_ordered p old s.ordered;
}

-- `Erase`.
unfoldable pub remove : Bytes → InMemoryLeaderboardStore → InMemoryLeaderboardStore
unfolding remove_from_ordered
remove p s = remove_found p (find p s.scores) s

-- The inner loop of `TopN`: the players of one score, and how many more may follow.
unfoldable pub top_of_score : ℕ → ℤ → List Bytes → List (Bytes × ℤ) → ℕ × List (Bytes × ℤ)
top_of_score remaining score [] result = (remaining, result)
top_of_score zero score (p ∷ ps) result = (zero, result)
top_of_score (suc n) score (p ∷ ps) result = top_of_score n score ps (result ++ (p, score) ∷ [])

unfoldable pub top_from : ℕ → Ordered → List (Bytes × ℤ) → List (Bytes × ℤ)
unfolding top_of_score
top_from remaining [] result = result
top_from remaining ((k, ps) ∷ o) result =
    let (left, more) = top_of_score remaining k ps result in
    elim left [ zero ↦ more | suc n ↦ top_from (suc n) o more ]

unfoldable pub top_n : ℕ → InMemoryLeaderboardStore → List (Bytes × ℤ)
unfolding top_from
top_n limit s = top_from limit s.ordered []

unfoldable pub get : Bytes → InMemoryLeaderboardStore → Option ℤ
get p s = find p s.scores

unfoldable pub size : InMemoryLeaderboardStore → ℕ
size s = length s.scores
