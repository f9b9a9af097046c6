-- ===== src/Matching/Queue.antt =====
-- match_queue.h and match_queue.cpp. An iterator of a bucket's list is the number of the list node
-- that it points at, which no other node ever has.
use working_for_codex.Base.{
  ℕ, ◌+◌, Bool, true, false, Bytes, codes, List, [], ◌∷◌, ◌++◌, Option, none, some, if◌then◌else◌,
  ltb, nat_beq, length, bytes_eq, decimal,
}
use working_for_codex.Base.Int.{ℤ, pos, negsuc, ltb_ℤ, beq_ℤ}
use working_for_codex.Base.Dict.{Dict, find, put, erase}
use working_for_codex.Matching.Request.{MatchRequest}

pub record BucketEntry : Type 0 where
  pub node : ℕ
  pub request : MatchRequest
  pub order : ℕ

abbrev pub Bucket : Type 0
Bucket = List BucketEntry

-- `std::map<int, Bucket>`, in the order of its keys.
abbrev pub Buckets : Type 0
Buckets = List (ℤ × Bucket)

pub record InMemoryMatchQueue : Type 0 where
  pub buckets : Buckets
  pub index : Dict Bytes (ℤ × ℕ)
  pub next_node : ℕ

unfoldable pub empty_queue : InMemoryMatchQueue
empty_queue = record { buckets = []; index = []; next_node = 0 }

unfoldable pub find_bucket : ℤ → Buckets → Option Bucket
find_bucket elo [] = none
find_bucket elo ((k, b) ∷ bs) = if beq_ℤ k elo then some b else find_bucket elo bs

unfoldable pub erase_node : ℕ → Bucket → Bucket
erase_node n [] = []
erase_node n (e ∷ es) = let rest = erase_node n es in if nat_beq e.node n then rest else e ∷ rest

abbrev unless_empty : ℤ → Bucket → Buckets → Buckets
unless_empty k [] bs = bs
unless_empty k (e ∷ es) bs = (k, e ∷ es) ∷ bs

-- `bucket_it->second.erase(it)`, and the bucket as well if nothing is left.
unfoldable pub erase_in : ℤ → ℕ → Buckets → Buckets
unfolding erase_node
erase_in elo n [] = []
erase_in elo n ((k, b) ∷ bs) =
    let rest = erase_in elo n bs in
    if beq_ℤ k elo then unless_empty k (erase_node n b) bs else (k, b) ∷ rest

-- The new entry stands before the first one with a greater order.
unfoldable pub insert_entry : BucketEntry → Bucket → Bucket
insert_entry x [] = x ∷ []
insert_entry x (e ∷ es) = if ltb x.order e.order then x ∷ e ∷ es else e ∷ insert_entry x es

-- `buckets_[elo]`, which makes the bucket if there is none, and the insertion.
unfoldable pub insert_in : ℤ → BucketEntry → Buckets → Buckets
unfolding insert_entry
insert_in elo x [] = (elo, x ∷ []) ∷ []
insert_in elo x ((k, b) ∷ bs) =
    if beq_ℤ k elo
    then (k, insert_entry x b) ∷ bs
    else if ltb_ℤ elo k
    then (elo, x ∷ []) ∷ (k, b) ∷ bs
    else (k, b) ∷ insert_in elo x bs

-- The part of `Upsert` that takes an entry away which is there already.
abbrev pub forget_existing : Bytes → Option (ℤ × ℕ) → InMemoryMatchQueue → InMemoryMatchQueue
forget_existing p none q = q
forget_existing p (some (elo, n)) q = record q {
  buckets = erase_in elo n q.buckets;
  index = erase p q.index;
}

abbrev pub add_entry : MatchRequest → ℕ → InMemoryMatchQueue → InMemoryMatchQueue
add_entry r order q = record {
  buckets = insert_in r.elo (record { node = q.next_node; request = r; order = order }) q.buckets;
  index = put r.player_id (r.elo, q.next_node) q.index;
  next_node = q.next_node + 1;
}

unfoldable pub upsert : MatchRequest → ℕ → InMemoryMatchQueue → InMemoryMatchQueue
upsert r order q = add_entry r order (forget_existing r.player_id (find r.player_id q.index) q)

abbrev remove_indexed :
    Bytes → ℤ → ℕ → Option Bucket → InMemoryMatchQueue → InMemoryMatchQueue × Bool
remove_indexed p elo n none q = (record q { index = erase p q.index }, false)
remove_indexed p elo n (some b) q =
    (record q { buckets = erase_in elo n q.buckets; index = erase p q.index }, true)

abbrev remove_found : Bytes → Option (ℤ × ℕ) → InMemoryMatchQueue → InMemoryMatchQueue × Bool
remove_found p none q = (q, false)
remove_found p (some (elo, n)) q = remove_indexed p elo n (find_bucket elo q.buckets) q

unfoldable pub remove : Bytes → InMemoryMatchQueue → InMemoryMatchQueue × Bool
unfolding erase_in find_bucket
remove p q = remove_found p (find p q.index) q

pub record QueuedPlayer : Type 0 where
  pub request : MatchRequest
  pub order : ℕ

unfoldable pub bucket_players : Bucket → List QueuedPlayer
bucket_players [] = []
bucket_players (e ∷ es) = record { request = e.request; order = e.order } ∷ bucket_players es

unfoldable pub all_players : Buckets → List QueuedPlayer
unfolding bucket_players
all_players [] = []
all_players ((k, b) ∷ bs) = bucket_players b ++ all_players bs

-- The comparison that `std::sort` is given.
abbrev pub comes_before : QueuedPlayer → QueuedPlayer → Bool
comes_before lhs rhs =
    if beq_ℤ lhs.request.elo rhs.request.elo
    then ltb lhs.order rhs.order
    else ltb_ℤ lhs.request.elo rhs.request.elo

unfoldable pub insert_sorted : QueuedPlayer → List QueuedPlayer → List QueuedPlayer
insert_sorted x [] = x ∷ []
insert_sorted x (y ∷ ys) = if comes_before y x then y ∷ insert_sorted x ys else x ∷ y ∷ ys

-- `std::sort`.
unfoldable pub sort : List QueuedPlayer → List QueuedPlayer
unfolding insert_sorted
sort [] = []
sort (x ∷ xs) = insert_sorted x (sort xs)

unfoldable pub fetch_ordered : InMemoryMatchQueue → List QueuedPlayer
unfolding sort all_players
fetch_ordered q = sort (all_players q.buckets)

unfoldable pub size : InMemoryMatchQueue → ℕ
size q = length q.index

-- `oss << elo`.
abbrev signed_decimal : ℤ → Bytes
signed_decimal (pos n) = decimal n
signed_decimal (negsuc n) = codes "-" ++ decimal (n + 1)

abbrev join_entries : Bytes → List QueuedPlayer → Bytes
join_entries separator [] = []
join_entries separator (p ∷ ps) =
    separator
    ++ p.request.player_id
    ++ codes ":"
    ++ signed_decimal p.request.elo
    ++ join_entries (codes ",") ps

unfoldable pub snapshot : InMemoryMatchQueue → Bytes
snapshot q = join_entries [] (all_players q.buckets)
