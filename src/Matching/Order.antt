-- ===== src/Matching/Order.antt =====
-- What a round of matchmaker.cpp does to the queue of match_queue.cpp.
use working_for_codex.Base.{
  ℕ, ◌<◌, ◌≡◌, inl, inr, refl, true, false, ◌||◌, Bytes, List, [], ◌∷◌, none, some, if◌then◌else◌,
  bytes_eq, same, same_iff, arith, Bool-cases, Option-cases, get_elem?, subst,
}
use working_for_codex.Base.Int.{ℤ, ◌≤ℤ◌}
use working_for_codex.Base.Dict.{find, find-erase}
use working_for_codex.Matching.Request.{MatchRequest}
use working_for_codex.Matching.Queue.{
  InMemoryMatchQueue, QueuedPlayer, remove, find_bucket, fetch_ordered, sort, insert_sorted,
  comes_before, all_players,
}
use working_for_codex.Matching.Maker.{
  Matchmaker, is_used, choose_partner, use_pair, match_players, run_matching, settle, observe_wait,
}
use working_for_codex.Matching.Pairing.{pair_up, ids_of, compatible}
use working_for_codex.Matching.Leftover.{AllFrom, Ascending, pair_up-leftover}

AllFrom-insert_sorted :
    (e : ℤ) (x : QueuedPlayer) (ys : List QueuedPlayer)
    → e ≤ℤ x.request.elo
    → AllFrom e ys
    → AllFrom e (insert_sorted x ys)
unfolding insert_sorted
AllFrom-insert_sorted e x [] le v = (le, tt)
AllFrom-insert_sorted e x (y ∷ ys) le v = elim (Bool-cases (comes_before y x)) [
  | inl h ↦ rw h (v.0, AllFrom-insert_sorted e x ys le v.1)
  | inr h ↦ rw h (le, v)
]

AllFrom-lower : (d e : ℤ) (ys : List QueuedPlayer) → d ≤ℤ e → AllFrom e ys → AllFrom d ys
AllFrom-lower d e [] le v = tt
AllFrom-lower d e (y ∷ ys) le v = (omega arith, AllFrom-lower d e ys le v.1)

insert_sorted-Ascending :
    (x : QueuedPlayer) (ys : List QueuedPlayer) → Ascending ys → Ascending (insert_sorted x ys)
unfolding insert_sorted
insert_sorted-Ascending x [] v = (tt, tt)
insert_sorted-Ascending x (y ∷ ys) v = elim (Bool-cases (comes_before y x)) [
  | inl h ↦ rw h (
    AllFrom-insert_sorted y.request.elo x ys (ground arith) v.0,
    insert_sorted-Ascending x ys v.1,
  )
  | inr h ↦
      let le : x.request.elo ≤ℤ y.request.elo = ground arith in
      rw h ((le, AllFrom-lower x.request.elo y.request.elo ys le v.0), v)
]

pub sort-Ascending : (ps : List QueuedPlayer) → Ascending (sort ps)
unfolding sort
sort-Ascending [] = tt
sort-Ascending (p ∷ ps) = insert_sorted-Ascending p (sort ps) (sort-Ascending ps)

-- Of any two players of the queue that a round leaves unpaired, the one does not accept the
-- other's rating or region: the early end of the search, at a rating that is too far, misses no
-- partner.
pub fetch_ordered-leftover :
    (now : ℕ) (q : InMemoryMatchQueue) (i j : ℕ) (a b : QueuedPlayer)
    → get_elem? (fetch_ordered q) i ≡ some a
    → get_elem? (fetch_ordered q) j ≡ some b
    → i < j
    → is_used a.request.player_id (ids_of (pair_up now [] (fetch_ordered q))) ≡ false
    → is_used b.request.player_id (ids_of (pair_up now [] (fetch_ordered q))) ≡ false
    → compatible now a.request b.request ≡ false
unfolding fetch_ordered is_used
fetch_ordered-leftover now q i j a b at_i at_j lt left_a left_b =
    pair_up-leftover now [] (fetch_ordered q) i j a b (sort-Ascending (all_players q.buckets)) at_i
      at_j lt refl refl left_a left_b

remove-index :
    (p x : Bytes) (q : InMemoryMatchQueue)
    → find x (remove p q).0.index ≡ (if same p x then none else find x q.index)
unfolding remove
remove-index p x q = elim (Option-cases (find p q.index)) [
  | inl e ↦
      let gone : same p x ≡ true → find x q.index ≡ none =
        λ h. subst (λ k. find k q.index ≡ none) ((same_iff p x).0 h) e in
      rw e (ground (arith, gone))
  | inr ((elo, n), e) ↦ rw e (elim (Option-cases (find_bucket elo q.buckets)) [
    | inl f ↦ rw f (find-erase p x q.index)
    | inr (b, f) ↦ rw f (find-erase p x q.index)
  ])
]

pub settle-index :
    (now : ℕ) (a b : MatchRequest) (x : Bytes) (m : Matchmaker)
    → find x (settle now a b m).0.queue.index
      ≡ (if same a.player_id x || same b.player_id x then none else find x m.queue.index)
unfolding settle observe_wait
settle-index now a b x m = ground (
  arith,
  remove-index a.player_id x m.queue,
  remove-index b.player_id x (remove a.player_id m.queue).0,
)

pub match_players-index :
    (now : ℕ) (used : List Bytes) (ps : List QueuedPlayer) (x : Bytes) (m : Matchmaker)
    → find x (match_players now used ps m).0.queue.index
      ≡ (if is_used x (ids_of (pair_up now used ps)) then none else find x m.queue.index)
unfolding match_players pair_up ids_of is_used
match_players-index now used [] x m = refl
match_players-index now used (p ∷ ps) x m = elim (Option-cases (choose_partner now used p ps)) [
  | inl e ↦ rw (e, match_players, pair_up) (match_players-index now used ps x m)
  | inr (b, e) ↦
      let later =
        match_players-index now (use_pair p.request b used) ps x (settle now p.request b m).0 in
      let here = settle-index now p.request b x m in
      rw (e, match_players, pair_up) (ground (arith, later, here))
]

-- After a round no paired player is known to the queue, and the others are known as before.
pub run_matching-index :
    (now : ℕ) (x : Bytes) (m : Matchmaker)
    → find x (run_matching now m).0.queue.index ≡ (
        if is_used x (ids_of (pair_up now [] (fetch_ordered m.queue)))
        then none
        else find x m.queue.index)
unfolding run_matching
run_matching-index now x m = match_players-index now [] (fetch_ordered m.queue) x m
