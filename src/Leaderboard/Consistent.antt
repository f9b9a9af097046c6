-- ===== src/Leaderboard/Consistent.antt =====
-- The two containers of leaderboard_store.cpp.
use working_for_codex.Base.{
  ◌≡◌, inl, inr, refl, ◌∙◌, Bool, true, false, ◌&&◌, ◌||◌, Bytes, List, [], ◌∷◌, Option, none, some,
  if◌then◌else◌, bytes_eq, same, same_iff, arith, Bool-cases, Option-cases,
}
use working_for_codex.Base.Int.{ℤ, ltb_ℤ, beq_ℤ, ◌≤ℤ◌}
use working_for_codex.Base.Dict.{find, find-put, find-erase}
use working_for_codex.Leaderboard.Store.{
  Ordered, InMemoryLeaderboardStore, empty_store, insert_name, erase_name, unless_empty,
  remove_from_ordered, add_to_ordered, upsert, remove,
}

unfoldable pub contains : Bytes → List Bytes → Bool
contains p [] = false
contains p (q ∷ qs) = same q p || contains p qs

-- The player stands in the set of that score.
unfoldable pub listed : ℤ → Bytes → Ordered → Bool
listed score p [] = false
listed score p ((k, ps) ∷ o) = if beq_ℤ k score then contains p ps else listed score p o

contains-insert_name :
    (p q : Bytes) (ps : List Bytes) → contains p (insert_name q ps) ≡ (same q p || contains p ps)
unfolding contains insert_name
contains-insert_name p q [] = refl
contains-insert_name p q (r ∷ rs) =
    ground (arith, contains-insert_name p q rs, same_iff r q, same_iff r p, same_iff q p)

contains-erase_name :
    (p q : Bytes) (ps : List Bytes)
    → contains p (erase_name q ps) ≡ (if same q p then false else contains p ps)
unfolding contains erase_name
contains-erase_name p q [] = ground arith
contains-erase_name p q (r ∷ rs) =
    ground (arith, contains-erase_name p q rs, same_iff r q, same_iff r p, same_iff q p)

abbrev pub Below : ℤ → Ordered → Type 0
Below b [] = Unit
Below b ((k, ps) ∷ o) = (ltb_ℤ k b ≡ true) × Below b o

-- The scores go down.
abbrev pub Descending : Ordered → Type 0
Descending [] = Unit
Descending ((k, ps) ∷ o) = Below k o × Descending o

pub listed-Below :
    (b score : ℤ) (p : Bytes) (o : Ordered) → Below b o → b ≤ℤ score → listed score p o ≡ false
unfolding listed
listed-Below b score p [] v le = refl
listed-Below b score p ((k, ps) ∷ o) v le = ground (arith, listed-Below b score p o v.1 le, v.0)

listed-unless_empty :
    (k score : ℤ) (p : Bytes) (ps : List Bytes) (o : Ordered)
    → Below k o
    → listed score p (unless_empty k ps o)
      ≡ (if beq_ℤ k score then contains p ps else listed score p o)
unfolding listed contains
listed-unless_empty k score p [] o v = ground (arith, listed-Below k score p o v)
listed-unless_empty k score p (q ∷ qs) o v = refl

listed-remove :
    (score old : ℤ) (p q : Bytes) (o : Ordered)
    → Descending o
    → listed score p (remove_from_ordered q old o)
      ≡ (if beq_ℤ old score && same q p then false else listed score p o)
unfolding listed remove_from_ordered
listed-remove score old p q [] v = ground arith
listed-remove score old p q ((k, ps) ∷ o) v = elim (Bool-cases (beq_ℤ k old)) [
  | inl h ↦ rw h (
      listed-unless_empty k score p (erase_name q ps) o v.0
      ∙ ground (arith, contains-erase_name p q ps, h))
  | inr h ↦ rw h (ground (arith, listed-remove score old p q o v.1, h))
]

listed-add :
    (score new : ℤ) (p q : Bytes) (o : Ordered)
    → Descending o
    → listed score p (add_to_ordered q new o)
      ≡ (if beq_ℤ new score then same q p || listed score p o else listed score p o)
unfolding listed add_to_ordered contains
listed-add score new p q [] v = ground arith
listed-add score new p q ((k, ps) ∷ o) v = elim (Bool-cases (beq_ℤ k new)) [
  | inl h ↦ rw h (ground (arith, contains-insert_name p q ps, h))
  | inr h ↦ rw h (elim (Bool-cases (ltb_ℤ k new)) [
    | inl f ↦ rw f (ground (arith, listed-Below k score p o v.0, f))
    | inr f ↦ rw f (ground (arith, listed-add score new p q o v.1, h))
  ])
]

Below-remove :
    (b old : ℤ) (q : Bytes) (o : Ordered) → Below b o → Below b (remove_from_ordered q old o)
unfolding remove_from_ordered
Below-remove b old q [] v = tt
Below-remove b old q ((k, ps) ∷ o) v = elim (Bool-cases (beq_ℤ k old)) [
  | inl h ↦ rw h (kept (erase_name q ps))
  | inr h ↦ rw h (v.0, Below-remove b old q o v.1)
]
  where
    kept : (qs : List Bytes) → Below b (unless_empty k qs o)
    kept [] = v.1
    kept (r ∷ rs) = v

remove-Descending :
    (old : ℤ) (q : Bytes) (o : Ordered) → Descending o → Descending (remove_from_ordered q old o)
unfolding remove_from_ordered
remove-Descending old q [] v = tt
remove-Descending old q ((k, ps) ∷ o) v = elim (Bool-cases (beq_ℤ k old)) [
  | inl h ↦ rw h (kept (erase_name q ps))
  | inr h ↦ rw h (Below-remove k old q o v.0, remove-Descending old q o v.1)
]
  where
    kept : (qs : List Bytes) → Descending (unless_empty k qs o)
    kept [] = v.1
    kept (r ∷ rs) = v

Below-lower : (b c : ℤ) (o : Ordered) → ltb_ℤ b c ≡ true → Below b o → Below c o
Below-lower b c [] lt v = tt
Below-lower b c ((k, ps) ∷ o) lt v = (ground (arith, v.0), Below-lower b c o lt v.1)

Below-add :
    (b new : ℤ) (q : Bytes) (o : Ordered)
    → ltb_ℤ new b ≡ true
    → Below b o
    → Below b (add_to_ordered q new o)
unfolding add_to_ordered
Below-add b new q [] lt v = (lt, tt)
Below-add b new q ((k, ps) ∷ o) lt v = elim (Bool-cases (beq_ℤ k new)) [
  | inl h ↦ rw h v
  | inr h ↦ rw h (elim (Bool-cases (ltb_ℤ k new)) [
    | inl f ↦ rw f (lt, v)
    | inr f ↦ rw f (v.0, Below-add b new q o lt v.1)
  ])
]

add-Descending :
    (new : ℤ) (q : Bytes) (o : Ordered) → Descending o → Descending (add_to_ordered q new o)
unfolding add_to_ordered
add-Descending new q [] v = (tt, tt)
add-Descending new q ((k, ps) ∷ o) v = elim (Bool-cases (beq_ℤ k new)) [
  | inl h ↦ rw h v
  | inr h ↦ rw h (elim (Bool-cases (ltb_ℤ k new)) [
    | inl f ↦
        let below : Below new ((k, ps) ∷ o) = (f, Below-lower k new o f v.0) in rw f (below, v)
    | inr f ↦ rw f (Below-add k new q o (ground (arith, h, f)) v.0, add-Descending new q o v.1)
  ])
]

abbrev pub is_at : ℤ → Option ℤ → Bool
is_at score none = false
is_at score (some t) = beq_ℤ t score

-- A player is listed under exactly the score that is kept, and the scores go down.
pub record IsConsistent (s : InMemoryLeaderboardStore) : Type 0 where
  pub agree : (score : ℤ) (p : Bytes) → listed score p s.ordered ≡ is_at score (find p s.scores)
  pub descending : Descending s.ordered

pub upsert-IsConsistent :
    (p : Bytes) (score : ℤ) (s : InMemoryLeaderboardStore)
    → IsConsistent s
    → IsConsistent (upsert p score s)
unfolding upsert
upsert-IsConsistent p score s v = elim (Option-cases (find p s.scores)) [
  | inl e ↦ rw e (record {
    agree = λ t q.
        listed-add t score q p s.ordered v.descending
        ∙ ground (arith, v.agree t q, find-put p q score s.scores, same_iff p q, e);
    descending = add-Descending score p s.ordered v.descending;
  })
  | inr (old, e) ↦ rw e (elim (Bool-cases (beq_ℤ old score)) [
    | inl f ↦ rw f v
    | inr f ↦
        let gone = remove-Descending old p s.ordered v.descending in
        rw f (record {
          agree = λ t q.
              listed-add t score q p (remove_from_ordered p old s.ordered) gone
              ∙ ground (
                arith,
                v.agree t q,
                listed-remove t old q p s.ordered v.descending,
                find-put p q score s.scores,
                same_iff p q,
                e,
              );
          descending = add-Descending score p (remove_from_ordered p old s.ordered) gone;
        })
  ])
]

remove-IsConsistent :
    (p : Bytes) (s : InMemoryLeaderboardStore) → IsConsistent s → IsConsistent (remove p s)
unfolding remove
remove-IsConsistent p s v = elim (Option-cases (find p s.scores)) [
  | inl e ↦ rw e v
  | inr (old, e) ↦ rw e (record {
    agree = λ t q.
        listed-remove t old q p s.ordered v.descending
        ∙ ground (arith, v.agree t q, find-erase p q s.scores, same_iff p q, e);
    descending = remove-Descending old p s.ordered v.descending;
  })
]

pub data Call : Type 0 where
  upserted : Bytes → ℤ → Call
  removed : Bytes → Call

unfoldable pub run : InMemoryLeaderboardStore → List Call → InMemoryLeaderboardStore
run s [] = s
run s (upserted p score ∷ cs) = run (upsert p score s) cs
run s (removed p ∷ cs) = run (remove p s) cs

run-IsConsistent :
    (s : InMemoryLeaderboardStore) (cs : List Call) → IsConsistent s → IsConsistent (run s cs)
unfolding run
run-IsConsistent s [] v = v
run-IsConsistent s (upserted p score ∷ cs) v =
    run-IsConsistent (upsert p score s) cs (upsert-IsConsistent p score s v)
run-IsConsistent s (removed p ∷ cs) v = run-IsConsistent (remove p s) cs (remove-IsConsistent p s v)

-- After any history of calls a player is listed under exactly the score that the store keeps for
-- that player, and the listed scores strictly go down.
pub run-empty-IsConsistent : (cs : List Call) → IsConsistent (run empty_store cs)
unfolding empty_store listed find
run-empty-IsConsistent cs =
    run-IsConsistent empty_store cs (record { agree = λ t q. refl; descending = tt })
