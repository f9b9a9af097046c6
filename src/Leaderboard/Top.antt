-- ===== src/Leaderboard/Top.antt =====
-- What `TopN` of leaderboard_store.cpp returns.
use working_for_codex.Base.{
  ℕ, zero, suc, ◌-◌, ◌≡◌, ◌⊎◌, inl, inr, refl, sym, ap, ◌∙◌, true, false, Bytes, List, [], ◌∷◌,
  ◌++◌, append_assoc, append-nil, Option, none, some, bytes_eq, same_refl, arith, take, length,
  get_elem?, ap₂,
}
use working_for_codex.Base.Int.{ℤ, ltb_ℤ, beq_ℤ, beq_ℤ_iff}
use working_for_codex.Base.Dict.{find}
use working_for_codex.Leaderboard.Store.{
  Ordered, InMemoryLeaderboardStore, top_of_score, top_from, top_n, get,
}
use working_for_codex.Leaderboard.Consistent.{
  contains, listed, Below, Descending, is_at, IsConsistent,
}

abbrev pub entries_of : ℤ → List Bytes → List (Bytes × ℤ)
entries_of score [] = []
entries_of score (p ∷ ps) = (p, score) ∷ entries_of score ps

-- All entries, from the highest score down.
unfoldable pub entries : Ordered → List (Bytes × ℤ)
entries [] = []
entries ((k, ps) ∷ o) = entries_of k ps ++ entries o

top_of_score_lem :
    (n : ℕ) (k : ℤ) (ps : List Bytes) (acc : List (Bytes × ℤ))
    → top_of_score n k ps acc ≡ (n - length ps, acc ++ take n (entries_of k ps))
unfolding top_of_score
top_of_score_lem zero k [] acc = ap (λ l. (0, l)) (sym (append-nil acc))
top_of_score_lem (suc n) k [] acc = ap₂ (λ (m : ℕ) l. (m, l)) (omega arith) (sym (append-nil acc))
top_of_score_lem zero k (p ∷ ps) acc =
    ap₂ (λ (m : ℕ) l. (m, l)) (omega arith) (sym (append-nil acc))
top_of_score_lem (suc n) k (p ∷ ps) acc =
    top_of_score_lem n k ps (acc ++ (p, k) ∷ [])
    ∙ ap₂ (λ (m : ℕ) l. (m, l)) (omega arith)
        (append_assoc acc ((p, k) ∷ []) (take n (entries_of k ps)))

take-append :
    (n : ℕ) (k : ℤ) (ps : List Bytes) (ys : List (Bytes × ℤ))
    → take n (entries_of k ps ++ ys) ≡ take n (entries_of k ps) ++ take (n - length ps) ys
take-append zero k [] ys = refl
take-append (suc n) k [] ys =
    let e : suc n ≡ suc n - length {A = Bytes} [] = omega arith in ap (λ m. take m ys) e
take-append zero k (p ∷ ps) ys = let e : 0 - length (p ∷ ps) ≡ 0 = omega arith in rw e refl
take-append (suc n) k (p ∷ ps) ys =
    let e : suc n - length (p ∷ ps) ≡ n - length ps = omega arith in
    rw e (ap (λ l. (p, k) ∷ l) (take-append n k ps ys))

top_from_lem :
    (n : ℕ) (o : Ordered) (acc : List (Bytes × ℤ)) → top_from n o acc ≡ acc ++ take n (entries o)
unfolding top_from entries
top_from_lem zero [] acc = sym (append-nil acc)
top_from_lem (suc n) [] acc = sym (append-nil acc)
top_from_lem n ((k, ps) ∷ o) acc =
    ap (λ (r : ℕ × List (Bytes × ℤ)). elim r.0 [ zero ↦ r.1 | suc j ↦ top_from (suc j) o r.1 ])
      (top_of_score_lem n k ps acc)
    ∙ resume (n - length ps) (acc ++ take n (entries_of k ps)) (λ m. top_from_lem m o)
    ∙ append_assoc acc (take n (entries_of k ps)) (take (n - length ps) (entries o))
    ∙ ap (λ l. acc ++ l) (sym (take-append n k ps (entries o)))
  where
    resume :
        (m : ℕ) (held : List (Bytes × ℤ))
        → ((j : ℕ) (l : List (Bytes × ℤ)) → top_from j o l ≡ l ++ take j (entries o))
        → elim m [ zero ↦ held | suc j ↦ top_from (suc j) o held ] ≡ held ++ take m (entries o)
    resume zero held later = sym (append-nil held)
    resume (suc j) held later = later (suc j) held

-- The loops stop in time: `TopN` returns the first entries of the whole listing, from the highest
-- score down, as many as are asked for and there are.
pub top_n-take :
    (limit : ℕ) (s : InMemoryLeaderboardStore) → top_n limit s ≡ take limit (entries s.ordered)
unfolding top_n
top_n-take limit s = top_from_lem limit s.ordered []

get_elem?-take :
    (n i : ℕ) (xs : List (Bytes × ℤ)) (x : Bytes × ℤ)
    → get_elem? (take n xs) i ≡ some x
    → get_elem? xs i ≡ some x
get_elem?-take zero i xs x e = absurd (ground arith)
get_elem?-take (suc n) i [] x e = e
get_elem?-take (suc n) zero (y ∷ xs) x e = e
get_elem?-take (suc n) (suc i) (y ∷ xs) x e = get_elem?-take n i xs x e

-- An entry is one of the first score's players, or one of the rest.
get_elem?-entries_of :
    (k : ℤ) (ps : List Bytes) (ys : List (Bytes × ℤ)) (i : ℕ) (p : Bytes) (t : ℤ)
    → get_elem? (entries_of k ps ++ ys) i ≡ some (p, t)
    → ((k ≡ t) × (contains p ps ≡ true)) ⊎ ((j : ℕ) × (get_elem? ys j ≡ some (p, t)))
unfolding contains
get_elem?-entries_of k [] ys i p t e = inr (i, e)
get_elem?-entries_of k (q ∷ qs) ys zero p t e =
    let same_p : q ≡ p = ground arith in inl (ground arith, rw same_p (rw (same_refl p) refl))
get_elem?-entries_of k (q ∷ qs) ys (suc i) p t e = elim (get_elem?-entries_of k qs ys i p t e) [
  | inl (a, b) ↦ inl (a, ground (arith, b))
  | inr h ↦ inr h
]

entries-listed :
    (o : Ordered) (i : ℕ) (p : Bytes) (t : ℤ)
    → Descending o
    → get_elem? (entries o) i ≡ some (p, t)
    → (listed t p o ≡ true) × ((b : ℤ) → Below b o → ltb_ℤ t b ≡ true)
unfolding entries listed
entries-listed [] i p t v e = absurd (ground arith)
entries-listed ((k, ps) ∷ o) i p t v e = elim (get_elem?-entries_of k ps (entries o) i p t e) [
  | inl (a, c) ↦ (rw ((beq_ℤ_iff k t).1 a) c, λ b below. rw⁻¹ a below.0)
  | inr (j, h) ↦
      let (found, lower) = entries-listed o j p t v.1 h in
      let less : ltb_ℤ t k ≡ true = lower k v.0 in
      let apart : beq_ℤ k t ≡ false = ground (arith, less) in
      (rw apart found, λ b below. ground (arith, less, below.0))
]

-- In a store that lists each player under exactly the score that it keeps, with scores that
-- strictly go down, every entry of the top is a player with the very score that the store keeps
-- for that player.
pub top_n-get :
    (limit i : ℕ) (s : InMemoryLeaderboardStore) (p : Bytes) (score : ℤ)
    → IsConsistent s
    → get_elem? (top_n limit s) i ≡ some (p, score)
    → get p s ≡ some score
unfolding get
top_n-get limit i s p score v e =
    let at : get_elem? (entries s.ordered) i ≡ some (p, score) =
      get_elem?-take limit i (entries s.ordered) (p, score) (rw (top_n-take limit s) at e) in
    let found = (entries-listed s.ordered i p score v.descending at).0 in
    kept (find p s.scores) (sym (v.agree score p) ∙ found)
  where
    kept : (o : Option ℤ) → is_at score o ≡ true → o ≡ some score
    kept none h = absurd (ground arith)
    kept (some t) h = ap some ((beq_ℤ_iff t score).0 h)
