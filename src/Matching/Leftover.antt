-- ===== src/Matching/Leftover.antt =====
-- The players that a round of matchmaker.cpp leaves in the queue.
use working_for_codex.Base.{
  ℕ, zero, suc, ◌<◌, ◌≡◌, ◌⊎◌, inl, inr, refl, sym, true, false, Bytes, List, [], ◌∷◌, none, some,
  same_iff, arith, Option-cases, get_elem?, subst,
}
use working_for_codex.Base.Int.{ℤ, pos, ltb_ℤ, leb_ℤ, ◌-ℤ◌, ◌≤ℤ◌, abs}
use working_for_codex.Matching.Request.{MatchRequest, ratings_compatible, current_tolerance}
use working_for_codex.Matching.Queue.{QueuedPlayer}
use working_for_codex.Matching.Maker.{is_used, find_partner, choose_partner, use_pair}
use working_for_codex.Matching.Pairing.{pair_up, ids_of, compatible}

abbrev pub AllFrom : ℤ → List QueuedPlayer → Type 0
AllFrom e [] = Unit
AllFrom e (p ∷ ps) = (e ≤ℤ p.request.elo) × AllFrom e ps

-- The ratings do not go down.
abbrev pub Ascending : List QueuedPlayer → Type 0
Ascending [] = Unit
Ascending (p ∷ ps) = AllFrom p.request.elo ps × Ascending ps

pub AllFrom-get_elem? :
    (e : ℤ) (ps : List QueuedPlayer) (j : ℕ) (c : QueuedPlayer)
    → AllFrom e ps
    → get_elem? ps j ≡ some c
    → e ≤ℤ c.request.elo
AllFrom-get_elem? e [] j c v h = absurd (ground arith)
AllFrom-get_elem? e (p ∷ ps) zero c v h =
    let is : p ≡ c = ground arith in subst (λ x. e ≤ℤ x.request.elo) is v.0
AllFrom-get_elem? e (p ∷ ps) (suc j) c v h = AllFrom-get_elem? e ps j c v.1 h

too_far :
    (x y z : ℤ) (t : ℕ)
    → ltb_ℤ (pos t) (y -ℤ x) ≡ true
    → y ≤ℤ z
    → leb_ℤ (abs (x -ℤ z)) (pos t) ≡ false
unfolding abs ◌-ℤ◌
too_far x y z t h le = ground arith

-- A player behind one that is too far above is out of reach as well.
too_far-ratings :
    (now : ℕ) (a b c : MatchRequest)
    → ltb_ℤ (current_tolerance now a) (b.elo -ℤ a.elo) ≡ true
    → b.elo ≤ℤ c.elo
    → ratings_compatible now a c ≡ false
unfolding ratings_compatible current_tolerance
too_far-ratings now a b c h le = rw (too_far a.elo b.elo c.elo _ h le) refl

-- What a search that ends with no partner says of the first player that it looks at.
find_partner-head :
    (now : ℕ) (a : MatchRequest) (used : List Bytes) (p : QueuedPlayer) (ps : List QueuedPlayer)
    → find_partner now a used (p ∷ ps) ≡ none
    → ((is_used p.request.player_id used ≡ true) ⊎ (compatible now a p.request ≡ false))
      × ((find_partner now a used ps ≡ none)
          ⊎ (ltb_ℤ (current_tolerance now a) (p.request.elo -ℤ a.elo) ≡ true))
unfolding find_partner compatible
find_partner-head now a used p ps e = ground arith

find_partner-none :
    (now : ℕ) (a : MatchRequest) (used : List Bytes) (ps : List QueuedPlayer) (j : ℕ)
    (c : QueuedPlayer)
    → Ascending ps
    → find_partner now a used ps ≡ none
    → get_elem? ps j ≡ some c
    → is_used c.request.player_id used ≡ false
    → compatible now a c.request ≡ false
unfolding compatible
find_partner-none now a used [] j c asc e at free = absurd (ground arith)
find_partner-none now a used (p ∷ ps) zero c asc e at free =
    let is : p ≡ c = ground arith in
    elim (find_partner-head now a used p ps e).0 [
      | inl h ↦
          let h' : is_used c.request.player_id used ≡ true =
            subst (λ x. is_used x.request.player_id used ≡ true) is h in
          absurd (ground (arith, h', free))
      | inr h ↦ subst (λ x. compatible now a x.request ≡ false) is h
    ]
find_partner-none now a used (p ∷ ps) (suc j) c asc e at free =
    elim (find_partner-head now a used p ps e).1 [
      | inl h ↦ find_partner-none now a used ps j c asc.1 h at free
      | inr h ↦
          let far =
            too_far-ratings now a p.request c.request h
              (AllFrom-get_elem? p.request.elo ps j c asc.0 at) in
          ground (arith, far)
    ]

-- Players that no pair of a round took, in the order of their ratings, do not go together: of any
-- two of them, one does not accept the other's rating or region.
pub pair_up-leftover :
    (now : ℕ) (used : List Bytes) (ps : List QueuedPlayer) (i j : ℕ) (a b : QueuedPlayer)
    → Ascending ps
    → get_elem? ps i ≡ some a
    → get_elem? ps j ≡ some b
    → i < j
    → is_used a.request.player_id used ≡ false
    → is_used b.request.player_id used ≡ false
    → is_used a.request.player_id (ids_of (pair_up now used ps)) ≡ false
    → is_used b.request.player_id (ids_of (pair_up now used ps)) ≡ false
    → compatible now a.request b.request ≡ false
unfolding pair_up ids_of is_used choose_partner
pair_up-leftover now used [] i j a b asc at_i at_j lt free_a free_b left_a left_b =
    absurd (ground arith)
pair_up-leftover now used (p ∷ ps) i zero a b asc at_i at_j lt free_a free_b left_a left_b =
    absurd (omega arith)
pair_up-leftover now used (p ∷ ps) zero (suc j) a b asc at_i at_j lt free_a free_b left_a left_b =
    elim (Option-cases (choose_partner now used p ps)) [
      | inl e ↦
          let is : p ≡ a = ground arith in
          let free_p : is_used p.request.player_id used ≡ false =
            subst (λ x. is_used x.request.player_id used ≡ false) (sym is) free_a in
          let alone : find_partner now p.request used ps ≡ none = rw free_p at e in
          subst (λ x. compatible now x.request b.request ≡ false) is
            (find_partner-none now p.request used ps j b asc.1 alone at_j free_b)
      | inr (q, e) ↦
          let is : p ≡ a = ground arith in
          let la = rw (e, pair_up) at left_a in
          absurd (ground (arith, la, same_iff p.request.player_id a.request.player_id, is))
    ]
pair_up-leftover now used (p ∷ ps) (suc i) (suc j) a b asc at_i at_j lt free_a free_b left_a
      left_b =
    elim (Option-cases (choose_partner now used p ps)) [
      | inl e ↦
          pair_up-leftover now used ps i j a b asc.1 at_i at_j (omega arith) free_a free_b
            (rw (e, pair_up) at left_a) (rw (e, pair_up) at left_b)
      | inr (q, e) ↦
          let la = rw (e, pair_up) at left_a in
          let lb = rw (e, pair_up) at left_b in
          pair_up-leftover now (use_pair p.request q used) ps i j a b asc.1 at_i at_j (omega arith)
            (ground (arith, la, free_a)) (ground (arith, lb, free_b)) (ground (arith, la))
            (ground (arith, lb))
    ]
