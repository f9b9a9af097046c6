-- ===== src/Matching/Fair.antt =====
-- What each match of a round of matchmaker.cpp is like.
use working_for_codex.Base.{
  ℕ, zero, suc, ◌<◌, ◌≡◌, ◌⊎◌, inl, inr, refl, true, Bytes, codes, List, [], ◌∷◌, none, some,
  bytes_eq, same_iff, same_refl, subst, arith, Option-cases, get_elem?, Each,
}
use working_for_codex.Base.Int.{ℤ, ◌+ℤ◌, ◌-ℤ◌, ◌≤ℤ◌}
use working_for_codex.Base.Dict.{find}
use working_for_codex.Matching.Request.{MatchRequest, regions_compatible}
use working_for_codex.Matching.Queue.{InMemoryMatchQueue, QueuedPlayer}
use working_for_codex.Matching.Maker.{
  Match, Matchmaker, increment, find_partner, choose_partner, use_pair, half, make_match, settle,
  resolve_region, match_players,
}
use working_for_codex.Matching.Pairing.{compatible, choose_partner-IsPartner}
use working_for_codex.Matching.Leftover.{Ascending, AllFrom-get_elem?}
use working_for_codex.Matching.Order.{settle-index, match_players-index}

-- The player asked for the region, or for any.
abbrev pub Accepts : MatchRequest → Bytes → Type 0
Accepts r region = (r.preferred_region ≡ codes "any") ⊎ (r.preferred_region ≡ region)

-- A match of two players, one behind the other in the order of the queue, who accept each other: its
-- rating lies between theirs, both accept its region, and the queue holds neither.
pub record IsFair (now : ℕ) (ps : List QueuedPlayer) (q : InMemoryMatchQueue) (x : Match)
    : Type 0 where
  pub place_a : ℕ
  pub place_b : ℕ
  pub a : QueuedPlayer
  pub b : QueuedPlayer
  pub in_order : place_a < place_b
  pub has_a : get_elem? ps place_a ≡ some a
  pub has_b : get_elem? ps place_b ≡ some b
  pub accept : compatible now a.request b.request ≡ true
  pub of_players : x.players ≡ (a.request.player_id, b.request.player_id)
  pub above : a.request.elo ≤ℤ x.average_elo
  pub below : x.average_elo ≤ℤ b.request.elo
  pub region_a : Accepts a.request x.region
  pub region_b : Accepts b.request x.region
  pub left_a : find a.request.player_id q.index ≡ none
  pub left_b : find b.request.player_id q.index ≡ none

half-between : (x y : ℤ) → x ≤ℤ y → (x ≤ℤ half (x +ℤ y)) × (half (x +ℤ y) ≤ℤ y)
unfolding ◌+ℤ◌ ◌-ℤ◌
half-between x y le = (ground arith, ground arith)

resolve_region-Accepts :
    (a b : MatchRequest)
    → regions_compatible a b ≡ true
    → Accepts a (resolve_region a b) × Accepts b (resolve_region a b)
unfolding regions_compatible resolve_region
resolve_region-Accepts a b e = ground (
  arith,
  same_iff a.preferred_region b.preferred_region,
  same_iff a.preferred_region (codes "any"),
  same_iff b.preferred_region (codes "any"),
)

compatible-regions :
    (now : ℕ) (a b : MatchRequest) → compatible now a b ≡ true → regions_compatible a b ≡ true
unfolding compatible
compatible-regions now a b e = ground arith

first_or_later :
    (now : ℕ) (a b : MatchRequest) (used : List Bytes) (p : QueuedPlayer) (ps : List QueuedPlayer)
    → find_partner now a used (p ∷ ps) ≡ some b
    → (p.request ≡ b) ⊎ (find_partner now a used ps ≡ some b)
unfolding find_partner
first_or_later now a b used p ps e = ground arith

-- A partner that is found stands in the list.
find_partner-place :
    (now : ℕ) (a b : MatchRequest) (used : List Bytes) (ps : List QueuedPlayer)
    → find_partner now a used ps ≡ some b
    → (j : ℕ) × (p : QueuedPlayer) × (get_elem? ps j ≡ some p) × (p.request ≡ b)
unfolding find_partner
find_partner-place now a b used [] e = absurd (ground arith)
find_partner-place now a b used (p ∷ ps) e = elim (first_or_later now a b used p ps e) [
  | inl is ↦ (zero, p, refl, is)
  | inr later ↦ let (j, x, at, is) = find_partner-place now a b used ps later in (suc j, x, at, is)
]

Each-behind :
    (now : ℕ) (p : QueuedPlayer) (ps : List QueuedPlayer) (q : InMemoryMatchQueue) (xs : List Match)
    → Each (IsFair now ps q) xs
    → Each (IsFair now (p ∷ ps) q) xs
Each-behind now p ps q [] v = tt
Each-behind now p ps q (x ∷ xs) v = (shift v.0, Each-behind now p ps q xs v.1)
  where
    shift : {x : Match} → IsFair now ps q x → IsFair now (p ∷ ps) q x
    shift f = record {
      place_a = suc f.place_a;
      place_b = suc f.place_b;
      a = f.a;
      b = f.b;
      in_order = omega (arith, f.in_order);
      has_a = f.has_a;
      has_b = f.has_b;
      accept = f.accept;
      of_players = f.of_players;
      above = f.above;
      below = f.below;
      region_a = f.region_a;
      region_b = f.region_b;
      left_a = f.left_a;
      left_b = f.left_b;
    }

match_players-gone :
    (now : ℕ) (used : List Bytes) (ps : List QueuedPlayer) (x : Bytes) (m : Matchmaker)
    → find x m.queue.index ≡ none
    → find x (match_players now used ps m).0.queue.index ≡ none
match_players-gone now used ps x m e = ground (arith, match_players-index now used ps x m)

-- The match of the first player and of a partner behind.
make_match-IsFair :
    (now number j : ℕ) (p b : QueuedPlayer) (ps : List QueuedPlayer) (q : InMemoryMatchQueue)
    → Ascending (p ∷ ps)
    → get_elem? ps j ≡ some b
    → compatible now p.request b.request ≡ true
    → find p.request.player_id q.index ≡ none
    → find b.request.player_id q.index ≡ none
    → IsFair now (p ∷ ps) q (make_match now p.request b.request number)
unfolding make_match
make_match-IsFair now number j p b ps q asc at good gone_p gone_b =
    let le = AllFrom-get_elem? p.request.elo ps j b asc.0 at in
    let between = half-between p.request.elo b.request.elo le in
    let regions =
      resolve_region-Accepts p.request b.request
        (compatible-regions now p.request b.request good) in
    record {
      place_a = zero;
      place_b = suc j;
      a = p;
      b = b;
      in_order = omega arith;
      has_a = refl;
      has_b = at;
      accept = good;
      of_players = refl;
      above = between.0;
      below = between.1;
      region_a = regions.0;
      region_b = regions.1;
      left_a = gone_p;
      left_b = gone_b;
    }

pub match_players-IsFair :
    (now : ℕ) (used : List Bytes) (ps : List QueuedPlayer) (m : Matchmaker)
    → Ascending ps
    → Each (IsFair now ps (match_players now used ps m).0.queue) (match_players now used ps m).1
unfolding match_players settle
match_players-IsFair now used [] m asc = tt
match_players-IsFair now used (p ∷ ps) m asc = elim (Option-cases (choose_partner now used p ps)) [
  | inl e ↦
      rw (e, match_players) (Each-behind now p ps _ _ (match_players-IsFair now used ps m asc.1))
  | inr (b, e) ↦
      let good = choose_partner-IsPartner now used p ps b e in
      let taken = use_pair p.request b used in
      let paired = (settle now p.request b m).0 in
      let gone_p = match_players-gone now taken ps p.request.player_id paired (
        ground (
          arith,
          settle-index now p.request b p.request.player_id m,
          same_refl p.request.player_id,
        )) in
      let gone_b =
        match_players-gone now taken ps b.player_id paired
          (ground (arith, settle-index now p.request b b.player_id m, same_refl b.player_id)) in
      let (j, c, at, is) = find_partner-place now p.request b used ps good.1 in
      let head =
        subst
          (λ r.
            compatible now p.request r ≡ true
            → find r.player_id (match_players now taken ps paired).0.queue.index ≡ none
            → IsFair now (p ∷ ps) (match_players now taken ps paired).0.queue
                (make_match now p.request r (increment m.match_counter)))
          is (λ accept gone. make_match-IsFair now _ j p c ps _ asc at accept gone_p gone) good.2
          gone_b in
      let rest = match_players-IsFair now taken ps paired asc.1 in
      rw (e, match_players) (head, Each-behind now p ps _ _ rest)
]
