-- ===== src/Matching/Pairing.antt =====
-- Which players `RunMatching` of matchmaker.cpp pairs.
use working_for_codex.Base.{
  ℕ, ◌≡◌, inl, inr, refl, Bool, true, false, ◌&&◌, Bytes, List, [], ◌∷◌, Option, none, some, same,
  same_iff, same_refl, subst, arith, Bool-cases, Option-cases,
}
use working_for_codex.Base.Int.{ltb_ℤ, ◌-ℤ◌}
use working_for_codex.Matching.Request.{
  MatchRequest, regions_compatible, ratings_compatible, current_tolerance,
}
use working_for_codex.Matching.Queue.{QueuedPlayer}
use working_for_codex.Matching.Maker.{is_used, find_partner, choose_partner, use_pair}

-- The pairs alone, without the queue and the counters.
unfoldable pub pair_up : ℕ → List Bytes → List QueuedPlayer → List (MatchRequest × MatchRequest)
unfolding choose_partner
pair_up now used [] = []
pair_up now used (p ∷ ps) = elim (choose_partner now used p ps) [
  | none ↦ pair_up now used ps
  | some b ↦ (p.request, b) ∷ pair_up now (use_pair p.request b used) ps
]

-- Both accept the other's rating and region.
unfoldable pub compatible : ℕ → MatchRequest → MatchRequest → Bool
compatible now a b = regions_compatible a b && ratings_compatible now a b

abbrev pub Compatible : ℕ → List (MatchRequest × MatchRequest) → Type 0
Compatible now [] = Unit
Compatible now ((a, b) ∷ pairs) = (compatible now a b ≡ true) × Compatible now pairs

-- A partner that the loop finds is one of the players that it looks at.
abbrev pub IsPartner :
    ℕ → MatchRequest → List Bytes → List QueuedPlayer → Option MatchRequest → Type 0
IsPartner now a used ps none = Unit
IsPartner now a used ps (some b) = (compatible now a b ≡ true) × (is_used b.player_id used ≡ false)

find_partner-IsPartner :
    (now : ℕ) (a : MatchRequest) (used : List Bytes) (ps : List QueuedPlayer)
    → IsPartner now a used ps (find_partner now a used ps)
unfolding find_partner compatible
find_partner-IsPartner now a used [] = tt
find_partner-IsPartner now a used (p ∷ ps) = elim (Bool-cases (is_used p.request.player_id used)) [
  | inl e ↦ rw e (find_partner-IsPartner now a used ps)
  | inr e ↦ rw e (elim (Bool-cases (regions_compatible a p.request)) [
    | inr f ↦ rw f (find_partner-IsPartner now a used ps)
    | inl f ↦ rw f (elim (Bool-cases (ratings_compatible now a p.request)) [
      | inl g ↦ rw g (rw (f, g) refl, e)
      | inr g ↦ rw g (elim (Bool-cases (ltb_ℤ (current_tolerance now a) (p.request.elo -ℤ a.elo))) [
        | inl h ↦ rw h tt
        | inr h ↦ rw h (find_partner-IsPartner now a used ps)
      ])
    ])
  ])
]

pub choose_partner-IsPartner :
    (now : ℕ) (used : List Bytes) (p : QueuedPlayer) (ps : List QueuedPlayer) (b : MatchRequest)
    → choose_partner now used p ps ≡ some b
    → (is_used p.request.player_id used ≡ false)
      × (find_partner now p.request used ps ≡ some b)
      × (compatible now p.request b ≡ true)
      × (is_used b.player_id used ≡ false)
unfolding choose_partner
choose_partner-IsPartner now used p ps b e = elim (Bool-cases (is_used p.request.player_id used)) [
  | inl f ↦ absurd (ground arith)
  | inr f ↦
      let found : find_partner now p.request used ps ≡ some b = rw f at e in
      let good : IsPartner now p.request used ps (some b) =
        subst (IsPartner now p.request used ps) found
          (find_partner-IsPartner now p.request used ps) in
      (f, found, good.0, good.1)
]

-- The players of every pair accept each other's rating and region, at the time of the round.
pub pair_up-Compatible :
    (now : ℕ) (used : List Bytes) (ps : List QueuedPlayer) → Compatible now (pair_up now used ps)
unfolding pair_up
pair_up-Compatible now used [] = tt
pair_up-Compatible now used (p ∷ ps) = elim (Option-cases (choose_partner now used p ps)) [
  | inl e ↦ rw (e, pair_up) (pair_up-Compatible now used ps)
  | inr (b, e) ↦
      rw (e, pair_up)
        (
          (choose_partner-IsPartner now used p ps b e).2,
          pair_up-Compatible now (use_pair p.request b used) ps,
        )
]

unfoldable pub ids_of : List (MatchRequest × MatchRequest) → List Bytes
ids_of [] = []
ids_of ((a, b) ∷ pairs) = a.player_id ∷ b.player_id ∷ ids_of pairs

unfoldable pub queued_ids : List QueuedPlayer → List Bytes
queued_ids [] = []
queued_ids (p ∷ ps) = p.request.player_id ∷ queued_ids ps

-- No id stands twice.
abbrev pub Distinct : List Bytes → Type 0
Distinct [] = Unit
Distinct (x ∷ xs) = (is_used x xs ≡ false) × Distinct xs

pair_up-used :
    (now : ℕ) (x : Bytes) (used : List Bytes) (ps : List QueuedPlayer)
    → is_used x used ≡ true
    → is_used x (ids_of (pair_up now used ps)) ≡ false
unfolding pair_up is_used ids_of
pair_up-used now x used [] h = refl
pair_up-used now x used (p ∷ ps) h = elim (Option-cases (choose_partner now used p ps)) [
  | inl e ↦ rw (e, pair_up) (pair_up-used now x used ps h)
  | inr (b, e) ↦
      let good = choose_partner-IsPartner now used p ps b e in
      let later : is_used x (ids_of (pair_up now (use_pair p.request b used) ps)) ≡ false =
        pair_up-used now x (use_pair p.request b used) ps (ground (arith, h)) in
      let not_a : same p.request.player_id x ≡ false = apart p.request.player_id good.0 in
      let not_b : same b.player_id x ≡ false = apart b.player_id good.3 in
      rw (e, pair_up) (rw (not_a, not_b) later)
]
  where
    apart : (y : Bytes) → is_used y used ≡ false → same y x ≡ false
    apart y fresh = ground (arith, h, same_iff y x)

find_partner-queued :
    (now : ℕ) (a b : MatchRequest) (used : List Bytes) (ps : List QueuedPlayer)
    → find_partner now a used ps ≡ some b
    → is_used b.player_id (queued_ids ps) ≡ true
unfolding find_partner is_used queued_ids
find_partner-queued now a b used [] e = absurd (ground arith)
find_partner-queued now a b used (p ∷ ps) e =
    ground (arith, find_partner-queued now a b used ps, same_refl p.request.player_id)

-- A round over distinct players pairs no player twice, and none with itself.
pub pair_up-Distinct :
    (now : ℕ) (used : List Bytes) (ps : List QueuedPlayer)
    → Distinct (queued_ids ps)
    → Distinct (ids_of (pair_up now used ps))
unfolding pair_up is_used ids_of queued_ids
pair_up-Distinct now used [] d = tt
pair_up-Distinct now used (p ∷ ps) d = elim (Option-cases (choose_partner now used p ps)) [
  | inl e ↦ rw (e, pair_up) (pair_up-Distinct now used ps d.1)
  | inr (b, e) ↦
      let a = p.request in
      let good = choose_partner-IsPartner now used p ps b e in
      let others = find_partner-queued now a b used ps good.1 in
      let apart : same b.player_id a.player_id ≡ false =
        ground (arith, others, d.0, same_iff b.player_id a.player_id) in
      let taken = use_pair a b used in
      let a_taken : is_used a.player_id taken ≡ true = ground (arith, same_refl a.player_id) in
      let b_taken : is_used b.player_id taken ≡ true = ground (arith, same_refl b.player_id) in
      let fresh_a = pair_up-used now a.player_id taken ps a_taken in
      let tail : Distinct (b.player_id ∷ ids_of (pair_up now taken ps)) =
        (pair_up-used now b.player_id taken ps b_taken, pair_up-Distinct now taken ps d.1) in
      rw (e, pair_up) (rw (apart, fresh_a) refl, tail)
]
