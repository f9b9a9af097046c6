-- ===== src/Stats/Linked.antt =====
-- player_profile_service.cpp over leaderboard_store.cpp: the leaderboard shows the profiles' ratings.
use working_for_codex.Base.{
  ◌*◌, ◌%◌, ◌^◌, ◌≡◌, refl, ap, sym, subst, ◌∙◌, false, Bytes, List, [], ◌∷◌, Option, none, some,
  if◌then◌else◌, arith, bytes_eq, same, same_iff, same_refl, Bool-cases, Option-cases, inl, inr,
}
use working_for_codex.Base.Int.{ℤ, beq_ℤ, beq_ℤ_iff}
use working_for_codex.Base.Real.{Real}
use working_for_codex.Base.Dict.{Dict, find, find-put}
use working_for_codex.Leaderboard.Store.{InMemoryLeaderboardStore, upsert}
use working_for_codex.Leaderboard.Consistent.{IsConsistent, upsert-IsConsistent}
use working_for_codex.Stats.Profiles.{
  PlayerMatchStats, MatchResult, AggregateStats, PlayerProfileService, update_ratings, or_default,
  alter, rating_of, accumulated, accumulate, won, lost, rated, rate, publish, record_match,
}

abbrev pub rating_in : Option AggregateStats → Option ℤ
rating_in none = none
rating_in (some a) = some a.rating

rating-alter :
    (id p : Bytes) (f : AggregateStats → AggregateStats) (m : Dict Bytes AggregateStats)
    → rating_in (find p (alter id f m))
      ≡ (if same id p then some ((f (or_default (find id m))).rating) else rating_in (find p m))
unfolding alter
rating-alter id p f m =
    rw (find-put id p (f (or_default (find id m))) m)
      (elim (Bool-cases (same id p)) [ inl e ↦ rw e refl | inr e ↦ rw e refl ])

-- A write that leaves the rating alone.
rating-alter_kept :
    (id p : Bytes) (f : AggregateStats → AggregateStats) (m : Dict Bytes AggregateStats) (t : ℤ)
    → ((a : AggregateStats) → (f a).rating ≡ a.rating)
    → rating_in (find p m) ≡ some t
    → rating_in (find p (alter id f m)) ≡ some t
rating-alter_kept id p f m t keeps e = rating-alter id p f m ∙ elim (Bool-cases (same id p)) [
  | inl g ↦
      let at : id ≡ p = (same_iff id p).0 g in
      rw (g, at, keeps (or_default (find p m))) (known (find p m) e)
  | inr g ↦ rw g e
]
  where
    known :
        (o : Option AggregateStats) → rating_in o ≡ some t → some ((or_default o).rating) ≡ some t
    known none h = absurd cc
    known (some a) h = h

accumulate-rating :
    (ps : List PlayerMatchStats) (m : Dict Bytes AggregateStats) (p : Bytes) (t : ℤ)
    → rating_in (find p m) ≡ some t
    → rating_in (find p (accumulate ps m)) ≡ some t
unfolding accumulate accumulated
accumulate-rating [] m p t e = e
accumulate-rating (x ∷ xs) m p t e =
    accumulate-rating xs (alter x.player_id (accumulated x) m) p t
      (rating-alter_kept x.player_id p (accumulated x) m t (λ a. refl) e)

abbrev HasEntry : Bytes → Dict Bytes AggregateStats → Type 0
HasEntry p m = (a : AggregateStats) × (find p m ≡ some a)

HasEntry-rating :
    (p : Bytes) (m : Dict Bytes AggregateStats)
    → HasEntry p m
    → rating_in (find p m) ≡ some (rating_of p m)
unfolding rating_of
HasEntry-rating p m (a, e) = ap rating_in e ∙ sym (ap (λ o. some ((or_default o).rating)) e)

alter-HasEntry_self :
    (id : Bytes) (f : AggregateStats → AggregateStats) (m : Dict Bytes AggregateStats)
    → HasEntry id (alter id f m)
unfolding alter
alter-HasEntry_self id f m =
    let new = f (or_default (find id m)) in (new, find-put id id new m ∙ rw (same_refl id) refl)

alter-HasEntry :
    (id p : Bytes) (f : AggregateStats → AggregateStats) (m : Dict Bytes AggregateStats)
    → HasEntry p m
    → HasEntry p (alter id f m)
unfolding alter
alter-HasEntry id p f m (a, e) =
    let new = f (or_default (find id m)) in
    elim (Bool-cases (same id p)) [
      | inl g ↦ (new, find-put id p new m ∙ rw g refl)
      | inr g ↦ (a, find-put id p new m ∙ rw g e)
    ]

-- Nobody but the winner and the loser is rated.
module _ {ℓ} (D : Type ℓ) ⦃r : Real D⦄ (winner loser : Bytes) (m : Dict Bytes AggregateStats) where
  rate-others :
      (p : Bytes)
      → same winner p ≡ false
      → same loser p ≡ false
      → rating_in (find p (rate D winner loser m)) ≡ rating_in (find p m)
  unfolding rate
  rate-others p a b = simp (rating-alter, a, b)

  scored : Dict Bytes AggregateStats
  scored = alter loser lost (alter winner won m)

  new_ratings : ℤ × ℤ
  unfolding scored
  new_ratings = update_ratings D (rating_of winner scored) (rating_of loser scored)

  rate-loser :
      rating_in (find loser (rate D winner loser m))
      ≡ some (rating_of loser (rate D winner loser m))
  unfolding rate new_ratings scored
  rate-loser =
      HasEntry-rating loser (rate D winner loser m) (
        alter-HasEntry_self loser (rated new_ratings.1) (alter winner (rated new_ratings.0) scored))

  rate-winner :
      rating_in (find winner (rate D winner loser m))
      ≡ some (rating_of winner (rate D winner loser m))
  unfolding rate new_ratings scored
  rate-winner = HasEntry-rating winner (rate D winner loser m) (
      alter-HasEntry loser winner (rated new_ratings.1) (alter winner (rated new_ratings.0) scored)
        (alter-HasEntry_self winner (rated new_ratings.0) scored))

-- A player is shown under one score only, the last one sent.
find-upsert :
    (p q : Bytes) (score : ℤ) (b : InMemoryLeaderboardStore)
    → find p (upsert q score b).scores ≡ (if same q p then some score else find p b.scores)
unfolding upsert
find-upsert p q score b = elim (Option-cases (find q b.scores)) [
  | inl e ↦ rw e (find-put q p score b.scores)
  | inr (old, e) ↦ rw e (elim (Bool-cases (beq_ℤ old score)) [
    | inl f ↦ rw f (elim (Bool-cases (same q p)) [
      | inl g ↦
          let at : q ≡ p = (same_iff q p).0 g in
          rw g
            (subst (λ k. find k b.scores ≡ some score) at (e ∙ ap some ((beq_ℤ_iff old score).0 f)))
      | inr g ↦ rw g refl
    ])
    | inr f ↦ rw f (find-put q p score b.scores)
  ])
]

-- Every score of the leaderboard is the rating of that player's profile.
unfoldable pub Linked : Option InMemoryLeaderboardStore → Dict Bytes AggregateStats → Type 0
Linked none m = Unit
Linked (some b) m =
    IsConsistent b
    × ((p : Bytes) (t : ℤ) → find p b.scores ≡ some t → rating_in (find p m) ≡ some t)

publish-Linked {ℓ} :
    (D : Type ℓ) ⦃r : Real D⦄ (winner loser : Bytes) (board : Option InMemoryLeaderboardStore)
    (m : Dict Bytes AggregateStats)
    → Linked board m
    → Linked (publish winner loser (rate D winner loser m) board) (rate D winner loser m)
unfolding Linked
publish-Linked D winner loser none m v = tt
publish-Linked D winner loser (some b) m v =
    let after = rate D winner loser m in
    let first = upsert winner (rating_of winner after) b in
    (
      upsert-IsConsistent loser (rating_of loser after) first
          (upsert-IsConsistent winner (rating_of winner after) b v.0),
      λ p t e.
          let found = sym (find-upsert p loser (rating_of loser after) first) ∙ e in
          elim (Bool-cases (same loser p)) [
            | inl f ↦
                let got = rw f at found in
                subst (λ k. rating_in (find k after) ≡ some t) ((same_iff loser p).0 f)
                  (rate-loser D winner loser m ∙ got)
            | inr f ↦
                let below =
                  sym (find-upsert p winner (rating_of winner after) b) ∙ (rw f at found) in
                elim (Bool-cases (same winner p)) [
                  | inl g ↦
                      let got = rw g at below in
                      subst (λ k. rating_in (find k after) ≡ some t) ((same_iff winner p).0 g)
                        (rate-winner D winner loser m ∙ got)
                  | inr g ↦ rate-others D winner loser m p g f ∙ v.1 p t (rw g at below)
                ]
          ],
    )

accumulate-Linked :
    (ps : List PlayerMatchStats) (board : Option InMemoryLeaderboardStore)
    (m : Dict Bytes AggregateStats)
    → Linked board m
    → Linked board (accumulate ps m)
unfolding Linked
accumulate-Linked ps none m v = tt
accumulate-Linked ps (some b) m v = (v.0, λ p t e. accumulate-rating ps m p t (v.1 p t e))

-- The counter of updates goes by two for each match.
abbrev pub CountsUpdates : PlayerProfileService → Type 0
CountsUpdates s = s.rating_updates_total % 2 ^ 64 ≡ 2 * s.matches_recorded_total % 2 ^ 64

unfoldable pub record_all {ℓ} :
    (D : Type ℓ) ⦃r : Real D⦄ → List MatchResult → PlayerProfileService → PlayerProfileService
unfolding record_match
record_all D [] s = s
record_all D (m ∷ ms) s = record_all D ms (record_match D m s)

pub record_all-Linked {ℓ} :
    (D : Type ℓ) ⦃r : Real D⦄ (ms : List MatchResult) (s : PlayerProfileService)
    → Linked s.leaderboard s.aggregates
    → CountsUpdates s
    → Linked (record_all D ms s).leaderboard (record_all D ms s).aggregates
      × CountsUpdates (record_all D ms s)
unfolding record_all record_match
record_all-Linked D [] s v c = (v, c)
record_all-Linked D (x ∷ xs) s v c =
    record_all-Linked D xs (record_match D x s)
      (publish-Linked D x.winner_id x.loser_id s.leaderboard
        (accumulate x.player_stats s.aggregates)
        (accumulate-Linked x.player_stats s.leaderboard s.aggregates v))
      (omega (arith, c))
