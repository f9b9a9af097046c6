-- ===== src/Stats/Ranking.antt =====
-- TopProfiles of player_profile_service.cpp over the leaderboard that RecordMatch feeds.
use working_for_codex.Base.{
  ℕ, ◌≡◌, refl, ap, subst, Bytes, List, [], ◌∷◌, map, some, get_elem?, suc, arith, bytes_eq,
  Option-cases, inl, inr,
}
use working_for_codex.Base.Int.{ℤ}
use working_for_codex.Base.Real.{Real}
use working_for_codex.Base.Dict.{Dict, find}
use working_for_codex.Leaderboard.Store.{InMemoryLeaderboardStore, empty_store, top_n, get}
use working_for_codex.Leaderboard.Consistent.{run, run-empty-IsConsistent}
use working_for_codex.Leaderboard.Top.{top_n-get}
use working_for_codex.Stats.Profiles.{
  MatchResult, AggregateStats, PlayerProfile, PlayerProfileService, new_service, profiles_of,
  top_profiles,
}
use working_for_codex.Stats.Linked.{Linked, CountsUpdates, rating_in, record_all, record_all-Linked}

-- What a listing shows of a profile.
abbrev pub entry : PlayerProfile → Bytes × ℤ
entry p = (p.player_id, p.stats.rating)

-- The entries of a listing whose scores are the ratings are all found.
profiles_of-listing :
    (xs : List (Bytes × ℤ)) (m : Dict Bytes AggregateStats)
    → ((i : ℕ) (p : Bytes) (t : ℤ) → get_elem? xs i ≡ some (p, t) → rating_in (find p m) ≡ some t)
    → map entry (profiles_of xs m) ≡ xs
unfolding profiles_of
profiles_of-listing [] m v = refl
profiles_of-listing ((p, t) ∷ xs) m v = elim (Option-cases (find p m)) [
  | inl e ↦ let got = rw e at (v 0 p t refl) in absurd cc
  | inr (a, e) ↦
      let got = rw e at (v 0 p t refl) in
      let is : a.rating ≡ t = cc in
      rw (e, profiles_of-listing xs m (λ i. v (suc i))) (ap (λ k. (p, k) ∷ xs) is)
]

-- A service with an empty leaderboard.
unfoldable pub fresh : PlayerProfileService
unfolding new_service empty_store
fresh = new_service (some empty_store)

fresh-Linked : Linked fresh.leaderboard fresh.aggregates
unfolding fresh new_service empty_store Linked find run
fresh-Linked = (run-empty-IsConsistent [], λ p t e. absurd cc)

-- After any history of matches recorded in a service with a new leaderboard the best players are
-- exactly the entries of the leaderboard: the same players in the same order, each with the rating
-- that the leaderboard shows, so that nobody is left out.
pub top_profiles-top_n {ℓ} :
    (D : Type ℓ) ⦃r : Real D⦄ (ms : List MatchResult) (limit : ℕ) (board : InMemoryLeaderboardStore)
    → (record_all D ms fresh).leaderboard ≡ some board
    → map entry (top_profiles limit (record_all D ms fresh)) ≡ top_n limit board
unfolding top_profiles Linked fresh new_service get
top_profiles-top_n D ms limit board e =
    let s = record_all D ms fresh in
    let linked = (record_all-Linked D ms fresh fresh-Linked (updates_start)).0 in
    let on_board = subst (λ b. Linked b s.aggregates) e linked in
    rw e (
      profiles_of-listing (top_n limit board) s.aggregates
        (λ i p t at. on_board.1 p t (kept p t board (top_n-get limit i board p t on_board.0 at))))
  where
    updates_start : CountsUpdates fresh
    updates_start = omega arith

    kept :
        (p : Bytes) (t : ℤ) (b : InMemoryLeaderboardStore)
        → get p b ≡ some t
        → find p b.scores ≡ some t
    kept p t b h = h
