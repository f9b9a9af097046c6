-- ===== src/Matching/Request.antt =====
-- match_request.h and match_request.cpp. Times are whole nanoseconds; the code's doubles hold the
-- same quotients for waits below a million seconds.
use working_for_codex.Base.{
  ℕ, ◌+◌, ◌-◌, ◌*◌, ◌/◌, Bool, true, ◌&&◌, ◌||◌, Bytes, codes, if◌then◌else◌, same,
}
use working_for_codex.Base.Int.{ℤ, pos, ◌-ℤ◌, abs, leb_ℤ, sub_ℕ}

pub record MatchRequest : Type 0 where
  pub player_id : Bytes
  pub elo : ℤ
  pub enqueued_at : ℕ
  pub preferred_region : Bytes

-- In nanoseconds.
unfoldable pub wait_seconds : ℕ → MatchRequest → ℤ
wait_seconds now r = sub_ℕ now r.enqueued_at

-- `std::max(0.0, …)` is the subtraction that stops at 0.
unfoldable pub current_tolerance : ℕ → MatchRequest → ℤ
current_tolerance now r = pos (100 + (now - r.enqueued_at) / 5000000000 * 25)

unfoldable pub regions_compatible : MatchRequest → MatchRequest → Bool
regions_compatible lhs rhs =
    if same lhs.preferred_region (codes "any") || same rhs.preferred_region (codes "any")
    then true
    else same lhs.preferred_region rhs.preferred_region

-- The test on the ratings in `RunMatching`: both players accept the difference.
unfoldable pub ratings_compatible : ℕ → MatchRequest → MatchRequest → Bool
unfolding current_tolerance abs ◌-ℤ◌
ratings_compatible now a b =
    let diff = abs (a.elo -ℤ b.elo) in
    leb_ℤ diff (current_tolerance now a) && leb_ℤ diff (current_tolerance now b)
