-- ===== src/Health/Counting.antt =====
-- What the failure counts of service_discovery.cpp count.
use working_for_codex.Base.{
  ℕ, ◌+◌, ◌≡◌, inl, inr, refl, ap, ◌∙◌, Bool, true, false, Bytes, List, [], ◌∷◌, if◌then◌else◌,
  ◌==◌, bytes_eq, ltb, arith, Bool-cases, same_iff,
}
use working_for_codex.Base.Dict.{find, find-put}
use working_for_codex.Balancer.Pool.{LoadBalancer}
use working_for_codex.Health.Checker.{
  HealthChecker, start, failures, is_server_healthy, observe, failure_threshold,
}

-- A check of a server, and whether it passed.
abbrev pub Observation : Type 0
Observation = Bytes × Bool

-- The checker after a history of checks, with the newest check first.
unfoldable pub after : List Observation → LoadBalancer → HealthChecker
unfolding observe
after [] lb = start lb
after ((id, passed) ∷ history) lb = (observe id passed (after history lb)).0

-- What became of the checks of one server, the newest first.
unfoldable pub outcomes : Bytes → List Observation → List Bool
outcomes id [] = []
outcomes id ((j, passed) ∷ history) =
    let rest = outcomes id history in if j == id then passed ∷ rest else rest

unfoldable pub failures_in_a_row : List Bool → ℕ
failures_in_a_row [] = 0
failures_in_a_row (true ∷ bs) = 0
failures_in_a_row (false ∷ bs) = failures_in_a_row bs + 1

abbrev pub counted : Bool → ℕ → ℕ
counted true n = 0
counted false n = n + 1

pub observe-failures :
    (id j : Bytes) (passed : Bool) (hc : HealthChecker)
    → failures j (observe id passed hc).0
      ≡ (if id == j then counted passed (failures j hc) else failures j hc)
unfolding failures observe
observe-failures id j true hc = ground (arith, find-put id j 0 hc.failure_counts)
observe-failures id j false hc =
    ground (arith, find-put id j (failures id hc + 1) hc.failure_counts, same_iff id j)

failures_in_a_row-counted :
    (passed : Bool) (bs : List Bool)
    → counted passed (failures_in_a_row bs) ≡ failures_in_a_row (passed ∷ bs)
unfolding failures_in_a_row
failures_in_a_row-counted true bs = refl
failures_in_a_row-counted false bs = refl

after-failures :
    (id : Bytes) (history : List Observation) (lb : LoadBalancer)
    → failures id (after history lb) ≡ failures_in_a_row (outcomes id history)
unfolding after outcomes failures_in_a_row start failures find
after-failures id [] lb = refl
after-failures id ((j, passed) ∷ history) lb = elim (Bool-cases (j == id)) [
  | inl e ↦
      observe-failures j id passed (after history lb)
      ∙ rw e (
          ap (counted passed) (after-failures id history lb)
          ∙ failures_in_a_row-counted passed (outcomes id history))
  | inr e ↦ observe-failures j id passed (after history lb) ∙ rw e (after-failures id history lb)
]

-- After any history of checks, of any servers in any order, a server counts as healthy exactly when
-- fewer than three of its own newest checks in a row have failed.
pub after-is_server_healthy :
    (id : Bytes) (history : List Observation) (lb : LoadBalancer)
    → is_server_healthy id (after history lb) ≡ ltb (failures_in_a_row (outcomes id history)) 3
unfolding is_server_healthy
after-is_server_healthy id history lb =
    ap (λ n. ltb n failure_threshold) (after-failures id history lb)
