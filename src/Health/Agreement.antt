-- ===== src/Health/Agreement.antt =====
-- The balancer's marks against the failure counts of service_discovery.cpp.
use working_for_codex.Base.{
  ℕ, zero, suc, ◌≤◌, ◌≡◌, ◌⊎◌, inl, inr, refl, sym, ap, ◌∙◌, Bool, true, false, Bytes, List, [],
  ◌∷◌, Option, none, some, if◌then◌else◌, ◌==◌, bytes_eq, ltb, arith, Bool-cases, same_refl, same,
  same_sound, subst,
}
use working_for_codex.Base.Dict.{find, find-put}
use working_for_codex.Balancer.Pool.{
  ServerInfo, LoadBalancer, mark_server_healthy, register_server, modify_found,
}
use working_for_codex.Health.Checker.{
  HealthChecker, failures, is_server_healthy, observe, failure_threshold, check_server, check_round,
}
use working_for_codex.Health.Counting.{observe-failures, counted}

abbrev pub MarkedAs : Bool → Option ServerInfo → Type 0
MarkedAs b none = Unit
MarkedAs b (some s) = s.healthy ≡ b

-- Each server of the balancer is marked the way its failure count says.
abbrev pub Agrees : HealthChecker → Type 0
Agrees hc = (id : Bytes) → MarkedAs (is_server_healthy id hc) (find id hc.balancer.servers)

marked_at :
    (hc : HealthChecker)
    → Agrees hc
    → (id : Bytes) (s : ServerInfo) → find id hc.balancer.servers ≡ some s
    → s.healthy ≡ is_server_healthy id hc
marked_at hc v id s e = subst (MarkedAs (is_server_healthy id hc)) e (v id)

abbrev pub with_mark : Bool → Option ServerInfo → Option ServerInfo
with_mark b none = none
with_mark b (some s) = some (record s { healthy = b })

find-mark_server_healthy :
    (id j : Bytes) (b : Bool) (lb : LoadBalancer)
    → find j (mark_server_healthy id b lb).servers
      ≡ (if id == j then with_mark b (find j lb.servers) else find j lb.servers)
unfolding mark_server_healthy
find-mark_server_healthy id j b lb = at (find id lb.servers) refl
  where
    at :
        (o : Option ServerInfo)
        → find id lb.servers ≡ o
        → find j (modify_found id (λ s. record s { healthy = b }) o lb).servers
          ≡ (if id == j then with_mark b (find j lb.servers) else find j lb.servers)
    at none e = elim (Bool-cases (same id j)) [
      | inl f ↦
          let g : find j lb.servers ≡ none =
            subst (λ k. find k lb.servers ≡ none) (same_sound id j f) e in
          rw (f, g) refl
      | inr f ↦ rw f refl
    ]
    at (some s) e = elim (Bool-cases (same id j)) [
      | inl f ↦
          let g : find j lb.servers ≡ some s =
            subst (λ k. find k lb.servers ≡ some s) (same_sound id j f) e in
          rw (f, g) (find-put id j _ lb.servers ∙ rw f refl)
      | inr f ↦ rw f (find-put id j _ lb.servers ∙ rw f refl)
    ]

-- A server after a mark is the marked one, or stands as before.
marked-healthy :
    (id j : Bytes) (b : Bool) (lb : LoadBalancer) (s : ServerInfo)
    → find j (mark_server_healthy id b lb).servers ≡ some s
    → (same id j ≡ true) × (s.healthy ≡ b) ⊎ (same id j ≡ false) × (find j lb.servers ≡ some s)
marked-healthy id j b lb s e =
    let m = find-mark_server_healthy id j b lb in
    elim (Bool-cases (same id j)) [
      | inl f ↦ inl (f, marked (find j lb.servers) (sym (m ∙ rw f refl) ∙ e))
      | inr f ↦ inr (f, sym (m ∙ rw f refl) ∙ e)
    ]
  where
    marked : (o : Option ServerInfo) → with_mark b o ≡ some s → s.healthy ≡ b
    marked none h = absurd (ground arith)
    marked (some t) h = ground arith

-- The next mark of a server, from its count and its check.
observe-balancer :
    (id : Bytes) (passed : Bool) (hc : HealthChecker)
    → ((observe id passed hc).0.balancer ≡ mark_server_healthy id passed hc.balancer)
        × (ltb (counted passed (failures id hc)) failure_threshold ≡ passed)
      ⊎ ((observe id passed hc).0.balancer ≡ hc.balancer)
        × (ltb (counted passed (failures id hc)) failure_threshold
            ≡ ltb (failures id hc) failure_threshold)
unfolding observe
observe-balancer id true hc = ground arith
observe-balancer id false hc = ground arith

observe-is_server_healthy :
    (id j : Bytes) (passed : Bool) (hc : HealthChecker)
    → is_server_healthy j (observe id passed hc).0 ≡ (
        if same id j
        then ltb (counted passed (failures j hc)) failure_threshold
        else is_server_healthy j hc)
unfolding is_server_healthy
observe-is_server_healthy id j passed hc = elim (Bool-cases (same id j)) [
  | inl f ↦ rw (observe-failures id j passed hc, f) refl
  | inr f ↦ rw (observe-failures id j passed hc, f) refl
]

observe-marked_at :
    (id : Bytes) (passed : Bool) (hc : HealthChecker)
    → Agrees hc
    → (j : Bytes) (s : ServerInfo) → find j (observe id passed hc).0.balancer.servers ≡ some s
    → s.healthy ≡ is_server_healthy j (observe id passed hc).0
unfolding is_server_healthy
observe-marked_at id passed hc v j s e = elim (observe-balancer id passed hc) [
  | inl (marked, fits) ↦
      let here : find j (mark_server_healthy id passed hc.balancer).servers ≡ some s =
        subst (λ b. find j b.servers ≡ some s) marked e in
      elim (marked-healthy id j passed hc.balancer s here) [
        | inl (f, h) ↦
            h
            ∙ sym fits
            ∙ ap (λ k. ltb (counted passed (failures k hc)) failure_threshold) (same_sound id j f)
            ∙ sym (observe-is_server_healthy id j passed hc ∙ rw f refl)
        | inr (f, h) ↦
            marked_at hc v j s h ∙ sym (observe-is_server_healthy id j passed hc ∙ rw f refl)
      ]
  | inr (left, fits) ↦
      let here : find j hc.balancer.servers ≡ some s =
        subst (λ b. find j b.servers ≡ some s) left e in
      marked_at hc v j s here ∙ sym (unmoved (Bool-cases (same id j)) fits)
]
  where
    unmoved :
        (same id j ≡ true) ⊎ (same id j ≡ false)
        → ltb (counted passed (failures id hc)) failure_threshold
          ≡ ltb (failures id hc) failure_threshold
        → is_server_healthy j (observe id passed hc).0 ≡ is_server_healthy j hc
    unmoved (inl f) fits =
        observe-is_server_healthy id j passed hc
        ∙ rw f (
            subst
              (λ k.
                ltb (counted passed (failures k hc)) failure_threshold
                ≡ ltb (failures k hc) failure_threshold)
              (same_sound id j f) fits)
    unmoved (inr f) fits = observe-is_server_healthy id j passed hc ∙ rw f refl

pub observe-Agrees :
    (id : Bytes) (passed : Bool) (hc : HealthChecker) → Agrees hc → Agrees (observe id passed hc).0
observe-Agrees id passed hc v j = at (find j (observe id passed hc).0.balancer.servers) refl
  where
    at :
        (o : Option ServerInfo)
        → find j (observe id passed hc).0.balancer.servers ≡ o
        → MarkedAs (is_server_healthy j (observe id passed hc).0) o
    at none e = tt
    at (some s) e = observe-marked_at id passed hc v j s e

-- When the balancer marks as healthy exactly the servers that have fewer than three failures in
-- a row, it does so after a round of checks as well.
pub check_round-Agrees :
    (now : ℕ) (servers : List ServerInfo) (hc : HealthChecker)
    → Agrees hc
    → Agrees (check_round now servers hc).0
unfolding check_round
check_round-Agrees now [] hc v = v
check_round-Agrees now (s ∷ servers) hc v =
    check_round-Agrees now servers (observe s.server_id (check_server now s) hc).0
      (observe-Agrees s.server_id (check_server now s) hc v)

-- That many failed checks of one server.
unfoldable pub failing : ℕ → Bytes → HealthChecker → HealthChecker
unfolding observe
failing zero id hc = hc
failing (suc n) id hc = failing n id (observe id false hc).0

observe-past :
    (id : Bytes) (hc : HealthChecker)
    → 3 ≤ failures id hc
    → (observe id false hc).0.balancer ≡ hc.balancer
unfolding observe
observe-past id hc h = ground arith

failing-balancer :
    (n : ℕ) (id : Bytes) (hc : HealthChecker)
    → 3 ≤ failures id hc
    → (failing n id hc).balancer ≡ hc.balancer
unfolding failing
failing-balancer zero id hc h = refl
failing-balancer (suc n) id hc h =
    let more : 3 ≤ failures id (observe id false hc).0 =
      rw (observe-failures id id false hc, same_refl id) (omega arith) in
    failing-balancer n id (observe id false hc).0 more ∙ observe-past id hc h

-- The server stands in the balancer anew, while its failures are still counted.
unfoldable pub re_register : ServerInfo → HealthChecker → HealthChecker
re_register s hc = record hc { balancer = register_server s hc.balancer }

-- A server that registers again, marked healthy, when three of its checks in a row have failed
-- already, keeps the mark however many more of its checks fail: the mark is taken away only when
-- the count is exactly three.
pub failing-register_server :
    (n : ℕ) (s : ServerInfo) (hc : HealthChecker)
    → 3 ≤ failures s.server_id hc
    → find s.server_id (failing n s.server_id (re_register s hc)).balancer.servers ≡ some s
unfolding register_server failures re_register
failing-register_server n s hc h =
    rw (failing-balancer n s.server_id (re_register s hc) h)
      (find-put s.server_id s.server_id s hc.balancer.servers ∙ rw (same_refl s.server_id) refl)
