-- ===== src/Balancer/Rotation.antt =====
-- The round robin of load_balancer.cpp.
use working_for_codex.Base.{
  ℕ, zero, suc, ◌+◌, ◌-◌, ◌*◌, ◌%◌, ◌/◌, ◌^◌, ◌<◌, ◌≤◌, ◌≡◌, inl, inr, refl, ap, ◌∙◌, true, Bytes,
  List, [], ◌∷◌, some, ◌==◌, bytes_eq, arith, Bool-cases, length, get_elem?, leb,
}
use working_for_codex.Base.Dict.{Dict, find}
use working_for_codex.Balancer.Pool.{
  ServerInfo, LoadBalancer, eligible, eligible_servers, select_by_round_robin, rotate_among,
}
use native.Mathlib.Nat.{mul-suc, mul-add-mod_self_left, mod-eq_of_lt, div-add-mod, mod-lt}

-- The balancer after that many selections.
unfoldable pub rotated : ℕ → LoadBalancer → LoadBalancer
unfolding select_by_round_robin
rotated zero lb = lb
rotated (suc j) lb = rotated j (select_by_round_robin lb).0

-- The position of an eligible server among the eligible ones.
eligible_servers-find :
    (m : Dict Bytes ServerInfo) (id : Bytes) (s : ServerInfo)
    → find id m ≡ some s
    → eligible s ≡ true
    → (p : ℕ) × (get_elem? (eligible_servers m) p ≡ some s)
unfolding eligible_servers find
eligible_servers-find [] id s here ok = absurd (ground arith)
eligible_servers-find ((k, r) ∷ m) id s here ok = elim (Bool-cases (k == id)) [
  | inl e ↦
      let is : r ≡ s = ground arith in
      let good : eligible r ≡ true = rw is ok in (0, rw good (ap some is))
  | inr e ↦
      let later = eligible_servers-find m id s (ground arith) ok in
      elim (Bool-cases (eligible r)) [
        | inl f ↦ (suc later.0, rw f later.1)
        | inr f ↦ (later.0, rw f later.1)
      ]
]

get_elem?-bound :
    (ss : List ServerInfo) (p : ℕ) (s : ServerInfo) → get_elem? ss p ≡ some s → p < length ss
get_elem?-bound [] p s e = absurd (ground arith)
get_elem?-bound (t ∷ ss) zero s e = omega arith
get_elem?-bound (t ∷ ss) (suc p) s e = omega (arith, get_elem?-bound ss p s e)

-- One of n consecutive numbers leaves the given remainder.
reach : (i n p : ℕ) → p < n → (j : ℕ) × (j < n) × ((i + j) % n ≡ p)
reach i n p h =
    let whole : n * (i / n) + i % n ≡ i = div-add-mod i n in
    let small : i % n < n = mod-lt i (omega arith) in
    elim (Bool-cases (leb (i % n) p)) [
      | inl le ↦ (p - i % n, ground arith, at (p - i % n) (i / n) (ground arith))
      | inr gt ↦ (
        n + p - i % n,
        ground arith,
        at (n + p - i % n) (suc (i / n))
            (let e : n * (suc (i / n)) ≡ n * (i / n) + n = mul-suc n (i / n) in ground arith),
      )
    ]
  where
    at : (j q : ℕ) → i + j ≡ n * q + p → (i + j) % n ≡ p
    at j q e = rw e (mul-add-mod_self_left n q p ∙ mod-eq_of_lt h)

-- One selection, when some server is eligible and the counter does not wrap around.
select_by_round_robin-step :
    (lb : LoadBalancer)
    → 0 < length (eligible_servers lb.servers)
    → ((select_by_round_robin lb).1
        ≡ get_elem?
            (eligible_servers lb.servers)
            (lb.round_robin_index % length (eligible_servers lb.servers)))
      × ((select_by_round_robin lb).0
          ≡ record lb { round_robin_index = (lb.round_robin_index + 1) % 2 ^ 64 })
unfolding select_by_round_robin
select_by_round_robin-step lb some_server = pick (eligible_servers lb.servers) some_server
  where
    pick :
        (ss : List ServerInfo)
        → 0 < length ss
        → ((rotate_among ss lb).1 ≡ get_elem? ss (lb.round_robin_index % length ss))
          × ((rotate_among ss lb).0
              ≡ record lb { round_robin_index = (lb.round_robin_index + 1) % 2 ^ 64 })
    pick [] h = absurd (omega arith)
    pick (s ∷ ss) h = (refl, refl)

rotated-index :
    (j : ℕ) (lb : LoadBalancer)
    → 0 < length (eligible_servers lb.servers)
    → lb.round_robin_index + j < 2 ^ 64
    → rotated j lb ≡ record lb { round_robin_index = lb.round_robin_index + j }
unfolding rotated
rotated-index zero lb h room = ap (λ i. record lb { round_robin_index = i }) (omega arith)
rotated-index (suc j) lb h room =
    let next = record lb { round_robin_index = lb.round_robin_index + 1 } in
    let wrapped : (lb.round_robin_index + 1) % 2 ^ 64 ≡ lb.round_robin_index + 1 = omega arith in
    ap (rotated j)
      ((select_by_round_robin-step lb h).1 ∙ ap (λ i. record lb { round_robin_index = i }) wrapped)
    ∙ rotated-index j next h (omega arith)
    ∙ ap (λ i. record lb { round_robin_index = i }) (omega arith)

-- Each server in the map that passes the test is selected within as many consecutive selections as
-- there are servers that pass it, as long as the 64-bit counter does not wrap around in between.
pub select_by_round_robin-find :
    (lb : LoadBalancer) (id : Bytes) (s : ServerInfo)
    → find id lb.servers ≡ some s
    → eligible s ≡ true
    → lb.round_robin_index + length (eligible_servers lb.servers) ≤ 2 ^ 64
    → (j : ℕ) × (j < length (eligible_servers lb.servers))
      × ((select_by_round_robin (rotated j lb)).1 ≡ some s)
select_by_round_robin-find lb id s here ok room =
    let (p, at_p) = eligible_servers-find lb.servers id s here ok in
    let inside = get_elem?-bound (eligible_servers lb.servers) p s at_p in
    let (j, less, turn) =
      reach lb.round_robin_index (length (eligible_servers lb.servers)) p inside in
    let later = record lb { round_robin_index = lb.round_robin_index + j } in
    (
      j,
      less,
      ap (λ c. (select_by_round_robin c).1) (rotated-index j lb (omega arith) (omega arith))
          ∙ (select_by_round_robin-step later (omega arith)).0
          ∙ ap (get_elem? (eligible_servers lb.servers)) turn
          ∙ at_p,
    )
