-- ===== src/Balancer/Choice.antt =====
-- What the selection of load_balancer.cpp returns.
use working_for_codex.Base.{
  ℕ, zero, suc, ◌%◌, ◌≡◌, inl, inr, refl, sym, true, ◌&&◌, Bytes, List, [], ◌∷◌, Option, none, some,
  bytes_eq, same_iff, same_refl, arith, Bool-cases, length, get_elem?, subst, ◌<◌,
}
use working_for_codex.Base.Int.{ℤ, pos, ltb_ℤ}
use working_for_codex.Base.Dict.{Dict, find, Unique}
use working_for_codex.Ring.Hash.{get_node}
use working_for_codex.Balancer.Pool.{
  ServerInfo, LoadBalanceStrategy, LoadBalancer, eligible, has_capacity, eligible_entry, or_else,
  first_eligible, select_by_consistent_hash, eligible_servers, select_by_round_robin, least_from,
  select_by_least_connections, select_with, select_server, consistent_hash, round_robin,
  least_connections, int_max, rotate_among,
}
use working_for_codex.Ring.Replicas.{get_nodes-get_node}
use working_for_codex.Balancer.Registry.{IsSynced}

-- The selected server, if any, is in the map and passes the test.
abbrev pub IsFound : Dict Bytes ServerInfo → Option ServerInfo → Type 0
IsFound m none = Unit
IsFound m (some s) = (eligible s ≡ true) × (id : Bytes) × (find id m ≡ some s)

first_eligible-IsFound :
    (ids : List Bytes) (m : Dict Bytes ServerInfo) → IsFound m (first_eligible ids m)
unfolding first_eligible
first_eligible-IsFound [] m = tt
first_eligible-IsFound (id ∷ ids) m = pick (first_eligible-IsFound ids m) (find id m) refl
  where
    pick :
        IsFound m (first_eligible ids m)
        → (o : Option ServerInfo) → find id m ≡ o
        → IsFound m (or_else (eligible_entry o) (first_eligible ids m))
    pick later none here = later
    pick later (some s) here = elim (Bool-cases (eligible s)) [
      | inl e ↦ rw e (e, id, here)
      | inr e ↦ rw e later
    ]

-- A key of the rest is not the first key.
find-there :
    (id k : Bytes) (s t : ServerInfo) (m : Dict Bytes ServerInfo)
    → find k m ≡ none
    → find id m ≡ some s
    → find id ((k, t) ∷ m) ≡ some s
unfolding find
find-there id k s t m new here = ground (arith, same_iff k id)

IsFound-there :
    (k : Bytes) (t : ServerInfo) (m : Dict Bytes ServerInfo) (o : Option ServerInfo)
    → find k m ≡ none
    → IsFound m o
    → IsFound ((k, t) ∷ m) o
IsFound-there k t m none new f = tt
IsFound-there k t m (some s) new f = (f.0, f.1, find-there f.1 k s t m new f.2)

find-here : (k : Bytes) (s : ServerInfo) (m : Dict Bytes ServerInfo) → find k ((k, s) ∷ m) ≡ some s
unfolding find
find-here k s m = rw (same_refl k) refl

eligible_servers-IsFound :
    (m : Dict Bytes ServerInfo) (i : ℕ) → Unique m → IsFound m (get_elem? (eligible_servers m) i)
unfolding eligible_servers
eligible_servers-IsFound [] i u = tt
eligible_servers-IsFound ((k, s) ∷ m) i u = elim (Bool-cases (eligible s)) [
  | inl e ↦ rw e (at_index (λ j. eligible_servers-IsFound m j u.1) i e)
  | inr e ↦ rw e (IsFound-there k s m _ u.0 (eligible_servers-IsFound m i u.1))
]
  where
    at_index :
        ((j : ℕ) → IsFound m (get_elem? (eligible_servers m) j))
        → (j : ℕ) → eligible s ≡ true
        → IsFound ((k, s) ∷ m) (get_elem? (s ∷ eligible_servers m) j)
    at_index later zero e = (e, k, find-here k s m)
    at_index later (suc j) e = IsFound-there k s m _ u.0 (later j)

rotation-IsFound :
    (lb : LoadBalancer) → Unique lb.servers → IsFound lb.servers (select_by_round_robin lb).1
unfolding select_by_round_robin
rotation-IsFound lb u =
    pick (eligible_servers lb.servers) (λ i. eligible_servers-IsFound lb.servers i u)
  where
    pick :
        (ss : List ServerInfo)
        → ((i : ℕ) → IsFound lb.servers (get_elem? ss i))
        → IsFound lb.servers (rotate_among ss lb).1
    pick [] f = tt
    pick (s ∷ ss) f = f (lb.round_robin_index % length (s ∷ ss))

module _ (whole : Dict Bytes ServerInfo) where
  -- The part of the map that is left holds what the whole map holds.
  abbrev Within : Dict Bytes ServerInfo → Type 0
  Within m = (id : Bytes) (s : ServerInfo) → find id m ≡ some s → find id whole ≡ some s

  least_from-IsFound :
      (best : Option ServerInfo) (least : ℤ) (m : Dict Bytes ServerInfo)
      → Unique m
      → Within m
      → IsFound whole best
      → IsFound whole (least_from best least m)
  unfolding least_from
  least_from-IsFound best least [] u w f = f
  least_from-IsFound best least ((k, s) ∷ m) u w f =
      elim (Bool-cases (eligible s && ltb_ℤ s.current_connections least)) [
        | inl e ↦ rw e (least_from-IsFound (some s) s.current_connections m u.1 rest (new e))
        | inr e ↦ rw e (least_from-IsFound best least m u.1 rest f)
      ]
    where
      rest : Within m
      rest id t here = w id t (find-there id k t s m u.0 here)

      new : (eligible s && ltb_ℤ s.current_connections least) ≡ true → IsFound whole (some s)
      new e = (ground arith, k, w k s (find-here k s m))

select_with-IsFound :
    (strategy : LoadBalanceStrategy) (p : Bytes) (lb : LoadBalancer)
    → Unique lb.servers
    → IsFound lb.servers (select_with strategy p lb).1
unfolding select_with select_by_consistent_hash select_by_least_connections
select_with-IsFound consistent_hash p lb u = first_eligible-IsFound _ lb.servers
select_with-IsFound round_robin p lb u = rotation-IsFound lb u
select_with-IsFound least_connections p lb u =
    least_from-IsFound lb.servers none int_max lb.servers u (λ id s h. h) tt

-- Whatever the strategy, when the servers and the ring are in step, a selected server is one that
-- the balancer holds under its own id, that is marked healthy, and that has fewer connections than
-- its limit.
pub select_server-IsFound :
    (p : Bytes) (lb : LoadBalancer) (s : ServerInfo)
    → IsSynced lb
    → (select_server p lb).1 ≡ some s
    → (find s.server_id lb.servers ≡ some s)
      × (s.healthy ≡ true)
      × (ltb_ℤ s.current_connections s.max_connections ≡ true)
unfolding select_server eligible has_capacity
select_server-IsFound p lb s v e =
    let found : IsFound lb.servers (some s) =
      rw e at (select_with-IsFound lb.strategy p lb v.unique) in
    let own : s.server_id ≡ found.1 = rw found.2 at (v.keyed found.1) in
    (subst (λ id. find id lb.servers ≡ some s) (sym own) found.2, ground arith, ground arith)

-- By consistent hashing a player goes to the owner of the player's hash in the ring, when the
-- servers and the ring are in step, the ring is not empty, and the owner is a server of the map
-- that passes the test.
pub select_by_consistent_hash-get_node :
    (p : Bytes) (lb : LoadBalancer) (s : ServerInfo)
    → IsSynced lb
    → find (get_node p lb.hash_ring) lb.servers ≡ some s
    → eligible s ≡ true
    → 0 < length lb.hash_ring.ring
    → select_by_consistent_hash p lb ≡ some s
unfolding select_by_consistent_hash first_eligible
select_by_consistent_hash-get_node p lb s v here ok inside =
    let (ns, e) = get_nodes-get_node p (pos 3) lb.hash_ring v.placed inside (omega arith) in
    rw (e, here, ok) refl
