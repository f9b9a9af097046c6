-- ===== src/Balancer/Least.antt =====
-- The choice of `SelectByLeastConnections` in load_balancer.cpp.
use working_for_codex.Base.{
  ◌≡◌, inl, inr, refl, true, false, ◌&&◌, Bytes, [], ◌∷◌, Option, none, some, ◌==◌, bytes_eq, arith,
  Bool-cases,
}
use working_for_codex.Base.Int.{ℤ, ◌≤ℤ◌, ltb_ℤ}
use working_for_codex.Base.Dict.{Dict, find}
use working_for_codex.Balancer.Pool.{
  ServerInfo, LoadBalancer, eligible, has_capacity, least_from, select_by_least_connections,
  int_max,
}

-- A server was selected, and it has at most so many connections.
abbrev pub AtMost : Option ServerInfo → ℤ → Type 0
AtMost none n = ⊥
AtMost (some b) n = b.current_connections ≤ℤ n

AtMost-trans : (o : Option ServerInfo) (m n : ℤ) → AtMost o m → m ≤ℤ n → AtMost o n
AtMost-trans none m n h le = h
AtMost-trans (some b) m n h le = omega arith

-- What the loop keeps in `min_connections`.
abbrev Tracks : Option ServerInfo → ℤ → Type 0
Tracks none n = n ≡ int_max
Tracks (some b) n = b.current_connections ≡ n

-- Once a server is held, the loop ends with one that has no more connections.
least_from-AtMost :
    (b : ServerInfo) (n : ℤ) (m : Dict Bytes ServerInfo)
    → b.current_connections ≡ n
    → AtMost (least_from (some b) n m) n
unfolding least_from
least_from-AtMost b n [] e = rw e (omega arith)
least_from-AtMost b n ((k, s) ∷ m) e =
    elim (Bool-cases (eligible s && ltb_ℤ s.current_connections n)) [
      | inl better ↦ rw better (
          AtMost-trans _ s.current_connections n (least_from-AtMost s s.current_connections m refl)
            (ground arith))
      | inr worse ↦ rw worse (least_from-AtMost b n m e)
    ]

held-AtMost :
    (best : Option ServerInfo) (n c : ℤ) (m : Dict Bytes ServerInfo)
    → Tracks best n
    → ltb_ℤ c int_max ≡ true
    → ltb_ℤ c n ≡ false
    → AtMost (least_from best n m) c
held-AtMost none n c m t small ge = absurd (ground (arith, t))
held-AtMost (some b) n c m t small ge =
    AtMost-trans _ n c (least_from-AtMost b n m t) (ground arith)

least_from-find :
    (best : Option ServerInfo) (n : ℤ) (m : Dict Bytes ServerInfo) (id : Bytes) (s : ServerInfo)
    → Tracks best n
    → find id m ≡ some s
    → eligible s ≡ true
    → ltb_ℤ s.current_connections int_max ≡ true
    → AtMost (least_from best n m) s.current_connections
unfolding least_from find
least_from-find best n [] id s t here ok small = absurd (ground arith)
least_from-find best n ((k, r) ∷ m) id s t here ok small =
    elim (Bool-cases (eligible r && ltb_ℤ r.current_connections n)) [
      | inl better ↦ rw better (elim (Bool-cases (k == id)) [
        | inl e ↦
            let is : r ≡ s = ground arith in
            rw is (least_from-AtMost s s.current_connections m refl)
        | inr e ↦ least_from-find (some r) r.current_connections m id s refl (ground arith) ok small
      ])
      | inr worse ↦ rw worse (elim (Bool-cases (k == id)) [
        | inl e ↦
            let is : r ≡ s = ground arith in
            held-AtMost best n s.current_connections m t small (not_less r is worse)
        | inr e ↦ least_from-find best n m id s t (ground arith) ok small
      ])
    ]
  where
    not_less :
        (q : ServerInfo)
        → q ≡ s
        → (eligible q && ltb_ℤ q.current_connections n) ≡ false
        → ltb_ℤ s.current_connections n ≡ false
    not_less q is worse =
        let w : (eligible s && ltb_ℤ s.current_connections n) ≡ false = rw is at worse in
        ground (arith, w, ok)

-- When some server in the map passes the test, and its limit is at most the greatest `int`, a
-- server is selected that has no more connections than that one.
pub select_by_least_connections-AtMost :
    (lb : LoadBalancer) (id : Bytes) (s : ServerInfo)
    → find id lb.servers ≡ some s
    → eligible s ≡ true
    → s.max_connections ≤ℤ int_max
    → AtMost (select_by_least_connections lb) s.current_connections
unfolding select_by_least_connections eligible has_capacity
select_by_least_connections-AtMost lb id s here ok bounded =
    least_from-find none int_max lb.servers id s refl here ok (ground arith)
