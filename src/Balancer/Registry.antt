-- ===== src/Balancer/Registry.antt =====
-- The servers of load_balancer.cpp and its ring.
use working_for_codex.Base.{
  ◌≡◌, inl, inr, refl, Bool, true, false, ◌||◌, Bytes, List, [], ◌∷◌, Option, none, some,
  if◌then◌else◌, ◌==◌, bytes_eq, same_iff, arith, Bool-cases, Option-cases,
}
use working_for_codex.Base.Int.{ℤ}
use working_for_codex.Base.Dict.{find, put, find-erase, find-put, Unique, erase-Unique, put-Unique}
use working_for_codex.Ring.Hash.{HashRing, member, add_name, remove_name, add_node, remove_node}
use working_for_codex.Ring.Members.{
  IsRing, add_node-IsRing, remove_node-IsRing, member-add_name, member-remove_name,
}
use working_for_codex.Balancer.Pool.{
  ServerInfo, LoadBalanceStrategy, LoadBalancer, create, register_server, unregister_server,
  select_by_round_robin, select_with, select_server, update_server_load, mark_server_healthy,
  set_strategy, consistent_hash, round_robin, least_connections,
}

abbrev pub is_some : Option ServerInfo → Bool
is_some none = false
is_some (some s) = true

abbrev pub Keyed : Bytes → Option ServerInfo → Type 0
Keyed id none = Unit
Keyed id (some s) = s.server_id ≡ id

-- The ring's nodes are the servers' ids, each server stands under its own id, and only once.
pub record IsSynced (lb : LoadBalancer) : Type 0 where
  pub registered : (id : Bytes) → member id lb.hash_ring.nodes ≡ is_some (find id lb.servers)
  pub keyed : (id : Bytes) → Keyed id (find id lb.servers)
  pub unique : Unique lb.servers
  pub placed : IsRing lb.hash_ring

member-add_node :
    (n m : Bytes) (s : HashRing) → member n (add_node m s).nodes ≡ ((m == n) || member n s.nodes)
unfolding add_node
member-add_node n m s = elim (Bool-cases (member m s.nodes)) [
  | inl old ↦ rw old (ground (arith, old, same_iff m n))
  | inr new ↦ rw new (member-add_name n m s.nodes)
]

not-member :
    (n m : Bytes) (s : HashRing)
    → member m s.nodes ≡ false
    → member n s.nodes ≡ (if m == n then false else member n s.nodes)
not-member n m s new = ground (arith, new, same_iff m n)

member-remove_node :
    (n m : Bytes) (s : HashRing)
    → member n (remove_node m s).nodes ≡ (if m == n then false else member n s.nodes)
unfolding remove_node
member-remove_node n m s = elim (Bool-cases (member m s.nodes)) [
  | inl old ↦ rw old (member-remove_name n m s.nodes)
  | inr new ↦ rw new (not-member n m s new)
]

create-IsSynced : (strategy : LoadBalanceStrategy) → IsSynced (create strategy)
unfolding create find member working_for_codex.Ring.Hash.create
create-IsSynced strategy = record {
  registered = λ id. refl;
  keyed = λ id. tt;
  unique = tt;
  placed = tt;
}

register_server-IsSynced :
    (server : ServerInfo) (lb : LoadBalancer) → IsSynced lb → IsSynced (register_server server lb)
unfolding register_server
register_server-IsSynced server lb v = record {
  registered = λ id.
      rw
        (
          member-add_node id server.server_id lb.hash_ring,
          find-put server.server_id id server lb.servers,
        )
        (ground (arith, v.registered id));
  keyed = λ id.
      rw (find-put server.server_id id server lb.servers)
        (ground (arith, v.keyed id, same_iff server.server_id id));
  unique = put-Unique server.server_id server lb.servers v.unique;
  placed = add_node-IsRing server.server_id lb.hash_ring v.placed;
}

unregister_server-IsSynced :
    (id : Bytes) (lb : LoadBalancer) → IsSynced lb → IsSynced (unregister_server id lb)
unfolding unregister_server
unregister_server-IsSynced id lb v = record {
  registered = λ j.
      rw (member-remove_node j id lb.hash_ring, find-erase id j lb.servers)
        (ground (arith, v.registered j));
  keyed = λ j. rw (find-erase id j lb.servers) (ground (arith, v.keyed j));
  unique = erase-Unique id lb.servers v.unique;
  placed = remove_node-IsRing id lb.hash_ring v.placed;
}

-- A server that is there is written back under its id.
put-IsSynced :
    (id : Bytes) (old new : ServerInfo) (lb : LoadBalancer)
    → find id lb.servers ≡ some old
    → new.server_id ≡ old.server_id
    → IsSynced lb
    → IsSynced (record lb { servers = put id new lb.servers })
put-IsSynced id old new lb here same_id v = record {
  registered =
      λ j. rw (find-put id j new lb.servers) (ground (arith, v.registered j, same_iff id j));
  keyed =
      λ j. rw (find-put id j new lb.servers) (ground (arith, v.keyed j, v.keyed id, same_iff id j));
  unique = put-Unique id new lb.servers v.unique;
  placed = v.placed;
}

update_server_load-IsSynced :
    (id : Bytes) (n : ℤ) (lb : LoadBalancer) → IsSynced lb → IsSynced (update_server_load id n lb)
unfolding update_server_load
update_server_load-IsSynced id n lb v = elim (Option-cases (find id lb.servers)) [
  | inl e ↦ rw (e, update_server_load) v
  | inr (s, e) ↦ rw (e, update_server_load) (put-IsSynced id s _ lb e refl v)
]

mark_server_healthy-IsSynced :
    (id : Bytes) (b : Bool) (lb : LoadBalancer)
    → IsSynced lb
    → IsSynced (mark_server_healthy id b lb)
unfolding mark_server_healthy
mark_server_healthy-IsSynced id b lb v = elim (Option-cases (find id lb.servers)) [
  | inl e ↦ rw (e, mark_server_healthy) v
  | inr (s, e) ↦ rw (e, mark_server_healthy) (put-IsSynced id s _ lb e refl v)
]

-- Another strategy or rotation leaves the servers and the ring alone.
IsSynced-resp :
    (lb lc : LoadBalancer)
    → lc.servers ≡ lb.servers
    → lc.hash_ring ≡ lb.hash_ring
    → IsSynced lb
    → IsSynced lc
IsSynced-resp lb lc same_servers same_ring v = record {
  registered = λ id. rw (same_servers, same_ring) (v.registered id);
  keyed = λ id. rw same_servers (v.keyed id);
  unique = rw same_servers v.unique;
  placed = rw same_ring v.placed;
}

select_with-servers :
    (strategy : LoadBalanceStrategy) (p : Bytes) (lb : LoadBalancer)
    → ((select_with strategy p lb).0.servers ≡ lb.servers)
      × ((select_with strategy p lb).0.hash_ring ≡ lb.hash_ring)
unfolding select_with select_by_round_robin
select_with-servers consistent_hash p lb = (refl, refl)
select_with-servers round_robin p lb = ground arith
select_with-servers least_connections p lb = (refl, refl)

-- The calls that may change the balancer.
pub data Call : Type 0 where
  register : ServerInfo → Call
  unregister : Bytes → Call
  select : Bytes → Call
  load : Bytes → ℤ → Call
  mark : Bytes → Bool → Call
  strategy : LoadBalanceStrategy → Call

unfoldable pub step : LoadBalancer → Call → LoadBalancer
step lb (register s) = register_server s lb
step lb (unregister id) = unregister_server id lb
step lb (select p) = (select_server p lb).0
step lb (load id n) = update_server_load id n lb
step lb (mark id b) = mark_server_healthy id b lb
step lb (strategy s) = set_strategy s lb

unfoldable pub run : LoadBalancer → List Call → LoadBalancer
unfolding step
run lb [] = lb
run lb (c ∷ cs) = run (step lb c) cs

-- Every call keeps the servers and the ring in step: the ring's nodes are the servers' ids, each
-- server stands under its own id and only once, and the ring's entries are those of its nodes.
pub step-IsSynced : (lb : LoadBalancer) (c : Call) → IsSynced lb → IsSynced (step lb c)
unfolding step select_server set_strategy
step-IsSynced lb (register s) v = register_server-IsSynced s lb v
step-IsSynced lb (unregister id) v = unregister_server-IsSynced id lb v
step-IsSynced lb (select p) v =
    let same_parts = select_with-servers lb.strategy p lb in
    IsSynced-resp lb (select_with lb.strategy p lb).0 same_parts.0 same_parts.1 v
step-IsSynced lb (load id n) v = update_server_load-IsSynced id n lb v
step-IsSynced lb (mark id b) v = mark_server_healthy-IsSynced id b lb v
step-IsSynced lb (strategy s) v = IsSynced-resp lb (record lb { strategy = s }) refl refl v

pub run_from-IsSynced : (lb : LoadBalancer) (cs : List Call) → IsSynced lb → IsSynced (run lb cs)
unfolding run
run_from-IsSynced lb [] v = v
run_from-IsSynced lb (c ∷ cs) v = run_from-IsSynced (step lb c) cs (step-IsSynced lb c v)

-- After any history of calls on a new balancer the servers and the ring are in step.
pub run-IsSynced : (s : LoadBalanceStrategy) (cs : List Call) → IsSynced (run (create s) cs)
run-IsSynced s cs = run_from-IsSynced (create s) cs (create-IsSynced s)
