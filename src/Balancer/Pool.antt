-- ===== src/Balancer/Pool.antt =====
-- load_balancer.h and load_balancer.cpp. The order of the map is the order of its iteration.
use working_for_codex.Base.{
  ℕ, ◌+◌, ◌%◌, ◌^◌, Bool, ◌&&◌, Bytes, List, [], ◌∷◌, Option, none, some, if◌then◌else◌, length,
  get_elem?, bytes_eq,
}
use working_for_codex.Base.Int.{ℤ, pos, ltb_ℤ}
use working_for_codex.Base.Dict.{Dict, find, erase, put}
use working_for_codex.Ring.Hash.{HashRing, add_node, remove_node, get_nodes}
use working_for_codex.Ring.Hash as Hash

pub record ServerInfo : Type 0 where
  pub server_id : Bytes
  pub host : Bytes
  pub udp_port : ℤ
  pub grpc_port : ℤ
  pub current_connections : ℤ
  pub max_connections : ℤ
  pub last_heartbeat : ℕ
  pub healthy : Bool
  pub region : Bytes

unfoldable pub has_capacity : ServerInfo → Bool
has_capacity s = ltb_ℤ s.current_connections s.max_connections

pub data LoadBalanceStrategy : Type 0 where
  consistent_hash round_robin least_connections : LoadBalanceStrategy

pub record LoadBalancer : Type 0 where
  pub strategy : LoadBalanceStrategy
  pub hash_ring : HashRing
  pub servers : Dict Bytes ServerInfo
  pub round_robin_index : ℕ

-- The ring has its default of 150 virtual nodes for each server.
unfoldable pub create : LoadBalanceStrategy → LoadBalancer
create strategy = record {
  strategy = strategy;
  hash_ring = Hash.create 150;
  servers = [];
  round_robin_index = 0;
}

unfoldable pub register_server : ServerInfo → LoadBalancer → LoadBalancer
register_server server lb = record lb {
  servers = put server.server_id server lb.servers;
  hash_ring = add_node server.server_id lb.hash_ring;
}

unfoldable pub unregister_server : Bytes → LoadBalancer → LoadBalancer
unregister_server server_id lb = record lb {
  servers = erase server_id lb.servers;
  hash_ring = remove_node server_id lb.hash_ring;
}

-- The test that all three strategies make of a server.
unfoldable pub eligible : ServerInfo → Bool
unfolding has_capacity
eligible s = s.healthy && has_capacity s

abbrev pub eligible_entry : Option ServerInfo → Option ServerInfo
eligible_entry none = none
eligible_entry (some s) = if eligible s then some s else none

abbrev pub or_else : Option ServerInfo → Option ServerInfo → Option ServerInfo
or_else none o = o
or_else (some s) o = some s

unfoldable pub first_eligible : List Bytes → Dict Bytes ServerInfo → Option ServerInfo
unfolding eligible
first_eligible [] servers = none
first_eligible (id ∷ ids) servers =
    or_else (eligible_entry (find id servers)) (first_eligible ids servers)

abbrev pub candidates : Option (List Bytes) → List Bytes
candidates none = []
candidates (some ids) = ids

unfoldable pub select_by_consistent_hash : Bytes → LoadBalancer → Option ServerInfo
unfolding first_eligible
select_by_consistent_hash player_id lb =
    first_eligible (candidates (get_nodes player_id (pos 3) lb.hash_ring)) lb.servers

unfoldable pub eligible_servers : Dict Bytes ServerInfo → List ServerInfo
unfolding eligible
eligible_servers [] = []
eligible_servers ((id, s) ∷ m) =
    let rest = eligible_servers m in if eligible s then s ∷ rest else rest

abbrev pub rotate_among : List ServerInfo → LoadBalancer → LoadBalancer × Option ServerInfo
rotate_among [] lb = (lb, none)
rotate_among (s ∷ ss) lb = (
  record lb { round_robin_index = (lb.round_robin_index + 1) % 2 ^ 64 },
  get_elem? (s ∷ ss) (lb.round_robin_index % length (s ∷ ss)),
)

unfoldable pub select_by_round_robin : LoadBalancer → LoadBalancer × Option ServerInfo
unfolding eligible_servers
select_by_round_robin lb = rotate_among (eligible_servers lb.servers) lb

-- The loop of `SelectByLeastConnections`: the best server so far, and its connections.
unfoldable pub least_from : Option ServerInfo → ℤ → Dict Bytes ServerInfo → Option ServerInfo
unfolding eligible
least_from best least [] = best
least_from best least ((id, s) ∷ m) =
    let better = eligible s && ltb_ℤ s.current_connections least in
    least_from (if better then some s else best) (if better then s.current_connections else least) m

-- `std::numeric_limits<int>::max()`.
abbrev pub int_max : ℤ
int_max = pos 2147483647

unfoldable pub select_by_least_connections : LoadBalancer → Option ServerInfo
unfolding least_from
select_by_least_connections lb = least_from none int_max lb.servers

unfoldable pub select_with :
    LoadBalanceStrategy → Bytes → LoadBalancer → LoadBalancer × Option ServerInfo
unfolding select_by_consistent_hash select_by_round_robin select_by_least_connections
select_with consistent_hash player_id lb = (lb, select_by_consistent_hash player_id lb)
select_with round_robin player_id lb = select_by_round_robin lb
select_with least_connections player_id lb = (lb, select_by_least_connections lb)

unfoldable pub select_server : Bytes → LoadBalancer → LoadBalancer × Option ServerInfo
unfolding select_with
select_server player_id lb = select_with lb.strategy player_id lb

-- A write through an iterator, if the key is there.
abbrev pub modify_found :
    Bytes → (ServerInfo → ServerInfo) → Option ServerInfo → LoadBalancer → LoadBalancer
modify_found id f none lb = lb
modify_found id f (some s) lb = record lb { servers = put id (f s) lb.servers }

unfoldable pub update_server_load : Bytes → ℤ → LoadBalancer → LoadBalancer
update_server_load id connections lb =
    modify_found id (λ s. record s { current_connections = connections }) (find id lb.servers) lb

unfoldable pub mark_server_healthy : Bytes → Bool → LoadBalancer → LoadBalancer
mark_server_healthy id healthy lb =
    modify_found id (λ s. record s { healthy = healthy }) (find id lb.servers) lb

unfoldable pub values : Dict Bytes ServerInfo → List ServerInfo
values [] = []
values ((id, s) ∷ m) = s ∷ values m

unfoldable pub get_all_servers : LoadBalancer → List ServerInfo
unfolding values
get_all_servers lb = values lb.servers

unfoldable pub healthy_values : Dict Bytes ServerInfo → List ServerInfo
healthy_values [] = []
healthy_values ((id, s) ∷ m) = let rest = healthy_values m in if s.healthy then s ∷ rest else rest

unfoldable pub get_healthy_servers : LoadBalancer → List ServerInfo
unfolding healthy_values
get_healthy_servers lb = healthy_values lb.servers

unfoldable pub get_server : Bytes → LoadBalancer → Option ServerInfo
get_server id lb = find id lb.servers

unfoldable pub set_strategy : LoadBalanceStrategy → LoadBalancer → LoadBalancer
set_strategy strategy lb = record lb { strategy = strategy }

unfoldable pub get_strategy : LoadBalancer → LoadBalanceStrategy
get_strategy lb = lb.strategy
