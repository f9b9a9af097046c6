-- ===== src/Balancer/Examples.antt =====
-- load_balancer.cpp run on two servers.
use working_for_codex.Base.{
  ◌≡◌, refl, true, false, Bytes, codes, [], ◌∷◌, some, arith, ℕ, bytes_eq, same,
}
use working_for_codex.Base.Int.{pos, ltb_ℤ}
use working_for_codex.Base.Dict.{find, put}
use working_for_codex.Ring.Hash.{get_node, member, add_node}
use working_for_codex.Balancer.Pool.{
  ServerInfo, LoadBalancer, create, select_server, select_by_round_robin,
  select_by_least_connections, round_robin, least_connections, register_server, eligible,
  eligible_servers, select_by_least_connections,
}
use working_for_codex.Balancer.Registry.{
  IsSynced, run, register, mark, run-IsSynced, run_from-IsSynced,
}
use working_for_codex.Balancer.Choice.{select_server-IsFound}
use working_for_codex.Balancer.Least.{AtMost, select_by_least_connections-AtMost}
use working_for_codex.Balancer.Rotation.{rotated, select_by_round_robin-find}
use working_for_codex.Base.{length, ◌<◌}

abbrev server : Bytes → ℕ → ServerInfo
server id n = record {
  server_id = id;
  host = codes "h";
  udp_port = pos 7000;
  grpc_port = pos 7001;
  current_connections = pos n;
  max_connections = pos 100;
  last_heartbeat = 0;
  healthy = true;
  region = codes "eu";
}

abbrev busy : ServerInfo
busy = server (codes "a") 5

abbrev idle : ServerInfo
idle = server (codes "b") 2

-- One virtual node for each server.
abbrev small : LoadBalancer
small = record {
  strategy = round_robin;
  hash_ring = record { virtual_nodes = 1; ring = []; nodes = [] };
  servers = [];
  round_robin_index = 7;
}

small-IsSynced : IsSynced small
unfolding find member
small-IsSynced = record { registered = λ id. refl; keyed = λ id. tt; unique = tt; placed = tt }

abbrev pair : LoadBalancer
pair = run small (register busy ∷ register idle ∷ [])

pair-IsSynced : IsSynced pair
pair-IsSynced = run_from-IsSynced small (register busy ∷ register idle ∷ []) small-IsSynced

run-IsSynced_example :
    IsSynced (run (create least_connections) (register busy ∷ mark (codes "a") false ∷ []))
run-IsSynced_example = run-IsSynced least_connections (register busy ∷ mark (codes "a") false ∷ [])

select_idle : (select_server (codes "p") pair).1 ≡ some idle
unfolding select_server run register_server put same
select_idle = refl

select_server-IsFound_example :
    (find (codes "b") pair.servers ≡ some idle)
    × (idle.healthy ≡ true)
    × (ltb_ℤ idle.current_connections idle.max_connections ≡ true)
select_server-IsFound_example =
    select_server-IsFound (codes "p") pair idle pair-IsSynced select_idle

stored_a : find (codes "a") pair.servers ≡ some busy
unfolding run find register_server put same
stored_a = refl

a_passes : eligible busy ≡ true
unfolding eligible
a_passes = refl

select_by_least_connections-AtMost_example : AtMost (select_by_least_connections pair) (pos 5)
select_by_least_connections-AtMost_example =
    select_by_least_connections-AtMost pair (codes "a") busy stored_a a_passes (omega arith)

two_eligible : length (eligible_servers pair.servers) ≡ 2
unfolding eligible_servers run register_server put same
two_eligible = refl

pair_index : pair.round_robin_index ≡ 7
unfolding run register_server add_node same
pair_index = refl

select_by_round_robin-find_example :
    (j : ℕ) × (j < length (eligible_servers pair.servers))
    × ((select_by_round_robin (rotated j pair)).1 ≡ some busy)
select_by_round_robin-find_example =
    select_by_round_robin-find pair (codes "a") busy stored_a a_passes
      (rw (two_eligible, pair_index) (omega arith))

owner_stored : find (get_node (codes "p") pair.hash_ring) pair.servers ≡ some busy
unfolding get_node run find register_server put same add_node
owner_stored = refl

ring_size : length pair.hash_ring.ring ≡ 2
unfolding run register_server add_node same
ring_size = refl
