-- ===== src/Health/Examples.antt =====
-- The health checks of service_discovery.cpp run on one server.
use working_for_codex.Base.{
  ◌≡◌, refl, true, false, codes, [], ◌∷◌, some, arith, ltb, List, bytes_eq, same, Bool-cases, inl,
  inr,
}
use working_for_codex.Base.Int.{pos}
use working_for_codex.Base.Dict.{find, put}
use working_for_codex.Balancer.Pool.{ServerInfo, create, round_robin, register_server}
use working_for_codex.Health.Checker.{
  HealthChecker, start, failures, is_server_healthy, check_round, unhealthy,
}
use working_for_codex.Health.Counting.{
  Observation, after, outcomes, failures_in_a_row, after-is_server_healthy,
}
use working_for_codex.Health.Agreement.{
  Agrees, check_round-Agrees, failing, re_register, failing-register_server,
}

abbrev server : ServerInfo
server = record {
  server_id = codes "a";
  host = codes "h";
  udp_port = pos 7000;
  grpc_port = pos 7001;
  current_connections = pos 0;
  max_connections = pos 100;
  last_heartbeat = 1000;
  healthy = true;
  region = codes "eu";
}

abbrev checker : HealthChecker
checker = re_register server (start (create round_robin))

-- The third failure is told, and no other one.
third_failure :
    (check_round 99000 (server ∷ server ∷ server ∷ server ∷ []) checker).1
    ≡ unhealthy (codes "a") ∷ []
unfolding check_round find re_register start put same
third_failure = refl

abbrev history : List Observation
history =
    (codes "a", false)
    ∷ (codes "b", true)
    ∷ (codes "a", false)
    ∷ (codes "a", false)
    ∷ (codes "a", true)
    ∷ []

after-is_server_healthy_example :
    is_server_healthy (codes "a") (after history (create round_robin))
    ≡ ltb (failures_in_a_row (outcomes (codes "a") history)) 3
after-is_server_healthy_example = after-is_server_healthy (codes "a") history (create round_robin)

start-Agrees : Agrees checker
unfolding is_server_healthy failures re_register find start put register_server create
start-Agrees id = elim (Bool-cases (same (codes "a") id)) [ inl h ↦ rw h refl | inr h ↦ rw h tt ]

check_round-Agrees_example : Agrees (check_round 99000 (server ∷ server ∷ []) checker).0
check_round-Agrees_example = check_round-Agrees 99000 (server ∷ server ∷ []) checker start-Agrees

abbrev failed : HealthChecker
failed = record checker { failure_counts = (codes "a", 3) ∷ [] }

failed_lem : failures (codes "a") failed ≡ 3
unfolding failures find same
failed_lem = refl

failing-register_server_example :
    find (codes "a") (failing 9 (codes "a") (re_register server failed)).balancer.servers
    ≡ some server
failing-register_server_example =
    failing-register_server 9 server failed (omega (arith, failed_lem))
