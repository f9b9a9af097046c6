-- ===== src/Health/Checker.antt =====
-- service_discovery.h and service_discovery.cpp, the `HealthChecker`. A round takes the servers that
-- discovery returns and the time, in milliseconds of the epoch; it returns the calls that it makes
-- of the two callbacks.
use working_for_codex.Base.{
  ℕ, ◌+◌, Bool, true, false, Bytes, List, [], ◌∷◌, ◌++◌, Option, none, some, if◌then◌else◌, ltb,
  leb, nat_beq, bytes_eq,
}
use working_for_codex.Base.Dict.{Dict, find, put}
use working_for_codex.Balancer.Pool.{ServerInfo, LoadBalancer, mark_server_healthy}

abbrev pub failure_threshold : ℕ
failure_threshold = 3

pub data Event : Type 0 where
  recovered : Bytes → Event
  unhealthy : Bytes → Event

pub record HealthChecker : Type 0 where
  pub failure_counts : Dict Bytes ℕ
  pub balancer : LoadBalancer

-- No server has failed yet.
unfoldable pub start : LoadBalancer → HealthChecker
start lb = record { failure_counts = []; balancer = lb }

abbrev pub count_of : Option ℕ → ℕ
count_of none = 0
count_of (some n) = n

-- `failure_counts_[server_id]`.
unfoldable pub failures : Bytes → HealthChecker → ℕ
failures id hc = count_of (find id hc.failure_counts)

unfoldable pub is_server_healthy : Bytes → HealthChecker → Bool
unfolding failures
is_server_healthy id hc = ltb (failures id hc) failure_threshold

-- `now - server.last_heartbeat < 15000`, in signed numbers.
unfoldable pub check_server : ℕ → ServerInfo → Bool
check_server now server = ltb now (server.last_heartbeat + 15000)

-- The body of the loop in `CheckLoop`, for one server and the outcome of its check.
unfoldable pub observe : Bytes → Bool → HealthChecker → HealthChecker × List Event
unfolding failures
observe id true hc =
    if leb failure_threshold (failures id hc)
    then (
      record hc {
        failure_counts = put id 0 hc.failure_counts;
        balancer = mark_server_healthy id true hc.balancer;
      },
      recovered id ∷ [],
    )
    else (record hc { failure_counts = put id 0 hc.failure_counts }, [])
observe id false hc =
    let count = failures id hc + 1 in
    if nat_beq count failure_threshold
    then (
      record hc {
        failure_counts = put id count hc.failure_counts;
        balancer = mark_server_healthy id false hc.balancer;
      },
      unhealthy id ∷ [],
    )
    else (record hc { failure_counts = put id count hc.failure_counts }, [])

-- One round of `CheckLoop`.
unfoldable pub check_round : ℕ → List ServerInfo → HealthChecker → HealthChecker × List Event
unfolding observe check_server
check_round now [] hc = (hc, [])
check_round now (server ∷ servers) hc =
    let (hc', events) = observe server.server_id (check_server now server) hc in
    let (hc'', more) = check_round now servers hc' in (hc'', events ++ more)
