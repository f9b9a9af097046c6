-- ===== src/Lib.antt =====
-- A model of the game server under cpp-pvp-server/server, by component.
--
-- Parts and files (paths from the repository's root, below cpp-pvp-server/server):
--   Packet: src/network/packet_types.cpp, the datagrams. Buffer has the big-endian readers and
--   writers, Types the packets; a reader that throws returns an error value. A float is the
--   pattern of its bits.
--   Session: src/storage/in_memory_session_store.cpp. Store has `InMemorySessionStore`, its map of
--   sessions and its index by player; a call takes the time that it reads from the clock.
--   Ban: src/anticheat/ban_service.cpp. Service has `BanService`: the records of each player, and
--   the bans of hardware and addresses.
--   Ring: src/distributed/consistent_hash.cpp. Hash has `ConsistentHashRing`, with FNV-1a modulo 2
--   ^ 64; an iterator of the map is the index of its entry. Distribution has `GetDistribution`.
--   Balancer: src/distributed/load_balancer.cpp. Pool has `LoadBalancer`, which holds a ring and
--   the registered servers, and picks a server for a player by one of three strategies.
--   Health: src/distributed/service_discovery.cpp. Checker has a round of
--   `HealthChecker::CheckLoop`, which counts failed checks and marks the servers of the balancer.
--   Matching: src/matchmaking. Request has the tolerance of a waiting player, Queue the buckets
--   and the index of `InMemoryMatchQueue`, Maker `Matchmaker` with `RunMatching` and its counters.
--   Input: src/netcode/input_buffer.cpp. Buffer has `InputBuffer`, the inputs by sequence number.
--   Snapshot: src/network/snapshot_manager.cpp. Types has snapshots and deltas with their bytes,
--   Manager `SnapshotManager`, a ring of 64 places, and Deltas what goes over the wire between two
--   snapshots. History, Recall, Wire, Size, Changes, Patch, Follow and Tracking are about them.
--   Game: src/game. Combat has health and the log, Projectile the projectiles, Session and Tick
--   `GameSession`: inputs, and a tick, in which projectiles fly and hit. Snapshots are taken of
--   its players, and Stats reads its log.
--   Stats: src/stats/match_stats.cpp and src/stats/player_profile_service.cpp. Collector has
--   `MatchStatsCollector`, Profiles `PlayerProfileService`, which adds up results and feeds the
--   leaderboard.
--   Netcode: the rest of src/netcode. Prediction has `ClientPrediction` and `Reconciliation`,
--   Rewind `LagCompensation`, which interpolates players as the snapshots do.
--   Leaderboard: src/stats/leaderboard_store.cpp. Store has `InMemoryLeaderboardStore`, the scores
--   and the map from scores to players.
-- Base has what these share: tests on numbers, lists, byte strings, dictionaries, signed
-- integers, and Real, the operations on `double` and `float`, which are parameters: nothing is
-- said of rounding, and the one law that a theorem takes is that a float has 32 bits.
--
-- State is passed explicitly: an operation takes the state and returns the next one with its
-- result. The session store, the balancer, the matchmaker, its channel, the profile service, the
-- game session and the snapshot manager hold a mutex while a call works on their state, so that a
-- history is a list of calls; the health checker takes the mutex anew for each server. The hash
-- ring, the match queue and the leaderboard are called by such an owner. The ban service, the
-- input buffer, prediction and lag compensation hold no mutex: they are modelled as called from
-- one thread at a time. A hash map is a list of its entries, whose order stands for the order of
-- iteration; the sorted containers keep their order. Times are natural numbers in the unit of the
-- clock, and in nanoseconds where the code computes with seconds in doubles.
--
-- Bounds and fuel: hashes, counters and the round robin index wrap around at 2 ^ 64; the
-- milliseconds of a session's time to live, which is not negative, are an `int` of 32 bits, whose
-- overflow C++ leaves undefined and which wraps around here. Arithmetic on the `int`s of ratings,
-- scores, connections, failed checks and a player's counters is taken not to overflow. Only the
-- loop of `GetNodes` runs on fuel, one round for each entry of the ring and one more, and it is
-- shown to end. The other loops go down a list or a number.
--
-- Not modelled: sockets, threads and timers, metrics text, the clients of Redis and PostgreSQL, the
-- checks of movement and hits in anti-cheat, the format of hardware ids, the
-- smoothing of a correction, and the JSON texts of sessions, servers and profiles.
pub mod Base
pub mod Packet
pub mod Game
pub mod Snapshot
pub mod Session
pub mod Ban
pub mod Ring
pub mod Balancer
pub mod Health
pub mod Matching
pub mod Input
pub mod Leaderboard
pub mod Stats
pub mod Netcode
