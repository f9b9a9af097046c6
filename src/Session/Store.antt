-- ===== src/Session/Store.antt =====
-- server/src/storage/in_memory_session_store.cpp and session_store.{h,cpp}. A call takes the time
-- that it reads from the clock, in milliseconds of the epoch. A `std::string` is its bytes.
use working_for_codex.Base.{
  ℕ, ◌+◌, ◌*◌, ◌%◌, ◌^◌, Bool, true, false, not, Bytes, List, [], ◌∷◌, Option, none, some,
  if◌then◌else◌, bytes_eq,
}
use working_for_codex.Base.Int.{ℤ, pos, ◌+ℤ◌, ltb_ℤ, leb_ℤ}
use working_for_codex.Base.Dict.{Dict, find, erase, put}
use working_for_codex.Packet.Buffer.{int_of_uint32}

pub record SessionData : Type 0 where
  pub player_id : Bytes
  pub player_name : Bytes
  pub server_id : Bytes
  pub created_at : ℕ
  pub last_activity : ℕ
  pub elo_rating : ℤ
  pub match_id : Bytes

pub record SessionEntry : Type 0 where
  pub session : SessionData
  pub expiry_time : ℤ

pub record Store : Type 0 where
  pub ttl_seconds : ℕ
  pub sessions : Dict Bytes SessionEntry
  pub player_to_session : Dict Bytes Bytes

unfoldable pub create : ℕ → Store
create ttl = record { ttl_seconds = ttl; sessions = []; player_to_session = [] }

unfoldable pub touch : ℕ → SessionData → SessionData
touch now d = record d { last_activity = now }

-- `GetCurrentTimestamp() + (ttl_seconds_ * 1000)`. The product is an `int` of 32 bits: past its
-- bounds, where C++ leaves it undefined, it wraps around. The sum has 64 bits.
unfoldable pub expiry_from : ℕ → ℕ → ℤ
unfolding int_of_uint32 ◌+ℤ◌
expiry_from now ttl = pos now +ℤ int_of_uint32 (ttl * 1000 % 2 ^ 32)

unfoldable pub is_expired : ℕ → SessionEntry → Bool
is_expired now entry = ltb_ℤ entry.expiry_time (pos now)

-- `player_to_session_.erase(it->second.data.player_id); sessions_.erase(it);`
unfoldable pub forget : Bytes → SessionEntry → Store → Store
forget session_id entry st = record st {
  sessions = erase session_id st.sessions;
  player_to_session = erase entry.session.player_id st.player_to_session;
}

abbrev unindex : Option SessionEntry → Dict Bytes Bytes → Dict Bytes Bytes
unindex none index = index
unindex (some entry) index = erase entry.session.player_id index

unfoldable pub save_session : Bytes → SessionData → ℕ → Store → Store
unfolding expiry_from
save_session session_id d now st =
    let entry : SessionEntry = record {
      session = d;
      expiry_time = expiry_from now st.ttl_seconds;
    } in
    let index = unindex (find session_id st.sessions) st.player_to_session in
    record st {
      sessions = put session_id entry st.sessions;
      player_to_session = put d.player_id session_id index;
    }

abbrev get_found : Bytes → ℕ → Store → Option SessionEntry → Store × Option SessionData
get_found session_id now st none = (st, none)
get_found session_id now st (some entry) =
    if is_expired now entry then (forget session_id entry st, none) else (st, some entry.session)

unfoldable pub get_session : Bytes → ℕ → Store → Store × Option SessionData
unfolding is_expired forget
get_session session_id now st = get_found session_id now st (find session_id st.sessions)

abbrev delete_found : Bytes → Store → Option SessionEntry → Store × Bool
delete_found session_id st none = (st, false)
delete_found session_id st (some entry) = (forget session_id entry st, true)

unfoldable pub delete_session : Bytes → Store → Store × Bool
unfolding forget
delete_session session_id st = delete_found session_id st (find session_id st.sessions)

unfoldable pub renewed : ℕ → Store → SessionEntry → SessionEntry
unfolding touch expiry_from
renewed now st entry = record {
  session = touch now entry.session;
  expiry_time = expiry_from now st.ttl_seconds;
}

abbrev refresh_found : Bytes → ℕ → Store → Option SessionEntry → Store × Bool
refresh_found session_id now st none = (st, false)
refresh_found session_id now st (some entry) =
    if is_expired now entry
    then (forget session_id entry st, false)
    else (record st { sessions = put session_id (renewed now st entry) st.sessions }, true)

unfoldable pub refresh_session : Bytes → ℕ → Store → Store × Bool
unfolding is_expired forget touch renewed
refresh_session session_id now st = refresh_found session_id now st (find session_id st.sessions)

unfoldable pub live_ids : ℕ → Dict Bytes SessionEntry → List Bytes
live_ids now [] = []
live_ids now ((id, entry) ∷ m) =
    let rest = live_ids now m in if leb_ℤ (pos now) entry.expiry_time then id ∷ rest else rest

unfoldable pub get_all_session_ids : ℕ → Store → List Bytes
unfolding live_ids
get_all_session_ids now st = live_ids now st.sessions

count_live : ℕ → Dict Bytes SessionEntry → ℕ
count_live now [] = 0
count_live now ((id, entry) ∷ m) =
    let rest = count_live now m in if leb_ℤ (pos now) entry.expiry_time then rest + 1 else rest

unfoldable pub get_active_session_count : ℕ → Store → ℕ
unfolding count_live
get_active_session_count now st = count_live now st.sessions

abbrev pub stale : ℕ → Option SessionEntry → Bool
stale now none = true
stale now (some entry) = is_expired now entry

abbrev by_player_found : Bytes → ℕ → Store → Option Bytes → Store × Option Bytes
by_player_found player_id now st none = (st, none)
by_player_found player_id now st (some session_id) =
    if stale now (find session_id st.sessions)
    then (
      record st {
        sessions = erase session_id st.sessions;
        player_to_session = erase player_id st.player_to_session;
      },
      none,
    )
    else (st, some session_id)

unfoldable pub get_session_by_player_id : Bytes → ℕ → Store → Store × Option Bytes
unfolding is_expired
get_session_by_player_id player_id now st =
    by_player_found player_id now st (find player_id st.player_to_session)

abbrev pub exists_found : ℕ → Option SessionEntry → Bool
exists_found now none = false
exists_found now (some entry) = not (is_expired now entry)

unfoldable pub session_exists : Bytes → ℕ → Store → Bool
unfolding is_expired
session_exists session_id now st = exists_found now (find session_id st.sessions)

unfoldable pub expired_ids : ℕ → Dict Bytes SessionEntry → List Bytes
unfolding is_expired
expired_ids now [] = []
expired_ids now ((id, entry) ∷ m) =
    let rest = expired_ids now m in if is_expired now entry then id ∷ rest else rest

abbrev pub forget_found : Bytes → Option SessionEntry → Store → Store
forget_found id none st = st
forget_found id (some entry) st = forget id entry st

unfoldable pub forget_all : List Bytes → Store → Store
forget_all [] st = st
forget_all (id ∷ ids) st = forget_all ids (forget_found id (find id st.sessions) st)

unfoldable pub clean_expired_sessions : ℕ → Store → Store
unfolding expired_ids forget_all forget
clean_expired_sessions now st = forget_all (expired_ids now st.sessions) st

-- The calls of the interface that may change the store, and one step of it at a time.
pub data Call : Type 0 where
  save : Bytes → SessionData → Call
  get : Bytes → Call
  delete : Bytes → Call
  refresh : Bytes → Call
  by_player : Bytes → Call
  clean : Call

unfoldable pub step : Store → ℕ × Call → Store
unfolding save_session get_session delete_session refresh_session get_session_by_player_id
    clean_expired_sessions
step st (now, save s d) = save_session s d now st
step st (now, get s) = (get_session s now st).0
step st (now, delete s) = (delete_session s st).0
step st (now, refresh s) = (refresh_session s now st).0
step st (now, by_player p) = (get_session_by_player_id p now st).0
step st (now, clean) = clean_expired_sessions now st

unfoldable pub run : Store → List (ℕ × Call) → Store
unfolding step
run st [] = st
run st (c ∷ cs) = run (step st c) cs
