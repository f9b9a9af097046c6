-- ===== src/Session/View.antt =====
-- What a client of in_memory_session_store.cpp sees: the sessions that `GetSession` returns.
use working_for_codex.Base.{
  ℕ, ◌+◌, ◌*◌, ◌≤◌, ◌≡◌, true, Bytes, Option, none, some, ltb, if◌then◌else◌, ◌==◌, bytes_eq,
  same_iff, arith, Option-cases, inl, inr, Bool-cases,
}
use working_for_codex.Base.Int.{pos, ◌+ℤ◌}
use working_for_codex.Packet.Buffer.{int_of_uint32}
use working_for_codex.Base.Dict.{Dict, find, erase, put, find-erase, find-put}
use working_for_codex.Session.Store.{
  SessionData, SessionEntry, Store, touch, expiry_from, is_expired, forget, save_session,
  get_session, renewed, stale, delete_session, refresh_session, get_session_by_player_id, Call,
  save, get, delete, refresh, by_player, clean,
}

-- The answer of `GetSession` at time t.
unfoldable pub seen : Store → ℕ → Bytes → Option SessionData
unfolding get_session
seen st t k = (get_session k t st).1

abbrev pub fresh : ℕ → Option SessionEntry → Option SessionData
fresh t none = none
fresh t (some entry) = if is_expired t entry then none else some entry.session

pub seen_lem : (st : Store) (t : ℕ) (k : Bytes) → seen st t k ≡ fresh t (find k st.sessions)
unfolding seen
seen_lem st t k = ground arith

abbrev until : ℕ → ℕ → SessionData → Option SessionData
until expiry t d = if ltb expiry t then none else some d

abbrev touched : ℕ → ℕ → ℕ → Option SessionData → Option SessionData
touched now expiry t none = none
touched now expiry t (some d) = until expiry t (touch now d)

-- What each call does to the answers at later times.
abbrev pub expected : Store → ℕ → Call → ℕ → Bytes → Option SessionData
expected st now (save s d) t k =
    if s == k then until (now + st.ttl_seconds * 1000) t d else seen st t k
expected st now (get s) t k = seen st t k
expected st now (delete s) t k = if s == k then none else seen st t k
expected st now (refresh s) t k =
    if s == k then touched now (now + st.ttl_seconds * 1000) t (seen st now s) else seen st t k
expected st now (by_player p) t k = seen st t k
expected st now clean t k = seen st t k

-- 2147483 seconds are the most whose milliseconds an `int` of 32 bits can hold.
pub expiry_from_lem : (now ttl : ℕ) → ttl ≤ 2147483 → expiry_from now ttl ≡ pos (now + ttl * 1000)
unfolding expiry_from int_of_uint32 ◌+ℤ◌
expiry_from_lem now ttl fits = ground arith

pub save-seen :
    (st : Store) (s : Bytes) (d : SessionData) (now t : ℕ) (k : Bytes)
    → st.ttl_seconds ≤ 2147483
    → seen (save_session s d now st) t k ≡ expected st now (save s d) t k
unfolding save_session is_expired
save-seen st s d now t k fits =
    rw (seen_lem (save_session s d now st) t k, seen_lem st t k)
      (ground (
        arith,
        expiry_from_lem now st.ttl_seconds fits,
        find-put s k (record { session = d; expiry_time = expiry_from now st.ttl_seconds })
            st.sessions,
      ))

forget-seen :
    (st : Store) (s : Bytes) (entry : SessionEntry) (t : ℕ) (k : Bytes)
    → seen (forget s entry st) t k ≡ (if s == k then none else seen st t k)
unfolding forget
forget-seen st s entry t k =
    rw (seen_lem (forget s entry st) t k, seen_lem st t k)
      (ground (arith, find-erase s k st.sessions))

-- Forgetting what has run out changes no later answer.
pub forget-seen_old :
    (st : Store) (s : Bytes) (entry : SessionEntry) (now t : ℕ) (k : Bytes)
    → now ≤ t
    → find s st.sessions ≡ some entry
    → is_expired now entry ≡ true
    → seen (forget s entry st) t k ≡ seen st t k
unfolding is_expired
forget-seen_old st s entry now t k later here old =
    rw (forget-seen st s entry t k, seen_lem st t k) (ground (arith, same_iff s k))

-- The cases of `get_cases`, with what is forgotten known to have run out.
pub get-seen :
    (st : Store) (s : Bytes) (now t : ℕ) (k : Bytes)
    → now ≤ t
    → seen (get_session s now st).0 t k ≡ seen st t k
unfolding get_session
get-seen st s now t k later = elim (Option-cases (find s st.sessions)) [
  | inl e ↦ rw (e, get_session)
  | inr (entry, e) ↦
      rw (e, get_session)
        (elim (Bool-cases (is_expired now entry)) [
          | inl old ↦ rw old (forget-seen_old st s entry now t k later e old)
          | inr live ↦ rw live
        ])
]

pub delete-seen :
    (st : Store) (s : Bytes) (t : ℕ) (k : Bytes)
    → seen (delete_session s st).0 t k ≡ (if s == k then none else seen st t k)
unfolding delete_session
delete-seen st s t k = elim (Option-cases (find s st.sessions)) [
  | inl e ↦ rw (e, delete_session) (rw (seen_lem st t k) (ground (arith, same_iff s k)))
  | inr (entry, e) ↦ rw (e, delete_session) (forget-seen st s entry t k)
]

pub refresh-seen :
    (st : Store) (s : Bytes) (now t : ℕ) (k : Bytes)
    → st.ttl_seconds ≤ 2147483
    → now ≤ t
    → seen (refresh_session s now st).0 t k ≡ expected st now (refresh s) t k
unfolding refresh_session is_expired renewed
refresh-seen st s now t k fits later = elim (Option-cases (find s st.sessions)) [
  | inl e ↦
      rw (e, refresh_session)
        (rw (seen_lem st t k, seen_lem st now s) (ground (arith, same_iff s k)))
  | inr (entry, e) ↦
      rw (e, refresh_session)
        (elim (Bool-cases (is_expired now entry)) [
          | inl old ↦
              rw
                (
                  old,
                  forget-seen_old st s entry now t k later e old,
                  seen_lem st t k,
                  seen_lem st now s,
                )
                (ground (arith, same_iff s k))
          | inr live ↦ rw live (
              rw
                (
                  seen_lem (record st { sessions = put s (renewed now st entry) st.sessions }) t k,
                  seen_lem st t k,
                  seen_lem st now s,
                )
                (ground (
                  arith,
                  expiry_from_lem now st.ttl_seconds fits,
                  same_iff s k,
                  find-put s k (renewed now st entry) st.sessions,
                )))
        ])
]

drop_stale-seen :
    (st : Store) (s : Bytes) (index : Dict Bytes Bytes) (now t : ℕ) (k : Bytes)
    → now ≤ t
    → stale now (find s st.sessions) ≡ true
    → seen (record st { sessions = erase s st.sessions; player_to_session = index }) t k
      ≡ seen st t k
unfolding is_expired
drop_stale-seen st s index now t k later old =
    rw
      (
        seen_lem (record st { sessions = erase s st.sessions; player_to_session = index }) t k,
        seen_lem st t k,
      )
      (ground (arith, same_iff s k, find-erase s k st.sessions))

pub by_player-seen :
    (st : Store) (p : Bytes) (now t : ℕ) (k : Bytes)
    → now ≤ t
    → seen (get_session_by_player_id p now st).0 t k ≡ seen st t k
unfolding get_session_by_player_id
by_player-seen st p now t k later = elim (Option-cases (find p st.player_to_session)) [
  | inl e ↦ rw (e, get_session_by_player_id)
  | inr (s, e) ↦
      rw (e, get_session_by_player_id)
        (elim (Bool-cases (stale now (find s st.sessions))) [
          | inl old ↦ rw old (drop_stale-seen st s (erase p st.player_to_session) now t k later old)
          | inr live ↦ rw live
        ])
]
