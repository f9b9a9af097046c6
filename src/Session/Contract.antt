-- ===== src/Session/Contract.antt =====
-- What in_memory_session_store.cpp promises: `GetSession` against every call, and the two lookups
-- beside it.
use working_for_codex.Base.{
  ℕ, ◌≤◌, ◌≡◌, refl, Bool, false, Bytes, List, [], ◌∷◌, Option, none, some, ◌==◌, bytes_eq,
  same_iff, ◌↔◌, arith, Option-cases, inl, inr, Bool-cases, ◌||◌,
}
use working_for_codex.Base.Dict.{Dict, find, Unique, erase-Unique, put-Unique}
use working_for_codex.Session.Store.{
  SessionData, SessionEntry, Store, is_expired, forget, save_session, stale,
  get_session_by_player_id, forget_all, expired_ids, clean_expired_sessions, Call, save, get,
  delete, refresh, by_player, clean, step, live_ids, get_all_session_ids, session_exists,
  exists_found,
}
use working_for_codex.Session.Index.{get_cases, delete_cases, refresh_cases, IsIndexed, owned}
use working_for_codex.Session.View.{
  seen, seen_lem, expected, save-seen, get-seen, delete-seen, refresh-seen, by_player-seen,
}
use working_for_codex.Session.Cleanup.{clean-seen}

-- Against the answers of `GetSession` at the time of the call or later, each call does what its
-- contract says: a save gives its session until its time to live has passed, a delete removes
-- its session, a refresh renews its session if that is live, and the lazy and periodic removals
-- show in no answer. The keys of the session map must be distinct, and the time to live at most
-- 2147483 seconds, above which its milliseconds do not fit in an `int` of 32 bits.
pub step-seen :
    (st : Store) (now : ℕ) (c : Call) (t : ℕ) (k : Bytes)
    → st.ttl_seconds ≤ 2147483
    → Unique st.sessions
    → now ≤ t
    → seen (step st (now, c)) t k ≡ expected st now c t k
unfolding step
step-seen st now (save s d) t k fits u later = save-seen st s d now t k fits
step-seen st now (get s) t k fits u later = get-seen st s now t k later
step-seen st now (delete s) t k fits u later = delete-seen st s t k
step-seen st now (refresh s) t k fits u later = refresh-seen st s now t k fits later
step-seen st now (by_player p) t k fits u later = by_player-seen st p now t k later
step-seen st now clean t k fits u later = clean-seen now t k later st u

forget_all-Unique :
    (ids : List Bytes) (st : Store) → Unique st.sessions → Unique (forget_all ids st).sessions
unfolding forget_all forget
forget_all-Unique [] st u = u
forget_all-Unique (id ∷ ids) st u =
    forget_all-Unique ids _ (elim (Option-cases (find id st.sessions)) [
      | inl e ↦ rw e u
      | inr (entry, e) ↦ rw e (erase-Unique id st.sessions u)
    ])

by_player-Unique :
    (st : Store) (p : Bytes) (now : ℕ)
    → Unique st.sessions
    → Unique (get_session_by_player_id p now st).0.sessions
unfolding get_session_by_player_id
by_player-Unique st p now u = elim (Option-cases (find p st.player_to_session)) [
  | inl e ↦ rw (e, get_session_by_player_id) u
  | inr (s, e) ↦
      rw (e, get_session_by_player_id)
        (elim (Bool-cases (stale now (find s st.sessions))) [
          | inl old ↦ rw old (erase-Unique s st.sessions u)
          | inr live ↦ rw live u
        ])
]

-- Every call keeps the keys of the session map distinct.
pub step-Unique : (st : Store) (c : ℕ × Call) → Unique st.sessions → Unique (step st c).sessions
unfolding step clean_expired_sessions save_session forget
step-Unique st (now, save s d) u = put-Unique s _ st.sessions u
step-Unique st (now, get s) u =
    get_cases (λ q. Unique q.sessions) st s now u (λ entry e. erase-Unique s st.sessions u)
step-Unique st (now, delete s) u =
    delete_cases (λ q. Unique q.sessions) st s now u (λ entry e. erase-Unique s st.sessions u)
step-Unique st (now, refresh s) u =
    refresh_cases (λ q. Unique q.sessions) st s now u (λ entry e. erase-Unique s st.sessions u)
      λ entry e live. put-Unique s _ st.sessions u
step-Unique st (now, by_player p) u = by_player-Unique st p now u
step-Unique st (now, clean) u = forget_all-Unique (expired_ids now st.sessions) st u

-- When the index names for each player a stored session of that player's, the session that is
-- found for a player is a live session of that player's.
pub by_player_sound :
    (st : Store) (p s : Bytes) (now : ℕ)
    → IsIndexed st
    → (get_session_by_player_id p now st).1 ≡ some s
    → (d : SessionData) × (seen st now s ≡ some d) × (d.player_id ≡ p)
unfolding get_session_by_player_id is_expired
by_player_sound st p s now v h = by_entry (find s st.sessions) refl
  where
    named : find p st.player_to_session ≡ some s
    named = ground arith

    by_entry :
        (o : Option SessionEntry)
        → find s st.sessions ≡ o
        → (d : SessionData) × (seen st now s ≡ some d) × (d.player_id ≡ p)
    by_entry none e = cc (owned st v p s named)
    by_entry (some entry) e =
        (entry.session, rw (seen_lem st now s) (ground arith), ground (arith, owned st v p s named))

abbrev pub listed : Bytes → List Bytes → Bool
listed k [] = false
listed k (id ∷ ids) = (id == k) || listed k ids

live_ids-listed :
    (now : ℕ) (k : Bytes) (m : Dict Bytes SessionEntry)
    → Unique m
    → listed k (live_ids now m) ≡ exists_found now (find k m)
unfolding live_ids find is_expired
live_ids-listed now k [] u = refl
live_ids-listed now k ((id, entry) ∷ m) u =
    ground (arith, live_ids-listed now k m u.1, same_iff id k)

-- A session id is in the list of all sessions exactly when the session exists, which is when
-- `GetSession` returns it. The keys of the session map must be distinct.
pub get_all_session_ids-session_exists :
    (st : Store) (now : ℕ) (k : Bytes)
    → Unique st.sessions
    → (listed k (get_all_session_ids now st) ≡ session_exists k now st)
      × ((session_exists k now st ≡ false) ↔ (seen st now k ≡ none))
unfolding get_all_session_ids session_exists is_expired
get_all_session_ids-session_exists st now k u =
    (live_ids-listed now k st.sessions u, rw (seen_lem st now k) (ground arith))
