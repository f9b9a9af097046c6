-- ===== src/Session/Index.antt =====
-- The index from players to sessions in in_memory_session_store.cpp.
use working_for_codex.Base.{
  ℕ, ◌≡◌, refl, false, Bytes, List, [], ◌∷◌, Option, none, some, bytes_eq, same_iff, arith,
  Option-cases, inl, inr, Bool-cases, subst,
}
use working_for_codex.Base.Dict.{find, erase, put, find-erase, find-put}
use working_for_codex.Session.Store.{
  SessionData, SessionEntry, Store, create, touch, expiry_from, renewed, stale, is_expired, forget,
  save_session, get_session, delete_session, refresh_session, get_session_by_player_id, forget_all,
  expired_ids, clean_expired_sessions, Call, save, get, delete, refresh, by_player, clean, step,
  run,
}

abbrev pub player_of : Option SessionEntry → Option Bytes
player_of none = none
player_of (some entry) = some entry.session.player_id

abbrev pub Owned : Bytes → Option Bytes → Store → Type 0
Owned p none st = Unit
Owned p (some s) st = player_of (find s st.sessions) ≡ some p

-- The session that the index names for a player is stored, and is that player's.
abbrev pub IsIndexed : Store → Type 0
IsIndexed st = (p : Bytes) → Owned p (find p st.player_to_session) st

pub owned :
    (st : Store)
    → IsIndexed st
    → (p s : Bytes) → find p st.player_to_session ≡ some s
    → player_of (find s st.sessions) ≡ some p
owned st v p s e = subst (λ o. Owned p o st) e (v p)

pub indexed :
    (st : Store)
    → ((p s : Bytes)
        → find p st.player_to_session ≡ some s
        → player_of (find s st.sessions) ≡ some p)
    → IsIndexed st
indexed st f p = at (find p st.player_to_session) refl
  where
    at : (o : Option Bytes) → find p st.player_to_session ≡ o → Owned p o st
    at none e = tt
    at (some s) e = f p s e

IsIndexed-create : (ttl : ℕ) → IsIndexed (create ttl)
unfolding create find
IsIndexed-create ttl p = tt

forget-owned :
    (st : Store) (s : Bytes) (entry : SessionEntry)
    → IsIndexed st
    → find s st.sessions ≡ some entry
    → (p t : Bytes) → find p (forget s entry st).player_to_session ≡ some t
    → player_of (find t (forget s entry st).sessions) ≡ some p
unfolding forget
forget-owned st s entry v here p t h = ground (
  arith,
  find-erase entry.session.player_id p st.player_to_session,
  find-erase s t st.sessions,
  same_iff entry.session.player_id p,
  same_iff s t,
  owned st v p t,
)

forget-IsIndexed :
    (st : Store) (s : Bytes) (entry : SessionEntry)
    → IsIndexed st
    → find s st.sessions ≡ some entry
    → IsIndexed (forget s entry st)
forget-IsIndexed st s entry v here = indexed _ (forget-owned st s entry v here)

save-owned :
    (st : Store) (s : Bytes) (d : SessionData) (now : ℕ)
    → IsIndexed st
    → (o : Option SessionEntry) → find s st.sessions ≡ o
    → (p t : Bytes) → find p (save_session s d now st).player_to_session ≡ some t
    → player_of (find t (save_session s d now st).sessions) ≡ some p
unfolding save_session
save-owned st s d now v none here p t h = ground (
  arith,
  find-put d.player_id p s st.player_to_session,
  find-put s t (record { session = d; expiry_time = expiry_from now st.ttl_seconds }) st.sessions,
  same_iff d.player_id p,
  same_iff s t,
  owned st v p t,
)
save-owned st s d now v (some entry) here p t h = ground (
  arith,
  find-put d.player_id p s (erase entry.session.player_id st.player_to_session),
  find-put s t (record { session = d; expiry_time = expiry_from now st.ttl_seconds }) st.sessions,
  find-erase entry.session.player_id p st.player_to_session,
  same_iff entry.session.player_id p,
  same_iff d.player_id p,
  same_iff s t,
  owned st v p t,
)

-- The two outcomes of each call that may drop a session: nothing changes, or one entry is forgotten.
module _ {ℓ} (P : Store → Type ℓ) (st : Store) (s : Bytes) (now : ℕ) (kept : P st)
    (forgotten : (entry : SessionEntry)
      → find s st.sessions ≡ some entry
      → P (forget s entry st)) where
  pub get_cases : P (get_session s now st).0
  unfolding get_session
  get_cases = elim (Option-cases (find s st.sessions)) [
    | inl e ↦ rw (e, get_session) kept
    | inr (entry, e) ↦
        rw (e, get_session)
          (elim (Bool-cases (is_expired now entry)) [
            | inl old ↦ rw old (forgotten entry e)
            | inr live ↦ rw live kept
          ])
  ]

  pub delete_cases : P (delete_session s st).0
  unfolding delete_session
  delete_cases = elim (Option-cases (find s st.sessions)) [
    | inl e ↦ rw (e, delete_session) kept
    | inr (entry, e) ↦ rw (e, delete_session) (forgotten entry e)
  ]

  pub refresh_cases :
      ((entry : SessionEntry)
        → find s st.sessions ≡ some entry
        → is_expired now entry ≡ false
        → P (record st { sessions = put s (renewed now st entry) st.sessions }))
      → P (refresh_session s now st).0
  unfolding refresh_session
  refresh_cases renewal = elim (Option-cases (find s st.sessions)) [
    | inl e ↦ rw (e, refresh_session) kept
    | inr (entry, e) ↦
        rw (e, refresh_session)
          (elim (Bool-cases (is_expired now entry)) [
            | inl old ↦ rw old (forgotten entry e)
            | inr live ↦ rw live (renewal entry e live)
          ])
  ]

refresh-owned :
    (st : Store) (s : Bytes) (now : ℕ)
    → IsIndexed st
    → (entry : SessionEntry) → find s st.sessions ≡ some entry
    → (p t : Bytes) → find p st.player_to_session ≡ some t
    → player_of (find t (put s (renewed now st entry) st.sessions)) ≡ some p
unfolding renewed touch
refresh-owned st s now v entry here p t h =
    ground (arith, find-put s t (renewed now st entry) st.sessions, same_iff s t, owned st v p t)

by_player-owned :
    (st : Store) (q s : Bytes)
    → IsIndexed st
    → find q st.player_to_session ≡ some s
    → (p t : Bytes) → find p (erase q st.player_to_session) ≡ some t
    → player_of (find t (erase s st.sessions)) ≡ some p
by_player-owned st q s v here p t h = ground (
  arith,
  find-erase q p st.player_to_session,
  find-erase s t st.sessions,
  same_iff q p,
  same_iff s t,
  owned st v p t,
  owned st v q s,
)

by_player-IsIndexed :
    (st : Store) (q : Bytes) (now : ℕ)
    → IsIndexed st
    → IsIndexed (get_session_by_player_id q now st).0
unfolding get_session_by_player_id
by_player-IsIndexed st q now v = elim (Option-cases (find q st.player_to_session)) [
  | inl e ↦ rw (e, get_session_by_player_id) v
  | inr (s, e) ↦
      rw (e, get_session_by_player_id)
        (elim (Bool-cases (stale now (find s st.sessions))) [
          | inl old ↦ rw old (indexed _ (by_player-owned st q s v e))
          | inr live ↦ rw live v
        ])
]

forget_all-IsIndexed :
    (ids : List Bytes) (st : Store) → IsIndexed st → IsIndexed (forget_all ids st)
unfolding forget_all
forget_all-IsIndexed [] st v = v
forget_all-IsIndexed (id ∷ ids) st v =
    forget_all-IsIndexed ids _ (elim (Option-cases (find id st.sessions)) [
      | inl e ↦ rw e v
      | inr (entry, e) ↦ rw e (forget-IsIndexed st id entry v e)
    ])

-- Every call that may change the store keeps the index right: the session that it names for a
-- player is stored, and is that player's.
pub step-IsIndexed : (st : Store) (c : ℕ × Call) → IsIndexed st → IsIndexed (step st c)
unfolding step clean_expired_sessions
step-IsIndexed st (now, save s d) v = indexed _ (save-owned st s d now v (find s st.sessions) refl)
step-IsIndexed st (now, get s) v =
    get_cases IsIndexed st s now v (λ entry e. forget-IsIndexed st s entry v e)
step-IsIndexed st (now, delete s) v =
    delete_cases IsIndexed st s now v (λ entry e. forget-IsIndexed st s entry v e)
step-IsIndexed st (now, refresh s) v =
    refresh_cases IsIndexed st s now v (λ entry e. forget-IsIndexed st s entry v e)
      λ entry e live. indexed _ (refresh-owned st s now v entry e)
step-IsIndexed st (now, by_player p) v = by_player-IsIndexed st p now v
step-IsIndexed st (now, clean) v = forget_all-IsIndexed (expired_ids now st.sessions) st v

run_from-IsIndexed : (st : Store) (cs : List (ℕ × Call)) → IsIndexed st → IsIndexed (run st cs)
unfolding run
run_from-IsIndexed st [] v = v
run_from-IsIndexed st (c ∷ cs) v = run_from-IsIndexed (step st c) cs (step-IsIndexed st c v)

-- After any history of calls on a new store, the session that the index names for a player is
-- stored, and is that player's.
pub run-IsIndexed : (ttl : ℕ) (cs : List (ℕ × Call)) → IsIndexed (run (create ttl) cs)
run-IsIndexed ttl cs = run_from-IsIndexed (create ttl) cs (IsIndexed-create ttl)
