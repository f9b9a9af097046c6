-- ===== src/Session/Orphans.antt =====
-- A player with two sessions in in_memory_session_store.cpp.
use working_for_codex.Base.{
  ℕ, ◌+◌, ◌*◌, ◌≤◌, ◌≡◌, ◌≢◌, Bytes, none, some, bytes_eq, same_iff, same_refl, sym, subst, arith,
}
use working_for_codex.Base.Dict.{find, find-erase, find-put}
use working_for_codex.Session.Store.{
  SessionData, SessionEntry, Store, save_session, delete_session, get_session_by_player_id, forget,
  is_expired, expiry_from,
}
use working_for_codex.Session.View.{seen, seen_lem, expiry_from_lem}

-- The older of a player's two sessions is deleted.
unfoldable pub older_deleted : Bytes → Bytes → SessionData → SessionData → ℕ → Store → Store
unfolding save_session delete_session
older_deleted old new d e now st =
    (delete_session old (save_session new e now (save_session old d now st))).0

delete-forget :
    (st : Store) (s : Bytes) (entry : SessionEntry)
    → find s st.sessions ≡ some entry
    → (delete_session s st).0 ≡ forget s entry st
unfolding delete_session
delete-forget st s entry e = rw (e, delete_session)

absent-by_player :
    (st : Store) (p : Bytes) (t : ℕ)
    → find p st.player_to_session ≡ none
    → (get_session_by_player_id p t st).1 ≡ none
unfolding get_session_by_player_id
absent-by_player st p t e = ground arith

module _ (st : Store) (old new : Bytes) (d e : SessionData) (now t : ℕ) (apart : old ≢ new) where
  first : Store
  first = save_session old d now st

  both : Store
  both = save_session new e now first

  entry_of : SessionData → SessionEntry
  entry_of x = record { session = x; expiry_time = expiry_from now st.ttl_seconds }

  old_stored : find old both.sessions ≡ some (entry_of d)
  unfolding first both entry_of save_session
  old_stored = ground (
    arith,
    find-put new old (entry_of e) first.sessions,
    find-put old old (entry_of d) st.sessions,
    same_iff new old,
    same_refl old,
    apart,
  )

  new_stored : find new both.sessions ≡ some (entry_of e)
  unfolding first both entry_of save_session
  new_stored = ground (arith, find-put new new (entry_of e) first.sessions, same_refl new)

  deleted : older_deleted old new d e now st ≡ forget old (entry_of d) both
  unfolding older_deleted both first
  deleted = delete-forget both old (entry_of d) old_stored

  new-seen :
      st.ttl_seconds ≤ 2147483
      → t ≤ now + st.ttl_seconds * 1000
      → seen (older_deleted old new d e now st) t new ≡ some e
  unfolding forget is_expired entry_of
  new-seen fits live =
      rw (deleted, seen_lem (forget old (entry_of d) both) t new)
        (ground (
          arith,
          expiry_from_lem now st.ttl_seconds fits,
          find-erase old new both.sessions,
          new_stored,
          same_iff old new,
          apart,
        ))

  new-hidden : (get_session_by_player_id d.player_id t (older_deleted old new d e now st)).1 ≡ none
  unfolding forget entry_of
  new-hidden = rw deleted (
      absent-by_player (forget old (entry_of d) both) d.player_id t (
        ground (
          arith,
          find-erase d.player_id d.player_id both.player_to_session,
          same_refl d.player_id,
        )))

-- When a player has saved a second session under another id, deleting the first one takes the
-- second, which until its time to live has passed is still returned by its id, out of the index:
-- it is no longer found by the player. The time to live is at most 2147483 seconds.
pub older_deleted-hidden :
    (st : Store) (old new : Bytes) (d e : SessionData) (now t : ℕ)
    → old ≢ new
    → e.player_id ≡ d.player_id
    → st.ttl_seconds ≤ 2147483
    → t ≤ now + st.ttl_seconds * 1000
    → (seen (older_deleted old new d e now st) t new ≡ some e)
      × ((get_session_by_player_id e.player_id t (older_deleted old new d e now st)).1 ≡ none)
older_deleted-hidden st old new d e now t apart same_player fits live = (
  new-seen st old new d e now t apart fits live,
  subst (λ q. (get_session_by_player_id q t (older_deleted old new d e now st)).1 ≡ none)
      (sym same_player) (new-hidden st old new d e now t apart),
)
