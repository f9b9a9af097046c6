-- ===== src/Session/Examples.antt =====
-- in_memory_session_store.cpp run on two players and three sessions.
use working_for_codex.Base.{
  ◌≡◌, refl, ◌≢◌, Bytes, [], ◌∷◌, none, some, codes, same, same-ne, bytes_eq, arith,
}
use working_for_codex.Base.Int.{pos}
use working_for_codex.Base.Dict.{Unique, find, put}
use working_for_codex.Session.Store.{
  SessionData, Store, create, save_session, get_session, save, delete, clean, step, run,
  get_session_by_player_id, get_active_session_count,
}
use working_for_codex.Session.Index.{IsIndexed, run-IsIndexed}
use working_for_codex.Session.View.{seen, expected}
use working_for_codex.Session.Contract.{step-seen}
use working_for_codex.Session.Orphans.{older_deleted, older_deleted-hidden}

abbrev session_of : Bytes → SessionData
session_of p = record {
  player_id = p;
  player_name = p;
  server_id = codes "eu";
  created_at = 0;
  last_activity = 0;
  elo_rating = pos 1200;
  match_id = [];
}

abbrev s1 : Bytes
s1 = codes "s1"

abbrev s2 : Bytes
s2 = codes "s2"

abbrev ann : Bytes
ann = codes "ann"

-- One session of ann's, saved at time 0 for ten seconds.
abbrev one : Store
one = record {
  ttl_seconds = 10;
  sessions = (s1, record { session = session_of ann; expiry_time = pos 10000 }) ∷ [];
  player_to_session = (ann, s1) ∷ [];
}

one_saved : save_session s1 (session_of ann) 0 (create 10) ≡ one
unfolding save_session create put find
one_saved = refl

one_counted : get_active_session_count 10000 one ≡ 1
unfolding get_active_session_count
one_counted = refl

one_expired : get_active_session_count 10001 one ≡ 0
unfolding get_active_session_count
one_expired = refl

-- Saved now for thirty days, ann's session has run out at once: the milliseconds wrap around.
thirty_days :
    (get_session s1 1700000000000
      (save_session s1 (session_of ann) 1700000000000 (create 2592000))).1
    ≡ none
unfolding get_session save_session create find put same
thirty_days = refl

one-Unique : Unique one.sessions
unfolding find
one-Unique = (refl, tt)

run-IsIndexed_example :
    IsIndexed (run (create 10) ((0, save s1 (session_of ann)) ∷ (5, delete s1) ∷ (6, clean) ∷ []))
run-IsIndexed_example =
    run-IsIndexed 10 ((0, save s1 (session_of ann)) ∷ (5, delete s1) ∷ (6, clean) ∷ [])

step-seen_example :
    seen (step one (5000, save s1 (session_of ann))) 15000 s1
    ≡ expected one 5000 (save s1 (session_of ann)) 15000 s1
step-seen_example =
    step-seen one 5000 (save s1 (session_of ann)) 15000 s1 (omega arith) one-Unique (omega arith)

one-IsIndexed : IsIndexed one
unfolding run create put find
one-IsIndexed = run-IsIndexed 10 ((0, save s1 (session_of ann)) ∷ [])

one_found : (get_session_by_player_id ann 5 one).1 ≡ some s1
unfolding get_session_by_player_id find same
one_found = refl

s1-ne-s2 : s1 ≢ s2
unfolding same
s1-ne-s2 = same-ne s1 s2 refl

older_deleted-hidden_example :
    (seen (older_deleted s1 s2 (session_of ann) (session_of ann) 0 (create 10)) 5 s2
      ≡ some (session_of ann))
    × ((get_session_by_player_id ann 5
          (older_deleted s1 s2 (session_of ann) (session_of ann) 0 (create 10))).1
        ≡ none)
unfolding create
older_deleted-hidden_example =
    older_deleted-hidden (create 10) s1 s2 (session_of ann) (session_of ann) 0 5 s1-ne-s2 refl
      (omega arith) (omega arith)
