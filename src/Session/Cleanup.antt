-- ===== src/Session/Cleanup.antt =====
-- The periodic cleanup of in_memory_session_store.cpp.
use working_for_codex.Base.{
  ℕ, ◌≤◌, ◌≡◌, refl, ◌∙◌, true, Bytes, List, [], ◌∷◌, none, some, bytes_eq, same_iff, same_refl,
  subst, arith, Option-cases, inl, inr, Bool-cases,
}
use working_for_codex.Base.Dict.{Dict, find, erase, find-erase, Unique}
use working_for_codex.Session.Store.{
  SessionEntry, Store, is_expired, forget, stale, forget_all, expired_ids, clean_expired_sessions,
}
use working_for_codex.Session.View.{seen, forget-seen_old}

-- Each of the ids stands for an entry that has run out.
abbrev Expired : ℕ → Dict Bytes SessionEntry → List Bytes → Type 0
Expired now m [] = Unit
Expired now m (id ∷ ids) =
    ((entry : SessionEntry) × (find id m ≡ some entry) × (is_expired now entry ≡ true))
    × Expired now m ids

Expired-weaken :
    (now : ℕ) (k : Bytes) (entry : SessionEntry) (m : Dict Bytes SessionEntry) (ids : List Bytes)
    → find k m ≡ none
    → Expired now m ids
    → Expired now ((k, entry) ∷ m) ids
unfolding find
Expired-weaken now k entry m [] absent x = tt
Expired-weaken now k entry m (id ∷ ids) absent x =
    ((x.0.0, ground (arith, same_iff k id), x.0.2), Expired-weaken now k entry m ids absent x.1)

expired_ids-Expired :
    (now : ℕ) (m : Dict Bytes SessionEntry) → Unique m → Expired now m (expired_ids now m)
unfolding expired_ids
expired_ids-Expired now [] u = tt
expired_ids-Expired now ((k, entry) ∷ m) u =
    let rest =
      Expired-weaken now k entry m (expired_ids now m) u.0 (expired_ids-Expired now m u.1) in
    elim (Bool-cases (is_expired now entry)) [
      | inl old ↦ rw old ((entry, unfold find in rw (same_refl k), old), rest)
      | inr live ↦ rw live rest
    ]

abbrev AllStale : ℕ → Dict Bytes SessionEntry → List Bytes → Type 0
AllStale now m [] = Unit
AllStale now m (id ∷ ids) = (stale now (find id m) ≡ true) × AllStale now m ids

Expired-AllStale :
    (now : ℕ) (m : Dict Bytes SessionEntry) (ids : List Bytes)
    → Expired now m ids
    → AllStale now m ids
Expired-AllStale now m [] x = tt
Expired-AllStale now m (id ∷ ids) x = (rw x.0.1 x.0.2, Expired-AllStale now m ids x.1)

AllStale-erase :
    (now : ℕ) (m : Dict Bytes SessionEntry) (s : Bytes) (ids : List Bytes)
    → AllStale now m ids
    → AllStale now (erase s m) ids
AllStale-erase now m s [] x = tt
AllStale-erase now m s (id ∷ ids) x =
    (rw (find-erase s id m) (ground arith), AllStale-erase now m s ids x.1)

module _ (now t : ℕ) (k : Bytes) (later : now ≤ t) where
  forget_all-seen :
      (ids : List Bytes) (st : Store)
      → AllStale now st.sessions ids
      → seen (forget_all ids st) t k ≡ seen st t k
  unfolding forget_all
  forget_all-seen [] st x = refl
  forget_all-seen (id ∷ ids) st x = elim (Option-cases (find id st.sessions)) [
    | inl e ↦ rw e (forget_all-seen ids st x.1)
    | inr (entry, e) ↦ rw e (
        forget_all-seen ids (forget id entry st)
          (unfold forget in AllStale-erase now st.sessions id ids x.1)
        ∙ forget-seen_old st id entry now t k later e (subst (λ o. stale now o ≡ true) e x.0))
  ]

  pub clean-seen :
      (st : Store) → Unique st.sessions → seen (clean_expired_sessions now st) t k ≡ seen st t k
  unfolding clean_expired_sessions
  clean-seen st u = forget_all-seen (expired_ids now st.sessions) st (
      Expired-AllStale now st.sessions (expired_ids now st.sessions)
        (expired_ids-Expired now st.sessions u))
