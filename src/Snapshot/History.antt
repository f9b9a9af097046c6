-- ===== src/Snapshot/History.antt =====
-- The ring of snapshot_manager.cpp against the list of all snapshots that were saved, newest first.
use working_for_codex.Base.{
  ℕ, zero, suc, ◌+◌, ◌-◌, ◌%◌, ◌<◌, ◌≡◌, refl, ap, sym, ◌∙◌, List, [], ◌∷◌, some, length, get_elem?,
  set, get_or, min, arith, length-set, length-replicate,
}
use working_for_codex.Snapshot.Types.{Snapshot}
use working_for_codex.Snapshot.Manager.{
  SnapshotManager, blank, create, save_snapshot, place, stored,
}

get_or-set_self {ℓ} :
    {A : Type ℓ} (xs : List A) (i : ℕ) (v d : A) → i < length xs → get_or (set xs i v) i d ≡ v
get_or-set_self [] i v d h = elim h [ ]
get_or-set_self (x ∷ xs) zero v d h = refl
get_or-set_self (x ∷ xs) (suc i) v d h = get_or-set_self xs i v d (omega arith)

get_or-set_ne {ℓ} :
    {A : Type ℓ} (xs : List A) (i j : ℕ) (v d : A)
    → (i ≡ j → ⊥)
    → get_or (set xs i v) j d ≡ get_or xs j d
get_or-set_ne [] i j v d h = refl
get_or-set_ne (x ∷ xs) zero zero v d h = absurd (h refl)
get_or-set_ne (x ∷ xs) zero (suc j) v d h = refl
get_or-set_ne (x ∷ xs) (suc i) zero v d h = refl
get_or-set_ne (x ∷ xs) (suc i) (suc j) v d h = get_or-set_ne xs i j v d (λ e. h (ap suc e))

module _ {ℓ} {D : Type ℓ} where
  -- The ring keeps the newest 64 of a history, the newest just before the head.
  pub record Keeps (m : SnapshotManager D) (history : List (Snapshot D)) : Type ℓ where
    pub full : length m.buffer ≡ 64
    pub bounded : m.head < 64
    pub counted : m.count ≡ min 64 (length history)
    pub newest : (i : ℕ) → i < m.count → get_elem? history i ≡ some (stored m (place m i))

  create-Keeps : Keeps create []
  unfolding create
  create-Keeps = record {
    full = length-replicate 64 (blank {D = D});
    bounded = omega arith;
    counted = omega arith;
    newest = λ i h. absurd (omega arith);
  }

  module _ (s : Snapshot D) (m : SnapshotManager D) (history : List (Snapshot D))
      (k : Keeps m history) where
    newest-save :
        (i : ℕ)
        → i < (save_snapshot s m).count
        → get_elem? (s ∷ history) i
          ≡ some (stored (save_snapshot s m) (place (save_snapshot s m) i))
    unfolding save_snapshot stored place
    newest-save zero h =
        let e : ((m.head + 1) % 64 + 64 - 1 - 0) % 64 ≡ m.head = omega (arith, k.bounded) in
        rw e (
          ap some
            (sym (get_or-set_self m.buffer m.head s blank (omega (arith, k.full, k.bounded)))))
    newest-save (suc i) h =
        let e : ((m.head + 1) % 64 + 64 - 1 - suc i) % 64 ≡ (m.head + 64 - 1 - i) % 64 =
          ground (arith, k.bounded, k.counted) in
        let ne : m.head ≡ (m.head + 64 - 1 - i) % 64 → ⊥ =
          λ f. ground (arith, k.bounded, k.counted, f) in
        rw e (
          k.newest i (ground (arith, k.counted))
          ∙ ap some (sym (get_or-set_ne m.buffer m.head ((m.head + 64 - 1 - i) % 64) s blank ne)))

    save_snapshot-Keeps : Keeps (save_snapshot s m) (s ∷ history)
    unfolding save_snapshot
    save_snapshot-Keeps = record {
      full = length-set m.buffer m.head s ∙ k.full;
      bounded = omega arith;
      counted = ground (arith, k.counted);
      newest = newest-save;
    }

  -- The ring after a history of calls of `SaveSnapshot`, newest first.
  unfoldable pub save_all : List (Snapshot D) → SnapshotManager D
  unfolding create save_snapshot
  save_all [] = create
  save_all (s ∷ history) = save_snapshot s (save_all history)

  pub save_all-Keeps : (history : List (Snapshot D)) → Keeps (save_all history) history
  unfolding save_all
  save_all-Keeps [] = create-Keeps
  save_all-Keeps (s ∷ history) =
      save_snapshot-Keeps s (save_all history) history (save_all-Keeps history)
