-- ===== src/Snapshot/Recall.antt =====
-- The look-ups of snapshot_manager.cpp against the history of what was saved, newest first.
use working_for_codex.Base.{
  ℕ, zero, suc, ◌+◌, ◌-◌, ◌%◌, ◌<◌, ◌≡◌, refl, ap, ◌∙◌, List, [], ◌∷◌, Option, none, some,
  if◌then◌else◌, leb, nat_beq, length, get_elem?, take, drop, min, arith, false,
}
use working_for_codex.Base.Real.{Real}
use working_for_codex.Snapshot.Types.{Snapshot}
use working_for_codex.Snapshot.Manager.{
  SnapshotManager, place, stored, find_from, find_index, stored_at, get_snapshot,
  get_latest_snapshot, buffered_count, at_from, get_snapshot_at, interpolate,
}
use working_for_codex.Snapshot.History.{Keeps, save_all, save_all-Keeps}

module _ {ℓ} {D : Type ℓ} where
  -- What the queries mean on the history.
  unfoldable pub first_with : ℕ → List (Snapshot D) → Option (Snapshot D)
  first_with sequence [] = none
  first_with sequence (s ∷ h) =
      if nat_beq s.sequence sequence then some s else first_with sequence h

  drop-get_elem :
      (h : List (Snapshot D)) (i : ℕ) (s : Snapshot D)
      → get_elem? h i ≡ some s
      → drop i h ≡ s ∷ drop (suc i) h
  drop-get_elem [] i s e = cc
  drop-get_elem (x ∷ h) zero s e = ground (arith, e)
  drop-get_elem (x ∷ h) (suc i) s e = drop-get_elem h i s e

  take-min : (n : ℕ) (h : List (Snapshot D)) → take (min n (length h)) h ≡ take n h
  take-min zero h = let e : min zero (length h) ≡ zero = omega arith in rw e refl
  take-min (suc n) [] = let e : min (suc n) zero ≡ zero = omega arith in rw e refl
  take-min (suc n) (s ∷ h) =
      let e : min (suc n) (suc (length h)) ≡ suc (min n (length h)) = omega arith in
      rw e (ap (λ l. s ∷ l) (take-min n h))

  module _ (m : SnapshotManager D) (history : List (Snapshot D)) (k : Keeps m history) where
    step :
        (n i : ℕ)
        → i + suc n ≡ m.count
        → take (suc n) (drop i history) ≡ stored m (place m i) ∷ take n (drop (suc i) history)
    step n i e = rw (drop-get_elem history i (stored m (place m i)) (k.newest i (omega arith))) refl

    find_from-first_with :
        (n i sequence : ℕ)
        → i + n ≡ m.count
        → stored_at m (find_from n i sequence m) ≡ first_with sequence (take n (drop i history))
    unfolding find_from first_with
    find_from-first_with zero i sequence e = refl
    find_from-first_with (suc n) i sequence e =
        let next : i + 1 ≡ suc i = omega arith in
        let rest = find_from-first_with n (suc i) sequence (omega arith) in
        rw (step n i e, next) (ground (arith, rest))

    kept-take : take m.count (drop 0 history) ≡ take 64 history
    kept-take = rw k.counted (take-min 64 history)

  -- After any history of saves a sequence number is looked up to the newest snapshot that has it among
  -- the last 64 saved, and to nothing when none of them has it.
  pub get_snapshot-save_all :
      (sequence : ℕ) (history : List (Snapshot D))
      → get_snapshot sequence (save_all history) ≡ first_with sequence (take 64 history)
  unfolding get_snapshot find_index
  get_snapshot-save_all sequence history =
      let m = save_all history in
      let k = save_all-Keeps history in
      find_from-first_with m history k m.count 0 sequence (omega arith)
      ∙ ap (first_with sequence) (kept-take m history k)

  -- After any history of saves the latest snapshot is the last one saved, if there is one, and the
  -- count is the number of saves but at most 64.
  pub get_latest_snapshot-save_all :
      (history : List (Snapshot D))
      → (get_latest_snapshot (save_all history) ≡ get_elem? history 0)
        × (buffered_count (save_all history) ≡ min 64 (length history))
  unfolding get_latest_snapshot buffered_count place
  get_latest_snapshot-save_all [] =
      let k = save_all-Keeps {D = D} [] in (ground (arith, k.counted), k.counted)
  get_latest_snapshot-save_all (s ∷ h) =
      let k = save_all-Keeps (s ∷ h) in
      (ground (arith, k.counted, k.newest 0 (omega (arith, k.counted))), k.counted)

module _ {ℓ} {D : Type ℓ} ⦃r : Real D⦄ where
  -- A time is looked up from the newest snapshot back; the newer neighbour is known, but for the first.
  unfoldable pub view_from : ℕ → Option (Snapshot D) → List (Snapshot D) → Option (Snapshot D)
  unfolding interpolate
  view_from timestamp newer [] = newer
  view_from timestamp none (s ∷ h) =
      if leb s.timestamp timestamp then some s else view_from timestamp (some s) h
  view_from timestamp (some n) (s ∷ h) =
      if leb s.timestamp timestamp
      then some (interpolate timestamp s n)
      else view_from timestamp (some s) h

  newer_at : SnapshotManager D → ℕ → Option (Snapshot D)
  newer_at m zero = none
  newer_at m (suc j) = some (stored m (place m j))

  module _ (m : SnapshotManager D) (history : List (Snapshot D)) (k : Keeps m history)
      (timestamp : ℕ) where
    at_from-view_from :
        (n i : ℕ)
        → i + n ≡ m.count
        → 0 < m.count
        → some (at_from n i timestamp m)
          ≡ view_from timestamp (newer_at m i) (take n (drop i history))
    unfolding at_from view_from newer_at place
    at_from-view_from zero zero e some_saved = absurd (omega arith)
    at_from-view_from zero (suc j) e some_saved =
        let p : (m.head + 64 - m.count) % 64 ≡ (m.head + 64 - 1 - j) % 64 =
          omega (arith, k.bounded, k.counted) in
        rw p refl
    at_from-view_from (suc n) zero e some_saved =
        let rest = at_from-view_from n 1 (omega arith) some_saved in
        rw (step m history k n 0 e) (ground (arith, rest))
    at_from-view_from (suc n) (suc j) e some_saved =
        let next : suc j + 1 ≡ suc (suc j) = omega arith in
        let back : ((m.head + 64 - 1 - suc j) % 64 + 1) % 64 ≡ (m.head + 64 - 1 - j) % 64 =
          omega (arith, k.bounded, k.counted) in
        let rest = at_from-view_from n (suc (suc j)) (omega arith) some_saved in
        rw (step m history k n (suc j) e, next, back) (ground (arith, rest))

  -- After any history of saves a time is looked up among the last 64 snapshots, from the newest back:
  -- the first one that is not later than the time answers, interpolated with its newer neighbour when
  -- it has one, and the oldest one answers when all of them are later.
  pub get_snapshot_at-save_all :
      (timestamp : ℕ) (history : List (Snapshot D))
      → get_snapshot_at timestamp (save_all history) ≡ view_from timestamp none (take 64 history)
  unfolding get_snapshot_at view_from newer_at
  get_snapshot_at-save_all timestamp [] =
      let k = save_all-Keeps {D = D} [] in ground (arith, k.counted)
  get_snapshot_at-save_all timestamp (s ∷ h) =
      let m = save_all (s ∷ h) in
      let k = save_all-Keeps (s ∷ h) in
      let found : 0 < m.count = omega (arith, k.counted) in
      let e : nat_beq m.count 0 ≡ false = ground arith in
      rw e (
        at_from-view_from m (s ∷ h) k timestamp m.count 0 (omega arith) found
        ∙ ap (view_from timestamp none) (kept-take m (s ∷ h) k))
