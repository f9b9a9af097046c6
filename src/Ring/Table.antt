-- ===== src/Ring/Table.antt =====
-- The owner of a hash in the ordered map of consistent_hash.cpp, with no iterator: the node of the
-- first entry that does not stand before the hash, or else that of the first entry.
use working_for_codex.Base.{
  ℕ, suc, ◌<◌, ◌≡◌, ◌⊎◌, inl, inr, refl, Bytes, [], ◌∷◌, Option, none, some, if◌then◌else◌, ltb,
  ◌==◌, nat_eq, arith, length, Bool-cases,
}
use working_for_codex.Ring.Hash.{
  Table, HashRing, hash, insert, remove, lower_bound, wrap, node_at, get_node,
}

unfoldable pub successor : ℕ → Table → Option Bytes
successor h [] = none
successor h ((k, v) ∷ r) = let rest = successor h r in if ltb k h then rest else some v

abbrev pub first_name : Table → Bytes
first_name [] = []
first_name ((k, v) ∷ r) = v

abbrev pub else_first : Option Bytes → Table → Bytes
else_first none r = first_name r
else_first (some v) r = v

unfoldable pub owner : ℕ → Table → Bytes
unfolding successor
owner h r = else_first (successor h r) r

-- Where `lower_bound` stops.
abbrev Stops : ℕ → Table → Option Bytes → Type 0
Stops it r none = it ≡ length r
Stops it r (some v) = (it < length r) × (node_at r it ≡ v)

lower_bound-Stops : (h : ℕ) (r : Table) → Stops (lower_bound h r) r (successor h r)
unfolding lower_bound successor
lower_bound-Stops h [] = refl
lower_bound-Stops h ((k, v) ∷ r) = step (successor h r) (lower_bound-Stops h r)
  where
    step :
        (o : Option Bytes)
        → Stops (lower_bound h r) r o
        → Stops
            (if ltb k h then suc (lower_bound h r) else 0)
            ((k, v) ∷ r)
            (if ltb k h then o else some v)
    step none s = ground arith
    step (some w) s = ground arith

wrap-else_first :
    (r : Table) (it : ℕ) (o : Option Bytes)
    → Stops it r o
    → node_at r (wrap (length r) it) ≡ else_first o r
wrap-else_first [] it none s = ground arith
wrap-else_first ((k, v) ∷ r) it none s = ground arith
wrap-else_first r it (some v) s = ground arith

-- The lookup through the map's iterators finds the owner of the key's hash.
pub get_node-owner : (key : Bytes) (s : HashRing) → get_node key s ≡ owner (hash key) s.ring
unfolding get_node owner
get_node-owner key s =
    wrap-else_first s.ring (lower_bound (hash key) s.ring) (successor (hash key) s.ring)
      (lower_bound-Stops (hash key) s.ring)

pub successor-insert :
    (h k : ℕ) (node : Bytes) (r : Table)
    → (successor h (insert k node r) ≡ some node) ⊎ (successor h (insert k node r) ≡ successor h r)
unfolding successor insert
successor-insert h k node [] = ground arith
successor-insert h k node ((j, v) ∷ r) = ground (arith, successor-insert h k node r)

first_name-insert :
    (k : ℕ) (node : Bytes) (r : Table)
    → (first_name (insert k node r) ≡ node) ⊎ (first_name (insert k node r) ≡ first_name r)
unfolding insert
first_name-insert k node [] = inl refl
first_name-insert k node ((j, v) ∷ r) = ground arith

-- A new entry takes hashes over for its own node, and moves none between the others.
pub owner-insert :
    (h k : ℕ) (node : Bytes) (r : Table)
    → (owner h (insert k node r) ≡ node) ⊎ (owner h (insert k node r) ≡ owner h r)
unfolding owner
owner-insert h k node r = elim (successor-insert h k node r) [
  | inl e ↦ inl (rw e)
  | inr e ↦ rw e (settle (successor h r))
]
  where
    settle :
        (o : Option Bytes)
        → (else_first o (insert k node r) ≡ node)
          ⊎ (else_first o (insert k node r) ≡ else_first o r)
    settle none = first_name-insert k node r
    settle (some v) = inr refl

-- The entries at the key, if any, are the node's.
abbrev pub Owns : Bytes → ℕ → Table → Type 0
Owns node k [] = Unit
Owns node k ((j, v) ∷ r) = (if j == k then v ≡ node else Unit) × Owns node k r

successor-remove :
    (h k : ℕ) (node : Bytes) (r : Table)
    → Owns node k r
    → (successor h r ≡ some node) ⊎ (successor h (remove k r) ≡ successor h r)
unfolding successor remove
successor-remove h k node [] owns = inr refl
successor-remove h k node ((j, v) ∷ r) owns = elim (Bool-cases (j == k)) [
  | inl e ↦
      let owned : v ≡ node = rw e at owns.0 in
      rw e (ground (arith, successor-remove h k node r owns.1))
  | inr e ↦ rw e (ground (arith, successor-remove h k node r owns.1))
]

first_name-remove :
    (k : ℕ) (node : Bytes) (r : Table)
    → Owns node k r
    → (first_name r ≡ node) ⊎ (first_name (remove k r) ≡ first_name r)
unfolding remove
first_name-remove k node [] owns = inr refl
first_name-remove k node ((j, v) ∷ r) owns = elim (Bool-cases (j == k)) [
  | inl e ↦ inl (rw e at owns.0)
  | inr e ↦ inr (rw e)
]

-- An entry that is taken away gives up hashes of its own node, and moves none between the others.
pub owner-remove :
    (h k : ℕ) (node : Bytes) (r : Table)
    → Owns node k r
    → (owner h r ≡ node) ⊎ (owner h (remove k r) ≡ owner h r)
unfolding owner
owner-remove h k node r owns = elim (successor-remove h k node r owns) [
  | inl e ↦ inl (rw e)
  | inr e ↦ rw e (settle (successor h r))
]
  where
    settle :
        (o : Option Bytes) → (else_first o r ≡ node) ⊎ (else_first o (remove k r) ≡ else_first o r)
    settle none = first_name-remove k node r owns
    settle (some v) = inr refl

pub remove-Owns : (k j : ℕ) (node : Bytes) (r : Table) → Owns node j r → Owns node j (remove k r)
unfolding remove
remove-Owns k j node [] owns = tt
remove-Owns k j node ((i, v) ∷ r) owns = elim (Bool-cases (i == k)) [
  | inl e ↦ rw e (remove-Owns k j node r owns.1)
  | inr e ↦ rw e (owns.0, remove-Owns k j node r owns.1)
]
