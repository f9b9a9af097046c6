-- ===== src/Ring/Walk.antt =====
-- The loop of `GetNodes` in consistent_hash.cpp against a walk over the entries in ring order.
use working_for_codex.Base.{
  ℕ, zero, suc, ◌+◌, ◌<◌, ◌≤◌, ◌≡◌, inl, inr, refl, sym, ap, ◌∙◌, Bool, true, false, Bytes, List,
  [], ◌∷◌, ◌++◌, ◌==◌, nat_eq, if◌then◌else◌, Option, some, leb, arith, Bool-cases, length, nat_beq,
  take, drop, length-append, length-drop, length-take,
}
use working_for_codex.Ring.Hash.{Table, push_new, member, node_at, walk}

-- The first names, without repetition, along the entries, up to `max_nodes` of them.
unfoldable pub collect : ℕ → List Bytes → Table → List Bytes
unfolding member
collect max_nodes acc [] = acc
collect max_nodes acc ((k, v) ∷ r) =
    let rest = collect max_nodes (push_new v acc) r in
    if leb max_nodes (length acc) then acc else rest

-- The entries from the iterator on, round the end of the ring and up to the start.
abbrev ahead : Table → ℕ → ℕ → Bool → Table
ahead r start it true = drop it (take start r)
ahead r start it false = drop it r ++ take start r

pub drop-entry :
    (r : Table) (it : ℕ)
    → it < length r
    → (k : ℕ) × (v : Bytes) × (drop it r ≡ (k, v) ∷ drop (suc it) r) × (node_at r it ≡ v)
drop-entry [] it h = absurd (omega arith)
drop-entry ((k, v) ∷ r) zero h = (k, v, refl, refl)
drop-entry (e ∷ r) (suc it) h = drop-entry r it (omega arith)

node_at-take : (r : Table) (start it : ℕ) → it < start → node_at (take start r) it ≡ node_at r it
node_at-take r zero it h = absurd (omega arith)
node_at-take [] (suc start) it h = refl
node_at-take (e ∷ r) (suc start) zero h = refl
node_at-take (e ∷ r) (suc start) (suc it) h = node_at-take r start it (omega arith)

abbrev IsPlace : Table → ℕ → ℕ → Bool → Type 0
IsPlace r start it true = (start < length r) × (it < start)
IsPlace r start it false = (start ≤ it) × (it < length r)

ahead-entry :
    (r : Table) (start it : ℕ) (w : Bool)
    → IsPlace r start it w
    → (k : ℕ) × (v : Bytes) × (ahead r start it w ≡ (k, v) ∷ ahead r start (suc it) w)
      × (node_at r it ≡ v)
ahead-entry r start it true (a, b) =
    let e = drop-entry (take start r) it (omega (arith, length-take start r)) in
    (e.0, e.1, e.2, sym (node_at-take r start it b) ∙ e.3)
ahead-entry r start it false (a, b) = let e = drop-entry r it b in (e.0, e.1, rw e.2, e.3)

drop-length : (r : Table) (n : ℕ) → length r ≤ n → drop n r ≡ []
drop-length [] zero h = refl
drop-length [] (suc n) h = refl
drop-length (e ∷ r) zero h = absurd (omega arith)
drop-length (e ∷ r) (suc n) h = drop-length r n (omega arith)

-- One round: what it reads is the first entry ahead, and it ends or goes on with the others.
round :
    (max_nodes : ℕ) (acc : List Bytes) (stop : Bool) (more : Option (List Bytes)) (k : ℕ)
    (v : Bytes) (rest : Table)
    → (stop ≡ true → rest ≡ [])
    → (stop ≡ false → more ≡ some (collect max_nodes (push_new v acc) rest))
    → (if leb max_nodes (length acc)
        then some acc
        else if stop
        then some (push_new v acc)
        else more)
      ≡ some (collect max_nodes acc ((k, v) ∷ rest))
unfolding collect
round max_nodes acc true more k v rest last next = rw (last refl) (ground arith)
round max_nodes acc false more k v rest last next = rw (next refl) (ground arith)

module _ (r : Table) (max_nodes start : ℕ) where
  walk-collect :
      (fuel it : ℕ) (w : Bool) (acc : List Bytes)
      → start < length r
      → IsPlace r start it w
      → length (ahead r start it w) ≤ fuel
      → walk fuel r max_nodes start it w acc ≡ some (collect max_nodes acc (ahead r start it w))
  unfolding walk
  walk-collect zero it w acc inside place enough =
      let e = ahead-entry r start it w place in absurd (omega (arith, ap length e.2))
  walk-collect (suc fuel) it true acc inside place enough =
      let e = ahead-entry r start it true place in
      let s : it + 1 ≡ suc it = omega arith in
      let inner : nat_beq (suc it) (length r) ≡ false = ground arith in
      rw (e.2, e.3, s, inner)
        (round max_nodes acc (suc it == start) _ e.0 e.1 (ahead r start (suc it) true)
          (λ h. drop-length (take start r) (suc it) (ground (arith, length-take start r)))
          λ h.
            walk-collect fuel (suc it) true (push_new e.1 acc) inside (omega arith, ground arith)
              (omega (arith, ap length e.2)))
  walk-collect (suc fuel) it false acc inside place enough =
      let e = ahead-entry r start it false place in
      let s : it + 1 ≡ suc it = omega arith in
      rw (e.2, e.3, s)
        (elim (Bool-cases (nat_beq (suc it) (length r))) [
          | inl at_end ↦
              let others : ahead r start (suc it) false ≡ ahead r start 0 true =
                rw (drop-length r (suc it) (ground arith)) in
              rw (at_end, others)
                (round max_nodes acc (0 == start) _ e.0 e.1 (take start r)
                  (λ h. drop-length (take start r) 0 (ground (arith, length-take start r)))
                  λ h.
                    walk-collect fuel 0 true (push_new e.1 acc) inside (inside, ground arith)
                      (omega (arith, ap length e.2, ap length others)))
          | inr inner ↦ rw inner (
              round max_nodes acc false _ e.0 e.1 (ahead r start (suc it) false) (λ h. cc)
                λ h.
                  walk-collect fuel (suc it) false (push_new e.1 acc) inside
                    (omega arith, ground arith) (omega (arith, ap length e.2)))
        ])

-- The loop ends within a round for each entry and one more, with the names in ring order.
pub walk_lem :
    (r : Table) (max_nodes start : ℕ)
    → start < length r
    → walk (length r + 1) r max_nodes start start false []
      ≡ some (collect max_nodes [] (drop start r ++ take start r))
walk_lem r max_nodes start inside =
    walk-collect r max_nodes start (length r + 1) start false [] inside (omega arith, inside)
      (omega (
        arith,
        length-append (drop start r) (take start r),
        length-drop start r,
        length-take start r,
      ))
