-- ===== src/Ring/Replicas.antt =====
-- The nodes that `GetNodes` of consistent_hash.cpp returns for a key.
use working_for_codex.Base.{
  ℕ, zero, suc, ◌<◌, ◌≤◌, ◌≡◌, inl, inr, refl, sym, ap, ◌∙◌, true, false, ◌||◌, Bytes, List, [],
  ◌∷◌, ◌++◌, ◌==◌, nat_eq, bytes_eq, same_iff, some, leb, arith, Bool-cases, length, take, drop,
  length-append, min, nat_beq,
}
use working_for_codex.Base.Int.{ℤ, pos, pos_part, leb_ℤ, ◌≤ℤ◌}
use working_for_codex.Ring.Hash.{
  Table, HashRing, hash, push_new, member, wrap, lower_bound, get_node, get_nodes,
}
use working_for_codex.Ring.Members.{Entries, IsRing}
use working_for_codex.Ring.Walk.{collect, walk_lem, drop-entry}

-- No name stands twice.
abbrev pub Distinct : List Bytes → Type 0
Distinct [] = Unit
Distinct (n ∷ ns) = (member n ns ≡ false) × Distinct ns

abbrev pub Registered : List Bytes → List Bytes → Type 0
Registered nodes [] = Unit
Registered nodes (n ∷ ns) = (member n nodes ≡ true) × Registered nodes ns

member-snoc : (n m : Bytes) (ns : List Bytes) → member n (ns ++ m ∷ []) ≡ (member n ns || m == n)
unfolding member
member-snoc n m [] = ground arith
member-snoc n m (k ∷ ns) = ground (arith, member-snoc n m ns)

Distinct-snoc :
    (m : Bytes) (ns : List Bytes) → member m ns ≡ false → Distinct ns → Distinct (ns ++ m ∷ [])
unfolding member
Distinct-snoc m [] new d = (refl, tt)
Distinct-snoc m (n ∷ ns) new d = (
  rw (member-snoc n m ns) (ground (arith, same_iff n m, same_iff m n)),
  Distinct-snoc m ns (ground arith) d.1,
)

Registered-snoc :
    (nodes : List Bytes) (m : Bytes) (ns : List Bytes)
    → member m nodes ≡ true
    → Registered nodes ns
    → Registered nodes (ns ++ m ∷ [])
Registered-snoc nodes m [] known rs = (known, tt)
Registered-snoc nodes m (n ∷ ns) known rs = (rs.0, Registered-snoc nodes m ns known rs.1)

pub record IsChoice (max_nodes : ℕ) (nodes ns : List Bytes) : Type 0 where
  pub distinct : Distinct ns
  pub few : length ns ≤ max_nodes
  pub registered : Registered nodes ns

push_new-IsChoice :
    (max_nodes : ℕ) (nodes ns : List Bytes) (v : Bytes)
    → length ns < max_nodes
    → member v nodes ≡ true
    → IsChoice max_nodes nodes ns
    → IsChoice max_nodes nodes (push_new v ns)
push_new-IsChoice max_nodes nodes ns v room known c = elim (Bool-cases (member v ns)) [
  | inl old ↦ rw old c
  | inr new ↦ rw new (record {
    distinct = Distinct-snoc v ns new c.distinct;
    few = omega (arith, length-append ns (v ∷ []));
    registered = Registered-snoc nodes v ns known c.registered;
  })
]

collect-IsChoice :
    (max_nodes count : ℕ) (nodes acc : List Bytes) (r : Table)
    → Entries count nodes r
    → IsChoice max_nodes nodes acc
    → IsChoice max_nodes nodes (collect max_nodes acc r)
unfolding collect
collect-IsChoice max_nodes count nodes acc [] es c = c
collect-IsChoice max_nodes count nodes acc ((k, v) ∷ r) es c =
    elim (Bool-cases (leb max_nodes (length acc))) [
      | inl full ↦ rw full c
      | inr room ↦ rw room (
          collect-IsChoice max_nodes count nodes (push_new v acc) r es.1
            (push_new-IsChoice max_nodes nodes acc v (ground arith) es.0.0 c))
    ]

module _ (count : ℕ) (nodes : List Bytes) where
  Entries-append :
      (r s : Table) → Entries count nodes r → Entries count nodes s → Entries count nodes (r ++ s)
  Entries-append [] s a b = b
  Entries-append (e ∷ r) s a b = (a.0, Entries-append r s a.1 b)

  Entries-take : (n : ℕ) (r : Table) → Entries count nodes r → Entries count nodes (take n r)
  Entries-take zero r a = tt
  Entries-take (suc n) [] a = tt
  Entries-take (suc n) (e ∷ r) a = (a.0, Entries-take n r a.1)

  Entries-drop : (n : ℕ) (r : Table) → Entries count nodes r → Entries count nodes (drop n r)
  Entries-drop zero r a = a
  Entries-drop (suc n) [] a = tt
  Entries-drop (suc n) (e ∷ r) a = Entries-drop n r a.1

lower_bound-le : (h : ℕ) (r : Table) → lower_bound h r ≤ length r
unfolding lower_bound
lower_bound-le h [] = omega arith
lower_bound-le h ((k, v) ∷ r) = ground (arith, lower_bound-le h r)

-- Where the walk for a key begins.
abbrev place : Bytes → HashRing → ℕ
place key s = wrap (length s.ring) (lower_bound (hash key) s.ring)

place-lt : (key : Bytes) (s : HashRing) → 0 < length s.ring → place key s < length s.ring
place-lt key s h = ground (arith, lower_bound-le (hash key) s.ring)

-- In a ring whose entries all stand at virtual nodes of registered nodes, the loop of `GetNodes`
-- ends, and the nodes that it returns for a key are distinct registered nodes, at most as many
-- as are asked for and as there are.
pub get_nodes-IsChoice :
    (key : Bytes) (n : ℤ) (s : HashRing)
    → IsRing s
    → (ns : List Bytes) × (get_nodes key n s ≡ some ns)
      × IsChoice (min (pos_part n) (length s.nodes)) s.nodes ns
unfolding get_nodes
get_nodes-IsChoice key n s v = elim (Bool-cases (nat_beq (length s.ring) 0 || leb_ℤ n (pos 0))) [
  | inl none_asked ↦ ([], rw none_asked, none_chosen)
  | inr some_asked ↦ (
    collect most [] (drop (place key s) s.ring ++ take (place key s) s.ring),
    rw some_asked (walk_lem s.ring most (place key s) (place-lt key s (ground arith))),
    collect-IsChoice most s.virtual_nodes s.nodes []
        (drop (place key s) s.ring ++ take (place key s) s.ring)
        (Entries-append s.virtual_nodes s.nodes (drop (place key s) s.ring)
          (take (place key s) s.ring) (Entries-drop s.virtual_nodes s.nodes (place key s) s.ring v)
          (Entries-take s.virtual_nodes s.nodes (place key s) s.ring v))
        none_chosen,
  )
]
  where
    most : ℕ
    most = min (pos_part n) (length s.nodes)

    none_chosen : IsChoice most s.nodes []
    none_chosen = record { distinct = tt; few = omega arith; registered = tt }

-- The names that are collected are kept, in order.
collect-prefix :
    (max_nodes : ℕ) (a : Bytes) (acc : List Bytes) (r : Table)
    → (ns : List Bytes) × (collect max_nodes (a ∷ acc) r ≡ a ∷ ns)
unfolding collect
collect-prefix max_nodes a acc [] = (acc, refl)
collect-prefix max_nodes a acc ((k, v) ∷ r) = elim (Bool-cases (leb max_nodes (length (a ∷ acc)))) [
  | inl full ↦ rw full (acc, refl)
  | inr room ↦ rw room (elim (Bool-cases (member v (a ∷ acc))) [
    | inl old ↦ rw old (collect-prefix max_nodes a acc r)
    | inr new ↦ rw new (collect-prefix max_nodes a (acc ++ v ∷ []) r)
  ])
]

collect-head :
    (max_nodes k : ℕ) (v : Bytes) (r : Table)
    → 0 < max_nodes
    → (ns : List Bytes) × (collect max_nodes [] ((k, v) ∷ r) ≡ v ∷ ns)
unfolding collect member
collect-head max_nodes k v r room =
    let some_room : leb max_nodes 0 ≡ false = ground arith in
    rw some_room (collect-prefix max_nodes v [] r)

Entries-nodes :
    (count : ℕ) (nodes : List Bytes) (r : Table)
    → Entries count nodes r
    → 0 < length r
    → 0 < length nodes
unfolding member
Entries-nodes count nodes [] es h = absurd (omega arith)
Entries-nodes count [] (e ∷ r) es h = cc es.0.0
Entries-nodes count (n ∷ nodes) (e ∷ r) es h = omega arith

-- In a ring that is not empty and whose entries all stand at virtual nodes of registered nodes,
-- the first node that `GetNodes` returns is the one that `GetNode` returns, when at least one is
-- asked for.
pub get_nodes-get_node :
    (key : Bytes) (n : ℤ) (s : HashRing)
    → IsRing s
    → 0 < length s.ring
    → pos 1 ≤ℤ n
    → (ns : List Bytes) × (get_nodes key n s ≡ some (get_node key s ∷ ns))
unfolding get_nodes get_node
get_nodes-get_node key n s v inside wanted =
    let at = place key s in
    let most = min (pos_part n) (length s.nodes) in
    let asked : (nat_beq (length s.ring) 0 || leb_ℤ n (pos 0)) ≡ false = ground arith in
    let e = drop-entry s.ring at (place-lt key s inside) in
    let first =
      collect-head most e.0 e.1 (drop (suc at) s.ring ++ take at s.ring)
        (omega (arith, Entries-nodes s.virtual_nodes s.nodes s.ring v inside)) in
    (
      first.0,
      rw asked (
          walk_lem s.ring most at (place-lt key s inside)
          ∙ ap (λ l. some (collect most [] (l ++ take at s.ring))) e.2
          ∙ ap some first.1
          ∙ ap (λ x. some (x ∷ first.0)) (sym e.3)),
    )
