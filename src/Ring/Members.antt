-- ===== src/Ring/Members.antt =====
-- Which nodes stand in the ring of consistent_hash.cpp.
use working_for_codex.Base.{
  ℕ, zero, suc, ◌+◌, ◌<◌, ◌≤◌, ◌≡◌, ◌≢◌, ◌⊎◌, inl, inr, refl, true, false, ◌||◌, Bytes, List, [],
  ◌∷◌, ◌==◌, bytes_eq, nat_eq, same_iff, same_refl, same_sound, subst, ap₂, nat_beq_refl,
  if◌then◌else◌, Option, none, some, ltb, arith, Bool-cases,
}
use working_for_codex.Ring.Hash.{
  Table, HashRing, create, hash, make_virtual_node_key, insert, remove, member, add_name,
  remove_name, add_virtual, remove_virtual, add_node, remove_node, get_node, has_node,
}
use working_for_codex.Ring.Table.{owner, successor, else_first, get_node-owner}

pub member-add_name :
    (n m : Bytes) (ms : List Bytes) → member n (add_name m ms) ≡ ((m == n) || member n ms)
unfolding member add_name
member-add_name n m [] = refl
member-add_name n m (k ∷ ms) =
    ground (arith, member-add_name n m ms, same_iff k m, same_iff m n, same_iff k n)

pub member-remove_name :
    (n m : Bytes) (ms : List Bytes)
    → member n (remove_name m ms) ≡ (if m == n then false else member n ms)
unfolding member remove_name
member-remove_name n m [] = ground arith
member-remove_name n m (k ∷ ms) =
    ground (arith, member-remove_name n m ms, same_iff k m, same_iff m n, same_iff k n)

-- The entry is at the hash of one of its node's virtual nodes, and the node is registered.
abbrev pub IsEntry : ℕ → List Bytes → ℕ → Bytes → Type 0
IsEntry count nodes k v =
    (member v nodes ≡ true) × (i : ℕ) × (i < count) × (hash (make_virtual_node_key v i) ≡ k)

abbrev pub Entries : ℕ → List Bytes → Table → Type 0
Entries count nodes [] = Unit
Entries count nodes ((k, v) ∷ r) = IsEntry count nodes k v × Entries count nodes r

abbrev pub IsRing : HashRing → Type 0
IsRing s = Entries s.virtual_nodes s.nodes s.ring

module _ (count : ℕ) (nodes : List Bytes) where
  insert-Entries :
      (k : ℕ) (v : Bytes) (r : Table)
      → IsEntry count nodes k v
      → Entries count nodes r
      → Entries count nodes (insert k v r)
  unfolding insert
  insert-Entries k v [] new es = (new, tt)
  insert-Entries k v ((j, w) ∷ r) new es = elim (Bool-cases (ltb k j)) [
    | inl e ↦ rw e (new, es)
    | inr e ↦ rw e (elim (Bool-cases (k == j)) [
      | inl f ↦ rw f (new, es.1)
      | inr f ↦ rw f (es.0, insert-Entries k v r new es.1)
    ])
  ]

  add_virtual-Entries :
      (left i : ℕ) (node : Bytes) (r : Table)
      → left + i ≡ count
      → member node nodes ≡ true
      → Entries count nodes r
      → Entries count nodes (add_virtual left i node r)
  unfolding add_virtual
  add_virtual-Entries zero i node r total known es = es
  add_virtual-Entries (suc left) i node r total known es =
      add_virtual-Entries left (i + 1) node (insert (hash (make_virtual_node_key node i)) node r)
        (omega arith) known
        (insert-Entries (hash (make_virtual_node_key node i)) node r (known, i, omega arith, refl)
          es)

Entries-add_name :
    (count : ℕ) (node : Bytes) (nodes : List Bytes) (r : Table)
    → Entries count nodes r
    → Entries count (add_name node nodes) r
Entries-add_name count node nodes [] es = tt
Entries-add_name count node nodes ((k, v) ∷ r) es = (
  (rw (member-add_name v node nodes) (rw es.0.0 (ground arith)), es.0.1, es.0.2, es.0.3),
  Entries-add_name count node nodes r es.1,
)

-- The same in the middle of a removal, when the virtual nodes below `done` are gone.
module _ (count : ℕ) (nodes : List Bytes) (node : Bytes) where
  abbrev IsLeft : ℕ → ℕ → Bytes → Type 0
  IsLeft done k v =
      (member v nodes ≡ true)
      × (i : ℕ) × (i < count)
      × (hash (make_virtual_node_key v i) ≡ k)
      × (if v == node then done ≤ i else Unit)

  abbrev Left : ℕ → Table → Type 0
  Left done [] = Unit
  Left done ((k, v) ∷ r) = IsLeft done k v × Left done r

  Entries-Left : (r : Table) → Entries count nodes r → Left 0 r
  Entries-Left [] es = tt
  Entries-Left ((k, v) ∷ r) es =
      ((es.0.0, es.0.1, es.0.2, es.0.3, ground arith), Entries-Left r es.1)

  later :
      (done k : ℕ) (v : Bytes)
      → IsLeft done k v
      → (k == hash (make_virtual_node_key node done)) ≡ false
      → IsLeft (done + 1) k v
  later done k v l other = elim (Bool-cases (v == node)) [
    | inl e ↦ (l.0, l.1, l.2, l.3, rw e (past (same_sound v node e) (rw e at l.4)))
    | inr e ↦ (l.0, l.1, l.2, l.3, rw e tt)
  ]
    where
      not_done : v ≡ node → l.1 ≢ done
      not_done same_node p =
          cc (other, nat_beq_refl k, l.3, ap₂ (λ x j. hash (make_virtual_node_key x j)) same_node p)

      past : v ≡ node → done ≤ l.1 → done + 1 ≤ l.1
      past same_node le = omega (arith, not_done same_node)

  remove-Left :
      (done : ℕ) (r : Table)
      → Left done r
      → Left (done + 1) (remove (hash (make_virtual_node_key node done)) r)
  unfolding remove
  remove-Left done [] l = tt
  remove-Left done ((k, v) ∷ r) l =
      elim (Bool-cases (k == hash (make_virtual_node_key node done))) [
        | inl e ↦ rw e (remove-Left done r l.1)
        | inr e ↦ rw e (later done k v l.0 e, remove-Left done r l.1)
      ]

  remove_virtual-Left :
      (left done : ℕ) (r : Table)
      → Left done r
      → Left (done + left) (remove_virtual left done node r)
  unfolding remove_virtual
  remove_virtual-Left zero done r l = subst (λ d. Left d r) (omega arith) l
  remove_virtual-Left (suc left) done r l =
      let shift : done + 1 + left ≡ done + suc left = omega arith in
      subst
        (λ d.
          Left d (
            remove_virtual left (done + 1) node
              (remove (hash (make_virtual_node_key node done)) r)))
        shift (remove_virtual-Left left (done + 1) _ (remove-Left done r l))

  Left-Entries : (r : Table) → Left count r → Entries count (remove_name node nodes) r
  Left-Entries [] l = tt
  Left-Entries ((k, v) ∷ r) l = (
    (
      ground (arith, member-remove_name v node nodes, same_iff v node, same_iff node v),
      l.0.1,
      l.0.2,
      l.0.3,
    ),
    Left-Entries r l.1,
  )

pub add_node-IsRing : (node : Bytes) (s : HashRing) → IsRing s → IsRing (add_node node s)
unfolding add_node
add_node-IsRing node s v = elim (Bool-cases (member node s.nodes)) [
  | inl old ↦ rw old v
  | inr new ↦ rw new (
      add_virtual-Entries s.virtual_nodes (add_name node s.nodes) s.virtual_nodes 0 node s.ring
        (omega arith) (rw (member-add_name node node s.nodes, same_refl node))
        (Entries-add_name s.virtual_nodes node s.nodes s.ring v))
]

pub remove_node-IsRing : (node : Bytes) (s : HashRing) → IsRing s → IsRing (remove_node node s)
unfolding remove_node
remove_node-IsRing node s v = elim (Bool-cases (member node s.nodes)) [
  | inl old ↦ rw old (
      Left-Entries s.virtual_nodes s.nodes node _ (
        subst
          (λ d. Left s.virtual_nodes s.nodes node d (remove_virtual s.virtual_nodes 0 node s.ring))
          (let e : 0 + s.virtual_nodes ≡ s.virtual_nodes = omega arith in e)
          (remove_virtual-Left s.virtual_nodes s.nodes node s.virtual_nodes 0 s.ring
            (Entries-Left s.virtual_nodes s.nodes node s.ring v))))
  | inr new ↦ rw new v
]

-- The calls that change the ring.
pub data Change : Type 0 where
  added : Bytes → Change
  removed : Bytes → Change

unfoldable pub apply : HashRing → List Change → HashRing
apply s [] = s
apply s (added n ∷ cs) = apply (add_node n s) cs
apply s (removed n ∷ cs) = apply (remove_node n s) cs

apply-IsRing : (s : HashRing) (cs : List Change) → IsRing s → IsRing (apply s cs)
unfolding apply
apply-IsRing s [] v = v
apply-IsRing s (added n ∷ cs) v = apply-IsRing (add_node n s) cs (add_node-IsRing n s v)
apply-IsRing s (removed n ∷ cs) v = apply-IsRing (remove_node n s) cs (remove_node-IsRing n s v)

-- After any history of additions and removals, every entry of the ring stands at the hash of a
-- virtual node of a registered node: none of a removed node is left.
pub apply-create-IsRing :
    (virtual_nodes : ℕ) (cs : List Change) → IsRing (apply (create virtual_nodes) cs)
unfolding create
apply-create-IsRing virtual_nodes cs = apply-IsRing (create virtual_nodes) cs tt

successor-member :
    (count h : ℕ) (nodes : List Bytes) (r : Table) (v : Bytes)
    → Entries count nodes r
    → successor h r ≡ some v
    → member v nodes ≡ true
unfolding successor
successor-member count h nodes [] v es e = cc
successor-member count h nodes ((k, w) ∷ r) v es e =
    ground (arith, successor-member count h nodes r v es.1, es.0.0)

owner-member :
    (count h : ℕ) (nodes : List Bytes) (r : Table)
    → Entries count nodes r
    → (r ≡ []) ⊎ (member (owner h r) nodes ≡ true)
unfolding owner
owner-member count h nodes [] es = inl refl
owner-member count h nodes ((k, w) ∷ r) es = inr (settle (successor h ((k, w) ∷ r)) refl)
  where
    settle :
        (o : Option Bytes)
        → successor h ((k, w) ∷ r) ≡ o
        → member (else_first o ((k, w) ∷ r)) nodes ≡ true
    settle none e = es.0.0
    settle (some v) e = successor-member count h nodes ((k, w) ∷ r) v es e

-- In a ring whose entries all stand at virtual nodes of registered nodes, a key is routed to a
-- registered node, unless the ring is empty.
pub get_node-member :
    (key : Bytes) (s : HashRing) → IsRing s → (s.ring ≡ []) ⊎ (has_node (get_node key s) s ≡ true)
unfolding has_node
get_node-member key s v =
    rw (get_node-owner key s) (owner-member s.virtual_nodes (hash key) s.nodes s.ring v)
