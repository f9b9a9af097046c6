-- ===== src/Ring/Movement.antt =====
-- What adding or removing a node of consistent_hash.cpp moves.
use working_for_codex.Base.{
  ℕ, zero, suc, ◌+◌, ◌≡◌, ◌≢◌, ◌⊎◌, inl, inr, refl, sym, ◌∙◌, Bytes, Bool-cases,
}
use working_for_codex.Ring.Hash.{
  Table, HashRing, hash, make_virtual_node_key, insert, remove, member, add_virtual, remove_virtual,
  add_node, remove_node, get_node,
}
use working_for_codex.Ring.Table.{
  owner, owner-insert, owner-remove, Owns, remove-Owns, get_node-owner,
}

owner-add_virtual :
    (left i h : ℕ) (node : Bytes) (r : Table)
    → (owner h (add_virtual left i node r) ≡ node)
      ⊎ (owner h (add_virtual left i node r) ≡ owner h r)
unfolding add_virtual
owner-add_virtual zero i h node r = inr refl
owner-add_virtual (suc left) i h node r =
    let k = hash (make_virtual_node_key node i) in
    elim (owner-add_virtual left (i + 1) h node (insert k node r)) [
      | inl e ↦ inl e
      | inr e ↦ elim (owner-insert h k node r) [ inl f ↦ inl (e ∙ f) | inr f ↦ inr (e ∙ f) ]
    ]

-- When a node is added, each key stays where it was or moves to the new node.
pub add_node-get_node :
    (node key : Bytes) (s : HashRing)
    → (get_node key (add_node node s) ≡ node) ⊎ (get_node key (add_node node s) ≡ get_node key s)
unfolding add_node
add_node-get_node node key s =
    rw (get_node-owner key (add_node node s), get_node-owner key s)
      (elim (Bool-cases (member node s.nodes)) [
        | inl old ↦ rw old (inr refl)
        | inr new ↦ rw new (owner-add_virtual s.virtual_nodes 0 (hash key) node s.ring)
      ])

-- At the hashes of the node's own virtual nodes, from the number of rounds left and the index, the
-- ring has no entry of another node.
abbrev pub NoCollision : ℕ → ℕ → Bytes → Table → Type 0
NoCollision zero i node r = Unit
NoCollision (suc left) i node r =
    Owns node (hash (make_virtual_node_key node i)) r × NoCollision left (i + 1) node r

remove-NoCollision :
    (left i k : ℕ) (node : Bytes) (r : Table)
    → NoCollision left i node r
    → NoCollision left i node (remove k r)
remove-NoCollision zero i k node r c = tt
remove-NoCollision (suc left) i k node r c = (
  remove-Owns k (hash (make_virtual_node_key node i)) node r c.0,
  remove-NoCollision left (i + 1) k node r c.1,
)

owner-remove_virtual :
    (left i h : ℕ) (node : Bytes) (r : Table)
    → NoCollision left i node r
    → (owner h r ≡ node) ⊎ (owner h (remove_virtual left i node r) ≡ owner h r)
unfolding remove_virtual
owner-remove_virtual zero i h node r c = inr refl
owner-remove_virtual (suc left) i h node r c =
    let k = hash (make_virtual_node_key node i) in
    elim (owner-remove h k node r c.0) [
      | inl e ↦ inl e
      | inr e ↦
          elim (owner-remove_virtual left (i + 1) h node (remove k r)
            (remove-NoCollision left (i + 1) k node r c.1)) [
              | inl f ↦ inl (sym e ∙ f)
              | inr f ↦ inr (f ∙ e)
            ]
    ]

-- When a node is removed whose virtual nodes collide with no other's, each key that was not the
-- node's stays where it was.
pub remove_node-get_node :
    (node key : Bytes) (s : HashRing)
    → NoCollision s.virtual_nodes 0 node s.ring
    → get_node key s ≢ node
    → get_node key (remove_node node s) ≡ get_node key s
unfolding remove_node
remove_node-get_node node key s c other =
    rw (get_node-owner key (remove_node node s), get_node-owner key s)
      (elim (Bool-cases (member node s.nodes)) [
        | inl old ↦ rw old (elim (owner-remove_virtual s.virtual_nodes 0 (hash key) node s.ring c) [
          | inl e ↦ absurd (other (get_node-owner key s ∙ e))
          | inr e ↦ e
        ])
        | inr new ↦ rw new
      ])
