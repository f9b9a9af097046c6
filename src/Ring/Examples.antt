-- ===== src/Ring/Examples.antt =====
-- consistent_hash.cpp run on small rings.
use working_for_codex.Base.{
  ◌≡◌, ◌≢◌, ◌⊎◌, refl, true, Bytes, List, codes, [], ◌∷◌, some, same, before, same-ne,
}
use working_for_codex.Base.Int.{pos}
use working_for_codex.Ring.Hash.{
  hash, make_virtual_node_key, HashRing, create, add_node, remove_node, get_node, get_nodes,
  has_node,
}
use working_for_codex.Ring.Movement.{add_node-get_node, NoCollision, remove_node-get_node}
use working_for_codex.Ring.Members.{IsRing, apply, added, apply-create-IsRing, get_node-member}
use working_for_codex.Ring.Replicas.{IsChoice, get_nodes-IsChoice}

-- The published FNV-1a value of "a".
hash_a : hash (codes "a") ≡ 0xaf63dc4c8601ec8c
unfolding hash
hash_a = refl

key_12 : make_virtual_node_key (codes "n") 12 ≡ codes "n#12"
unfolding make_virtual_node_key
key_12 = refl

abbrev one : HashRing
one = record {
  virtual_nodes = 1;
  ring = (hash (codes "a#0"), codes "a") ∷ [];
  nodes = codes "a" ∷ [];
}

one_lem : add_node (codes "a") (create 1) ≡ one
unfolding add_node create
one_lem = refl

abbrev two : HashRing
two = apply (create 2) (added (codes "a") ∷ added (codes "b") ∷ [])

one-IsRing : IsRing one
unfolding apply create add_node
one-IsRing = apply-create-IsRing 1 (added (codes "a") ∷ [])

apply-create-IsRing_example : IsRing two
apply-create-IsRing_example = apply-create-IsRing 2 (added (codes "a") ∷ added (codes "b") ∷ [])

add_node-get_node_example :
    (get_node (codes "p1") (add_node (codes "b") one) ≡ codes "b")
    ⊎ (get_node (codes "p1") (add_node (codes "b") one) ≡ get_node (codes "p1") one)
add_node-get_node_example = add_node-get_node (codes "b") (codes "p1") one

-- Two nodes of one virtual node each, of which one is removed.
abbrev pair : HashRing
pair = record {
  virtual_nodes = 1;
  ring = (hash (codes "a#0"), codes "a") ∷ (hash (codes "b#0"), codes "b") ∷ [];
  nodes = codes "a" ∷ codes "b" ∷ [];
}

pair_lem : add_node (codes "b") one ≡ pair
unfolding add_node hash same before
pair_lem = refl

pair-NoCollision : NoCollision 1 0 (codes "b") pair.ring
unfolding hash make_virtual_node_key
pair-NoCollision = ((tt, (refl, tt)), tt)

b-ne-a : get_node (codes "p1") pair ≢ codes "b"
unfolding get_node same hash
b-ne-a = same-ne (codes "a") (codes "b") refl

remove_node-get_node_example :
    get_node (codes "p1") (remove_node (codes "b") pair) ≡ get_node (codes "p1") pair
remove_node-get_node_example =
    remove_node-get_node (codes "b") (codes "p1") pair pair-NoCollision b-ne-a

get_node-member_example : (one.ring ≡ []) ⊎ (has_node (get_node (codes "p1") one) one ≡ true)
get_node-member_example = get_node-member (codes "p1") one one-IsRing

get_nodes-IsChoice_example :
    (ns : List Bytes) × (get_nodes (codes "p1") (pos 3) one ≡ some ns) × IsChoice 1 one.nodes ns
get_nodes-IsChoice_example = get_nodes-IsChoice (codes "p1") (pos 3) one one-IsRing
