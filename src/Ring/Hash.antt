-- ===== src/Ring/Hash.antt =====
-- consistent_hash.h and consistent_hash.cpp. `size_t` has 64 bits and `char` is signed, as on the
-- server's x86-64.
use working_for_codex.Base.{
  ℕ, zero, suc, ◌+◌, ◌-◌, ◌*◌, ◌%◌, ◌^◌, min, Bool, true, false, ◌&&◌, ◌||◌, Bytes, List, [], ◌∷◌,
  ◌++◌, Option, none, some, if◌then◌else◌, ltb, leb, nat_beq, ◌==◌, nat_eq, bytes_eq, before,
  decimal, length, get_elem?,
}
use working_for_codex.Base.Int.{ℤ, pos, pos_part, leb_ℤ}
use Prim.Native.Nat.{bit_xor}

-- `static_cast<size_t>(c)` of a signed char.
unfoldable pub widen : ℕ → ℕ
widen c = if ltb c 128 then c else 2 ^ 64 - 256 + c

unfoldable pub hash_from : ℕ → Bytes → ℕ
unfolding widen
hash_from h [] = h
hash_from h (c ∷ key) = hash_from (bit_xor h (widen c) * 1099511628211 % 2 ^ 64) key

unfoldable pub hash : Bytes → ℕ
unfolding hash_from
hash key = hash_from 14695981039346656037 key

unfoldable pub make_virtual_node_key : Bytes → ℕ → Bytes
unfolding decimal
make_virtual_node_key node_id index = node_id ++ (b'#' ∷ decimal index)

-- `std::map<size_t, std::string>`, by rising keys.
abbrev pub Table : Type 0
Table = List (ℕ × Bytes)

unfoldable pub insert : ℕ → Bytes → Table → Table
insert h node [] = (h, node) ∷ []
insert h node ((k, v) ∷ r) =
    let rest = insert h node r in
    if ltb h k then (h, node) ∷ (k, v) ∷ r else if h == k then (h, node) ∷ r else (k, v) ∷ rest

unfoldable pub remove : ℕ → Table → Table
remove h [] = []
remove h ((k, v) ∷ r) = let rest = remove h r in if k == h then rest else (k, v) ∷ rest

-- `std::set<std::string>`, by rising names.
unfoldable pub member : Bytes → List Bytes → Bool
member n [] = false
member n (m ∷ ms) = (m == n) || member n ms

unfoldable pub add_name : Bytes → List Bytes → List Bytes
add_name n [] = n ∷ []
add_name n (m ∷ ms) =
    let rest = add_name n ms in
    if m == n then m ∷ ms else if before n m then n ∷ m ∷ ms else m ∷ rest

unfoldable pub remove_name : Bytes → List Bytes → List Bytes
remove_name n [] = []
remove_name n (m ∷ ms) = let rest = remove_name n ms in if m == n then rest else m ∷ rest

pub record HashRing : Type 0 where
  pub virtual_nodes : ℕ
  pub ring : Table
  pub nodes : List Bytes

unfoldable pub create : ℕ → HashRing
create virtual_nodes = record { virtual_nodes = virtual_nodes; ring = []; nodes = [] }

-- The loops over the virtual nodes, from the number of rounds left and the index.
unfoldable pub add_virtual : ℕ → ℕ → Bytes → Table → Table
unfolding hash make_virtual_node_key insert
add_virtual zero i node r = r
add_virtual (suc left) i node r =
    add_virtual left (i + 1) node (insert (hash (make_virtual_node_key node i)) node r)

unfoldable pub remove_virtual : ℕ → ℕ → Bytes → Table → Table
unfolding hash make_virtual_node_key remove
remove_virtual zero i node r = r
remove_virtual (suc left) i node r =
    remove_virtual left (i + 1) node (remove (hash (make_virtual_node_key node i)) r)

unfoldable pub add_node : Bytes → HashRing → HashRing
unfolding member add_name add_virtual
add_node node_id s = if member node_id s.nodes then s else record s {
  nodes = add_name node_id s.nodes;
  ring = add_virtual s.virtual_nodes 0 node_id s.ring;
}

unfoldable pub remove_node : Bytes → HashRing → HashRing
unfolding member remove_name remove_virtual
remove_node node_id s =
    if member node_id s.nodes
    then record s {
      nodes = remove_name node_id s.nodes;
      ring = remove_virtual s.virtual_nodes 0 node_id s.ring;
    }
    else s

-- An iterator is the index of its entry, and `end()` is the length.
unfoldable pub lower_bound : ℕ → Table → ℕ
lower_bound h [] = 0
lower_bound h ((k, v) ∷ r) = let rest = lower_bound h r in if ltb k h then suc rest else 0

abbrev pub wrap : ℕ → ℕ → ℕ
wrap size it = if it == size then 0 else it

abbrev pub name_of : Option (ℕ × Bytes) → Bytes
name_of none = []
name_of (some (k, v)) = v

abbrev pub node_at : Table → ℕ → Bytes
node_at r it = name_of (get_elem? r it)

unfoldable pub get_node : Bytes → HashRing → Bytes
unfolding hash lower_bound
get_node key s = node_at s.ring (wrap (length s.ring) (lower_bound (hash key) s.ring))

-- `seen` has the names that the result has.
abbrev pub push_new : Bytes → List Bytes → List Bytes
push_new name result = if member name result then result else result ++ name ∷ []

-- The loop of `GetNodes`; `none` means that the fuel ran out.
unfoldable pub walk : ℕ → Table → ℕ → ℕ → ℕ → Bool → List Bytes → Option (List Bytes)
unfolding member
walk zero r max_nodes start it wrapped result = none
walk (suc fuel) r max_nodes start it wrapped result =
    let result' = push_new (node_at r it) result in
    let at_end = (it + 1) == length r in
    let it' = if at_end then 0 else it + 1 in
    let wrapped' = if at_end then true else wrapped in
    let more = walk fuel r max_nodes start it' wrapped' result' in
    if leb max_nodes (length result)
    then some result
    else if wrapped' && (it' == start)
    then some result'
    else more

-- One round for each entry of the ring, and one for the test that ends the loop.
unfoldable pub get_nodes : Bytes → ℤ → HashRing → Option (List Bytes)
unfolding hash lower_bound walk
get_nodes key n s =
    let start = wrap (length s.ring) (lower_bound (hash key) s.ring) in
    if nat_beq (length s.ring) 0 || leb_ℤ n (pos 0)
    then some []
    else walk (length s.ring + 1) s.ring (min (pos_part n) (length s.nodes)) start start false []

unfoldable pub get_node_count : HashRing → ℕ
get_node_count s = length s.nodes

unfoldable pub has_node : Bytes → HashRing → Bool
unfolding member
has_node node_id s = member node_id s.nodes

unfoldable pub get_all_nodes : HashRing → List Bytes
get_all_nodes s = s.nodes
