-- ===== src/Ring/Distribution.antt =====
-- `GetDistribution` of consistent_hash.cpp: how many of some keys each node gets.
use working_for_codex.Base.{
  ℕ, ◌+◌, ◌≡◌, refl, Bytes, List, [], ◌∷◌, Option, none, some, if◌then◌else◌, length, bytes_eq,
  nat_beq, arith,
}
use working_for_codex.Base.Dict.{Dict, find, put}
use working_for_codex.Ring.Hash.{HashRing, get_node}

abbrev count_of : Option ℕ → ℕ
count_of none = 0
count_of (some n) = n

unfoldable no_keys : List Bytes → Dict Bytes ℕ
no_keys [] = []
no_keys (n ∷ ns) = (n, 0) ∷ no_keys ns

unfoldable count_key : Bytes → Dict Bytes ℕ → Dict Bytes ℕ
count_key node m = if nat_beq (length node) 0 then m else put node (count_of (find node m) + 1) m

unfoldable count_keys : List Bytes → HashRing → Dict Bytes ℕ → Dict Bytes ℕ
unfolding count_key get_node
count_keys [] s m = m
count_keys (key ∷ keys) s m = count_keys keys s (count_key (get_node key s) m)

unfoldable pub get_distribution : List Bytes → HashRing → Dict Bytes ℕ
unfolding count_keys no_keys
get_distribution keys s = count_keys keys s (no_keys s.nodes)

abbrev pub total : Dict Bytes ℕ → ℕ
total [] = 0
total ((k, n) ∷ m) = n + total m

-- The keys that have a node at all.
unfoldable pub routed : List Bytes → HashRing → ℕ
unfolding get_node
routed [] s = 0
routed (key ∷ keys) s =
    let rest = routed keys s in if nat_beq (length (get_node key s)) 0 then rest else rest + 1

total-put : (k : Bytes) (m : Dict Bytes ℕ) → total (put k (count_of (find k m) + 1) m) ≡ total m + 1
unfolding find put
total-put k [] = refl
total-put k ((j, n) ∷ m) = ground (arith, total-put k m)

count_keys-total :
    (keys : List Bytes) (s : HashRing) (m : Dict Bytes ℕ)
    → total (count_keys keys s m) ≡ total m + routed keys s
unfolding count_keys routed count_key
count_keys-total [] s m = omega arith
count_keys-total (key ∷ keys) s m =
    ground
      (arith, count_keys-total keys s (count_key (get_node key s) m), total-put (get_node key s) m)

total-no_keys : (ns : List Bytes) → total (no_keys ns) ≡ 0
unfolding no_keys
total-no_keys [] = refl
total-no_keys (n ∷ ns) = omega (arith, total-no_keys ns)

-- The distribution counts each key that has a node exactly once.
pub get_distribution-total :
    (keys : List Bytes) (s : HashRing) → total (get_distribution keys s) ≡ routed keys s
unfolding get_distribution
get_distribution-total keys s =
    let counted = count_keys-total keys s (no_keys s.nodes) in
    omega (arith, counted, total-no_keys s.nodes)
