-- ===== src/Base/Text.antt =====
-- A `std::string` is the list of its bytes. Equality and the order of `std::less` on them.
use working_for_codex.Base.Tests.{ltb, nat_beq, if◌then◌else◌, HasEquality}
use Prim.Native.Nat.{ℕ, zero, suc, ◌+◌, ◌/◌, ◌%◌}
use Prim.Native.Char.{code}
use Prim.Native.String.{String}
use mathlib.Core.Path.{◌≡◌, refl}
use mathlib.Core.Logic.{◌↔◌, ◌≢◌}
use mathlib.Core.Bool.{Bool, true, false, ◌&&◌}
use mathlib.Core.List.{List, [], ◌∷◌}
use native.Mathlib.Omega.{arith}

abbrev pub Bytes : Type 0
Bytes = List ℕ

-- The bytes of an ASCII literal.
abbrev pub codes : String → Bytes
codes String.[] = []
codes (String.◌∷◌ c s) = code c ∷ codes s

unfoldable pub same : Bytes → Bytes → Bool
same [] [] = true
same [] (y ∷ ys) = false
same (x ∷ xs) [] = false
same (x ∷ xs) (y ∷ ys) = nat_beq x y && same xs ys

pub same_sound : (xs ys : Bytes) → same xs ys ≡ true → xs ≡ ys
unfolding same
same_sound [] [] h = refl
same_sound [] (y ∷ ys) h = cc
same_sound (x ∷ xs) [] h = cc
same_sound (x ∷ xs) (y ∷ ys) h = ground (arith, same_sound xs ys)

pub same_refl : (xs : Bytes) → same xs xs ≡ true
unfolding same
same_refl [] = refl
same_refl (x ∷ xs) = ground (arith, same_refl xs)

pub same_iff : (xs ys : Bytes) → (same xs ys ≡ true) ↔ (xs ≡ ys)
same_iff xs ys = (same_sound xs ys, λ e. rw e (same_refl ys))

instance abbrev pub bytes_eq : HasEquality Bytes
bytes_eq = record { equal = same; equal_iff = same_iff }

-- `<` of `std::string`.
unfoldable pub before : Bytes → Bytes → Bool
before xs [] = false
before [] (y ∷ ys) = true
before (x ∷ xs) (y ∷ ys) = if nat_beq x y then before xs ys else ltb x y

pub same-ne : (xs ys : Bytes) → same xs ys ≡ false → xs ≢ ys
same-ne xs ys h e = cc (h, same_refl xs, e)

pub same-ne_false : (xs ys : Bytes) → xs ≢ ys → same xs ys ≡ false
same-ne_false xs ys apart = ground (arith, apart, same_sound xs ys)

-- `os << n`: the decimal digits, with one unit of fuel for each.
unfoldable pub decimal_digits : ℕ → ℕ → Bytes → Bytes
decimal_digits zero n rest = rest
decimal_digits (suc f) n rest =
    let more = decimal_digits f (n / 10) ((48 + n % 10) ∷ rest) in
    if ltb n 10 then (48 + n) ∷ rest else more

unfoldable pub decimal : ℕ → Bytes
unfolding decimal_digits
decimal n = decimal_digits (n + 1) n []
