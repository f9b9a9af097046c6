-- ===== src/Base/Real.antt =====
-- What the code does with `double` and `float`. The values and their operations are parameters: a
-- model names no rounding, and what a theorem needs of them is a hypothesis.
use Prim.Native.Nat.{ℕ, ◌<◌, ◌^◌}
use mathlib.Core.Bool.{Bool}
use working_for_codex.Base.Int.{ℤ}

pub record Real {ℓ} (D : Type ℓ) : Type ℓ where
  pub add : D → D → D
  pub sub : D → D → D
  pub mul : D → D → D
  pub div : D → D → D
  pub abs : D → D
  pub neg : D → D
  pub sqrt : D → D
  pub atan2 : D → D → D
  pub pow : D → D → D
  pub less : D → D → Bool
  pub at_most : D → D → Bool
  pub lowest : D
  -- The conversions of a signed integer, and back by `std::lround`.
  pub whole : ℤ → D
  pub lround : D → ℤ
  -- The cast to an unsigned integer.
  pub truncate : D → ℕ
  -- A literal, as a fraction, and the conversion of an integer.
  pub ratio : ℕ → ℕ → D
  -- The bit pattern of the `float` nearest to a value, and the value of a `float`.
  pub to_bits : D → ℕ
  pub of_bits : ℕ → D

abbrev pub of_nat {ℓ} : {D : Type ℓ} ⦃r : Real D⦄ → ℕ → D
of_nat ⦃r⦄ n = r.ratio n 1

-- A `float` has 32 bits.
abbrev pub HasFloats {ℓ} : (D : Type ℓ) ⦃r : Real D⦄ → Type ℓ
HasFloats D ⦃r⦄ = (x : D) → r.to_bits x < 2 ^ 32

-- A `double` as a `float`. A sum, difference, product or quotient of two floats is rounded to a float.
unfoldable pub narrow {ℓ} : {D : Type ℓ} ⦃r : Real D⦄ → D → D
narrow ⦃r⦄ a = r.of_bits (r.to_bits a)

module _ {ℓ} {D : Type ℓ} ⦃r : Real D⦄ where
  abbrev pub float_add : D → D → D
  float_add a b = narrow (r.add a b)

  abbrev pub float_sub : D → D → D
  float_sub a b = narrow (r.sub a b)

  abbrev pub float_mul : D → D → D
  float_mul a b = narrow (r.mul a b)

  abbrev pub float_div : D → D → D
  float_div a b = narrow (r.div a b)
