-- ===== src/Base/Grid.antt =====
-- A concrete `Real` for runs of the model: thousandths, which are not negative.
use Prim.Native.Nat.{ℕ, ◌+◌, ◌-◌, ◌*◌, ◌/◌, ◌%◌, ◌^◌}
use native.Mathlib.Omega.{arith}
use working_for_codex.Base.Int.{pos, pos_part}
use working_for_codex.Base.Tests.{ltb, leb}
use working_for_codex.Base.Real.{Real, HasFloats}

instance abbrev pub grid : Real ℕ
grid = record {
  add = λ a b. a + b;
  sub = λ a b. a - b;
  mul = λ a b. a * b / 1000;
  div = λ a b. a * 1000 / b;
  abs = λ a. a;
  neg = λ a. 0;
  sqrt = λ a. a;
  atan2 = λ y x. y;
  pow = λ a b. a;
  less = ltb;
  at_most = leb;
  lowest = 0;
  whole = λ z. pos_part z * 1000;
  truncate = λ a. a / 1000;
  lround = λ a. pos ((a + 500) / 1000);
  ratio = λ n d. n * 1000 / d;
  to_bits = λ a. a % 2 ^ 32;
  of_bits = λ b. b;
}

pub grid-HasFloats : HasFloats ℕ
grid-HasFloats x = omega arith
