-- ===== src/Common/Float.antt =====
-- What the scheduler uses of `f32`: a parameter, since the language has no floats here. Nothing is
-- assumed of the operations.
use circus.Common.Tests.{ltb, leb, ◌==◌, if◌then◌else◌}
use Prim.Native.Nat.{ℕ, ◌*◌}
use mathlib.Core.Bool.{Bool}
use mathlib.Core.Option.{Option, some}

-- `std::cmp::Ordering`.
pub data Ordering : Type 0 where
  less equal greater : Ordering

pub record Float32 : Type 1 where
  pub Carrier : Type 0
  -- `none` where one of the two is not a number.
  pub partial_cmp : Carrier → Carrier → Option Ordering
  pub mul : Carrier → Carrier → Carrier
  -- `n as f32`.
  pub of_u32 : ℕ → Carrier
  -- `a <= b`, which is false where one of the two is not a number.
  pub at_most : Carrier → Carrier → Bool

abbrev pub compare_ℕ : ℕ → ℕ → Ordering
compare_ℕ a b = if ltb a b then less else if a == b then equal else greater

-- Floats that happen to be whole numbers, to run the model with.
abbrev pub whole_floats : Float32
whole_floats = record {
  Carrier = ℕ;
  partial_cmp = λ a b. some (compare_ℕ a b);
  mul = λ a b. a * b;
  of_u32 = λ n. n;
  at_most = λ a b. leb a b;
}
