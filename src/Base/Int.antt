-- ===== src/Base/Int.antt =====
-- Signed integers over the native numbers, their order, and the increment of an `int64`.
use Prim.Native.Nat.{ℕ, zero, suc, ◌+◌, ◌-◌, ◌^◌, compare, Ordering}
use Prim.Native.Nat.Ordering.{lt, eq, gt}
use mathlib.Core.Path.{◌≡◌, refl}
use mathlib.Core.Logic.{◌≢◌}
use mathlib.Core.Bool.{Bool, true, false}
use native.Mathlib.Omega.{arith}
use yunpin_ime.Base.Tests.{◌==◌, if◌then◌else◌}
use yunpin_ime.Base.Order.{IsTotalOrder}

-- `negsuc n` is -(n + 1).
pub data ℤ : Type 0 where
  pos : ℕ → ℤ
  negsuc : ℕ → ℤ

unfoldable pub compare_int : ℤ → ℤ → Ordering
compare_int (pos a) (pos b) = compare a b
compare_int (pos a) (negsuc b) = gt
compare_int (negsuc a) (pos b) = lt
compare_int (negsuc a) (negsuc b) = compare b a

compare_int_refl : (a : ℤ) → compare_int a a ≡ eq
unfolding compare_int
compare_int_refl (pos a) = ground arith
compare_int_refl (negsuc a) = ground arith

compare_int_trans : (a b c : ℤ) → compare_int a b ≡ lt → compare_int b c ≡ lt → compare_int a c ≡ lt
unfolding compare_int
compare_int_trans (pos a) (pos b) (pos c) = ground arith
compare_int_trans (negsuc a) (negsuc b) (negsuc c) = ground arith
compare_int_trans _ _ _ = ground arith

pub compare_int-IsTotalOrder : IsTotalOrder compare_int
unfolding compare_int
compare_int-IsTotalOrder = record {
  self_eq = compare_int_refl;
  eq_same = λ a b. ground arith;
  swap_gt = λ a b. ground arith;
  swap_lt = λ a b. ground arith;
  chain_lt = compare_int_trans;
}

-- `a < b` and `a <= b` of signed integers.
abbrev pub ltb_int : ℤ → ℤ → Bool
ltb_int a b = elim (compare_int a b) [ lt ↦ true | _ ↦ false ]

abbrev pub max_int64 : ℕ
max_int64 = 2 ^ 63 - 1

-- `x++` of an `int64`, which wraps to the least integer.
unfoldable pub increment_int64 : ℤ → ℤ
increment_int64 (pos n) = if n == max_int64 then negsuc max_int64 else pos (n + 1)
increment_int64 (negsuc zero) = pos 0
increment_int64 (negsuc (suc n)) = negsuc n

pub lt-increment_int64 : (a : ℤ) → a ≢ pos max_int64 → compare_int a (increment_int64 a) ≡ lt
unfolding compare_int increment_int64
lt-increment_int64 (pos n) h = ground arith
lt-increment_int64 (negsuc zero) h = refl
lt-increment_int64 (negsuc (suc n)) h = ground arith
