-- ===== src/Base/Bytes.antt =====
-- Byte strings: Go's `string` and `[]byte`, as lists of numbers.
use Prim.Native.Nat.{ℕ, compare, Ordering}
use Prim.Native.Nat.Ordering.{lt, eq, gt}
use Prim.Native.Char.{code}
use Prim.Native.String.{String}
use mathlib.Core.Path.{◌≡◌, refl}
use mathlib.Core.Logic.{◌↔◌}
use mathlib.Core.Bool.{Bool, true, false, ◌&&◌}
use mathlib.Core.List.{List, [], ◌∷◌}
use native.Mathlib.Omega.{arith}
use yunpin_ime.Base.Tests.{◌==◌}
use yunpin_ime.Base.Order.{IsTotalOrder, then}

abbrev pub Bytes : Type 0
Bytes = List ℕ

-- The bytes of an ASCII literal.
abbrev pub ascii : String → Bytes
ascii String.[] = []
ascii (String.◌∷◌ c s) = code c ∷ ascii s

-- Go's `<` on strings and `bytes.Compare`.
unfoldable pub compare_bytes : Bytes → Bytes → Ordering
compare_bytes [] [] = eq
compare_bytes [] (y ∷ ys) = lt
compare_bytes (x ∷ xs) [] = gt
compare_bytes (x ∷ xs) (y ∷ ys) = then (compare x y) (compare_bytes xs ys)

module _ where
  refl_lem : (a : Bytes) → compare_bytes a a ≡ eq
  unfolding compare_bytes
  refl_lem [] = refl
  refl_lem (x ∷ xs) = ground (arith, refl_lem xs)

  eq_lem : (a b : Bytes) → compare_bytes a b ≡ eq → a ≡ b
  unfolding compare_bytes
  eq_lem [] [] h = refl
  eq_lem [] (y ∷ ys) h = cc
  eq_lem (x ∷ xs) [] h = cc
  eq_lem (x ∷ xs) (y ∷ ys) h = ground (arith, eq_lem xs ys)

  gt_lem : (a b : Bytes) → compare_bytes a b ≡ gt → compare_bytes b a ≡ lt
  unfolding compare_bytes
  gt_lem [] [] h = cc
  gt_lem [] (y ∷ ys) h = cc
  gt_lem (x ∷ xs) [] h = refl
  gt_lem (x ∷ xs) (y ∷ ys) h = ground (arith, gt_lem xs ys)

  lt_lem : (a b : Bytes) → compare_bytes a b ≡ lt → compare_bytes b a ≡ gt
  unfolding compare_bytes
  lt_lem [] [] h = cc
  lt_lem [] (y ∷ ys) h = refl
  lt_lem (x ∷ xs) [] h = cc
  lt_lem (x ∷ xs) (y ∷ ys) h = ground (arith, lt_lem xs ys)

  trans_lem :
      (a b c : Bytes) → compare_bytes a b ≡ lt → compare_bytes b c ≡ lt → compare_bytes a c ≡ lt
  unfolding compare_bytes
  trans_lem [] [] c h k = cc
  trans_lem [] (y ∷ ys) [] h k = cc
  trans_lem [] (y ∷ ys) (z ∷ zs) h k = refl
  trans_lem (x ∷ xs) [] c h k = cc
  trans_lem (x ∷ xs) (y ∷ ys) [] h k = cc
  trans_lem (x ∷ xs) (y ∷ ys) (z ∷ zs) h k = ground (arith, trans_lem xs ys zs)

pub compare_bytes-IsTotalOrder : IsTotalOrder compare_bytes
compare_bytes-IsTotalOrder = record {
  self_eq = refl_lem;
  eq_same = eq_lem;
  swap_gt = gt_lem;
  swap_lt = lt_lem;
  chain_lt = trans_lem;
}

-- Go's `==` on strings and `bytes.Equal`.
unfoldable pub same : Bytes → Bytes → Bool
same [] [] = true
same [] (y ∷ ys) = false
same (x ∷ xs) [] = false
same (x ∷ xs) (y ∷ ys) = x == y && same xs ys

same_refl : (a : Bytes) → same a a ≡ true
unfolding same
same_refl [] = refl
same_refl (x ∷ xs) = ground (arith, same_refl xs)

pub same_iff : (a b : Bytes) → (same a b ≡ true) ↔ (a ≡ b)
unfolding same
same_iff [] [] = ground arith
same_iff [] (y ∷ ys) = ground arith
same_iff (x ∷ xs) [] = ground arith
same_iff (x ∷ xs) (y ∷ ys) = ground (arith, same_iff xs ys)

unfoldable pub is_empty : Bytes → Bool
is_empty [] = true
is_empty (x ∷ xs) = false
