-- ===== src/Protocol/Clock.antt =====
-- protocol/crdt.go: the hybrid logical clock and its order. Go's -1, 0 and 1 are `lt`, `eq`, `gt`.
use Prim.Native.Nat.{ℕ, compare, Ordering}
use Prim.Native.Nat.Ordering.{lt, eq, gt}
use yunpin_ime.Base.{◌≡◌, Bool, true, false, arith, fun_ext}
use yunpin_ime.Base.Tests.{ltb, if◌then◌else◌}
use yunpin_ime.Base.Order.{
  IsTotalOrder, lex, on, compare-IsTotalOrder, lex-IsTotalOrder, on-IsTotalOrder,
}
use yunpin_ime.Base.Int.{ℤ, ltb_int, compare_int, compare_int-IsTotalOrder}
use yunpin_ime.Base.Bytes.{Bytes, compare_bytes, compare_bytes-IsTotalOrder}

pub record Hlc : Type 0 where
  pub wall_millis : ℤ
  pub counter : ℕ
  pub node : Bytes

abbrev pub ltb_bytes : Bytes → Bytes → Bool
ltb_bytes a b = elim (compare_bytes a b) [ lt ↦ true | _ ↦ false ]

unfoldable pub compare_hlc : Hlc → Hlc → Ordering
compare_hlc clock other =
    if ltb_int clock.wall_millis other.wall_millis
    then lt
    else if ltb_int other.wall_millis clock.wall_millis
    then gt
    else if ltb clock.counter other.counter
    then lt
    else if ltb other.counter clock.counter
    then gt
    else if ltb_bytes clock.node other.node
    then lt
    else if ltb_bytes other.node clock.node
    then gt
    else eq

abbrev clock_key : Hlc → ℤ × (ℕ × Bytes)
clock_key c = (c.wall_millis, (c.counter, c.node))

abbrev compare_keys : ℤ × (ℕ × Bytes) → ℤ × (ℕ × Bytes) → Ordering
compare_keys = lex compare_int (lex compare compare_bytes)

clock_key_injective : (x y : Hlc) → clock_key x ≡ clock_key y → x ≡ y
clock_key_injective x y e = ground arith

-- The chain of tests is the lexicographic order of wall time, counter and node.
compare_hlc-lex : (x y : Hlc) → compare_hlc x y ≡ on compare_keys clock_key x y
unfolding compare_hlc
compare_hlc-lex x y =
    let wall = compare_int-IsTotalOrder in
    let node = compare_bytes-IsTotalOrder in
    ground (
      arith,
      wall.swap_lt x.wall_millis y.wall_millis,
      wall.swap_gt x.wall_millis y.wall_millis,
      wall.eq_same x.wall_millis y.wall_millis,
      wall.self_eq x.wall_millis,
      node.swap_lt x.node y.node,
      node.swap_gt x.node y.node,
      node.eq_same x.node y.node,
      node.self_eq x.node,
    )

-- So clocks are totally ordered, and clocks that compare equal are equal.
pub compare_hlc-IsTotalOrder : IsTotalOrder compare_hlc
compare_hlc-IsTotalOrder = rw (fun_ext λ x. fun_ext λ y. compare_hlc-lex x y) (
    on-IsTotalOrder compare_keys clock_key clock_key_injective (
      lex-IsTotalOrder compare_int _ compare_int-IsTotalOrder
        (lex-IsTotalOrder compare compare_bytes compare-IsTotalOrder compare_bytes-IsTotalOrder)))
