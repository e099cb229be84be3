-- ===== src/Protocol/Crdt/Choose.antt =====
-- Both choices take the larger value of a total order, so they ignore order and repetition.
use Prim.Native.Nat.{ℕ, compare, Ordering}
use Prim.Native.Nat.Ordering.{lt, eq, gt}
use yunpin_ime.Base.{◌≡◌, Bool, true, false, not, arith, fun_ext}
use yunpin_ime.Base.Order.{
  IsTotalOrder, lex, on, pick, pick_idem, pick_comm, pick_assoc, compare-IsTotalOrder,
  lex-IsTotalOrder, on-IsTotalOrder,
}
use yunpin_ime.Base.Semilattice.{IsSemilattice}
use yunpin_ime.Protocol.Clock.{Hlc, compare_hlc, compare_hlc-IsTotalOrder}
use yunpin_ime.Protocol.Crdt.{LwwBool, Presence, choose_bool, choose_presence}

-- `false` is below `true`.
compare_bool : Bool → Bool → Ordering
compare_bool false true = lt
compare_bool true false = gt
compare_bool _ _ = eq

compare_bool-IsTotalOrder : IsTotalOrder compare_bool
unfolding compare_bool
compare_bool-IsTotalOrder = ground arith

pub pick-IsSemilattice {ℓ} :
    {K : Type ℓ} (f : K → K → Ordering) → IsTotalOrder f → IsSemilattice (pick f)
pick-IsSemilattice f l = record {
  idem = pick_idem f l;
  comm = pick_comm f l;
  assoc = pick_assoc f l;
}

abbrev lww_key : LwwBool → Hlc × Bool
lww_key v = (v.clock, v.value)

abbrev compare_lww : LwwBool → LwwBool → Ordering
compare_lww = on (lex compare_hlc compare_bool) lww_key

choose_bool-pick : (x y : LwwBool) → choose_bool x y ≡ pick compare_lww x y
unfolding choose_bool compare_bool
choose_bool-pick x y = ground (arith, compare_hlc-IsTotalOrder.eq_same x.clock y.clock)

pub choose_bool-IsSemilattice : IsSemilattice choose_bool
choose_bool-IsSemilattice = rw (fun_ext λ x. fun_ext λ y. choose_bool-pick x y) (
    pick-IsSemilattice compare_lww (
      on-IsTotalOrder _ lww_key (λ x y e. ground arith)
        (lex-IsTotalOrder compare_hlc compare_bool compare_hlc-IsTotalOrder
          compare_bool-IsTotalOrder)))

-- A removal is above a presence of its generation.
abbrev presence_key : Presence → ℕ × (Bool × Hlc)
presence_key p = (p.generation, (not p.present, p.clock))

abbrev compare_presence : Presence → Presence → Ordering
compare_presence = on (lex compare (lex compare_bool compare_hlc)) presence_key

choose_presence-pick : (x y : Presence) → choose_presence x y ≡ pick compare_presence x y
unfolding choose_presence compare_bool
choose_presence-pick x y = ground arith

presence_key_injective : (x y : Presence) → presence_key x ≡ presence_key y → x ≡ y
presence_key_injective x y e = ground arith

pub choose_presence-IsSemilattice : IsSemilattice choose_presence
choose_presence-IsSemilattice = rw (fun_ext λ x. fun_ext λ y. choose_presence-pick x y) (
    pick-IsSemilattice compare_presence (
      on-IsTotalOrder _ presence_key presence_key_injective (
        lex-IsTotalOrder compare _ compare-IsTotalOrder (
          lex-IsTotalOrder compare_bool compare_hlc compare_bool-IsTotalOrder
            compare_hlc-IsTotalOrder))))
