-- ===== src/LocalStore/HlcState.antt =====
-- localstore/crdt_adapter.go: `nextHLC` and `observeHLC` on the two clock cells of the metadata
-- table. The physical time is an argument.
pub mod Monotone
use yunpin_ime.Base.{ℕ, ◌+◌, ◌-◌, ◌%◌, ◌^◌, ◌≤◌, ◌||◌, ◌&&◌, Bool}
use yunpin_ime.Base.Tests.{ltb, leb, if◌then◌else◌}
use yunpin_ime.Base.Int.{ℤ, ltb_int, compare_int, increment_int64}
use yunpin_ime.Base.Bytes.{Bytes}
use yunpin_ime.Protocol.Clock.{Hlc}
use Prim.Native.Nat.{Ordering}
use yunpin_ime.Base.{true, false}

pub record HlcState : Type 0 where
  pub wall_millis : ℤ
  pub counter : ℕ

abbrev pub max_uint32 : ℕ
max_uint32 = 2 ^ 32 - 1

unfoldable pub advance_hlc : ℤ → HlcState → HlcState
advance_hlc physical s =
    if ltb_int s.wall_millis physical
    then record { wall_millis = physical; counter = 0 }
    else if leb max_uint32 s.counter
    then record { wall_millis = increment_int64 s.wall_millis; counter = 0 }
    else record s { counter = s.counter + 1 }

-- The clock that `nextHLC` returns: the stored cells, the counter as a `uint32`.
abbrev pub stamp : Bytes → HlcState → Hlc
stamp device s = record { wall_millis = s.wall_millis; counter = s.counter % 2 ^ 32; node = device }

unfoldable pub next_hlc : Bytes → ℤ → HlcState → Hlc × HlcState
unfolding advance_hlc
next_hlc device physical s = let t = advance_hlc physical s in (stamp device t, t)

abbrev same_wall : ℤ → ℤ → Bool
same_wall a b = elim (compare_int a b) [ Ordering.eq ↦ true | _ ↦ false ]

unfoldable pub observe_hlc : Hlc → HlcState → HlcState
observe_hlc observed s =
    if ltb_int s.wall_millis observed.wall_millis
      || same_wall observed.wall_millis s.wall_millis && ltb s.counter observed.counter
    then record { wall_millis = observed.wall_millis; counter = observed.counter }
    else s
