-- ===== src/LocalStore/HlcState/Monotone.antt =====
-- The clock of a device only rises, and rises past every clock that the device has observed.
use Prim.Native.Nat.Ordering.{lt}
use yunpin_ime.Base.{◌≤◌, ◌<◌, ◌≡◌, ◌≢◌, arith, ◌⊎◌}
use yunpin_ime.Base.Int.{ℤ, pos, compare_int-IsTotalOrder, lt-increment_int64, max_int64}
use yunpin_ime.Base.Bytes.{Bytes, compare_bytes-IsTotalOrder}
use yunpin_ime.Protocol.Clock.{Hlc, compare_hlc, compare_hlc-IsTotalOrder}
use yunpin_ime.LocalStore.HlcState.{HlcState, max_uint32, stamp, next_hlc, observe_hlc}

-- The counter cell holds a `uint32`, and a tick is left before both cells are full.
pub record HasRoom (s : HlcState) : Type 0 where
  pub counted : s.counter ≤ max_uint32
  pub room : (s.wall_millis ≢ pos max_int64) ⊎ (s.counter < max_uint32)

-- While the cells have room, the clock taken is later than the stored cells, whatever the physical
-- clock says, and the counter stored then fits in a `uint32`.
pub next_hlc_increases :
    (device earlier : Bytes) (physical : ℤ) (s : HlcState)
    → HasRoom s
    → (compare_hlc (stamp earlier s) (next_hlc device physical s).0 ≡ lt)
      × ((next_hlc device physical s).1.counter ≤ max_uint32)
unfolding next_hlc compare_hlc
next_hlc_increases device earlier physical s h = ground (
  arith,
  compare_int-IsTotalOrder.self_eq s.wall_millis,
  lt-increment_int64 s.wall_millis,
  compare_int-IsTotalOrder.swap_lt s.wall_millis physical,
  h.room,
)

-- With counters that fit in a `uint32`, what was observed does not lie above the stored cells, and
-- observing does not lower these.
pub observe_hlc_upper :
    (observed : Hlc) (earlier : Bytes) (s : HlcState)
    → s.counter ≤ max_uint32
    → observed.counter ≤ max_uint32
    → (compare_hlc (stamp observed.node (observe_hlc observed s)) observed ≢ lt)
      × (compare_hlc (stamp earlier (observe_hlc observed s)) (stamp earlier s) ≢ lt)
unfolding observe_hlc compare_hlc
observe_hlc_upper observed earlier s h k = ground (
  arith,
  compare_int-IsTotalOrder.self_eq s.wall_millis,
  compare_int-IsTotalOrder.self_eq observed.wall_millis,
  compare_int-IsTotalOrder.eq_same observed.wall_millis s.wall_millis,
  compare_int-IsTotalOrder.swap_lt s.wall_millis observed.wall_millis,
  compare_int-IsTotalOrder.swap_gt observed.wall_millis s.wall_millis,
  compare_int-IsTotalOrder.eq_same s.wall_millis observed.wall_millis,
  compare_bytes-IsTotalOrder.self_eq earlier,
  compare_bytes-IsTotalOrder.self_eq observed.node,
)

-- With such counters, and room after the observation, a clock taken after a clock was observed is
-- later than that clock.
pub next_hlc_after_observe :
    (device : Bytes) (physical : ℤ) (observed : Hlc) (s : HlcState)
    → s.counter ≤ max_uint32
    → observed.counter ≤ max_uint32
    → HasRoom (observe_hlc observed s)
    → compare_hlc observed (next_hlc device physical (observe_hlc observed s)).0 ≡ lt
next_hlc_after_observe device physical observed s h k room =
    let t : HlcState = observe_hlc observed s in
    let seen : Hlc = stamp observed.node t in
    let fresh : Hlc = (next_hlc device physical t).0 in
    ground (
      arith,
      (observe_hlc_upper observed device s h k).0,
      (next_hlc_increases device observed.node physical t room).0,
      compare_hlc-IsTotalOrder.chain_lt observed seen fresh,
      compare_hlc-IsTotalOrder.swap_gt seen observed,
      compare_hlc-IsTotalOrder.eq_same seen observed,
    )
