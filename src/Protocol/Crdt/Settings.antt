-- ===== src/Protocol/Crdt/Settings.antt =====
-- `MergeSetting` takes the later setting, or the larger bytes at one clock.
use Prim.Native.Nat.{Ordering}
use yunpin_ime.Base.{◌≡◌, false, not, ◌||◌, arith}
use yunpin_ime.Base.Tests.{if◌then◌else◌}
use yunpin_ime.Base.Order.{lex, on, pick, lex-IsTotalOrder, on-IsTotalOrder}
use yunpin_ime.Base.Semilattice.{IsSemilattice}
use yunpin_ime.Base.Bytes.{
  Bytes, same, same_iff, is_empty, compare_bytes, compare_bytes-IsTotalOrder,
}
use yunpin_ime.Base.Result.{Result, ok, err, ◌>>=◌}
use yunpin_ime.Protocol.Clock.{Hlc, compare_hlc, compare_hlc-IsTotalOrder}
use yunpin_ime.Protocol.Crdt.{SettingState, MergeError, different_setting_keys, merge_setting}
use yunpin_ime.Protocol.Crdt.Choose.{pick-IsSemilattice}

abbrev setting_key : SettingState → Hlc × (Bytes × Bytes)
setting_key s = (s.clock, (s.value, s.key))

compare_setting : SettingState → SettingState → Ordering
compare_setting = on (lex compare_hlc (lex compare_bytes compare_bytes)) setting_key

setting_key_injective : (x y : SettingState) → setting_key x ≡ setting_key y → x ≡ y
setting_key_injective x y e = ground arith

later_setting : SettingState → SettingState → SettingState
later_setting = pick compare_setting

later-IsSemilattice : IsSemilattice later_setting
unfolding later_setting compare_setting
later-IsSemilattice = pick-IsSemilattice _ (
    on-IsTotalOrder _ setting_key setting_key_injective (
      lex-IsTotalOrder compare_hlc _ compare_hlc-IsTotalOrder (
        lex-IsTotalOrder compare_bytes compare_bytes compare_bytes-IsTotalOrder
          compare_bytes-IsTotalOrder)))

merge_later : SettingState → SettingState → Result MergeError SettingState
merge_later left right =
    if not (is_empty left.key || not (same left.key right.key))
    then ok (later_setting left right)
    else err different_setting_keys

merge_setting-later :
    (left right : SettingState) → merge_setting left right ≡ merge_later left right
unfolding merge_setting merge_later later_setting compare_setting
merge_setting-later left right =
    ground (arith, same_iff left.key right.key, compare_bytes-IsTotalOrder.self_eq left.key)

key-later :
    (left right : SettingState) → left.key ≡ right.key → (later_setting left right).key ≡ left.key
unfolding later_setting compare_setting
key-later left right e = ground arith

-- The two orders of a merge give one result, or one error.
pub merge_setting_comm :
    (left right : SettingState) → merge_setting left right ≡ merge_setting right left
unfolding merge_later
merge_setting_comm left right =
    let later = later-IsSemilattice in
    ground (
      arith,
      merge_setting-later left right,
      merge_setting-later right left,
      same_iff left.key right.key,
      same_iff right.key left.key,
      later.comm left right,
    )

-- Merging a setting that has a key with itself gives it back.
pub merge_setting_idem : (s : SettingState) → is_empty s.key ≡ false → merge_setting s s ≡ ok s
unfolding merge_later
merge_setting_idem s e =
    let later = later-IsSemilattice in
    ground (arith, merge_setting-later s s, same_iff s.key s.key, later.idem s)

merge_later_assoc :
    (a b c : SettingState)
    → (merge_later a b >>= λ m. merge_later m c) ≡ (merge_later b c >>= λ m. merge_later a m)
unfolding merge_later
merge_later_assoc a b c = grind (
  arith,
  later-IsSemilattice.assoc a b c,
  key-later a b,
  key-later b c,
  same_iff a.key b.key,
  same_iff b.key c.key,
  same_iff a.key c.key,
)

-- Merging first the left pair or first the right pair gives one result, or one error.
pub merge_setting_assoc :
    (a b c : SettingState)
    → (merge_setting a b >>= λ m. merge_setting m c)
      ≡ (merge_setting b c >>= λ m. merge_setting a m)
merge_setting_assoc a b c = simp merge_setting-later (merge_later_assoc a b c)
