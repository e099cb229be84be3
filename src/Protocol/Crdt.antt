-- ===== src/Protocol/Crdt.antt =====
-- protocol/crdt.go: last-writer-wins flags, presence, per-device counters and settings.
-- A Go map is an association list with distinct keys, under `none` for nil.
mod Choose
pub mod Counts
pub mod Merge
pub mod Removal
pub mod Settings
mod Tests
pub mod Converge
use Prim.Native.Nat.Ordering.{lt, eq, gt}
use yunpin_ime.Base.{ℕ, Bool, true, false, Option, none, some, List, [], ◌∷◌, ◌||◌, not}
use yunpin_ime.Base.Tests.{ltb, if◌then◌else◌}
use yunpin_ime.Base.Bytes.{Bytes, same, is_empty, compare_bytes}
use yunpin_ime.Base.Map.{Entries, insert, count_at}
use yunpin_ime.Base.Result.{Result, ok, err, ◌>>=◌, ◌>>◌, fail_if}
use yunpin_ime.Protocol.Clock.{Hlc, compare_hlc}

pub record LwwBool : Type 0 where
  pub value : Bool
  pub clock : Hlc

pub record Presence : Type 0 where
  pub present : Bool
  pub clock : Hlc
  pub generation : ℕ

pub record PhraseState : Type 0 where
  pub object_id : Bytes
  pub counts : Option (Entries ℕ)
  pub pinned : LwwBool
  pub presence : Presence

unfoldable pub choose_bool : LwwBool → LwwBool → LwwBool
choose_bool left right = elim (compare_hlc left.clock right.clock) [
  | lt ↦ right
  | gt ↦ left
  | eq ↦ if right.value then right else left
]

abbrev pub differ : Bool → Bool → Bool
differ true b = not b
differ false b = b

unfoldable pub choose_presence : Presence → Presence → Presence
choose_presence left right =
    if ltb left.generation right.generation
    then right
    else if ltb right.generation left.generation
    then left
    else if differ left.present right.present
    then (if not right.present then right else left)
    else elim (compare_hlc left.clock right.clock) [ lt ↦ right | gt ↦ left | eq ↦ left ]

-- The entries of a map that may be nil.
abbrev pub entries {ℓ} : {V : Type ℓ} → Option (Entries V) → Entries V
entries none = []
entries (some m) = m

-- The loop of `MergePhrase` over the right counters.
unfoldable pub raise_counts : Entries ℕ → Entries ℕ → Entries ℕ
raise_counts result [] = result
raise_counts result ((device, count) ∷ rest) =
    raise_counts (if ltb (count_at result device) count then insert device count result else result)
      rest

pub data MergeError : Type 0 where
  different_phrase_objects different_setting_keys : MergeError

unfoldable pub merge_phrase : PhraseState → PhraseState → Result MergeError PhraseState
merge_phrase left right = do
  fail_if (is_empty left.object_id || not (same left.object_id right.object_id))
      different_phrase_objects
  ok (record {
    object_id = left.object_id;
    counts = some (raise_counts (entries left.counts) (entries right.counts));
    pinned = choose_bool left.pinned right.pinned;
    presence = choose_presence left.presence right.presence;
  })

pub record SettingState : Type 0 where
  pub key : Bytes
  pub value : Bytes
  pub clock : Hlc

unfoldable pub merge_setting : SettingState → SettingState → Result MergeError SettingState
merge_setting left right = do
  fail_if (is_empty left.key || not (same left.key right.key)) different_setting_keys
  ok (elim (compare_hlc left.clock right.clock) [
    | lt ↦ right
    | gt ↦ left
    | eq ↦ elim (compare_bytes left.value right.value) [ lt ↦ right | _ ↦ left ]
  ])
