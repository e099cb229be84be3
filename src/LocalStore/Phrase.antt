-- ===== src/LocalStore/Phrase.antt =====
-- localstore/crdt_adapter.go on values: a phrase record and its replicated state. `uint64` sums are
-- written with their wrap-around.
pub mod Totals
pub mod Ready
pub mod Utf8
use yunpin_ime.Base.{
  ℕ, ◌+◌, ◌-◌, ◌%◌, ◌^◌, Bool, true, false, not, ◌&&◌, ◌||◌, Option, none, some, [], ◌∷◌,
}
use yunpin_ime.Base.Tests.{ltb, ◌==◌, if◌then◌else◌}
use yunpin_ime.Base.Lists.{length}
use yunpin_ime.Base.Int.{ℤ, pos, ltb_int}
use yunpin_ime.Base.Bytes.{Bytes, same, is_empty}
use yunpin_ime.Base.Map.{Entries, insert, count_at}
use yunpin_ime.Base.Result.{Result, ok, err, ◌>>=◌, ◌>>◌, fail_if, with_error}
use yunpin_ime.Base.Text.{hex_encode, hex_decode, to_lower, trim_space}
use yunpin_ime.Protocol.Clock.{Hlc, ltb_bytes}
use yunpin_ime.Protocol.Crdt.{PhraseState, LwwBool, Presence, MergeError, entries, merge_phrase}

pub record Phrase : Type 0 where
  pub text : Bytes
  pub pinyin : Bytes
  pub source : Bytes
  pub use_count : ℕ
  pub pinned : Bool
  pub deleted : Bool
  pub last_used_day : ℤ
  pub crdt : PhraseState

pub record PhrasePayload : Type 0 where
  pub text : Bytes
  pub pinyin : Bytes
  pub source : Bytes
  pub last_used_day : ℤ
  pub state : PhraseState

pub data StoreError : Type 0 where
  phrase_required : StoreError
  object_id_failed : StoreError
  seal_failed : StoreError
  open_failed : StoreError
  object_id_mismatch : StoreError
  generation_exhausted : StoreError
  counter_exhausted : StoreError
  payload_text_required : StoreError
  payload_object_invalid : StoreError
  payload_counter_missing : StoreError
  payload_component_invalid : StoreError
  payload_node_invalid : StoreError
  outbox_limit : StoreError
  invalid_outbox_object : StoreError
  invalid_outbox_state : StoreError
  merge_failed : MergeError → StoreError

abbrev pub max_uint64 : ℕ
max_uint64 = 2 ^ 64 - 1

unfoldable pub valid_sync_device_id : Bytes → Bool
valid_sync_device_id id =
    if not (length id == 32) || not (same id (to_lower id))
    then false
    else elim (hex_decode id) [ none ↦ false | some decoded ↦ length decoded == 16 ]

unfoldable pub is_zero_clock : Hlc → Bool
is_zero_clock clock =
    (elim clock.wall_millis [ pos n ↦ n == 0 | _ ↦ false ])
    && clock.counter == 0
    && is_empty clock.node

-- The loop of `totalCounts`, from the total so far.
unfoldable pub total_from : ℕ → Entries ℕ → ℕ
total_from total [] = total
total_from total ((device, count) ∷ rest) =
    let more = total_from ((total + count) % 2 ^ 64) rest in
    if ltb (max_uint64 - total) count then max_uint64 else more

unfoldable pub total_counts : Option (Entries ℕ) → ℕ
unfolding total_from
total_counts counts = total_from 0 (entries counts)

unfoldable pub materialize_phrase : Phrase → Phrase
materialize_phrase p = record p {
  use_count = total_counts p.crdt.counts;
  pinned = p.crdt.pinned.value;
  deleted = not p.crdt.presence.present;
}

-- The first test of `ensurePhraseState`: a new state, or the stored one if it is of the object.
bind_state : Phrase → Bytes → Hlc → Result StoreError PhraseState
bind_state p opaque_id clock =
    if is_empty p.crdt.object_id
    then ok (record {
      object_id = opaque_id;
      counts = some [];
      pinned = record { value = p.pinned; clock = clock };
      presence = record { present = not p.deleted; clock = clock; generation = 1 };
    })
    else if not (same p.crdt.object_id opaque_id)
    then err object_id_mismatch
    else ok p.crdt

-- The migration of the aggregate count of an older record.
migrate_counts : Phrase → Bytes → Entries ℕ → Entries ℕ
migrate_counts p device m =
    let aggregate = total_counts (some m) in
    if ltb aggregate p.use_count
    then insert device ((count_at m device + (p.use_count - aggregate)) % 2 ^ 64) m
    else m

migrate_generation : Phrase → Presence → Presence
migrate_generation p presence =
    if presence.generation == 0
    then record presence { generation = 1; present = not p.deleted }
    else presence

migrate_pinned : Phrase → LwwBool → Hlc → LwwBool
migrate_pinned p pinned clock =
    if is_zero_clock pinned.clock then record { value = p.pinned; clock = clock } else pinned

migrate_clock : Presence → Hlc → Presence
migrate_clock presence clock =
    if is_zero_clock presence.clock then record presence { clock = clock } else presence

unfoldable pub ensure_phrase_state : Phrase → Bytes → Bytes → Hlc → Result StoreError Phrase
unfolding bind_state migrate_counts migrate_generation migrate_pinned migrate_clock
ensure_phrase_state p object_id device clock = do
  state ← bind_state p (hex_encode object_id) clock
  ok (
      materialize_phrase (record p {
        crdt = record {
          object_id = state.object_id;
          counts = some (migrate_counts p device (entries state.counts));
          pinned = migrate_pinned p state.pinned clock;
          presence = migrate_clock (migrate_generation p state.presence) clock;
        };
      }))

unfoldable pub choose_stable_string : Bytes → Bytes → Bytes
choose_stable_string left right =
    if is_empty left
    then right
    else if is_empty right || not (ltb_bytes right left)
    then left
    else right

unfoldable pub merge_phrase_payload :
    PhrasePayload → PhrasePayload → Result MergeError PhrasePayload
merge_phrase_payload left right = do
  state ← merge_phrase left.state right.state
  ok (record {
    text = choose_stable_string left.text right.text;
    pinyin = choose_stable_string left.pinyin right.pinyin;
    source = choose_stable_string left.source right.source;
    last_used_day =
        if ltb_int left.last_used_day right.last_used_day
        then right.last_used_day
        else left.last_used_day;
    state = state;
  })

-- `for device := range counts { if !validSyncDeviceID(device) … }`
all_valid : Entries ℕ → Bool
all_valid [] = true
all_valid ((device, count) ∷ rest) = valid_sync_device_id device && all_valid rest

-- `object_id` is `protocol.OpaqueObjectID` under the store's key.
unfoldable pub validate_payload_object :
    (Bytes → Bytes → Option Bytes) → PhrasePayload → Result StoreError Bytes
unfolding all_valid
validate_payload_object object_id payload = do
  fail_if (is_empty (trim_space payload.text) || is_empty (trim_space payload.pinyin))
      payload_text_required
  id ← with_error object_id_failed (object_id payload.text payload.pinyin)
  fail_if
      (not (same payload.state.object_id (hex_encode id)) || payload.state.presence.generation == 0)
      payload_object_invalid
  counts ← with_error payload_counter_missing payload.state.counts
  fail_if (not (all_valid counts)) payload_component_invalid
  fail_if
      (not (valid_sync_device_id payload.state.pinned.clock.node)
        || not (valid_sync_device_id payload.state.presence.clock.node))
      payload_node_invalid
  ok id
