-- ===== src/LocalStore/Store.antt =====
-- localstore/store.go: the tables, and the statements that the operations share. SQL statements and
-- transactions succeed; row timestamps are not kept.
pub mod Text
pub mod Sound
pub mod Save
pub mod Learn
pub mod Outbox
pub mod Remote
use yunpin_ime.Base.{
  ℕ, zero, suc, ◌+◌, ◌-◌, ◌/◌, ◌%◌, ◌^◌, ◌≡◌, Bool, true, false, not, ◌||◌, ◌&&◌, Option, none,
  some, List, [], ◌∷◌, map,
}
use yunpin_ime.Base.Tests.{ltb, leb, ◌==◌, if◌then◌else◌}
use yunpin_ime.Base.Lists.{length, take}
use yunpin_ime.Base.Int.{ℤ, pos, ltb_int}
use yunpin_ime.Base.Bytes.{Bytes, ascii, same, is_empty}
use yunpin_ime.Base.Map.{Entries, insert, lookup, count_at}
use yunpin_ime.Base.Result.{Result, ok, err, with_error}
use yunpin_ime.Base.Exec.{Exec, ◌>>=◌, ◌>>◌, pure, raise, lift, gets, modify}
use yunpin_ime.Base.Text.{trim_space}
use Prim.Native.Nat.Ordering.{lt}
use yunpin_ime.Protocol.Clock.{Hlc, compare_hlc}
use yunpin_ime.Protocol.Crdt.{PhraseState, LwwBool, Presence, entries, differ}
use yunpin_ime.LocalStore.Phrase.{
  Phrase, PhrasePayload, StoreError, phrase_required, object_id_failed, seal_failed, open_failed,
  generation_exhausted, counter_exhausted, merge_failed, outbox_limit, max_uint64, total_counts,
  materialize_phrase, ensure_phrase_state, merge_phrase_payload, validate_payload_object,
}
use yunpin_ime.LocalStore.HlcState.{HlcState, next_hlc, observe_hlc}

-- What the store is opened with, and the library code that it calls: `object_id` is
-- `protocol.OpaqueObjectID` under the id key, an HMAC of canonical texts; `marshal` and `unmarshal` are
-- `json.Marshal` and `json.Unmarshal` of a phrase, on the texts of JSON; `record_key` is HKDF under the
-- data key, with the object id as its salt; `aead_seal` is XChaCha20-Poly1305 under a random nonce, with
-- the object id as its associated data, and fails where the source of randomness does.
pub record Vault (Row : Type 0) : Type 1 where
  pub Json : Type 0
  pub device_id : Bytes
  pub object_id : Bytes → Bytes → Option Bytes
  pub marshal : Phrase → Option Json
  pub unmarshal : Json → Option Phrase
  pub record_key : Bytes → Option Bytes
  pub aead_seal : Bytes → Bytes → Json → Option Row
  pub aead_open : Bytes → Bytes → Row → Option Json

pub record OutboxRow (Row : Type 0) : Type 0 where
  pub event_id : ℕ
  pub version : ℕ
  pub object_id : Bytes
  pub row : Row

-- The tables: `outbox` in the order of the event ids, `last_event` the autoincrement counter.
pub record Db (Row : Type 0) : Type 0 where
  pub phrases : Entries Row
  pub outbox : List (OutboxRow Row)
  pub last_event : ℕ
  pub generation : ℕ
  pub hlc : HlcState

-- INSERT … ON CONFLICT(object_id) DO UPDATE … version + 1
unfoldable pub enqueue_row :
    {Row : Type 0} → Bytes → Row → ℕ → List (OutboxRow Row) → List (OutboxRow Row)
enqueue_row id row fresh [] =
    record { event_id = fresh; version = 1; object_id = id; row = row } ∷ []
enqueue_row id row fresh (r ∷ rows) =
    if same r.object_id id
    then record r { row = row; version = r.version + 1 } ∷ rows
    else r ∷ enqueue_row id row fresh rows

pub holds_object : {Row : Type 0} → Bytes → List (OutboxRow Row) → Bool
holds_object id [] = false
holds_object id (r ∷ rows) = same r.object_id id || holds_object id rows

write_event : {Row : Type 0} → Bool → Bytes → Row → Db Row → Db Row
unfolding holds_object
write_event false id row db = db
write_event true id row db = record db {
  outbox = enqueue_row id row (db.last_event + 1) db.outbox;
  last_event = if holds_object id db.outbox then db.last_event else db.last_event + 1;
}

-- The transaction of `upsert`.
write_phrase : {Row : Type 0} → Bool → Bytes → Row → Row → Db Row → Db Row
unfolding write_event
write_phrase enqueue id row event_row db =
    write_event enqueue id event_row
      (record db { phrases = insert id row db.phrases; generation = db.generation + 1 })

module _ {Row : Type 0} (v : Vault Row) where
  abbrev pub Op : Type 0 → Type 0
  Op A = Exec (Db Row) StoreError A

  -- store.seal
  unfoldable pub seal_phrase : Bytes → Phrase → Option Row
  seal_phrase id p = elim (v.marshal p) [
    | none ↦ none
    | some plain ↦ elim (v.record_key id) [ none ↦ none | some key ↦ v.aead_seal key id plain ]
  ]

  -- store.open
  unfoldable pub open_phrase : Bytes → Row → Option Phrase
  open_phrase id row = elim (v.record_key id) [
    | none ↦ none
    | some key ↦ elim (v.aead_open key id row) [ none ↦ none | some plain ↦ v.unmarshal plain ]
  ]

  -- store.objectID
  unfoldable pub phrase_object_id : Phrase → Result StoreError Bytes
  phrase_object_id p =
      if is_empty (trim_space p.text) || is_empty (trim_space p.pinyin)
      then err phrase_required
      else with_error object_id_failed (v.object_id p.text p.pinyin)

  -- store.nextHLC
  unfoldable pub take_clock : ℤ → Op Hlc
  take_clock now db =
      let (clock, hlc) = next_hlc v.device_id now db.hlc in (ok clock, record db { hlc = hlc })

  unfoldable pub load_by_id : Bytes → Op (Option Phrase)
  unfolding open_phrase
  load_by_id id db = elim (lookup id db.phrases) [
    | none ↦ (ok none, db)
    | some row ↦ elim (open_phrase id row) [
      | none ↦ (err open_failed, db)
      | some p ↦ (ok (some p), db)
    ]
  ]

  unfoldable pub upsert : Phrase → Bool → Op (Unit {0})
  unfolding write_phrase seal_phrase
  upsert p enqueue = do
    id ← lift (phrase_object_id p)
    row ← lift (with_error seal_failed (seal_phrase id p))
    event_row ← lift (if enqueue then with_error seal_failed (seal_phrase id p) else ok row)
    modify (write_phrase enqueue id row event_row)
