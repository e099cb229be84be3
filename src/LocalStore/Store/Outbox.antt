-- ===== src/LocalStore/Store/Outbox.antt =====
-- localstore/store.go: the outbox that the sync worker reads and acknowledges, and the snapshot.
pub mod InFlight
use yunpin_ime.Base.{ℕ, ◌-◌, Bool, not, ◌||◌, ◌&&◌, none, some, List, [], ◌∷◌}
use yunpin_ime.Base.Tests.{ltb, ◌==◌, if◌then◌else◌}
use yunpin_ime.Base.Lists.{length, take}
use yunpin_ime.Base.Bytes.{Bytes}
use yunpin_ime.Base.Map.{Entries}
use yunpin_ime.Base.Result.{Result, ok, err}
use yunpin_ime.Protocol.Clock.{ltb_bytes}
use yunpin_ime.LocalStore.Phrase.{
  Phrase, StoreError, open_failed, outbox_limit, invalid_outbox_object,
}
use yunpin_ime.LocalStore.Store.{Vault, Db, OutboxRow, open_phrase}

pub record PendingEvent : Type 0 where
  pub id : ℕ
  pub version : ℕ
  pub object_id : Bytes
  pub phrase : Phrase

unfoldable pub pending_event_count : {Row : Type 0} → Db Row → ℕ
pending_event_count db = length db.outbox

-- DELETE … WHERE event_id = ? AND version = ?
unfoldable pub drop_event : {Row : Type 0} → ℕ → ℕ → List (OutboxRow Row) → List (OutboxRow Row)
drop_event event version [] = []
drop_event event version (r ∷ rows) =
    let rest = drop_event event version rows in
    if r.event_id == event && r.version == version then rest else r ∷ rest

-- The tables after it, and whether one row was affected.
unfoldable pub ack_pending : {Row : Type 0} → ℕ → ℕ → Db Row → Bool × Db Row
unfolding drop_event
ack_pending event version db =
    let rows = drop_event event version db.outbox in
    (length db.outbox - length rows == 1, record db { outbox = rows })

pub record Snapshot : Type 0 where
  pub generation : ℕ
  pub phrases : List Phrase

module _ {Row : Type 0} (v : Vault Row) where
  -- Rows whose object id is not 16 bytes, or that do not open, fail the whole call.
  open_events : List (OutboxRow Row) → Result StoreError (List PendingEvent)
  unfolding open_phrase
  open_events [] = ok []
  open_events (r ∷ rows) =
      let rest = open_events rows in
      if not (length r.object_id == 16)
      then err invalid_outbox_object
      else elim (open_phrase v r.object_id r.row) [
        | none ↦ err open_failed
        | some p ↦ elim rest [
          | err e ↦ err e
          | ok events ↦ ok (
              record { id = r.event_id; version = r.version; object_id = r.object_id; phrase = p }
              ∷ events)
        ]
      ]

  unfoldable pub pending_events : ℕ → Db Row → Result StoreError (List PendingEvent)
  unfolding open_events
  pending_events limit db =
      if ltb limit 1 || ltb 256 limit then err outbox_limit else open_events (take limit db.outbox)

  open_phrases : Entries Row → Result StoreError (List Phrase)
  unfolding open_phrase
  open_phrases [] = ok []
  open_phrases ((id, row) ∷ rows) =
      let rest = open_phrases rows in
      elim (open_phrase v id row) [
        | none ↦ err open_failed
        | some p ↦ elim rest [ err e ↦ err e | ok phrases ↦ ok (p ∷ phrases) ]
      ]

  -- ORDER BY object_id
  insert_sorted : Bytes → Row → Entries Row → Entries Row
  insert_sorted id row [] = (id, row) ∷ []
  insert_sorted id row ((j, r) ∷ rows) =
      if ltb_bytes j id then (j, r) ∷ insert_sorted id row rows else (id, row) ∷ (j, r) ∷ rows

  sort_rows : Entries Row → Entries Row
  sort_rows [] = []
  sort_rows ((id, row) ∷ rows) = insert_sorted id row (sort_rows rows)

  unfoldable pub snapshot : Db Row → Result StoreError Snapshot
  unfolding open_phrases sort_rows insert_sorted
  snapshot db = elim (open_phrases (sort_rows db.phrases)) [
    | err e ↦ err e
    | ok phrases ↦ ok (record { generation = db.generation; phrases = phrases })
  ]
