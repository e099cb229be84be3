-- ===== src/LocalStore/SyncState.antt =====
-- localstore/sync_state.go: the upload checkpoint and its transactions with the outbox. Event ids,
-- versions and sequence numbers come from columns that are never negative and are plain numbers; the
-- five nullable `prepared` columns, null together by the schema, are one optional record.
pub mod Chain
use yunpin_ime.Base.{
  ℕ, ◌+◌, ◌-◌, ◌^◌, ◌*◌, Bool, true, false, not, ◌||◌, ◌&&◌, Option, none, some, List, [], ◌∷◌,
}
use yunpin_ime.Base.Tests.{ltb, leb, ◌==◌, if◌then◌else◌}
use yunpin_ime.Base.Lists.{length}
use yunpin_ime.Base.Int.{ℤ, pos, ltb_int, compare_int, max_int64}
use Prim.Native.Nat.{Ordering}
use yunpin_ime.Base.Bytes.{Bytes, same, is_empty}
use yunpin_ime.Base.Result.{Result, ok, err}
use yunpin_ime.LocalStore.Phrase.{valid_sync_device_id}
use yunpin_ime.LocalStore.Store.{OutboxRow}
use yunpin_ime.LocalStore.Store.Outbox.{drop_event}

pub record PreparedUpload : Type 0 where
  pub event_id : ℕ
  pub event_version : ℕ
  pub device_sequence : ℕ
  pub wire : Bytes
  pub envelope_hash : Bytes

-- The row of `sync_state`, beside the outbox.
pub record SyncTables (Row : Type 0) : Type 0 where
  pub cursor : ℤ
  pub next_sequence : ℕ
  pub previous_hash : Bytes
  pub prepared : Option PreparedUpload
  pub outbox : List (OutboxRow Row)

pub record SyncState : Type 0 where
  pub device_id : Bytes
  pub cursor : ℤ
  pub next_device_sequence : ℕ
  pub previous_hash : Bytes
  pub prepared : Option PreparedUpload

pub data SyncError : Type 0 where
  not_for_device : SyncError
  invalid_device_sequence : SyncError
  invalid_persisted_upload : SyncError
  invalid_upload : SyncError
  different_upload_prepared : SyncError
  sequence_mismatch : SyncError
  event_changed : SyncError
  nothing_prepared : SyncError
  invalid_checkpoint : SyncError
  invalid_cursor_transition : SyncError
  cursor_changed : SyncError

-- How the store was opened.
pub record Opened : Type 0 where
  pub sync_enabled : Bool
  pub device_id : Bytes

abbrev pub max_prepared_wire_bytes : ℕ
max_prepared_wire_bytes = 2 ^ 20

unfoldable pub require_sync : Opened → Bool
require_sync o = o.sync_enabled && valid_sync_device_id o.device_id

abbrev pub persisted_upload_is_bad : PreparedUpload → Bool
persisted_upload_is_bad u =
    ltb u.event_id 1
    || ltb u.event_version 1
    || ltb u.device_sequence 1
    || length u.wire == 0
    || not (length u.envelope_hash == 32)

load_prepared : Option PreparedUpload → Result SyncError (Option PreparedUpload)
load_prepared none = ok none
load_prepared (some u) =
    if persisted_upload_is_bad u then err invalid_persisted_upload else ok (some u)

-- What is loaded where the checkpoint is well formed.
loaded :
    {Row : Type 0}
    → Opened
    → SyncTables Row
    → Result SyncError (Option PreparedUpload)
    → Result SyncError SyncState
loaded o t (err e) = err e
loaded o t (ok u) = ok (record {
  device_id = o.device_id;
  cursor = t.cursor;
  next_device_sequence = t.next_sequence;
  previous_hash = t.previous_hash;
  prepared = u;
})

unfoldable pub load_sync_state :
    {Row : Type 0} → Opened → SyncTables Row → Result SyncError SyncState
unfolding load_prepared loaded
load_sync_state o t =
    if not (require_sync o)
    then err not_for_device
    else if ltb t.next_sequence 1
    then err invalid_device_sequence
    else loaded o t (load_prepared t.prepared)

unfoldable pub upload_is_bad : PreparedUpload → Bool
upload_is_bad u =
    ltb u.event_id 1
    || ltb u.event_version 1
    || ltb u.device_sequence 1
    || ltb max_int64 u.event_version
    || leb max_int64 u.device_sequence
    || length u.wire == 0
    || ltb max_prepared_wire_bytes (length u.wire)
    || not (length u.envelope_hash == 32)

unfoldable pub same_upload : PreparedUpload → PreparedUpload → Bool
same_upload a b =
    a.event_id == b.event_id
    && a.event_version == b.event_version
    && a.device_sequence == b.device_sequence
    && same a.wire b.wire
    && same a.envelope_hash b.envelope_hash

-- SELECT COUNT(*) … WHERE event_id = ? AND version = ?
unfoldable pub count_event : {Row : Type 0} → ℕ → ℕ → List (OutboxRow Row) → ℕ
count_event event version [] = 0
count_event event version (r ∷ rows) =
    (if r.event_id == event && r.version == version then 1 else 0) + count_event event version rows

unfoldable pub prepare_fresh :
    {Row : Type 0} → PreparedUpload → SyncTables Row → Result SyncError (SyncTables Row)
prepare_fresh u t =
    if not (t.next_sequence == u.device_sequence)
    then err sequence_mismatch
    else if not (count_event u.event_id u.event_version t.outbox == 1)
    then err event_changed
    else ok (record t { prepared = some u })

-- The tables after the transaction; an error rolls it back.
unfoldable pub save_prepared_upload :
    {Row : Type 0} → Opened → PreparedUpload → SyncTables Row → Result SyncError (SyncTables Row)
unfolding prepare_fresh
save_prepared_upload o u t =
    if not (require_sync o)
    then err not_for_device
    else if upload_is_bad u
    then err invalid_upload
    else elim t.prepared [
      | none ↦ prepare_fresh u t
      | some p ↦ if same_upload p u then ok t else err different_upload_prepared
    ]

abbrev pub checkpoint_is_bad : PreparedUpload → Bool
checkpoint_is_bad p =
    ltb p.event_id 1
    || ltb p.event_version 1
    || ltb p.device_sequence 1
    || not (length p.envelope_hash == 32)
    || p.device_sequence == max_int64

commit_checkpoint :
    {Row : Type 0} → PreparedUpload → SyncTables Row → Result SyncError (Bool × SyncTables Row)
commit_checkpoint p t =
    if checkpoint_is_bad p
    then err invalid_checkpoint
    else (let rows = drop_event p.event_id p.event_version t.outbox in
        ok (
          length t.outbox - length rows == 1,
          record t {
            next_sequence = p.device_sequence + 1;
            previous_hash = p.envelope_hash;
            prepared = none;
            outbox = rows;
          },
        ))

-- Whether the version that was sent was still in the outbox, and the tables after.
unfoldable pub commit_prepared_upload :
    {Row : Type 0} → Opened → SyncTables Row → Result SyncError (Bool × SyncTables Row)
unfolding commit_checkpoint
commit_prepared_upload o t =
    if not (require_sync o)
    then err not_for_device
    else elim t.prepared [ none ↦ err nothing_prepared | some p ↦ commit_checkpoint p t ]

abbrev pub equal_int : ℤ → ℤ → Bool
equal_int a b = elim (compare_int a b) [ Ordering.eq ↦ true | _ ↦ false ]

unfoldable pub advance_sync_cursor :
    {Row : Type 0} → Opened → ℤ → ℤ → SyncTables Row → Result SyncError (SyncTables Row)
advance_sync_cursor o expected next t =
    if not (require_sync o)
    then err not_for_device
    else if ltb_int expected (pos 0) || ltb_int next expected
    then err invalid_cursor_transition
    else if equal_int t.cursor expected
    then ok (record t { cursor = next })
    else err cursor_changed
