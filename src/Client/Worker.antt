-- ===== src/Client/Worker.antt =====
-- syncclient/worker.go: one exchange with the relay, and the rounds until nothing is left.
pub mod Chain
pub mod Idle
use yunpin_ime.Base.{
  ℕ, zero, suc, ◌+◌, Bool, true, false, not, ◌||◌, ◌&&◌, Option, none, some, List, [], ◌∷◌, ◌++◌,
}
use yunpin_ime.Base.Tests.{ltb, ◌==◌, if◌then◌else◌}
use yunpin_ime.Base.Lists.{length}
use yunpin_ime.Base.Int.{ℤ}
use yunpin_ime.Base.Bytes.{Bytes, same, is_empty}
use yunpin_ime.Base.Text.{hex_encode}
use yunpin_ime.Base.Result.{Result, ok, err, fail_if, with_error}
use yunpin_ime.Base.Exec.{Exec, ◌>>=◌, ◌>>◌, pure, lift}
use yunpin_ime.Protocol.Envelope.{Envelope, envelope_hash}
use yunpin_ime.Protocol.Wire.{WireEnvelope, to_wire}
use yunpin_ime.LocalStore.Phrase.{PhrasePayload, StoreError}
use yunpin_ime.LocalStore.Store.{Vault, Db}
use yunpin_ime.LocalStore.Store.Outbox.{PendingEvent, pending_events, pending_event_count}
use yunpin_ime.LocalStore.Store.Remote.{merge_remote_payload}
use yunpin_ime.LocalStore.SyncState.{
  Opened, PreparedUpload, SyncState, SyncTables, SyncError, load_sync_state, save_prepared_upload,
  commit_prepared_upload, advance_sync_cursor,
}
use yunpin_ime.LocalStore.Upload.{UploadError, seal_envelope}
use yunpin_ime.Client.Session.{
  Session, SyncRequest, SyncResponse, SyncResult, WorkerError, Library, World, Disk, tables,
  with_tables, session_is_valid, session_device_mismatch, invalid_session, invalid_wire_json,
  metadata_mismatch, transport_failed, round_limit, not_idle, in_store, in_checkpoint, in_upload,
}
use yunpin_ime.Client.Task.{
  Task, or_store, or_checkpoint, or_upload, on_db, on_tables, changed, disk, ask,
}
use yunpin_ime.Client.Upload.{request_for, upload_for, upload_of}
use yunpin_ime.Client.Answer.{or_protocol, check_request, answered, check_answer}

module _ {Row W : Type 0} (v : Vault Row) (o : Opened) (l : Library) (world : World W)
    (s : Session) where
  abbrev pub load : Task Row W SyncState
  load = disk >>= λ d. lift (or_checkpoint (load_sync_state o (tables d)))

  abbrev pub stage : PreparedUpload → Task Row W (Unit {0})
  stage upload = on_tables (λ t. changed (save_prepared_upload o upload t))

  abbrev pub advance : ℤ → ℤ → Task Row W (Unit {0})
  advance expected next = on_tables (λ t. changed (advance_sync_cursor o expected next t))

  -- The first pending event, sealed and staged.
  unfoldable pub prepare_event : SyncState → PendingEvent → Task Row W SyncState
  unfolding upload_for
  prepare_event state event = do
    random ← ask world.random
    upload ← lift (upload_for o l s state event random)
    stage upload
    load

  unfoldable pub prepare_first : SyncState → List PendingEvent → Task Row W SyncState
  unfolding prepare_event
  prepare_first state [] = pure state
  prepare_first state (event ∷ events) = prepare_event state event

  -- `prepare`, for what the state has staged.
  unfoldable pub prepare_from : SyncState → Option PreparedUpload → Task Row W SyncState
  unfolding prepare_first
  prepare_from state (some u) = pure state
  prepare_from state none = do
    d ← disk
    events ← lift (or_store (pending_events v 1 d.db))
    prepare_first state events

  abbrev pub prepare : SyncState → Task Row W SyncState
  prepare state = prepare_from state state.prepared

  unfoldable pub sync : Bytes → SyncRequest → Task Row W SyncResponse
  unfolding check_request answered
  sync token request = do
    lift (check_request token request)
    answer ← ask (world.exchange token request)
    lift (answered request answer)

  unfoldable pub merge_all : List PhrasePayload → Task Row W (Unit {0})
  merge_all [] = pure tt
  merge_all (payload ∷ payloads) = ask world.now >>= λ now.
      on_db (merge_remote_payload v now payload) >>= λ _. merge_all payloads

  abbrev pub commit : Option PreparedUpload → Task Row W Bool
  commit none = pure false
  commit (some u) = on_tables (commit_prepared_upload o)

  abbrev pub is_some : {A : Type 0} → Option A → Bool
  is_some none = false
  is_some (some a) = true

  -- After the answer: the checks, the merges, the checkpoint and the cursor.
  unfoldable pub finish : SyncState → SyncResponse → Task Row W SyncResult
  unfolding merge_all check_answer
  finish state response = do
    payloads ← lift (check_answer l s state response)
    merge_all payloads
    acknowledged ← commit state.prepared
    advance state.cursor response.next_cursor
    pure (record {
      uploaded = is_some state.prepared;
      acknowledged_outbox = acknowledged;
      downloaded = length payloads;
      cursor = response.next_cursor;
      has_more = response.has_more;
    })

  -- The request for a state, and its answer.
  unfoldable pub exchange_page : SyncState → Task Row W SyncResult
  unfolding sync finish
  exchange_page state = do
    envelopes ← lift (upload_of l state.prepared)
    response ← sync s.device_token (request_for state envelopes)
    finish state response

  unfoldable pub sync_once : Task Row W SyncResult
  unfolding prepare_from exchange_page
  sync_once = do
    lift (fail_if (not (session_is_valid l s)) invalid_session)
    loaded ← load
    lift (fail_if (not (same loaded.device_id (hex_encode s.device_id))) session_device_mismatch)
    state ← prepare loaded
    exchange_page state

  -- The results so far are returned with an error, too.
  abbrev pub Run : Type 0
  Run = (List SyncResult × Option WorkerError) × (Disk Row × W)

  -- After an exchange: `rest` is the run of the rounds that are left.
  abbrev pub round_step : Result WorkerError SyncResult → Disk Row × W → Run → Run
  round_step (err e) next rest = (([], some e), next)
  round_step (ok result) next rest =
      if not result.has_more && pending_event_count next.0.db == 0
      then ((result ∷ [], none), next)
      else ((result ∷ rest.0.0, rest.0.1), rest.1)

  unfoldable pub rounds : ℕ → Disk Row × W → Run
  unfolding sync_once
  rounds zero state = (([], some not_idle), state)
  rounds (suc n) state =
      let (answer, next) = sync_once state in
      let rest = rounds n next in round_step answer next rest

  -- A negative number of rounds fails as 0 does.
  unfoldable pub sync_until_idle : ℕ → Disk Row × W → Run
  unfolding rounds
  sync_until_idle max_rounds state =
      if ltb max_rounds 1 || ltb 1024 max_rounds
      then (([], some round_limit), state)
      else rounds max_rounds state
