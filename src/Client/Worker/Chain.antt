-- ===== src/Client/Worker/Chain.antt =====
-- The sync worker keeps the upload checkpoint well formed, whether an exchange fails or not.
use yunpin_ime.Base.{◌≡◌, refl, not, Option, none, some, List, [], ◌∷◌}
use yunpin_ime.Base.Int.{ℤ}
use yunpin_ime.Base.Bytes.{Bytes, same}
use yunpin_ime.Base.Result.{Result, ok, err, fail_if}
use yunpin_ime.Base.Exec.{Exec, ◌>>=◌, lift}
use yunpin_ime.Base.Ensures.{Ensures, Ensures-bind, Ensures-lift}
use yunpin_ime.LocalStore.Phrase.{PhrasePayload, StoreError}
use yunpin_ime.LocalStore.Store.{Vault, Db}
use yunpin_ime.LocalStore.Store.Outbox.{PendingEvent, pending_events}
use yunpin_ime.LocalStore.SyncState.{Opened, PreparedUpload, SyncState, SyncTables, SyncError}
use yunpin_ime.LocalStore.SyncState.Chain.{
  IsChained, save_prepared_upload-IsChained, committed, advanced,
}
use yunpin_ime.Client.Session.{
  Session, SyncRequest, SyncResponse, session_is_valid, invalid_session, session_device_mismatch,
  Library, World, WorkerError, Disk, tables,
}
use yunpin_ime.Client.Upload.{request_for, upload_for, upload_of}
use yunpin_ime.Client.Answer.{check_request, answered, check_answer}
use yunpin_ime.LocalStore.Store.Remote.{merge_remote_payload}
use yunpin_ime.Base.Text.{hex_encode}
use yunpin_ime.Client.Task.{or_store, keep_tables, Task, on_db, on_tables, changed, disk, ask}
use yunpin_ime.Client.Worker.{
  load, stage, advance, commit, prepare_from, prepare, prepare_first, prepare_event, sync,
  merge_all, finish, exchange_page, sync_once,
}

abbrev pub Chained : {Row W : Type 0} → Disk Row × W → Type 0
Chained (d, w) = IsChained (tables d)

-- A task keeps the checkpoint.
abbrev Keeps : {Row W A : Type 0} → Task Row W A → Type 0
Keeps m = Ensures Chained (λ _. Unit {0}) m

module _ {Row W A : Type 0} where
  Keeps-lift : (r : Result WorkerError A) → Keeps {Row = Row} {W = W} (lift r)
  Keeps-lift r = Ensures-lift _ r (λ a e. tt)

  Keeps-ask : (f : W → A × W) → Keeps {Row = Row} (ask f)
  Keeps-ask f = record { kept = λ s h. h; returned = λ s h a e. tt }

  Keeps-db : (m : Exec (Db Row) StoreError A) → Keeps {W = W} (on_db m)
  Keeps-db m = record {
    kept = λ s h. record { started = h.started; staged = h.staged };
    returned = λ s h a e. tt;
  }

  kept_tables :
      (d : Disk Row) (w : W) (r : Result SyncError (A × SyncTables Row))
      → Chained (d, w)
      → ((t' : SyncTables Row) (a : A) → r ≡ ok (a, t') → IsChained t')
      → Chained (keep_tables d w r).1
  kept_tables d w (ok (a, t)) h k = k t a refl
  kept_tables d w (err e) h k = h

  Keeps-tables :
      (f : SyncTables Row → Result SyncError (A × SyncTables Row))
      → ((t t' : SyncTables Row) (a : A) → IsChained t → f t ≡ ok (a, t') → IsChained t')
      → Keeps {W = W} (on_tables f)
  Keeps-tables f k = record {
    kept = λ (d, w) h. kept_tables d w (f (tables d)) h (λ t a e. k (tables d) t a h e);
    returned = λ s h a e. tt;
  }

Keeps-disk : {Row W : Type 0} → Keeps {Row = Row} {W = W} disk
Keeps-disk = record { kept = λ s h. h; returned = λ s h a e. tt }

Keeps-bind :
    {Row W A B : Type 0} (m : Task Row W A) (f : A → Task Row W B)
    → Keeps m
    → ((a : A) → Keeps (f a))
    → Keeps (m >>= f)
Keeps-bind m f h k = Ensures-bind _ _ m f h (λ a _. k a)

changed-ok :
    {Row : Type 0} (r : Result SyncError (SyncTables Row)) (a : Unit {0}) (t' : SyncTables Row)
    → changed r ≡ ok (a, t')
    → r ≡ ok t'
changed-ok (ok t) a t' h = cc
changed-ok (err e) a t' h = cc

module _ {Row W : Type 0} (v : Vault Row) (o : Opened) (l : Library) (world : World W)
    (s : Session) where
  Keeps-save : (u : PreparedUpload) → Keeps (stage v o l world s u)
  Keeps-save u =
      Keeps-tables _
        (λ t t' a h e. (save_prepared_upload-IsChained o u t t' h (changed-ok _ a t' e)).0)

  Keeps-advance : (expected next : ℤ) → Keeps (advance v o l world s expected next)
  Keeps-advance expected next =
      Keeps-tables _ (λ t t' a h e. advanced o expected next t t' h (changed-ok _ a t' e))

  Keeps-load : Keeps (load v o l world s)
  Keeps-load = Keeps-bind _ _ Keeps-disk (λ d. Keeps-lift _)

  Keeps-commit : (u : Option PreparedUpload) → Keeps (commit v o l world s u)
  Keeps-commit none = Keeps-lift _
  Keeps-commit (some u) = Keeps-tables _ (λ t t' a h e. (committed o t t' a e).0)

  Keeps-prepare_event :
      (state : SyncState) (event : PendingEvent) → Keeps (prepare_event v o l world s state event)
  unfolding prepare_event
  Keeps-prepare_event state event =
      Keeps-bind (ask world.random) _ (Keeps-ask world.random) (λ random.
        Keeps-bind (lift (upload_for o l s state event random)) _ (Keeps-lift _) (λ upload.
          Keeps-bind (stage v o l world s upload) _ (Keeps-save upload) (λ _. Keeps-load)))

  Keeps-prepare_first :
      (state : SyncState) (events : List PendingEvent)
      → Keeps (prepare_first v o l world s state events)
  unfolding prepare_first
  Keeps-prepare_first state [] = Keeps-lift (ok state)
  Keeps-prepare_first state (event ∷ events) = Keeps-prepare_event state event

  Keeps-prepare_from :
      (state : SyncState) (u : Option PreparedUpload) → Keeps (prepare_from v o l world s state u)
  unfolding prepare_from
  Keeps-prepare_from state (some u) = Keeps-lift (ok state)
  Keeps-prepare_from state none = Keeps-bind disk _ Keeps-disk (λ d.
      Keeps-bind (lift (or_store (pending_events v 1 d.db))) _ (Keeps-lift _)
        (λ events. Keeps-prepare_first state events))

  Keeps-sync : (token : Bytes) (request : SyncRequest) → Keeps (sync v o l world s token request)
  unfolding sync
  Keeps-sync token request = Keeps-bind (lift (check_request token request)) _ (Keeps-lift _) (λ _.
      Keeps-bind (ask (world.exchange token request)) _ (Keeps-ask _)
        (λ answer. Keeps-lift (answered request answer)))

  Keeps-merge_all : (payloads : List PhrasePayload) → Keeps (merge_all v o l world s payloads)
  unfolding merge_all
  Keeps-merge_all [] = Keeps-lift (ok tt)
  Keeps-merge_all (payload ∷ payloads) = Keeps-bind (ask world.now) _ (Keeps-ask world.now) (λ now.
      Keeps-bind (on_db (merge_remote_payload v now payload)) _ (Keeps-db _)
        (λ _. Keeps-merge_all payloads))

  Keeps-finish :
      (state : SyncState) (response : SyncResponse) → Keeps (finish v o l world s state response)
  unfolding finish
  Keeps-finish state response =
      Keeps-bind (lift (check_answer l s state response)) _ (Keeps-lift _) (λ payloads.
        Keeps-bind (merge_all v o l world s payloads) _ (Keeps-merge_all payloads) (λ _.
          Keeps-bind (commit v o l world s state.prepared) _ (Keeps-commit state.prepared) (λ a.
            Keeps-bind (advance v o l world s state.cursor response.next_cursor) _
              (Keeps-advance state.cursor response.next_cursor) (λ _. Keeps-lift (ok _)))))

  Keeps-exchange_page : (state : SyncState) → Keeps (exchange_page v o l world s state)
  unfolding exchange_page
  Keeps-exchange_page state =
      Keeps-bind (lift (upload_of l state.prepared)) _ (Keeps-lift _) (λ envelopes.
        Keeps-bind (sync v o l world s s.device_token (request_for state envelopes)) _
          (Keeps-sync s.device_token (request_for state envelopes))
          (λ response. Keeps-finish state response))

  -- An exchange keeps the checkpoint loadable and its staged upload sendable, whatever fails in it
  -- and whatever the relay answers.
  pub sync_once-IsChained :
      (d : Disk Row) (w : W)
      → IsChained (tables d)
      → IsChained (tables (sync_once v o l world s (d, w)).1.0)
  unfolding sync_once
  sync_once-IsChained d w h =
      (Keeps-bind (lift (fail_if (not (session_is_valid l s)) invalid_session)) _ (Keeps-lift _)
          (λ _. Keeps-bind (load v o l world s) _ Keeps-load (λ loaded.
            Keeps-bind
              (lift (
                fail_if (not (same loaded.device_id (hex_encode s.device_id)))
                  session_device_mismatch))
              _ (Keeps-lift _)
              (λ _.
                Keeps-bind (prepare v o l world s loaded) _
                  (Keeps-prepare_from loaded loaded.prepared)
                  (λ state. Keeps-exchange_page state))))).kept
        (d, w) h
