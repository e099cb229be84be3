-- ===== src/Client/Task.antt =====
-- The tasks of the sync worker: they change the database file and the world, and may fail.
use yunpin_ime.Base.Result.{Result, ok, err}
use yunpin_ime.Base.Exec.{Exec}
use yunpin_ime.LocalStore.Phrase.{StoreError}
use yunpin_ime.LocalStore.Store.{Db}
use yunpin_ime.LocalStore.SyncState.{SyncTables, SyncError}
use yunpin_ime.LocalStore.Upload.{UploadError}
use yunpin_ime.Client.Session.{
  WorkerError, Disk, tables, with_tables, in_store, in_checkpoint, in_upload,
}

abbrev pub or_store : {A : Type 0} → Result StoreError A → Result WorkerError A
or_store (ok a) = ok a
or_store (err e) = err (in_store e)

abbrev pub or_checkpoint : {A : Type 0} → Result SyncError A → Result WorkerError A
or_checkpoint (ok a) = ok a
or_checkpoint (err e) = err (in_checkpoint e)

abbrev pub or_upload : {A : Type 0} → Result UploadError A → Result WorkerError A
or_upload (ok a) = ok a
or_upload (err e) = err (in_upload e)

abbrev pub Task : Type 0 → Type 0 → Type 0 → Type 0
Task Row W A = Exec (Disk Row × W) WorkerError A

abbrev pub on_db : {Row W A : Type 0} → Exec (Db Row) StoreError A → Task Row W A
on_db m (d, w) = let (r, db) = m d.db in (or_store r, (record d { db = db }, w))

-- A transaction of the checkpoint. An error leaves the tables as they were.
abbrev pub keep_tables :
    {Row W A : Type 0}
    → Disk Row
    → W
    → Result SyncError (A × SyncTables Row)
    → Result WorkerError A × (Disk Row × W)
keep_tables d w (ok (a, t)) = (ok a, (with_tables t d, w))
keep_tables d w (err e) = (err (in_checkpoint e), (d, w))

abbrev pub on_tables :
    {Row W A : Type 0} → (SyncTables Row → Result SyncError (A × SyncTables Row)) → Task Row W A
on_tables f (d, w) = keep_tables d w (f (tables d))

abbrev pub changed :
    {Row : Type 0}
    → Result SyncError (SyncTables Row)
    → Result SyncError (Unit {0} × SyncTables Row)
changed (ok t) = ok (tt, t)
changed (err e) = err e

abbrev pub disk : {Row W : Type 0} → Task Row W (Disk Row)
disk (d, w) = (ok d, (d, w))

abbrev pub ask : {Row W A : Type 0} → (W → A × W) → Task Row W A
ask f (d, w) = let (a, w') = f w in (ok a, (d, w'))
