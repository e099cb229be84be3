-- ===== src/LocalStore/SyncState/Chain.antt =====
-- The checkpoint is always one that can be loaded, uploaded and committed.
use Prim.Native.Nat.Ordering.{lt}
use yunpin_ime.Base.{
  ap, ◌-◌, subst, sym, ◌⊎◌, inl, inr, ℕ, ◌+◌, ◌≤◌, ◌<◌, ◌≡◌, ◌≢◌, refl, arith, Bool, true, false,
  Option, none, some, List,
}
use yunpin_ime.Base.Tests.{◌==◌}
use yunpin_ime.Base.Lists.{length}
use yunpin_ime.Base.Int.{ℤ, compare_int, compare_int-IsTotalOrder, max_int64, ltb_int}
use yunpin_ime.Base.Bytes.{same_iff}
use yunpin_ime.Base.Result.{ok, err}
use yunpin_ime.LocalStore.Store.{OutboxRow}
use yunpin_ime.LocalStore.Store.Outbox.{drop_event}
use yunpin_ime.LocalStore.SyncState.{
  PreparedUpload, SyncTables, Opened, different_upload_prepared, cursor_changed, require_sync,
  load_sync_state, load_prepared, loaded, upload_is_bad, same_upload, save_prepared_upload,
  commit_checkpoint, commit_prepared_upload, advance_sync_cursor, max_prepared_wire_bytes,
}

-- An upload that may be sent.
pub record IsSendable (u : PreparedUpload) : Type 0 where
  pub event : 0 < u.event_id
  pub version : 0 < u.event_version
  pub sequence : 0 < u.device_sequence
  pub below : u.device_sequence < max_int64
  pub written : 0 < length u.wire
  pub fits : length u.wire ≤ max_prepared_wire_bytes
  pub hashed : length u.envelope_hash ≡ 32

-- A staged upload carries the next sequence number of the chain.
abbrev pub IsStaged : ℕ → Option PreparedUpload → Type 0
IsStaged next none = Unit {0}
IsStaged next (some u) = IsSendable u × (u.device_sequence ≡ next)

pub record IsChained {Row : Type 0} (t : SyncTables Row) : Type 0 where
  pub started : 0 < t.next_sequence
  pub staged : IsStaged t.next_sequence t.prepared

sendable : (u : PreparedUpload) → upload_is_bad u ≡ false → IsSendable u
unfolding upload_is_bad
sendable u h = ground arith

same_upload_eq : (a b : PreparedUpload) → same_upload a b ≡ true → a ≡ b
unfolding same_upload
same_upload_eq a b h =
    ground (arith, same_iff a.wire b.wire, same_iff a.envelope_hash b.envelope_hash)

same_upload_refl : (a : PreparedUpload) → same_upload a a ≡ true
unfolding same_upload
same_upload_refl a =
    ground (arith, same_iff a.wire a.wire, same_iff a.envelope_hash a.envelope_hash)

module _ {Row : Type 0} (o : Opened) where
  staging_cases :
      (u : PreparedUpload) (old : Option PreparedUpload) (t t' : SyncTables Row)
      → t.prepared ≡ old
      → save_prepared_upload o u t ≡ ok t'
      → IsSendable u
        × (((t' ≡ t) × (t.prepared ≡ some u))
            ⊎ ((t' ≡ record t { prepared = some u }) × (u.device_sequence ≡ t.next_sequence)))
  unfolding save_prepared_upload
  staging_cases u none t t' p e = ground (arith, sendable u)
  staging_cases u (some old) t t' p e = ground (arith, sendable u, same_upload_eq old u)

  -- Staging keeps the chain, and what is staged afterwards is the given upload.
  pub save_prepared_upload-IsChained :
      (u : PreparedUpload) (t t' : SyncTables Row)
      → IsChained t
      → save_prepared_upload o u t ≡ ok t'
      → IsChained t'
        × (t'.prepared ≡ some u)
        × (t'.outbox ≡ t.outbox)
        × (t'.next_sequence ≡ t.next_sequence)
  save_prepared_upload-IsChained u t t' c e =
      let (fine, which) = staging_cases u t.prepared t t' refl e in
      elim which [
        | inl (kept, was) ↦ (subst IsChained (sym kept) c, rw kept was, rw kept, rw kept)
        | inr (made, next) ↦ (
          subst IsChained (sym made) (record { started = c.started; staged = (fine, next) }),
          rw made,
          rw made,
          rw made,
        )
      ]

  staged_again :
      (u : PreparedUpload) (old : Option PreparedUpload) (t t' : SyncTables Row)
      → t.prepared ≡ old
      → save_prepared_upload o u t ≡ ok t'
      → save_prepared_upload o u t' ≡ ok t'
  unfolding save_prepared_upload
  staged_again u none t t' p e = ground (arith, same_upload_refl u)
  staged_again u (some old) t t' p e = ground arith

  staged_other :
      (u w : PreparedUpload) (old : Option PreparedUpload) (t t' : SyncTables Row)
      → t.prepared ≡ old
      → save_prepared_upload o u t ≡ ok t'
      → upload_is_bad w ≡ false
      → w ≢ u
      → save_prepared_upload o w t' ≡ err different_upload_prepared
  unfolding save_prepared_upload
  staged_other u w none t t' p e good other = ground (arith, same_upload_eq u w)
  staged_other u w (some old) t t' p e good other =
      ground (arith, same_upload_eq old u, same_upload_eq old w)

  -- Staging the upload that was just staged succeeds and changes nothing, so a lost answer can be
  -- retried; any other well-formed upload is refused.
  pub save_prepared_upload_again :
      (u w : PreparedUpload) (t t' : SyncTables Row)
      → save_prepared_upload o u t ≡ ok t'
      → upload_is_bad w ≡ false
      → w ≢ u
      → (save_prepared_upload o u t' ≡ ok t')
        × (save_prepared_upload o w t' ≡ err different_upload_prepared)
  save_prepared_upload_again u w t t' e good other =
      (staged_again u t.prepared t t' refl e, staged_other u w t.prepared t t' refl e good other)

  -- Under the chain's invariant a commit of a staged upload succeeds, keeps the invariant, moves the
  -- chain to the upload's hash and the next number, leaves nothing staged and keeps the cursor.
  pub commit_prepared_upload-IsChained :
      (u : PreparedUpload) (t : SyncTables Row)
      → require_sync o ≡ true
      → IsChained t
      → t.prepared ≡ some u
      → (acknowledged : Bool) × (t' : SyncTables Row) × (commit_prepared_upload o t
          ≡ ok (acknowledged, t'))
        × IsChained t'
        × (t'.next_sequence ≡ t.next_sequence + 1)
        × (t'.previous_hash ≡ u.envelope_hash)
        × (t'.prepared ≡ none)
        × (t'.cursor ≡ t.cursor)
  unfolding commit_prepared_upload commit_checkpoint
  commit_prepared_upload-IsChained u t opened c e =
      let (fine, next) = subst (IsStaged t.next_sequence) e c.staged in
      let rows : List (OutboxRow Row) = drop_event u.event_id u.event_version t.outbox in
      (
        length t.outbox - length rows == 1,
        record t {
          next_sequence = u.device_sequence + 1;
          previous_hash = u.envelope_hash;
          prepared = none;
          outbox = rows;
        },
        ground (arith, fine.event, fine.version, fine.sequence, fine.below, fine.hashed),
        record { started = omega arith; staged = tt },
        ap (λ n. n + 1) next,
        refl,
        refl,
        refl,
      )

  committed_cases :
      (old : Option PreparedUpload) (t t' : SyncTables Row) (acknowledged : Bool)
      → t.prepared ≡ old
      → commit_prepared_upload o t ≡ ok (acknowledged, t')
      → (t'.prepared ≡ none) × (t'.cursor ≡ t.cursor) × (0 < t'.next_sequence)
  unfolding commit_prepared_upload commit_checkpoint
  committed_cases none t t' acknowledged p e = ground arith
  committed_cases (some u) t t' acknowledged p e = ground arith

  -- A commit that succeeds, whatever was staged, leaves nothing staged.
  pub committed :
      (t t' : SyncTables Row) (acknowledged : Bool)
      → commit_prepared_upload o t ≡ ok (acknowledged, t')
      → IsChained t' × (t'.prepared ≡ none) × (t'.cursor ≡ t.cursor)
  committed t t' acknowledged e =
      let (empty, same_cursor, started) = committed_cases t.prepared t t' acknowledged refl e in
      (
        record { started = started; staged = subst (IsStaged t'.next_sequence) (sym empty) tt },
        empty,
        same_cursor,
      )

  advanced_rows :
      (expected next : ℤ) (t t' : SyncTables Row)
      → advance_sync_cursor o expected next t ≡ ok t'
      → t' ≡ record t { cursor = next }
  unfolding advance_sync_cursor
  advanced_rows expected next t t' e = ground arith

  pub advanced :
      (expected next : ℤ) (t t' : SyncTables Row)
      → IsChained t
      → advance_sync_cursor o expected next t ≡ ok t'
      → IsChained t'
  advanced expected next t t' c e =
      subst IsChained (sym (advanced_rows expected next t t' e))
        (record { started = c.started; staged = c.staged })

  load_staged :
      (old : Option PreparedUpload) (t : SyncTables Row)
      → t.prepared ≡ old
      → require_sync o ≡ true
      → 0 < t.next_sequence
      → IsStaged t.next_sequence old
      → load_sync_state o t
        ≡ ok (record {
          device_id = o.device_id;
          cursor = t.cursor;
          next_device_sequence = t.next_sequence;
          previous_hash = t.previous_hash;
          prepared = t.prepared;
        })
  unfolding load_sync_state load_prepared loaded
  load_staged none t e opened c staged = ground arith
  load_staged (some u) t e opened c (fine, next) =
      ground (arith, fine.event, fine.version, fine.sequence, fine.written, fine.hashed)

  -- A checkpoint under the chain's invariant loads, as it stands.
  pub load_sync_state-IsChained :
      (t : SyncTables Row)
      → require_sync o ≡ true
      → IsChained t
      → load_sync_state o t
        ≡ ok (record {
          device_id = o.device_id;
          cursor = t.cursor;
          next_device_sequence = t.next_sequence;
          previous_hash = t.previous_hash;
          prepared = t.prepared;
        })
  load_sync_state-IsChained t opened c = load_staged t.prepared t refl opened c.started c.staged

-- Two workers that advance from one cursor cannot both succeed, unless the first did not move it:
-- no page is skipped.
pub advance_sync_cursor_once :
    {Row : Type 0} (o : Opened) (expected next later : ℤ) (t t' : SyncTables Row)
    → advance_sync_cursor o expected next t ≡ ok t'
    → next ≢ expected
    → ltb_int later expected ≡ false
    → (t.cursor ≡ expected)
      × (t'.cursor ≡ next)
      × (compare_int expected next ≡ lt)
      × (advance_sync_cursor o expected later t' ≡ err cursor_changed)
unfolding advance_sync_cursor
advance_sync_cursor_once o expected next later t t' e moved room = ground (
  arith,
  compare_int-IsTotalOrder.eq_same t.cursor expected,
  compare_int-IsTotalOrder.eq_same next expected,
  compare_int-IsTotalOrder.swap_gt next expected,
)
