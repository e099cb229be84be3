-- ===== src/Client/Upload.antt =====
-- syncclient/worker.go: the upload that `prepare` stages for an outbox event, and the envelopes that
-- `SyncOnce` sends of a staged upload.
use yunpin_ime.Base.{not, ◌||◌, Option, none, some, List, [], ◌∷◌}
use yunpin_ime.Base.Tests.{◌==◌, if◌then◌else◌}
use yunpin_ime.Base.Bytes.{Bytes, is_empty}
use yunpin_ime.Base.Result.{Result, ok, err, ◌>>=◌, with_error}
use yunpin_ime.Protocol.Envelope.{envelope_hash}
use yunpin_ime.Protocol.Wire.{WireEnvelope, to_wire}
use yunpin_ime.LocalStore.Store.Outbox.{PendingEvent}
use yunpin_ime.LocalStore.SyncState.{Opened, PreparedUpload, SyncState}
use yunpin_ime.LocalStore.Upload.{seal_envelope}
use yunpin_ime.Client.Session.{
  Session, SyncRequest, WorkerError, Library, invalid_wire_json, metadata_mismatch,
}
use yunpin_ime.Client.Task.{or_upload}
use yunpin_ime.Client.Answer.{or_protocol}

unfoldable pub upload_for :
    Opened
    → Library
    → Session
    → SyncState
    → PendingEvent
    → Bytes
    → Result WorkerError PreparedUpload
upload_for o l s state event random =
    or_upload (
      seal_envelope l.crypto l.payloads o event (record {
        account_id = s.account_id;
        device_id = s.device_id;
        key_epoch = s.key_epoch;
        device_seq = state.next_device_sequence;
        previous_hash = state.previous_hash;
        epoch_key = s.epoch_keys s.key_epoch;
        signing_private = s.signing_private;
        random = random;
      }))
    >>= λ sealed. or_protocol (to_wire l.base64 sealed.0) >>= λ wire.
        with_error invalid_wire_json (l.wires.marshal wire) >>= λ encoded.
        or_protocol (envelope_hash l.crypto sealed.0) >>= λ hash. ok (record {
          event_id = event.id;
          event_version = event.version;
          device_sequence = state.next_device_sequence;
          wire = encoded;
          envelope_hash = hash;
        })

-- The request's envelopes.
unfoldable pub upload_of : Library → Option PreparedUpload → Result WorkerError (List WireEnvelope)
upload_of l none = ok []
upload_of l (some u) = elim (l.wires.unmarshal u.wire) [
  | none ↦ err invalid_wire_json
  | some wire ↦
      if not (wire.device_seq == u.device_sequence)
        || not (is_empty wire.device_id)
        || not (wire.cursor == 0)
      then err metadata_mismatch
      else ok (wire ∷ [])
]

abbrev pub request_for : SyncState → List WireEnvelope → SyncRequest
request_for state envelopes = record {
  cursor = state.cursor;
  ack_cursor = state.cursor;
  limit = 256;
  envelopes = envelopes;
}
