-- ===== src/LocalStore/Upload.antt =====
-- localstore/crdt_adapter.go: an outbox event as the envelope that the sync worker uploads.
use yunpin_ime.Base.{ℕ, ◌||◌, not, Bool, true, false, none, some, Option, []}
use yunpin_ime.Base.Tests.{◌==◌, if◌then◌else◌}
use yunpin_ime.Base.Lists.{length}
use yunpin_ime.Base.Bytes.{Bytes, same}
use yunpin_ime.Base.Text.{hex_encode, hex_decode}
use yunpin_ime.Base.Result.{Result, ok, err, ◌>>=◌, ◌>>◌, fail_if}
use yunpin_ime.Protocol.Crdt.{PhraseState}
use yunpin_ime.Protocol.Envelope.{Crypto, Codec, Envelope, ProtocolError, seal}
use yunpin_ime.LocalStore.Phrase.{PhrasePayload}
use yunpin_ime.LocalStore.Store.Outbox.{PendingEvent}
use yunpin_ime.LocalStore.SyncState.{Opened, require_sync}

pub record EnvelopeOptions : Type 0 where
  pub account_id : Bytes
  pub device_id : Bytes
  pub key_epoch : ℕ
  pub device_seq : ℕ
  pub previous_hash : Bytes
  pub epoch_key : Bytes
  pub signing_private : Bytes
  pub random : Bytes

pub data UploadError : Type 0 where
  not_opened_for_device : UploadError
  device_id_mismatch : UploadError
  invalid_metadata : UploadError
  object_id_changed : UploadError
  not_sealed : ProtocolError → UploadError

abbrev no_counts : {A : Type 0} → Option A → Bool
no_counts none = true
no_counts (some counts) = false

unfoldable pub protocol_state : PendingEvent → Result UploadError PhraseState
protocol_state event =
    if not (same event.phrase.crdt.object_id (hex_encode event.object_id))
      || event.phrase.crdt.presence.generation == 0
      || no_counts event.phrase.crdt.counts
    then err invalid_metadata
    else ok event.phrase.crdt

unfoldable pub protocol_payload : PendingEvent → Result UploadError PhrasePayload
unfolding protocol_state
protocol_payload event = protocol_state event >>= λ state. ok (record {
  text = event.phrase.text;
  pinyin = event.phrase.pinyin;
  source = event.phrase.source;
  last_used_day = event.phrase.last_used_day;
  state = state;
})

-- A text that is not hexadecimal has been refused before.
unfoldable pub must_decode_object_id : Bytes → Bytes
must_decode_object_id encoded = elim (hex_decode encoded) [ none ↦ [] | some decoded ↦ decoded ]

or_not_sealed : {A : Type 0} → Result ProtocolError A → Result UploadError A
or_not_sealed (ok a) = ok a
or_not_sealed (err e) = err (not_sealed e)

-- The envelope, and what the random source still gives.
unfoldable pub seal_envelope :
    Crypto
    → Codec PhrasePayload
    → Opened
    → PendingEvent
    → EnvelopeOptions
    → Result UploadError (Envelope × Bytes)
unfolding protocol_payload must_decode_object_id or_not_sealed
seal_envelope c codec opened event options =
    fail_if (not (require_sync opened)) not_opened_for_device
    >> fail_if
        (not (length options.device_id == 16)
          || not (same (hex_encode options.device_id) opened.device_id))
        device_id_mismatch
    >> protocol_payload event
    >>= λ payload.
        fail_if (not (same event.object_id (must_decode_object_id payload.state.object_id)))
          object_id_changed
        >> or_not_sealed (
            seal c codec options.epoch_key
              (record {
                version = 0;
                account_id = options.account_id;
                object_id = event.object_id;
                key_epoch = options.key_epoch;
                device_id = options.device_id;
                device_seq = options.device_seq;
                previous_hash = options.previous_hash;
                nonce = [];
              })
              payload options.signing_private options.random)
