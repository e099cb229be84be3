-- ===== src/Client/Session.antt =====
-- syncclient/worker.go: the session, the messages and the tables of the sync worker. The relay behind
-- the transport, the clock and the random source are a `World` of some state; the JSON of an envelope
-- and the public part of a signing key are fields of `Library`.
use yunpin_ime.Base.{ℕ, Bool, true, false, not, ◌&&◌, Option, none, some, List, [], ◌∷◌}
use yunpin_ime.Base.Tests.{ltb, ◌==◌}
use yunpin_ime.Base.Lists.{length}
use yunpin_ime.Base.Int.{ℤ}
use yunpin_ime.Base.Bytes.{Bytes, same, is_empty}
use yunpin_ime.Base.Map.{Entries, lookup}
use yunpin_ime.Base.Text.{hex_encode, hex_decode}
use yunpin_ime.Protocol.Envelope.{Crypto, Codec, ProtocolError, max_int64}
use yunpin_ime.Protocol.Wire.{Base64, WireEnvelope}
use yunpin_ime.LocalStore.Phrase.{PhrasePayload, StoreError}
use yunpin_ime.LocalStore.Store.{Db}
use yunpin_ime.LocalStore.SyncState.{PreparedUpload, SyncTables, SyncError}
use yunpin_ime.LocalStore.Upload.{UploadError}

-- A map without a key gives no bytes.
pub record Session : Type 0 where
  pub account_id : Bytes
  pub device_id : Bytes
  pub device_token : Bytes
  pub key_epoch : ℕ
  pub epoch_keys : ℕ → Bytes
  pub signing_private : Bytes
  pub verification_keys : Entries Bytes

pub record SyncRequest : Type 0 where
  pub cursor : ℤ
  pub ack_cursor : ℤ
  pub limit : ℕ
  pub envelopes : List WireEnvelope

pub record SyncRejection : Type 0 where
  pub device_sequence : ℕ
  pub code : Bytes

pub record SyncResponse : Type 0 where
  pub accepted_sequences : List ℕ
  pub rejected_sequences : List SyncRejection
  pub envelopes : List WireEnvelope
  pub next_cursor : ℤ
  pub has_more : Bool
  pub current_key_epoch : ℕ

pub record SyncResult : Type 0 where
  pub uploaded : Bool
  pub acknowledged_outbox : Bool
  pub downloaded : ℕ
  pub cursor : ℤ
  pub has_more : Bool

pub data WorkerError : Type 0 where
  invalid_session : WorkerError
  session_device_mismatch : WorkerError
  invalid_wire_json : WorkerError
  metadata_mismatch : WorkerError
  invalid_request : WorkerError
  transport_failed : WorkerError
  invalid_response : WorkerError
  unexpected_rejection : WorkerError
  unexpected_acknowledgement : WorkerError
  accepted_and_rejected : WorkerError
  upload_rejected : WorkerError
  not_acknowledged : WorkerError
  out_of_order : WorkerError
  untrusted_device : WorkerError
  no_epoch_key : WorkerError
  cursor_without_envelope : WorkerError
  cursor_mismatch : WorkerError
  round_limit : WorkerError
  not_idle : WorkerError
  in_store : StoreError → WorkerError
  in_checkpoint : SyncError → WorkerError
  in_upload : UploadError → WorkerError
  in_protocol : ProtocolError → WorkerError

pub record Library : Type 0 where
  pub crypto : Crypto
  pub base64 : Base64
  pub payloads : Codec PhrasePayload
  pub wires : Codec WireEnvelope
  pub public_of : Bytes → Bytes

-- The answer to a request under a token, the clock, and the bytes of the random source.
pub record World (W : Type 0) : Type 0 where
  pub exchange : Bytes → SyncRequest → W → Option SyncResponse × W
  pub now : W → ℤ × W
  pub random : W → Bytes × W

-- The database file of the device: the tables of the store and the row of `sync_state`.
pub record Disk (Row : Type 0) : Type 0 where
  pub db : Db Row
  pub cursor : ℤ
  pub next_sequence : ℕ
  pub previous_hash : Bytes
  pub prepared : Option PreparedUpload

abbrev pub tables : {Row : Type 0} → Disk Row → SyncTables Row
tables d = record {
  cursor = d.cursor;
  next_sequence = d.next_sequence;
  previous_hash = d.previous_hash;
  prepared = d.prepared;
  outbox = d.db.outbox;
}

abbrev pub with_tables : {Row : Type 0} → SyncTables Row → Disk Row → Disk Row
with_tables t d = record {
  db = record d.db { outbox = t.outbox };
  cursor = t.cursor;
  next_sequence = t.next_sequence;
  previous_hash = t.previous_hash;
  prepared = t.prepared;
}

abbrev pub key_for : Bytes → Entries Bytes → Bytes
key_for id keys = elim (lookup id keys) [ none ↦ [] | some key ↦ key ]

-- The loop over the trusted keys.
unfoldable pub trusted_keys_ok : Entries Bytes → Bool
trusted_keys_ok [] = true
trusted_keys_ok ((id, key) ∷ rest) = elim (hex_decode id) [
  | none ↦ false
  | some decoded ↦
      length decoded == 16
      && same id (hex_encode decoded)
      && length key == 32
      && trusted_keys_ok rest
]

unfoldable pub session_is_valid : Library → Session → Bool
unfolding trusted_keys_ok
session_is_valid l s =
    let self_key = key_for (hex_encode s.device_id) s.verification_keys in
    length s.account_id == 16
    && length s.device_id == 16
    && not (is_empty s.device_token)
    && not (ltb s.key_epoch 1)
    && not (ltb max_int64 s.key_epoch)
    && length s.signing_private == 64
    && length (s.epoch_keys s.key_epoch) == 32
    && length self_key == 32
    && same (l.public_of s.signing_private) self_key
    && trusted_keys_ok s.verification_keys
