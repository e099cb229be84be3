-- ===== src/Client/Answer.antt =====
-- syncclient/worker.go: the checks of an answer of the relay, with those of `Sync` in
-- syncclient/client.go.
pub mod Order
pub mod Served
use yunpin_ime.Base.{ℕ, Bool, true, false, not, ◌||◌, ◌&&◌, Option, none, some, List, [], ◌∷◌}
use yunpin_ime.Base.Tests.{ltb, ◌==◌, if◌then◌else◌}
use yunpin_ime.Base.Lists.{length}
use yunpin_ime.Base.Int.{ℤ, pos, ltb_int}
use yunpin_ime.Base.Bytes.{Bytes, ascii, same, is_empty}
use yunpin_ime.Base.Result.{Result, ok, err, ◌>>=◌, ◌>>◌, fail_if, with_error}
use yunpin_ime.Protocol.Envelope.{max_int64, ProtocolError, open_envelope}
use yunpin_ime.Protocol.Wire.{WireEnvelope, envelope_from_download}
use yunpin_ime.LocalStore.Phrase.{PhrasePayload}
use yunpin_ime.LocalStore.SyncState.{PreparedUpload, SyncState, equal_int}
use yunpin_ime.Client.Session.{
  Session, SyncRequest, SyncRejection, SyncResponse, WorkerError, Library, key_for,
  transport_failed, invalid_request, invalid_response, unexpected_rejection,
  unexpected_acknowledgement, accepted_and_rejected, upload_rejected, not_acknowledged,
  out_of_order, untrusted_device, no_epoch_key, cursor_without_envelope, cursor_mismatch,
  in_protocol,
}

abbrev pub or_protocol : {A : Type 0} → Result ProtocolError A → Result WorkerError A
or_protocol (ok a) = ok a
or_protocol (err e) = err (in_protocol e)

-- `Client.Sync`, before and after the exchange.
unfoldable pub check_request : Bytes → SyncRequest → Result WorkerError (Unit {0})
check_request token request =
    fail_if
      (is_empty token
        || ltb_int request.cursor (pos 0)
        || ltb_int request.ack_cursor (pos 0)
        || ltb_int request.cursor request.ack_cursor
        || ltb 256 request.limit
        || ltb 256 (length request.envelopes))
      invalid_request

unfoldable pub answered : SyncRequest → Option SyncResponse → Result WorkerError SyncResponse
answered request answer = with_error transport_failed answer >>= λ response.
    fail_if (ltb_int response.next_cursor request.cursor || ltb 256 (length response.envelopes))
      invalid_response
    >> ok response

abbrev known_code : Bytes → Bool
known_code code =
    same code (ascii "sequence_conflict")
    || same code (ascii "sequence_gap")
    || same code (ascii "previous_hash_mismatch")

-- The two loops over the answer to the prepared sequence number: whether one was seen.
unfoldable pub check_rejections : ℕ → Bool → List SyncRejection → Result WorkerError Bool
check_rejections seq seen [] = ok seen
check_rejections seq seen (r ∷ rest) =
    let others = check_rejections seq true rest in
    if not (r.device_sequence == seq) || seen || not (known_code r.code)
    then err unexpected_rejection
    else others

unfoldable pub check_acceptances : ℕ → Bool → List ℕ → Result WorkerError Bool
check_acceptances seq seen [] = ok seen
check_acceptances seq seen (n ∷ rest) =
    let others = check_acceptances seq true rest in
    if not (n == seq) || seen then err unexpected_acknowledgement else others

abbrev pub none_of : {A : Type 0} → List A → Bool
none_of [] = true
none_of (x ∷ rest) = false

unfoldable pub check_verdicts : Option PreparedUpload → SyncResponse → Result WorkerError (Unit {0})
unfolding check_rejections check_acceptances
check_verdicts none r =
    fail_if (not (none_of r.accepted_sequences) || not (none_of r.rejected_sequences))
      unexpected_acknowledgement
check_verdicts (some u) r =
    check_rejections u.device_sequence false r.rejected_sequences >>= λ rejected.
    check_acceptances u.device_sequence false r.accepted_sequences >>= λ accepted.
    fail_if (rejected && accepted) accepted_and_rejected
    >> fail_if rejected upload_rejected
    >> fail_if (not accepted) not_acknowledged

module _ (l : Library) (s : Session) where
  -- One round of the loop of `decodeDownloads`.
  unfoldable pub decode_download : WireEnvelope → Result WorkerError PhrasePayload
  decode_download wire =
      or_protocol (envelope_from_download l.base64 s.account_id wire) >>= λ envelope.
      let key = key_for wire.device_id s.verification_keys in
      let epoch_key = s.epoch_keys wire.key_epoch in
      fail_if (not (length key == 32)) untrusted_device
      >> fail_if (not (length epoch_key == 32)) no_epoch_key
      >> or_protocol (open_envelope l.crypto l.payloads epoch_key envelope key)

  unfoldable pub decode_each :
      ℤ → ℤ → List WireEnvelope → Result WorkerError (ℤ × List PhrasePayload)
  unfolding decode_download
  decode_each next last [] = ok (last, [])
  decode_each next last (wire ∷ wires) =
      fail_if
        (ltb max_int64 wire.cursor
          || not (ltb_int last (pos wire.cursor))
          || ltb_int next (pos wire.cursor))
        out_of_order
      >> decode_download wire
      >>= λ payload.
          decode_each next (pos wire.cursor) wires >>= λ rest. ok (rest.0, payload ∷ rest.1)

  unfoldable pub decode_downloads : SyncResponse → ℤ → Result WorkerError (List PhrasePayload)
  unfolding decode_each
  decode_downloads response cursor =
      decode_each response.next_cursor cursor response.envelopes >>= λ decoded.
      fail_if (none_of response.envelopes && not (equal_int response.next_cursor cursor))
        cursor_without_envelope
      >> fail_if
          (not (none_of response.envelopes) && not (equal_int decoded.0 response.next_cursor))
          cursor_mismatch
      >> ok decoded.1

  -- The verdicts, then the payloads.
  unfoldable pub check_answer : SyncState → SyncResponse → Result WorkerError (List PhrasePayload)
  unfolding check_verdicts decode_downloads
  check_answer state response =
      check_verdicts state.prepared response >> decode_downloads response state.cursor
