-- ===== src/Relay/Envelope/Tests.antt =====
-- Runs of the relay's checks on what a client has made, under libraries that keep every byte.
use yunpin_ime.Base.{◌≡◌, ◌≤◌, refl, arith}
use yunpin_ime.Base.Lists.{length}
use yunpin_ime.Base.Bytes.{Bytes}
use yunpin_ime.Base.Result.{ok}
use yunpin_ime.Protocol.Envelope.{envelope_hash, put_uint32}
use yunpin_ime.Protocol.Wire.{wire_of, envelope_from_download}
use yunpin_ime.Protocol.Boxes.{box_bytes, decode_sealed_box, encoded_len, max_sealed_box_wire_size}
use yunpin_ime.Protocol.Tests.{
  crypto, base64, base64-IsBase64, header, envelope, to_wire_run, zeros, zeros-bytes, box,
}
use yunpin_ime.Relay.Envelope.{validate_envelope, decode_sealed_box_wire}
use yunpin_ime.Relay.Envelope.Upload.{
  relay_primitives, received, identity_of, decoded_of, validate_envelope-to_wire,
}
use yunpin_ime.Relay.Envelope.Box.{is_ok, decode_sealed_box_wire-agrees}
use yunpin_ime.Relay.Sync.{outgoing, stored_row}
use yunpin_ime.Relay.Sync.Delivery.{downloaded, envelope_from_download-outgoing}

validate_envelope-to_wire_example :
    (hash : Bytes) × (envelope_hash crypto envelope ≡ ok hash)
    × (validate_envelope
          (relay_primitives crypto base64)
          (identity_of crypto base64 base64-IsBase64 header (zeros 32))
          (received (wire_of base64 envelope))
        ≡ ok (decoded_of crypto base64 base64-IsBase64 envelope hash))
validate_envelope-to_wire_example =
    validate_envelope-to_wire crypto base64 base64-IsBase64 envelope (wire_of base64 envelope)
      (zeros 24) (zeros 32) (zeros-bytes 16) (zeros-bytes 16) (zeros-bytes 16) to_wire_run refl refl

envelope_from_download-outgoing_example :
    envelope_from_download base64 header.account_id (
      downloaded (
        outgoing (relay_primitives crypto base64) (
          stored_row
            (identity_of crypto base64 base64-IsBase64 header (zeros 32))
            (decoded_of crypto base64 base64-IsBase64 envelope (zeros 32))
            7)))
    ≡ ok envelope
envelope_from_download-outgoing_example =
    envelope_from_download-outgoing crypto base64 base64-IsBase64 envelope (wire_of base64 envelope)
      (zeros 32) (zeros 32) 7 (zeros-bytes 16) (zeros-bytes 16) to_wire_run

text_length :
    (1 ≤ length (base64.encode (box_bytes box)))
    × (length (base64.encode (box_bytes box)) ≤ encoded_len max_sealed_box_wire_size)
unfolding put_uint32
text_length = (ground arith, ground arith)

decode_sealed_box_wire-agrees_example :
    is_ok (decode_sealed_box_wire (relay_primitives crypto base64) (base64.encode (box_bytes box)))
    ≡ is_ok (decode_sealed_box base64 (base64.encode (box_bytes box)))
decode_sealed_box_wire-agrees_example =
    decode_sealed_box_wire-agrees crypto base64 (base64.encode (box_bytes box)) text_length.0
      text_length.1
