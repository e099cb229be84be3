-- ===== src/Protocol/Wire.antt =====
-- protocol/wire.go: the transport form of an envelope. Base64 is the fields of `Base64`.
pub mod RoundTrip
use yunpin_ime.Base.{ℕ, not, ◌||◌, Option, []}
use yunpin_ime.Base.Tests.{◌==◌, if◌then◌else◌}
use yunpin_ime.Base.Lists.{length}
use yunpin_ime.Base.Bytes.{Bytes, same, is_empty}
use yunpin_ime.Base.Result.{Result, ok, err, ◌>>=◌, ◌>>◌, fail_if, with_error}
use yunpin_ime.Base.Text.{hex_encode, hex_decode, to_lower}
use yunpin_ime.Protocol.Envelope.{
  Envelope, ProtocolError, bad_wire, validate_header, validate_envelope_body,
}

pub record WireEnvelope : Type 0 where
  pub version : ℕ
  pub device_id : Bytes
  pub device_seq : ℕ
  pub object_id : Bytes
  pub key_epoch : ℕ
  pub previous_hash : Bytes
  pub nonce : Bytes
  pub ciphertext : Bytes
  pub signature : Bytes
  pub cursor : ℕ

-- base64.RawURLEncoding
pub record Base64 : Type 0 where
  pub encode : Bytes → Bytes
  pub decode : Bytes → Option Bytes

unfoldable pub decode_hex_wire_id : Bytes → Result ProtocolError Bytes
decode_hex_wire_id value =
    fail_if (not (length value == 32) || not (same value (to_lower value))) bad_wire
    >> with_error bad_wire (hex_decode value)
    >>= λ decoded. if not (length decoded == 16) then err bad_wire else ok decoded

module _ (b : Base64) where
  abbrev pub wire_of : Envelope → WireEnvelope
  wire_of e = record {
    version = e.header.version;
    device_id = [];
    device_seq = e.header.device_seq;
    object_id = hex_encode e.header.object_id;
    key_epoch = e.header.key_epoch;
    previous_hash =
        if not (length e.header.previous_hash == 0) then b.encode e.header.previous_hash else [];
    nonce = b.encode e.header.nonce;
    ciphertext = b.encode e.ciphertext;
    signature = b.encode e.signature;
    cursor = 0;
  }

  unfoldable pub to_wire : Envelope → Result ProtocolError WireEnvelope
  to_wire e =
      validate_header e.header >> validate_envelope_body e.ciphertext e.signature >> ok (wire_of e)

  -- A device ID on the wire is the authenticated one.
  unfoldable pub check_device : Bytes → Bytes → Result ProtocolError (Unit {0})
  check_device device_id wire_device =
      if is_empty wire_device
      then ok tt
      else decode_hex_wire_id wire_device >>= λ decoded.
          fail_if (not (same decoded device_id)) bad_wire

  unfoldable pub decode_wire_previous : Bytes → Result ProtocolError Bytes
  decode_wire_previous value =
      if is_empty value then ok [] else with_error bad_wire (b.decode value)

  unfoldable pub envelope_from_wire : Bytes → Bytes → WireEnvelope → Result ProtocolError Envelope
  envelope_from_wire account_id device_id wire = decode_hex_wire_id wire.object_id >>= λ object_id.
      check_device device_id wire.device_id
      >> with_error bad_wire (b.decode wire.nonce)
      >>= λ nonce. with_error bad_wire (b.decode wire.ciphertext) >>= λ ciphertext.
          with_error bad_wire (b.decode wire.signature) >>= λ signature.
          decode_wire_previous wire.previous_hash >>= λ previous.
          let e : Envelope = record {
            header = record {
              version = wire.version;
              account_id = account_id;
              object_id = object_id;
              key_epoch = wire.key_epoch;
              device_id = device_id;
              device_seq = wire.device_seq;
              previous_hash = previous;
              nonce = nonce;
            };
            ciphertext = ciphertext;
            signature = signature;
          } in
          validate_header e.header >> validate_envelope_body ciphertext signature >> ok e

  unfoldable pub envelope_from_download : Bytes → WireEnvelope → Result ProtocolError Envelope
  envelope_from_download account_id wire =
      fail_if (is_empty wire.device_id) bad_wire
      >> decode_hex_wire_id wire.device_id
      >>= λ device_id. envelope_from_wire account_id device_id wire
