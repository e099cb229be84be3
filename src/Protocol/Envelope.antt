-- ===== src/Protocol/Envelope.antt =====
-- protocol/crypto.go: the envelope that a device seals for the other devices of its account. CBOR,
-- HKDF, XChaCha20-Poly1305, Ed25519 and SHA-256 are fields of `Crypto`, and a random source is the
-- bytes that it still gives. What a failed call has read is not described.
pub mod Padding
pub mod Opened
use yunpin_ime.Base.{ℕ, ◌+◌, ◌-◌, ◌*◌, ◌/◌, ◌%◌, ◌++◌, Bool, not, ◌&&◌, ◌||◌, Option, [], ◌∷◌}
use yunpin_ime.Base.Tests.{ltb, ◌==◌, if◌then◌else◌}
use yunpin_ime.Base.Lists.{length, take, drop}
use yunpin_ime.Base.Bytes.{Bytes, ascii}
use yunpin_ime.Base.Result.{Result, ok, err, ◌>>=◌, ◌>>◌, fail_if, with_error}

pub record Header : Type 0 where
  pub version : ℕ
  pub account_id : Bytes
  pub object_id : Bytes
  pub key_epoch : ℕ
  pub device_id : Bytes
  pub device_seq : ℕ
  pub previous_hash : Bytes
  pub nonce : Bytes

pub record Envelope : Type 0 where
  pub header : Header
  pub ciphertext : Bytes
  pub signature : Bytes

pub data ProtocolError : Type 0 where
  unsupported_version : ProtocolError
  bad_identifier : ProtocolError
  bad_key_epoch : ProtocolError
  bad_device_seq : ProtocolError
  bad_previous_hash : ProtocolError
  bad_nonce : ProtocolError
  bad_key : ProtocolError
  bad_ciphertext_length : ProtocolError
  bad_signature_length : ProtocolError
  bad_signature : ProtocolError
  unauthenticated : ProtocolError
  bad_padding : ProtocolError
  payload_too_large : ProtocolError
  encoding_failed : ProtocolError
  decoding_failed : ProtocolError
  random_source_failed : ProtocolError
  bad_wire : ProtocolError
  bad_sealed_box : ProtocolError
  bad_recovery_package : ProtocolError

-- `seal_bytes` and `open_bytes` take a key, a nonce, a text and the additional data. `expand` is 32
-- bytes of HKDF-SHA-256 from a secret, a salt and an info text.
pub record Crypto : Type 0 where
  pub marshal_header : Header → Option Bytes
  pub expand : Bytes → Bytes → Bytes → Option Bytes
  pub seal_bytes : Bytes → Bytes → Bytes → Bytes → Bytes
  pub open_bytes : Bytes → Bytes → Bytes → Bytes → Option Bytes
  pub sign : Bytes → Bytes → Bytes
  pub verify : Bytes → Bytes → Bytes → Bool
  pub sha256 : Bytes → Bytes

-- The canonical CBOR encoding of one type of payload.
pub record Codec (A : Type 0) : Type 0 where
  pub marshal : A → Option Bytes
  pub unmarshal : Bytes → Option A

abbrev pub protocol_version : ℕ
protocol_version = 1

abbrev pub padding_bucket : ℕ
padding_bucket = 512

abbrev pub max_envelope_payload : ℕ
max_envelope_payload = 512 * 1024

abbrev pub max_envelope_ciphertext : ℕ
max_envelope_ciphertext =
    (max_envelope_payload + 4 + padding_bucket - 1) / padding_bucket * padding_bucket + 16

abbrev pub max_int64 : ℕ
max_int64 = 9223372036854775807

unfoldable pub validate_header : Header → Result ProtocolError (Unit {0})
validate_header h =
    fail_if (not (h.version == protocol_version)) unsupported_version
    >> fail_if
        (not (length h.account_id == 16)
          || not (length h.object_id == 16)
          || not (length h.device_id == 16))
        bad_identifier
    >> fail_if (ltb h.key_epoch 1 || ltb max_int64 h.key_epoch) bad_key_epoch
    >> fail_if (ltb h.device_seq 1 || ltb max_int64 h.device_seq) bad_device_seq
    >> fail_if (not (length h.previous_hash == 0) && not (length h.previous_hash == 32))
        bad_previous_hash
    >> fail_if (not (length h.nonce == 24)) bad_nonce

unfoldable pub validate_envelope_body : Bytes → Bytes → Result ProtocolError (Unit {0})
validate_envelope_body ciphertext signature =
    fail_if (not (length signature == 64)) bad_signature_length
    >> fail_if
        (ltb (length ciphertext) (padding_bucket + 16)
          || ltb max_envelope_ciphertext (length ciphertext)
          || not ((length ciphertext - 16) % padding_bucket == 0))
        bad_ciphertext_length

-- io.ReadFull: the bytes, and what the source still gives.
unfoldable pub read_full : ℕ → Bytes → Result ProtocolError (Bytes × Bytes)
read_full n source =
    if ltb (length source) n then err random_source_failed else ok (take n source, drop n source)

-- binary.BigEndian.PutUint32 of a uint32, and binary.BigEndian.Uint32.
unfoldable pub put_uint32 : ℕ → Bytes
put_uint32 n = n / 16777216 % 256 ∷ n / 65536 % 256 ∷ n / 256 % 256 ∷ n % 256 ∷ []

unfoldable pub uint32 : Bytes → ℕ
uint32 (a ∷ b ∷ c ∷ d ∷ rest) = a * 16777216 + b * 65536 + c * 256 + d
uint32 short = 0

unfoldable pub padded_length : ℕ → ℕ
padded_length size =
    let needed = 4 + size in
    let target = (needed + padding_bucket - 1) / padding_bucket * padding_bucket in
    if ltb target padding_bucket then padding_bucket else target

unfoldable pub pad : Bytes → Bytes → Result ProtocolError (Bytes × Bytes)
unfolding read_full put_uint32 padded_length
pad encoded source =
    fail_if (ltb max_envelope_payload (length encoded)) payload_too_large
    >> read_full (padded_length (length encoded) - (4 + length encoded)) source
    >>= λ read. ok (put_uint32 (length encoded % 4294967296) ++ (encoded ++ read.0), read.1)

module _ {A : Type 0} (codec : Codec A) where
  unfoldable pub padded_payload : A → Bytes → Result ProtocolError (Bytes × Bytes)
  unfolding pad
  padded_payload payload source =
      with_error encoding_failed (codec.marshal payload) >>= λ encoded. pad encoded source

  -- `plain[4:4+length]`, decoded.
  unfoldable pub unpad : Bytes → Result ProtocolError A
  unfolding uint32
  unpad plain =
      fail_if (ltb (length plain) 4) bad_padding
      >> (let size = uint32 (take 4 plain) in
          fail_if (ltb (length plain - 4) size) bad_padding
          >> with_error decoding_failed (codec.unmarshal (take size (drop 4 plain))))

module _ (c : Crypto) where
  unfoldable pub derive_object_key : Bytes → Bytes → Result ProtocolError Bytes
  derive_object_key epoch_key object_id =
      fail_if (not (length epoch_key == 32)) bad_key
      >> with_error encoding_failed (c.expand epoch_key object_id (ascii "yunpin-envelope-v1"))

  abbrev pub canonical_header : Header → Result ProtocolError Bytes
  canonical_header header = with_error encoding_failed (c.marshal_header header)

  unfoldable pub envelope_hash : Envelope → Result ProtocolError Bytes
  unfolding validate_header validate_envelope_body
  envelope_hash e =
      validate_header e.header
      >> validate_envelope_body e.ciphertext e.signature
      >> canonical_header e.header
      >>= λ aad. ok (c.sha256 ((aad ++ e.ciphertext) ++ e.signature))

module _ (c : Crypto) {A : Type 0} (codec : Codec A) where
  unfoldable pub seal : Bytes → Header → A → Bytes → Bytes → Result ProtocolError (Envelope × Bytes)
  unfolding validate_header read_full padded_payload derive_object_key
  seal epoch_key header payload signing_private source = read_full 24 source >>= λ read.
      let header = record header { version = protocol_version; nonce = read.0 } in
      validate_header header
      >> fail_if (not (length signing_private == 64)) bad_key
      >> canonical_header c header
      >>= λ aad. padded_payload codec payload read.1 >>= λ plain.
          derive_object_key c epoch_key header.object_id >>= λ key.
          let ciphertext = c.seal_bytes key header.nonce plain.0 aad in
          ok (
            record {
              header = header;
              ciphertext = ciphertext;
              signature = c.sign signing_private (aad ++ ciphertext);
            },
            plain.1,
          )

  unfoldable pub open_envelope : Bytes → Envelope → Bytes → Result ProtocolError A
  unfolding validate_header validate_envelope_body derive_object_key unpad
  open_envelope epoch_key e signing_public =
      validate_header e.header
      >> fail_if (not (length signing_public == 32)) bad_key
      >> validate_envelope_body e.ciphertext e.signature
      >> canonical_header c e.header
      >>= λ aad.
          fail_if (not (c.verify signing_public (aad ++ e.ciphertext) e.signature)) bad_signature
          >> derive_object_key c epoch_key e.header.object_id
          >>= λ key.
              with_error unauthenticated (c.open_bytes key e.header.nonce e.ciphertext aad)
              >>= λ plain. unpad codec plain
