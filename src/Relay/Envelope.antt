-- ===== src/Relay/Envelope.antt =====
-- sync/internal/server/server.go: the transport form of an envelope and its validation. Base64, the
-- canonical CBOR encoding, SHA-256 and Ed25519 are fields of `Primitives`.
pub mod Upload
pub mod Box
pub mod Tests
use yunpin_ime.Base.{
  ℕ, ◌+◌, ◌-◌, ◌*◌, ◌%◌, ◌++◌, Bool, true, false, not, ◌&&◌, ◌||◌, Option, none, some, [], ◌∷◌,
}
use yunpin_ime.Base.Tests.{ltb, ◌==◌, if◌then◌else◌}
use yunpin_ime.Base.Lists.{length, take, drop}
use yunpin_ime.Base.Int.{ℤ, pos, compare_int, max_int64}
use yunpin_ime.Base.Bytes.{Bytes, ascii, same, is_empty}
use yunpin_ime.Base.Result.{Result, ok, err, ◌>>=◌, ◌>>◌, fail_if, with_error}
use yunpin_ime.Base.Text.{hex_decode}
use Prim.Native.Nat.{Ordering}

pub record Identity : Type 0 where
  pub id : Bytes
  pub account_id : Bytes
  pub ed25519_key : Bytes

pub record Envelope : Type 0 where
  pub version : ℕ
  pub device_id : Bytes
  pub device_seq : ℕ
  pub object_id : Bytes
  pub key_epoch : ℕ
  pub previous_hash : Bytes
  pub nonce : Bytes
  pub ciphertext : Bytes
  pub signature : Bytes
  pub cursor : ℤ

pub record Header : Type 0 where
  pub version : ℕ
  pub account_id : Bytes
  pub object_id : Bytes
  pub key_epoch : ℕ
  pub device_id : Bytes
  pub device_seq : ℕ
  pub previous_hash : Bytes
  pub nonce : Bytes

pub record DecodedEnvelope : Type 0 where
  pub envelope : Envelope
  pub object_id : Bytes
  pub previous_hash : Bytes
  pub nonce : Bytes
  pub ciphertext : Bytes
  pub signature : Bytes
  pub record_hash : Bytes

pub data RelayError : Type 0 where
  invalid_envelope_metadata : RelayError
  invalid_envelope_object_id : RelayError
  invalid_envelope_previous_hash : RelayError
  invalid_envelope_nonce : RelayError
  invalid_envelope_ciphertext : RelayError
  invalid_envelope_signature : RelayError
  invalid_sealed_box : RelayError
  invalid_sync_batch : RelayError
  invalid_limit : RelayError
  invalid_cursor : RelayError
  database_error : RelayError

pub record Primitives : Type 0 where
  pub decode_base64 : Bytes → Option Bytes
  pub encode_base64 : Bytes → Bytes
  pub marshal_header : Header → Option Bytes
  pub verify : Bytes → Bytes → Bytes → Bool
  pub sha256 : Bytes → Bytes

abbrev pub padding_bucket : ℕ
padding_bucket = 512

abbrev pub max_ciphertext : ℕ
max_ciphertext = 524816

abbrev pub max_sealed_box_wire : ℕ
max_sealed_box_wire = 256 * 1024

-- `binary.BigEndian.Uint32` of four bytes.
unfoldable pub big_endian : Bytes → ℕ → ℕ
big_endian [] n = n
big_endian (b ∷ bs) n = big_endian bs (n * 256 + b)

-- `(len(ciphertext)-16) % paddingBucket != 0`, where the length is at least 16.
abbrev pub badly_padded : Bytes → Bool
badly_padded c = not ((length c - 16) % padding_bucket == 0)

abbrev pub nonzero_cursor : ℤ → Bool
nonzero_cursor c = elim (compare_int c (pos 0)) [ Ordering.eq ↦ false | _ ↦ true ]

module _ (p : Primitives) where
  unfoldable pub decode_sized : Bytes → ℕ → ℕ → Option Bytes
  decode_sized value least most = elim (p.decode_base64 value) [
    | none ↦ none
    | some decoded ↦
        if ltb (length decoded) least || ltb most (length decoded) then none else some decoded
  ]

  -- Of `decoded`, four bytes of magic, the version, the length in four bytes and 24 of nonce.
  unfoldable pub decode_sealed_box_wire : Bytes → Result RelayError Bytes
  unfolding decode_sized big_endian
  decode_sealed_box_wire value =
      with_error invalid_sealed_box (decode_sized value 49 max_sealed_box_wire) >>= λ decoded.
      fail_if
        (not (same (take 4 decoded) (ascii "YPBX"))
          || not (same (take 1 (drop 4 decoded)) (1 ∷ [])))
        invalid_sealed_box
      >> (let size = big_endian (take 4 (drop 5 decoded)) 0 in
          fail_if
            (ltb size 16
              || ltb (max_sealed_box_wire - 33) size
              || not (length decoded == 33 + size))
            invalid_sealed_box)
      >> ok decoded

  unfoldable pub canonical_header : Bytes → Bytes → Envelope → Bytes → Bytes → Option Bytes
  canonical_header account device e previous nonce = elim (hex_decode account) [
    | none ↦ none
    | some account_bytes ↦ elim (hex_decode device) [
      | none ↦ none
      | some device_bytes ↦ elim (hex_decode e.object_id) [
        | none ↦ none
        | some object_bytes ↦
            if not (length account_bytes == 16)
              || not (length device_bytes == 16)
              || not (length object_bytes == 16)
              || not (is_empty previous) && not (length previous == 32)
              || not (length nonce == 24)
            then none
            else p.marshal_header (record {
              version = e.version;
              account_id = account_bytes;
              object_id = object_bytes;
              key_epoch = e.key_epoch;
              device_id = device_bytes;
              device_seq = e.device_seq;
              previous_hash = previous;
              nonce = nonce;
            })
      ]
    ]
  ]

  abbrev pub bad_metadata : Envelope → Bool
  bad_metadata e =
      not (is_empty e.device_id)
      || nonzero_cursor e.cursor
      || not (e.version == 1)
      || ltb e.device_seq 1
      || ltb max_int64 e.device_seq
      || ltb e.key_epoch 1
      || ltb max_int64 e.key_epoch

  unfoldable pub decode_object_id : Bytes → Result RelayError Bytes
  decode_object_id value = elim (hex_decode value) [
    | none ↦ err invalid_envelope_object_id
    | some id ↦ if not (length id == 16) then err invalid_envelope_object_id else ok id
  ]

  unfoldable pub decode_previous : Bytes → Result RelayError Bytes
  unfolding decode_sized
  decode_previous value =
      if is_empty value
      then ok []
      else with_error invalid_envelope_previous_hash (decode_sized value 32 32)

  unfoldable pub decode_ciphertext : Bytes → Result RelayError Bytes
  unfolding decode_sized
  decode_ciphertext value =
      with_error invalid_envelope_ciphertext
        (decode_sized value (padding_bucket + 16) max_ciphertext)
      >>= λ c. if badly_padded c then err invalid_envelope_ciphertext else ok c

  unfoldable pub validate_envelope : Identity → Envelope → Result RelayError DecodedEnvelope
  unfolding decode_sized
  validate_envelope i e =
      fail_if (bad_metadata e) invalid_envelope_metadata
      >> decode_object_id e.object_id
      >>= λ object_id. decode_previous e.previous_hash >>= λ previous.
          with_error invalid_envelope_nonce (decode_sized e.nonce 24 24) >>= λ nonce.
          decode_ciphertext e.ciphertext >>= λ ciphertext.
          with_error invalid_envelope_signature (decode_sized e.signature 64 64) >>= λ signature.
          with_error invalid_envelope_metadata (canonical_header i.account_id i.id e previous nonce)
          >>= λ header.
              fail_if (not (p.verify i.ed25519_key (header ++ ciphertext) signature))
                invalid_envelope_signature
              >> ok (record {
                envelope = e;
                object_id = object_id;
                previous_hash = previous;
                nonce = nonce;
                ciphertext = ciphertext;
                signature = signature;
                record_hash = p.sha256 ((header ++ ciphertext) ++ signature);
              })
