-- ===== src/Protocol/Boxes.antt =====
-- protocol/boxes.go: sealed boxes, their transport form, and the packages that are sent in them.
pub mod Wire
pub mod Packages
use yunpin_ime.Base.{ℕ, ◌+◌, ◌-◌, ◌*◌, ◌/◌, ◌%◌, ◌++◌, not, ◌||◌, Bool, Option, [], ◌∷◌}
use yunpin_ime.Base.Tests.{ltb, ◌==◌, if◌then◌else◌}
use yunpin_ime.Base.Lists.{length, take, drop}
use yunpin_ime.Base.Bytes.{Bytes, ascii, same, is_empty}
use yunpin_ime.Base.Result.{Result, ok, err, ◌>>=◌, ◌>>◌, fail_if, with_error}
use yunpin_ime.Protocol.Envelope.{
  Crypto, Codec, ProtocolError, bad_key, bad_sealed_box, bad_recovery_package, bad_nonce,
  bad_ciphertext_length, unauthenticated, encoding_failed, decoding_failed, read_full, put_uint32,
  uint32,
}
use yunpin_ime.Protocol.Wire.{Base64}

pub record SealedBox : Type 0 where
  pub nonce : Bytes
  pub ciphertext : Bytes

abbrev pub sealed_box_wire_header_size : ℕ
sealed_box_wire_header_size = 4 + 1 + 4 + 24

abbrev pub max_sealed_box_wire_size : ℕ
max_sealed_box_wire_size = 256 * 1024

abbrev pub max_sealed_box_ciphertext_size : ℕ
max_sealed_box_ciphertext_size = max_sealed_box_wire_size - sealed_box_wire_header_size

-- base64.RawURLEncoding.EncodedLen
abbrev pub encoded_len : ℕ → ℕ
encoded_len n = (n * 8 + 5) / 6

abbrev pub box_bytes : SealedBox → Bytes
box_bytes box =
    ascii "YPBX"
    ++ (1 ∷ (put_uint32 (length box.ciphertext % 4294967296) ++ (box.nonce ++ box.ciphertext)))

-- The checks of the decoded bytes.
unfoldable pub box_of : Bytes → Result ProtocolError SealedBox
unfolding uint32
box_of wire =
    fail_if (ltb (length wire) (sealed_box_wire_header_size + 16)) bad_sealed_box
    >> fail_if (not (same (take 4 wire) (ascii "YPBX"))) bad_sealed_box
    >> fail_if (not (same (take 1 (drop 4 wire)) (1 ∷ []))) bad_sealed_box
    >> (let size = uint32 (take 4 (drop 5 wire)) in
        fail_if (ltb size 16 || ltb max_sealed_box_ciphertext_size size) bad_sealed_box
        >> fail_if (not (length wire == sealed_box_wire_header_size + size)) bad_sealed_box)
    >> ok (record { nonce = take 24 (drop 9 wire); ciphertext = drop 33 wire })

module _ (b : Base64) where
  unfoldable pub encode_sealed_box : SealedBox → Result ProtocolError Bytes
  unfolding put_uint32
  encode_sealed_box box =
      fail_if (not (length box.nonce == 24)) bad_nonce
      >> fail_if
          (ltb (length box.ciphertext) 16
            || ltb max_sealed_box_ciphertext_size (length box.ciphertext))
          bad_ciphertext_length
      >> ok (b.encode (box_bytes box))

  unfoldable pub decode_sealed_box : Bytes → Result ProtocolError SealedBox
  unfolding box_of
  decode_sealed_box encoded =
      fail_if (is_empty encoded || ltb (encoded_len max_sealed_box_wire_size) (length encoded))
        bad_sealed_box
      >> with_error bad_sealed_box (b.decode encoded)
      >>= λ wire. box_of wire

pub record RecoveryPackage : Type 0 where
  pub account_id : Bytes
  pub current_epoch : ℕ
  pub epoch_key : Bytes
  pub object_id_key : Bytes

module _ (c : Crypto) {A : Type 0} (codec : Codec A) where
  unfoldable pub seal_box : Bytes → Bytes → A → Bytes → Result ProtocolError (SealedBox × Bytes)
  unfolding read_full
  seal_box key aad payload source =
      fail_if (not (length key == 32)) bad_key
      >> with_error encoding_failed (codec.marshal payload)
      >>= λ plain. read_full 24 source >>= λ read.
          ok (record { nonce = read.0; ciphertext = c.seal_bytes key read.0 plain aad }, read.1)

  unfoldable pub open_box : Bytes → Bytes → SealedBox → Result ProtocolError A
  open_box key aad box =
      fail_if (not (length key == 32) || not (length box.nonce == 24)) bad_sealed_box
      >> with_error unauthenticated (c.open_bytes key box.nonce box.ciphertext aad)
      >>= λ plain. with_error decoding_failed (codec.unmarshal plain)

-- curve25519.X25519 of a private and a public key.
pub record KeyAgreement : Type 0 where
  pub x25519 : Bytes → Bytes → Option Bytes

module _ (c : Crypto) where
  unfoldable pub derive_recovery_keys : Bytes → Result ProtocolError (Bytes × Bytes)
  derive_recovery_keys recovery_key =
      fail_if (not (length recovery_key == 32)) bad_key
      >> with_error encoding_failed
          (c.expand recovery_key [] (ascii "yunpin-recovery-encryption-v1"))
      >>= λ encryption.
          with_error encoding_failed
            (c.expand recovery_key [] (ascii "yunpin-recovery-authentication-v1"))
          >>= λ authentication. ok (encryption, authentication)

  unfoldable pub recovery_authentication : Base64 → Bytes → Result ProtocolError Bytes
  unfolding derive_recovery_keys
  recovery_authentication b recovery_key =
      derive_recovery_keys recovery_key >>= λ keys. ok (b.encode keys.1)

  unfoldable pub derive_pairing_key :
      KeyAgreement → Bytes → Bytes → Bytes → Result ProtocolError Bytes
  derive_pairing_key k private peer_public session_nonce =
      fail_if (not (length private == 32) || not (length peer_public == 32)) bad_key
      >> fail_if (ltb (length session_nonce) 16) bad_nonce
      >> with_error bad_key (k.x25519 private peer_public)
      >>= λ shared.
          with_error encoding_failed (c.expand shared session_nonce (ascii "yunpin-pairing-v1"))

-- The additional data of a pairing package ends with a zero byte and the nonce.
abbrev pub pairing_aad : Bytes → Bytes
pairing_aad session_nonce = (ascii "yunpin-pairing-package-v1" ++ (0 ∷ [])) ++ session_nonce

abbrev pub recovery_aad : Bytes
recovery_aad = ascii "yunpin-recovery-package-v1"

module _ (c : Crypto) (k : KeyAgreement) {A : Type 0} (codec : Codec A) where
  unfoldable pub seal_pairing_payload :
      Bytes → Bytes → Bytes → A → Bytes → Result ProtocolError (SealedBox × Bytes)
  seal_pairing_payload private peer_public session_nonce payload source =
      derive_pairing_key c k private peer_public session_nonce >>= λ key.
      seal_box c codec key (pairing_aad session_nonce) payload source

  unfoldable pub open_pairing_payload : Bytes → Bytes → Bytes → SealedBox → Result ProtocolError A
  open_pairing_payload private peer_public session_nonce box =
      derive_pairing_key c k private peer_public session_nonce >>= λ key.
      open_box c codec key (pairing_aad session_nonce) box

abbrev pub bad_package : RecoveryPackage → Bool
bad_package p =
    not (length p.account_id == 16)
    || not (length p.epoch_key == 32)
    || not (length p.object_id_key == 32)
    || p.current_epoch == 0

module _ (c : Crypto) (codec : Codec RecoveryPackage) where
  unfoldable pub seal_recovery_package :
      Bytes → RecoveryPackage → Bytes → Result ProtocolError (SealedBox × Bytes)
  seal_recovery_package recovery_key payload source =
      fail_if (bad_package payload) bad_recovery_package
      >> derive_recovery_keys c recovery_key
      >>= λ keys. seal_box c codec keys.0 recovery_aad payload source

  unfoldable pub open_recovery_package : Bytes → SealedBox → Result ProtocolError RecoveryPackage
  open_recovery_package recovery_key box = derive_recovery_keys c recovery_key >>= λ keys.
      open_box c codec keys.0 recovery_aad box >>= λ payload.
      if bad_package payload then err bad_recovery_package else ok payload
