-- ===== src/Protocol/Tests.antt =====
-- Runs of the envelope and of the sealed boxes under libraries that keep every byte: sealing puts a tag
-- of zeros in front of the text, and encoding puts zeros behind the bytes.
use yunpin_ime.Base.{
  ◌≡◌, ◌<◌, refl, sym, ap, ◌∙◌, arith, ℕ, zero, suc, ◌+◌, ◌-◌, ◌*◌, ◌/◌, ◌++◌, true, none, some,
  Option, [], ◌∷◌,
}
use yunpin_ime.Base.Lists.{length, take, drop, All, length-append, take-append, drop-append}
use yunpin_ime.Base.Bytes.{Bytes}
use yunpin_ime.Base.Result.{ok}
use yunpin_ime.Base.Text.{hex_encode}
use yunpin_ime.Protocol.Envelope.{
  Crypto, Codec, Header, Envelope, validate_header, validate_envelope_body, seal, open_envelope,
}
use yunpin_ime.Protocol.Envelope.Opened.{IsCrypto, IsCodec, open-seal}
use yunpin_ime.Protocol.Wire.{Base64, wire_of, to_wire, envelope_from_download}
use yunpin_ime.Protocol.Wire.RoundTrip.{IsBase64, envelope_from_download-to_wire}
use yunpin_ime.Protocol.Boxes.{
  SealedBox, RecoveryPackage, KeyAgreement, encode_sealed_box, decode_sealed_box, box_bytes,
  seal_recovery_package, open_recovery_package,
}
use yunpin_ime.Protocol.Boxes.Wire.{decode_sealed_box-encode}
use yunpin_ime.Protocol.Boxes.Packages.{open_recovery_package-seal}

abbrev pub zeros : ℕ → Bytes
zeros zero = []
zeros (suc n) = 0 ∷ zeros n

abbrev pub crypto : Crypto
crypto = record {
  marshal_header = λ h. some h.nonce;
  expand = λ secret salt info. some (zeros 32);
  seal_bytes = λ key nonce plain aad. zeros 16 ++ plain;
  open_bytes = λ key nonce sealed aad. some (drop 16 sealed);
  sign = λ key message. zeros 64;
  verify = λ key message signature. true;
  sha256 = λ b. zeros 32;
}

crypto-IsCrypto : IsCrypto crypto
crypto-IsCrypto = record {
  expands = λ secret salt info. (zeros 32, refl, refl);
  open-seal = λ key nonce plain aad. refl;
  length-seal = λ key nonce plain aad. omega arith;
  length-sign = λ key message. refl;
}

abbrev pub bytes_codec : Codec Bytes
bytes_codec = record { marshal = λ b. some b; unmarshal = λ b. some b }

bytes_codec-IsCodec : IsCodec bytes_codec
bytes_codec-IsCodec a encoded h = sym h

length-zeros : (n : ℕ) → length (zeros n) ≡ n
length-zeros zero = refl
length-zeros (suc n) = ap suc (length-zeros n)

abbrev pub base64 : Base64
base64 = record {
  encode = λ b. b ++ zeros ((length b * 8 + 5) / 6 - length b);
  decode = λ t. some (take (length t * 6 / 8) t);
}

encoded_length :
    (b : Bytes) → length (b ++ zeros ((length b * 8 + 5) / 6 - length b)) ≡ (length b * 8 + 5) / 6
encoded_length b =
    length-append b (zeros ((length b * 8 + 5) / 6 - length b))
    ∙ ap (λ n. length b + n) (length-zeros ((length b * 8 + 5) / 6 - length b))
    ∙ omega arith

pub base64-IsBase64 : IsBase64 base64
base64-IsBase64 = record {
  decode-encode = λ b.
      ap (λ n. some (take n (b ++ zeros ((length b * 8 + 5) / 6 - length b))))
        (ap (λ n. n * 6 / 8) (encoded_length b) ∙ omega arith)
      ∙ ap some (take-append b (zeros ((length b * 8 + 5) / 6 - length b)));
  decode-empty = refl;
  length-encode = encoded_length;
}

abbrev pub header : Header
header = record {
  version = 1;
  account_id = zeros 16;
  object_id = zeros 16;
  key_epoch = 1;
  device_id = zeros 16;
  device_seq = 1;
  previous_hash = [];
  nonce = zeros 24;
}

pub header_ok : validate_header header ≡ ok tt
unfolding validate_header
header_ok = refl

open-seal_example :
    (e : Envelope) × (rest : Bytes) × (seal crypto bytes_codec
        (zeros 32)
        header
        (1 ∷ 2 ∷ [])
        (zeros 64)
        (zeros 536)
      ≡ ok (e, rest))
    × (open_envelope crypto bytes_codec (zeros 32) e (zeros 32) ≡ ok (1 ∷ 2 ∷ []))
open-seal_example =
    open-seal crypto bytes_codec crypto-IsCrypto bytes_codec-IsCodec (zeros 32) header (1 ∷ 2 ∷ [])
      (zeros 64) (zeros 32) (zeros 536) (zeros 24) (1 ∷ 2 ∷ []) (ground arith) header_ok refl refl
      (refl, λ message. refl) refl refl (ground arith)

abbrev pub envelope : Envelope
envelope = record { header = header; ciphertext = zeros 528; signature = zeros 64 }

pub to_wire_run : to_wire base64 envelope ≡ ok (wire_of base64 envelope)
unfolding to_wire validate_header validate_envelope_body
to_wire_run = refl

pub zeros-bytes : (n : ℕ) → All (λ x. x < 256) (zeros n)
zeros-bytes zero = tt
zeros-bytes (suc n) = (ground arith, zeros-bytes n)

envelope_from_download-to_wire_example :
    envelope_from_download base64 header.account_id
      (record (wire_of base64 envelope) { device_id = hex_encode header.device_id; cursor = 7 })
    ≡ ok envelope
envelope_from_download-to_wire_example =
    envelope_from_download-to_wire base64 base64-IsBase64 envelope (wire_of base64 envelope) 7
      (zeros-bytes 16) (zeros-bytes 16) to_wire_run

abbrev pub box : SealedBox
box = record { nonce = zeros 24; ciphertext = zeros 20 }

pub encode_run : encode_sealed_box base64 box ≡ ok (base64.encode (box_bytes box))
unfolding encode_sealed_box
encode_run = refl

decode_sealed_box-encode_example : decode_sealed_box base64 (base64.encode (box_bytes box)) ≡ ok box
decode_sealed_box-encode_example =
    decode_sealed_box-encode base64 base64-IsBase64 box (base64.encode (box_bytes box)) encode_run

abbrev recovery : RecoveryPackage
recovery = record {
  account_id = zeros 16;
  current_epoch = 3;
  epoch_key = zeros 32;
  object_id_key = zeros 32;
}

-- A package is written as its epoch and its parts, with the length of each part before the last.
abbrev read_keys : ℕ → Bytes → Bytes → Option RecoveryPackage
read_keys epoch account [] = none
read_keys epoch account (n ∷ rest) = some (record {
  account_id = account;
  current_epoch = epoch;
  epoch_key = take n rest;
  object_id_key = drop n rest;
})

abbrev read_package : Bytes → Option RecoveryPackage
read_package [] = none
read_package (epoch ∷ []) = none
read_package (epoch ∷ n ∷ rest) = read_keys epoch (take n rest) (drop n rest)

abbrev package_bytes : RecoveryPackage → Bytes
package_bytes p =
    p.current_epoch
    ∷ length p.account_id
    ∷ (p.account_id ++ (length p.epoch_key ∷ (p.epoch_key ++ p.object_id_key)))

abbrev recovery_codec : Codec RecoveryPackage
recovery_codec = record { marshal = λ p. some (package_bytes p); unmarshal = read_package }

read_package-bytes : (p : RecoveryPackage) → read_package (package_bytes p) ≡ some p
read_package-bytes p =
    rw
      (
        take-append p.account_id (length p.epoch_key ∷ (p.epoch_key ++ p.object_id_key)),
        drop-append p.account_id (length p.epoch_key ∷ (p.epoch_key ++ p.object_id_key)),
        take-append p.epoch_key p.object_id_key,
        drop-append p.epoch_key p.object_id_key,
      )
      refl

some_injective : {a b : Bytes} → ◌≡◌ {A = Option Bytes} (some a) (some b) → a ≡ b
some_injective h = cc

recovery_codec-IsCodec : IsCodec recovery_codec
recovery_codec-IsCodec a encoded h = ap read_package (sym (some_injective h)) ∙ read_package-bytes a

open_recovery_package-seal_example :
    (b : SealedBox) × (seal_recovery_package crypto recovery_codec (zeros 32) recovery (zeros 30)
      ≡ ok (b, zeros 6))
    × (open_recovery_package crypto recovery_codec (zeros 32) b ≡ ok recovery)
open_recovery_package-seal_example =
    open_recovery_package-seal crypto crypto-IsCrypto recovery_codec recovery_codec-IsCodec
      (zeros 32) recovery (zeros 30) (package_bytes recovery) refl refl refl (ground arith)

-- Two keys agree on their bytewise sum.
abbrev sum : Bytes → Bytes → Bytes
sum [] ys = ys
sum (x ∷ xs) [] = x ∷ xs
sum (x ∷ xs) (y ∷ ys) = (x + y) ∷ sum xs ys

abbrev agreement : KeyAgreement
agreement = record { x25519 = λ private public. some (sum private public) }

abbrev ones : ℕ → Bytes
ones zero = []
ones (suc n) = 1 ∷ ones n
