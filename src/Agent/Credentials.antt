-- ===== src/Agent/Credentials.antt =====
-- desktopagent/credentials.go: the credential bundle and its binary record. A Go array is its list of
-- bytes, a Go map an association list, and the reader the bytes from its offset on. The public key of
-- a signing seed is a parameter.
pub mod Reader
pub mod Records
pub mod Sorting
pub mod RoundTrip
pub mod Tests
use yunpin_ime.Base.{
  ℕ, ◌+◌, ◌*◌, ◌/◌, ◌%◌, ◌^◌, Bool, true, false, not, ◌||◌, ◌&&◌, Option, none, some, List, [], ◌∷◌,
  ◌++◌,
}
use yunpin_ime.Base.Tests.{ltb, leb, ◌==◌, if◌then◌else◌}
use yunpin_ime.Base.Lists.{length, take, drop}
use yunpin_ime.Base.Bytes.{Bytes, ascii, same}
use yunpin_ime.Base.Map.{Entries, lookup}
use yunpin_ime.Base.Result.{Result, ok, err, ◌>>=◌, ◌>>◌, fail_if}
use yunpin_ime.Protocol.Clock.{ltb_bytes}
use yunpin_ime.Protocol.Envelope.{max_int64, put_uint32, uint32}

pub record CredentialBundle : Type 0 where
  pub version : ℕ
  pub account_id : Bytes
  pub device_id : Bytes
  pub device_token : Bytes
  pub signing_seed : Bytes
  pub x25519_private : Bytes
  pub local_data_key : Bytes
  pub object_id_key : Bytes
  pub current_epoch : ℕ
  pub epoch_keys : List (ℕ × Bytes)
  pub verification_keys : Entries Bytes

pub data CredentialError : Type 0 where
  unsupported_version : CredentialError
  zero_identifier : CredentialError
  invalid_token : CredentialError
  empty_private_key : CredentialError
  invalid_epoch_set : CredentialError
  invalid_epoch_key : CredentialError
  missing_epoch_key : CredentialError
  invalid_verification_set : CredentialError
  invalid_verification_key : CredentialError
  self_key_mismatch : CredentialError
  invalid_length : CredentialError
  invalid_magic : CredentialError
  truncated : CredentialError
  out_of_order : CredentialError
  trailing_bytes : CredentialError

abbrev pub max_credential_blob_bytes : ℕ
max_credential_blob_bytes = 64 * 1024

abbrev pub max_device_token_bytes : ℕ
max_device_token_bytes = 512

abbrev pub max_epoch_keys : ℕ
max_epoch_keys = 64

abbrev pub max_verification_keys : ℕ
max_verification_keys = 256

unfoldable pub all_zero : Bytes → Bool
all_zero [] = true
all_zero (x ∷ xs) = x == 0 && all_zero xs

abbrev token_character : ℕ → Bool
token_character c =
    leb 97 c && leb c 122 || leb 65 c && leb c 90 || leb 48 c && leb c 57 || c == 45 || c == 95

unfoldable pub all_token : Bytes → Bool
all_token [] = true
all_token (c ∷ cs) = token_character c && all_token cs

unfoldable pub valid_device_token : Bytes → Bool
unfolding all_token
valid_device_token value =
    not (ltb (length value) 16 || ltb max_device_token_bytes (length value)) && all_token value

unfoldable pub epoch_keys_ok : List (ℕ × Bytes) → Bool
unfolding all_zero
epoch_keys_ok [] = true
epoch_keys_ok ((epoch, key) ∷ rest) =
    not (ltb epoch 1 || ltb max_int64 epoch || all_zero key) && epoch_keys_ok rest

unfoldable pub has_epoch : ℕ → List (ℕ × Bytes) → Bool
has_epoch epoch [] = false
has_epoch epoch ((e, key) ∷ rest) = e == epoch || has_epoch epoch rest

unfoldable pub verification_keys_ok : Entries Bytes → Bool
unfolding all_zero
verification_keys_ok [] = true
verification_keys_ok ((device, key) ∷ rest) =
    not (all_zero device || all_zero key) && verification_keys_ok rest

abbrev pub self_key_ok : (Bytes → Bytes) → CredentialBundle → Bool
self_key_ok public_of b = elim (lookup b.device_id b.verification_keys) [
  | none ↦ false
  | some key ↦ same key (public_of b.signing_seed)
]

module _ (public_of : Bytes → Bytes) where
  unfoldable pub validate : CredentialBundle → Result CredentialError (Unit {0})
  unfolding all_zero valid_device_token epoch_keys_ok has_epoch verification_keys_ok
  validate b =
      fail_if (not (b.version == 1)) unsupported_version
      >> fail_if (all_zero b.account_id || all_zero b.device_id) zero_identifier
      >> fail_if (not (valid_device_token b.device_token)) invalid_token
      >> fail_if
          (all_zero b.signing_seed
            || all_zero b.x25519_private
            || all_zero b.local_data_key
            || all_zero b.object_id_key)
          empty_private_key
      >> fail_if
          (ltb b.current_epoch 1
            || ltb max_int64 b.current_epoch
            || ltb (length b.epoch_keys) 1
            || ltb max_epoch_keys (length b.epoch_keys))
          invalid_epoch_set
      >> fail_if (not (epoch_keys_ok b.epoch_keys)) invalid_epoch_key
      >> fail_if (not (has_epoch b.current_epoch b.epoch_keys)) missing_epoch_key
      >> fail_if
          (ltb (length b.verification_keys) 1
            || ltb max_verification_keys (length b.verification_keys))
          invalid_verification_set
      >> fail_if (not (verification_keys_ok b.verification_keys)) invalid_verification_key
      >> fail_if (not (self_key_ok public_of b)) self_key_mismatch

-- sort.Slice of the epochs and of the devices.
unfoldable pub insert_epoch : ℕ × Bytes → List (ℕ × Bytes) → List (ℕ × Bytes)
insert_epoch e [] = e ∷ []
insert_epoch e (f ∷ fs) =
    let rest = insert_epoch e fs in if ltb f.0 e.0 then f ∷ rest else e ∷ f ∷ fs

unfoldable pub sort_epochs : List (ℕ × Bytes) → List (ℕ × Bytes)
unfolding insert_epoch
sort_epochs [] = []
sort_epochs (e ∷ es) = insert_epoch e (sort_epochs es)

unfoldable pub insert_device : Bytes × Bytes → Entries Bytes → Entries Bytes
insert_device e [] = e ∷ []
insert_device e (f ∷ fs) =
    let rest = insert_device e fs in if ltb_bytes f.0 e.0 then f ∷ rest else e ∷ f ∷ fs

unfoldable pub sort_devices : Entries Bytes → Entries Bytes
unfolding insert_device
sort_devices [] = []
sort_devices (e ∷ es) = insert_device e (sort_devices es)

-- Big-endian numbers of two and of eight bytes.
unfoldable pub put_uint16 : ℕ → Bytes
put_uint16 n = n / 256 % 256 ∷ n % 256 ∷ []

unfoldable pub put_uint64 : ℕ → Bytes
unfolding put_uint32
put_uint64 n = put_uint32 (n / 2 ^ 32) ++ put_uint32 (n % 2 ^ 32)

unfoldable pub encode_epochs : List (ℕ × Bytes) → Bytes → Bytes
encode_epochs [] rest = rest
encode_epochs ((epoch, key) ∷ keys) rest = put_uint64 epoch ++ (key ++ encode_epochs keys rest)

unfoldable pub encode_devices : Entries Bytes → Bytes
encode_devices [] = []
encode_devices ((device, key) ∷ keys) = device ++ (key ++ encode_devices keys)

-- The record, of maps that are in order.
unfoldable pub record_bytes : CredentialBundle → Bytes
record_bytes b =
    ascii "YPCB"
    ++ (b.version
        ∷ (b.account_id
            ++ (b.device_id
                ++ (put_uint16 (length b.device_token)
                    ++ (b.device_token
                        ++ (b.signing_seed
                            ++ (b.x25519_private
                                ++ (b.local_data_key
                                    ++ (b.object_id_key
                                        ++ (put_uint64 b.current_epoch
                                            ++ (put_uint16 (length b.epoch_keys)
                                                ++ encode_epochs b.epoch_keys (
                                                    put_uint16 (length b.verification_keys)
                                                    ++ encode_devices
                                                        b.verification_keys))))))))))))

module _ (public_of : Bytes → Bytes) where
  unfoldable pub encode_credential_bundle : CredentialBundle → Result CredentialError Bytes
  unfolding validate record_bytes sort_epochs sort_devices
  encode_credential_bundle b =
      validate public_of b
      >> (let encoded = record_bytes (record b {
        epoch_keys = sort_epochs b.epoch_keys;
        verification_keys = sort_devices b.verification_keys;
      }) in
          fail_if (ltb max_credential_blob_bytes (length encoded)) invalid_length >> ok encoded)

abbrev cleared : Bytes → Bytes
cleared [] = []
cleared (x ∷ xs) = 0 ∷ cleared xs

unfoldable pub zero_bundle : CredentialBundle → CredentialBundle
zero_bundle b = record {
  version = b.version;
  account_id = b.account_id;
  device_id = b.device_id;
  device_token = [];
  signing_seed = cleared b.signing_seed;
  x25519_private = cleared b.x25519_private;
  local_data_key = cleared b.local_data_key;
  object_id_key = cleared b.object_id_key;
  current_epoch = 0;
  epoch_keys = [];
  verification_keys = [];
}
