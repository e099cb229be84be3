-- ===== src/Agent/Credentials/Reader.antt =====
-- desktopagent/credentials.go: the reader, and `DecodeCredentialBundle`.
use yunpin_ime.Base.{
  ℕ, zero, suc, ◌+◌, ◌*◌, ◌^◌, Bool, false, not, ◌||◌, Option, none, some, List, [], ◌∷◌,
}
use yunpin_ime.Base.Tests.{ltb, leb, if◌then◌else◌}
use yunpin_ime.Base.Lists.{length, take, drop}
use yunpin_ime.Base.Bytes.{Bytes, ascii, same, is_empty}
use yunpin_ime.Base.Map.{Entries}
use yunpin_ime.Base.Result.{Result, ok, err, ◌>>=◌, ◌>>◌, fail_if}
use yunpin_ime.Protocol.Clock.{ltb_bytes}
use yunpin_ime.Protocol.Envelope.{uint32}
use yunpin_ime.Agent.Credentials.{
  CredentialBundle, CredentialError, validate, max_credential_blob_bytes, max_device_token_bytes,
  max_epoch_keys, max_verification_keys, unsupported_version, invalid_length, invalid_magic,
  truncated, invalid_token, invalid_epoch_set, invalid_verification_set, out_of_order,
  trailing_bytes,
}

-- What was read, and the rest.
unfoldable pub take_bytes : ℕ → Bytes → Result CredentialError (Bytes × Bytes)
take_bytes n rest = if ltb (length rest) n then err truncated else ok (take n rest, drop n rest)

abbrev pub uint16_of : Bytes → ℕ
uint16_of (a ∷ b ∷ rest) = a * 256 + b
uint16_of short = 0

unfoldable pub read_uint16 : Bytes → Result CredentialError (ℕ × Bytes)
unfolding take_bytes
read_uint16 rest = take_bytes 2 rest >>= λ read. ok (uint16_of read.0, read.1)

unfoldable pub read_uint64 : Bytes → Result CredentialError (ℕ × Bytes)
unfolding take_bytes uint32
read_uint64 rest = take_bytes 8 rest >>= λ read.
    ok (uint32 (take 4 read.0) * 2 ^ 32 + uint32 (drop 4 read.0), read.1)

-- A number, where another error is given for a missing one, within bounds.
abbrev pub bounded :
    CredentialError → ℕ → Result CredentialError (ℕ × Bytes) → Result CredentialError (ℕ × Bytes)
bounded e most (err failure) = err e
bounded e most (ok (n, rest)) = if ltb n 1 || ltb most n then err e else ok (n, rest)

abbrev pub token_length : Result CredentialError (ℕ × Bytes) → Result CredentialError (ℕ × Bytes)
token_length (err failure) = err invalid_token
token_length (ok (n, rest)) =
    if ltb n 16 || ltb max_device_token_bytes n then err invalid_token else ok (n, rest)

unfoldable pub decode_epochs : ℕ → ℕ → Bytes → Result CredentialError (List (ℕ × Bytes) × Bytes)
unfolding read_uint64 take_bytes
decode_epochs zero previous rest = ok ([], rest)
decode_epochs (suc n) previous rest = read_uint64 rest >>= λ epoch.
    fail_if (leb epoch.0 previous) out_of_order >> take_bytes 32 epoch.1 >>= λ key.
    decode_epochs n epoch.0 key.1 >>= λ more. ok ((epoch.0, key.0) ∷ more.0, more.1)

abbrev pub not_after : Option Bytes → Bytes → Bool
not_after none device = false
not_after (some previous) device = not (ltb_bytes previous device)

unfoldable pub decode_devices :
    ℕ → Option Bytes → Bytes → Result CredentialError (Entries Bytes × Bytes)
unfolding take_bytes
decode_devices zero previous rest = ok ([], rest)
decode_devices (suc n) previous rest = take_bytes 16 rest >>= λ device.
    fail_if (not_after previous device.0) out_of_order >> take_bytes 32 device.1 >>= λ key.
    decode_devices n (some device.0) key.1 >>= λ more. ok ((device.0, key.0) ∷ more.0, more.1)

-- The maps, after the fields of fixed size in `b`.
unfoldable pub decode_maps : CredentialBundle → Bytes → Result CredentialError CredentialBundle
unfolding read_uint16 decode_epochs decode_devices
decode_maps b rest = bounded invalid_epoch_set max_epoch_keys (read_uint16 rest) >>= λ epochs.
    decode_epochs epochs.0 0 epochs.1 >>= λ epoch_keys.
    bounded invalid_verification_set max_verification_keys (read_uint16 epoch_keys.1) >>= λ devices.
    decode_devices devices.0 none devices.1 >>= λ keys.
    fail_if (not (is_empty keys.1)) trailing_bytes
    >> ok (record b { epoch_keys = epoch_keys.0; verification_keys = keys.0 })

unfoldable pub decode_fields : Bytes → Result CredentialError CredentialBundle
unfolding take_bytes read_uint16 read_uint64 decode_maps
decode_fields rest = take_bytes 16 rest >>= λ account. take_bytes 16 account.1 >>= λ device.
    token_length (read_uint16 device.1) >>= λ size. take_bytes size.0 size.1 >>= λ token.
    take_bytes 32 token.1 >>= λ seed. take_bytes 32 seed.1 >>= λ private.
    take_bytes 32 private.1 >>= λ data_key. take_bytes 32 data_key.1 >>= λ id_key.
    read_uint64 id_key.1 >>= λ epoch.
    decode_maps
      (record {
        version = 1;
        account_id = account.0;
        device_id = device.0;
        device_token = token.0;
        signing_seed = seed.0;
        x25519_private = private.0;
        local_data_key = data_key.0;
        object_id_key = id_key.0;
        current_epoch = epoch.0;
        epoch_keys = [];
        verification_keys = [];
      })
      epoch.1

module _ (public_of : Bytes → Bytes) where
  unfoldable pub decode_credential_bundle : Bytes → Result CredentialError CredentialBundle
  unfolding decode_fields
  decode_credential_bundle encoded =
      fail_if (ltb (length encoded) 5 || ltb max_credential_blob_bytes (length encoded))
        invalid_length
      >> fail_if (not (same (take 4 encoded) (ascii "YPCB"))) invalid_magic
      >> fail_if (not (same (take 1 (drop 4 encoded)) (1 ∷ []))) unsupported_version
      >> decode_fields (drop 5 encoded)
      >>= λ b. validate public_of b >> ok b
