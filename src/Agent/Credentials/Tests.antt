-- ===== src/Agent/Credentials/Tests.antt =====
-- A bundle of one device with two epochs, under a key pair whose public part is the seed.
use yunpin_ime.Base.{◌≡◌, refl, ℕ, zero, suc, List, [], ◌∷◌}
use yunpin_ime.Base.Bytes.{Bytes, ascii, same, compare_bytes}
use yunpin_ime.Base.Map.{Entries, lookup}
use yunpin_ime.Base.Result.{ok}
use yunpin_ime.Agent.Credentials.{
  CredentialBundle, encode_credential_bundle, record_bytes, put_uint16, put_uint64, encode_epochs,
  encode_devices,
}
use yunpin_ime.Agent.Credentials.Sorting.{key_of}
use yunpin_ime.Agent.Credentials.Reader.{decode_credential_bundle}
use yunpin_ime.Agent.Credentials.RoundTrip.{IsHeld, decode_credential_bundle-encode}

abbrev copies : ℕ → ℕ → Bytes
copies x zero = []
copies x (suc n) = x ∷ copies x n

abbrev public_of : Bytes → Bytes
public_of seed = seed

abbrev bundle : CredentialBundle
bundle = record {
  version = 1;
  account_id = copies 1 16;
  device_id = copies 2 16;
  device_token = ascii "token-of-device_1";
  signing_seed = copies 3 32;
  x25519_private = copies 4 32;
  local_data_key = copies 5 32;
  object_id_key = copies 6 32;
  current_epoch = 2;
  epoch_keys = (2, copies 8 32) ∷ (1, copies 7 32) ∷ [];
  verification_keys = (copies 2 16, copies 3 32) ∷ (copies 1 16, copies 9 32) ∷ [];
}

-- What is written, with the maps in order.
abbrev listed : CredentialBundle
listed = record bundle {
  epoch_keys = (1, copies 7 32) ∷ (2, copies 8 32) ∷ [];
  verification_keys = (copies 1 16, copies 9 32) ∷ (copies 2 16, copies 3 32) ∷ [];
}

bundle-IsHeld : IsHeld bundle
unfolding key_of lookup same
bundle-IsHeld = record {
  account = refl;
  device = refl;
  seed = refl;
  private = refl;
  data_key = refl;
  id_key = refl;
  epochs = (refl, refl, (refl, refl, tt));
  devices = (refl, refl, refl, (refl, refl, refl, tt));
}

encode_run : encode_credential_bundle public_of bundle ≡ ok (record_bytes listed)
unfolding encode_credential_bundle lookup same put_uint16 put_uint64 encode_epochs encode_devices
    compare_bytes
encode_run = refl

decode_credential_bundle-encode_example :
    (epochs : List (ℕ × Bytes)) × (devices : Entries Bytes) × (decode_credential_bundle public_of
        (record_bytes listed)
      ≡ ok (record bundle { epoch_keys = epochs; verification_keys = devices }))
    × ((epoch : ℕ) → key_of epoch epochs ≡ key_of epoch bundle.epoch_keys)
    × ((device : Bytes) → lookup device devices ≡ lookup device bundle.verification_keys)
decode_credential_bundle-encode_example =
    decode_credential_bundle-encode public_of bundle (record_bytes listed) bundle-IsHeld encode_run
