-- ===== src/Agent/Credentials/RoundTrip.antt =====
-- desktopagent/credentials.go: a bundle is what its record is decoded to.
use yunpin_ime.Base.{
  ◌≡◌, ◌≤◌, ◌<◌, refl, sym, ap, ◌∙◌, arith, ℕ, ◌^◌, true, false, none, some, List, [], ◌∷◌, ◌++◌,
}
use yunpin_ime.Base.Tests.{ltb, le→ltb-false}
use yunpin_ime.Base.Lists.{length, take, drop}
use yunpin_ime.Base.Bytes.{Bytes, ascii, same, same_iff, is_empty}
use yunpin_ime.Base.Map.{Entries}
use yunpin_ime.Base.Result.{ok, >>=-eq-ok, fail_if, fail_if-eq-ok}
use yunpin_ime.Base.Ensures.{ok_injective}
use yunpin_ime.Agent.Credentials.{
  CredentialBundle, validate, encode_credential_bundle, record_bytes, sort_epochs, sort_devices,
  put_uint16, encode_epochs, encode_devices, max_credential_blob_bytes, valid_device_token,
  invalid_length,
}
use yunpin_ime.Agent.Credentials.Reader.{decode_maps, decode_fields, decode_credential_bundle}
use yunpin_ime.Base.Map.{lookup}
use yunpin_ime.Agent.Credentials.{epoch_keys_ok, self_key_ok}
use yunpin_ime.Agent.Credentials.Sorting.{
  key_of, AreEpochs, AreDevices, key_of-sort_epochs, sort_epochs-tests, sort_epochs-IsRising,
  lookup-sort_devices, sort_devices-tests, sort_devices-IsOrdered,
}
use yunpin_ime.Agent.Credentials.Records.{
  take_bytes-append, read_uint16-put, read_uint64-put, IsRising, IsOrdered, decode_epochs-encode,
  decode_devices-encode,
}

-- A bundle whose maps are listed in the order of their keys, and whose arrays have their sizes.
record IsListed (b : CredentialBundle) : Type 0 where
  pub account : length b.account_id ≡ 16
  pub device : length b.device_id ≡ 16
  pub seed : length b.signing_seed ≡ 32
  pub private : length b.x25519_private ≡ 32
  pub data_key : length b.local_data_key ≡ 32
  pub id_key : length b.object_id_key ≡ 32
  pub epochs : IsRising 0 b.epoch_keys
  pub devices : IsOrdered none b.verification_keys

-- What the validation of a bundle leaves.
record Valid (b : CredentialBundle) : Type 0 where
  pub version : b.version ≡ 1
  pub token_least : 16 ≤ length b.device_token
  pub token_most : length b.device_token ≤ 512
  pub epoch : b.current_epoch < 2 ^ 64
  pub epochs_least : 1 ≤ length b.epoch_keys
  pub epochs_most : length b.epoch_keys ≤ 64
  pub devices_least : 1 ≤ length b.verification_keys
  pub devices_most : length b.verification_keys ≤ 256

module _ (public_of : Bytes → Bytes) where
  validate-Valid : (b : CredentialBundle) → validate public_of b ≡ ok tt → Valid b
  unfolding validate valid_device_token
  validate-Valid b h = record {
    version = ground (arith, h);
    token_least = ground (arith, h);
    token_most = ground (arith, h);
    epoch = ground (arith, h);
    epochs_least = ground (arith, h);
    epochs_most = ground (arith, h);
    devices_least = ground (arith, h);
    devices_most = ground (arith, h);
  }

decode_maps-encode :
    (b : CredentialBundle) (epochs : List (ℕ × Bytes)) (devices : Entries Bytes)
    → IsRising 0 epochs
    → IsOrdered none devices
    → 1 ≤ length epochs
    → length epochs ≤ 64
    → 1 ≤ length devices
    → length devices ≤ 256
    → decode_maps b (
        put_uint16 (length epochs)
        ++ encode_epochs epochs (put_uint16 (length devices) ++ encode_devices devices))
      ≡ ok (record b { epoch_keys = epochs; verification_keys = devices })
unfolding decode_maps is_empty
decode_maps-encode b epochs devices he hd e1 e2 d1 d2 =
    rw
      (
        read_uint16-put (length epochs)
            (encode_epochs epochs (put_uint16 (length devices) ++ encode_devices devices))
            (omega (arith, e2)),
        le→ltb-false 1 (length epochs) e1,
        le→ltb-false (length epochs) 64 e2,
        decode_epochs-encode 0 epochs (put_uint16 (length devices) ++ encode_devices devices) he,
        read_uint16-put (length devices) (encode_devices devices) (omega (arith, d2)),
        le→ltb-false 1 (length devices) d1,
        le→ltb-false (length devices) 256 d2,
        decode_devices-encode none devices hd,
      )
      refl

-- A bundle as Go holds it: its arrays have their sizes, and its maps have distinct keys, in any order.
pub record IsHeld (b : CredentialBundle) : Type 0 where
  pub account : length b.account_id ≡ 16
  pub device : length b.device_id ≡ 16
  pub seed : length b.signing_seed ≡ 32
  pub private : length b.x25519_private ≡ 32
  pub data_key : length b.local_data_key ≡ 32
  pub id_key : length b.object_id_key ≡ 32
  pub epochs : AreEpochs b.epoch_keys
  pub devices : AreDevices b.verification_keys

-- The bundle that is written.
abbrev sorted : CredentialBundle → CredentialBundle
sorted b = record b {
  epoch_keys = sort_epochs b.epoch_keys;
  verification_keys = sort_devices b.verification_keys;
}

module _ (public_of : Bytes → Bytes) where
  validate-sorted : (b : CredentialBundle) → validate public_of (sorted b) ≡ validate public_of b
  unfolding validate
  validate-sorted b =
      let (size, valid, found) = sort_epochs-tests b.current_epoch b.epoch_keys in
      let (count, checked) = sort_devices-tests b.verification_keys in
      let self : self_key_ok public_of (sorted b) ≡ self_key_ok public_of b =
        ap (λ found. elim found [ none ↦ false | some key ↦ same key (public_of b.signing_seed) ])
          (lookup-sort_devices b.device_id b.verification_keys) in
      rw (size, valid, found, count, checked, self) refl

  validate-epochs :
      (b : CredentialBundle) → validate public_of b ≡ ok tt → epoch_keys_ok b.epoch_keys ≡ true
  unfolding validate
  validate-epochs b h = ground (arith, h)

  sorted-IsListed :
      (b : CredentialBundle) → IsHeld b → validate public_of b ≡ ok tt → IsListed (sorted b)
  sorted-IsListed b l h = record {
    account = l.account;
    device = l.device;
    seed = l.seed;
    private = l.private;
    data_key = l.data_key;
    id_key = l.id_key;
    epochs = sort_epochs-IsRising b.epoch_keys l.epochs (validate-epochs b h);
    devices = sort_devices-IsOrdered b.verification_keys l.devices;
  }

decode_fields-body :
    (b : CredentialBundle) → IsListed b → Valid b → decode_fields (drop 5 (record_bytes b)) ≡ ok b
unfolding decode_fields record_bytes
decode_fields-body b l v =
    rw
      (
        take_bytes-append 16 b.account_id _ l.account,
        take_bytes-append 16 b.device_id _ l.device,
        read_uint16-put (length b.device_token) _ (omega (arith, v.token_most)),
        le→ltb-false 16 (length b.device_token) v.token_least,
        le→ltb-false (length b.device_token) 512 v.token_most,
        take_bytes-append (length b.device_token) b.device_token _ refl,
        take_bytes-append 32 b.signing_seed _ l.seed,
        take_bytes-append 32 b.x25519_private _ l.private,
        take_bytes-append 32 b.local_data_key _ l.data_key,
        take_bytes-append 32 b.object_id_key _ l.id_key,
        read_uint64-put b.current_epoch _ v.epoch,
      )
      (decode_maps-encode (record b { version = 1; epoch_keys = []; verification_keys = [] })
          b.epoch_keys b.verification_keys l.epochs l.devices v.epochs_least v.epochs_most
          v.devices_least v.devices_most
        ∙ ap (λ n. ok (record b { version = n })) (sym v.version))

-- The front of the record.
front :
    (b : CredentialBundle)
    → b.version ≡ 1
    → (take 4 (record_bytes b) ≡ ascii "YPCB")
      × (take 1 (drop 4 (record_bytes b)) ≡ 1 ∷ [])
      × (5 ≤ length (record_bytes b))
unfolding record_bytes
front b h = (refl, ap (λ n. n ∷ []) h, omega arith)

decoded_lem :
    (public_of : Bytes → Bytes) (b : CredentialBundle)
    → IsListed b
    → validate public_of b ≡ ok tt
    → length (record_bytes b) ≤ max_credential_blob_bytes
    → decode_credential_bundle public_of (record_bytes b) ≡ ok b
unfolding decode_credential_bundle
decoded_lem public_of b l h most =
    let v = validate-Valid public_of b h in
    let (magic, version, least) = front b v.version in
    rw
      (
        le→ltb-false 5 (length (record_bytes b)) least,
        le→ltb-false (length (record_bytes b)) max_credential_blob_bytes most,
        magic,
        (same_iff (ascii "YPCB") (ascii "YPCB")).1 refl,
        version,
        (same_iff (1 ∷ []) (1 ∷ [])).1 refl,
        decode_fields-body b l v,
        h,
      )
      refl

-- The record that a bundle is encoded to, whatever the order in which its maps are listed, is decoded
-- to a bundle with the same fields and the same maps: each epoch and each device has the key it had.
pub decode_credential_bundle-encode :
    (public_of : Bytes → Bytes) (b : CredentialBundle) (text : Bytes)
    → IsHeld b
    → encode_credential_bundle public_of b ≡ ok text
    → (epochs : List (ℕ × Bytes)) × (devices : Entries Bytes) × (decode_credential_bundle public_of
          text
        ≡ ok (record b { epoch_keys = epochs; verification_keys = devices }))
      × ((epoch : ℕ) → key_of epoch epochs ≡ key_of epoch b.epoch_keys)
      × ((device : Bytes) → lookup device devices ≡ lookup device b.verification_keys)
unfolding encode_credential_bundle
decode_credential_bundle-encode public_of b text l h =
    let (_, valid, rest) = >>=-eq-ok (validate public_of b) _ h in
    let bytes = record_bytes (sorted b) in
    let (_, small, made) =
      >>=-eq-ok (fail_if (ltb max_credential_blob_bytes (length bytes)) invalid_length) _ rest in
    let most : length bytes ≤ max_credential_blob_bytes =
      ground (arith, fail_if-eq-ok _ invalid_length small) in
    (
      sort_epochs b.epoch_keys,
      sort_devices b.verification_keys,
      ap (decode_credential_bundle public_of) (sym (ok_injective made))
          ∙ decoded_lem public_of (sorted b) (sorted-IsListed public_of b l valid)
              (validate-sorted public_of b ∙ valid) most,
      λ epoch. key_of-sort_epochs epoch b.epoch_keys,
      λ device. lookup-sort_devices device b.verification_keys,
    )
