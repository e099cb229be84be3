-- ===== src/Relay/Accounts.antt =====
-- sync/internal/server/server.go: accounts, the devices that may use them, and key rings. The tables
-- are lists; random values come as arguments, `none` where the source of randomness fails. An error
-- leaves the tables as they are.
pub mod Change
pub mod Revoked
pub mod Keyrings
pub mod Recovery
pub mod Tests
use yunpin_ime.Base.{
  ℕ, ◌+◌, ◌<◌, Bool, true, false, not, ◌&&◌, ◌||◌, Option, none, some, List, [], ◌∷◌, ◌≡◌,
}
use yunpin_ime.Base.Tests.{ltb, ◌==◌, if◌then◌else◌}
use yunpin_ime.Base.Lists.{length, take, drop}
use yunpin_ime.Base.Bytes.{Bytes, ascii, same, is_empty}
use yunpin_ime.Base.Text.{hex_decode, trim_space}
use yunpin_ime.Base.Result.{Result, ok, err, ◌>>=◌, ◌>>◌, fail_if, with_error}
use yunpin_ime.Relay.Envelope.{
  Identity, Primitives, RelayError, decode_sized, decode_sealed_box_wire,
}
use yunpin_ime.Relay.Pairing.{DeviceRegistration, PairingError, validate_registration}

pub record Account : Type 0 where
  pub id : Bytes
  pub recovery_hash : Bytes
  pub created_at : ℕ

pub record Device : Type 0 where
  pub id : Bytes
  pub account_id : Bytes
  pub token_hash : Bytes
  pub registration : DeviceRegistration
  pub created_at : ℕ
  pub revoked_at : Option ℕ

pub record Keyring : Type 0 where
  pub account_id : Bytes
  pub epoch : ℕ
  pub ciphertext : Bytes
  pub writer_device_id : Bytes
  pub created_at : ℕ

pub record AccountTables : Type 0 where
  pub accounts : List Account
  pub devices : List Device
  pub keyrings : List Keyring

pub data AccountError : Type 0 where
  account_not_found : AccountError
  invalid_registration : PairingError → AccountError
  invalid_recovery_authentication : AccountError
  random_source_unavailable : AccountError
  database_error : AccountError
  cannot_revoke_current_device : AccountError
  device_not_found : AccountError
  invalid_keyring : AccountError
  keyring_epoch_conflict : AccountError
  authentication_required : AccountError
  invalid_device_token : AccountError

-- What a request to create or recover an account carries, and what the server draws for it.
pub record Enrolment : Type 0 where
  pub registration : DeviceRegistration
  pub recovery_authentication : Bytes
  pub random_device : Option Bytes
  pub random_token : Option Bytes
  pub now : ℕ

abbrev pub some_or_none : {A : Type 0} → Option A → Bool
some_or_none none = false
some_or_none (some a) = true

abbrev pub valid_id : Bytes → Bool
valid_id value = length value == 32 && some_or_none (hex_decode value)

abbrev pub registered :
    Result PairingError DeviceRegistration → Result AccountError DeviceRegistration
registered (ok registration) = ok registration
registered (err e) = err (invalid_registration e)

abbrev pub keyring_box : Result RelayError Bytes → Result AccountError Bytes
keyring_box (ok box) = ok box
keyring_box (err e) = err invalid_keyring

-- SELECT recovery_authentication_hash FROM accounts WHERE id = ?
unfoldable pub recovery_hash_of : Bytes → List Account → Option Bytes
recovery_hash_of id [] = none
recovery_hash_of id (a ∷ rows) =
    let rest = recovery_hash_of id rows in if same a.id id then some a.recovery_hash else rest

-- The primary key or the unique token is taken.
unfoldable pub has_row : Bytes → Bytes → List Device → Bool
has_row id token_hash [] = false
has_row id token_hash (d ∷ ds) =
    same d.id id || same d.token_hash token_hash || has_row id token_hash ds

-- INSERT INTO devices
unfoldable pub add_device : Device → AccountTables → Result AccountError AccountTables
add_device d t =
    fail_if (has_row d.id d.token_hash t.devices) database_error
    >> ok (record t { devices = d ∷ t.devices })

abbrev pub is_active : Device → Bool
is_active d = not (some_or_none d.revoked_at)

abbrev pub revocable : Identity → Bytes → Device → Bool
revocable i id d = same d.id id && same d.account_id i.account_id && is_active d

-- UPDATE devices SET revoked_at = ? WHERE …, with the number of affected rows.
unfoldable pub revoke_rows : Identity → ℕ → Bytes → List Device → ℕ × List Device
revoke_rows i now id [] = (0, [])
revoke_rows i now id (d ∷ ds) =
    let (affected, rest) = revoke_rows i now id ds in
    if revocable i id d
    then (affected + 1, record d { revoked_at = some now } ∷ rest)
    else (affected, d ∷ rest)

unfoldable pub revoke_device :
    Identity → ℕ → Bytes → AccountTables → Result AccountError AccountTables
unfolding revoke_rows
revoke_device i now id t =
    fail_if (same id i.id) cannot_revoke_current_device
    >> (let (affected, rows) = revoke_rows i now id t.devices in
        if affected == 1 then ok (record t { devices = rows }) else err device_not_found)

-- SELECT … FROM devices WHERE token_hash = ? AND revoked_at IS NULL
unfoldable pub device_of_token : Bytes → List Device → Option Device
device_of_token token_hash [] = none
device_of_token token_hash (d ∷ ds) =
    let rest = device_of_token token_hash ds in
    if same d.token_hash token_hash && is_active d then some d else rest

-- SELECT ciphertext FROM keyrings WHERE account_id = ? AND epoch = ?
unfoldable pub keyring_of : Bytes → ℕ → List Keyring → Option Bytes
keyring_of account epoch [] = none
keyring_of account epoch (k ∷ ks) =
    let rest = keyring_of account epoch ks in
    if same k.account_id account && k.epoch == epoch then some k.ciphertext else rest

unfoldable pub has_space : Bytes → Bool
has_space [] = false
has_space (c ∷ cs) = c == 32 || has_space cs

-- INSERT OR IGNORE INTO keyrings, and the comparison with the row of that epoch.
abbrev pub store_keyring :
    Identity → ℕ → ℕ → Bytes → AccountTables → Option Bytes → Result AccountError AccountTables
store_keyring i now epoch box t none = ok (record t {
  keyrings =
      record {
        account_id = i.account_id;
        epoch = epoch;
        ciphertext = box;
        writer_device_id = i.id;
        created_at = now;
      }
      ∷ t.keyrings;
})
store_keyring i now epoch box t (some existing) =
    fail_if (not (same existing box)) keyring_epoch_conflict >> ok t

module _ (p : Primitives) where
  abbrev pub enrolled : Enrolment → DeviceRegistration → Bytes → Bytes → Bytes → Device
  enrolled e registration account device token = record {
    id = device;
    account_id = account;
    token_hash = p.sha256 token;
    registration = registration;
    created_at = e.now;
    revoked_at = none;
  }

  unfoldable pub create_account :
      Enrolment → Option Bytes → AccountTables → Result AccountError AccountTables
  create_account e random_account t =
      registered (validate_registration p e.registration) >>= λ registration.
      with_error invalid_recovery_authentication (decode_sized p e.recovery_authentication 32 32)
      >>= λ authentication. with_error random_source_unavailable random_account >>= λ account.
          with_error random_source_unavailable e.random_device >>= λ device.
          with_error random_source_unavailable e.random_token >>= λ token.
          fail_if (some_or_none (recovery_hash_of account t.accounts)) database_error
          >> add_device (enrolled e registration account device token) (record t {
            accounts =
                record { id = account; recovery_hash = p.sha256 authentication; created_at = e.now }
                ∷ t.accounts;
          })

  unfoldable pub recover_account :
      Bytes → Enrolment → AccountTables → Result AccountError AccountTables
  recover_account account e t =
      fail_if (not (valid_id account)) account_not_found
      >> registered (validate_registration p e.registration)
      >>= λ registration.
          with_error invalid_recovery_authentication
            (decode_sized p e.recovery_authentication 32 32)
          >>= λ authentication.
              with_error invalid_recovery_authentication (recovery_hash_of account t.accounts)
              >>= λ expected.
                  fail_if (not (same expected (p.sha256 authentication)))
                    invalid_recovery_authentication
                  >> with_error random_source_unavailable e.random_device
                  >>= λ device. with_error random_source_unavailable e.random_token >>= λ token.
                      add_device (enrolled e registration account device token) t

  unfoldable pub put_keyring :
      Identity → ℕ → ℕ → Bytes → AccountTables → Result AccountError AccountTables
  unfolding keyring_of
  put_keyring i now epoch wire t = keyring_box (decode_sealed_box_wire p wire) >>= λ box.
      fail_if (ltb epoch 1) invalid_keyring
      >> store_keyring i now epoch box t (keyring_of i.account_id epoch t.keyrings)

  -- The identity under which the request is handled.
  unfoldable pub require_auth : Bytes → AccountTables → Result AccountError Identity
  require_auth header t =
      fail_if (not (same (take 7 header) (ascii "Bearer ")) || has_space (drop 7 header))
        authentication_required
      >> (let token = trim_space (drop 7 header) in
          fail_if (is_empty token) authentication_required
          >> with_error invalid_device_token (device_of_token (p.sha256 token) t.devices)
          >>= λ d. ok (record {
            id = d.id;
            account_id = d.account_id;
            ed25519_key = d.registration.ed25519_key;
          }))

-- A request that changes the tables; `paired` is the row that the claim of a pairing adds.
pub data Step (p : Primitives) (t u : AccountTables) : Type 0 where
  created :
      (e : Enrolment) (account : Option Bytes) → create_account p e account t ≡ ok u → Step p t u
  recovered : (account : Bytes) (e : Enrolment) → recover_account p account e t ≡ ok u → Step p t u
  paired : (d : Device) → add_device d t ≡ ok u → Step p t u
  revoked : (i : Identity) (now : ℕ) (id : Bytes) → revoke_device i now id t ≡ ok u → Step p t u
  stored :
      (i : Identity) (now epoch : ℕ) (wire : Bytes)
      → put_keyring p i now epoch wire t ≡ ok u
      → Step p t u
