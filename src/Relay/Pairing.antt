-- ===== src/Relay/Pairing.antt =====
-- sync/internal/server/server.go: the four requests of a pairing. The tables are lists; random values
-- come as arguments, `none` where the source of randomness fails. An error leaves the tables as they
-- are.
pub mod Stages
pub mod Tests
use yunpin_ime.Base.{ℕ, ◌+◌, Bool, true, false, not, ◌&&◌, ◌||◌, Option, none, some, List, [], ◌∷◌}
use yunpin_ime.Base.Tests.{ltb, leb, ◌==◌, if◌then◌else◌}
use yunpin_ime.Base.Bytes.{Bytes, same}
use yunpin_ime.Base.Result.{Result, ok, err, ◌>>=◌, ◌>>◌, fail_if, with_error}
use yunpin_ime.Relay.Envelope.{
  Identity, Primitives, RelayError, decode_sized, decode_sealed_box_wire,
}

pub record DeviceRegistration : Type 0 where
  pub name_ciphertext : Bytes
  pub ed25519_key : Bytes
  pub x25519_key : Bytes

pub data Stage : Type 0 where
  created : Stage
  joined : Stage
  approved : Stage
  claimed : Stage

-- A row of `pairings`; the pending columns are empty before the stage that fills them.
pub record Pairing : Type 0 where
  pub id : Bytes
  pub account_id : Bytes
  pub creator_device_id : Bytes
  pub secret_hash : Bytes
  pub stage : Stage
  pub pending : DeviceRegistration
  pub new_device_id : Bytes
  pub encrypted_keyring : Bytes
  pub expires_at : ℕ

-- The columns of `devices` that a claim fills.
pub record PairedDevice : Type 0 where
  pub id : Bytes
  pub account_id : Bytes
  pub token_hash : Bytes
  pub registration : DeviceRegistration

pub record PairingTables : Type 0 where
  pub pairings : List Pairing
  pub devices : List PairedDevice

pub data PairingError : Type 0 where
  invalid_device_name : PairingError
  invalid_ed25519_key : PairingError
  invalid_x25519_key : PairingError
  random_source_unavailable : PairingError
  duplicate_pairing : PairingError
  invalid_or_expired_pairing : PairingError
  invalid_encrypted_keyring : PairingError
  pairing_not_ready : PairingError
  pairing_already_claimed : PairingError

-- 10 minutes in milliseconds.
abbrev pub pairing_lifetime : ℕ
pairing_lifetime = 600000

abbrev pub is_created : Stage → Bool
is_created created = true
is_created _ = false

abbrev pub is_joined : Stage → Bool
is_joined joined = true
is_joined _ = false

abbrev pub is_approved : Stage → Bool
is_approved approved = true
is_approved _ = false

-- UPDATE pairings SET … WHERE …: the rows after it, and the number of affected rows.
unfoldable pub update : (Pairing → Bool) → (Pairing → Pairing) → List Pairing → ℕ × List Pairing
update where_row set [] = (0, [])
update where_row set (r ∷ rows) =
    let (affected, rest) = update where_row set rows in
    if where_row r then (affected + 1, set r ∷ rest) else (affected, r ∷ rest)

unfoldable pub has_pairing : Bytes → List Pairing → Bool
has_pairing id [] = false
has_pairing id (r ∷ rows) = same r.id id || has_pairing id rows

-- The primary key or the unique token of a device is taken.
unfoldable pub has_device : Bytes → Bytes → List PairedDevice → Bool
has_device id token_hash [] = false
has_device id token_hash (d ∷ ds) =
    same d.id id || same d.token_hash token_hash || has_device id token_hash ds

-- SELECT … FROM pairings WHERE id = ? AND state = 'approved'
unfoldable pub approved_row : Bytes → List Pairing → Option Pairing
approved_row id [] = none
approved_row id (r ∷ rows) =
    if same r.id id && is_approved r.stage then some r else approved_row id rows

-- The update as the answer of a request: exactly one row is affected, or `failure`.
abbrev pub one_affected :
    PairingError → ℕ × List Pairing → PairingTables → Result PairingError PairingTables
one_affected failure (affected, rows) t =
    if affected == 1 then ok (record t { pairings = rows }) else err failure

abbrev pub empty_registration : DeviceRegistration
empty_registration = record { name_ciphertext = []; ed25519_key = []; x25519_key = [] }

abbrev pub keyring_or_invalid : Result RelayError Bytes → Result PairingError Bytes
keyring_or_invalid (ok keyring) = ok keyring
keyring_or_invalid (err e) = err invalid_encrypted_keyring

abbrev pub join_row : DeviceRegistration → Pairing → Pairing
join_row registration r = record r { stage = joined; pending = registration }

abbrev pub approvable : Identity → ℕ → Bytes → Pairing → Bool
approvable i now id r =
    same r.id id
    && same r.account_id i.account_id
    && same r.creator_device_id i.id
    && is_joined r.stage
    && ltb now r.expires_at

abbrev pub approve_row : Bytes → Bytes → Pairing → Pairing
approve_row device keyring r = record r {
  stage = approved;
  new_device_id = device;
  encrypted_keyring = keyring;
}

abbrev pub claimable : Bytes → Pairing → Bool
claimable id r = same r.id id && is_approved r.stage

abbrev pub claim_row : Pairing → Pairing
claim_row r = record r { stage = claimed }

module _ (p : Primitives) where
  unfoldable pub validate_registration : DeviceRegistration → Result PairingError DeviceRegistration
  validate_registration input =
      with_error invalid_device_name (decode_sized p input.name_ciphertext 16 512) >>= λ name.
      with_error invalid_ed25519_key (decode_sized p input.ed25519_key 32 32) >>= λ ed.
      with_error invalid_x25519_key (decode_sized p input.x25519_key 32 32) >>= λ x.
      ok (record { name_ciphertext = name; ed25519_key = ed; x25519_key = x })

  unfoldable pub create_pairing :
      Identity → ℕ → Option Bytes → Option Bytes → PairingTables → Result PairingError PairingTables
  create_pairing i now random_id random_secret t =
      with_error random_source_unavailable random_id >>= λ id.
      with_error random_source_unavailable random_secret >>= λ secret.
      fail_if (has_pairing id t.pairings) duplicate_pairing
      >> ok (record t {
        pairings =
            record {
              id = id;
              account_id = i.account_id;
              creator_device_id = i.id;
              secret_hash = p.sha256 secret;
              stage = created;
              pending = empty_registration;
              new_device_id = [];
              encrypted_keyring = [];
              expires_at = now + pairing_lifetime;
            }
            ∷ t.pairings;
      })

  abbrev pub joinable : ℕ → Bytes → Bytes → Pairing → Bool
  joinable now id secret r =
      same r.id id
      && same r.secret_hash (p.sha256 secret)
      && is_created r.stage
      && ltb now r.expires_at

  unfoldable pub join_pairing :
      ℕ → Bytes → Bytes → DeviceRegistration → PairingTables → Result PairingError PairingTables
  join_pairing now id secret input t = validate_registration input >>= λ registration.
      one_affected invalid_or_expired_pairing
        (update (joinable now id secret) (join_row registration) t.pairings) t

  unfoldable pub approve_pairing :
      Identity
      → ℕ
      → Bytes
      → Bytes
      → Option Bytes
      → PairingTables
      → Result PairingError PairingTables
  approve_pairing i now id wire random_id t =
      keyring_or_invalid (decode_sealed_box_wire p wire) >>= λ keyring.
      with_error random_source_unavailable random_id >>= λ device.
      one_affected pairing_not_ready
        (update (approvable i now id) (approve_row device keyring) t.pairings) t

  -- The device of an approved pairing, under a new token.
  abbrev pub claimed_device : Pairing → Bytes → PairedDevice
  claimed_device r token = record {
    id = r.new_device_id;
    account_id = r.account_id;
    token_hash = p.sha256 token;
    registration = r.pending;
  }

  abbrev pub claim_of :
      ℕ → Bytes → Bytes → Option Bytes → PairingTables → Pairing → Result PairingError PairingTables
  claim_of now id secret random_token t r =
      fail_if (leb r.expires_at now || not (same r.secret_hash (p.sha256 secret)))
        invalid_or_expired_pairing
      >> with_error random_source_unavailable random_token
      >>= λ token.
          fail_if (has_device r.new_device_id (p.sha256 token) t.devices) pairing_already_claimed
          >> ok (record {
            pairings = (update (claimable id) claim_row t.pairings).1;
            devices = claimed_device r token ∷ t.devices;
          })

  unfoldable pub claim_pairing :
      ℕ → Bytes → Bytes → Option Bytes → PairingTables → Result PairingError PairingTables
  claim_pairing now id secret random_token t =
      with_error invalid_or_expired_pairing (approved_row id t.pairings) >>= λ r.
      claim_of now id secret random_token t r
