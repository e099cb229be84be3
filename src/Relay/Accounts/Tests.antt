-- ===== src/Relay/Accounts/Tests.antt =====
-- An account of two devices: created, recovered, one revoked, and a key ring stored.
use yunpin_ime.Base.{◌≡◌, refl, ℕ, zero, suc, true, false, some, [], ◌∷◌, ◌++◌}
use yunpin_ime.Base.Tests.{if◌then◌else◌}
use yunpin_ime.Base.Bytes.{Bytes, ascii, same, is_empty}
use yunpin_ime.Base.Text.{hex_decode, trim_space}
use yunpin_ime.Base.Result.{ok, err}
use yunpin_ime.Relay.Envelope.{Primitives, Identity, decode_sized, decode_sealed_box_wire}
use yunpin_ime.Relay.Pairing.{DeviceRegistration, validate_registration}
use yunpin_ime.Relay.Accounts.{
  AccountTables, Enrolment, create_account, recover_account, revoke_device, put_keyring,
  require_auth, enrolled, add_device, invalid_recovery_authentication, keyring_epoch_conflict,
  created, recovered, recovery_hash_of, has_row, revoke_rows, device_of_token, keyring_of, valid_id,
  has_space,
}
use yunpin_ime.Relay.Accounts.Change.{Later, now, after, no_tables}
use yunpin_ime.Relay.Accounts.Revoked.{revoked_stays_out}
use yunpin_ime.Relay.Accounts.Keyrings.{accepted_keyring_stays}
use yunpin_ime.Relay.Accounts.Recovery.{
  recover_account-create_account, require_auth-recover_account,
}

abbrev primitives : Primitives
primitives = record {
  decode_base64 = λ s. some s;
  encode_base64 = λ s. s;
  marshal_header = λ h. some [];
  verify = λ key message signature. true;
  sha256 = λ s. 1 ∷ s;
}

abbrev copies : ℕ → ℕ → Bytes
copies x zero = []
copies x (suc n) = x ∷ copies x n

abbrev account : Bytes
account = copies 97 32

abbrev secret : Bytes
secret = copies 7 32

abbrev registration : DeviceRegistration
registration = record {
  name_ciphertext = copies 2 16;
  ed25519_key = copies 3 32;
  x25519_key = copies 4 32;
}

abbrev first : Enrolment
first = record {
  registration = registration;
  recovery_authentication = secret;
  random_device = some (ascii "d1");
  random_token = some (ascii "t1");
  now = 5;
}

abbrev second : Enrolment
second = record first {
  random_device = some (ascii "d2");
  random_token = some (ascii "t2");
  now = 6;
}

abbrev one : AccountTables
one = record {
  accounts = record { id = account; recovery_hash = 1 ∷ secret; created_at = 5 } ∷ [];
  devices = enrolled primitives first registration account (ascii "d1") (ascii "t1") ∷ [];
  keyrings = [];
}

abbrev two : AccountTables
two = record one {
  devices = enrolled primitives second registration account (ascii "d2") (ascii "t2") ∷ one.devices;
}

abbrev caller : Identity
caller = record { id = ascii "d1"; account_id = account; ed25519_key = copies 3 32 }

abbrev without : AccountTables
without = record one {
  devices =
      record (enrolled primitives second registration account (ascii "d2") (ascii "t2")) {
        revoked_at = some 9;
      }
      ∷ one.devices;
}

creating : create_account primitives first (some account) no_tables ≡ ok one
unfolding create_account validate_registration recovery_hash_of has_row add_device same decode_sized
creating = refl

recovering : recover_account primitives account second one ≡ ok two
unfolding recover_account validate_registration recovery_hash_of has_row add_device same hex_decode
    decode_sized
recovering = refl

made : Later primitives no_tables two
made =
    after one two (after no_tables one now (created first (some account) creating))
      (recovered account second recovering)

revoking : revoke_device caller 9 (ascii "d2") two ≡ ok without
unfolding revoke_device revoke_rows same
revoking = refl

authenticating : require_auth primitives (ascii "Bearer t1") without ≡ ok caller
unfolding require_auth device_of_token same has_space trim_space is_empty
authenticating = refl

revoked_stays_out_example : same (ascii "d1") (ascii "d2") ≡ false
revoked_stays_out_example =
    revoked_stays_out primitives caller 9 (ascii "d2") (ascii "Bearer t1") two without without made
      revoking now authenticating

abbrev wire : Bytes
wire = ascii "YPBX" ++ (1 ∷ 0 ∷ 0 ∷ 0 ∷ 16 ∷ copies 8 40)

abbrev other_wire : Bytes
other_wire = ascii "YPBX" ++ (1 ∷ 0 ∷ 0 ∷ 0 ∷ 16 ∷ copies 9 40)

abbrev with_keyring : AccountTables
with_keyring = record two {
  keyrings =
      record {
        account_id = account;
        epoch = 1;
        ciphertext = wire;
        writer_device_id = ascii "d1";
        created_at = 7;
      }
      ∷ [];
}

storing : put_keyring primitives caller 7 1 wire two ≡ ok with_keyring
unfolding put_keyring decode_sealed_box_wire keyring_of same
storing = refl

decoding : decode_sealed_box_wire primitives other_wire ≡ ok other_wire
unfolding decode_sealed_box_wire same
decoding = refl

accepted_keyring_stays_example :
    (box : Bytes) × (decode_sealed_box_wire primitives wire ≡ ok box)
    × (keyring_of account 1 with_keyring.keyrings ≡ some box)
    × (put_keyring primitives caller 8 1 other_wire with_keyring
        ≡ (if same box other_wire then ok with_keyring else err keyring_epoch_conflict))
accepted_keyring_stays_example =
    accepted_keyring_stays primitives caller caller 7 8 1 wire other_wire other_wire two
      with_keyring with_keyring storing now refl decoding

registering : validate_registration primitives registration ≡ ok registration
unfolding validate_registration decode_sized
registering = refl

secret_decoded : decode_sized primitives secret 32 32 ≡ some secret
unfolding decode_sized
secret_decoded = refl

account_valid : valid_id account ≡ true
unfolding hex_decode
account_valid = refl

recover_account-create_account_example : recover_account primitives account second one ≡ (
    if same (1 ∷ secret) (1 ∷ secret)
    then add_device (enrolled primitives second registration account (ascii "d2") (ascii "t2")) one
    else err invalid_recovery_authentication)
recover_account-create_account_example =
    recover_account-create_account primitives first second account secret secret (ascii "d2")
      (ascii "t2") registration no_tables one one creating now secret_decoded account_valid
      registering secret_decoded refl refl

require_auth-recover_account_example :
    require_auth primitives (ascii "Bearer " ++ ascii "t2") two
    ≡ ok (record { id = ascii "d2"; account_id = account; ed25519_key = copies 3 32 })
unfolding is_empty has_space trim_space
require_auth-recover_account_example =
    require_auth-recover_account primitives second account (ascii "d2") (ascii "t2") registration
      one two recovering registering refl refl refl refl refl
