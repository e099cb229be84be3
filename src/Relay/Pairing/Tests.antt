-- ===== src/Relay/Pairing/Tests.antt =====
-- A pairing that is approved, claimed, and claimed again.
use yunpin_ime.Base.{◌≡◌, ◌<◌, refl, inr, true, none, some, [], ◌∷◌}
use yunpin_ime.Base.Bytes.{ascii, same}
use yunpin_ime.Base.Result.{ok, err}
use yunpin_ime.Relay.Envelope.{Primitives, Identity}
use yunpin_ime.Relay.Pairing.{
  DeviceRegistration, Pairing, PairingTables, invalid_or_expired_pairing, approved, claimed, update,
  approved_row, has_device, claim_pairing, claimed_device,
}
use yunpin_ime.Relay.Pairing.Stages.{Advances, claim_pairing_once, pairing-Advances}

abbrev primitives : Primitives
primitives = record {
  decode_base64 = λ s. some s;
  encode_base64 = λ s. s;
  marshal_header = λ h. some [];
  verify = λ key message signature. true;
  sha256 = λ s. 1 ∷ s;
}

abbrev creator : Identity
creator = record { id = ascii "c"; account_id = ascii "a"; ed25519_key = [] }

abbrev laptop : DeviceRegistration
laptop = record { name_ciphertext = ascii "n"; ed25519_key = ascii "e"; x25519_key = ascii "x" }

abbrev pairing : Pairing
pairing = record {
  id = ascii "p";
  account_id = ascii "a";
  creator_device_id = ascii "c";
  secret_hash = 1 ∷ ascii "s";
  stage = approved;
  pending = laptop;
  new_device_id = ascii "d";
  encrypted_keyring = ascii "k";
  expires_at = 600;
}

abbrev before : PairingTables
before = record { pairings = pairing ∷ []; devices = [] }

abbrev after : PairingTables
after = record {
  pairings = record pairing { stage = claimed } ∷ [];
  devices = claimed_device primitives pairing (ascii "t") ∷ [];
}

claiming : claim_pairing primitives 500 (ascii "p") (ascii "s") (some (ascii "t")) before ≡ ok after
unfolding claim_pairing approved_row has_device update same
claiming = refl

claim_pairing_once_example :
    ((r : Pairing) × (approved_row (ascii "p") before.pairings ≡ some r)
      × (500 < r.expires_at)
      × (r.secret_hash ≡ 1 ∷ ascii "s")
      × (after.devices ≡ claimed_device primitives r (ascii "t") ∷ before.devices))
    × (claim_pairing primitives 510 (ascii "p") (ascii "s") none after
        ≡ err invalid_or_expired_pairing)
claim_pairing_once_example =
    claim_pairing_once primitives 500 510 (ascii "p") (ascii "s") (ascii "s") (ascii "t") none
      before after claiming

pairing-Advances_example : Advances before.pairings after.pairings
pairing-Advances_example =
    pairing-Advances primitives creator 500 (ascii "p") (ascii "s") [] laptop (some (ascii "t"))
      before after (inr (inr claiming))
