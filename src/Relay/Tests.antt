-- ===== src/Relay/Tests.antt =====
-- Runs of the relay with one device that has one envelope stored and uploads the next.
use yunpin_ime.Base.{
  ◌≡◌, ◌≤◌, ◌<◌, refl, ap, ℕ, zero, suc, ◌-◌, min, true, false, Option, none, some, List, [], ◌∷◌,
  ◌++◌, map, arith,
}
use mathlib.Core.List.{reverse}
use yunpin_ime.Base.Lists.{length}
use yunpin_ime.Base.Int.{pos, compare_int}
use yunpin_ime.Base.Bytes.{Bytes, ascii, same, is_empty}
use yunpin_ime.Base.Map.{lookup}
use yunpin_ime.Base.Text.{hex_decode}
use yunpin_ime.Base.Result.{ok}
use yunpin_ime.Relay.Envelope.{
  Identity, Envelope, DecodedEnvelope, Primitives, validate_envelope, decode_sized,
  canonical_header, decode_object_id, decode_previous, decode_ciphertext,
}
use yunpin_ime.Relay.Limiter.{IpLimiter}
use yunpin_ime.Relay.Limiter.Window.{passed, requests_of, passed_in_window}
use yunpin_ime.Relay.Sync.{
  Stored, Table, Relay, Request, Response, Verdict, accepted, rejected, sequence_conflict, offer,
  offer_all, runs, unique_by_seq, sort_by_seq, insert_by_seq, existing_hash, last_record, of_device,
  account_max_cursor, raise_ack, later_rows, page, last_cursor, current_epoch, page_limit,
  decode_batch, transact, sync_envelopes, outgoing,
}
use yunpin_ime.Relay.Sync.Log.{IsTable, sync_envelopes-IsTable, offered, offer_again}
use yunpin_ime.Relay.Sync.Delivery.{downloaded}
use yunpin_ime.Client.Answer.Order.{IsPage}
use yunpin_ime.Client.Answer.Served.{sync_envelopes-IsPage}
use yunpin_ime.Relay.Sync.Page.{IsLimit, sync_envelopes-page}

abbrev zeros : ℕ → Bytes
zeros zero = []
zeros (suc n) = 0 ∷ zeros n

-- One number stands for as many zero bytes.
abbrev decode : Bytes → Option Bytes
decode [] = none
decode (n ∷ bytes) = some (zeros n)

abbrev primitives : Primitives
primitives = record {
  decode_base64 = decode;
  encode_base64 = λ b. length b ∷ [];
  marshal_header = λ h. some [];
  verify = λ key message signature. true;
  sha256 = λ b. zeros 32;
}

abbrev identity : Identity
identity = record {
  id = ascii "00000000000000000000000000000001";
  account_id = ascii "000000000000000000000000000000aa";
  ed25519_key = zeros 32;
}

abbrev next_envelope : Envelope
next_envelope = record {
  version = 1;
  device_id = [];
  device_seq = 2;
  object_id = ascii "00000000000000000000000000000000";
  key_epoch = 1;
  previous_hash = 32 ∷ [];
  nonce = 24 ∷ [];
  ciphertext = 528 ∷ [];
  signature = 64 ∷ [];
  cursor = pos 0;
}

abbrev decoded : DecodedEnvelope
decoded = record {
  envelope = next_envelope;
  object_id = zeros 16;
  previous_hash = zeros 32;
  nonce = zeros 24;
  ciphertext = zeros 528;
  signature = zeros 64;
  record_hash = zeros 32;
}

abbrev one : Stored
one = record {
  cursor = 3;
  account_id = identity.account_id;
  device_id = identity.id;
  device_seq = 1;
  version = 1;
  object_id = zeros 16;
  key_epoch = 1;
  previous_hash = none;
  nonce = zeros 24;
  ciphertext = zeros 528;
  signature = zeros 64;
  record_hash = zeros 32;
}

abbrev two : Stored
two = record one { cursor = 4; device_seq = 2; previous_hash = some (zeros 32) }

abbrev before : Relay
before = record {
  table = record { next = 4; rows = one ∷ [] };
  devices = record { id = identity.id; account_id = identity.account_id; ack_cursor = pos 0 } ∷ [];
  keyrings = record { account_id = identity.account_id; epoch = 1 } ∷ [];
}

abbrev after : Relay
after = record {
  table = record { next = 5; rows = two ∷ one ∷ [] };
  devices = record { id = identity.id; account_id = identity.account_id; ack_cursor = pos 2 } ∷ [];
  keyrings = before.keyrings;
}

abbrev request : Request
request = record {
  cursor = pos 2;
  ack_cursor = pos 2;
  limit = pos 1;
  envelopes = next_envelope ∷ [];
}

abbrev answer : Response
answer = record {
  verdicts = accepted 2 ∷ [];
  envelopes = outgoing primitives one ∷ [];
  next_cursor = pos 3;
  has_more = true;
  current_key_epoch = 1;
}

answered : sync_envelopes primitives identity request before ≡ ok (answer, after)
unfolding sync_envelopes decode_batch validate_envelope decode_sized canonical_header
    decode_object_id decode_previous decode_ciphertext transact unique_by_seq runs sort_by_seq
    insert_by_seq offer_all offer existing_hash last_record of_device account_max_cursor raise_ack
    later_rows page last_cursor current_epoch page_limit same is_empty compare_int hex_decode
answered = refl

one-IsTable : IsTable before.table
unfolding last_record
one-IsTable = record { log = (refl, refl, tt, tt); fresh = (omega arith, tt) }

sync_envelopes-IsTable_example : IsTable after.table
sync_envelopes-IsTable_example =
    sync_envelopes-IsTable primitives identity request before after answer one-IsTable answered

abbrev forged : DecodedEnvelope
forged = record decoded { record_hash = zeros 31 }

first_offer : offer identity decoded before.table ≡ (accepted 2, after.table)
unfolding offer existing_hash last_record of_device same is_empty
first_offer = refl

abbrev stranger : Identity
stranger = record identity { id = ascii "stranger" }

abbrev between : List (Identity × DecodedEnvelope)
between = (stranger, decoded) ∷ (identity, forged) ∷ []

offer_again_example :
    (offer identity decoded (offered between (offer identity decoded before.table).1)
      ≡ (accepted 2, offered between (offer identity decoded before.table).1))
    × (offer identity forged (offered between (offer identity decoded before.table).1)
        ≡ (rejected 2 sequence_conflict, offered between (offer identity decoded before.table).1))
offer_again_example =
    offer_again identity decoded forged between before.table
      (ap (λ (x : Verdict × Table). x.0) first_offer) refl (λ e. ground (arith, ap length e))

sync_envelopes-page_example :
    (limit : ℕ) × (out : List Stored) × (rest : List Stored) × IsLimit request.limit limit
    × (length out ≤ limit)
    × (reverse (later_rows identity.account_id (pos 2) (two ∷ one ∷ [])) ≡ out ++ rest)
    × (answer.envelopes ≡ map (outgoing primitives) out)
    × (pos 3 ≡ last_cursor (pos 2) out)
    × (true ≡ false → rest ≡ [])
    × (true ≡ true → 0 < length out)
sync_envelopes-page_example =
    sync_envelopes-page primitives identity request before after answer answered

sync_envelopes-IsPage_example : IsPage (pos 2) (map downloaded answer.envelopes) (pos 3)
sync_envelopes-IsPage_example =
    sync_envelopes-IsPage primitives identity request before after answer one-IsTable answered

abbrev limiter : IpLimiter
limiter = record {
  entries = (ascii "a", record { start = 100; count = 1 }) ∷ [];
  limit = 3;
  window = 60;
  last_sweep = some 100;
}

abbrev requests : List (Bytes × ℕ)
requests = (ascii "a", 110) ∷ (ascii "b", 111) ∷ (ascii "a", 120) ∷ (ascii "a", 159) ∷ []

passed_in_window_example :
    passed (ascii "a") requests limiter ≡ min (requests_of (ascii "a") requests) (3 - 1)
unfolding lookup same
passed_in_window_example = passed_in_window (ascii "a") 100 1 requests limiter refl (
  (omega arith, omega arith),
  ((omega arith, omega arith), ((omega arith, omega arith), ((omega arith, omega arith), tt))),
)
