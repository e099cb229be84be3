-- ===== src/Client/Tests.antt =====
-- Runs of the sync worker under libraries that keep every byte, with one device that has nothing to
-- upload and one envelope to read.
use yunpin_ime.Base.{◌≡◌, ◌+◌, refl, arith, ℕ, true, false, none, some, [], ◌∷◌}
use yunpin_ime.Base.Lists.{length}
use yunpin_ime.Base.Int.{pos, compare_int}
use yunpin_ime.Base.Bytes.{Bytes, ascii, is_empty, same}
use yunpin_ime.Base.Map.{lookup}
use yunpin_ime.Base.Text.{hex_encode, hex_decode, to_lower}
use yunpin_ime.Base.Result.{ok}
use yunpin_ime.Protocol.Envelope.{validate_header, validate_envelope_body, open_envelope}
use yunpin_ime.Protocol.Wire.{
  WireEnvelope, wire_of, envelope_from_download, decode_hex_wire_id, envelope_from_wire,
  check_device, decode_wire_previous,
}
use yunpin_ime.Protocol.Tests.{crypto, base64, header, envelope, zeros}
use yunpin_ime.LocalStore.Phrase.{Phrase, PhrasePayload}
use yunpin_ime.LocalStore.Store.{Vault}
use yunpin_ime.LocalStore.SyncState.{Opened}
use yunpin_ime.LocalStore.SyncState.Chain.{IsChained}
use yunpin_ime.Client.Session.{Session, SyncResponse, Library, World, Disk, tables}
use yunpin_ime.Client.Answer.{decode_downloads}
use yunpin_ime.Client.Answer.Order.{IsPage, decode_downloads-IsPage}
use yunpin_ime.Client.Worker.{sync_once, sync_until_idle}
use yunpin_ime.Client.Worker.Chain.{sync_once-IsChained}
use yunpin_ime.Client.Worker.Idle.{Ended, sync_until_idle-Ended}

abbrev device : Bytes
device = hex_encode header.device_id

abbrev payload : PhrasePayload
payload = record {
  text = ascii "hao";
  pinyin = ascii "hao";
  source = ascii "manual";
  last_used_day = pos 3;
  state = record {
    object_id = device;
    counts = some [];
    pinned = record {
      value = false;
      clock = record { wall_millis = pos 5; counter = 1; node = device };
    };
    presence = record {
      present = true;
      clock = record { wall_millis = pos 5; counter = 1; node = device };
      generation = 1;
    };
  };
}

-- Every text is read as the one payload.
abbrev library : Library
library = record {
  crypto = crypto;
  base64 = base64;
  payloads = record { marshal = λ p. some []; unmarshal = λ b. some payload };
  wires = record { marshal = λ w. some (1 ∷ []); unmarshal = λ b. some (wire_of base64 envelope) };
  public_of = λ private. zeros 32;
}

abbrev session : Session
session = record {
  account_id = zeros 16;
  device_id = header.device_id;
  device_token = ascii "token";
  key_epoch = 1;
  epoch_keys = λ epoch. zeros 32;
  signing_private = zeros 64;
  verification_keys = (device, zeros 32) ∷ [];
}

abbrev download : WireEnvelope
download = record (wire_of base64 envelope) { device_id = device; cursor = 7 }

abbrev response : SyncResponse
response = record {
  accepted_sequences = [];
  rejected_sequences = [];
  envelopes = download ∷ [];
  next_cursor = pos 7;
  has_more = false;
  current_key_epoch = 1;
}

decode_run : decode_downloads library session response (pos 4) ≡ ok (payload ∷ [])
unfolding decode_downloads lookup compare_int envelope_from_download is_empty hex_encode
    decode_hex_wire_id same to_lower hex_decode envelope_from_wire check_device decode_wire_previous
    validate_header validate_envelope_body open_envelope
decode_run = refl

decode_downloads-IsPage_example :
    IsPage (pos 4) (download ∷ []) (pos 7) × (length (payload ∷ []) ≡ length (download ∷ []))
decode_downloads-IsPage_example =
    decode_downloads-IsPage library session response (pos 4) decode_run

-- A store whose rows are the records themselves, of one object.
abbrev vault : Vault Phrase
vault = record {
  Json = Phrase;
  device_id = device;
  object_id = λ text pinyin. some (zeros 16);
  marshal = λ p. some p;
  unmarshal = λ p. some p;
  record_key = λ id. some id;
  aead_seal = λ key id p. some p;
  aead_open = λ key id p. some p;
}

abbrev opened : Opened
opened = record { sync_enabled = true; device_id = device }

-- The world is the number of requests that were answered, each by the same page.
abbrev world : World ℕ
world = record {
  exchange = λ token request n. (some response, n + 1);
  now = λ n. (pos 9, n);
  random = λ n. (zeros 600, n);
}

abbrev fresh : Disk Phrase
fresh = record {
  db = record {
    phrases = [];
    outbox = [];
    last_event = 0;
    generation = 0;
    hlc = record { wall_millis = pos 0; counter = 0 };
  };
  cursor = pos 4;
  next_sequence = 1;
  previous_hash = [];
  prepared = none;
}

fresh-IsChained : IsChained (tables fresh)
fresh-IsChained = record { started = omega arith; staged = tt }

sync_once-IsChained_example :
    IsChained (tables (sync_once vault opened library world session (fresh, 0)).1.0)
sync_once-IsChained_example =
    sync_once-IsChained vault opened library world session fresh 0 fresh-IsChained

sync_until_idle-Ended_example :
    Ended 3 (sync_until_idle vault opened library world session 3 (fresh, 0))
sync_until_idle-Ended_example =
    sync_until_idle-Ended vault opened library world session 3 (fresh, 0) fresh-IsChained
