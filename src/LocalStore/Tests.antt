-- ===== src/LocalStore/Tests.antt =====
-- Runs of localstore at concrete records, tables and checkpoints.
use yunpin_ime.Base.{
  ◌≡◌, refl, sym, ℕ, ◌^◌, ◌-◌, ◌≤◌, Bool, true, false, none, some, [], ◌∷◌, arith, inl, inr,
}
use yunpin_ime.Base.Int.{pos, compare_int}
use yunpin_ime.Base.Bytes.{Bytes, ascii, same, is_empty}
use yunpin_ime.Base.Map.{has}
use yunpin_ime.Base.Text.{hex_encode, trim_space, to_lower, hex_decode}
use yunpin_ime.Base.Result.{ok}
use yunpin_ime.Base.Ensures.{Ensures}
use Prim.Native.Nat.Ordering.{lt}
use yunpin_ime.Protocol.Clock.{Hlc, compare_hlc}
use yunpin_ime.Protocol.Crdt.{entries}
use yunpin_ime.LocalStore.Phrase.{Phrase, total_counts, valid_sync_device_id}
use yunpin_ime.LocalStore.Phrase.Ready.{AreCounts}
use yunpin_ime.LocalStore.HlcState.{HlcState, max_uint32, stamp, next_hlc, observe_hlc}
use yunpin_ime.LocalStore.HlcState.Monotone.{next_hlc_increases, next_hlc_after_observe}
use yunpin_ime.LocalStore.Store.{Vault, phrase_object_id}
use yunpin_ime.LocalStore.Store.{enqueue_row}
use yunpin_ime.LocalStore.Store.Outbox.{drop_event}
use yunpin_ime.LocalStore.Store.Outbox.InFlight.{waiting, waiting-drop_event-enqueue_row}
use yunpin_ime.LocalStore.Store.Text.{IsVault}
use yunpin_ime.LocalStore.Phrase.Utf8.{keys_utf8}
use yunpin_ime.LocalStore.Store.Sound.{IsRecord}
use yunpin_ime.LocalStore.Store.Save.{empty_state}
use yunpin_ime.LocalStore.Store.Learn.{LearningContext}
use yunpin_ime.LocalStore.SyncState.{
  PreparedUpload, SyncTables, Opened, require_sync, save_prepared_upload, commit_prepared_upload,
  upload_is_bad, count_event, prepare_fresh,
}
use yunpin_ime.LocalStore.SyncState.Chain.{IsSendable, IsChained, commit_prepared_upload-IsChained}

abbrev device : Bytes
device = ascii "000102030405060708090a0b0c0d0e0f"

abbrev sixteen : Bytes
sixteen = 0 ∷ 1 ∷ 2 ∷ 3 ∷ 4 ∷ 5 ∷ 6 ∷ 7 ∷ 8 ∷ 9 ∷ 10 ∷ 11 ∷ 12 ∷ 13 ∷ 14 ∷ 15 ∷ []

-- A store whose rows are the records themselves, of one object.
abbrev vault : Vault Phrase
vault = record {
  Json = Phrase;
  device_id = device;
  object_id = λ text pinyin. some sixteen;
  marshal = λ p. some p;
  unmarshal = λ p. some p;
  record_key = λ id. some id;
  aead_seal = λ key id p. some p;
  aead_open = λ key id p. some p;
}

abbrev laws : IsVault vault
laws = record {
  valid_string = λ s. true;
  ascii_valid = λ s h. refl;
  hex_valid = λ id. refl;
  trim_valid = λ s h. refl;
  device_valid = refl;
  unmarshal-marshal = λ p plain u h. sym h;
  aead_open-seal = λ key id plain row h. sym h;
}

abbrev late : Hlc
late = record { wall_millis = pos 500; counter = 7; node = ascii "b" }

abbrev phrase : Phrase
phrase = record {
  text = ascii "hao";
  pinyin = ascii "hao";
  source = ascii "manual";
  use_count = 3;
  pinned = true;
  deleted = false;
  last_used_day = pos 10;
  crdt = empty_state;
}

-- The phrase with a complete state: three uses here, four elsewhere.
abbrev complete : Phrase
complete = record phrase {
  use_count = 7;
  crdt = record {
    object_id = hex_encode sixteen;
    counts = some ((device, 3) ∷ (ascii "b", 4) ∷ []);
    pinned = record { value = true; clock = late };
    presence = record { present = true; clock = late; generation = 1 };
  };
}

complete-AreCounts : AreCounts (entries complete.crdt.counts)
unfolding has same
complete-AreCounts = record { keyed = (refl, (refl, tt)); sized = (omega arith, (omega arith, tt)) }

complete-IsRecord : IsRecord vault laws sixteen complete
unfolding phrase_object_id trim_space is_empty total_counts keys_utf8
complete-IsRecord = record {
  named = refl;
  ready = record {
    core = record {
      bound = refl;
      generation = omega arith;
      made = refl;
      counted = complete-AreCounts;
    };
    total = refl;
    pin = refl;
    tombstone = refl;
  };
  utf8 = refl;
}

abbrev ensured : Phrase
ensured = record phrase {
  crdt = record {
    object_id = hex_encode sixteen;
    counts = some ((device, 3) ∷ []);
    pinned = record { value = true; clock = late };
    presence = record { present = true; clock = late; generation = 1 };
  };
}

abbrev cells : HlcState
cells = record { wall_millis = pos 100; counter = 2 ^ 32 - 1 }

next_hlc_increases_example :
    (compare_hlc (stamp (ascii "b") cells) (next_hlc device (pos 90) cells).0 ≡ lt)
    × ((next_hlc device (pos 90) cells).1.counter ≤ max_uint32)
next_hlc_increases_example =
    next_hlc_increases device (ascii "b") (pos 90) cells
      (record { counted = omega arith; room = inl (ground arith) })

next_hlc_after_observe_example :
    compare_hlc late (next_hlc device (pos 90) (observe_hlc late cells)).0 ≡ lt
unfolding observe_hlc compare_int
next_hlc_after_observe_example =
    next_hlc_after_observe device (pos 90) late cells (omega arith) (omega arith)
      (record { counted = omega arith; room = inr (omega arith) })

abbrev full : HlcState
full = record { wall_millis = pos (2 ^ 63 - 1); counter = 2 ^ 32 - 1 }

abbrev learning : LearningContext
learning = record { password_field = false; private_mode = false; one_time_input = false }

abbrev counted : Phrase
counted = record complete {
  use_count = 8;
  last_used_day = pos 1;
  crdt = record complete.crdt { counts = some ((device, 4) ∷ (ascii "b", 4) ∷ []) };
}

abbrev opened : Opened
opened = record { sync_enabled = true; device_id = device }

opened_syncs : require_sync opened ≡ true
unfolding require_sync valid_sync_device_id same to_lower hex_decode
opened_syncs = refl

abbrev hash_of : ℕ → Bytes
hash_of n =
    n ∷ n ∷ n ∷ n ∷ n ∷ n ∷ n ∷ n ∷ n ∷ n ∷ n ∷ n ∷ n ∷ n ∷ n ∷ n ∷ n ∷ n ∷ n ∷ n ∷ n ∷ n ∷ n ∷ n
    ∷ n ∷ n ∷ n ∷ n ∷ n ∷ n ∷ n ∷ n ∷ []

abbrev upload : PreparedUpload
upload = record {
  event_id = 4;
  event_version = 1;
  device_sequence = 2;
  wire = ascii "{}";
  envelope_hash = hash_of 2;
}

abbrev idle : SyncTables Phrase
idle = record {
  cursor = pos 9;
  next_sequence = 2;
  previous_hash = hash_of 1;
  prepared = none;
  outbox = record { event_id = 4; version = 1; object_id = sixteen; row = complete } ∷ [];
}

abbrev staged : SyncTables Phrase
staged = record idle { prepared = some upload }

idle-IsChained : IsChained idle
idle-IsChained = record { started = omega arith; staged = tt }

upload-IsSendable : IsSendable upload
upload-IsSendable = record {
  event = omega arith;
  version = omega arith;
  sequence = omega arith;
  below = omega arith;
  written = omega arith;
  fits = omega arith;
  hashed = refl;
}

staged-IsChained : IsChained staged
staged-IsChained = record { started = omega arith; staged = (upload-IsSendable, refl) }

staging : save_prepared_upload opened upload idle ≡ ok staged
unfolding save_prepared_upload require_sync valid_sync_device_id same to_lower hex_decode
    upload_is_bad prepare_fresh count_event
staging = refl

abbrev rival : PreparedUpload
rival = record upload { event_version = 2 }

commit_prepared_upload-IsChained_example :
    (acknowledged : Bool) × (t : SyncTables Phrase) × (commit_prepared_upload opened staged
      ≡ ok (acknowledged, t))
    × IsChained t
    × (t.next_sequence ≡ 3)
    × (t.previous_hash ≡ hash_of 2)
    × (t.prepared ≡ none)
    × (t.cursor ≡ pos 9)
commit_prepared_upload-IsChained_example =
    commit_prepared_upload-IsChained opened upload staged opened_syncs staged-IsChained refl

abbrev reworded : Phrase
reworded = record complete { source = ascii "edited" }

waiting-drop_event-enqueue_row_example :
    waiting sixteen (drop_event 4 1 (enqueue_row sixteen reworded 5 idle.outbox)) ≡ some reworded
waiting-drop_event-enqueue_row_example =
    waiting-drop_event-enqueue_row sixteen reworded 5 4 1 idle.outbox (omega arith)
      ((λ e. refl), tt)
