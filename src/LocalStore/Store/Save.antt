-- ===== src/LocalStore/Store/Save.antt =====
-- localstore/store.go: `SaveExplicit` and `Delete`.
pub mod Keeps
use yunpin_ime.Base.{
  ℕ, zero, suc, ◌+◌, ◌-◌, ◌/◌, ◌%◌, ◌^◌, ◌≡◌, Bool, true, false, not, ◌||◌, ◌&&◌, Option, none,
  some, List, [], ◌∷◌, map,
}
use yunpin_ime.Base.Tests.{ltb, leb, ◌==◌, if◌then◌else◌}
use yunpin_ime.Base.Lists.{length, take}
use yunpin_ime.Base.Int.{ℤ, pos, ltb_int}
use yunpin_ime.Base.Bytes.{Bytes, ascii, same, is_empty}
use yunpin_ime.Base.Map.{Entries, insert, lookup, count_at}
use yunpin_ime.Base.Result.{Result, ok, err, with_error}
use yunpin_ime.Base.Exec.{Exec, ◌>>=◌, ◌>>◌, pure, raise, lift, gets, modify}
use yunpin_ime.Base.Text.{trim_space}
use Prim.Native.Nat.Ordering.{lt}
use yunpin_ime.Protocol.Clock.{Hlc, compare_hlc}
use yunpin_ime.Protocol.Crdt.{PhraseState, LwwBool, Presence, entries, differ, MergeError}
use yunpin_ime.LocalStore.Phrase.{
  Phrase, PhrasePayload, StoreError, phrase_required, object_id_failed, seal_failed, open_failed,
  generation_exhausted, counter_exhausted, merge_failed, outbox_limit, invalid_outbox_object,
  max_uint64, total_counts, materialize_phrase, ensure_phrase_state, merge_phrase_payload,
  validate_payload_object,
}
use yunpin_ime.LocalStore.HlcState.{HlcState, next_hlc, observe_hlc}
use yunpin_ime.LocalStore.Store.{
  Vault, Db, OutboxRow, Op, phrase_object_id, take_clock, load_by_id, upsert, enqueue_row,
}

source_or_manual : Bytes → Bytes
source_or_manual s = let t = trim_space s in if is_empty t then ascii "manual" else t

abbrev pub zero_clock : Hlc
zero_clock = record { wall_millis = pos 0; counter = 0; node = [] }

-- protocol.PhraseState{}
abbrev pub empty_state : PhraseState
empty_state = record {
  object_id = [];
  counts = none;
  pinned = record { value = false; clock = zero_clock };
  presence = record { present = false; clock = zero_clock; generation = 0 };
}

edited : Phrase → Option Phrase → Phrase
edited p none = record p { deleted = false; crdt = empty_state }
edited p (some old) = record old {
  text = p.text;
  pinyin = p.pinyin;
  source = p.source;
  last_used_day =
      if ltb_int old.last_used_day p.last_used_day then p.last_used_day else old.last_used_day;
}

-- An explicit add brings a removed phrase back under the next generation.
revive : Hlc → Phrase → Result StoreError Phrase
revive clock p =
    let presence = p.crdt.presence in
    if presence.present
    then ok p
    else if presence.generation == max_uint64
    then err generation_exhausted
    else ok (record p {
      crdt = record p.crdt {
        presence = record { present = true; clock = clock; generation = presence.generation + 1 };
      };
    })

set_pinned : Bool → Hlc → Phrase → Phrase
set_pinned wanted clock p =
    if differ p.crdt.pinned.value wanted
    then record p { crdt = record p.crdt { pinned = record { value = wanted; clock = clock } } }
    else p

deleted_or_tombstone : Bytes → Bytes → Option Phrase → Phrase
deleted_or_tombstone text pinyin (some old) = old
deleted_or_tombstone text pinyin none = record {
  text = text;
  pinyin = pinyin;
  source = ascii "tombstone";
  use_count = 0;
  pinned = false;
  deleted = false;
  last_used_day = pos 0;
  crdt = empty_state;
}

remove : Hlc → Phrase → Phrase
remove clock p = record p {
  crdt = record p.crdt { presence = record p.crdt.presence { present = false; clock = clock } };
}

module _ {Row : Type 0} (v : Vault Row) where
  raise_count : ℕ → Phrase → Result StoreError Phrase
  raise_count wanted p =
      let m = entries p.crdt.counts in
      let current = total_counts p.crdt.counts in
      let own = count_at m v.device_id in
      if ltb current wanted
      then (if ltb (max_uint64 - own) (wanted - current)
          then err counter_exhausted
          else ok (record p {
            crdt = record p.crdt {
              counts = some (insert v.device_id (own + (wanted - current)) m);
            };
          }))
      else ok p

  unfoldable pub save_explicit : ℤ → Phrase → Op v (Unit {0})
  unfolding source_or_manual edited revive set_pinned raise_count
  save_explicit now phrase = do
    id ← lift (phrase_object_id v phrase)
    existing ← load_by_id v id
    clock ← take_clock v now
    p ← lift (
        ensure_phrase_state
          (edited (record phrase { source = source_or_manual phrase.source }) existing) id
          v.device_id clock)
    q ← lift (revive clock p)
    r ← lift (raise_count phrase.use_count (set_pinned phrase.pinned clock q))
    upsert v (materialize_phrase r) true

  unfoldable pub delete_phrase : ℤ → Bytes → Bytes → Op v (Unit {0})
  unfolding deleted_or_tombstone remove
  delete_phrase now text pinyin = do
    id ← lift (phrase_object_id v (deleted_or_tombstone text pinyin none))
    existing ← load_by_id v id
    clock ← take_clock v now
    p ← lift (ensure_phrase_state (deleted_or_tombstone text pinyin existing) id v.device_id clock)
    upsert v (materialize_phrase (remove clock p)) true
