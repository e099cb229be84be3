-- ===== src/LocalStore/Store/Learn.antt =====
-- localstore/store.go: `RecordSelection`.
pub mod Keeps
use yunpin_ime.Base.{
  ℕ, zero, suc, ◌+◌, ◌-◌, ◌/◌, ◌%◌, ◌^◌, ◌≡◌, Bool, true, false, not, ◌||◌, ◌&&◌, Option, none,
  some, List, [], ◌∷◌, map,
}
use yunpin_ime.Base.Tests.{ltb, leb, ◌==◌, if◌then◌else◌}
use yunpin_ime.Base.Lists.{length, take}
use yunpin_ime.Base.Int.{ℤ, pos, negsuc, ltb_int}
use yunpin_ime.Base.Bytes.{Bytes, ascii, same, is_empty}
use yunpin_ime.Base.Map.{Entries, insert, lookup, count_at}
use yunpin_ime.Base.Result.{Result, ok, err, with_error}
use yunpin_ime.Base.Exec.{Exec, ◌>>=◌, ◌>>◌, pure, raise, lift, gets, modify}
use yunpin_ime.Base.Text.{trim_space}
use Prim.Native.Nat.Ordering.{lt}
use yunpin_ime.Protocol.Clock.{Hlc, compare_hlc}
use yunpin_ime.Protocol.Crdt.{PhraseState, LwwBool, Presence, entries, differ, MergeError}
use yunpin_ime.LocalStore.Phrase.{
  Phrase, PhrasePayload, StoreError, phrase_required, object_id_failed, seal_failed, open_failed,
  generation_exhausted, counter_exhausted, merge_failed, outbox_limit, invalid_outbox_object,
  max_uint64, total_counts, materialize_phrase, ensure_phrase_state, merge_phrase_payload,
  validate_payload_object,
}
use yunpin_ime.LocalStore.HlcState.{HlcState, next_hlc, observe_hlc}
use yunpin_ime.LocalStore.Store.{
  Vault, Db, OutboxRow, Op, phrase_object_id, take_clock, load_by_id, upsert, enqueue_row,
}

pub record LearningContext : Type 0 where
  pub password_field : Bool
  pub private_mode : Bool
  pub one_time_input : Bool

pub disabled : LearningContext → Bool
disabled c = c.password_field || c.private_mode || c.one_time_input

pub record LearnResult : Type 0 where
  pub recorded : Bool
  pub use_count : ℕ
  pub sync_eligible : Bool

abbrev pub learning_threshold : ℕ
learning_threshold = 2

learned : Phrase → Option Phrase → Phrase
learned p none = record p { source = ascii "learned" }
learned p (some old) = old

module _ {Row : Type 0} (v : Vault Row) where
  -- The quotient of an int64 by 86400, towards zero.
  abbrev day_of : ℤ → ℤ
  day_of (pos n) = pos (n / 86400)
  day_of (negsuc n) = let days = (n + 1) / 86400 in if days == 0 then pos 0 else negsuc (days - 1)

  -- Count one more selection on this device; `unix` is the time in seconds.
  counted_once : ℤ → Phrase → Phrase
  counted_once unix p =
      let m = entries p.crdt.counts in
      record p {
        crdt = record p.crdt { counts = some (insert v.device_id (count_at m v.device_id + 1) m) };
        last_used_day = day_of unix;
      }

  unfoldable pub count_selection : ℤ → Phrase → Result StoreError Phrase
  unfolding counted_once
  count_selection unix p =
      if count_at (entries p.crdt.counts) v.device_id == max_uint64
      then err counter_exhausted
      else ok (materialize_phrase (counted_once unix p))

  record_present : ℤ → Phrase → Op v LearnResult
  record_present unix p = do
    q ← lift (count_selection unix p)
    let eligible = leb learning_threshold q.use_count
    upsert v q eligible
    pure (record { recorded = true; use_count = q.use_count; sync_eligible = eligible })

  -- A removed phrase is not counted.
  count_if_present : ℤ → Phrase → Op v LearnResult
  unfolding record_present
  count_if_present unix p =
      if not p.crdt.presence.present
      then pure (record { recorded = false; use_count = p.use_count; sync_eligible = false })
      else record_present unix p

  learn : ℤ → ℤ → Phrase → Op v LearnResult
  unfolding learned count_if_present
  learn now unix phrase = do
    id ← lift (phrase_object_id v phrase)
    existing ← load_by_id v id
    clock ← take_clock v now
    p ← lift (ensure_phrase_state (learned phrase existing) id v.device_id clock)
    count_if_present unix p

  unfoldable pub record_selection : ℤ → ℤ → Phrase → LearningContext → Op v LearnResult
  unfolding disabled learn
  record_selection now unix phrase learning =
      if disabled learning
      then pure (record { recorded = false; use_count = 0; sync_eligible = false })
      else learn now unix phrase
