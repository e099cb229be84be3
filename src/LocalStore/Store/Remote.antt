-- ===== src/LocalStore/Store/Remote.antt =====
-- localstore/crdt_adapter.go: `MergeRemotePayload`.
pub mod Keeps
use yunpin_ime.Base.{
  ℕ, zero, suc, ◌+◌, ◌-◌, ◌/◌, ◌%◌, ◌^◌, ◌≡◌, Bool, true, false, not, ◌||◌, ◌&&◌, Option, none,
  some, List, [], ◌∷◌, map,
}
use yunpin_ime.Base.Tests.{ltb, leb, ◌==◌, if◌then◌else◌}
use yunpin_ime.Base.Lists.{length, take}
use yunpin_ime.Base.Int.{ℤ, pos, ltb_int}
use yunpin_ime.Base.Bytes.{Bytes, ascii, same, is_empty}
use yunpin_ime.Base.Map.{Entries, insert, lookup, count_at}
use yunpin_ime.Base.Result.{Result, ok, err, with_error}
use yunpin_ime.Base.Exec.{Exec, ◌>>=◌, ◌>>◌, pure, raise, lift, gets, modify}
use yunpin_ime.Base.Text.{trim_space}
use Prim.Native.Nat.Ordering.{lt}
use yunpin_ime.Protocol.Clock.{Hlc, compare_hlc}
use yunpin_ime.Protocol.Crdt.{PhraseState, LwwBool, Presence, entries, differ, MergeError}
use yunpin_ime.LocalStore.Phrase.{
  Phrase, PhrasePayload, StoreError, phrase_required, object_id_failed, seal_failed, open_failed,
  generation_exhausted, counter_exhausted, merge_failed, outbox_limit, invalid_outbox_object,
  max_uint64, total_counts, materialize_phrase, ensure_phrase_state, merge_phrase_payload,
  validate_payload_object,
}
use yunpin_ime.LocalStore.HlcState.{HlcState, next_hlc, observe_hlc}
use yunpin_ime.LocalStore.Store.{
  Vault, Db, OutboxRow, Op, phrase_object_id, take_clock, load_by_id, upsert, enqueue_row,
}

-- What the device has of an object, as a payload.
abbrev pub payload_of : Phrase → PhrasePayload
payload_of p = record {
  text = p.text;
  pinyin = p.pinyin;
  source = p.source;
  last_used_day = p.last_used_day;
  state = p.crdt;
}

abbrev pub phrase_of : PhrasePayload → Phrase
phrase_of m = record {
  text = m.text;
  pinyin = m.pinyin;
  source = m.source;
  use_count = 0;
  pinned = false;
  deleted = false;
  last_used_day = m.last_used_day;
  crdt = record m.state { counts = some (entries m.state.counts) };
}

-- The later of the two clocks of a state, the pinned one where they compare equal.
latest_clock : PhraseState → Hlc
latest_clock s = elim (compare_hlc s.pinned.clock s.presence.clock) [
  | lt ↦ s.presence.clock
  | _ ↦ s.pinned.clock
]

or_merge_failed : Result MergeError PhrasePayload → Result StoreError PhrasePayload
or_merge_failed (ok m) = ok m
or_merge_failed (err e) = err (merge_failed e)

module _ {Row : Type 0} (v : Vault Row) where
  -- A record from before the replicated state gets one first.
  adopt : ℤ → Bytes → Phrase → Op v Phrase
  adopt now id p =
      if is_empty p.crdt.object_id
      then (do clock ← take_clock v now; lift (ensure_phrase_state p id v.device_id clock))
      else pure p

  merge_existing : ℤ → Bytes → PhrasePayload → Option Phrase → Op v PhrasePayload
  unfolding adopt or_merge_failed
  merge_existing now id payload none = pure payload
  merge_existing now id payload (some old) = do
    p ← adopt now id old
    lift (or_merge_failed (merge_phrase_payload (payload_of p) payload))

  observe : Hlc → Op v (Unit {0})
  observe clock = modify (λ db. record db { hlc = observe_hlc clock db.hlc })

  unfoldable pub merge_remote_payload : ℤ → PhrasePayload → Op v (Unit {0})
  unfolding merge_existing observe latest_clock
  merge_remote_payload now payload = do
    id ← lift (validate_payload_object v.object_id payload)
    existing ← load_by_id v id
    merged ← merge_existing now id payload existing
    checked ← lift (validate_payload_object v.object_id merged)
    observe (latest_clock merged.state)
    upsert v (materialize_phrase (phrase_of merged)) false
