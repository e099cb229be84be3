-- ===== src/LocalStore/Store/Learn/Keeps.antt =====
-- `RecordSelection` keeps the tables sound, and counts one selection.
use yunpin_ime.Base.{min, ◌≢◌, ◌+◌, ◌≡◌, refl, ap, some, arith}
use yunpin_ime.Base.Int.{ℤ}
use yunpin_ime.Base.Bytes.{Bytes}
use yunpin_ime.Base.Map.{insert, count_at}
use yunpin_ime.Base.Result.{ok}
use yunpin_ime.Base.Ensures.{Ensures}
use yunpin_ime.Protocol.Crdt.{entries}
use yunpin_ime.LocalStore.Phrase.{Phrase, max_uint64, materialize_phrase}
use yunpin_ime.LocalStore.Phrase.Totals.{sum_counts-insert, total_counts-min}
use yunpin_ime.LocalStore.Phrase.Ready.{insert-AreCounts, count_at-le}
use yunpin_ime.LocalStore.Store.{Vault, phrase_object_id}
use yunpin_ime.LocalStore.Phrase.Utf8.{keys_utf8-insert, keys_utf8}
use yunpin_ime.LocalStore.Store.Text.{IsVault}
use yunpin_ime.LocalStore.Store.Sound.{IsRecord, IsDraft}
use yunpin_ime.LocalStore.Store.Learn.{counted_once, count_selection}

module _ {Row : Type 0} (v : Vault Row) (laws : IsVault v) where
  counted_once-IsDraft :
      (id : Bytes) (unix : ℤ) (p : Phrase)
      → IsRecord v laws id p
      → count_at (entries p.crdt.counts) v.device_id ≢ max_uint64
      → IsDraft v laws id (counted_once v unix p)
  unfolding counted_once phrase_object_id keys_utf8
  counted_once-IsDraft id unix p r e =
      let m = entries p.crdt.counts in
      let own = count_at m v.device_id in
      record {
        named = r.named;
        core = record {
          bound = r.ready.bound;
          generation = r.ready.generation;
          made = refl;
          counted =
              insert-AreCounts v.device_id (own + 1) m
                (omega (arith, count_at-le v.device_id m r.ready.counted)) r.ready.counted;
        };
        utf8 = ground (
          arith,
          r.utf8,
          keys_utf8-insert laws.valid_string v.device_id (own + 1) m laws.device_valid,
        );
      }

  count_selection-eq :
      (unix : ℤ) (p q : Phrase)
      → count_selection v unix p ≡ ok q
      → (count_at (entries p.crdt.counts) v.device_id ≢ max_uint64)
        × (materialize_phrase (counted_once v unix p) ≡ q)
  unfolding count_selection
  count_selection-eq unix p q e = ground arith

  -- A counted selection of a stored record raises the use count by one, or leaves it at the largest `uint64`.
  pub use_count-count_selection :
      (id : Bytes) (unix : ℤ) (p q : Phrase)
      → IsRecord v laws id p
      → count_selection v unix p ≡ ok q
      → q.use_count ≡ min (p.use_count + 1) max_uint64
  unfolding materialize_phrase counted_once
  use_count-count_selection id unix p q r e =
      let (room, same_phrase) = count_selection-eq unix p q e in
      let m = entries p.crdt.counts in
      let own = count_at m v.device_id in
      let larger = insert v.device_id (own + 1) m in
      omega (
        arith,
        ap (λ (x : Phrase). x.use_count) same_phrase,
        r.ready.total,
        total_counts-min p.crdt.counts r.ready.counted.sized,
        total_counts-min (some larger) (counted_once-IsDraft id unix p r room).core.counted.sized,
        sum_counts-insert v.device_id 1 m,
      )
