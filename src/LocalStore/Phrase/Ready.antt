-- ===== src/LocalStore/Phrase/Ready.antt =====
-- `ensurePhraseState` makes a record consistent with its replicated state, and loses no count.
use yunpin_ime.Base.{
  inl, inr, ℕ, ◌+◌, ◌-◌, ◌≤◌, ◌<◌, ◌%◌, ◌^◌, ◌≡◌, refl, max, not, Option, some, [], arith,
}
use yunpin_ime.Base.Tests.{ltb, ltb→lt, if◌then◌else◌, Bool-cases}
use yunpin_ime.Base.Bytes.{Bytes, is_empty, same_iff}
use yunpin_ime.Base.Map.{Entries, IsMap, insert, count_at, insert-IsMap}
use yunpin_ime.Base.Result.{ok}
use yunpin_ime.Base.Text.{hex_encode}
use yunpin_ime.Protocol.Clock.{Hlc}
use yunpin_ime.Protocol.Crdt.{entries, raise_counts}
use yunpin_ime.Protocol.Crdt.Counts.{raise_counts-IsMap}
use yunpin_ime.LocalStore.Phrase.{
  Phrase, max_uint64, total_counts, materialize_phrase, bind_state, migrate_counts,
  ensure_phrase_state,
}
use yunpin_ime.LocalStore.Phrase.Totals.{
  AreUint64, total_counts-min, sum_counts-insert, count_at-le-sum, insert-AreUint64, count_at-sized,
  raise_counts-AreUint64,
}

-- Counters that Go can hold: a map to `uint64` numbers.
pub record AreCounts (m : Entries ℕ) : Type 0 where
  pub keyed : IsMap m
  pub sized : AreUint64 m

-- A record whose replicated state is of the object, and complete.
pub record IsCore (id : Bytes) (p : Phrase) : Type 0 where
  pub bound : p.crdt.object_id ≡ hex_encode id
  pub generation : 0 < p.crdt.presence.generation
  pub made : p.crdt.counts ≡ some (entries p.crdt.counts)
  pub counted : AreCounts (entries p.crdt.counts)

-- And whose plain fields are those of its replicated state.
pub record IsReady (id : Bytes) (p : Phrase) : Type 0 where
  pub core : IsCore id p
  pub open core use *
  pub total : p.use_count ≡ total_counts p.crdt.counts
  pub pin : p.pinned ≡ p.crdt.pinned.value
  pub tombstone : p.deleted ≡ not p.crdt.presence.present

pub materialize_phrase-IsReady :
    (id : Bytes) (p : Phrase) → IsCore id p → IsReady id (materialize_phrase p)
unfolding materialize_phrase
materialize_phrase-IsReady id p h = record {
  core = record { bound = h.bound; generation = h.generation; made = h.made; counted = h.counted };
  total = refl;
  pin = refl;
  tombstone = refl;
}

pub total_counts-le : (c : Option (Entries ℕ)) → AreCounts (entries c) → total_counts c ≤ max_uint64
total_counts-le c h = omega (arith, total_counts-min c h.sized)

pub insert-AreCounts :
    (k : Bytes) (n : ℕ) (m : Entries ℕ) → n ≤ max_uint64 → AreCounts m → AreCounts (insert k n m)
insert-AreCounts k n m h a = record {
  keyed = insert-IsMap k n m a.keyed;
  sized = insert-AreUint64 k n m h a.sized;
}

pub count_at-le : (k : Bytes) (m : Entries ℕ) → AreCounts m → count_at m k ≤ max_uint64
count_at-le k m a = count_at-sized k m a.sized

migrate_counts-AreCounts :
    (p : Phrase) (device : Bytes) (m : Entries ℕ)
    → p.use_count ≤ max_uint64
    → AreCounts m
    → AreCounts (migrate_counts p device m)
unfolding migrate_counts
migrate_counts-AreCounts p device m h a = record {
  keyed = ground (
    arith,
    insert-IsMap device ((count_at m device + (p.use_count - total_counts (some m))) % 2 ^ 64) m,
    a.keyed,
  );
  sized = ground (
    arith,
    insert-AreUint64 device ((count_at m device + (p.use_count - total_counts (some m))) % 2 ^ 64)
        m,
    a.sized,
  );
}

no_wrap :
    (p : Phrase) (device : Bytes) (m : Entries ℕ)
    → p.use_count ≤ max_uint64
    → AreCounts m
    → total_counts (some m) < p.use_count
    → (count_at m device + (p.use_count - total_counts (some m))) % 2 ^ 64
      ≡ count_at m device + (p.use_count - total_counts (some m))
no_wrap p device m h a l =
    omega (arith, total_counts-min (some m) a.sized, count_at-le-sum device m)

total_counts-migrate_counts :
    (p : Phrase) (device : Bytes) (m : Entries ℕ)
    → p.use_count ≤ max_uint64
    → AreCounts m
    → total_counts (some (migrate_counts p device m)) ≡ max p.use_count (total_counts (some m))
unfolding migrate_counts
total_counts-migrate_counts p device m h a =
    let aggregate = total_counts (some m) in
    let delta = p.use_count - aggregate in
    elim (Bool-cases (ltb aggregate p.use_count)) [
      | inl less ↦
          rw (less, no_wrap p device m h a (ltb→lt _ _ less))
            (omega (
              arith,
              total_counts-min (some m) a.sized,
              total_counts-min (some (insert device (count_at m device + delta) m)) (
                  insert-AreUint64 device (count_at m device + delta) m
                    (omega (
                      arith,
                      ltb→lt _ _ less,
                      total_counts-min (some m) a.sized,
                      count_at-le-sum device m,
                    ))
                    a.sized),
              sum_counts-insert device delta m,
              ltb→lt _ _ less,
            ))
      | inr more ↦ rw more (ground arith)
    ]

pub no_counts : AreCounts []
no_counts = record { keyed = tt; sized = tt }

total_counts-nil : total_counts (some []) ≡ 0
unfolding total_counts
total_counts-nil = refl

total_counts_entries : (c : Option (Entries ℕ)) → total_counts (some (entries c)) ≡ total_counts c
unfolding total_counts
total_counts_entries c = refl

-- On success the record is ready, its count is the larger of the plain count and the stored total,
-- and its text and pinyin are unchanged.
pub ensure_phrase_state-IsReady :
    (p : Phrase) (id device : Bytes) (clock : Hlc) (q : Phrase)
    → p.use_count ≤ max_uint64
    → AreCounts (entries p.crdt.counts)
    → ensure_phrase_state p id device clock ≡ ok q
    → IsReady id q
      × (q.use_count
          ≡ max p.use_count (if is_empty p.crdt.object_id then 0 else total_counts p.crdt.counts))
      × (q.text ≡ p.text)
      × (q.pinyin ≡ p.pinyin)
unfolding ensure_phrase_state materialize_phrase bind_state
ensure_phrase_state-IsReady p id device clock q h a e = ground (
  arith,
  migrate_counts-AreCounts p device [] h no_counts,
  migrate_counts-AreCounts p device (entries p.crdt.counts) h a,
  total_counts-migrate_counts p device [] h no_counts,
  total_counts-migrate_counts p device (entries p.crdt.counts) h a,
  same_iff p.crdt.object_id (hex_encode id),
  total_counts_entries p.crdt.counts,
  total_counts-nil,
)

-- A merge of counters holds `uint64` counters under distinct devices.
pub raise_counts-AreCounts :
    (m xs : Entries ℕ) → AreCounts m → AreCounts xs → AreCounts (raise_counts m xs)
raise_counts-AreCounts m xs a b = record {
  keyed = raise_counts-IsMap m xs a.keyed;
  sized = raise_counts-AreUint64 m xs a.sized b.sized;
}
