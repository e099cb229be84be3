-- ===== src/Protocol/Crdt/Tests.antt =====
-- Runs of protocol/crdt.go at concrete states.
use yunpin_ime.Base.{◌≡◌, ◌≢◌, refl, true, false, none, some, [], ◌∷◌}
use yunpin_ime.Base.Int.{pos, compare_int}
use yunpin_ime.Base.Bytes.{Bytes, ascii, same, is_empty, compare_bytes}
use yunpin_ime.Base.Map.{lookup, insert, has}
use yunpin_ime.Base.Result.{ok, result_map, ◌>>=◌}
use yunpin_ime.Base.Semilattice.{In, first, later}
use yunpin_ime.Protocol.Clock.{Hlc, compare_hlc}
use yunpin_ime.Protocol.Crdt.{
  PhraseState, SettingState, raise_counts, choose_bool, choose_presence, merge_phrase,
  merge_setting,
}
use yunpin_ime.Protocol.Crdt.Merge.{View, view, merge_phrase_assoc, merge_phrase_comm}
use yunpin_ime.Protocol.Crdt.Converge.{merge_all, merge_all-converges}
use yunpin_ime.Protocol.Crdt.Removal.{merge_phrase-presence}
use yunpin_ime.Protocol.Crdt.Settings.{merge_setting_idem, merge_setting_assoc}

abbrev clock_of : Bytes → Hlc
clock_of node = record { wall_millis = pos 100; counter = 2; node = node }

-- Device "a" counts 3 and pins; device "b" counts 5, and has removed the phrase.
abbrev on_a : PhraseState
on_a = record {
  object_id = ascii "id";
  counts = some ((ascii "a", 3) ∷ (ascii "b", 1) ∷ []);
  pinned = record { value = true; clock = clock_of (ascii "a") };
  presence = record { present = true; clock = clock_of (ascii "c"); generation = 1 };
}

abbrev on_b : PhraseState
on_b = record {
  object_id = ascii "id";
  counts = some ((ascii "b", 5) ∷ []);
  pinned = record { value = false; clock = clock_of (ascii "b") };
  presence = record { present = false; clock = clock_of (ascii "b"); generation = 1 };
}

abbrev merged : PhraseState
merged = record {
  object_id = ascii "id";
  counts = some ((ascii "a", 3) ∷ (ascii "b", 5) ∷ []);
  pinned = on_b.pinned;
  presence = on_b.presence;
}

merge_phrase_run : merge_phrase on_a on_b ≡ ok merged
unfolding merge_phrase choose_bool choose_presence raise_counts compare_hlc compare_int
    compare_bytes same is_empty lookup insert
merge_phrase_run = refl

merge_phrase_comm_example :
    result_map view (merge_phrase on_a on_b) ≡ result_map view (merge_phrase on_b on_a)
unfolding has same
merge_phrase_comm_example = merge_phrase_comm on_a on_b (refl, (refl, tt)) (refl, tt)

merge_phrase_assoc_example :
    result_map view (merge_phrase on_b on_a >>= λ m. merge_phrase m on_b)
    ≡ result_map view (merge_phrase on_a on_b >>= λ m. merge_phrase on_b m)
unfolding has same
merge_phrase_assoc_example = merge_phrase_assoc on_b on_a on_b (refl, (refl, tt)) (refl, tt)

merge_all-converges_example :
    (v : View) × (result_map view (merge_all on_a (on_b ∷ on_a ∷ on_b ∷ [])) ≡ ok v)
    × (result_map view (merge_all on_a (on_a ∷ on_b ∷ [])) ≡ ok v)
unfolding has same is_empty
merge_all-converges_example =
    merge_all-converges (ascii "id") refl on_a (on_b ∷ on_a ∷ on_b ∷ []) (on_a ∷ on_b ∷ [])
      (record { of = refl; counted = (refl, (refl, tt)) })
      (
        record { of = refl; counted = (refl, tt) },
        (
          record { of = refl; counted = (refl, (refl, tt)) },
          (record { of = refl; counted = (refl, tt) }, tt),
        ),
      )
      (
        record { of = refl; counted = (refl, (refl, tt)) },
        (record { of = refl; counted = (refl, tt) }, tt),
      )
      (λ x m. to_short x m) (λ x m. to_long x m)
  where
    to_short : (x : PhraseState) → In x (on_b ∷ on_a ∷ on_b ∷ []) → In x (on_a ∷ on_b ∷ [])
    to_short x (first e) = later (first e)
    to_short x (later (first e)) = first e
    to_short x (later (later (first e))) = later (first e)
    to_short x (later (later (later h))) = elim h [ ]

    to_long : (x : PhraseState) → In x (on_a ∷ on_b ∷ []) → In x (on_b ∷ on_a ∷ on_b ∷ [])
    to_long x (first e) = later (first e)
    to_long x (later (first e)) = first e
    to_long x (later (later h)) = elim h [ ]

merge_phrase-presence_example : merged.presence.present ≡ false
merge_phrase-presence_example = (merge_phrase-presence on_a on_b merged merge_phrase_run).1

abbrev setting_a : SettingState
setting_a = record { key = ascii "k"; value = ascii "1"; clock = clock_of (ascii "a") }

abbrev setting_b : SettingState
setting_b = record { key = ascii "k"; value = ascii "2"; clock = clock_of (ascii "a") }

merge_setting_idem_example : merge_setting setting_a setting_a ≡ ok setting_a
unfolding is_empty
merge_setting_idem_example = merge_setting_idem setting_a refl

merge_setting_assoc_example :
    (merge_setting setting_a setting_b >>= λ m. merge_setting m setting_a)
    ≡ (merge_setting setting_b setting_a >>= λ m. merge_setting setting_a m)
merge_setting_assoc_example = merge_setting_assoc setting_a setting_b setting_a

-- A counter of 0 is kept from the left state and dropped from the right one: the two orders of a
-- merge show the same counters and hold different maps.
abbrev zero_on_a : PhraseState
zero_on_a = record on_a { counts = some ((ascii "z", 0) ∷ []) }

abbrev none_on_a : PhraseState
none_on_a = record on_a { counts = none }

zero_counter_order : merge_phrase zero_on_a none_on_a ≢ merge_phrase none_on_a zero_on_a
unfolding merge_phrase choose_bool choose_presence raise_counts compare_hlc compare_int
    compare_bytes same is_empty lookup insert
zero_counter_order e = cc
