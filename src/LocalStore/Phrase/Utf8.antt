-- ===== src/LocalStore/Phrase/Utf8.antt =====
-- Records and payloads whose strings are all UTF-8, and the operations that keep them so.
use yunpin_ime.Base.{◌≡◌, arith, inl, inr, ℕ, ◌+◌, ◌-◌, ◌%◌, ◌^◌, Bool, true, ◌&&◌, some, [], ◌∷◌}
use yunpin_ime.Base.Tests.{ltb, Bool-cases}
use yunpin_ime.Base.Bytes.{Bytes}
use yunpin_ime.Base.Map.{Entries, insert, count_at}
use yunpin_ime.Base.Result.{ok}
use yunpin_ime.Base.Text.{hex_encode}
use yunpin_ime.Protocol.Clock.{Hlc}
use yunpin_ime.Protocol.Crdt.{
  entries, raise_counts, PhraseState, merge_phrase, choose_bool, choose_presence,
}
use yunpin_ime.LocalStore.Phrase.{
  Phrase, PhrasePayload, materialize_phrase, ensure_phrase_state, migrate_counts, bind_state,
  choose_stable_string, merge_phrase_payload, total_counts,
}

module _ (valid_string : Bytes → Bool) where
  unfoldable pub keys_utf8 : Entries ℕ → Bool
  keys_utf8 [] = true
  keys_utf8 ((k, n) ∷ m) = valid_string k && keys_utf8 m

  abbrev pub state_utf8 : PhraseState → Bool
  state_utf8 s =
      valid_string s.object_id
      && valid_string s.pinned.clock.node
      && valid_string s.presence.clock.node
      && keys_utf8 (entries s.counts)

  abbrev pub plain_utf8 : Phrase → Bool
  plain_utf8 p = valid_string p.text && valid_string p.pinyin && valid_string p.source

  abbrev pub is_utf8 : Phrase → Bool
  is_utf8 p =
      valid_string p.text && valid_string p.pinyin && valid_string p.source && state_utf8 p.crdt

abbrev pub payload_utf8 : (Bytes → Bool) → PhrasePayload → Bool
payload_utf8 valid_string m =
    valid_string m.text
    && valid_string m.pinyin
    && valid_string m.source
    && state_utf8 valid_string m.state

module _ (valid : Bytes → Bool) where
  pub keys_utf8-insert :
      (k : Bytes) (n : ℕ) (m : Entries ℕ)
      → valid k ≡ true
      → keys_utf8 valid m ≡ true
      → keys_utf8 valid (insert k n m) ≡ true
  unfolding keys_utf8 insert
  keys_utf8-insert k n [] h u = ground arith
  keys_utf8-insert k n ((j, c) ∷ m) h u = ground (arith, keys_utf8-insert k n m h, u)

  pub keys_utf8-raise_counts :
      (m xs : Entries ℕ)
      → keys_utf8 valid m ≡ true
      → keys_utf8 valid xs ≡ true
      → keys_utf8 valid (raise_counts m xs) ≡ true
  unfolding keys_utf8 raise_counts
  keys_utf8-raise_counts m [] u w = u
  keys_utf8-raise_counts m ((k, n) ∷ xs) u w = elim (Bool-cases (ltb (count_at m k) n)) [
    | inl more ↦ rw more (
        keys_utf8-raise_counts (insert k n m) xs (keys_utf8-insert k n m (ground (arith, w)) u)
          (ground (arith, w)))
    | inr kept ↦ rw kept (keys_utf8-raise_counts m xs u (ground (arith, w)))
  ]

  migrate_counts-keys :
      (p : Phrase) (device : Bytes) (m : Entries ℕ)
      → valid device ≡ true
      → keys_utf8 valid m ≡ true
      → keys_utf8 valid (migrate_counts p device m) ≡ true
  unfolding migrate_counts
  migrate_counts-keys p device m h u = ground (
    arith,
    keys_utf8-insert device ((count_at m device + (p.use_count - total_counts (some m))) % 2 ^ 64) m
        h u,
  )

  pub ensure_phrase_state-utf8 :
      (p : Phrase) (id device : Bytes) (clock : Hlc) (q : Phrase)
      → valid (hex_encode id) ≡ true
      → valid device ≡ true
      → valid clock.node ≡ true
      → is_utf8 valid p ≡ true
      → ensure_phrase_state p id device clock ≡ ok q
      → is_utf8 valid q ≡ true
  unfolding ensure_phrase_state materialize_phrase bind_state keys_utf8
  ensure_phrase_state-utf8 p id device clock q hh hd hc hp e = ground (
    arith,
    hh,
    hd,
    hc,
    hp,
    migrate_counts-keys p device [] hd,
    migrate_counts-keys p device (entries p.crdt.counts) hd,
  )

  pub merge_phrase_payload-utf8 :
      (a b m : PhrasePayload)
      → payload_utf8 valid a ≡ true
      → payload_utf8 valid b ≡ true
      → merge_phrase_payload a b ≡ ok m
      → payload_utf8 valid m ≡ true
  unfolding merge_phrase_payload merge_phrase choose_bool choose_presence choose_stable_string
  merge_phrase_payload-utf8 a b m ha hb e =
      ground
        (arith, ha, hb, keys_utf8-raise_counts (entries a.state.counts) (entries b.state.counts))
