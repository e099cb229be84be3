-- ===== src/Replay/Event/Validate.antt =====
-- replaylab/event.go: the checks of an event, and its line format.
use yunpin_ime.Base.{
  ℕ, zero, suc, ◌+◌, ◌/◌, Bool, true, false, not, ◌&&◌, ◌||◌, Option, none, some, List, [], ◌∷◌,
}
use yunpin_ime.Base.Tests.{ltb, leb, ◌==◌, if◌then◌else◌}
use yunpin_ime.Base.Lists.{length, get_elem?}
use yunpin_ime.Base.Int.{ℤ, pos, negsuc}
use yunpin_ime.Base.Bytes.{Bytes, ascii, same, is_empty}
use yunpin_ime.Base.Result.{Result, ok, err, ◌>>=◌, ◌>>◌, fail_if, with_error}
use yunpin_ime.Replay.Event.{
  Candidate, Commit, Composition, Event, EventError, EventType, FinalText, Platform, Selection,
  abort, backspace, caret_outside, caret_splits_rune, commit, commit_parts_missing,
  commit_text_differs, composition_snapshot, delete, drop_count, drop_count_outside,
  edit_count_outside, event_empty, event_too_long, invalid_ids, many_highlighted, max_candidates,
  max_drop_count, max_edit_count, max_event_bytes, not_decodable, not_encodable, only_composition,
  only_selection, other, pause, rank_outside, resume, select, selection_alone,
  selection_text_differs, seq_starts_at_one, text_empty, text_has_nul, text_not_utf8, text_too_long,
  too_many_candidates, trailing_data, unexpected_counters, unsupported_confidence,
  unsupported_payload, unsupported_scope, unsupported_source, unsupported_type, unsupported_version,
  utc_not_canonical,
}

-- `for _, char := range value`: every rune outside ASCII, and every byte of it, fails the test.
unfoldable pub all_hex : Bytes → Bool
all_hex [] = true
all_hex (c ∷ cs) = (leb 48 c && leb c 57 || leb 97 c && leb c 102) && all_hex cs

unfoldable pub valid_id : Bytes → Bool
unfolding all_hex
valid_id value = if not (length value == 32) then false else all_hex value

-- `strings.ContainsRune(value, '\x00')`
unfoldable pub contains_nul : Bytes → Bool
contains_nul [] = false
contains_nul (c ∷ cs) = c == 0 || contains_nul cs

-- The one of the listed strings.
unfoldable pub one_of : List Bytes → Bytes → Bool
one_of [] value = false
one_of (x ∷ xs) value = same x value || one_of xs value

-- `utf8.RuneStart`
unfoldable pub rune_start : ℕ → Bool
rune_start b = not (b / 64 == 2)

unfoldable pub splits_rune : Bytes → ℕ → Bool
unfolding rune_start
splits_rune raw caret = elim (get_elem? raw caret) [ none ↦ false | some b ↦ not (rune_start b) ]

abbrev pub caret_check : Bytes → ℤ → Result EventError (Unit {0})
caret_check raw (negsuc n) = err caret_outside
caret_check raw (pos n) =
    if ltb (length raw) n
    then err caret_outside
    else fail_if (ltb 0 n && not (n == length raw) && splits_rune raw n) caret_splits_rune

unfoldable pub count_highlighted : List Candidate → ℕ
count_highlighted [] = 0
count_highlighted (c ∷ cs) = (if c.highlighted then 1 else 0) + count_highlighted cs

abbrev pub has {ℓ} : {A : Type ℓ} → Option A → Bool
has none = false
has (some a) = true

unfoldable pub unexpected : Bool → Bool → Bool → Bool → Event → Result EventError (Unit {0})
unexpected allow_composition allow_selection allow_commit allow_final e =
    fail_if
      (not allow_composition && has e.composition
        || not allow_selection && has e.selection
        || not allow_commit && has e.commit_part
        || not allow_final && has e.final_text)
      unsupported_payload

abbrev pub has_counters : Event → Bool
has_counters e = not (e.edit_count == 0) || not (e.dropped == 0)

-- `event.Commit.Text != event.FinalText.Text`, where both are there.
abbrev pub committed_text_differs : Option Commit → Option FinalText → Bool
committed_text_differs (some c) (some f) = not (same c.text f.text)
committed_text_differs _ _ = false

unfoldable pub shape_of : EventType → Event → Result EventError (Unit {0})
unfolding unexpected
shape_of composition_snapshot e =
    fail_if
      (not (has e.composition)
        || has e.selection
        || has e.commit_part
        || has e.final_text
        || has_counters e)
      only_composition
shape_of select e =
    fail_if
      (not (has e.composition)
        || not (has e.selection)
        || has e.commit_part
        || has e.final_text
        || has_counters e)
      only_selection
shape_of commit e =
    fail_if
      (not (has e.composition)
        || not (has e.commit_part)
        || not (has e.final_text)
        || has_counters e)
      commit_parts_missing
    >> fail_if (committed_text_differs e.commit_part e.final_text) commit_text_differs
shape_of backspace e =
    fail_if (e.edit_count == 0 || ltb max_edit_count e.edit_count || not (e.dropped == 0))
      edit_count_outside
    >> unexpected true false false false e
shape_of delete e =
    fail_if (e.edit_count == 0 || ltb max_edit_count e.edit_count || not (e.dropped == 0))
      edit_count_outside
    >> unexpected true false false false e
shape_of abort e =
    fail_if (has_counters e) unexpected_counters >> unexpected true false false false e
shape_of pause e =
    fail_if (has_counters e) unexpected_counters >> unexpected false false false false e
shape_of resume e =
    fail_if (has_counters e) unexpected_counters >> unexpected false false false false e
shape_of drop_count e =
    fail_if (e.dropped == 0 || ltb max_drop_count e.dropped || not (e.edit_count == 0))
      drop_count_outside
    >> unexpected false false false false e
shape_of (other name) e = err unsupported_type

unfoldable pub validate_type_shape : Event → Result EventError (Unit {0})
unfolding shape_of
validate_type_shape e = shape_of e.type e

-- The candidate that a one-based rank names, if it is in the list.
abbrev pub ranked : ℤ → List Candidate → Option Candidate
ranked (negsuc n) cs = none
ranked (pos zero) cs = none
ranked (pos (suc n)) cs = get_elem? cs n

unfoldable pub validate_selection :
    Option Composition → Option Selection → Result EventError (Unit {0})
validate_selection composition none = ok tt
validate_selection none (some s) = err selection_alone
validate_selection (some c) (some s) = elim (ranked s.rank c.candidates) [
  | none ↦ err rank_outside
  | some candidate ↦ fail_if (not (same s.text candidate.text)) selection_text_differs
]

module _ {Time : Type 0} (g : Platform Time) where
  unfoldable pub validate_text : Bytes → ℕ → Bool → Result EventError (Unit {0})
  validate_text value max_bytes allow_empty =
      if not (g.valid_string value)
      then err text_not_utf8
      else if not allow_empty && is_empty value
      then err text_empty
      else if ltb max_bytes (length value)
      then err text_too_long
      else fail_if (contains_nul value) text_has_nul

  unfoldable pub validate_candidates : List Candidate → Result EventError (Unit {0})
  validate_candidates [] = ok tt
  validate_candidates (c ∷ cs) =
      let rest = validate_candidates cs in validate_text c.text 256 false >> rest

  unfoldable pub validate_composition : Composition → Result EventError (Unit {0})
  validate_composition c =
      validate_text c.raw_input 512 true
      >> validate_text c.normalized_pinyin 512 true
      >> caret_check c.raw_input c.caret_byte
      >> fail_if (ltb max_candidates (length c.candidates)) too_many_candidates
      >> validate_candidates c.candidates
      >> fail_if (ltb 1 (count_highlighted c.candidates)) many_highlighted

  unfoldable pub validate_commit : Commit → Result EventError (Unit {0})
  validate_commit c =
      validate_text c.text 2048 false
      >> fail_if
          (not (
            one_of (ascii "candidate" ∷ ascii "raw" ∷ ascii "prediction" ∷ ascii "unknown" ∷ [])
              c.source))
          unsupported_source

  unfoldable pub validate_final_text : FinalText → Result EventError (Unit {0})
  validate_final_text f =
      validate_text f.text 2048 false
      >> fail_if
          (not (one_of (ascii "composition" ∷ ascii "clause" ∷ ascii "episode" ∷ []) f.scope))
          unsupported_scope
      >> fail_if
          (not (
            one_of (ascii "observed" ∷ ascii "user_confirmed" ∷ ascii "inferred" ∷ [])
              f.confidence))
          unsupported_confidence

  unfoldable pub is_canonical_utc : Bytes → Bool
  is_canonical_utc value = elim (g.parse_time value) [
    | none ↦ false
    | some parsed ↦ g.in_utc parsed && same (g.format_time parsed) value
  ]

  -- A part that is absent is not checked.
  abbrev pub when_present {ℓ} :
      {A : Type ℓ} → (A → Result EventError (Unit {0})) → Option A → Result EventError (Unit {0})
  when_present check none = ok tt
  when_present check (some a) = check a

  unfoldable pub validate : Event → Result EventError (Unit {0})
  validate e =
      fail_if (not (same e.version (ascii "yunpin.replay.event.v1"))) unsupported_version
      >> fail_if (not (valid_id e.session_id) || not (valid_id e.episode_id)) invalid_ids
      >> fail_if (e.seq == 0) seq_starts_at_one
      >> fail_if (not (is_canonical_utc e.utc)) utc_not_canonical
      >> when_present validate_composition e.composition
      >> validate_selection e.composition e.selection
      >> when_present validate_commit e.commit_part
      >> when_present validate_final_text e.final_text
      >> validate_type_shape e
      >> with_error not_encodable (g.marshal e)
      >>= λ encoded. fail_if (ltb max_event_bytes (length encoded)) event_too_long

  -- EncodeEventV1
  unfoldable pub encode_event : Event → Result EventError Bytes
  encode_event e = validate e >> with_error not_encodable (g.marshal e) >>= λ encoded.
      if ltb max_event_bytes (length encoded) then err event_too_long else ok encoded

  -- DecodeEventV1
  unfoldable pub decode_event : Bytes → Result EventError Event
  decode_event line =
      fail_if (is_empty line) event_empty
      >> fail_if (ltb max_event_bytes (length line)) event_too_long
      >> with_error not_decodable (g.unmarshal line)
      >>= λ (event, rest). fail_if (not (g.at_end rest)) trailing_data >> validate event >> ok event
