-- ===== src/Replay/Tests.antt =====
-- Runs of replaylab: a session that types, pauses, reports a loss and resumes in a new episode.
use yunpin_ime.Base.{
  ◌≡◌, ◌≢◌, refl, ap, ℕ, ◌+◌, Bool, true, false, none, some, List, [], ◌∷◌, arith, inr,
}
use yunpin_ime.Base.Lists.{All}
use yunpin_ime.Base.Int.{pos, compare_int}
use yunpin_ime.Base.Bytes.{Bytes, ascii, same, is_empty}
use yunpin_ime.Base.Result.{ok}
use yunpin_ime.Replay.Event.{Event, EventType, Platform, Composition, Candidate, Selection}
use yunpin_ime.Replay.Event.Validate.{
  validate, valid_id, all_hex, is_canonical_utc, validate_type_shape, shape_of, unexpected, one_of,
  validate_selection,
}
use yunpin_ime.Replay.Sequence.{
  SequenceState, accept, check_stream, check_episode, is_new_episode, lifecycle, time_of, is_resume,
  is_drop_count,
}
use yunpin_ime.Replay.Sequence.Stream.{initial, IsSession, accept_all, accept-IsSession}
use yunpin_ime.Replay.Sequence.Trace.{
  IsNumbered, accept_all-IsNumbered, left_episode_stays_left, paused_session_takes_no_input,
}

abbrev id_a : Bytes
id_a = ascii "aaaaaaaaaaaaaaaaaaaaaaaaaaaaaaaa"

abbrev id_b : Bytes
id_b = ascii "bbbbbbbbbbbbbbbbbbbbbbbbbbbbbbbb"

abbrev event_at : EventType → ℕ → Bytes → ℕ → ℕ → Event
event_at type seq episode edits dropped = record {
  version = ascii "yunpin.replay.event.v1";
  session_id = id_a;
  episode_id = episode;
  seq = seq;
  monotonic_us = 10 + seq;
  utc = ascii "t";
  type = type;
  composition = none;
  selection = none;
  commit_part = none;
  edit_count = edits;
  dropped = dropped;
  final_text = none;
}

abbrev starts : Event
starts = event_at EventType.resume 1 id_a 0 0

abbrev types : Event
types = event_at EventType.backspace 2 id_a 1 0

abbrev pauses : Event
pauses = event_at EventType.pause 3 id_a 0 0

abbrev loses : Event
loses = event_at EventType.drop_count 4 id_a 0 5

abbrev resumes : Event
resumes = event_at EventType.resume 5 id_b 0 0

abbrev types_on : Event
types_on = event_at EventType.delete 6 id_b 2 0

-- All clocks read zero; the line of every event is one byte, and reads as `starts`.
abbrev platform : Platform ℕ
platform = record {
  valid_string = λ s. true;
  parse_time = λ s. some 0;
  in_utc = λ t. true;
  format_time = λ t. ascii "t";
  instant = λ t. pos t;
  zero_time = 0;
  marshal = λ e. some (1 ∷ []);
  unmarshal = λ line. some (starts, []);
  at_end = is_empty;
}

abbrev state_at : ℕ → Bytes → Bool → List Bytes → SequenceState ℕ
state_at seq episode paused seen = record {
  session_id = id_a;
  last_episode_id = episode;
  last_seq = seq;
  last_monotonic_us = 10 + seq;
  last_utc = 0;
  paused = paused;
  episode_closed = paused;
  seen_episodes = seen;
}

run_all :
    (accept_all platform (starts ∷ types ∷ pauses ∷ loses ∷ resumes ∷ []) (initial 0)
      ≡ ok (state_at 5 id_b false (id_b ∷ id_a ∷ [])))
    × (accept_all platform (loses ∷ []) (state_at 3 id_a true (id_a ∷ []))
        ≡ ok (state_at 4 id_a true (id_a ∷ [])))
    × (accept_all platform (types_on ∷ []) (state_at 5 id_b false (id_b ∷ id_a ∷ []))
        ≡ ok (state_at 6 id_b false (id_b ∷ id_a ∷ [])))
    × (accept platform types (state_at 1 id_a false (id_a ∷ []))
        ≡ ok (state_at 2 id_a false (id_a ∷ [])))
unfolding accept_all accept validate valid_id all_hex is_canonical_utc validate_type_shape shape_of
    unexpected validate_selection one_of same is_empty check_stream check_episode is_new_episode
    lifecycle time_of compare_int
run_all = (refl, refl, refl, refl)

accept-IsSession_example : IsSession platform (state_at 2 id_a false (id_a ∷ []))
unfolding one_of same is_empty
accept-IsSession_example =
    accept-IsSession platform 0 types (state_at 1 id_a false (id_a ∷ []))
      (state_at 2 id_a false (id_a ∷ []))
      (inr (record {
        numbered = omega arith;
        named = refl;
        entered = refl;
        seen = refl;
        distinct = (refl, tt);
        bounded = omega arith;
        paused_closed = λ p. cc;
      }))
      run_all.3

accept_all-IsNumbered_example :
    (is_resume starts.type ≡ true)
    × IsNumbered platform id_a 0 0
        (time_of platform starts)
        (starts ∷ types ∷ pauses ∷ loses ∷ resumes ∷ [])
    × ((state_at 5 id_b false (id_b ∷ id_a ∷ [])).last_seq ≡ 5)
accept_all-IsNumbered_example =
    accept_all-IsNumbered platform 0 starts (types ∷ pauses ∷ loses ∷ resumes ∷ [])
      (state_at 5 id_b false (id_b ∷ id_a ∷ [])) (omega arith) run_all.0

left_episode_stays_left_example : All (λ e. e.episode_id ≢ id_a) (types_on ∷ [])
unfolding one_of same is_empty
left_episode_stays_left_example =
    left_episode_stays_left platform id_a (types_on ∷ []) (state_at 5 id_b false (id_b ∷ id_a ∷ []))
      (state_at 6 id_b false (id_b ∷ id_a ∷ [])) refl (λ e. cc (ap (λ b. same b id_a) e)) refl
      run_all.2

paused_session_takes_no_input_example :
    All (λ e. is_drop_count e.type ≡ true) (loses ∷ [])
    × ((state_at 4 id_a true (id_a ∷ [])).paused ≡ true)
paused_session_takes_no_input_example =
    paused_session_takes_no_input platform (loses ∷ []) (state_at 3 id_a true (id_a ∷ []))
      (state_at 4 id_a true (id_a ∷ [])) refl (refl, tt) run_all.1

abbrev word : Candidate
word = record { text = ascii "hao"; is_correction = false; highlighted = true }

abbrev typed : Composition
typed = record {
  raw_input = ascii "hao";
  normalized_pinyin = ascii "hao";
  caret_byte = pos 3;
  exact_path_available = true;
  candidates = word ∷ [];
}

abbrev chosen : Selection
chosen = record { rank = pos 1; text = ascii "hao" }

abbrev selects : Event
selects = record (event_at EventType.select 2 id_a 0 0) {
  composition = some typed;
  selection = some chosen;
}
