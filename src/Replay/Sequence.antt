-- ===== src/Replay/Sequence.antt =====
-- replaylab/sequence.go: the state of a session and the acceptance of its next event. The set of seen
-- episodes is a list without duplicates; a nil map and an empty one behave alike. An error leaves the
-- state as it was, since only the last statement writes it.
pub mod Stream
pub mod Trace
use yunpin_ime.Base.{
  ℕ, ◌+◌, ◌%◌, ◌^◌, Bool, true, false, not, ◌&&◌, ◌||◌, Option, none, some, List, [], ◌∷◌,
}
use yunpin_ime.Base.Tests.{ltb, leb, ◌==◌, if◌then◌else◌}
use yunpin_ime.Base.Lists.{length}
use yunpin_ime.Base.Int.{ltb_int}
use yunpin_ime.Base.Bytes.{Bytes, same, is_empty}
use yunpin_ime.Base.Result.{Result, ok, err, ◌>>=◌, ◌>>◌, fail_if}
use yunpin_ime.Replay.Event.{Event, EventType, EventError, Platform, max_episodes}
use yunpin_ime.Replay.Event.Validate.{validate, one_of}

pub record SequenceState (Time : Type 0) : Type 0 where
  pub session_id : Bytes
  pub last_episode_id : Bytes
  pub last_seq : ℕ
  pub last_monotonic_us : ℕ
  pub last_utc : Time
  pub paused : Bool
  pub episode_closed : Bool
  pub seen_episodes : List Bytes

pub data SequenceError : Type 0 where
  invalid_event : EventError → SequenceError
  first_seq_not_one : SequenceError
  first_not_resume : SequenceError
  other_session : SequenceError
  unexpected_seq : SequenceError
  monotonic_backwards : SequenceError
  utc_backwards : SequenceError
  episode_reused : SequenceError
  too_many_episodes : SequenceError
  episode_left_open : SequenceError
  episode_badly_started : SequenceError
  episode_is_closed : SequenceError
  session_is_paused : SequenceError
  resume_not_paused : SequenceError
  resume_same_episode : SequenceError
  already_paused : SequenceError
  unsupported_event_type : SequenceError

abbrev pub is_resume : EventType → Bool
is_resume EventType.resume = true
is_resume _ = false

abbrev pub is_composition : EventType → Bool
is_composition EventType.composition_snapshot = true
is_composition _ = false

abbrev pub is_pause : EventType → Bool
is_pause EventType.pause = true
is_pause _ = false

abbrev pub is_drop_count : EventType → Bool
is_drop_count EventType.drop_count = true
is_drop_count _ = false

abbrev pub checked : Result EventError (Unit {0}) → Result SequenceError (Unit {0})
checked (ok u) = ok u
checked (err e) = err (invalid_event e)

module _ {Time : Type 0} where
  unfoldable pub is_new_episode : Event → SequenceState Time → Bool
  is_new_episode e s =
      if is_empty s.last_episode_id then true else not (same e.episode_id s.last_episode_id)

  unfoldable pub check_episode : Bool → Event → SequenceState Time → Result SequenceError (Unit {0})
  check_episode fresh e s =
      fail_if (fresh && one_of s.seen_episodes e.episode_id) episode_reused
      >> fail_if (fresh && leb max_episodes (length s.seen_episodes)) too_many_episodes
      >> fail_if (fresh && not (is_empty s.last_episode_id) && not s.episode_closed && not s.paused)
          episode_left_open
      >> fail_if
          (fresh
            && not (is_empty s.last_episode_id)
            && not (is_composition e.type)
            && not (is_resume e.type))
          episode_badly_started
      >> fail_if
          (not fresh && s.episode_closed && not (is_pause e.type) && not (is_drop_count e.type))
          episode_is_closed
      >> fail_if (s.paused && not (is_resume e.type) && not (is_drop_count e.type))
          session_is_paused

  -- The paused and closed flags after the event: the `switch` of `Accept`.
  unfoldable pub lifecycle :
      Bool → EventType → SequenceState Time → Result SequenceError (Bool × Bool)
  lifecycle fresh EventType.resume s =
      if not (s.last_seq == 0) && not s.paused
      then err resume_not_paused
      else if not (s.last_seq == 0) && not fresh
      then err resume_same_episode
      else ok (false, false)
  lifecycle fresh EventType.pause s = if s.paused then err already_paused else ok (true, true)
  lifecycle fresh EventType.commit s = ok (s.paused, true)
  lifecycle fresh EventType.abort s = ok (s.paused, true)
  lifecycle fresh EventType.composition_snapshot s =
      ok (s.paused, if fresh then false else s.episode_closed)
  lifecycle fresh EventType.select s = ok (s.paused, if fresh then false else s.episode_closed)
  lifecycle fresh EventType.backspace s = ok (s.paused, if fresh then false else s.episode_closed)
  lifecycle fresh EventType.delete s = ok (s.paused, if fresh then false else s.episode_closed)
  lifecycle fresh EventType.drop_count s = ok (s.paused, s.episode_closed)
  lifecycle fresh (EventType.other name) s = err unsupported_event_type

module _ {Time : Type 0} (g : Platform Time) where
  -- `utc, _ := time.Parse(...)`
  unfoldable pub time_of : Event → Time
  time_of e = elim (g.parse_time e.utc) [ none ↦ g.zero_time | some t ↦ t ]

  unfoldable pub check_stream : Event → SequenceState Time → Result SequenceError (Unit {0})
  unfolding time_of
  check_stream e s =
      if is_empty s.session_id
      then (if not (e.seq == 1)
          then err first_seq_not_one
          else fail_if (not (is_resume e.type)) first_not_resume)
      else if not (same e.session_id s.session_id)
      then err other_session
      else if not (e.seq == (s.last_seq + 1) % 2 ^ 64)
      then err unexpected_seq
      else if ltb e.monotonic_us s.last_monotonic_us
      then err monotonic_backwards
      else fail_if (ltb_int (g.instant (time_of e)) (g.instant s.last_utc)) utc_backwards

  abbrev pub advanced : Bool → Event → SequenceState Time → Bool × Bool → SequenceState Time
  advanced fresh e s flags = record {
    session_id = if is_empty s.session_id then e.session_id else s.session_id;
    last_episode_id = e.episode_id;
    last_seq = e.seq;
    last_monotonic_us = e.monotonic_us;
    last_utc = time_of e;
    paused = flags.0;
    episode_closed = flags.1;
    seen_episodes = if fresh then e.episode_id ∷ s.seen_episodes else s.seen_episodes;
  }

  unfoldable pub accept : Event → SequenceState Time → Result SequenceError (SequenceState Time)
  unfolding validate check_stream is_new_episode check_episode lifecycle
  accept e s =
      let fresh = is_new_episode e s in
      checked (validate g e)
      >> check_stream e s
      >> check_episode fresh e s
      >> lifecycle fresh e.type s
      >>= λ flags. ok (advanced fresh e s flags)
