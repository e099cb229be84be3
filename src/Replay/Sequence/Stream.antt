-- ===== src/Replay/Sequence/Stream.antt =====
-- Accepted streams: their numbering, their session, and their episodes.
use yunpin_ime.Base.{
  sym, subst, ◌≡◌, ◌≤◌, ◌<◌, refl, arith, Bool, true, false, List, [], ◌∷◌, ◌⊎◌, inl, inr,
}
use yunpin_ime.Base.Tests.{if◌then◌else◌}
use yunpin_ime.Base.Lists.{length}
use yunpin_ime.Base.Bytes.{Bytes, same_iff, is_empty}
use yunpin_ime.Base.Result.{Result, ok, err, ◌>>=◌, >>=-eq-ok}
use yunpin_ime.Base.Ensures.{ok_injective}
use yunpin_ime.Replay.Event.{EventError, Event, Platform, max_episodes}
use yunpin_ime.Replay.Event.Validate.{validate, valid_id, one_of}
use yunpin_ime.Replay.Sequence.{
  checked, SequenceState, SequenceError, accept, check_stream, check_episode, is_new_episode,
  lifecycle, time_of,
}

abbrev pub initial : {Time : Type 0} → Time → SequenceState Time
initial zero_time = record {
  session_id = [];
  last_episode_id = [];
  last_seq = 0;
  last_monotonic_us = 0;
  last_utc = zero_time;
  paused = false;
  episode_closed = false;
  seen_episodes = [];
}

valid_id-eq-true : (id : Bytes) → valid_id id ≡ true → is_empty id ≡ false
unfolding valid_id is_empty
valid_id-eq-true [] h = cc
valid_id-eq-true (x ∷ xs) h = refl

abbrev pub Distinct : List Bytes → Type 0
Distinct [] = Unit {0}
Distinct (x ∷ xs) = (one_of xs x ≡ false) × Distinct xs

module _ {Time : Type 0} (g : Platform Time) where
  -- The events one after the other, up to the first that is refused.
  unfoldable pub accept_all :
      List Event → SequenceState Time → Result SequenceError (SequenceState Time)
  accept_all [] s = ok s
  accept_all (e ∷ es) s = accept g e s >>= accept_all es

  pub validate-names :
      (e : Event)
      → validate g e ≡ ok tt
      → (is_empty e.session_id ≡ false) × (is_empty e.episode_id ≡ false)
  unfolding validate
  validate-names e h = ground (arith, valid_id-eq-true e.session_id, valid_id-eq-true e.episode_id)

  checked-eq-ok : (r : Result EventError (Unit {0})) → checked r ≡ ok tt → r ≡ ok tt
  checked-eq-ok (ok u) h = refl
  checked-eq-ok (err e) h = cc

  -- What an accepted event is, and the state after it.
  pub accept-cases :
      (e : Event) (s t : SequenceState Time)
      → accept g e s ≡ ok t
      → (flags : Bool × Bool) × (validate g e ≡ ok tt)
        × (check_stream g e s ≡ ok tt)
        × (check_episode (is_new_episode e s) e s ≡ ok tt)
        × (lifecycle (is_new_episode e s) e.type s ≡ ok flags)
        × (t ≡ record {
          session_id = if is_empty s.session_id then e.session_id else s.session_id;
          last_episode_id = e.episode_id;
          last_seq = e.seq;
          last_monotonic_us = e.monotonic_us;
          last_utc = time_of g e;
          paused = flags.0;
          episode_closed = flags.1;
          seen_episodes =
              if is_new_episode e s then e.episode_id ∷ s.seen_episodes else s.seen_episodes;
        })
  unfolding accept
  accept-cases e s t h =
      let (flags, three, made) = >>=-eq-ok _ _ h in
      let (_, two, l) = >>=-eq-ok _ _ three in
      let (_, one, d) = >>=-eq-ok _ _ two in
      let (_, v, c) = >>=-eq-ok _ _ one in
      (flags, checked-eq-ok (validate g e) v, c, d, l, sym (ok_injective made))

  pub validate-seq : (e : Event) → validate g e ≡ ok tt → 0 < e.seq
  unfolding validate
  validate-seq e h = ground arith

  lifecycle-paused :
      (fresh : Bool) (e : Event) (s : SequenceState Time) (flags : Bool × Bool)
      → (s.paused ≡ true → s.episode_closed ≡ true)
      → check_episode fresh e s ≡ ok tt
      → lifecycle fresh e.type s ≡ ok flags
      → flags.0 ≡ true
      → flags.1 ≡ true
  unfolding check_episode lifecycle
  lifecycle-paused fresh e s flags h d l p = ground arith

  -- A state that some event has led to.
  pub record IsSession (s : SequenceState Time) : Type 0 where
    pub numbered : 0 < s.last_seq
    pub named : is_empty s.session_id ≡ false
    pub entered : is_empty s.last_episode_id ≡ false
    pub seen : one_of s.seen_episodes s.last_episode_id ≡ true
    pub distinct : Distinct s.seen_episodes
    pub bounded : length s.seen_episodes ≤ max_episodes
    pub paused_closed : s.paused ≡ true → s.episode_closed ≡ true

  record IsBefore (s : SequenceState Time) : Type 0 where
    last : (is_empty s.last_episode_id ≡ true) ⊎ (one_of s.seen_episodes s.last_episode_id ≡ true)
    distinct : Distinct s.seen_episodes
    bounded : length s.seen_episodes ≤ max_episodes
    paused_closed : s.paused ≡ true → s.episode_closed ≡ true

  initial-IsBefore : (zero_time : Time) → IsBefore (initial zero_time)
  unfolding is_empty
  initial-IsBefore z = record {
    last = inl refl;
    distinct = tt;
    bounded = omega arith;
    paused_closed = λ p. cc;
  }

  session-IsBefore : (s : SequenceState Time) → IsSession s → IsBefore s
  session-IsBefore s i = record {
    last = inr i.seen;
    distinct = i.distinct;
    bounded = i.bounded;
    paused_closed = i.paused_closed;
  }

  either_named : (a b : Bytes) → is_empty b ≡ false → is_empty (if is_empty a then b else a) ≡ false
  either_named a b h = ground arith

  episodes_on :
      (fresh : Bool) (e : Event) (s : SequenceState Time)
      → is_new_episode e s ≡ fresh
      → IsBefore s
      → check_episode fresh e s ≡ ok tt
      → (one_of (if fresh then e.episode_id ∷ s.seen_episodes else s.seen_episodes) e.episode_id
          ≡ true)
        × Distinct (if fresh then e.episode_id ∷ s.seen_episodes else s.seen_episodes)
        × (length (if fresh then e.episode_id ∷ s.seen_episodes else s.seen_episodes)
            ≤ max_episodes)
  unfolding is_new_episode check_episode one_of
  episodes_on true e s f b d =
      (ground (arith, same_iff e.episode_id e.episode_id), (ground arith, b.distinct), ground arith)
  episodes_on false e s f b d =
      (ground (arith, b.last, same_iff e.episode_id s.last_episode_id), b.distinct, b.bounded)

  entered_episodes :
      (e : Event) (s : SequenceState Time)
      → IsBefore s
      → check_episode (is_new_episode e s) e s ≡ ok tt
      → (one_of
            (if is_new_episode e s then e.episode_id ∷ s.seen_episodes else s.seen_episodes)
            e.episode_id
          ≡ true)
        × Distinct (if is_new_episode e s then e.episode_id ∷ s.seen_episodes else s.seen_episodes)
        × (length (if is_new_episode e s then e.episode_id ∷ s.seen_episodes else s.seen_episodes)
            ≤ max_episodes)
  entered_episodes e s b d = episodes_on (is_new_episode e s) e s refl b d

  -- Every accepted event, the first one included, leads to such a state: its session and episode are
  -- named, its episode is among the seen ones, these are distinct and at most a million, and a paused
  -- session has no open episode.
  pub accept-IsSession :
      (zero_time : Time) (e : Event) (s t : SequenceState Time)
      → (s ≡ initial zero_time) ⊎ IsSession s
      → accept g e s ≡ ok t
      → IsSession t
  accept-IsSession zero_time e s t h k =
      let (flags, v, c, d, l, made) = accept-cases e s t k in
      let (named, entered) = validate-names e v in
      let b : IsBefore s = elim h [
        | inl fresh ↦ subst IsBefore (sym fresh) (initial-IsBefore zero_time)
        | inr i ↦ session-IsBefore s i
      ] in
      let (seen, distinct, bounded) = entered_episodes e s b d in
      subst IsSession (sym made) (record {
        numbered = validate-seq e v;
        named = either_named s.session_id e.session_id named;
        entered = entered;
        seen = seen;
        distinct = distinct;
        bounded = bounded;
        paused_closed = lifecycle-paused (is_new_episode e s) e s flags b.paused_closed d l;
      })
