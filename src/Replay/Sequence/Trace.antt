-- ===== src/Replay/Sequence/Trace.antt =====
-- Accepted streams as a whole: their numbers, sessions, pauses and episodes.
use yunpin_ime.Base.{
  ap, sym, subst, ◌∙◌, ◌≡◌, ◌≢◌, ◌≤◌, ◌<◌, refl, arith, ℕ, ◌+◌, ◌^◌, true, false, List, [], ◌∷◌,
}
use yunpin_ime.Base.Lists.{length, All}
use yunpin_ime.Base.Bytes.{Bytes, same_iff, is_empty}
use yunpin_ime.Base.Int.{ℤ, ltb_int, compare_int-IsTotalOrder}
use yunpin_ime.Base.Result.{ok, >>=-eq-ok}
use yunpin_ime.Base.Ensures.{ok_injective}
use yunpin_ime.Replay.Event.{Event, Platform}
use yunpin_ime.Replay.Event.Validate.{one_of}
use yunpin_ime.Replay.Sequence.{
  SequenceState, accept, check_stream, check_episode, is_new_episode, lifecycle, is_resume,
  is_drop_count, time_of,
}
use yunpin_ime.Replay.Sequence.Stream.{initial, accept_all, accept-cases, validate-names}

ltb_int_refl : (a : ℤ) → ltb_int a a ≡ false
ltb_int_refl a = ground (arith, compare_int-IsTotalOrder.self_eq a)

-- The events continue the session from the number `n`, and neither their monotonic clocks nor their
-- instants in UTC fall from `us` and `last` on.
abbrev pub IsNumbered : {Time : Type 0} → Platform Time → Bytes → ℕ → ℕ → Time → List Event → Type 0
IsNumbered g id n us last [] = Unit {0}
IsNumbered g id n us last (e ∷ es) =
    (e.session_id ≡ id)
    × (e.seq ≡ n + 1)
    × (us ≤ e.monotonic_us)
    × (ltb_int (g.instant (time_of g e)) (g.instant last) ≡ false)
    × IsNumbered g id (n + 1) e.monotonic_us (time_of g e) es

module _ {Time : Type 0} (g : Platform Time) where
  stream_step :
      (e : Event) (s t : SequenceState Time)
      → is_empty s.session_id ≡ false
      → s.last_seq + 1 < 2 ^ 64
      → accept g e s ≡ ok t
      → (e.session_id ≡ s.session_id)
        × (e.seq ≡ s.last_seq + 1)
        × (s.last_monotonic_us ≤ e.monotonic_us)
        × (ltb_int (g.instant (time_of g e)) (g.instant s.last_utc) ≡ false)
        × (t.session_id ≡ s.session_id)
        × (t.last_seq ≡ s.last_seq + 1)
        × (t.last_monotonic_us ≡ e.monotonic_us)
        × (t.last_utc ≡ time_of g e)
  unfolding check_stream
  stream_step e s t named room h =
      let (flags, v, c, d, l, made) = accept-cases g e s t h in
      ground (arith, same_iff e.session_id s.session_id)

  IsNumbered-at :
      (es : List Event) {id id' : Bytes} {n n' us us' : ℕ} {last last' : Time}
      → id ≡ id'
      → n ≡ n'
      → us ≡ us'
      → last ≡ last'
      → IsNumbered g id n us last es
      → IsNumbered g id' n' us' last' es
  IsNumbered-at es {id' = id'} {n = n} {n' = n'} {us = us} {us' = us'} {last = last} p q r w h =
      let one : IsNumbered g id' n us last es = subst (λ x. IsNumbered g x n us last es) p h in
      let two : IsNumbered g id' n' us last es = subst (λ x. IsNumbered g id' x us last es) q one in
      let three : IsNumbered g id' n' us' last es =
        subst (λ x. IsNumbered g id' n' x last es) r two in
      subst (λ x. IsNumbered g id' n' us' x es) w three

  IsNumbered-from :
      (es : List Event) (s t : SequenceState Time)
      → is_empty s.session_id ≡ false
      → s.last_seq + length es < 2 ^ 64
      → accept_all g es s ≡ ok t
      → IsNumbered g s.session_id s.last_seq s.last_monotonic_us s.last_utc es
        × (t.session_id ≡ s.session_id)
        × (t.last_seq ≡ s.last_seq + length es)
  unfolding accept_all
  IsNumbered-from [] s t named room h =
      let same_state : s ≡ t = ok_injective h in
      (tt, ap (λ x. x.session_id) (sym same_state), ground (arith, ap (λ x. x.last_seq) same_state))
  IsNumbered-from (e ∷ es) s t named room h =
      let (m, one, rest) = >>=-eq-ok _ _ h in
      let (id, seq, us, instant, session, last, mono, utc) =
        stream_step e s m named (omega arith) one in
      let (ns, kept, final) =
        IsNumbered-from es m t (ap is_empty session ∙ named) (omega (arith, last)) rest in
      (
        (id, seq, us, instant, IsNumbered-at es session last mono utc ns),
        kept ∙ session,
        omega (arith, last, final),
      )

  first_step :
      (zero_time : Time) (e : Event) (t : SequenceState Time)
      → accept g e (initial zero_time) ≡ ok t
      → (is_resume e.type ≡ true)
        × (e.seq ≡ 1)
        × (is_empty t.session_id ≡ false)
        × (t.session_id ≡ e.session_id)
        × (t.last_seq ≡ 1)
        × (t.last_monotonic_us ≡ e.monotonic_us)
        × (t.last_utc ≡ time_of g e)
  unfolding check_stream is_empty
  first_step zero_time e t h =
      let (flags, v, c, d, l, made) = accept-cases g e (initial zero_time) t h in
      let (named, _) = validate-names g e v in ground arith

  -- A stream of fewer than 2^64 events that is accepted from the start begins with resume, carries the
  -- numbers 1, 2, 3, … of one session, with monotonic clocks and instants in UTC that never fall from
  -- one event to the next, and leaves its length as the last number.
  pub accept_all-IsNumbered :
      (zero_time : Time) (e : Event) (es : List Event) (t : SequenceState Time)
      → length (e ∷ es) < 2 ^ 64
      → accept_all g (e ∷ es) (initial zero_time) ≡ ok t
      → (is_resume e.type ≡ true)
        × IsNumbered g e.session_id 0 0 (time_of g e) (e ∷ es)
        × (t.last_seq ≡ length (e ∷ es))
  unfolding accept_all
  accept_all-IsNumbered zero_time e es t room h =
      let (m, one, rest) = >>=-eq-ok _ _ h in
      let (starts, seq, named, session, last, mono, utc) = first_step zero_time e m one in
      let (ns, kept, final) = IsNumbered-from es m t named (omega (arith, last)) rest in
      (
        starts,
        (
          refl,
          seq,
          omega arith,
          ltb_int_refl (g.instant (time_of g e)),
          IsNumbered-at es session last mono utc ns,
        ),
        omega (arith, last, final),
      )

  left_step :
      (id : Bytes) (e : Event) (s t : SequenceState Time)
      → one_of s.seen_episodes id ≡ true
      → id ≢ s.last_episode_id
      → is_empty s.last_episode_id ≡ false
      → accept g e s ≡ ok t
      → (e.episode_id ≢ id)
        × (one_of t.seen_episodes id ≡ true)
        × (id ≢ t.last_episode_id)
        × (is_empty t.last_episode_id ≡ false)
  unfolding check_episode is_new_episode one_of
  left_step id e s t seen left entered h =
      let (flags, v, c, d, l, made) = accept-cases g e s t h in
      let (_, named) = validate-names g e v in
      ground (arith, same_iff e.episode_id s.last_episode_id, same_iff e.episode_id id)

  paused_step :
      (e : Event) (s t : SequenceState Time)
      → s.paused ≡ true
      → is_resume e.type ≡ false
      → accept g e s ≡ ok t
      → (is_drop_count e.type ≡ true) × (t.paused ≡ true)
  unfolding check_episode lifecycle
  paused_step e s t paused other h =
      let (flags, v, c, d, l, made) = accept-cases g e s t h in ground arith

  -- An episode that was left never comes back: once a seen episode is not the last one, no later
  -- accepted event carries it.
  pub left_episode_stays_left :
      (id : Bytes) (es : List Event) (s t : SequenceState Time)
      → one_of s.seen_episodes id ≡ true
      → id ≢ s.last_episode_id
      → is_empty s.last_episode_id ≡ false
      → accept_all g es s ≡ ok t
      → All (λ e. e.episode_id ≢ id) es
  unfolding accept_all
  left_episode_stays_left id [] s t seen left entered h = tt
  left_episode_stays_left id (e ∷ es) s t seen left entered h =
      let (m, one, rest) = >>=-eq-ok _ _ h in
      let (other, seen', left', entered') = left_step id e s m seen left entered one in
      (other, left_episode_stays_left id es m t seen' left' entered' rest)

  -- Until a resume arrives, a paused session accepts nothing but reports of loss and stays paused.
  pub paused_session_takes_no_input :
      (es : List Event) (s t : SequenceState Time)
      → s.paused ≡ true
      → All (λ e. is_resume e.type ≡ false) es
      → accept_all g es s ≡ ok t
      → All (λ e. is_drop_count e.type ≡ true) es × (t.paused ≡ true)
  unfolding accept_all
  paused_session_takes_no_input [] s t paused none_resumes h =
      (tt, ap (λ x. x.paused) (sym (ok_injective h)) ∙ paused)
  paused_session_takes_no_input (e ∷ es) s t paused (other, others) h =
      let (m, one, rest) = >>=-eq-ok _ _ h in
      let (lost, still) = paused_step e s m paused other one in
      let (all_lost, ends) = paused_session_takes_no_input es m t still others rest in
      ((lost, all_lost), ends)
