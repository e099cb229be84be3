-- ===== src/Agent/Runner.antt =====
-- desktopagent/runner.go: the loop of the background process. A duration is a number of nanoseconds; a
-- negative one is refused as one of a nanosecond is. The exchanges of a run, and what the random source
-- draws after each, are a list that ends when the context does; the lock is free or not.
pub mod Backoff
use yunpin_ime.Base.{
  ℕ, ◌+◌, ◌-◌, ◌*◌, ◌/◌, ◌%◌, ◌^◌, Bool, true, false, not, ◌||◌, Option, none, some, List, [], ◌∷◌,
}
use yunpin_ime.Base.Tests.{ltb, ◌==◌, if◌then◌else◌}
use yunpin_ime.Base.Bytes.{Bytes, ascii}
use yunpin_ime.Base.Int.{ℤ, pos, negsuc}
use yunpin_ime.Base.Result.{Result, ok, err, ◌>>=◌, ◌>>◌, fail_if}

abbrev pub second : ℕ
second = 1000000000

pub record RunOptions : Type 0 where
  pub interval : ℕ
  pub min_backoff : ℕ
  pub max_backoff : ℕ

pub data RunError : Type 0 where
  invalid_timing : RunError
  lock_failed : RunError

abbrev or_default : ℕ → ℕ → ℕ
or_default value default = if value == 0 then default else value

unfoldable pub defaults : RunOptions → Result RunError RunOptions
defaults o =
    let interval = or_default o.interval (60 * second) in
    let least = or_default o.min_backoff (5 * second) in
    let most = or_default o.max_backoff (15 * 60 * second) in
    fail_if (ltb interval second || ltb least second || ltb most least) invalid_timing
    >> ok (record { interval = interval; min_backoff = least; max_backoff = most })

-- The quotient of an int64 by 100, from its bits.
abbrev pub percent : ℕ → ℤ
percent bits =
    if ltb bits (2 ^ 63)
    then pos (bits / 100)
    else (let n = (2 ^ 64 - bits) / 100 in if n == 0 then pos 0 else negsuc (n - 1))

-- The draw is a number below 21, or fails.
unfoldable pub jitter : ℕ → Option ℕ → ℤ
jitter duration none = pos duration
jitter duration (some value) = percent (duration * (90 + value) % 2 ^ 64)

pub record Exchange (Summary : Type 0) : Type 0 where
  pub summary : Option Summary
  pub draw : Option ℕ

-- Of a failed exchange the summary is the zero one, written `none`.
pub record RunEvent (Summary : Type 0) : Type 0 where
  pub code : Bytes
  pub successful : Bool
  pub summary : Option Summary

unfoldable pub next_backoff : RunOptions → ℕ → ℕ
next_backoff o backoff = if ltb backoff (o.max_backoff / 2) then backoff * 2 else o.max_backoff

-- One turn of the loop: what it reports, the duration of its timer, and the back-off of the next
-- failure.
unfoldable pub turn :
    {Summary : Type 0} → RunOptions → ℕ → Exchange Summary → RunEvent Summary × ℤ × ℕ
unfolding next_backoff jitter
turn o backoff e = elim e.summary [
  | none ↦ (
    record { code = ascii "sync_failed"; successful = false; summary = none },
    jitter backoff e.draw,
    next_backoff o backoff,
  )
  | some s ↦ (
    record { code = ascii "sync_complete"; successful = true; summary = some s },
    jitter o.interval e.draw,
    o.min_backoff,
  )
]

-- What every turn reports, and the duration of the timer that it then waits for.
unfoldable pub turns :
    {Summary : Type 0} → RunOptions → ℕ → List (Exchange Summary) → List (RunEvent Summary × ℤ)
unfolding turn
turns o backoff [] = []
turns o backoff (e ∷ es) =
    let (event, timer, after) = turn o backoff e in (event, timer) ∷ turns o after es

unfoldable pub run_loop :
    {Summary : Type 0}
    → Bool
    → RunOptions
    → List (Exchange Summary)
    → Result RunError (List (RunEvent Summary × ℤ))
unfolding defaults turns
run_loop free options exchanges =
    defaults options >>= λ o. fail_if (not free) lock_failed >> ok (turns o o.min_backoff exchanges)
