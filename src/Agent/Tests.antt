-- ===== src/Agent/Tests.antt =====
-- Runs of the background loop: a success between failures, with draws.
use yunpin_ime.Base.{
  ◌≡◌, ◌≤◌, ◌⊎◌, refl, arith, ℕ, ◌+◌, ◌*◌, ◌^◌, true, false, none, some, List, [], ◌∷◌, map,
}
use yunpin_ime.Base.Lists.{All}
use yunpin_ime.Base.Bytes.{ascii}
use yunpin_ime.Base.Int.{ℤ, pos}
use yunpin_ime.Base.Result.{ok}
use yunpin_ime.Agent.Runner.{RunOptions, Exchange, RunEvent, defaults, run_loop, second}
use yunpin_ime.Agent.Runner.Backoff.{
  IsTimed, IsDelayed, after_failures, after_failures-doubles, run_loop-IsDelayed,
}

abbrev options : RunOptions
options = record { interval = 0; min_backoff = 2 * second; max_backoff = 7 * second }

abbrev settled : RunOptions
settled = record { interval = 60 * second; min_backoff = 2 * second; max_backoff = 7 * second }

abbrev exchanges : List (Exchange ℕ)
exchanges =
    record { summary = none; draw = none }
    ∷ record { summary = none; draw = some 20 }
    ∷ record { summary = some 3; draw = some 0 }
    ∷ []

abbrev failed : RunEvent ℕ
failed = record { code = ascii "sync_failed"; successful = false; summary = none }

abbrev waits : List (RunEvent ℕ × ℤ)
waits =
    (failed, pos (2 * second))
    ∷ (failed, pos 4400000000)
    ∷ (
      record { code = ascii "sync_complete"; successful = true; summary = some 3 },
      pos (54 * second),
    )
    ∷ []

run : run_loop true options exchanges ≡ ok waits
unfolding run_loop
run = refl

timed_run : defaults options ≡ ok settled
unfolding defaults
timed_run = refl

run_loop-IsDelayed_example :
    All (IsDelayed settled) waits × (map (λ w. w.0.summary) waits ≡ map (λ e. e.summary) exchanges)
run_loop-IsDelayed_example =
    run_loop-IsDelayed true options settled exchanges timed_run (ground arith) (ground arith)
      (tt, (ground arith, (ground arith, tt))) run

settled-IsTimed : IsTimed settled
settled-IsTimed = record { interval = ground arith; least = ground arith; ordered = ground arith }

after_failures-doubles_example :
    ((after_failures settled 2 (2 * second) ≡ 2 * second * 2 ^ 2)
      × (2 * second * 2 ^ 2 ≤ 7 * second))
    ⊎ ((after_failures settled 2 (2 * second) ≡ 7 * second) × (7 * second ≤ 2 * second * 2 ^ 2 + 1))
after_failures-doubles_example = after_failures-doubles settled 2 settled-IsTimed
