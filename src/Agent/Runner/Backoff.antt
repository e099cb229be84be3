-- ===== src/Agent/Runner/Backoff.antt =====
-- desktopagent/runner.go: the delays between the exchanges.
use yunpin_ime.Base.{
  ◌≡◌, ◌≤◌, ◌<◌, ◌⊎◌, refl, sym, ap, ◌∙◌, subst, arith, inl, inr, ℕ, zero, suc, ◌+◌, ◌*◌, ◌/◌, ◌%◌,
  ◌^◌, Bool, true, false, not, Option, none, some, List, [], ◌∷◌, map, ap₂,
}
use native.Mathlib.Nat.{mul-le-mul_left, mul_assoc, pow-suc}
use yunpin_ime.Base.Tests.{Bool-cases, ltb}
use yunpin_ime.Base.Lists.{All}
use yunpin_ime.Base.Int.{ℤ, pos}
use yunpin_ime.Base.Result.{ok, >>=-eq-ok, fail_if}
use yunpin_ime.Base.Ensures.{ok_injective}
use yunpin_ime.Agent.Runner.{
  RunOptions, Exchange, RunEvent, defaults, jitter, next_backoff, turn, turns, run_loop, second,
  percent, lock_failed,
}

-- Options that `defaults` gives.
pub record IsTimed (o : RunOptions) : Type 0 where
  pub interval : second ≤ o.interval
  pub least : second ≤ o.min_backoff
  pub ordered : o.min_backoff ≤ o.max_backoff

defaults-IsTimed : (o : RunOptions) {p : RunOptions} → defaults o ≡ ok p → IsTimed p
unfolding defaults
defaults-IsTimed o h = record {
  interval = ground (arith, h);
  least = ground (arith, h);
  ordered = ground (arith, h);
}

next_backoff-bounds :
    (o : RunOptions) (backoff : ℕ)
    → o.min_backoff ≤ backoff
    → backoff ≤ o.max_backoff
    → (o.min_backoff ≤ next_backoff o backoff) × (next_backoff o backoff ≤ o.max_backoff)
unfolding next_backoff
next_backoff-bounds o backoff h k = ground (arith, h, k)

timer_lem :
    (n low high : ℕ)
    → low ≤ n
    → n ≤ high
    → high < 2 ^ 63
    → (t : ℕ) × (percent (n % 2 ^ 64) ≡ pos t) × (low ≤ t * 100 + 99) × (t * 100 ≤ high)
timer_lem n low high h k l = (n / 100, ground (arith, k, l), omega (arith, h), omega (arith, k))

-- The timer of a delay of at most two years is within a tenth of it, rounded down.
pub jitter-bounds :
    (duration value : ℕ)
    → value < 21
    → duration * 110 < 2 ^ 63
    → (t : ℕ) × (jitter duration (some value) ≡ pos t)
      × (duration * 90 ≤ t * 100 + 99)
      × (t * 100 ≤ duration * 110)
unfolding jitter
jitter-bounds duration value h k =
    let n = duration * (90 + value) in
    let least : duration * 90 ≤ n = mul-le-mul_left duration (omega arith) in
    let most : n ≤ duration * 110 = mul-le-mul_left duration (omega (arith, h)) in
    timer_lem n (duration * 90) (duration * 110) least most k

-- Of n failures in a row, the next back-off.
abbrev pub after_failures : RunOptions → ℕ → ℕ → ℕ
after_failures o zero backoff = backoff
after_failures o (suc n) backoff = next_backoff o (after_failures o n backoff)

doubling :
    (o : RunOptions) (backoff doubled twice : ℕ)
    → twice ≡ doubled * 2
    → ((backoff ≡ doubled) × (doubled ≤ o.max_backoff))
      ⊎ ((backoff ≡ o.max_backoff) × (o.max_backoff ≤ doubled + 1))
    → ((next_backoff o backoff ≡ twice) × (twice ≤ o.max_backoff))
      ⊎ ((next_backoff o backoff ≡ o.max_backoff) × (o.max_backoff ≤ twice + 1))
unfolding next_backoff
doubling o backoff doubled twice e (inl (same, below)) =
    elim (Bool-cases (ltb backoff (o.max_backoff / 2))) [
      | inl small ↦ inl (ground (arith, e, same, small))
      | inr large ↦ inr (ground (arith, e, same, large))
    ]
doubling o backoff doubled twice e (inr (full, above)) = inr (ground (arith, e, full, above))

-- The back-off doubles with every failure until doubling reaches the largest one, to the nanosecond,
-- and then stays there.
pub after_failures-doubles :
    (o : RunOptions) (n : ℕ)
    → IsTimed o
    → ((after_failures o n o.min_backoff ≡ o.min_backoff * 2 ^ n)
        × (o.min_backoff * 2 ^ n ≤ o.max_backoff))
      ⊎ ((after_failures o n o.min_backoff ≡ o.max_backoff)
          × (o.max_backoff ≤ o.min_backoff * 2 ^ n + 1))
after_failures-doubles o zero h = inl (omega arith, omega (arith, h.ordered))
after_failures-doubles o (suc n) h =
    doubling o (after_failures o n o.min_backoff) (o.min_backoff * 2 ^ n)
      (o.min_backoff * 2 ^ suc n)
      (ap (λ k. o.min_backoff * k) (pow-suc 2 n) ∙ sym (mul_assoc o.min_backoff (2 ^ n) 2))
      (after_failures-doubles o n h)

-- The timer is within a tenth of the delay, rounded down to the nanosecond.
abbrev pub IsNear : ℕ → ℤ → Type 0
IsNear delay timer =
    (t : ℕ) × (timer ≡ pos t) × (delay * 90 ≤ t * 100 + 99) × (t * 100 ≤ delay * 110)

-- The random source fails, or draws a number below 21.
abbrev pub IsDraw : Option ℕ → Type 0
IsDraw none = Unit {0}
IsDraw (some value) = value < 21

jitter-IsNear :
    (duration : ℕ) (draw : Option ℕ)
    → IsDraw draw
    → duration * 110 < 2 ^ 63
    → IsNear duration (jitter duration draw)
unfolding jitter
jitter-IsNear duration none h k = (duration, refl, omega arith, omega arith)
jitter-IsNear duration (some value) h k = jitter-bounds duration value h k

turn-summary :
    {Summary : Type 0} (o : RunOptions) (backoff : ℕ) (e : Exchange Summary)
    (outcome : Option Summary)
    → e.summary ≡ outcome
    → (turn o backoff e).0.summary ≡ e.summary
unfolding turn
turn-summary o backoff e none s = rw s refl
turn-summary o backoff e (some summary) s = rw s refl

-- What a turn waits for.
abbrev pub IsDelayed : {Summary : Type 0} → RunOptions → RunEvent Summary × ℤ → Type 0
IsDelayed o (e, timer) =
    (e.successful ≡ true → IsNear o.interval timer)
    × (e.successful ≡ false
        → (delay : ℕ) × (o.min_backoff ≤ delay) × (delay ≤ o.max_backoff) × IsNear delay timer)

module _ {Summary : Type 0} (o : RunOptions) (timed : IsTimed o) (short : o.interval * 110 < 2 ^ 63)
    (bounded : o.max_backoff * 110 < 2 ^ 63) where
  turn-IsDelayed :
      (backoff : ℕ) (e : Exchange Summary) (outcome : Option Summary)
      → e.summary ≡ outcome
      → IsDraw e.draw
      → o.min_backoff ≤ backoff
      → backoff ≤ o.max_backoff
      → IsDelayed o ((turn o backoff e).0, (turn o backoff e).1)
        × (o.min_backoff ≤ (turn o backoff e).2)
        × ((turn o backoff e).2 ≤ o.max_backoff)
  unfolding turn
  turn-IsDelayed backoff e none s d h k =
      let (least, most) = next_backoff-bounds o backoff h k in
      let near = jitter-IsNear backoff e.draw d (omega (arith, k, bounded)) in
      rw s (((λ c. cc), λ c. (backoff, h, k, near)), least, most)
  turn-IsDelayed backoff e (some summary) s d h k =
      let near = jitter-IsNear o.interval e.draw d short in
      rw s (((λ c. near), λ c. cc), omega arith, timed.ordered)

  turns-IsDelayed :
      (backoff : ℕ) (exchanges : List (Exchange Summary))
      → All (λ e. IsDraw e.draw) exchanges
      → o.min_backoff ≤ backoff
      → backoff ≤ o.max_backoff
      → All (IsDelayed o) (turns o backoff exchanges)
        × (map (λ w. w.0.summary) (turns o backoff exchanges) ≡ map (λ e. e.summary) exchanges)
  unfolding turns
  turns-IsDelayed backoff [] ds h k = (tt, refl)
  turns-IsDelayed backoff (e ∷ es) (d, ds) h k =
      let (delayed, least, most) = turn-IsDelayed backoff e e.summary refl d h k in
      let (rest, reported) = turns-IsDelayed (turn o backoff e).2 es ds least most in
      ((delayed, rest), ap₂ (λ a b. a ∷ b) (turn-summary o backoff e e.summary refl) reported)

-- A run under valid timing, whose interval and largest back-off are at most two years, reports every
-- exchange in order. After a successful one its timer is within a tenth of the interval, and after a
-- failed one within a tenth of a delay between the smallest and the largest back-off.
pub run_loop-IsDelayed :
    {Summary : Type 0} (free : Bool) (options o : RunOptions) (exchanges : List (Exchange Summary))
    {waits : List (RunEvent Summary × ℤ)}
    → defaults options ≡ ok o
    → o.interval * 110 < 2 ^ 63
    → o.max_backoff * 110 < 2 ^ 63
    → All (λ e. IsDraw e.draw) exchanges
    → run_loop free options exchanges ≡ ok waits
    → All (IsDelayed o) waits × (map (λ w. w.0.summary) waits ≡ map (λ e. e.summary) exchanges)
unfolding run_loop
run_loop-IsDelayed free options o exchanges {waits} timed short bounded draws h =
    let (p, timed', rest) = >>=-eq-ok (defaults options) _ h in
    let (_, _, made) = >>=-eq-ok (fail_if (not free) lock_failed) _ rest in
    let one : p ≡ o = ok_injective (sym timed' ∙ timed) in
    let valid = defaults-IsTimed options timed in
    let all =
      turns-IsDelayed o valid short bounded o.min_backoff exchanges draws (omega arith)
        valid.ordered in
    subst (λ w. All (IsDelayed o) w × (map (λ w. w.0.summary) w ≡ map (λ e. e.summary) exchanges))
      (ap (λ q. turns q q.min_backoff exchanges) (sym one) ∙ ok_injective made) all
