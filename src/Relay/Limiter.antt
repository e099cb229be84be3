-- ===== src/Relay/Limiter.antt =====
-- sync/internal/server/server.go: the limiter of requests by address. Times are nanoseconds and
-- numbers, the zero time is `none`; `Sub` saturates far outside the window.
pub mod Window
use yunpin_ime.Base.{ℕ, ◌+◌, ◌-◌, ◌*◌, Bool, true, false, ◌||◌, Option, none, some, List, [], ◌∷◌}
use yunpin_ime.Base.Tests.{ltb, leb, ◌==◌, if◌then◌else◌}
use yunpin_ime.Base.Bytes.{Bytes, same}
use yunpin_ime.Base.Map.{Entries, lookup, insert}

pub record RateEntry : Type 0 where
  pub start : ℕ
  pub count : ℕ

pub record IpLimiter : Type 0 where
  pub entries : Entries RateEntry
  pub limit : ℕ
  pub window : ℕ
  pub last_sweep : Option ℕ

-- `now.Before(t) || now.Sub(t) >= window`
abbrev pub expired : ℕ → ℕ → ℕ → Bool
expired window now t = ltb now t || leb window (now - t)

unfoldable pub sweep_entries : ℕ → ℕ → Entries RateEntry → Entries RateEntry
sweep_entries window now [] = []
sweep_entries window now ((ip, e) ∷ es) =
    let rest = sweep_entries window now es in
    if expired window now e.start then rest else (ip, e) ∷ rest

unfoldable pub sweep : ℕ → IpLimiter → IpLimiter
unfolding sweep_entries
sweep now l =
    if elim l.last_sweep [ none ↦ true | some t ↦ expired l.window now t ]
    then record l { entries = sweep_entries l.window now l.entries; last_sweep = some now }
    else l

abbrev pub start_window : Bytes → ℕ → IpLimiter → Bool × IpLimiter
start_window ip now l =
    (true, record l { entries = insert ip (record { start = now; count = 1 }) l.entries })

-- The part after the sweep.
unfoldable pub count_request : Bytes → ℕ → IpLimiter → Bool × IpLimiter
count_request ip now l = elim (lookup ip l.entries) [
  | none ↦ start_window ip now l
  | some e ↦ if expired l.window now e.start then start_window ip now l else (
    leb (e.count + 1) l.limit,
    record l { entries = insert ip (record e { count = e.count + 1 }) l.entries },
  )
]

unfoldable pub allow : Bytes → ℕ → IpLimiter → Bool × IpLimiter
allow ip now limiter = count_request ip now (sweep now limiter)
