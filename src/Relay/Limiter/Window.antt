-- ===== src/Relay/Limiter/Window.antt =====
-- The bound that the limiter keeps within one window.
use yunpin_ime.Base.{
  min, ◌&&◌, ◌∙◌, ◌≡◌, ◌≤◌, ◌<◌, arith, sym, subst, inl, inr, ℕ, ◌+◌, ◌-◌, true, false, some, List,
  [], ◌∷◌,
}
use yunpin_ime.Base.Tests.{Bool-cases, Option-cases, leb, if◌then◌else◌}
use yunpin_ime.Base.Lists.{All}
use yunpin_ime.Base.Bytes.{Bytes, same, same_iff}
use yunpin_ime.Base.Map.{Entries, lookup, lookup-insert}
use yunpin_ime.Relay.Limiter.{
  RateEntry, IpLimiter, expired, sweep_entries, sweep, count_request, allow,
}

-- The requests of all addresses, one after the other, and how many of one address pass.
unfoldable pub passed : Bytes → List (Bytes × ℕ) → IpLimiter → ℕ
passed ip [] l = 0
passed ip ((from, now) ∷ requests) l =
    let rest = passed ip requests (allow from now l).1 in
    (if same from ip && (allow from now l).0 then 1 else 0) + rest

abbrev pub requests_of : Bytes → List (Bytes × ℕ) → ℕ
requests_of ip [] = 0
requests_of ip ((from, now) ∷ requests) = (if same from ip then 1 else 0) + requests_of ip requests

-- The address has an open window.
abbrev pub Counted : Bytes → ℕ → ℕ → IpLimiter → Type 0
Counted ip start count l = lookup ip l.entries ≡ some (record { start = start; count = count })

lookup-sweep :
    (ip : Bytes) (window now : ℕ) (es : Entries RateEntry) (e : RateEntry)
    → lookup ip es ≡ some e
    → expired window now e.start ≡ false
    → lookup ip (sweep_entries window now es) ≡ some e
unfolding lookup sweep_entries
lookup-sweep ip window now [] e h k = cc
lookup-sweep ip window now ((j, x) ∷ es) e h k = ground (arith, lookup-sweep ip window now es e)

swept :
    (ip : Bytes) (start count now : ℕ) (l : IpLimiter)
    → Counted ip start count l
    → start ≤ now
    → now < start + l.window
    → Counted ip start count (sweep now l)
      × ((sweep now l).limit ≡ l.limit)
      × ((sweep now l).window ≡ l.window)
unfolding sweep
swept ip start count now l c lower upper =
    ground
      (arith, lookup-sweep ip l.window now l.entries (record { start = start; count = count }) c)

count_step :
    (ip from : Bytes) (start count now : ℕ) (l : IpLimiter)
    → Counted ip start count l
    → start ≤ now
    → now < start + l.window
    → ((count_request from now l).1.limit ≡ l.limit)
      × ((count_request from now l).1.window ≡ l.window)
      × (same from ip ≡ true
          → ((count_request from now l).0 ≡ leb (count + 1) l.limit)
            × Counted ip start (count + 1) (count_request from now l).1)
      × (same from ip ≡ false → Counted ip start count (count_request from now l).1)
unfolding count_request
count_step ip from start count now l c lower upper = elim (Option-cases (lookup from l.entries)) [
  | inl missing ↦
      ground (
        arith,
        same_iff from ip,
        lookup-insert from ip (record { start = now; count = 1 }) l.entries,
      )
  | inr (e, found) ↦ ground (
    arith,
    same_iff from ip,
    lookup-insert from ip (record { start = now; count = 1 }) l.entries,
    lookup-insert from ip (record e { count = e.count + 1 }) l.entries,
  )
]

allow_step :
    (ip from : Bytes) (start count now : ℕ) (l : IpLimiter)
    → Counted ip start count l
    → start ≤ now
    → now < start + l.window
    → ((allow from now l).1.limit ≡ l.limit)
      × ((allow from now l).1.window ≡ l.window)
      × (same from ip ≡ true
          → ((allow from now l).0 ≡ leb (count + 1) l.limit)
            × Counted ip start (count + 1) (allow from now l).1)
      × (same from ip ≡ false → Counted ip start count (allow from now l).1)
unfolding allow
allow_step ip from start count now l c lower upper =
    let (counted, limit, window) = swept ip start count now l c lower upper in
    let (limit', window', own, others) =
      count_step ip from start count now (sweep now l) counted lower
        (omega (arith, window, upper)) in
    (limit' ∙ limit, window' ∙ window, λ e. (ground (arith, own e), (own e).1), others)

within :
    (start window window' : ℕ)
    → window ≡ window'
    → (requests : List (Bytes × ℕ)) → All (λ r. (start ≤ r.1) × (r.1 < start + window)) requests
    → All (λ r. (start ≤ r.1) × (r.1 < start + window')) requests
within start window window' e requests h =
    subst (λ w. All (λ r. (start ≤ r.1) × (r.1 < start + w)) requests) e h

-- Where an address has an open window with `count` requests, then of its further requests in that
-- window, among any requests of other addresses, exactly the first `limit - count` pass.
pub passed_in_window :
    (ip : Bytes) (start count : ℕ) (requests : List (Bytes × ℕ)) (l : IpLimiter)
    → Counted ip start count l
    → All (λ r. (start ≤ r.1) × (r.1 < start + l.window)) requests
    → passed ip requests l ≡ min (requests_of ip requests) (l.limit - count)
unfolding passed
passed_in_window ip start count [] l c h = ground arith
passed_in_window ip start count ((from, now) ∷ requests) l c ((lower, upper), h) =
    let (limit, window, own, others) = allow_step ip from start count now l c lower upper in
    let l' : IpLimiter = (allow from now l).1 in
    elim (Bool-cases (same from ip)) [
      | inl e ↦
          (let rest =
              passed_in_window ip start (count + 1) requests l' (own e).1
                (within start l.window l'.window (sym window) requests h) in
            ground (arith, own e))
      | inr e ↦
          (let rest =
              passed_in_window ip start count requests l' (others e)
                (within start l.window l'.window (sym window) requests h) in
            ground arith)
    ]
