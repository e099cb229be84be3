-- ===== src/LocalStore/Phrase/Totals.antt =====
-- `totalCounts`: the sum of the counters, cut at the largest `uint64`, in whatever order Go visits
-- the map.
use yunpin_ime.Base.{ℕ, ◌+◌, ◌≤◌, ◌%◌, ◌^◌, ◌≡◌, min, Option, [], ◌∷◌, arith}
use yunpin_ime.Base.Tests.{ltb, if◌then◌else◌}
use yunpin_ime.Base.Lists.{All}
use yunpin_ime.Base.Bytes.{Bytes}
use yunpin_ime.Base.Map.{Entries, insert, lookup, count_at}
use yunpin_ime.Protocol.Crdt.{entries, raise_counts}
use yunpin_ime.LocalStore.Phrase.{max_uint64, total_from, total_counts}

abbrev pub sum_counts : Entries ℕ → ℕ
sum_counts [] = 0
sum_counts ((device, count) ∷ rest) = count + sum_counts rest

-- Every counter is a `uint64`.
abbrev pub AreUint64 : Entries ℕ → Type 0
AreUint64 = All (λ e. e.1 ≤ max_uint64)

total_from-min :
    (total : ℕ) (m : Entries ℕ)
    → total ≤ max_uint64
    → AreUint64 m
    → total_from total m ≡ min (total + sum_counts m) max_uint64
unfolding total_from
total_from-min total [] h k = omega arith
total_from-min total ((d, c) ∷ m) h k = ground (arith, total_from-min ((total + c) % 2 ^ 64) m)

-- The total of `uint64` counters saturates: it is the sum of the counters or, past it, the largest `uint64`.
pub total_counts-min :
    (counts : Option (Entries ℕ))
    → AreUint64 (entries counts)
    → total_counts counts ≡ min (sum_counts (entries counts)) max_uint64
unfolding total_counts
total_counts-min counts h = omega (arith, total_from-min 0 (entries counts) (omega arith) h)

-- Raising one counter raises the sum by as much.
pub sum_counts-insert :
    (k : Bytes) (n : ℕ) (m : Entries ℕ)
    → sum_counts (insert k (count_at m k + n) m) ≡ sum_counts m + n
unfolding insert lookup
sum_counts-insert k n [] = ground arith
sum_counts-insert k n ((j, c) ∷ m) = ground (arith, sum_counts-insert k n m)

pub count_at-le-sum : (k : Bytes) (m : Entries ℕ) → count_at m k ≤ sum_counts m
unfolding lookup
count_at-le-sum k [] = omega arith
count_at-le-sum k ((j, c) ∷ m) = ground (arith, count_at-le-sum k m)

pub insert-AreUint64 :
    (k : Bytes) (n : ℕ) (m : Entries ℕ) → n ≤ max_uint64 → AreUint64 m → AreUint64 (insert k n m)
unfolding insert
insert-AreUint64 k n [] h g = (h, tt)
insert-AreUint64 k n ((j, c) ∷ m) h g = ground (arith, insert-AreUint64 k n m)

pub count_at-sized : (k : Bytes) (m : Entries ℕ) → AreUint64 m → count_at m k ≤ max_uint64
unfolding lookup
count_at-sized k [] h = omega arith
count_at-sized k ((j, c) ∷ m) h = ground (arith, count_at-sized k m)

pub raise_counts-AreUint64 :
    (m xs : Entries ℕ) → AreUint64 m → AreUint64 xs → AreUint64 (raise_counts m xs)
unfolding raise_counts
raise_counts-AreUint64 m [] h k = h
raise_counts-AreUint64 m ((d, c) ∷ xs) h k =
    raise_counts-AreUint64 (if ltb (count_at m d) c then insert d c m else m) xs
      (ground (arith, insert-AreUint64 d c m)) k.1
