-- ===== src/Protocol/Crdt/Counts.antt =====
-- What the counter loop of `MergePhrase` leaves under each device.
use yunpin_ime.Base.{ℕ, ◌≡◌, [], ◌∷◌, arith, max, ap}
use yunpin_ime.Base.Tests.{if◌then◌else◌, ltb}
use yunpin_ime.Base.Bytes.{Bytes, same, same_iff}
use yunpin_ime.Base.Map.{
  Entries, IsMap, lookup, insert, count_at, lookup-insert, insert-IsMap, lookup_absent,
}
use yunpin_ime.Protocol.Crdt.{raise_counts}

count_at-insert :
    (k j : Bytes) (n : ℕ) (m : Entries ℕ)
    → count_at (insert k n m) j ≡ (if same k j then n else count_at m j)
count_at-insert k j n m = ground (arith, lookup-insert k j n m)

abbrev raise_one : Entries ℕ → Bytes → ℕ → Entries ℕ
raise_one m k n = if ltb (count_at m k) n then insert k n m else m

count_at-raise_one :
    (m : Entries ℕ) (k : Bytes) (n : ℕ) (d : Bytes)
    → count_at (raise_one m k n) d ≡ (if same k d then max (count_at m d) n else count_at m d)
count_at-raise_one m k n d =
    ground (arith, count_at-insert k d n m, same_iff k d, ap (count_at m) {x = k} {y = d})

-- Each counter becomes the larger of the two, 0 standing for a missing one.
pub count_at-raise_counts :
    (m xs : Entries ℕ) (d : Bytes)
    → IsMap xs
    → count_at (raise_counts m xs) d ≡ max (count_at m d) (count_at xs d)
unfolding raise_counts lookup
count_at-raise_counts m [] d h = omega arith
count_at-raise_counts m ((k, n) ∷ xs) d h = ground (
  arith,
  count_at-raise_one m k n d,
  count_at-raise_counts (raise_one m k n) xs d h.1,
  lookup_absent d xs,
  same_iff k d,
)

pub raise_counts-IsMap : (m xs : Entries ℕ) → IsMap m → IsMap (raise_counts m xs)
unfolding raise_counts
raise_counts-IsMap m [] h = h
raise_counts-IsMap m ((k, n) ∷ xs) h =
    raise_counts-IsMap (if ltb (count_at m k) n then insert k n m else m) xs
      (ground (arith, insert-IsMap k n m))
