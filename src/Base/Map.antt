-- ===== src/Base/Map.antt =====
-- Go maps with string keys, as association lists. `IsMap` says that no key stands twice.
use Prim.Native.Nat.{ℕ}
use mathlib.Core.Path.{◌≡◌, refl}
use mathlib.Core.Bool.{Bool, true, false, ◌||◌}
use mathlib.Core.Option.{Option, none, some}
use mathlib.Core.List.{List, [], ◌∷◌}
use native.Mathlib.Omega.{arith}
use yunpin_ime.Base.Tests.{if◌then◌else◌}
use yunpin_ime.Base.Bytes.{Bytes, same, same_iff}

abbrev pub Entries {ℓ} : Type ℓ → Type ℓ
Entries V = List (Bytes × V)

module _ {ℓ} {V : Type ℓ} where
  unfoldable pub lookup : Bytes → Entries V → Option V
  lookup k [] = none
  lookup k ((j, v) ∷ m) = if same j k then some v else lookup k m

  -- m[k] = v
  unfoldable pub insert : Bytes → V → Entries V → Entries V
  insert k v [] = (k, v) ∷ []
  insert k v ((j, w) ∷ m) = if same j k then (j, v) ∷ m else (j, w) ∷ insert k v m

  -- delete(m, k)
  unfoldable pub delete : Bytes → Entries V → Entries V
  delete k [] = []
  delete k ((j, w) ∷ m) = let rest = delete k m in if same j k then rest else (j, w) ∷ rest

  -- _, found := m[k]
  unfoldable pub has : Bytes → Entries V → Bool
  has k [] = false
  has k ((j, w) ∷ m) = same j k || has k m

  abbrev pub IsMap : Entries V → Type 0
  IsMap [] = Unit
  IsMap ((j, w) ∷ m) = (has j m ≡ false) × IsMap m

  pub lookup-insert :
      (k j : Bytes) (v : V) (m : Entries V)
      → lookup j (insert k v m) ≡ (if same k j then some v else lookup j m)
  unfolding lookup insert
  lookup-insert k j v [] = refl
  lookup-insert k j v ((i, w) ∷ m) =
      ground (arith, same_iff i k, same_iff i j, same_iff k j, lookup-insert k j v m)

  pub lookup-delete :
      (k j : Bytes) (m : Entries V)
      → lookup j (delete k m) ≡ (if same k j then none else lookup j m)
  unfolding lookup delete
  lookup-delete k j [] = ground arith
  lookup-delete k j ((i, w) ∷ m) =
      ground (arith, same_iff i k, same_iff i j, same_iff k j, lookup-delete k j m)

  pub has-insert :
      (k j : Bytes) (v : V) (m : Entries V) → has j (insert k v m) ≡ (same k j || has j m)
  unfolding has insert
  has-insert k j v [] = refl
  has-insert k j v ((i, w) ∷ m) =
      ground (arith, same_iff i k, same_iff i j, same_iff k j, has-insert k j v m)

  pub lookup_absent : (k : Bytes) (m : Entries V) → has k m ≡ false → lookup k m ≡ none
  unfolding has lookup
  lookup_absent k [] h = refl
  lookup_absent k ((i, w) ∷ m) h = ground (arith, lookup_absent k m)

  pub has-lookup : (k : Bytes) (v : V) (m : Entries V) → lookup k m ≡ some v → has k m ≡ true
  unfolding has lookup
  has-lookup k v [] h = cc
  has-lookup k v ((i, w) ∷ m) h = ground (arith, has-lookup k v m)

  pub insert-IsMap : (k : Bytes) (v : V) (m : Entries V) → IsMap m → IsMap (insert k v m)
  unfolding insert has
  insert-IsMap k v [] h = (refl, tt)
  insert-IsMap k v ((i, w) ∷ m) h =
      ground (arith, insert-IsMap k v m, has-insert k i v m, same_iff i k, same_iff k i, h)

  pub has-delete :
      (k j : Bytes) (m : Entries V) → has j (delete k m) ≡ (if same k j then false else has j m)
  unfolding has delete
  has-delete k j [] = ground arith
  has-delete k j ((i, w) ∷ m) =
      ground (arith, same_iff i k, same_iff i j, same_iff k j, has-delete k j m)

  pub delete-IsMap : (k : Bytes) (m : Entries V) → IsMap m → IsMap (delete k m)
  unfolding delete
  delete-IsMap k [] h = tt
  delete-IsMap k ((i, w) ∷ m) h = ground (arith, delete-IsMap k m, has-delete k i m)

-- m[k] of a map to numbers, 0 where the key is missing.
abbrev pub count_at : Entries ℕ → Bytes → ℕ
count_at m k = elim (lookup k m) [ none ↦ 0 | some n ↦ n ]
