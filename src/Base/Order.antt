-- ===== src/Base/Order.antt =====
-- Lawful comparisons, their lexicographic product, and the larger of two values by one.
use Prim.Native.Nat.{compare, Ordering}
use Prim.Native.Nat.Ordering.{lt, eq, gt}
use mathlib.Core.Path.{◌≡◌, refl, sym}
use mathlib.Core.Logic.{◌≢◌, ◌⊎◌, inl, inr}
use native.Mathlib.Omega.{arith}

-- `compare_by` is a total order: transitive, turned over by swapping, and `eq` exactly on equals.
pub record IsTotalOrder {ℓ} {V : Type ℓ} (compare_by : V → V → Ordering) : Type ℓ where
  pub chain_lt : (x y z : V) → compare_by x y ≡ lt → compare_by y z ≡ lt → compare_by x z ≡ lt
  pub swap_lt : (x y : V) → compare_by x y ≡ lt → compare_by y x ≡ gt
  pub swap_gt : (x y : V) → compare_by x y ≡ gt → compare_by y x ≡ lt
  pub eq_same : (x y : V) → compare_by x y ≡ eq → x ≡ y
  pub self_eq : (x : V) → compare_by x x ≡ eq

pub compare-IsTotalOrder : IsTotalOrder compare
compare-IsTotalOrder = ground arith

pub Ordering-cases : (o : Ordering) → (o ≡ lt) ⊎ (o ≡ eq) ⊎ (o ≡ gt)
Ordering-cases lt = inl refl
Ordering-cases eq = inr (inl refl)
Ordering-cases gt = inr (inr refl)

abbrev pub then : Ordering → Ordering → Ordering
then eq second = second
then lt second = lt
then gt second = gt

-- Compare by a first key, then by a second one.
module _ {ℓ κ} {A : Type ℓ} {B : Type κ} where
  abbrev pub lex : (A → A → Ordering) → (B → B → Ordering) → A × B → A × B → Ordering
  lex f g x y = then (f x.0 y.0) (g x.1 y.1)

  pub lex-IsTotalOrder :
      (f : A → A → Ordering) (g : B → B → Ordering)
      → IsTotalOrder f
      → IsTotalOrder g
      → IsTotalOrder (lex f g)
  lex-IsTotalOrder f g a b = record {
    chain_lt = λ x y z. grind (arith, a.eq_same x.0 y.0, a.eq_same y.0 z.0, a.chain_lt, b.chain_lt);
    swap_lt = λ x y.
        ground (arith, a.self_eq x.0, a.eq_same x.0 y.0, a.swap_lt x.0 y.0, b.swap_lt x.1 y.1);
    swap_gt = λ x y.
        ground (arith, a.self_eq x.0, a.eq_same x.0 y.0, a.swap_gt x.0 y.0, b.swap_gt x.1 y.1);
    eq_same = λ x y. ground (arith, b.eq_same x.1 y.1, a.eq_same x.0 y.0);
    self_eq = λ x. simp (a.self_eq, b.self_eq);
  }

  -- Compare by a key that determines the value.
  abbrev pub on : (B → B → Ordering) → (A → B) → A → A → Ordering
  on g key x y = g (key x) (key y)

  pub on-IsTotalOrder :
      (g : B → B → Ordering) (key : A → B)
      → ((x y : A) → key x ≡ key y → x ≡ y)
      → IsTotalOrder g
      → IsTotalOrder (on g key)
  on-IsTotalOrder g key inj l = record {
    self_eq = λ x. l.self_eq (key x);
    eq_same = λ x y e. inj x y (l.eq_same (key x) (key y) e);
    swap_gt = λ x y. l.swap_gt (key x) (key y);
    swap_lt = λ x y. l.swap_lt (key x) (key y);
    chain_lt = λ x y z. l.chain_lt (key x) (key y) (key z);
  }

module _ {ℓ} {K : Type ℓ} where
  abbrev pub flipped : (K → K → Ordering) → K → K → Ordering
  flipped f x y = f y x

  pub flipped-IsTotalOrder : (f : K → K → Ordering) → IsTotalOrder f → IsTotalOrder (flipped f)
  flipped-IsTotalOrder f l = record {
    self_eq = l.self_eq;
    eq_same = λ x y e. sym (l.eq_same y x e);
    swap_gt = λ x y. l.swap_gt y x;
    swap_lt = λ x y. l.swap_lt y x;
    chain_lt = λ x y z p q. l.chain_lt z y x q p;
  }

  -- The larger of two values; the left one where they compare equal.
  abbrev pub pick : (K → K → Ordering) → K → K → K
  pick f x y = elim (f x y) [ lt ↦ y | _ ↦ x ]

  module _ (f : K → K → Ordering) (l : IsTotalOrder f) where
    pub pick_idem : (x : K) → pick f x x ≡ x
    pick_idem x = ground (arith, l.self_eq x)

    pub pick_comm : (x y : K) → pick f x y ≡ pick f y x
    pick_comm x y = ground (arith, l.eq_same x y, l.swap_gt x y, l.swap_lt x y)

    pub pick_assoc : (x y z : K) → pick f (pick f x y) z ≡ pick f x (pick f y z)
    pick_assoc x y z = grind (
      arith,
      l.eq_same x y,
      l.eq_same y z,
      l.swap_gt x y,
      l.swap_gt y z,
      l.chain_lt x y z,
      l.chain_lt z y x,
      l.swap_lt x z,
      l.swap_gt x z,
    )

    -- Neither value compares above the one picked.
    pub pick_upper : (x y : K) → (f (pick f x y) x ≢ lt) × (f (pick f x y) y ≢ lt)
    pick_upper x y = grind (arith, l.self_eq, l.swap_lt x y)
