-- ===== src/Base/Ensures.antt =====
-- Invariants and postconditions of actions, one rule for each way to build an action.
use mathlib.Core.Path.{◌≡◌, refl, subst}
use mathlib.Core.Bool.{Bool, true, false}
use yunpin_ime.Base.Tests.{if◌then◌else◌}
use yunpin_ime.Base.Result.{Result, ok, err}
use yunpin_ime.Base.Exec.{Exec, ◌>>=◌, pure, lift, continue, modify}

-- `m` keeps `P`, whether it fails or not, and a value that it returns has `Q`.
pub record Ensures {ℓ} {S E A : Type ℓ} (P : S → Type ℓ) (Q : A → Type ℓ) (m : Exec S E A)
    : Type ℓ where
  pub kept : (s : S) → P s → P (m s).1
  pub returned : (s : S) → P s → (a : A) → (m s).0 ≡ ok a → Q a

pub ok_injective {ℓ} : {E A : Type ℓ} {a b : A} → ◌≡◌ {A = Result E A} (ok a) (ok b) → a ≡ b
ok_injective e = cc

module _ {ℓ} {S E A : Type ℓ} {P : S → Type ℓ} where
  pub Ensures-lift :
      (Q : A → Type ℓ) (r : Result E A) → ((a : A) → r ≡ ok a → Q a) → Ensures P Q (lift {S = S} r)
  Ensures-lift Q r q = record { kept = λ s h. h; returned = λ s h a e. q a e }

  pub Ensures-pure : (Q : A → Type ℓ) (a : A) → Q a → Ensures P Q (pure {S = S} {E = E} a)
  Ensures-pure Q a q = record {
    kept = λ s h. h;
    returned = λ s h b e. subst Q (ok_injective {E = E} e) q;
  }

module _ {ℓ} {S E A : Type ℓ} {P : S → Type ℓ} where
  pub Ensures-if :
      (Q : A → Type ℓ) (b : Bool) (m n : Exec S E A)
      → Ensures P Q m
      → Ensures P Q n
      → Ensures P Q (if b then m else n)
  Ensures-if Q true m n h k = h
  Ensures-if Q false m n h k = k

module _ {ℓ} {S E A B : Type ℓ} {P : S → Type ℓ} where
  kept_on :
      (Q : A → Type ℓ) (R : B → Type ℓ) (f : A → Exec S E B)
      → ((a : A) → Q a → Ensures P R (f a))
      → (r : Result E A) (t : S) → P t
      → ((a : A) → r ≡ ok a → Q a)
      → P (continue r f t).1
  kept_on Q R f g (ok a) t h q = (g a (q a refl)).kept t h
  kept_on Q R f g (err e) t h q = h

  returned_on :
      (Q : A → Type ℓ) (R : B → Type ℓ) (f : A → Exec S E B)
      → ((a : A) → Q a → Ensures P R (f a))
      → (r : Result E A) (t : S) → P t
      → ((a : A) → r ≡ ok a → Q a)
      → (b : B) → (continue r f t).0 ≡ ok b
      → R b
  returned_on Q R f g (ok a) t h q b x = (g a (q a refl)).returned t h b x
  returned_on Q R f g (err e) t h q b x = cc

  pub Ensures-bind :
      (Q : A → Type ℓ) (R : B → Type ℓ) (m : Exec S E A) (f : A → Exec S E B)
      → Ensures P Q m
      → ((a : A) → Q a → Ensures P R (f a))
      → Ensures P R (m >>= f)
  Ensures-bind Q R m f k g = record {
    kept = λ s h. kept_on Q R f g (m s).0 (m s).1 (k.kept s h) (k.returned s h);
    returned = λ s h. returned_on Q R f g (m s).0 (m s).1 (k.kept s h) (k.returned s h);
  }

module _ {S E : Type 0} {P : S → Type 0} where
  pub Ensures-modify :
      (f : S → S) → ((s : S) → P s → P (f s)) → Ensures P (λ _. Unit {0}) (modify {E = E} f)
  Ensures-modify f k = record { kept = k; returned = λ s h a e. tt }
