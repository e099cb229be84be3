-- ===== src/Base/Semilattice.antt =====
-- Joins that ignore order, grouping and repetition, and their folds over a list.
use mathlib.Core.Path.{◌≡◌, refl, sym, ◌∙◌}
use mathlib.Core.List.{List, [], ◌∷◌}

pub record IsSemilattice {ℓ} {A : Type ℓ} (join : A → A → A) : Type ℓ where
  pub idem : (x : A) → join x x ≡ x
  pub comm : (x y : A) → join x y ≡ join y x
  pub assoc : (x y z : A) → join (join x y) z ≡ join x (join y z)

-- `x` stands in the list.
pub data In {ℓ} {A : Type ℓ} (x : A) : List A → Type ℓ where
  first : {y : A} {ys : List A} → x ≡ y → In x (y ∷ ys)
  later : {y : A} {ys : List A} → In x ys → In x (y ∷ ys)

abbrev pub join_all {ℓ} : {A : Type ℓ} → (A → A → A) → A → List A → A
join_all join a [] = a
join_all join a (x ∷ xs) = join_all join (join a x) xs

module _ {ℓ} {A : Type ℓ} (join : A → A → A) (l : IsSemilattice join) where
  abbrev Below : A → A → Type ℓ
  Below x y = join x y ≡ y

  Below-trans : (x y z : A) → Below x y → Below y z → Below x z
  Below-trans x y z p q = cc (l.assoc x y z)

  left-Below : (x y : A) → Below x (join x y)
  left-Below x y = cc (l.assoc x x y, l.idem x)

  right-Below : (x y : A) → Below y (join x y)
  right-Below x y = cc (l.assoc y y x, l.idem y, l.comm x y)

  join-Below : (x y z : A) → Below x z → Below y z → Below (join x y) z
  join-Below x y z p q = cc (l.assoc x y z)

  start-Below : (a : A) (xs : List A) → Below a (join_all join a xs)
  start-Below a [] = l.idem a
  start-Below a (x ∷ xs) = Below-trans a (join a x) _ (left-Below a x) (start-Below (join a x) xs)

  member-Below : (a x : A) (xs : List A) → In x xs → Below x (join_all join a xs)
  member-Below a x [] h = elim h [ ]
  member-Below a x (y ∷ ys) (first e) =
      rw e (Below-trans y (join a y) _ (right-Below a y) (start-Below (join a y) ys))
  member-Below a x (y ∷ ys) (later h) = member-Below (join a y) x ys h

  all-Below :
      (a u : A) (xs : List A)
      → Below a u
      → ((x : A) → In x xs → Below x u)
      → Below (join_all join a xs) u
  all-Below a u [] h k = h
  all-Below a u (x ∷ xs) h k =
      all-Below (join a x) u xs (join-Below a x u h (k x (first refl))) (λ y m. k y (later m))

  -- The join of a list depends on which values stand in it, not on their order or number.
  pub join_all_same :
      (a : A) (xs ys : List A)
      → ((x : A) → In x xs → In x ys)
      → ((x : A) → In x ys → In x xs)
      → join_all join a xs ≡ join_all join a ys
  join_all_same a xs ys p q =
      let one =
        all-Below a (join_all join a ys) xs (start-Below a ys)
          (λ x m. member-Below a x ys (p x m)) in
      let two =
        all-Below a (join_all join a xs) ys (start-Below a xs)
          (λ x m. member-Below a x xs (q x m)) in
      sym two ∙ l.comm _ _ ∙ one
