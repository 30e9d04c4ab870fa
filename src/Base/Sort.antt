-- ===== src/Base/Sort.antt =====
-- ORDER BY of the program's queries: a stable insertion sort by a Boolean test, and what it keeps.
use mathlib.Core.Path.{◌≡◌}
use mathlib.Core.Bool.{Bool, true, false}
use mathlib.Core.Logic.{inl, inr}
use mathlib.Core.List.{List, [], ◌∷◌}
use Prim.Native.Nat.{ℕ, zero, suc}
use native.Mathlib.Omega.{arith}
use w8nc.Base.Tests.{if◌then◌else◌, Bool-cases}
use w8nc.Base.Lists.{All, take, filter, any}

module _ {A : Type 0} (precedes : A → A → Bool) where
  unfoldable pub insert_by : A → List A → List A
  insert_by a [] = a ∷ []
  insert_by a (x ∷ xs) =
      let later = x ∷ insert_by a xs in if precedes a x then a ∷ x ∷ xs else later

  unfoldable pub sort_by : List A → List A
  unfolding insert_by
  sort_by [] = []
  sort_by (x ∷ xs) = insert_by x (sort_by xs)

  abbrev pub Ordered : List A → Type 0
  Ordered [] = Unit
  Ordered (x ∷ []) = Unit
  Ordered (x ∷ y ∷ xs) = (precedes x y ≡ true) × Ordered (y ∷ xs)

  pub take-Ordered : (n : ℕ) (xs : List A) → Ordered xs → Ordered (take n xs)
  take-Ordered zero xs h = tt
  take-Ordered (suc n) [] h = tt
  take-Ordered (suc zero) (x ∷ xs) h = tt
  take-Ordered (suc (suc n)) (x ∷ []) h = tt
  take-Ordered (suc (suc n)) (x ∷ y ∷ xs) (here, later) =
      (here, take-Ordered (suc n) (y ∷ xs) later)

  module _ (total : (a b : A) → precedes a b ≡ false → precedes b a ≡ true) where
    insert_by-Ordered : (a : A) (xs : List A) → Ordered xs → Ordered (insert_by a xs)
    unfolding insert_by
    insert_by-Ordered a [] h = tt
    insert_by-Ordered a (x ∷ []) h = elim (Bool-cases (precedes a x)) [
      | inl e ↦ rw e (e, tt)
      | inr e ↦ rw e (total a x e, tt)
    ]
    insert_by-Ordered a (x ∷ y ∷ xs) (here, later) =
        let rest = insert_by-Ordered a (y ∷ xs) later in
        elim (Bool-cases (precedes a x)) [
          | inl e ↦ rw e (e, (here, later))
          | inr e ↦ elim (Bool-cases (precedes a y)) [
            | inl e2 ↦ rw (e, e2) (total a x e, (e2, later))
            | inr e2 ↦ rw (e, e2) (here, rw e2 at rest)
          ]
        ]

    pub sort_by-Ordered : (xs : List A) → Ordered (sort_by xs)
    unfolding sort_by
    sort_by-Ordered [] = tt
    sort_by-Ordered (x ∷ xs) = insert_by-Ordered x (sort_by xs) (sort_by-Ordered xs)

  module _ (P : A → Type 0) where
    insert_by-All : (a : A) (xs : List A) → P a → All P xs → All P (insert_by a xs)
    unfolding insert_by
    insert_by-All a [] h k = (h, tt)
    insert_by-All a (x ∷ xs) h (here, later) = elim (Bool-cases (precedes a x)) [
      | inl e ↦ rw e (h, (here, later))
      | inr e ↦ rw e (here, insert_by-All a xs h later)
    ]

    pub sort_by-All : (xs : List A) → All P xs → All P (sort_by xs)
    unfolding sort_by
    sort_by-All [] h = tt
    sort_by-All (x ∷ xs) (here, later) = insert_by-All x (sort_by xs) here (sort_by-All xs later)

  module _ (p : A → Bool) where
    swapped :
        (a x : A) (xs : List A) (ys : List A)
        → any p (a ∷ x ∷ xs) ≡ true
        → (any p (a ∷ xs) ≡ true → any p ys ≡ true)
        → any p (x ∷ ys) ≡ true
    swapped a x xs ys h k = ground (arith, h, k)

    deeper :
        (x : A) (xs ys : List A)
        → any p (x ∷ xs) ≡ true
        → (any p xs ≡ true → any p ys ≡ true)
        → any p (x ∷ ys) ≡ true
    deeper x xs ys h k = ground (arith, h, k)

    any-insert_by : (a : A) (xs : List A) → any p (a ∷ xs) ≡ true → any p (insert_by a xs) ≡ true
    unfolding insert_by
    any-insert_by a [] h = h
    any-insert_by a (x ∷ xs) h = elim (Bool-cases (precedes a x)) [
      | inl e ↦ rw e h
      | inr e ↦ rw e (swapped a x xs (insert_by a xs) h (any-insert_by a xs))
    ]

    -- What is in a list is in the sorted list.
    pub any-sort_by : (xs : List A) → any p xs ≡ true → any p (sort_by xs) ≡ true
    unfolding sort_by
    any-sort_by [] h = h
    any-sort_by (x ∷ xs) h =
        any-insert_by x (sort_by xs) (deeper x xs (sort_by xs) h (any-sort_by xs))

module _ {A : Type 0} (P : A → Type 0) (p : A → Bool) where
  -- The rows that a WHERE clause selects have what all rows have, and pass the test.
  pub filter-selects : (xs : List A) → All P xs → All (λ row. P row × (p row ≡ true)) (filter p xs)
  filter-selects [] h = tt
  filter-selects (x ∷ xs) (here, later) = elim (Bool-cases (p x)) [
    | inl e ↦ rw e ((here, e), filter-selects xs later)
    | inr e ↦ rw e (filter-selects xs later)
  ]

pub Unit-All : {A : Type 0} (xs : List A) → All (λ row. Unit {0}) xs
Unit-All [] = tt
Unit-All (x ∷ xs) = (tt, Unit-All xs)
