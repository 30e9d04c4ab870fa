-- ===== src/Store/Rows.antt =====
-- Lemmas about the rows of a table: UPDATE ... WHERE, the single-row SELECT and their counts.
use w8nc.Base.{
  suc, ◌≡◌, refl, ap, subst, inl, inr, Bool, true, false, List, [], ◌∷◌, arith, length, filter, any,
  All, Bool-cases,
}
use w8nc.Base.Result.{ok}
use w8nc.Store.{update_where, find_row}

module _ {A : Type 0} (p : A → Bool) (f : A → A) where
  pub update_where-All :
      (P Q : A → Type 0)
      → ((x : A) → P x → p x ≡ true → Q (f x))
      → ((x : A) → P x → p x ≡ false → Q x)
      → (xs : List A) → All P xs
      → All Q (update_where p f xs)
  unfolding update_where
  update_where-All P Q hit miss [] h = tt
  update_where-All P Q hit miss (x ∷ xs) (here, later) = elim (Bool-cases (p x)) [
    | inl e ↦ (rw e (hit x here e), update_where-All P Q hit miss xs later)
    | inr e ↦ (rw e (miss x here e), update_where-All P Q hit miss xs later)
  ]

  pub length-update_where : (xs : List A) → length (update_where p f xs) ≡ length xs
  unfolding update_where
  length-update_where [] = refl
  length-update_where (x ∷ xs) = ap suc (length-update_where xs)

module _ {A : Type 0} (p : A → Bool) where
  pub filter-All : (P : A → Type 0) (xs : List A) → All P xs → All P (filter p xs)
  filter-All P [] h = tt
  filter-All P (x ∷ xs) (here, later) = elim (Bool-cases (p x)) [
    | inl e ↦ rw e (here, filter-All P xs later)
    | inr e ↦ rw e (filter-All P xs later)
  ]

  pub find_row-ok : (xs : List A) (x : A) → find_row p xs ≡ ok x → (p x ≡ true) × (any p xs ≡ true)
  unfolding find_row
  find_row-ok [] x h = absurd (ground arith)
  find_row-ok (y ∷ ys) x h = ground (arith, find_row-ok ys x)

  pub find_row-All : (P : A → Type 0) (xs : List A) (x : A) → All P xs → find_row p xs ≡ ok x → P x
  unfolding find_row
  find_row-All P [] x h e = absurd (ground arith)
  find_row-All P (y ∷ ys) x (here, later) e = elim (Bool-cases (p y)) [
    | inl hit ↦ subst P (ground arith) here
    | inr miss ↦ find_row-All P ys x later (ground arith)
  ]

-- What holds of each row, at every row that is in the table.
pub All-imp :
    {A : Type 0} (P Q : A → Type 0) → ((x : A) → P x → Q x) → (xs : List A) → All P xs → All Q xs
All-imp P Q k [] h = tt
All-imp P Q k (x ∷ xs) (here, later) = (k x here, All-imp P Q k xs later)
