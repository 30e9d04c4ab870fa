-- ===== src/Base/Result.antt =====
-- Go's `(value, error)` results, with `do` blocks for the early return on an error.
use mathlib.Core.Path.{◌≡◌, refl}
use mathlib.Core.Logic.{◌⊎◌, inl, inr}

pub data Result (E A : Type 0) : Type 0 where
  ok : A → Result E A
  err : E → Result E A

infixl 5 ◌>>=◌
abbrev pub ◌>>=◌ : {E A B : Type 0} → Result E A → (A → Result E B) → Result E B
err reason >>= next = err reason
ok value >>= next = next value

pub Result-cases :
    {E A : Type 0} (r : Result E A) → ((a : A) × (r ≡ ok a)) ⊎ ((e : E) × (r ≡ err e))
Result-cases (ok a) = inl (a, refl)
Result-cases (err e) = inr (e, refl)

-- A chain that returns a value has a first step that returns one.
pub >>=-eq-ok :
    {E A B : Type 0} (first : Result E A) (next : A → Result E B) {done : B}
    → (first >>= next) ≡ ok done
    → (between : A) × (first ≡ ok between) × (next between ≡ ok done)
>>=-eq-ok (err reason) next stopped = absurd (cc)
>>=-eq-ok (ok between) next went_on = (between, refl, went_on)

pub ok-injective : {E A : Type 0} {a b : A} → ◌≡◌ {A = Result E A} (ok a) (ok b) → a ≡ b
ok-injective h = cc
