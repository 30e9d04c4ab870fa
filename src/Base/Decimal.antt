-- ===== src/Base/Decimal.antt =====
-- Decimal numerals: what strconv.Itoa and %d print, and what strconv.ParseInt and Atoi read.
use Prim.Native.Nat.{ℕ, zero, suc, ◌+◌, ◌-◌, ◌*◌, ◌/◌, ◌%◌, ◌≤◌, ◌<◌}
use mathlib.Core.Path.{◌≡◌, refl}
use mathlib.Core.Logic.{inl, inr}
use mathlib.Core.Bool.{Bool, true, ◌&&◌}
use mathlib.Core.Option.{Option, none, some}
use mathlib.Core.List.{[], ◌∷◌, ◌++◌}
use native.Mathlib.Omega.{arith}
use w8nc.Base.Tests.{ltb, leb, ◌==◌, if◌then◌else◌, Bool-cases}
use w8nc.Base.Lists.{all, all-append}
use w8nc.Base.Int.{ℤ, pos, negsuc, neg, two_63}
use w8nc.Base.Text.{Text, is_empty}

abbrev pub is_digit : ℕ → Bool
is_digit c = leb b'0' c && leb c b'9'

-- The digits of `n`, the last one first taken off. The fuel is above `n`, which falls.
unfoldable pub digits : ℕ → ℕ → Text
digits zero n = []
digits (suc f) n =
    let rest = digits f (n / 10) ++ (48 + n % 10) ∷ [] in if ltb n 10 then (48 + n) ∷ [] else rest

-- strconv.Itoa of a number that is not negative.
unfoldable pub print_ℕ : ℕ → Text
unfolding digits
print_ℕ n = digits (suc n) n

unfoldable pub itoa : ℤ → Text
unfolding print_ℕ
itoa (pos n) = print_ℕ n
itoa (negsuc n) = b'-' ∷ print_ℕ (suc n)

-- The value of a row of digits, from the left.
unfoldable pub digits_value : ℕ → Text → ℕ
digits_value acc [] = acc
digits_value acc (c ∷ s) = digits_value (acc * 10 + (c - 48)) s

-- The magnitude: digits only, at least one, and below the bound of the sign.
unfoldable pub parse_magnitude : ℕ → Text → Option ℕ
unfolding digits_value
parse_magnitude bound s =
    if is_empty s
    then none
    else if all is_digit s
    then (let v = digits_value 0 s in if ltb v bound then some v else none)
    else none

abbrev as_pos : Option ℕ → Option ℤ
as_pos none = none
as_pos (some n) = some (pos n)

abbrev as_neg : Option ℕ → Option ℤ
as_neg none = none
as_neg (some n) = some (neg (pos n))

-- strconv.ParseInt(s, 10, 64): an optional sign and digits, in the range of `int64`.
unfoldable pub parse_int : Text → Option ℤ
unfolding parse_magnitude
parse_int [] = none
parse_int (c ∷ s) =
    if c == b'-'
    then as_neg (parse_magnitude (two_63 + 1) s)
    else if c == b'+'
    then as_pos (parse_magnitude two_63 s)
    else as_pos (parse_magnitude two_63 (c ∷ s))

digits_value-concat :
    (acc : ℕ) (s : Text) (d : ℕ)
    → digits_value acc (s ++ d ∷ []) ≡ digits_value acc s * 10 + (d - 48)
unfolding digits_value
digits_value-concat acc [] d = refl
digits_value-concat acc (c ∷ s) d = digits_value-concat (acc * 10 + (c - 48)) s d

digits_value-digits : (f n : ℕ) → n < f → digits_value 0 (digits f n) ≡ n
unfolding digits digits_value
digits_value-digits zero n h = elim h [ ]
digits_value-digits (suc f) n h = elim (Bool-cases (ltb n 10)) [
  | inl e ↦ rw e (omega arith)
  | inr e ↦
      rw (e, digits_value-concat 0 (digits f (n / 10)) (48 + n % 10))
        (ground (arith, digits_value-digits f (n / 10)))
]

all-digits : (f n : ℕ) → all is_digit (digits f n) ≡ true
unfolding digits
all-digits zero n = refl
all-digits (suc f) n = elim (Bool-cases (ltb n 10)) [
  | inl e ↦ rw e (ground arith)
  | inr e ↦ rw e (all-append is_digit (digits f (n / 10)) _ (all-digits f (n / 10)) (ground arith))
]

-- What the digits of a positive number look like: no leading 0.
abbrev pub IsNumeral : Text → Type 0
IsNumeral [] = ⊥
IsNumeral (c ∷ s) = (49 ≤ c) × (c ≤ 57) × (all is_digit s ≡ true)

concat-IsNumeral : (s : Text) (d : ℕ) → IsNumeral s → is_digit d ≡ true → IsNumeral (s ++ d ∷ [])
concat-IsNumeral [] d h k = absurd h
concat-IsNumeral (c ∷ s) d (lo, hi, h) k = (lo, hi, all-append is_digit s (d ∷ []) h (ground arith))

digits-IsNumeral : (f n : ℕ) → n < f → 0 < n → IsNumeral (digits f n)
unfolding digits
digits-IsNumeral zero n h p = elim h [ ]
digits-IsNumeral (suc f) n h p = elim (Bool-cases (ltb n 10)) [
  | inl e ↦ rw e (omega arith, ground arith, refl)
  | inr e ↦ rw e (
      concat-IsNumeral (digits f (n / 10)) (48 + n % 10)
        (digits-IsNumeral f (n / 10) (ground arith) (ground arith)) (ground arith))
]

pub print_ℕ-IsNumeral : (n : ℕ) → 0 < n → IsNumeral (print_ℕ n)
unfolding print_ℕ
print_ℕ-IsNumeral n p = digits-IsNumeral (suc n) n (omega arith) p

parse_of_IsNumeral :
    (s : Text)
    → IsNumeral s
    → digits_value 0 s < two_63
    → parse_int s ≡ some (pos (digits_value 0 s))
unfolding parse_int
parse_of_IsNumeral [] h lt = absurd h
parse_of_IsNumeral (c ∷ s) h lt = ground arith

-- A positive `int64` is read back as it was printed.
pub parse_int-print_ℕ : (n : ℕ) → 0 < n → n < two_63 → parse_int (print_ℕ n) ≡ some (pos n)
unfolding print_ℕ
parse_int-print_ℕ n p h =
    rw
      (parse_of_IsNumeral (print_ℕ n) (print_ℕ-IsNumeral n p)
        (rw (digits_value-digits (suc n) n (omega arith)) h))
      (rw (digits_value-digits (suc n) n (omega arith)))
