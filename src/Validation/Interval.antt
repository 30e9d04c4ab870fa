-- ===== src/Validation/Interval.antt =====
-- internal/validation/interval.go
pub mod RoundTrip
pub mod Bounds
mod Tests
use w8nc.Base.{
  ℕ, ◌+◌, ◌*◌, Bool, false, ◌&&◌, ◌||◌, Option, none, some, List, [], ◌∷◌, ◌++◌, leb, ◌==◌,
  if◌then◌else◌,
}
use w8nc.Base.Int.{ℤ, pos, mul_int64, quot, divisible, ltb_ℤ}
use w8nc.Base.Result.{Result, ok, err}
use w8nc.Base.Text.{Text, codes}
use w8nc.Base.Decimal.{is_digit, itoa, parse_int}

pub data Error : Type 0 where
  bad_format not_positive unsupported_unit too_short too_long : Error

-- The constants of package time, in nanoseconds.
abbrev pub second : ℕ
second = 1000000000

abbrev pub minute : ℕ
minute = 60 * second

abbrev pub hour : ℕ
hour = 60 * minute

abbrev is_unit : ℕ → Bool
is_unit c = c == b's' || c == b'm' || c == b'h' || c == b'd'

-- `[0-9]*(s|m|h|d)$`
match_tail : Text → Bool
match_tail [] = false
match_tail (c ∷ []) = is_unit c
match_tail (c ∷ d ∷ s) = is_digit c && match_tail (d ∷ s)

-- `intervalPattern`: `^[1-9][0-9]*(s|m|h|d)$`
match_interval : Text → Bool
unfolding match_tail
match_interval [] = false
match_interval (c ∷ s) = leb b'1' c && leb c b'9' && match_tail s

-- `value[len(value)-1]`, with 0 for the empty text, which the pattern excludes.
last : Text → ℕ
last [] = 0
last (c ∷ []) = c
last (c ∷ d ∷ s) = last (d ∷ s)

-- `value[:len(value)-1]`
init : Text → Text
init [] = []
init (c ∷ []) = []
init (c ∷ d ∷ s) = c ∷ init (d ∷ s)

-- The `switch` on the unit. The multiplications are those of `int64` and wrap.
unfoldable pub duration_of : ℤ → ℕ → Result Error ℤ
duration_of count unit =
    if unit == b's'
    then ok (mul_int64 count second)
    else if unit == b'm'
    then ok (mul_int64 count minute)
    else if unit == b'h'
    then ok (mul_int64 count hour)
    else if unit == b'd'
    then ok (mul_int64 (mul_int64 count 24) hour)
    else err unsupported_unit

-- The test `err != nil || count <= 0` behind `strconv.ParseInt`.
of_count : Option ℤ → ℕ → Result Error ℤ
unfolding duration_of
of_count none unit = err not_positive
of_count (some count) unit =
    if ltb_ℤ (pos 0) count then duration_of count unit else err not_positive

unfoldable pub parse_interval : Text → Result Error ℤ
unfolding match_interval last init parse_int of_count
parse_interval value =
    if match_interval value then of_count (parse_int (init value)) (last value) else err bad_format

-- `duration` is the product in `time.Duration`, which wraps like every `int64`.
unfoldable pub format_interval : ℤ → Text
format_interval seconds =
    let duration = mul_int64 seconds second in
    if divisible seconds 86400
    then itoa (quot duration (24 * hour)) ++ b'd' ∷ []
    else if divisible seconds 3600
    then itoa (quot duration hour) ++ b'h' ∷ []
    else if divisible seconds 60
    then itoa (quot duration minute) ++ b'm' ∷ []
    else itoa seconds ++ b's' ∷ []

-- The tests of `ValidateInterval` behind a parsed duration.
within : ℤ → ℤ → Result Error ℤ → Result Error ℤ
within lo hi (err e) = err e
within lo hi (ok duration) =
    if ltb_ℤ duration lo
    then err too_short
    else if ltb_ℤ hi duration
    then err too_long
    else ok (quot duration second)

-- The seconds of an interval between the two bounds.
unfoldable pub validate_interval : Text → ℤ → ℤ → Result Error ℤ
unfolding parse_interval within
validate_interval value lo hi = within lo hi (parse_interval value)
