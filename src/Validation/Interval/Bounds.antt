-- ===== src/Validation/Interval/Bounds.antt =====
-- What ValidateInterval accepts, and the durations that overflow (internal/validation/interval.go).
use w8nc.Base.{ℕ, ◌+◌, ◌*◌, ◌/◌, ◌<◌, ◌≤◌, ◌≡◌, refl, ◌∙◌, sym, true, [], ◌∷◌, ◌++◌, arith}
use w8nc.Base.Int.{ℤ, pos, negsuc, two_63, two_64, to_int64, mul_int64, ◌≤ℤ◌, quot}
use w8nc.Base.Result.{Result, ok, err}
use w8nc.Base.Text.{Text}
use w8nc.Base.Decimal.{print_ℕ}
use w8nc.Validation.Interval.{
  Error, second, minute, hour, is_unit, duration_of, within, parse_interval, validate_interval,
}
use w8nc.Validation.Interval.RoundTrip.{parse_interval-print_ℕ}

within_bounds :
    (lo hi : ℤ) (d : Result Error ℤ) (r : ℤ)
    → within lo hi d ≡ ok r
    → (duration : ℤ) × (d ≡ ok duration)
      × (lo ≤ℤ duration)
      × (duration ≤ℤ hi)
      × (r ≡ quot duration second)
unfolding within
within_bounds lo hi (err e) r h = absurd (cc)
within_bounds lo hi (ok duration) r h = (duration, refl, ground arith, ground arith, ground arith)

-- The whole seconds of a duration between bounds that are not negative.
whole_seconds :
    (k hi : ℕ) (duration : ℤ)
    → pos (k * second) ≤ℤ duration
    → duration ≤ℤ pos hi
    → (n : ℕ) × (quot duration second ≡ pos n) × (k ≤ n) × (n * second ≤ hi)
whole_seconds k hi (pos d) above below = (d / second, refl, omega arith, omega arith)
whole_seconds k hi (negsuc d) above below = absurd (omega arith)

-- With a lower bound of whole seconds, the seconds that ValidateInterval returns for an interval lie between
-- the two bounds, and so does the duration that ParseInterval reads.
pub validate_interval_bounds :
    (value : Text) (k hi : ℕ) (r : ℤ)
    → validate_interval value (pos (k * second)) (pos hi) ≡ ok r
    → ((n : ℕ) × (r ≡ pos n) × (k ≤ n) × (n * second ≤ hi))
      × ((duration : ℤ) × (parse_interval value ≡ ok duration)
          × (pos (k * second) ≤ℤ duration)
          × (duration ≤ℤ pos hi))
unfolding validate_interval
validate_interval_bounds value k hi r h =
    let (duration, parsed, above, below, seconds) =
      within_bounds (pos (k * second)) (pos hi) (parse_interval value) r h in
    let (n, whole, more, less) = whole_seconds k hi duration above below in
    ((n, seconds ∙ whole, more, less), (duration, parsed, above, below))

abbrev two_55 : ℕ
two_55 = 36028797018963968

-- 2^55 units of 2^9 nanoseconds are 0 modulo 2^64.
to_int64_alias : (n k : ℕ) → to_int64 (n + two_64 * k) ≡ to_int64 n
to_int64_alias n k = ground arith

mul_int64-to_int64 : (n : ℕ) → mul_int64 (to_int64 n) hour ≡ to_int64 (n * hour)
mul_int64-to_int64 n = ground arith

duration_of_alias : (n u : ℕ) → duration_of (pos (n + two_55)) u ≡ duration_of (pos n) u
unfolding duration_of
duration_of_alias n u = ground (
  arith,
  to_int64_alias (n * second) 1953125,
  to_int64_alias (n * minute) 117187500,
  to_int64_alias (n * hour) 7031250000,
  to_int64_alias (n * 24 * hour) 168750000000,
  mul_int64-to_int64 (n * 24),
  mul_int64-to_int64 ((n + two_55) * 24),
)

-- For every count that is not 0, the count and the count plus 2^55 are read as the same duration,
-- as long as both are in the range of `int64`.
pub parse_interval_alias :
    (n u : ℕ)
    → 0 < n
    → n + two_55 < two_63
    → is_unit u ≡ true
    → parse_interval (print_ℕ (n + two_55) ++ u ∷ []) ≡ parse_interval (print_ℕ n ++ u ∷ [])
parse_interval_alias n u p h k =
    parse_interval-print_ℕ (n + two_55) u (omega arith) h k
    ∙ (duration_of_alias n u ∙ sym (parse_interval-print_ℕ n u p (omega arith) k))
