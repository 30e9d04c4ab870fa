-- ===== src/Validation/Interval/Tests.antt =====
-- Intervals on concrete texts, and the theorems at inputs that meet their hypotheses.
use w8nc.Base.{ℕ, ◌*◌, ◌+◌, ◌≡◌, ◌≤◌, refl, [], ◌∷◌, ◌++◌, arith}
use w8nc.Base.Int.{ℤ, pos, ◌≤ℤ◌}
use w8nc.Base.Result.{ok, err}
use w8nc.Base.Text.{codes}
use w8nc.Base.Decimal.{print_ℕ}
use w8nc.Validation.Interval.{
  second, parse_interval, format_interval, validate_interval, too_short, bad_format,
}
use w8nc.Validation.Interval.RoundTrip.{parse_interval-format_interval}
use w8nc.Validation.Interval.Bounds.{validate_interval_bounds, parse_interval_alias}

abbrev five_seconds : ℤ
five_seconds = pos 5000000000

abbrev thirty_days : ℤ
thirty_days = pos 2592000000000000

interval_tests :
    (parse_interval (codes "15m") ≡ ok (pos 900000000000))
    × (parse_interval (codes "0m") ≡ err bad_format)
    × (parse_interval (codes "15") ≡ err bad_format)
    × (validate_interval (codes "4s") five_seconds thirty_days ≡ err too_short)
    × (validate_interval (codes "18446744079s") five_seconds thirty_days ≡ ok (pos 5))
unfolding parse_interval validate_interval
interval_tests = (refl, refl, refl, refl, refl)

minute_interval : validate_interval (codes "15m") five_seconds thirty_days ≡ ok (pos 900)
unfolding validate_interval
minute_interval = refl

parse_interval-format_interval_example :
    parse_interval (format_interval (pos 5400)) ≡ ok (pos (5400 * second))
parse_interval-format_interval_example =
    parse_interval-format_interval 5400 (omega arith) (omega arith)

validate_interval_bounds_example :
    ((n : ℕ) × (pos 900 ≡ pos n) × (5 ≤ n) × (n * second ≤ 2592000000000000))
    × ((duration : ℤ) × (parse_interval (codes "15m") ≡ ok duration)
        × (five_seconds ≤ℤ duration)
        × (duration ≤ℤ thirty_days))
validate_interval_bounds_example =
    validate_interval_bounds (codes "15m") 5 2592000000000000 (pos 900) minute_interval

parse_interval_alias_example :
    parse_interval (print_ℕ (5 + 36028797018963968) ++ b's' ∷ [])
    ≡ parse_interval (print_ℕ 5 ++ b's' ∷ [])
parse_interval_alias_example = parse_interval_alias 5 b's' (omega arith) (omega arith) refl
