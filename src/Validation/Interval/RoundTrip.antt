-- ===== src/Validation/Interval/RoundTrip.antt =====
-- Printing a number of seconds as an interval and reading it back (internal/validation/interval.go).
use w8nc.Base.{
  ℕ, ◌*◌, ◌/◌, ◌%◌, ◌<◌, ◌≡◌, refl, ap, ◌∙◌, inl, inr, true, [], ◌∷◌, ◌++◌, arith, all, Bool-cases,
}
use w8nc.Base.Int.{ℤ, pos, two_63, to_int64_of_lt, divisible}
use w8nc.Base.Result.{Result, ok}
use w8nc.Base.Text.{Text}
use w8nc.Base.Decimal.{is_digit, print_ℕ, itoa, IsNumeral, print_ℕ-IsNumeral, parse_int-print_ℕ}
use w8nc.Validation.Interval.{
  Error, second, minute, hour, is_unit, match_tail, match_interval, last, init, duration_of,
  parse_interval, format_interval,
}

match_tail-concat :
    (s : Text) (u : ℕ) → all is_digit s ≡ true → is_unit u ≡ true → match_tail (s ++ u ∷ []) ≡ true
unfolding match_tail
match_tail-concat [] u h k = k
match_tail-concat (c ∷ []) u h k = ground arith
match_tail-concat (c ∷ d ∷ s) u h k = ground (arith, match_tail-concat (d ∷ s) u)

match_interval-concat :
    (s : Text) (u : ℕ) → IsNumeral s → is_unit u ≡ true → match_interval (s ++ u ∷ []) ≡ true
unfolding match_interval
match_interval-concat [] u h k = absurd h
match_interval-concat (c ∷ s) u h k = ground (arith, match_tail-concat s u)

last-concat : (s : Text) (u : ℕ) → last (s ++ u ∷ []) ≡ u
unfolding last
last-concat [] u = refl
last-concat (c ∷ []) u = refl
last-concat (c ∷ d ∷ s) u = last-concat (d ∷ s) u

init-concat : (s : Text) (u : ℕ) → init (s ++ u ∷ []) ≡ s
unfolding init
init-concat [] u = refl
init-concat (c ∷ []) u = refl
init-concat (c ∷ d ∷ s) u = rw (init-concat (d ∷ s) u)

-- A positive count with a unit is read as that count of the unit.
pub parse_interval-print_ℕ :
    (n u : ℕ)
    → 0 < n
    → n < two_63
    → is_unit u ≡ true
    → parse_interval (print_ℕ n ++ u ∷ []) ≡ duration_of (pos n) u
unfolding parse_interval
parse_interval-print_ℕ n u p h k =
    rw
      (
        match_interval-concat (print_ℕ n) u (print_ℕ-IsNumeral n p) k,
        init-concat (print_ℕ n) u,
        last-concat (print_ℕ n) u,
        parse_int-print_ℕ n p h,
      )
      (ground arith)

print_ℕ-itoa : (n : ℕ) → itoa (pos n) ≡ print_ℕ n
unfolding itoa
print_ℕ-itoa n = refl

-- One branch of the printer: `q` units of `k` seconds, read back without overflow.
read_back :
    (q u : ℕ) (d : Result Error ℤ)
    → 0 < q
    → q < two_63
    → is_unit u ≡ true
    → duration_of (pos q) u ≡ d
    → parse_interval (itoa (pos q) ++ u ∷ []) ≡ d
read_back q u d p h k e = rw (print_ℕ-itoa q) (parse_interval-print_ℕ q u p h k ∙ e)

days : (q : ℕ) → q * 24 * hour < two_63 → duration_of (pos q) b'd' ≡ ok (pos (q * 24 * hour))
unfolding duration_of
days q h = rw (to_int64_of_lt (q * 24) (omega arith), to_int64_of_lt (q * 24 * hour) h)

hours : (q : ℕ) → q * hour < two_63 → duration_of (pos q) b'h' ≡ ok (pos (q * hour))
unfolding duration_of
hours q h = rw (to_int64_of_lt (q * hour) h)

minutes : (q : ℕ) → q * minute < two_63 → duration_of (pos q) b'm' ≡ ok (pos (q * minute))
unfolding duration_of
minutes q h = rw (to_int64_of_lt (q * minute) h)

seconds : (q : ℕ) → q * second < two_63 → duration_of (pos q) b's' ≡ ok (pos (q * second))
unfolding duration_of
seconds q h = rw (to_int64_of_lt (q * second) h)

-- The test `seconds % k == 0` on a number that is not negative.
exact : (s k : ℕ) → divisible (pos s) k ≡ true → s % k ≡ 0
exact s k h = ground arith

-- A positive number of seconds whose nanoseconds fit in an `int64` is printed as an interval that
-- is read back as that duration.
pub parse_interval-format_interval :
    (s : ℕ)
    → 0 < s
    → s * second < two_63
    → parse_interval (format_interval (pos s)) ≡ ok (pos (s * second))
unfolding format_interval
parse_interval-format_interval s p h =
    rw (to_int64_of_lt (s * second) h) (elim (Bool-cases (divisible (pos s) 86400)) [
      | inl e ↦
          let m = exact s 86400 e in
          rw e (
            read_back (s * second / (24 * hour)) b'd' _ (omega arith) (omega arith) refl
              (days (s * second / (24 * hour)) (omega arith) ∙ ap ok (ap pos (omega arith))))
      | inr e ↦ elim (Bool-cases (divisible (pos s) 3600)) [
        | inl e2 ↦
            let m = exact s 3600 e2 in
            rw (e, e2)
              (read_back (s * second / hour) b'h' _ (omega arith) (omega arith) refl
                (hours (s * second / hour) (omega arith) ∙ ap ok (ap pos (omega arith))))
        | inr e2 ↦ elim (Bool-cases (divisible (pos s) 60)) [
          | inl e3 ↦
              let m = exact s 60 e3 in
              rw (e, e2, e3)
                (read_back (s * second / minute) b'm' _ (omega arith) (omega arith) refl
                  (minutes (s * second / minute) (omega arith) ∙ ap ok (ap pos (omega arith))))
          | inr e3 ↦ rw (e, e2, e3) (read_back s b's' _ p (omega arith) refl (seconds s h))
        ]
      ]
    ])
