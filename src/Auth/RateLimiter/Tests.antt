-- ===== src/Auth/RateLimiter/Tests.antt =====
-- The rate limiter on concrete runs, and the theorem at inputs that meet its hypotheses.
use w8nc.Base.{◌≡◌, ◌≢◌, refl, arith, none, true, false, leb, List, [], ◌∷◌}
use w8nc.Base.Assoc.{lookup, remove, put}
use w8nc.Base.Text.{Text, codes, text_eq, text_eq_iff}
use w8nc.Auth.RateLimiter.{new_rate_limiter, limited, record_failure, reset, reset_all}
use w8nc.Auth.RateLimiter.Counting.{Act, fails, asks, resets, run, failures, limited_counts}

limiter : Unit {0}
unfolding limited record_failure reset reset_all lookup remove put text_eq
limiter = tt

abbrev a : Text
a = codes "127.0.0.1"

abbrev b : Text
b = codes "192.0.2.1"

abbrev acts : List Act
acts = fails 10 a ∷ asks 11 a ∷ fails 12 b ∷ resets b ∷ fails 20 a ∷ []

-- The run of TestRateLimiter, and the end of a window.
runs :
    ((limited 5 a (new_rate_limiter 2 60)).0 ≡ false)
    × ((limited 21 a (run acts (new_rate_limiter 2 60))).0 ≡ true)
    × ((limited 22 a (reset a (run acts (new_rate_limiter 2 60)))).0 ≡ false)
    × ((reset_all (record_failure 23 b (run acts (new_rate_limiter 2 60)))).0 ≡ 2)
    × ((limited 71 a (run acts (new_rate_limiter 2 60))).0 ≡ false)
unfolding limiter
runs = (refl, refl, refl, refl, refl)

unknown : lookup a (new_rate_limiter 2 60).items ≡ none
unfolding limiter
unknown = refl

b_is_not_a : b ≢ a
unfolding limiter
b_is_not_a e = let same = (text_eq_iff b a).1 e in absurd (cc same)

limited_counts_example :
    (limited 70 a (run acts (new_rate_limiter 2 60))).0 ≡ leb 2 (failures a acts)
limited_counts_example =
    limited_counts a 10 70 (new_rate_limiter 2 60) acts (omega arith) unknown
      (
        (omega arith, omega arith),
        (
          (omega arith, omega arith),
          ((omega arith, omega arith), (b_is_not_a, ((omega arith, omega arith), tt))),
        ),
      )
      (omega arith) (omega arith)
