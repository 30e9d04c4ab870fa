-- ===== src/Auth/RateLimiter.antt =====
-- RateLimiter of internal/auth/auth.go. Each operation takes the lock for its whole body; `now` is what
-- time.Now returns in it, counted from any instant.
pub mod Counting
mod Tests
use w8nc.Base.{
  ℕ, suc, ◌-◌, Bool, true, false, Option, none, some, List, [], ◌∷◌, ltb, leb, if◌then◌else◌,
  length,
}
use w8nc.Base.Assoc.{lookup, remove, put}
use w8nc.Base.Text.{Text}

-- `attempts`; an entry that is stored has a time.
pub record Attempts : Type 0 where
  pub count : ℕ
  pub first_seen : ℕ

pub record RateLimiter : Type 0 where
  pub limit : ℕ
  pub window : ℕ
  pub items : List (Text × Attempts)

-- NewRateLimiter
abbrev pub new_rate_limiter : ℕ → ℕ → RateLimiter
new_rate_limiter limit window = record { limit = limit; window = window; items = [] }

-- `time.Since(first) > window`
abbrev pub is_over : ℕ → ℕ → ℕ → Bool
is_over now first window = ltb window (now - first)

abbrev pub limited_item : ℕ → Text → RateLimiter → Option Attempts → Bool × RateLimiter
limited_item now ip r none = (false, r)
limited_item now ip r (some item) =
    if is_over now item.first_seen r.window
    then (false, record r { items = remove ip r.items })
    else (leb r.limit item.count, r)

-- Limited
unfoldable pub limited : ℕ → Text → RateLimiter → Bool × RateLimiter
limited now ip r = limited_item now ip r (lookup ip r.items)

-- The entry before `item.Count++`.
abbrev pub current_item : ℕ → ℕ → Option Attempts → Attempts
current_item now window none = record { count = 0; first_seen = now }
current_item now window (some item) =
    if is_over now item.first_seen window then record { count = 0; first_seen = now } else item

abbrev pub counted : Attempts → Attempts
counted item = record item { count = suc item.count }

-- RecordFailure
unfoldable pub record_failure : ℕ → Text → RateLimiter → RateLimiter
record_failure now ip r = record r {
  items = put ip (counted (current_item now r.window (lookup ip r.items))) r.items;
}

-- Reset
unfoldable pub reset : Text → RateLimiter → RateLimiter
reset ip r = record r { items = remove ip r.items }

-- ResetAll
unfoldable pub reset_all : RateLimiter → ℕ × RateLimiter
reset_all r = (length r.items, record r { items = [] })
