-- ===== src/Validation.antt =====
-- internal/validation: what the API accepts for intervals, for the URL of an endpoint and for proxies. A
-- `time.Duration` is a 64-bit number of nanoseconds.
pub mod Interval
pub mod Address
