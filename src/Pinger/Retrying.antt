-- ===== src/Pinger/Retrying.antt =====
-- Ping of internal/pinger/pinger.go: the loop over the attempts.
use w8nc.Base.{
  ℕ, zero, suc, ◌≡◌, ◌⊎◌, Bool, true, false, not, ◌&&◌, ◌||◌, Option, none, some, ◌==◌,
  if◌then◌else◌, arith,
}
use w8nc.Models.{Endpoint, PingResult}
use w8nc.Pinger.{World, Pinger, retryable_method, transient_ping_error}
use w8nc.Pinger.Once.{ping_once, empty_result}

abbrev pub is_missing : {A : Type 0} → Option A → Bool
is_missing none = true
is_missing (some a) = false

-- `best` after an attempt that failed.
abbrev pub chosen : ℕ → PingResult → PingResult → PingResult
chosen attempt best result =
    if attempt == 1
      || ((is_missing best.status_code && not (is_missing result.status_code))
          || (is_missing best.status_code && is_missing result.status_code))
    then result
    else best

-- The loop: the attempts left, the number of this one, and `best`. Each attempt meets a world of its own.
unfoldable pub ping_from : (ℕ → World) → Pinger → Endpoint → ℕ → ℕ → ℕ → PingResult → PingResult
ping_from w p endpoint started zero attempt best = best
ping_from w p endpoint started (suc left) attempt best =
    let result = ping_once (w attempt) p endpoint started in
    let longer = chosen attempt best result in
    elim result.error [
      | none ↦ result
      | some message ↦ elim (left == 0 || not (transient_ping_error message)) [
        | true ↦ longer
        | false ↦ ping_from w p endpoint started left (suc attempt) longer
      ]
    ]

-- Ping
unfoldable pub ping : (ℕ → World) → Pinger → Endpoint → ℕ → PingResult
unfolding ping_from
ping w p endpoint started =
    ping_from w p endpoint started (if retryable_method endpoint.http_method then 2 else 1) 1
      (empty_result started)

-- The error of a try may pass.
abbrev pub is_transient : PingResult → Bool
is_transient result = elim result.error [
  | none ↦ false
  | some message ↦ transient_ping_error message
]

-- The result is that of the first try or, after a passing failure, that of a second one.
abbrev pub Outcome : Endpoint → PingResult → PingResult → PingResult → Type 0
Outcome endpoint first second result =
    ((result ≡ first)
      × ((is_transient first ≡ false)
          ⊎ ((retryable_method endpoint.http_method ≡ false)
              ⊎ ((is_missing second.error ≡ false) × (is_missing first.status_code ≡ false)))))
    ⊎ ((result ≡ second)
        × (retryable_method endpoint.http_method ≡ true)
        × (is_transient first ≡ true)
        × ((is_missing second.error ≡ true) ⊎ (is_missing first.status_code ≡ true)))

-- Ping ends with the first try or a second one. It ends with the first if that had no error or one that
-- does not pass, if the method is not retried, or if the second try failed too and the first has a
-- status; with the second otherwise.
pub ping-Outcome :
    (w : ℕ → World) (p : Pinger) (endpoint : Endpoint) (started : ℕ)
    → Outcome endpoint
        (ping_once (w 1) p endpoint started)
        (ping_once (w 2) p endpoint started)
        (ping w p endpoint started)
unfolding ping ping_from
ping-Outcome w p endpoint started = ground arith
