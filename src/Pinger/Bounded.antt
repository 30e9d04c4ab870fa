-- ===== src/Pinger/Bounded.antt =====
-- How much of a response internal/pinger/pinger.go keeps.
use w8nc.Base.{
  ℕ, suc, ◌≤◌, ◌≡◌, refl, subst, sym, ◌⊎◌, inl, inr, false, some, List, [], ◌∷◌, zero, ltb, length,
  take, Bool-cases, arith,
}
use w8nc.Base.Result.{Result, ok, err}
use w8nc.Base.Text.{Text, codes, text_eq}
use w8nc.Models.{Endpoint, PingResult}
use w8nc.Pinger.{World, Pinger, HttpResponse}
use w8nc.Pinger.Once.{
  ping_once, exchange, finished_exchange, read_response, with_content, responded, warning,
}
use w8nc.Pinger.Retrying.{ping, ping-Outcome}

-- The body fits; the result says so if it was cut, and then it is as long as allowed.
abbrev pub IsBounded : ℕ → PingResult → Type 0
IsBounded limit result =
    (length result.body ≤ limit)
    × ((result.truncated ≡ false)
        ⊎ ((result.error ≡ some warning)
            × (length result.body ≡ limit)
            × (result.response_length ≡ some limit)))

length-take : {A : Type 0} (n : ℕ) (xs : List A) → n ≤ length xs → length (take n xs) ≡ n
length-take zero xs h = refl
length-take (suc n) [] h = absurd (omega (arith, h))
length-take (suc n) (x ∷ xs) h = omega (arith, length-take n xs (omega (arith, h)))

with_content-IsBounded :
    (w : World) (limit started : ℕ) (response : HttpResponse) (read : Result Text Text)
    → IsBounded limit (with_content w limit (responded started response) read)
unfolding with_content
with_content-IsBounded w limit started response (err message) = (omega arith, inl refl)
with_content-IsBounded w limit started response (ok content) =
    elim (Bool-cases (ltb limit (length content))) [
      | inl long ↦
          let full : length (take limit content) ≡ limit =
            length-take limit content (ground arith) in
          rw long (omega (arith, full), inr (refl, full, refl))
      | inr short ↦ rw short (ground arith, inl refl)
    ]

ping_once-IsBounded :
    (w : World) (p : Pinger) (endpoint : Endpoint) (started : ℕ)
    → IsBounded p.max_response_bytes (ping_once w p endpoint started)
unfolding ping_once read_response
ping_once-IsBounded w p endpoint started = go (exchange w p endpoint).1
  where
    go :
        (r : Result Text HttpResponse)
        → IsBounded p.max_response_bytes (finished_exchange w p endpoint started r)
    go (err message) = (omega arith, inl refl)
    go (ok response) = elim (Bool-cases (text_eq endpoint.http_method (codes "HEAD"))) [
      | inl head ↦ rw head (omega arith, inl refl)
      | inr other ↦ rw other (with_content-IsBounded w p.max_response_bytes started response _)
    ]

-- Whatever is sent and however it is encoded, the body in the result of a ping is at most as long as
-- allowed; if the result says that it was truncated, it is exactly that long, and the error says so.
pub ping-IsBounded :
    (w : ℕ → World) (p : Pinger) (endpoint : Endpoint) (started : ℕ)
    → IsBounded p.max_response_bytes (ping w p endpoint started)
ping-IsBounded w p endpoint started = elim (ping-Outcome w p endpoint started) [
  | inl (first, _) ↦
      subst (IsBounded p.max_response_bytes) (sym first)
        (ping_once-IsBounded (w 1) p endpoint started)
  | inr (second, _, _, _) ↦
      subst (IsBounded p.max_response_bytes) (sym second)
        (ping_once-IsBounded (w 2) p endpoint started)
]
