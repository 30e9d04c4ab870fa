-- ===== src/Conditions/Matching.antt =====
-- What a condition means, next to what Evaluate computes (internal/conditions/conditions.go).
use w8nc.Base.{
  ℕ, ◌+◌, ◌<◌, ◌≡◌, ◌≢◌, refl, sym, ap, ◌↔◌, ◌⊎◌, inl, inr, Bool, true, false, Option, none, some,
  [], ◌++◌, arith,
}
use w8nc.Base.Int.{ℤ, pos, negsuc}
use w8nc.Base.Result.{ok, Result-cases, ok-injective}
use w8nc.Base.Text.{Text, contains_iff}
use w8nc.Models.{Endpoint, PingResult, RawMessage, absent, null, other, str, int}
use w8nc.Conditions.{
  set_status_change, length_moved, tolerance_valid, Evaluation, Kind, body, status, changed, length,
  evaluate, evaluate_kind, kind_of, base_evaluation, validate_kind, validate_condition, or_else,
  unless_truncated, tolerance_of, body_contains, status_code_equals, status_code_changed,
  response_length_changed, string_value, int_value,
}

-- The condition of each kind, independent of the code: the body has the text as a factor; the
-- status is the number; the status differs from the baseline; the length of a complete response
-- is more than the tolerance away from the baseline.
abbrev pub MeetsKind : Option Kind → Endpoint → PingResult → Type 0
MeetsKind none endpoint result = ⊥
MeetsKind (some body) endpoint result =
    (target : Text) × (x : Text) × (y : Text) × (endpoint.notify_condition.value ≡ str target)
    × (target ≢ [])
    × (result.body ≡ x ++ (target ++ y))
MeetsKind (some status) endpoint result =
    (target : ℕ) × (endpoint.notify_condition.value ≡ int (pos target))
    × (result.status_code ≡ some target)
MeetsKind (some changed) endpoint result =
    (old : ℕ) × (new : ℕ) × (endpoint.baseline_status_code ≡ some old)
    × (result.status_code ≡ some new)
    × (old ≢ new)
MeetsKind (some length) endpoint result =
    (old : ℕ) × (new : ℕ) × (endpoint.baseline_response_length ≡ some old)
    × (result.response_length ≡ some new)
    × (result.truncated ≡ false)
    × ((t : ℕ) × (tolerance_of endpoint.notify_condition.tolerance_bytes ≡ pos t)
        × ((old + t < new) ⊎ (new + t < old)))

-- A condition that passes ValidateCondition never makes Evaluate fail.
validated_kind-no_error :
    (kind : Option Kind) (endpoint : Endpoint) (result : PingResult) (evaluation : Evaluation)
    → validate_kind kind endpoint.notify_condition ≡ ok tt
    → (evaluate_kind kind endpoint result evaluation).1 ≡ none
unfolding validate_kind evaluate_kind body_contains status_code_equals status_code_changed
    response_length_changed
validated_kind-no_error none endpoint result evaluation h = absurd (cc)
validated_kind-no_error (some body) endpoint result evaluation h = ground arith
validated_kind-no_error (some status) endpoint result evaluation h = ground arith
validated_kind-no_error (some changed) endpoint result evaluation h = refl
validated_kind-no_error (some length) endpoint result evaluation h = refl

string_value-eq-ok :
    (value : RawMessage) (t : Text) → string_value value ≡ ok t → t ≢ [] → value ≡ str t
unfolding string_value
string_value-eq-ok absent t e n = absurd (cc)
string_value-eq-ok null t e n = absurd (n (sym (ok-injective e)))
string_value-eq-ok (str s) t e n = ap str (ok-injective e)
string_value-eq-ok (int z) t e n = absurd (cc)
string_value-eq-ok other t e n = absurd (cc)

int_value-eq-ok : (value : RawMessage) (z : ℤ) → int_value value ≡ ok z → z ≢ pos 0 → value ≡ int z
unfolding int_value
int_value-eq-ok absent z e n = absurd (cc)
int_value-eq-ok null z e n = absurd (n (sym (ok-injective e)))
int_value-eq-ok (int y) z e n = ground arith
int_value-eq-ok (str s) z e n = absurd (cc)
int_value-eq-ok other z e n = absurd (cc)

status_change_iff :
    (o n : Option ℕ) (evaluation : Evaluation)
    → evaluation.matched ≡ false
    → ((set_status_change o n evaluation).matched ≡ true)
      ↔ ((old : ℕ) × (new : ℕ) × (o ≡ some old) × (n ≡ some new) × (old ≢ new))
status_change_iff none n evaluation h = ((λ m. absurd (cc)), λ e. absurd (cc (e.2)))
status_change_iff (some old) none evaluation h = ((λ m. absurd (cc)), λ e. absurd (cc (e.3)))
status_change_iff (some old) (some new) evaluation h =
    ((λ m. (old, new, refl, refl, ground arith)), (λ e. ground (arith, e.2, e.3, e.4)))

change_keeps :
    (o n : Option ℕ) (evaluation : Evaluation)
    → (set_status_change o n evaluation).baseline_status ≡ evaluation.baseline_status
change_keeps none n evaluation = refl
change_keeps (some old) none evaluation = refl
change_keeps (some old) (some new) evaluation = refl

change_keeps_length :
    (o n : Option ℕ) (evaluation : Evaluation)
    → (set_status_change o n evaluation).baseline_length ≡ evaluation.baseline_length
change_keeps_length none n evaluation = refl
change_keeps_length (some old) none evaluation = refl
change_keeps_length (some old) (some new) evaluation = refl

-- A difference of lengths above a tolerance that is not negative.
length_moved_iff :
    (o n : Option ℕ) (t : ℕ)
    → (length_moved o n (pos t) ≡ true) ↔ (
        (old : ℕ) × (new : ℕ) × (o ≡ some old)
        × (n ≡ some new)
        × ((old + t < new) ⊎ (new + t < old)))
length_moved_iff none n t = ((λ m. absurd (cc)), λ e. absurd (cc (e.2)))
length_moved_iff (some old) none t = ((λ m. absurd (cc)), λ e. absurd (cc (e.3)))
length_moved_iff (some old) (some new) t =
    ((λ m. (old, new, refl, refl, ground arith)), (λ e. ground (arith, e.2, e.3, e.4)))

tolerance_of_validated :
    (tolerance : Option ℤ)
    → tolerance_valid tolerance ≡ ok tt
    → (t : ℕ) × (tolerance_of tolerance ≡ pos t)
tolerance_of_validated none h = (0, refl)
tolerance_of_validated (some (pos t)) h = (t, refl)
tolerance_of_validated (some (negsuc t)) h = absurd (ground arith)

unless_truncated_iff :
    (b : Bool) (o : Option ℕ) (n : ℕ)
    → (unless_truncated b o ≡ some n) ↔ ((o ≡ some n) × (b ≡ false))
unless_truncated_iff true o n = ((λ e. absurd (cc)), λ e. absurd (cc (e.1)))
unless_truncated_iff false o n = ((λ e. (e, refl)), λ e. e.0)

module _ (endpoint : Endpoint) (result : PingResult) (evaluation : Evaluation) where
  abbrev Matched : Option Kind → Type 0
  Matched kind = (evaluate_kind kind endpoint result evaluation).0.matched ≡ true

  abbrev Validated : Option Kind → Type 0
  Validated kind = validate_kind kind endpoint.notify_condition ≡ ok tt

  body_sound : Validated (some body) → Matched (some body) → MeetsKind (some body) endpoint result
  unfolding validate_kind evaluate_kind body_contains
  body_sound h m = elim (Result-cases (string_value endpoint.notify_condition.value)) [
    | inl (t, e) ↦
        let full : t ≢ [] = ground arith in
        let (x, y, split) = (contains_iff result.body t).0 (ground arith) in
        (t, x, y, string_value-eq-ok endpoint.notify_condition.value t e full, full, split)
    | inr (e, bad) ↦ absurd (ground arith)
  ]

  body_complete : MeetsKind (some body) endpoint result → Matched (some body)
  unfolding evaluate_kind body_contains
  body_complete (t, x, y, value, full, split) =
      ground (arith, (contains_iff result.body t).1 (x, y, split), value, full)

  status_sound :
      Validated (some status) → Matched (some status) → MeetsKind (some status) endpoint result
  unfolding validate_kind evaluate_kind status_code_equals
  status_sound h m = elim (Result-cases (int_value endpoint.notify_condition.value)) [
    | inl (pos n, e) ↦
        (n, int_value-eq-ok endpoint.notify_condition.value (pos n) e (ground arith), ground arith)
    | inl (negsuc n, e) ↦ absurd (ground arith)
    | inr (e, bad) ↦ absurd (ground arith)
  ]

  status_complete :
      Validated (some status) → MeetsKind (some status) endpoint result → Matched (some status)
  unfolding validate_kind evaluate_kind status_code_equals
  status_complete h (n, value, e) = ground arith

  length_sound :
      Validated (some length) → Matched (some length) → MeetsKind (some length) endpoint result
  unfolding validate_kind evaluate_kind response_length_changed
  length_sound h m =
      let (t, e) = tolerance_of_validated endpoint.notify_condition.tolerance_bytes h in
      let (old, new, e1, e2, far) = (length_moved_iff _ _ t).0 (rw e at m) in
      let (e3, complete) = (unless_truncated_iff _ _ new).0 e2 in
      (old, new, e1, e3, complete, (t, e, far))

  length_complete : MeetsKind (some length) endpoint result → Matched (some length)
  unfolding evaluate_kind response_length_changed
  length_complete (old, new, e1, e3, complete, (t, e, far)) = rw e (
      (length_moved_iff _ _ t).1
        (old, new, e1, (unless_truncated_iff _ _ new).1 (e3, complete), far))

  module _ (fresh : evaluation.matched ≡ false) where
    changed_iff : Matched (some changed) ↔ MeetsKind (some changed) endpoint result
    unfolding evaluate_kind status_code_changed
    changed_iff =
        status_change_iff endpoint.baseline_status_code result.status_code evaluation fresh

    matching_iff :
        (kind : Option Kind) → Validated kind → Matched kind ↔ MeetsKind kind endpoint result
    unfolding validate_kind
    matching_iff none h = absurd (cc)
    matching_iff (some body) h = (body_sound h, body_complete)
    matching_iff (some status) h = (status_sound h, status_complete h)
    matching_iff (some changed) h = changed_iff
    matching_iff (some length) h = (length_sound h, length_complete)

-- A condition is met: its type is one of the four, and what that type means holds.
abbrev pub Meets : Endpoint → PingResult → Type 0
Meets endpoint result = MeetsKind (kind_of endpoint.notify_condition.type) endpoint result

-- For a condition that passes ValidateCondition, Evaluate returns no error, and it reports a match
-- exactly when the condition is met.
pub evaluate_iff :
    (endpoint : Endpoint) (result : PingResult)
    → validate_condition endpoint.notify_condition ≡ ok tt
    → ((evaluate endpoint result).1 ≡ none)
      × (((evaluate endpoint result).0.matched ≡ true) ↔ Meets endpoint result)
unfolding evaluate validate_condition base_evaluation
evaluate_iff endpoint result h =
    let kind = kind_of endpoint.notify_condition.type in
    (
      validated_kind-no_error kind endpoint result (base_evaluation endpoint result) h,
      matching_iff endpoint result (base_evaluation endpoint result) refl kind h,
    )

evaluate_kind-baselines :
    (kind : Option Kind) (endpoint : Endpoint) (result : PingResult) (evaluation : Evaluation)
    → ((evaluate_kind kind endpoint result evaluation).0.baseline_status
        ≡ evaluation.baseline_status)
      × ((evaluate_kind kind endpoint result evaluation).0.baseline_length
          ≡ evaluation.baseline_length)
      × (((evaluate_kind kind endpoint result evaluation).1 ≡ none)
          ⊎ ((evaluate_kind kind endpoint result evaluation).0.matched ≡ evaluation.matched))
unfolding evaluate_kind body_contains status_code_equals status_code_changed response_length_changed
evaluate_kind-baselines none endpoint result evaluation = (refl, refl, inr refl)
evaluate_kind-baselines (some body) endpoint result evaluation =
    (ground arith, ground arith, grind arith)
evaluate_kind-baselines (some status) endpoint result evaluation =
    (ground arith, ground arith, grind arith)
evaluate_kind-baselines (some changed) endpoint result evaluation = (
  change_keeps endpoint.baseline_status_code result.status_code evaluation,
  change_keeps_length endpoint.baseline_status_code result.status_code evaluation,
  inl refl,
)
evaluate_kind-baselines (some length) endpoint result evaluation = (refl, refl, inl refl)

-- Whatever the condition, and also when Evaluate fails, the new baselines are the status of the
-- response, if there is one, and its length, if it is there and not truncated; else the old ones.
-- If Evaluate reports an error, it reports no match.
pub evaluate_baselines :
    (endpoint : Endpoint) (result : PingResult)
    → ((evaluate endpoint result).0.baseline_status
        ≡ or_else result.status_code endpoint.baseline_status_code)
      × ((evaluate endpoint result).0.baseline_length
          ≡ or_else
              (unless_truncated result.truncated result.response_length)
              endpoint.baseline_response_length)
      × (((evaluate endpoint result).1 ≡ none) ⊎ ((evaluate endpoint result).0.matched ≡ false))
unfolding evaluate base_evaluation
evaluate_baselines endpoint result =
    evaluate_kind-baselines (kind_of endpoint.notify_condition.type) endpoint result
      (base_evaluation endpoint result)
