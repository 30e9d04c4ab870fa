-- ===== src/Conditions.antt =====
-- internal/conditions/conditions.go: when an endpoint's condition matches a ping result.
pub mod Matching
pub mod Template
mod Tests
use w8nc.Base.{
  ℕ, ◌+◌, ◌-◌, ◌≤◌, Bool, true, false, not, ◌&&◌, ◌||◌, Option, none, some, List, [], ◌∷◌, ltb, leb,
  ◌==◌, if◌then◌else◌,
}
use w8nc.Base.Int.{ℤ, pos, negsuc, neg, sub_ℕ, ltb_ℤ, two_63}
use w8nc.Base.Result.{Result, ok, err}
use w8nc.Base.Text.{Text, codes, text_eq, is_empty, contains}
use w8nc.Base.Decimal.{itoa}
use w8nc.Models.{Endpoint, PingResult, Condition, RawMessage, absent, null, other, str, int}

pub data Error : Type 0 where
  missing_value not_a_string not_an_integer : Error
  unsupported_type : Text → Error

pub record Evaluation : Type 0 where
  pub matched : Bool
  pub condition_type : Text
  pub condition_value : Text
  pub baseline_status : Option ℕ
  pub baseline_length : Option ℕ

-- `json.Unmarshal` into a string: `null` leaves the empty string.
unfoldable pub string_value : RawMessage → Result Error Text
string_value absent = err missing_value
string_value null = ok []
string_value (str s) = ok s
string_value (int z) = err not_a_string
string_value other = err not_a_string

abbrev pub in_int64 : ℤ → Bool
in_int64 (pos n) = ltb n two_63
in_int64 (negsuc n) = ltb n two_63

-- `json.Unmarshal` into an `int`: `null` leaves 0.
unfoldable pub int_value : RawMessage → Result Error ℤ
int_value absent = err missing_value
int_value null = ok (pos 0)
int_value (int z) = if in_int64 z then ok z else err not_an_integer
int_value (str s) = err not_an_integer
int_value other = err not_an_integer

abbrev pub or_else {ℓ} : {A : Type ℓ} → Option A → Option A → Option A
or_else none old = old
or_else (some a) old = some a

abbrev pub unless_truncated {ℓ} : {A : Type ℓ} → Bool → Option A → Option A
unless_truncated true a = none
unless_truncated false a = a

-- The evaluation before the `switch`.
unfoldable pub base_evaluation : Endpoint → PingResult → Evaluation
base_evaluation endpoint result = record {
  matched = false;
  condition_type = endpoint.notify_condition.type;
  condition_value = [];
  baseline_status = or_else result.status_code endpoint.baseline_status_code;
  baseline_length =
      or_else (unless_truncated result.truncated result.response_length)
        endpoint.baseline_response_length;
}

-- case "body_contains"
unfoldable pub body_contains : Endpoint → PingResult → Evaluation → Evaluation × Option Error
unfolding contains string_value
body_contains endpoint result evaluation = elim (string_value endpoint.notify_condition.value) [
  | err e ↦ (evaluation, some e)
  | ok target ↦ (
    record evaluation {
      condition_value = target;
      matched = not (is_empty target) && contains result.body target;
    },
    none,
  )
]

abbrev pub is_status : Option ℕ → ℤ → Bool
is_status (some status) (pos target) = status == target
is_status (some status) (negsuc n) = false
is_status none target = false

-- case "status_code_equals"
unfoldable pub status_code_equals : Endpoint → PingResult → Evaluation → Evaluation × Option Error
unfolding int_value itoa
status_code_equals endpoint result evaluation = elim (int_value endpoint.notify_condition.value) [
  | err e ↦ (evaluation, some e)
  | ok target ↦ (
    record evaluation {
      condition_value = itoa target;
      matched = is_status result.status_code target;
    },
    none,
  )
]

abbrev pub set_status_change : Option ℕ → Option ℕ → Evaluation → Evaluation
set_status_change (some old) (some new) evaluation = record evaluation {
  matched = not (old == new);
  condition_value = itoa (pos old);
}
set_status_change (some old) none evaluation = evaluation
set_status_change none new evaluation = evaluation

-- case "status_code_changed"
unfoldable pub status_code_changed : Endpoint → PingResult → Evaluation → Evaluation × Option Error
unfolding itoa
status_code_changed endpoint result evaluation =
    (set_status_change endpoint.baseline_status_code result.status_code evaluation, none)

abbrev pub tolerance_of : Option ℤ → ℤ
tolerance_of none = pos 0
tolerance_of (some tolerance) = tolerance

-- `diff := old - new; if diff < 0 { diff = -diff }`
abbrev pub distance : ℕ → ℕ → ℤ
distance old new = let diff = sub_ℕ old new in if ltb_ℤ diff (pos 0) then neg diff else diff

abbrev pub length_moved : Option ℕ → Option ℕ → ℤ → Bool
length_moved (some old) (some new) tolerance = ltb_ℤ tolerance (distance old new)
length_moved (some old) none tolerance = false
length_moved none new tolerance = false

-- case "response_length_changed"
unfoldable pub response_length_changed :
    Endpoint → PingResult → Evaluation → Evaluation × Option Error
unfolding itoa
response_length_changed endpoint result evaluation =
    let tolerance = tolerance_of endpoint.notify_condition.tolerance_bytes in
    (
      record evaluation {
        condition_value = itoa tolerance;
        matched =
            length_moved endpoint.baseline_response_length
              (unless_truncated result.truncated result.response_length) tolerance;
      },
      none,
    )

-- The four types of condition.
pub data Kind : Type 0 where
  body status changed length : Kind

unfoldable pub kind_of : Text → Option Kind
unfolding text_eq
kind_of type =
    if text_eq type (codes "body_contains")
    then some body
    else if text_eq type (codes "status_code_equals")
    then some status
    else if text_eq type (codes "status_code_changed")
    then some changed
    else if text_eq type (codes "response_length_changed")
    then some length
    else none

-- The `switch` of Evaluate.
unfoldable pub evaluate_kind :
    Option Kind → Endpoint → PingResult → Evaluation → Evaluation × Option Error
evaluate_kind none endpoint result evaluation =
    (evaluation, some (unsupported_type endpoint.notify_condition.type))
evaluate_kind (some body) endpoint result evaluation = body_contains endpoint result evaluation
evaluate_kind (some status) endpoint result evaluation =
    status_code_equals endpoint result evaluation
evaluate_kind (some changed) endpoint result evaluation =
    status_code_changed endpoint result evaluation
evaluate_kind (some length) endpoint result evaluation =
    response_length_changed endpoint result evaluation

unfoldable pub evaluate : Endpoint → PingResult → Evaluation × Option Error
evaluate endpoint result =
    evaluate_kind (kind_of endpoint.notify_condition.type) endpoint result
      (base_evaluation endpoint result)

pub data Invalid : Type 0 where
  value_required bad_status_code negative_tolerance unsupported : Invalid

abbrev nonempty_text : Result Error Text → Result Invalid (Unit {0})
nonempty_text (err e) = err value_required
nonempty_text (ok s) = if is_empty s then err value_required else ok tt

abbrev status_in_range : Result Error ℤ → Result Invalid (Unit {0})
status_in_range (err e) = err bad_status_code
status_in_range (ok z) =
    if ltb_ℤ z (pos 100) || ltb_ℤ (pos 599) z then err bad_status_code else ok tt

abbrev pub tolerance_valid : Option ℤ → Result Invalid (Unit {0})
tolerance_valid none = ok tt
tolerance_valid (some z) = if ltb_ℤ z (pos 0) then err negative_tolerance else ok tt

unfoldable pub validate_kind : Option Kind → Condition → Result Invalid (Unit {0})
unfolding string_value int_value
validate_kind none condition = err unsupported
validate_kind (some body) condition = nonempty_text (string_value condition.value)
validate_kind (some status) condition = status_in_range (int_value condition.value)
validate_kind (some changed) condition = ok tt
validate_kind (some length) condition = tolerance_valid condition.tolerance_bytes

-- ValidateCondition
unfoldable pub validate_condition : Condition → Result Invalid (Unit {0})
unfolding validate_kind
validate_condition condition = validate_kind (kind_of condition.type) condition
