-- ===== src/Conditions/Tests.antt =====
-- Conditions on concrete responses, and the theorems at inputs that meet their hypotheses.
use w8nc.Base.{◌≡◌, refl, ◌↔◌, true, none, some}
use w8nc.Base.Int.{pos}
use w8nc.Base.Result.{ok, err}
use w8nc.Base.Text.{codes, text_eq}
use w8nc.Models.{Endpoint, Condition, str, absent, null}
use w8nc.Models.Sample.{sample, response, equals_200}
use w8nc.Conditions.{
  evaluate, evaluate_kind, kind_of, base_evaluation, body_contains, status_code_equals,
  status_code_changed, response_length_changed, string_value, int_value, validate_condition,
  validate_kind, missing_value, value_required,
}
use w8nc.Conditions.Matching.{Meets, evaluate_iff}

conditions : Unit {0}
unfolding evaluate evaluate_kind kind_of base_evaluation body_contains status_code_equals
    status_code_changed response_length_changed string_value int_value validate_condition
    validate_kind text_eq
conditions = tt

abbrev with_condition : Condition → Endpoint
with_condition condition = record sample { notify_condition = condition }

abbrev contains_well : Condition
contains_well = record {
  type = codes "body_contains";
  value = str (codes "well");
  tolerance_bytes = none;
}

abbrev no_value : Condition
no_value = record { type = codes "body_contains"; value = absent; tolerance_bytes = none }

abbrev length_changed : Condition
length_changed = record {
  type = codes "response_length_changed";
  value = null;
  tolerance_bytes = some (pos 14);
}

evaluations :
    ((evaluate sample response).0.matched ≡ true)
    × ((evaluate sample response).0.condition_value ≡ codes "200")
    × ((evaluate (with_condition contains_well) response).0.matched ≡ true)
    × ((evaluate (with_condition length_changed) response).0.matched ≡ true)
    × ((evaluate (with_condition no_value) response).1 ≡ some missing_value)
unfolding conditions
evaluations = (refl, refl, refl, refl, refl)

validations :
    (validate_condition equals_200 ≡ ok tt)
    × (validate_condition no_value ≡ err value_required)
    × (validate_condition length_changed ≡ ok tt)
unfolding conditions
validations = (refl, refl, refl)

evaluate_iff_example :
    ((evaluate sample response).1 ≡ none)
    × (((evaluate sample response).0.matched ≡ true) ↔ Meets sample response)
evaluate_iff_example = evaluate_iff sample response validations.0
