-- ===== src/Conditions/Template/Tests.antt =====
-- Templates on concrete inputs, and the theorem at inputs that meet its hypotheses.
use w8nc.Base.{◌≡◌, refl, true, none, List, [], ◌∷◌}
use w8nc.Base.Sort.{insert_by, sort_by}
use w8nc.Base.Text.{Text, codes, text_eq, trim_space, trim_left}
use w8nc.Base.Decimal.{digits, print_ℕ, itoa}
use w8nc.Models.{PingResult}
use w8nc.Models.Sample.{sample, response}
use w8nc.Conditions.{Evaluation}
use w8nc.Conditions.Template.{
  Library, span_word, token, value_of, replace, state_for_template, response_headers_string,
  template_values, render_template,
}
use w8nc.Conditions.Template.Filling.{Piece, plain, variable, filled, render_template_fills}

templates : Unit {0}
unfolding render_template replace token span_word value_of state_for_template
    response_headers_string template_values itoa print_ℕ digits insert_by sort_by text_eq trim_space
    trim_left
templates = tt

abbrev library : Library
library = record { format_time = λ zone at. zone; valid_runes = λ body. body ∷ [] }

abbrev evaluation : Evaluation
evaluation = record {
  matched = true;
  condition_type = codes "status_code_equals";
  condition_value = codes "200";
  baseline_status = none;
  baseline_length = none;
}

abbrev with_headers : PingResult
with_headers = record response {
  response_headers = (codes "Via", codes "b" ∷ []) ∷ (codes "Age", codes "1" ∷ codes "2" ∷ []) ∷ [];
}

abbrev template : Text
template = codes "{{{url}} {{none}}is {{state}}"

abbrev pieces : List Piece
pieces =
    variable (codes "url")
    ∷ plain (codes " is ")
    ∷ variable (codes "none")
    ∷ variable (codes "status_code")
    ∷ []

rendered :
    (render_template library (codes "{{{url}} {{none}}is {{state}}") sample response evaluation []
      ≡ codes "{https://a.b is live")
    × (render_template library (codes "{{response_headers}}") sample with_headers evaluation []
        ≡ codes "Age: 1, 2\nVia: b")
unfolding templates
rendered = (refl, refl)

render_template_fills_example :
    render_template library
      (codes "{{url}} is {{none}}{{status_code}}")
      sample
      response
      evaluation
      []
    ≡ filled (template_values library sample response evaluation []) pieces
unfolding templates
render_template_fills_example =
    render_template_fills library (codes "{{url}} is {{none}}{{status_code}}") sample response
      evaluation [] pieces
      (
        ((λ e. absurd (cc e)), refl),
        (
          (refl, (refl, (refl, (refl, tt)))),
          (((λ e. absurd (cc e)), refl), (((λ e. absurd (cc e)), refl), tt)),
        ),
      )
      refl
