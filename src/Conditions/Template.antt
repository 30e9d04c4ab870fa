-- ===== src/Conditions/Template.antt =====
-- RenderTemplate of internal/conditions/conditions.go.
pub mod Filling
mod Tests
use w8nc.Base.{
  ℕ, zero, suc, Bool, true, false, ◌&&◌, ◌||◌, Option, none, some, List, [], ◌∷◌, ◌++◌, ltb, leb,
  ◌==◌, if◌then◌else◌, length, take, map,
}
use w8nc.Base.Int.{pos}
use w8nc.Base.Sort.{sort_by}
use w8nc.Base.Text.{Text, codes, text_eq, text_leb, is_empty, trim_space}
use w8nc.Base.Decimal.{itoa}
use w8nc.Models.{
  Endpoint, PingResult, State, unknown, live, warning, offline, deactivated,
  default_notification_template,
}
use w8nc.Conditions.{Evaluation}

-- What the Go library does: the time of a zone in the layout of RFC 3339, where an unknown zone is
-- that of the system, and the runes of a text after `strings.ToValidUTF8`, each as its bytes.
pub record Library : Type 0 where
  pub format_time : Text → ℕ → Text
  pub valid_runes : Text → List Text

-- `[A-Za-z0-9_]`
abbrev pub is_word : ℕ → Bool
is_word c =
    (leb b'A' c && leb c b'Z')
    || (leb b'a' c && leb c b'z')
    || (leb b'0' c && leb c b'9')
    || c == b'_'

-- The longest run of such characters, and what follows it.
unfoldable pub span_word : Text → Text × Text
span_word [] = ([], [])
span_word (c ∷ s) =
    let (word, rest) = span_word s in if is_word c then (c ∷ word, rest) else ([], c ∷ s)

-- `}}`, and what follows it.
abbrev pub after_close : Text → Option Text
after_close [] = none
after_close (c ∷ []) = none
after_close (c ∷ d ∷ s) = if c == b'}' && d == b'}' then some s else none

abbrev pub closed : Text × Text → Option (Text × Text)
closed ([], s) = none
closed (c ∷ word, s) = elim (after_close s) [ none ↦ none | some rest ↦ some (c ∷ word, rest) ]

-- A match of `templateVariablePattern` at the start: the key and what follows.
unfoldable pub token : Text → Option (Text × Text)
unfolding span_word
token [] = none
token (c ∷ []) = none
token (c ∷ d ∷ s) = if c == b'{' && d == b'{' then closed (span_word s) else none

-- `values[key]`, the empty text for a key that is missing.
unfoldable pub value_of : List (Text × Text) → Text → Text
unfolding text_eq
value_of [] key = []
value_of ((name, value) ∷ values) key =
    let rest = value_of values key in if text_eq name key then value else rest

-- ReplaceAllStringFunc, on fuel: each round takes at least one byte.
unfoldable pub replace : ℕ → List (Text × Text) → Text → Text
unfolding token value_of
replace zero values s = []
replace (suc n) values [] = []
replace (suc n) values (c ∷ s) = elim (token (c ∷ s)) [
  | none ↦ c ∷ replace n values s
  | some (key, rest) ↦ value_of values key ++ replace n values rest
]

-- stateForTemplate
unfoldable pub state_for_template : Bool → PingResult → Text
state_for_template false result = codes "deactivated"
state_for_template true result = elim result.status_code [
  | none ↦ codes "offline"
  | some code ↦ if leb 100 code && leb code 399 then codes "live" else codes "warning"
]

-- derefString
abbrev pub deref_string : Option Text → Text
deref_string none = []
deref_string (some s) = s

-- intValueString and int64ValueString
abbrev pub int_value_string : Option ℕ → Text
int_value_string none = []
int_value_string (some n) = itoa (pos n)

abbrev pub joined : List Text → Text
joined [] = []
joined (s ∷ texts) = s ++ joined texts

-- responseBodyString
abbrev pub response_body_string : Library → Text → Text
response_body_string library body =
    let runes = library.valid_runes body in
    if leb (length runes) 12000
    then joined runes
    else joined (take 12000 runes) ++ codes "\n[truncated]"

-- strings.Join
abbrev pub join : Text → List Text → Text
join separator [] = []
join separator (s ∷ []) = s
join separator (s ∷ t ∷ texts) = s ++ (separator ++ join separator (t ∷ texts))

abbrev pub header_before : Text × List Text → Text × List Text → Bool
header_before a b = text_leb a.0 b.0

-- responseHeadersString; the map is the list of its entries.
unfoldable pub response_headers_string : List (Text × List Text) → Text
unfolding sort_by
response_headers_string headers = join (codes "\n") (
    map (λ header. header.0 ++ (codes ": " ++ join (codes ", ") header.1))
      (sort_by header_before headers))

-- The map `values`.
unfoldable pub template_values :
    Library → Endpoint → PingResult → Evaluation → Text → List (Text × Text)
unfolding state_for_template response_headers_string itoa
template_values library endpoint result evaluation zone =
    (codes "endpoint_name", deref_string endpoint.name)
    ∷ (codes "url", endpoint.url)
    ∷ (codes "method", endpoint.http_method)
    ∷ (codes "state", state_for_template endpoint.active result)
    ∷ (codes "condition_type", evaluation.condition_type)
    ∷ (codes "condition_value", evaluation.condition_value)
    ∷ (codes "status_code", int_value_string result.status_code)
    ∷ (codes "previous_status_code", int_value_string endpoint.baseline_status_code)
    ∷ (codes "response_length", int_value_string result.response_length)
    ∷ (codes "previous_response_length", int_value_string endpoint.baseline_response_length)
    ∷ (codes "response_body", response_body_string library result.body)
    ∷ (codes "response_headers", response_headers_string result.response_headers)
    ∷ (codes "duration_ms", itoa (pos result.duration_ms))
    ∷ (codes "checked_at", library.format_time zone result.finished_at)
    ∷ (codes "error", deref_string result.error)
    ∷ []

-- The template, or the default one if it is blank.
abbrev pub chosen : Text → Text
chosen template = if is_empty (trim_space template) then default_notification_template else template

unfoldable pub render_template : Library → Text → Endpoint → PingResult → Evaluation → Text → Text
unfolding replace template_values trim_space
render_template library template endpoint result evaluation zone =
    replace (length (chosen template)) (template_values library endpoint result evaluation zone)
      (chosen template)
