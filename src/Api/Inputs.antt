-- ===== src/Api/Inputs.antt =====
-- The endpoints that internal/api/server.go makes of an input.
pub mod Peeling
pub mod Sealing
pub mod Accepted
mod Tests
use w8nc.Base.{
  ℕ, ◌*◌, Bool, true, false, not, ◌&&◌, ◌||◌, Option, none, some, List, [], ◌∷◌, ltb, any, ◌==◌,
  if◌then◌else◌, length, map,
}
use w8nc.Base.Int.{ℤ, quot, ltb_ℤ}
use w8nc.Base.Result.{Result, ok, err}
use w8nc.Base.Text.{Text, codes, text_eq, is_empty, trim_space, to_upper}
use w8nc.Conditions.{validate_condition}
use w8nc.Models.{Header, HeaderInput, ProxyConfig, Endpoint, default_notification_template}
use w8nc.Models.Tags.{TagInput, normalize_tag_inputs}
use w8nc.Security.{detect_sensitive, validate_headers}
use w8nc.Store.Editing.{EndpointRecord}
use w8nc.Validation.Address.{normalize_url}
use w8nc.Validation.Interval
use w8nc.Validation.Interval.{second, parse_interval, validate_interval}
use w8nc.Api.{
  EndpointInput, World, Config, Error, of_url, of_headers, of_interval, of_condition, of_tags,
  unsupported_method, screenshot_needs_get, body_too_large, body_has_null, bad_deactivate_after,
  description_too_long, header_needs_value, Check, ◌>>=◌, pure, fail, checked, refuse_if,
  equal_fold, mask, encrypted,
}
use w8nc.Api.Proxies.{prepare_stored_proxy}

abbrev pub methods : List Text
methods =
    codes "GET"
    ∷ codes "HEAD"
    ∷ codes "POST"
    ∷ codes "PUT"
    ∷ codes "PATCH"
    ∷ codes "DELETE"
    ∷ codes "OPTIONS"
    ∷ []

-- allowedMethod
unfoldable pub allowed_method : Text → Bool
unfolding text_eq
allowed_method method = any (text_eq method) methods

abbrev pub max_endpoint_request_body_size : ℕ
max_endpoint_request_body_size = 256 * 1024

-- validatedRequestBody
unfoldable pub validated_request_body : Bool → Text → Check Text
validated_request_body enabled body =
    if not enabled
    then pure []
    else if ltb max_endpoint_request_body_size (length body)
    then fail body_too_large
    else if any (λ c. c == 0) body
    then fail body_has_null
    else pure body

abbrev pub seconds_of : Result Interval.Error ℤ → Check (Option ℤ)
seconds_of (err e) = fail bad_deactivate_after
seconds_of (ok duration) = pure (some (quot duration second))

-- optionalDurationSeconds
unfoldable pub optional_duration_seconds : Text → Check (Option ℤ)
optional_duration_seconds value =
    if is_empty (trim_space value)
    then pure none
    else seconds_of (parse_interval (trim_space value))

abbrev pub or_else : Option Text → Option Text → Option Text
or_else rest none = rest
or_else rest (some secret) = some secret

-- findExistingSecret
unfoldable pub find_secret : Text → List Header → Option Text
find_secret name [] = none
find_secret name (header ∷ headers) =
    let rest = find_secret name headers in
    if equal_fold header.name name then or_else rest header.value_encrypted else rest

abbrev pub find_existing_secret : Text → Option Endpoint → Option Text
find_existing_secret name none = none
find_existing_secret name (some endpoint) = find_secret name endpoint.headers

abbrev pub or_default : Bool → Option Bool → Bool
or_default detected none = detected
or_default detected (some value) = value

-- `masked` and `sensitive`
abbrev pub is_masked : HeaderInput → Bool
is_masked input = or_default (detect_sensitive input.name input.value) input.masked

abbrev pub is_sensitive : HeaderInput → Bool
is_sensitive input = elim input.sensitive [
  | none ↦ is_masked input
  | some sensitive ↦ sensitive || is_masked input
]

abbrev pub secret_header : HeaderInput → Text → Header
secret_header input secret = record {
  name = trim_space input.name;
  value_plain = none;
  value_encrypted = some secret;
  sensitive = true;
  masked = is_masked input;
}

abbrev pub plain_header : HeaderInput → Header
plain_header input = record {
  name = trim_space input.name;
  value_plain = some input.value;
  value_encrypted = none;
  sensitive = false;
  masked = is_masked input;
}

-- `input.Value == "" || input.Value == "********"`
abbrev pub keeps_value : HeaderInput → Bool
keeps_value input = is_empty input.value || text_eq input.value mask

abbrev pub kept_header : HeaderInput → Option Text → Check Header
kept_header input none = fail (header_needs_value (trim_space input.name))
kept_header input (some secret) = pure (secret_header input secret)

-- A round of the loop of prepareHeaders.
unfoldable pub prepare_header : World → Option Endpoint → HeaderInput → Check Header
prepare_header w existing input =
    if not (is_sensitive input)
    then pure (plain_header input)
    else if keeps_value input
    then kept_header input (find_existing_secret (trim_space input.name) existing)
    else (encrypted w input.value >>= λ secret. pure (secret_header input secret))

-- prepareHeaders
unfoldable pub prepare_headers : World → Option Endpoint → List HeaderInput → Check (List Header)
prepare_headers w existing [] = pure []
prepare_headers w existing (input ∷ inputs) = do
  header ← prepare_header w existing input
  headers ← prepare_headers w existing inputs
  pure (header ∷ headers)

abbrev pub method_of : Text → Text
method_of raw =
    let method = to_upper (trim_space raw) in if is_empty method then codes "GET" else method

abbrev pub template_of : Text → Text
template_of template =
    if is_empty (trim_space template) then default_notification_template else template

abbrev pub name_of : Option Text → Option Text
name_of none = none
name_of (some name) = if is_empty (trim_space name) then none else some (trim_space name)

abbrev pub existing_proxy : Option Endpoint → Option ProxyConfig
existing_proxy none = none
existing_proxy (some endpoint) = some endpoint.proxy

-- `intervalChanged`
abbrev pub interval_changed : Option Endpoint → ℤ → Bool
interval_changed none seconds = false
interval_changed (some endpoint) seconds =
    ltb_ℤ endpoint.ping_interval_seconds seconds || ltb_ℤ seconds endpoint.ping_interval_seconds

abbrev pub default_once : Option Endpoint → Bool
default_once none = true
default_once (some endpoint) = endpoint.notify_once

-- `notifyOnce`
abbrev pub once_of : Option Endpoint → Option Bool → Bool
once_of existing none = default_once existing
once_of existing (some once) = once

-- endpointRecord up to the body of the request: the URL and the body.
unfoldable pub request_part : World → Config → EndpointInput → Check (Text × Text)
request_part w config input = do
  url ← checked of_url (normalize_url w.net input.url config.allow_private_targets)
  _ ← refuse_if (not (allowed_method (method_of input.http_method))) unsupported_method
  _ ←
      refuse_if
        (input.screenshot_on_match && not (text_eq (method_of input.http_method) (codes "GET")))
        screenshot_needs_get
  _ ← checked of_headers (validate_headers input.headers)
  body ← validated_request_body input.request_body_enabled input.request_body
  pure (url, body)

-- Up to the condition: the seconds of the interval, and those until the deadline.
unfoldable pub schedule_part : Config → EndpointInput → Check (ℤ × Option ℤ)
schedule_part config input = do
  seconds ←
      checked of_interval
        (validate_interval input.ping_interval config.min_ping_interval config.max_ping_interval)
  deactivate_after ← optional_duration_seconds input.deactivate_after
  _ ← checked of_condition (validate_condition input.notify_condition)
  pure (seconds, deactivate_after)

-- Up to the description: the headers, the proxy and the tags.
unfoldable pub stored_part :
    World → EndpointInput → Option Endpoint → Check (List Header × ProxyConfig × List TagInput)
stored_part w input existing = do
  headers ← prepare_headers w existing input.headers
  stored ← prepare_stored_proxy w input.proxy (existing_proxy existing)
  tags ← checked of_tags (normalize_tag_inputs input.tags)
  _ ← refuse_if (ltb 200 (w.count_runes (trim_space input.description))) description_too_long
  pure (headers, stored.0, tags)

-- The record, and whether the interval has changed.
unfoldable pub made_record :
    EndpointInput
    → Option Endpoint
    → Text × Text
    → ℤ × Option ℤ
    → List Header × ProxyConfig × List TagInput
    → EndpointRecord × Bool
made_record input existing (url, body) (seconds, deactivate_after) (headers, proxy, tags) = (
  record {
    name = name_of input.name;
    description = trim_space input.description;
    url = url;
    http_method = method_of input.http_method;
    headers = headers;
    request_body_enabled = input.request_body_enabled;
    request_body = body;
    proxy = proxy;
    ping_interval_seconds = seconds;
    deactivate_after_seconds = deactivate_after;
    notify_condition = input.notify_condition;
    continue_on_match = not (once_of existing input.notify_once);
    notification_template = template_of input.notification_template;
    screenshot_on_match = input.screenshot_on_match;
    tags = tags;
    active = input.active;
  },
  interval_changed existing seconds,
)

-- endpointRecord
unfoldable pub endpoint_record :
    World → Config → EndpointInput → Option Endpoint → Check (EndpointRecord × Bool)
endpoint_record w config input existing = do
  request ← request_part w config input
  schedule ← schedule_part config input
  stored ← stored_part w input existing
  pure (made_record input existing request schedule stored)
