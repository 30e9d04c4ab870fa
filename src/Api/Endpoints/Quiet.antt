-- ===== src/Api/Endpoints/Quiet.antt =====
-- What internal/api/server.go reads of the store before it accepts an endpoint changes no table.
use w8nc.Base.{
  ◌≡◌, refl, inl, inr, Bool-cases, ◌∙◌, Bool, true, false, not, Option, none, some, List, [], ◌∷◌,
  ltb, any, if◌then◌else◌, length, ◌==◌,
}
use w8nc.Base.Int.{ℤ}
use w8nc.Base.Result.{Result, ok, err}
use w8nc.Base.Text.{Text, is_empty, trim_space}
use w8nc.Conditions.{validate_condition}
use w8nc.Models.{HeaderInput, ProxyConfig, Endpoint}
use w8nc.Models.Tags.{normalize_tag_inputs}
use w8nc.Security.{validate_headers}
use w8nc.Store
use w8nc.Store.{Conn}
use w8nc.Store.Rules.{query_db}
use w8nc.Store.Secrets.{last_proxy_config}
use w8nc.Validation.Address.{normalize_url, normalize_socks5_proxy_address}
use w8nc.Validation.Interval
use w8nc.Validation.Interval.{parse_interval, validate_interval}
use w8nc.Api.{
  World, Config, EndpointInput, Error, of_url, of_headers, of_interval, of_condition, of_tags,
  Check, and_then, ◌>>=◌, checked, refuse_if, sealed_text, encrypted_by, encrypted,
}
use w8nc.Api.Proxies.{
  normalized_proxy, last_found, last_proxy_password, copied, from_last, not_kept, kept_or_last,
  sealed, stored_from, prepare_stored_proxy, existing_secret, is_unchanged,
}
use w8nc.Api.Inputs.{
  max_endpoint_request_body_size, validated_request_body, seconds_of, optional_duration_seconds,
  find_existing_secret, kept_header, is_sensitive, keeps_value, prepare_header, prepare_headers,
  request_part, schedule_part, stored_part, endpoint_record, existing_proxy,
}

-- The check leaves the tables as they are.
abbrev pub Quiet : {A : Type 0} → Check A → Type 0
Quiet check = (c : Conn) → (check c).1.db ≡ c.db

>>=-Quiet :
    {A B : Type 0} (first : Check A) (next : A → Check B)
    → Quiet first
    → ((a : A) → Quiet (next a))
    → Quiet (first >>= next)
unfolding and_then
>>=-Quiet {A} {B} first next quiet rest c = go (first c) (quiet c)
  where
    go : (r : Result Error A × Conn) → r.1.db ≡ c.db → (and_then next r).1.db ≡ c.db
    go (ok a, between) e = rest a between ∙ e
    go (err reason, between) e = e

if-Quiet : {A : Type 0} (b : Bool) (x y : Check A) → Quiet x → Quiet y → Quiet (if b then x else y)
if-Quiet true x y hx hy = hx
if-Quiet false x y hx hy = hy

checked-Quiet : {E A : Type 0} (f : E → Error) (r : Result E A) → Quiet (checked f r)
checked-Quiet f (ok a) c = refl
checked-Quiet f (err e) c = refl

refuse_if-Quiet : (test : Bool) (e : Error) → Quiet (refuse_if test e)
refuse_if-Quiet true e c = refl
refuse_if-Quiet false e c = refl

encrypted_by-Quiet :
    (box : Option (Text → Option Text)) (value : Text) → Quiet (encrypted_by box value)
encrypted_by-Quiet none value c = refl
encrypted_by-Quiet (some seal) value c = go (seal value)
  where
    go : (text : Option Text) → (sealed_text text c).1.db ≡ c.db
    go none = refl
    go (some text) = refl

encrypted-Quiet : (w : World) (value : Text) → Quiet (encrypted w value)
encrypted-Quiet w value = encrypted_by-Quiet w.encrypt value

last_proxy_password-Quiet : (proxy : ProxyConfig) → Quiet (last_proxy_password proxy)
unfolding last_proxy_password last_proxy_config
last_proxy_password-Quiet proxy c = go (last_proxy_config c) (query_db _ c)
  where
    go :
        (r : Result Store.Error ProxyConfig × Conn)
        → r.1.db ≡ c.db
        → (last_found proxy r).1.db ≡ c.db
    go (ok last, c') e = e
    go (err Store.Error.no_rows, c') e = e
    go (err Store.Error.invalid_state, c') e = e
    go (err Store.Error.failed, c') e = e
    go (err (Store.Error.bad_tags b), c') e = e

copied-Quiet : (proxy : ProxyConfig) (found : Option Text) → Quiet (copied proxy found)
copied-Quiet proxy none c = refl
copied-Quiet proxy (some secret) c = refl

from_last-Quiet : (proxy : ProxyConfig) (has_one : Bool) → Quiet (from_last proxy has_one)
from_last-Quiet proxy false = λ c. refl
from_last-Quiet proxy true =
    >>=-Quiet (last_proxy_password proxy) _ (last_proxy_password-Quiet proxy) (copied-Quiet proxy)

not_kept-Quiet : (check : Check ProxyConfig) → Quiet check → Quiet (not_kept check)
not_kept-Quiet check quiet = >>=-Quiet check _ quiet (λ proxy c. refl)

kept_or_last-Quiet :
    (input proxy : ProxyConfig) (secret : Option Text) → Quiet (kept_or_last input proxy secret)
kept_or_last-Quiet input proxy (some secret) = λ c. refl
kept_or_last-Quiet input proxy none =
    not_kept-Quiet (from_last proxy input.password_set) (from_last-Quiet proxy input.password_set)

normalized_proxy-Quiet : (w : World) (input : ProxyConfig) → Quiet (normalized_proxy w input)
unfolding normalized_proxy
normalized_proxy-Quiet w input = elim (Bool-cases input.enabled) [
  | inl on ↦ rw on (
      >>=-Quiet (checked of_url (normalize_socks5_proxy_address w.net input.address)) _
        (checked-Quiet of_url (normalize_socks5_proxy_address w.net input.address))
        (λ address.
          >>=-Quiet (refuse_if _ _) _ (refuse_if-Quiet _ _)
            (λ _. >>=-Quiet (refuse_if _ _) _ (refuse_if-Quiet _ _) (λ _ c. refl))))
  | inr off ↦ rw off (λ c. refl)
]

stored_from-Quiet :
    (w : World) (input : ProxyConfig) (existing : Option ProxyConfig) (proxy : ProxyConfig)
    → Quiet (stored_from w input existing proxy)
unfolding stored_from
stored_from-Quiet w input existing proxy =
    if-Quiet (not proxy.enabled) _ _ (λ c. refl)
      (if-Quiet (is_empty proxy.username) _ _
        (>>=-Quiet (refuse_if _ _) _ (refuse_if-Quiet _ _) (λ _ c. refl))
        (if-Quiet (is_unchanged input.password) _ _
          (kept_or_last-Quiet input proxy (existing_secret existing))
          (not_kept-Quiet (sealed w input proxy) (
            >>=-Quiet (encrypted w input.password) _ (encrypted-Quiet w input.password)
              (λ secret c. refl)))))

prepare_stored_proxy-Quiet :
    (w : World) (input : ProxyConfig) (existing : Option ProxyConfig)
    → Quiet (prepare_stored_proxy w input existing)
unfolding prepare_stored_proxy
prepare_stored_proxy-Quiet w input existing =
    >>=-Quiet (normalized_proxy w input) _ (normalized_proxy-Quiet w input)
      (stored_from-Quiet w input existing)

validated_request_body-Quiet :
    (enabled : Bool) (body : Text) → Quiet (validated_request_body enabled body)
unfolding validated_request_body
validated_request_body-Quiet false body = λ c. refl
validated_request_body-Quiet true body =
    if-Quiet (ltb max_endpoint_request_body_size (length body)) _ _ (λ c. refl)
      (if-Quiet (any (λ b. b == 0) body) _ _ (λ c. refl) (λ c. refl))

request_part-Quiet :
    (w : World) (config : Config) (input : EndpointInput) → Quiet (request_part w config input)
unfolding request_part
request_part-Quiet w config input =
    >>=-Quiet (checked of_url (normalize_url w.net input.url config.allow_private_targets)) _
      (checked-Quiet of_url (normalize_url w.net input.url config.allow_private_targets))
      (λ url. >>=-Quiet (refuse_if _ _) _ (refuse_if-Quiet _ _) (λ _.
        >>=-Quiet (refuse_if _ _) _ (refuse_if-Quiet _ _) (λ _.
          >>=-Quiet (checked of_headers (validate_headers input.headers)) _
            (checked-Quiet of_headers (validate_headers input.headers))
            (λ _.
              >>=-Quiet (validated_request_body input.request_body_enabled input.request_body) _
                (validated_request_body-Quiet input.request_body_enabled input.request_body)
                (λ body c. refl)))))

seconds_of-Quiet : (r : Result Interval.Error ℤ) → Quiet (seconds_of r)
seconds_of-Quiet (err e) c = refl
seconds_of-Quiet (ok duration) c = refl

schedule_part-Quiet : (config : Config) (input : EndpointInput) → Quiet (schedule_part config input)
unfolding schedule_part optional_duration_seconds
schedule_part-Quiet config input =
    let interval =
      validate_interval input.ping_interval config.min_ping_interval config.max_ping_interval in
    >>=-Quiet (checked of_interval interval) _ (checked-Quiet of_interval interval) (λ seconds.
      >>=-Quiet (optional_duration_seconds input.deactivate_after) _
        (if-Quiet (is_empty (trim_space input.deactivate_after)) _ _ (λ c. refl)
          (seconds_of-Quiet (parse_interval (trim_space input.deactivate_after))))
        (λ after.
          >>=-Quiet (checked of_condition (validate_condition input.notify_condition)) _
            (checked-Quiet of_condition (validate_condition input.notify_condition)) (λ _ c. refl)))

kept_header-Quiet : (input : HeaderInput) (found : Option Text) → Quiet (kept_header input found)
kept_header-Quiet input none c = refl
kept_header-Quiet input (some secret) c = refl

prepare_header-Quiet :
    (w : World) (existing : Option Endpoint) (input : HeaderInput)
    → Quiet (prepare_header w existing input)
unfolding prepare_header
prepare_header-Quiet w existing input =
    if-Quiet (not (is_sensitive input)) _ _ (λ c. refl)
      (if-Quiet (keeps_value input) _ _
        (kept_header-Quiet input (find_existing_secret (trim_space input.name) existing))
        (>>=-Quiet (encrypted w input.value) _ (encrypted-Quiet w input.value) (λ secret c. refl)))

prepare_headers-Quiet :
    (w : World) (existing : Option Endpoint) (inputs : List HeaderInput)
    → Quiet (prepare_headers w existing inputs)
unfolding prepare_headers
prepare_headers-Quiet w existing [] = λ c. refl
prepare_headers-Quiet w existing (input ∷ inputs) =
    >>=-Quiet (prepare_header w existing input) _ (prepare_header-Quiet w existing input) (λ header.
      >>=-Quiet (prepare_headers w existing inputs) _ (prepare_headers-Quiet w existing inputs)
        (λ headers c. refl))

stored_part-Quiet :
    (w : World) (input : EndpointInput) (existing : Option Endpoint)
    → Quiet (stored_part w input existing)
unfolding stored_part
stored_part-Quiet w input existing =
    let proxy = prepare_stored_proxy-Quiet w input.proxy (existing_proxy existing) in
    >>=-Quiet (prepare_headers w existing input.headers) _
      (prepare_headers-Quiet w existing input.headers)
      (λ headers.
        >>=-Quiet (prepare_stored_proxy w input.proxy (existing_proxy existing)) _ proxy (λ stored.
          >>=-Quiet (checked of_tags (normalize_tag_inputs input.tags)) _
            (checked-Quiet of_tags (normalize_tag_inputs input.tags))
            (λ tags. >>=-Quiet (refuse_if _ _) _ (refuse_if-Quiet _ _) (λ _ c. refl))))

pub endpoint_record-Quiet :
    (w : World) (config : Config) (input : EndpointInput) (existing : Option Endpoint)
    → Quiet (endpoint_record w config input existing)
unfolding endpoint_record
endpoint_record-Quiet w config input existing =
    >>=-Quiet (request_part w config input) _ (request_part-Quiet w config input) (λ request.
      >>=-Quiet (schedule_part config input) _ (schedule_part-Quiet config input) (λ schedule.
        >>=-Quiet (stored_part w input existing) _ (stored_part-Quiet w input existing)
          (λ stored c. refl)))
