-- ===== src/Api/Inputs/Accepted.antt =====
-- The records that internal/api/server.go lets through to the store.
use w8nc.Base.{
  ◌≤◌, ◌≡◌, refl, subst, ◌⊎◌, inl, inr, Bool, true, false, not, ◌&&◌, Option, List, [], ltb, any,
  length, All, Bool-cases, arith, ◌==◌,
}
use w8nc.Base.Result.{ok}
use w8nc.Base.Text.{Text, codes, text_eq, text_eq_iff, trim_space}
use w8nc.Conditions.{validate_condition}
use w8nc.Models.{Header, ProxyConfig, Endpoint}
use w8nc.Base.Int.{ℤ}
use w8nc.Models.Tags.{TagInput, normalize_tag_inputs}
use w8nc.Models.Tags.Idempotent.{normalize_tag_inputs_idempotent}
use w8nc.Store.{Conn}
use w8nc.Store.Editing.{EndpointRecord}
use w8nc.Api.{
  World, Config, EndpointInput, of_url, of_headers, of_interval, of_condition, of_tags,
  unsupported_method, screenshot_needs_get, description_too_long, checked, refuse_if,
}
use w8nc.Security.{validate_headers}
use w8nc.Validation.Address.{normalize_url}
use w8nc.Validation.Interval.{validate_interval}
use w8nc.Api.Proxies.{prepare_stored_proxy}
use w8nc.Api.Inputs.{
  max_endpoint_request_body_size, validated_request_body, prepare_headers, allowed_method,
  method_of, optional_duration_seconds, existing_proxy, request_part, schedule_part, stored_part,
  made_record, endpoint_record,
}
use w8nc.Api.Inputs.Sealing.{
  Seals, IsSealed, SourceIsSealed, AllFollow, pure-eq, prepare_headers-IsSealed,
  prepare_headers-AllFollow,
}
use w8nc.Api.Inputs.Peeling.{Accepts, >>=-Accepts, checked-Accepts, refuse_if-Accepts}

validated_request_body-le :
    (enabled : Bool) (body : Text) (c c' : Conn) (kept : Text)
    → Accepts (validated_request_body enabled body) c kept c'
    → length kept ≤ max_endpoint_request_body_size
unfolding validated_request_body
validated_request_body-le false body c c' kept h =
    subst (λ b. length b ≤ max_endpoint_request_body_size) (pure-eq [] kept c c' h) (omega arith)
validated_request_body-le true body c c' kept h =
    elim (Bool-cases (ltb max_endpoint_request_body_size (length body))) [
      | inl long ↦ absurd (ground (arith, rw long at h))
      | inr short ↦ elim (Bool-cases (any (λ b. b == 0) body)) [
        | inl null ↦ absurd (ground (arith, rw (short, null) at h))
        | inr clean ↦
            subst (λ b. length b ≤ max_endpoint_request_body_size)
              (pure-eq body kept c c' (rw (short, clean) at h)) (ground arith)
      ]
    ]

-- What the store may rely on.
pub record IsAccepted (IsCipher : Text → Type 0) (w : World) (existing : Option Endpoint)
    (input : EndpointInput) (edit : EndpointRecord) : Type 0 where
  pub method : allowed_method edit.http_method ≡ true
  pub screenshot : (edit.screenshot_on_match ≡ false) ⊎ (edit.http_method ≡ codes "GET")
  pub tags : normalize_tag_inputs edit.tags ≡ ok edit.tags
  pub condition : validate_condition edit.notify_condition ≡ ok tt
  pub body : length edit.request_body ≤ max_endpoint_request_body_size
  pub headers : All (IsSealed IsCipher) edit.headers
  pub follow : AllFollow w existing input.headers edit.headers

screenshot_only_get :
    (wanted : Bool) (method : Text)
    → (wanted && not (text_eq method (codes "GET"))) ≡ false
    → (wanted ≡ false) ⊎ (method ≡ codes "GET")
screenshot_only_get false method h = inl refl
screenshot_only_get true method h = inr ((text_eq_iff method (codes "GET")).0 (ground arith))

request_part-facts :
    (w : World) (config : Config) (input : EndpointInput) (c c' : Conn) (request : Text × Text)
    → Accepts (request_part w config input) c request c'
    → (allowed_method (method_of input.http_method) ≡ true)
      × ((input.screenshot_on_match ≡ false) ⊎ (method_of input.http_method ≡ codes "GET"))
      × (length request.1 ≤ max_endpoint_request_body_size)
unfolding request_part
request_part-facts w config input c c' request h =
    let url_check = checked of_url (normalize_url w.net input.url config.allow_private_targets) in
    let method = method_of input.http_method in
    let not_get = input.screenshot_on_match && not (text_eq method (codes "GET")) in
    let (url, c1, _, h1) = >>=-Accepts url_check _ c h in
    let (_, c2, allowed, h2) =
      >>=-Accepts (refuse_if (not (allowed_method method)) unsupported_method) _ c1 h1 in
    let (_, c3, only_get, h3) = >>=-Accepts (refuse_if not_get screenshot_needs_get) _ c2 h2 in
    let (_, c4, _, h4) =
      >>=-Accepts (checked of_headers (validate_headers input.headers)) _ c3 h3 in
    let (body, c5, bodied, made) =
      >>=-Accepts (validated_request_body input.request_body_enabled input.request_body) _ c4 h4 in
    (
      ground (arith, refuse_if-Accepts (not (allowed_method method)) unsupported_method c1 allowed),
      screenshot_only_get input.screenshot_on_match method
          (refuse_if-Accepts not_get screenshot_needs_get c2 only_get),
      subst (λ (r : Text × Text). length r.1 ≤ max_endpoint_request_body_size)
          (pure-eq (url, body) request c5 c' made)
          (validated_request_body-le input.request_body_enabled input.request_body c4 c5 body
            bodied),
    )

schedule_part-facts :
    (config : Config) (input : EndpointInput) (c c' : Conn) (schedule : ℤ × Option ℤ)
    → Accepts (schedule_part config input) c schedule c'
    → validate_condition input.notify_condition ≡ ok tt
unfolding schedule_part
schedule_part-facts config input c c' schedule h =
    let interval =
      checked of_interval
        (validate_interval input.ping_interval config.min_ping_interval config.max_ping_interval) in
    let (_, c1, _, h1) = >>=-Accepts interval _ c h in
    let (_, c2, _, h2) = >>=-Accepts (optional_duration_seconds input.deactivate_after) _ c1 h1 in
    let (_, c3, valid, _) =
      >>=-Accepts (checked of_condition (validate_condition input.notify_condition)) _ c2 h2 in
    checked-Accepts of_condition (validate_condition input.notify_condition) c2 valid

stored_part-facts :
    (IsCipher : Text → Type 0) (w : World) (input : EndpointInput) (existing : Option Endpoint)
    (c c' : Conn) (stored : List Header × ProxyConfig × List TagInput)
    → Seals IsCipher w
    → SourceIsSealed IsCipher existing
    → Accepts (stored_part w input existing) c stored c'
    → All (IsSealed IsCipher) stored.0
      × AllFollow w existing input.headers stored.0
      × (normalize_tag_inputs stored.2 ≡ ok stored.2)
unfolding stored_part
stored_part-facts IsCipher w input existing c c' stored seals source h =
    let too_long = ltb 200 (w.count_runes (trim_space input.description)) in
    let (headers, c1, prepared, h1) =
      >>=-Accepts (prepare_headers w existing input.headers) _ c h in
    let (proxy, c2, _, h2) =
      >>=-Accepts (prepare_stored_proxy w input.proxy (existing_proxy existing)) _ c1 h1 in
    let (tags, c3, normal, h3) =
      >>=-Accepts (checked of_tags (normalize_tag_inputs input.tags)) _ c2 h2 in
    let (_, c4, _, made) = >>=-Accepts (refuse_if too_long description_too_long) _ c3 h3 in
    subst
      (λ (s : List Header × ProxyConfig × List TagInput).
        All (IsSealed IsCipher) s.0
        × AllFollow w existing input.headers s.0
        × (normalize_tag_inputs s.2 ≡ ok s.2))
      (pure-eq (headers, proxy.0, tags) stored c4 c' made)
      (
        prepare_headers-IsSealed IsCipher w seals existing source input.headers c c1 headers
            prepared,
        prepare_headers-AllFollow w existing input.headers c c1 headers prepared,
        normalize_tag_inputs_idempotent input.tags tags
            (checked-Accepts of_tags (normalize_tag_inputs input.tags) c2 normal),
      )

-- Let every output of the box be a ciphertext, and every sensitive header of the endpoint that is changed
-- or copied hold one. Then a record that endpointRecord returns has an allowed method, asks for screenshots
-- only with GET, has tags that NormalizeTagInputs leaves as they are, a condition that is valid and a body
-- of at most 256 KiB, and each sensitive header in it holds a ciphertext and no plain value. Its headers are
-- those of the input in their order: an open value as it came, a secret one as the box returned it, and for
-- a value that is empty or the mask the secret that the endpoint has under the name.
pub endpoint_record-IsAccepted :
    (IsCipher : Text → Type 0) (w : World) (config : Config) (input : EndpointInput)
    (existing : Option Endpoint) (c c' : Conn) (edit : EndpointRecord) (changed : Bool)
    → Seals IsCipher w
    → SourceIsSealed IsCipher existing
    → endpoint_record w config input existing c ≡ (ok (edit, changed), c')
    → IsAccepted IsCipher w existing input edit
unfolding endpoint_record made_record
endpoint_record-IsAccepted IsCipher w config input existing c c' edit changed seals source h =
    let (request, c1, requested, h1) = >>=-Accepts (request_part w config input) _ c h in
    let (schedule, c2, scheduled, h2) = >>=-Accepts (schedule_part config input) _ c1 h1 in
    let (stored, c3, kept, made) = >>=-Accepts (stored_part w input existing) _ c2 h2 in
    let (method, screenshot, body) = request_part-facts w config input c c1 request requested in
    let (headers, follow, tags) =
      stored_part-facts IsCipher w input existing c2 c3 stored seals source kept in
    subst (λ (r : EndpointRecord × Bool). IsAccepted IsCipher w existing input r.0)
      (pure-eq (made_record input existing request schedule stored) (edit, changed) c3 c' made)
      (record {
        method = method;
        screenshot = screenshot;
        tags = tags;
        condition = schedule_part-facts config input c1 c2 schedule scheduled;
        body = body;
        headers = headers;
        follow = follow;
      })
