-- ===== src/Api/Inputs/Tests.antt =====
-- Inputs of endpoints on a concrete server, and the theorem at an input that meets its hypothesis.
use w8nc.Base.{◌≡◌, refl, true, false, none, some, [], ◌∷◌}
use w8nc.Base.Decimal.{digits, print_ℕ, itoa, digits_value, parse_magnitude, parse_int}
use w8nc.Base.Int.{pos}
use w8nc.Base.Result.{ok, err}
use w8nc.Base.Sort.{insert_by, sort_by}
use w8nc.Base.Text.{codes, text_eq, contains, has_prefix, has_suffix, trim_left, trim_space}
use w8nc.Conditions.{kind_of, validate_condition}
use w8nc.Models.Sample.{no_proxy}
use w8nc.Models.Tags.{
  is_ascii_alnum, is_tag_name_char, tag_color_allowed, check_chars, check_name, normalize_tag_name,
  normalize_color, seen_name, add_tag, normalize_from, normalize_tag_inputs,
}
use w8nc.Security.{
  detect_sensitive, is_token_rune, valid_header_name, validate_header, validate_each,
  validate_headers,
}
use w8nc.Store.{answer, run_statement, statement, changing, query}
use w8nc.Store.Editing.{EndpointRecord}
use w8nc.Store.Secrets.{last_proxy_config, has_encrypted_secrets}
use w8nc.Validation.Address.{
  is_private_ip, trim_brackets_left, trim_brackets, is_private_host, normalize_url,
  normalize_socks5_proxy_address,
}
use w8nc.Validation.Interval.{duration_of, parse_interval, validate_interval}
use w8nc.Api
use w8nc.Api.{unsupported_method, screenshot_needs_get, key_required, password_required}
use w8nc.Api.Sample.{start, world, config, input, StartsWithS, world-Seals}
use w8nc.Api.Proxies.{
  normalized_proxy, last_proxy_password, stored_from, prepare_stored_proxy, runtime_from,
  runtime_proxy,
}
use w8nc.Api.Inputs.{
  allowed_method, validated_request_body, optional_duration_seconds, find_secret, prepare_header,
  prepare_headers, request_part, schedule_part, stored_part, made_record, endpoint_record,
}
use w8nc.Api.Inputs.Accepted.{IsAccepted, endpoint_record-IsAccepted}

inputs : Unit {0}
unfolding digits print_ℕ itoa digits_value parse_magnitude parse_int insert_by sort_by text_eq
    contains has_prefix has_suffix trim_left trim_space kind_of validate_condition is_ascii_alnum
    is_tag_name_char tag_color_allowed check_chars check_name normalize_tag_name normalize_color
    seen_name add_tag normalize_from normalize_tag_inputs detect_sensitive is_token_rune
    valid_header_name validate_header validate_each validate_headers answer run_statement statement
    changing query last_proxy_config has_encrypted_secrets is_private_ip trim_brackets_left
    trim_brackets is_private_host normalize_url normalize_socks5_proxy_address duration_of
    parse_interval validate_interval normalized_proxy last_proxy_password stored_from
    prepare_stored_proxy runtime_from runtime_proxy allowed_method validated_request_body
    optional_duration_seconds find_secret prepare_header prepare_headers request_part schedule_part
    stored_part made_record endpoint_record Api.and_then
inputs = tt

abbrev made : EndpointRecord
made =
    (made_record input none (codes "a.b", []) (pos 60, some (pos 7200))
      (
        record {
          name = codes "Authorization";
          value_plain = none;
          value_encrypted = some (codes "sabc");
          sensitive = true;
          masked = true;
        }
            ∷ [],
        no_proxy,
        record { name = codes "web"; color = codes "slate" } ∷ [],
      )).0

accepted : endpoint_record world config input none start ≡ (ok (made, false), start)
unfolding inputs
accepted = refl

refusals :
    ((endpoint_record world config (record input { http_method = codes "TRACE" }) none start).0
      ≡ err unsupported_method)
    × ((endpoint_record world config (record input { http_method = codes "put" }) none start).0
        ≡ err screenshot_needs_get)
    × ((endpoint_record (record world { encrypt = none }) config input none start).0
        ≡ err key_required)
unfolding inputs
refusals = (refl, refl, refl)

no_password :
    (prepare_stored_proxy world
      (record no_proxy { enabled = true; address = codes "p"; username = codes "u" })
      none
      start).0
    ≡ err password_required
unfolding inputs
no_password = refl

endpoint_record-IsAccepted_example : IsAccepted StartsWithS world none input made
endpoint_record-IsAccepted_example =
    endpoint_record-IsAccepted StartsWithS world config input none start start made false
      world-Seals tt accepted
