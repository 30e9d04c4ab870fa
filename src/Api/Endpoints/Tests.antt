-- ===== src/Api/Endpoints/Tests.antt =====
-- Requests on one endpoint on concrete tables, and the theorem at an input that meets its hypothesis.
use w8nc.Base.{◌≡◌, refl, true, none, some, [], ◌∷◌, map, List, inl}
use w8nc.Base.Decimal.{digits, print_ℕ, itoa, digits_value, parse_magnitude, parse_int}
use w8nc.Base.Sort.{insert_by, sort_by}
use w8nc.Base.Text.{text_eq, contains, has_prefix, has_suffix, trim_left, trim_space, codes, Text}
use w8nc.Conditions.{kind_of, validate_condition}
use w8nc.Models.Tags.{
  is_ascii_alnum, is_tag_name_char, tag_color_allowed, check_chars, check_name, normalize_tag_name,
  normalize_color, seen_name, add_tag, normalize_from, normalize_tag_inputs,
}
use w8nc.Security.{
  detect_sensitive, is_token_rune, valid_header_name, validate_header, validate_each,
  validate_headers,
}
use w8nc.Store.{
  answer, run_statement, statement, changing, query, returning, execute, rolled_back, commit,
  bracketed, transaction, update_where, count_where, find_row,
}
use w8nc.Store.Secrets.{last_proxy_config, has_encrypted_secrets}
use w8nc.Validation.Address.{
  is_private_ip, trim_brackets_left, trim_brackets, is_private_host, normalize_url,
  normalize_socks5_proxy_address,
}
use w8nc.Validation.Interval.{duration_of, parse_interval, validate_interval}
use w8nc.Api.Proxies.{
  normalized_proxy, last_proxy_password, stored_from, prepare_stored_proxy, runtime_from,
  runtime_proxy,
}
use w8nc.Api.Inputs.{
  allowed_method, validated_request_body, optional_duration_seconds, find_secret, prepare_header,
  prepare_headers, request_part, schedule_part, stored_part, made_record, endpoint_record,
}
use w8nc.Store.Endpoints.{
  set_expired, deactivate_expired_endpoints, get_endpoint, update_endpoint_row, remove_endpoint,
  delete_endpoint,
}
use w8nc.Store.Labels.{
  remove_tag, delete_tag, list_tags, upsert_tag, link_tag, sync_tag, sync_each, sync_endpoint_tags,
  tags_of,
}
use w8nc.Store.Editing.{
  new_endpoint, insert_endpoint, select_endpoint, sync_and_select, create_endpoint, set_edited,
  update_from, update_endpoint,
}
use w8nc.Models.{Header}
use w8nc.Store
use w8nc.Store.{Conn}
use w8nc.Store.Each.{Each}
use w8nc.Api
use w8nc.Api.Sample.{start, world, config, input, StartsWithS, world-Seals}
use w8nc.Api.Endpoints.{
  Reply, write_error, invalid_json, EndpointCall, create, update, delete, handle_get_endpoint,
  create_from, handle_create_endpoint, update_with, handle_update_endpoint, handle_delete_endpoint,
  handle,
}
use w8nc.Api.Endpoints.Sealed.{HasSealed, handle-HasSealed}

requests : Unit {0}
unfolding digits print_ℕ itoa digits_value parse_magnitude parse_int insert_by sort_by text_eq
    contains has_prefix has_suffix trim_left trim_space kind_of validate_condition is_ascii_alnum
    is_tag_name_char tag_color_allowed check_chars check_name normalize_tag_name normalize_color
    seen_name add_tag normalize_from normalize_tag_inputs detect_sensitive is_token_rune
    valid_header_name validate_header validate_each validate_headers answer run_statement statement
    changing query last_proxy_config has_encrypted_secrets is_private_ip trim_brackets_left
    trim_brackets is_private_host normalize_url normalize_socks5_proxy_address duration_of
    parse_interval validate_interval normalized_proxy last_proxy_password stored_from
    prepare_stored_proxy runtime_from runtime_proxy allowed_method validated_request_body
    optional_duration_seconds find_secret prepare_header prepare_headers request_part schedule_part
    stored_part made_record endpoint_record returning execute rolled_back commit bracketed
    transaction update_where count_where find_row set_expired deactivate_expired_endpoints
    get_endpoint update_endpoint_row remove_endpoint delete_endpoint remove_tag delete_tag list_tags
    upsert_tag link_tag sync_tag sync_each sync_endpoint_tags tags_of new_endpoint insert_endpoint
    select_endpoint sync_and_select create_endpoint set_edited update_from update_endpoint
    handle_get_endpoint create_from handle_create_endpoint update_with handle_update_endpoint
    handle_delete_endpoint handle Store.and_then Api.and_then
requests = tt

abbrev ids : Text → Text
ids name = name

abbrev call : EndpointCall → Conn → Reply × Conn
call = handle world config 1000 ids

abbrev first : EndpointCall
first = create (codes "e") (some (input, []))

abbrev filled : Conn
filled = (call first start).1

abbrev headers_in : Conn → List (List Header)
headers_in c = map (λ row. row.headers) c.db.endpoints

abbrev sealed_header : Header
sealed_header = record {
  name = codes "Authorization";
  value_plain = none;
  value_encrypted = some (codes "sabc");
  sensitive = true;
  masked = true;
}

created_sealed :
    ((call first start).0.status ≡ 201) × (headers_in filled ≡ (sealed_header ∷ []) ∷ [])
unfolding requests
created_sealed = (refl, refl)

missing : (call (update (codes "x") (some input)) start).0 ≡ write_error 404 (codes "not found")
unfolding requests
missing = refl

no_source :
    (call (create (codes "f") (some (input, codes "x"))) start).0
    ≡ write_error 404 (codes "not found")
unfolding requests
no_source = refl

malformed : (call (create (codes "e") none) start).0 ≡ invalid_json
unfolding requests
malformed = refl

deleted : (call (delete (codes "e")) filled).0.status ≡ 204
unfolding requests
deleted = refl

handle-HasSealed_example :
    Each
      (HasSealed StartsWithS)
      (handle world config 1000 ids (update (codes "e") (some input)) filled).1.db
unfolding requests
handle-HasSealed_example =
    handle-HasSealed StartsWithS world config 1000 ids (update (codes "e") (some input)) filled
      world-Seals ((inl (refl, refl, (codes "sabc", refl, refl)), tt), tt)
