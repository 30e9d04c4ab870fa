-- ===== src/Security/Tests.antt =====
-- Headers on concrete inputs, and the theorem at an input.
use w8nc.Base.{◌≡◌, ◌≤◌, ◌↔◌, refl, true, false, none, [], ◌∷◌, All}
use w8nc.Base.Result.{ok, err}
use w8nc.Base.Text.{Text, codes, has_prefix, contains}
use w8nc.Models.{HeaderInput}
use w8nc.Security.{
  detect_sensitive, is_token_rune, valid_header_name, line_break, invalid_name, validate_header,
  validate_each, validate_headers,
}
use w8nc.Security.Headers.{IsHeader, validate_headers_iff}

security : Unit {0}
unfolding detect_sensitive contains has_prefix is_token_rune valid_header_name validate_header
    validate_each validate_headers
security = tt

abbrev header : Text → Text → HeaderInput
header name value = record { name = name; value = value; sensitive = none; masked = none }

tests :
    (validate_headers (header (codes "X-Id") (codes "7") ∷ []) ≡ ok tt)
    × (validate_headers (header (codes "X Id") (codes "7") ∷ [])
        ≡ err (invalid_name (codes "X Id")))
    × (validate_headers (header (codes "X-Id") (codes "7\r\nHost: b") ∷ []) ≡ err line_break)
    × (detect_sensitive (codes "X-API-Key") [] ≡ true)
    × (detect_sensitive (codes "Accept") (codes "*/*") ≡ false)
unfolding security
tests = (refl, refl, refl, refl, refl)

validate_headers_iff_example :
    (validate_headers (header (codes "X-Id") (codes "7") ∷ []) ≡ ok tt)
    ↔ ((1 ≤ 50) × All IsHeader (header (codes "X-Id") (codes "7") ∷ []))
validate_headers_iff_example = validate_headers_iff (header (codes "X-Id") (codes "7") ∷ [])
