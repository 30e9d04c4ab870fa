-- ===== src/Security.antt =====
-- internal/security/headers.go
pub mod Headers
mod Tests
use w8nc.Base.{
  ℕ, suc, Bool, true, false, not, ◌&&◌, ◌||◌, List, [], ◌∷◌, ◌++◌, ltb, leb, ◌==◌, if◌then◌else◌,
  length, any, all,
}
use w8nc.Base.Result.{Result, ok, err}
use w8nc.Base.Text.{Text, codes, is_empty, contains, to_lower}
use w8nc.Models.{HeaderInput}

abbrev pub sensitive_markers : List Text
sensitive_markers =
    codes "authorization"
    ∷ codes "token"
    ∷ codes "key"
    ∷ codes "api-key"
    ∷ codes "apikey"
    ∷ codes "bearer"
    ∷ codes "basic"
    ∷ codes "secret"
    ∷ codes "cookie"
    ∷ codes "session"
    ∷ codes "jwt"
    ∷ []

-- DetectSensitive
unfoldable pub detect_sensitive : Text → Text → Bool
unfolding contains
detect_sensitive name value =
    any (contains (to_lower (name ++ (codes " " ++ value)))) sensitive_markers

abbrev pub between : ℕ → ℕ → ℕ → Bool
between lo hi c = leb lo c && leb c hi

-- The other characters of a token.
abbrev pub token_marks : Text
token_marks = codes "!#$%&'*+-.^_`|~"

-- isTokenRune
unfoldable pub is_token_rune : ℕ → Bool
is_token_rune c =
    between b'a' b'z' c
    || between b'A' b'Z' c
    || between b'0' b'9' c
    || any (λ mark. c == mark) token_marks

-- The loop of validHeaderName: a byte that is not ASCII belongs to a rune that is not.
abbrev pub name_rune : ℕ → Bool
name_rune c = not (ltb 127 c) && is_token_rune c

-- validHeaderName
unfoldable pub valid_header_name : Text → Bool
unfolding is_token_rune
valid_header_name name = all name_rune name && not (is_empty name)

-- `strings.ContainsAny(s, "\r\n")`
abbrev pub contains_line_break : Text → Bool
contains_line_break s = any (λ c. c == 13 || c == 10) s

pub data Error : Type 0 where
  too_many name_required name_too_long value_too_long line_break : Error
  invalid_name : Text → Error

-- The body of the loop of ValidateHeaders.
unfoldable pub validate_header : HeaderInput → Result Error (Unit {0})
unfolding valid_header_name
validate_header header =
    if is_empty header.name
    then err name_required
    else if ltb 256 (length header.name)
    then err name_too_long
    else if ltb 8192 (length header.value)
    then err value_too_long
    else if contains_line_break header.name || contains_line_break header.value
    then err line_break
    else if not (valid_header_name header.name)
    then err (invalid_name header.name)
    else ok tt

-- The loop of ValidateHeaders.
unfoldable pub validate_each : List HeaderInput → Result Error (Unit {0})
unfolding validate_header
validate_each [] = ok tt
validate_each (header ∷ headers) = elim (validate_header header) [
  | err e ↦ err e
  | ok _ ↦ validate_each headers
]

-- ValidateHeaders
unfoldable pub validate_headers : List HeaderInput → Result Error (Unit {0})
unfolding validate_each
validate_headers headers = if ltb 50 (length headers) then err too_many else validate_each headers
