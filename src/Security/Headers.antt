-- ===== src/Security/Headers.antt =====
-- Which headers ValidateHeaders accepts (internal/security/headers.go).
use w8nc.Base.{
  ℕ, ◌≤◌, ◌≡◌, ◌≢◌, ◌↔◌, refl, inl, inr, Bool, true, false, not, ◌||◌, List, [], ◌∷◌, arith, ltb,
  if◌then◌else◌, length, all, All, Bool-cases,
}
use w8nc.Base.Result.{Result, ok, err, Result-cases}
use w8nc.Base.Text.{Text, is_empty}
use w8nc.Models.{HeaderInput}
use w8nc.Security.{
  Error, name_required, name_too_long, value_too_long, line_break, invalid_name, name_rune,
  is_token_rune, valid_header_name, contains_line_break, validate_header, validate_each,
  validate_headers,
}

-- The name is a token of 1 to 256 bytes; the value has at most 8192 bytes and no line break.
pub record IsHeader (header : HeaderInput) : Type 0 where
  pub named : header.name ≢ []
  pub token : All (λ c. is_token_rune c ≡ true) header.name
  pub name_fits : length header.name ≤ 256
  pub value_fits : length header.value ≤ 8192
  pub one_line : All (λ c. (c ≢ 13) × (c ≢ 10)) header.value

all-All :
    (p : ℕ → Bool) (P : ℕ → Type 0)
    → ((c : ℕ) → (p c ≡ true) ↔ P c)
    → (s : Text) → (all p s ≡ true) ↔ All P s
all-All p P same [] = ((λ h. tt), λ h. refl)
all-All p P same (c ∷ s) =
    let rest = all-All p P same s in
    (
      (λ h. ((same c).0 (ground arith), rest.0 (ground arith))),
      (λ h. ground (arith, (same c).1 h.0, rest.1 h.1)),
    )

no_break-All : (s : Text) → (contains_line_break s ≡ false) ↔ All (λ c. (c ≢ 13) × (c ≢ 10)) s
no_break-All [] = ((λ h. tt), λ h. refl)
no_break-All (c ∷ s) =
    let rest = no_break-All s in
    (
      (λ h. ((ground arith, ground arith), rest.0 (ground arith))),
      (λ h. ground (arith, (h.0).0, (h.0).1, rest.1 h.1)),
    )

name_rune_iff : (c : ℕ) → (name_rune c ≡ true) ↔ (is_token_rune c ≡ true)
unfolding is_token_rune
name_rune_iff c = ground arith

token_breaks : (c : ℕ) → is_token_rune c ≡ true → (c ≢ 13) × (c ≢ 10)
unfolding is_token_rune
token_breaks c h = ((λ e. absurd (cc (rw e at h))), (λ e. absurd (cc (rw e at h))))

valid_header_name_iff :
    (name : Text)
    → (valid_header_name name ≡ true) ↔ ((name ≢ []) × All (λ c. is_token_rune c ≡ true) name)
unfolding valid_header_name
valid_header_name_iff [] = ground arith
valid_header_name_iff (c ∷ s) =
    let same = all-All name_rune (λ c. is_token_rune c ≡ true) name_rune_iff (c ∷ s) in
    ((λ h. ((λ e. absurd (cc e)), same.0 (ground arith))), (λ h. ground (arith, same.1 h.1)))

All-imp_token : (s : Text) → All (λ c. is_token_rune c ≡ true) s → All (λ c. (c ≢ 13) × (c ≢ 10)) s
All-imp_token [] h = tt
All-imp_token (c ∷ s) (here, later) = (token_breaks c here, All-imp_token s later)

-- Five guards in a row all let pass.
abbrev guarded : Bool → Bool → Bool → Bool → Bool → Text → Result Error (Unit {0})
guarded a b c d f name =
    if a
    then err name_required
    else if b
    then err name_too_long
    else if c
    then err value_too_long
    else if d
    then err line_break
    else if f
    then err (invalid_name name)
    else ok tt

guards_pass :
    (a b c d f : Bool) (name : Text)
    → (guarded a b c d f name ≡ ok tt)
      ↔ ((a ≡ false) × (b ≡ false) × (c ≡ false) × (d ≡ false) × (f ≡ false))
guards_pass a b c d f name = ground arith

empty_name : (name : Text) → is_empty name ≡ false → name ≢ []
empty_name [] h = absurd (ground arith)
empty_name (c ∷ s) h = λ e. absurd (cc e)

filled_name : (name : Text) → name ≢ [] → is_empty name ≡ false
filled_name [] h = absurd (h refl)
filled_name (c ∷ s) h = refl

validate_header-IsHeader : (header : HeaderInput) → validate_header header ≡ ok tt → IsHeader header
unfolding validate_header
validate_header-IsHeader header h =
    let (named, name_fits, value_fits, one_line, valid) =
      (guards_pass (is_empty header.name) (ltb 256 (length header.name))
          (ltb 8192 (length header.value))
          (contains_line_break header.name || contains_line_break header.value)
          (not (valid_header_name header.name)) header.name).0
        h in
    record {
      named = empty_name header.name named;
      token = ((valid_header_name_iff header.name).0 (ground arith)).1;
      name_fits = ground arith;
      value_fits = ground arith;
      one_line = (no_break-All header.value).0 (ground arith);
    }

IsHeader-validate_header : (header : HeaderInput) → IsHeader header → validate_header header ≡ ok tt
unfolding validate_header
IsHeader-validate_header header h =
    let named = filled_name header.name h.named in
    let name_fits : ltb 256 (length header.name) ≡ false = ground arith in
    let value_fits : ltb 8192 (length header.value) ≡ false = ground arith in
    let name_line = (no_break-All header.name).1 (All-imp_token header.name h.token) in
    let value_line = (no_break-All header.value).1 h.one_line in
    let valid = (valid_header_name_iff header.name).1 (h.named, h.token) in
    (guards_pass (is_empty header.name) (ltb 256 (length header.name))
        (ltb 8192 (length header.value))
        (contains_line_break header.name || contains_line_break header.value)
        (not (valid_header_name header.name)) header.name).1
      (named, name_fits, value_fits, ground (arith, name_line, value_line), ground (arith, valid))

validate_each-All :
    (headers : List HeaderInput) → (validate_each headers ≡ ok tt) ↔ All IsHeader headers
unfolding validate_each
validate_each-All [] = ((λ h. tt), λ h. refl)
validate_each-All (header ∷ headers) =
    let rest = validate_each-All headers in
    (
      (λ h. elim (Result-cases (validate_header header)) [
        | inr (e, failed) ↦ absurd (cc (rw (failed, validate_each) at h))
        | inl (u, passed) ↦
            (validate_header-IsHeader header passed, rest.0 (rw (passed, validate_each) at h))
      ]),
      (λ h. rw (IsHeader-validate_header header h.0, validate_each) (rest.1 h.1)),
    )

-- ValidateHeaders accepts a list exactly if it has at most 50 headers and each of them has a name that is
-- a token of 1 to 256 bytes, and a value of at most 8192 bytes with no line break.
pub validate_headers_iff :
    (headers : List HeaderInput)
    → (validate_headers headers ≡ ok tt) ↔ ((length headers ≤ 50) × All IsHeader headers)
unfolding validate_headers
validate_headers_iff headers =
    let each = validate_each-All headers in
    elim (Bool-cases (ltb 50 (length headers))) [
      | inl many ↦
          ((λ h. absurd (cc (rw (many, validate_headers) at h))), λ h. absurd (ground (arith, h.0)))
      | inr few ↦ (
        (λ h. (ground arith, each.0 (rw (few, validate_headers) at h))),
        (λ h. rw (few, validate_headers) (each.1 h.1)),
      )
    ]
