-- ===== src/Conditions/Template/Filling.antt =====
-- What RenderTemplate makes of a template (internal/conditions/conditions.go).
use w8nc.Base.{
  ℕ, zero, suc, ◌≤◌, ◌≡◌, ◌≢◌, refl, ap, true, false, none, some, List, [], ◌∷◌, ◌++◌, arith, ◌==◌,
  length, length-append, all, All,
}
use w8nc.Base.Text.{Text}
use w8nc.Conditions.{Evaluation}
use w8nc.Models.{Endpoint, PingResult}
use w8nc.Conditions.Template.{
  Library, is_word, span_word, token, value_of, replace, chosen, template_values, render_template,
}

-- A template, taken apart: plain text, and variables.
pub data Piece : Type 0 where
  plain variable : Text → Piece

abbrev pub source : List Piece → Text
source [] = []
source (plain s ∷ pieces) = s ++ source pieces
source (variable key ∷ pieces) = b'{' ∷ b'{' ∷ key ++ (b'}' ∷ b'}' ∷ source pieces)

abbrev pub filled : List (Text × Text) → List Piece → Text
filled values [] = []
filled values (plain s ∷ pieces) = s ++ filled values pieces
filled values (variable key ∷ pieces) = value_of values key ++ filled values pieces

-- Plain text has no opening brace; a key has at least one character and only those of keys.
abbrev pub IsPiece : Piece → Type 0
IsPiece (plain s) = All (λ c. (c == b'{') ≡ false) s
IsPiece (variable key) = (key ≢ []) × (all is_word key ≡ true)

span_word-close :
    (key rest : Text)
    → all is_word key ≡ true
    → span_word (key ++ (b'}' ∷ b'}' ∷ rest)) ≡ (key, b'}' ∷ b'}' ∷ rest)
unfolding span_word
span_word-close [] rest h = refl
span_word-close (c ∷ key) rest h =
    let word : is_word c ≡ true = ground arith in
    rw (span_word-close key rest (ground arith), word) refl

token-variable :
    (key rest : Text)
    → key ≢ []
    → all is_word key ≡ true
    → token (b'{' ∷ b'{' ∷ key ++ (b'}' ∷ b'}' ∷ rest)) ≡ some (key, rest)
unfolding token
token-variable [] rest nonempty h = absurd (nonempty refl)
token-variable (c ∷ key) rest nonempty h = rw (span_word-close (c ∷ key) rest h) refl

token-plain : (c : ℕ) (s : Text) → (c == b'{') ≡ false → token (c ∷ s) ≡ none
unfolding token
token-plain c [] h = refl
token-plain c (d ∷ s) h = rw h refl

module _ (values : List (Text × Text)) where
  replace-plain :
      (s rest out : Text) (n : ℕ)
      → All (λ c. (c == b'{') ≡ false) s
      → length (s ++ rest) ≤ n
      → ((m : ℕ) → length rest ≤ m → replace m values rest ≡ out)
      → replace n values (s ++ rest) ≡ s ++ out
  unfolding replace
  replace-plain [] rest out n h enough k = k n enough
  replace-plain (c ∷ s) rest out zero h enough k = absurd (omega (arith, enough))
  replace-plain (c ∷ s) rest out (suc n) (here, later) enough k =
      rw (token-plain c (s ++ rest) here, replace)
        (ap (λ t. c ∷ t) (replace-plain s rest out n later (omega (arith, enough)) k))

  replace-source :
      (pieces : List Piece) (n : ℕ)
      → All IsPiece pieces
      → length (source pieces) ≤ n
      → replace n values (source pieces) ≡ filled values pieces
  unfolding replace
  replace-source [] zero h enough = refl
  replace-source [] (suc n) h enough = refl
  replace-source (plain s ∷ pieces) n (here, later) enough =
      replace-plain s (source pieces) (filled values pieces) n here enough
        (λ m room. replace-source pieces m later room)
  replace-source (variable key ∷ pieces) zero h enough = absurd (omega (arith, enough))
  replace-source (variable key ∷ pieces) (suc n) ((nonempty, word), later) enough =
      rw (token-variable key (source pieces) nonempty word, replace)
        (ap (λ t. value_of values key ++ t)
          (replace-source pieces n later
            (omega (arith, enough, length-append key (b'}' ∷ b'}' ∷ source pieces)))))

-- RenderTemplate copies the plain text of a template and puts the value of its key, or nothing for an
-- unknown key, in the place of each variable; a blank template is the default one.
pub render_template_fills :
    (library : Library) (template : Text) (endpoint : Endpoint) (result : PingResult)
    (evaluation : Evaluation) (zone : Text) (pieces : List Piece)
    → All IsPiece pieces
    → chosen template ≡ source pieces
    → render_template library template endpoint result evaluation zone
      ≡ filled (template_values library endpoint result evaluation zone) pieces
unfolding render_template
render_template_fills library template endpoint result evaluation zone pieces h same = rw same (
    replace-source (template_values library endpoint result evaluation zone) pieces
      (length (source pieces)) h (omega arith))
