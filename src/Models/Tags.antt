-- ===== src/Models/Tags.antt =====
-- The tags of internal/models/models.go: NormalizeTagInputs and what it calls.
pub mod Laws
pub mod Idempotent
mod Tests
use w8nc.Base.{
  ℕ, zero, suc, Bool, true, false, not, ◌&&◌, ◌||◌, List, [], ◌∷◌, ◌++◌, ltb, leb, ◌==◌,
  if◌then◌else◌, length, any,
}
use w8nc.Base.Result.{Result, ok, err, ◌>>=◌}
use w8nc.Base.Text.{Text, codes, text_eq, is_empty, to_lower, trim_space}

abbrev pub max_tag_name_length : ℕ
max_tag_name_length = 16

abbrev pub max_endpoint_tags : ℕ
max_endpoint_tags = 8

abbrev pub allowed_tag_colors : List Text
allowed_tag_colors =
    codes "slate"
    ∷ codes "blue"
    ∷ codes "teal"
    ∷ codes "green"
    ∷ codes "amber"
    ∷ codes "rose"
    ∷ codes "violet"
    ∷ codes "gray"
    ∷ []

pub record TagInput : Type 0 where
  pub name : Text
  pub color : Text

pub data Error : Type 0 where
  name_required name_too_long bad_character bad_start unknown_color too_many_tags : Error

unfoldable pub is_ascii_alnum : ℕ → Bool
is_ascii_alnum c = (leb b'a' c && leb c b'z') || (leb b'0' c && leb c b'9')

unfoldable pub is_tag_name_char : ℕ → Bool
unfolding is_ascii_alnum
is_tag_name_char c = is_ascii_alnum c || c == b'-' || c == b'_'

unfoldable pub tag_color_allowed : Text → Bool
unfolding text_eq
tag_color_allowed color = any (text_eq color) allowed_tag_colors

-- The loop of NormalizeTagName over the characters.
unfoldable pub check_chars : ℕ → Text → Result Error (Unit {0})
unfolding is_tag_name_char
check_chars index [] = ok tt
check_chars index (c ∷ s) =
    let rest = check_chars (suc index) s in
    if not (is_tag_name_char c)
    then err bad_character
    else if index == 0 && not (is_ascii_alnum c)
    then err bad_start
    else rest

-- The tests of NormalizeTagName on the trimmed name in lower case.
unfoldable pub check_name : Text → Result Error Text
unfolding check_chars
check_name name =
    if is_empty name
    then err name_required
    else if ltb max_tag_name_length (length name)
    then err name_too_long
    else (check_chars 0 name >>= λ _. ok name)

unfoldable pub normalize_tag_name : Text → Result Error Text
unfolding check_name trim_space
normalize_tag_name value = check_name (to_lower (trim_space value))

unfoldable pub normalize_color : Text → Text
unfolding trim_space
normalize_color value =
    let color = to_lower (trim_space value) in if is_empty color then codes "slate" else color

-- The keys of the map `seen`.
unfoldable pub seen_name : Text → List Text → Bool
unfolding text_eq
seen_name name seen = any (text_eq name) seen

-- What the loop body does with a name that was not seen, up to the next round.
unfoldable pub add_tag : List TagInput → Text → Text → Result Error (List TagInput)
unfolding normalize_color tag_color_allowed
add_tag tags name raw =
    let color = normalize_color raw in
    let longer = tags ++ record { name = name; color = color } ∷ [] in
    if not (tag_color_allowed color)
    then err unknown_color
    else if ltb max_endpoint_tags (length longer)
    then err too_many_tags
    else ok longer

-- The loop of NormalizeTagInputs.
unfoldable pub normalize_from :
    List TagInput → List Text → List TagInput → Result Error (List TagInput)
normalize_from tags seen [] = ok tags
normalize_from tags seen (input ∷ inputs) = normalize_tag_name input.name >>= λ name.
    elim (seen_name name seen) [
      | true ↦ normalize_from tags seen inputs
      | false ↦
          add_tag tags name input.color >>= λ longer. normalize_from longer (name ∷ seen) inputs
    ]

unfoldable pub normalize_tag_inputs : List TagInput → Result Error (List TagInput)
unfolding normalize_from
normalize_tag_inputs inputs = normalize_from [] [] inputs
