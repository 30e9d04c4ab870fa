-- ===== src/Models/Tags/Laws.antt =====
-- What a normalised list of tags looks like (internal/models/models.go).
use w8nc.Base.{
  ℕ, suc, ◌≤◌, ◌≡◌, refl, sym, ◌∙◌, inl, inr, Bool, true, false, ◌||◌, List, [], ◌∷◌, ◌++◌, arith,
  ltb, length, any, all, All, Bool-cases, All-append,
}
use w8nc.Base.Result.{ok, err, >>=-eq-ok, ok-injective}
use w8nc.Base.Text.{Text, text_eq, text_eq_iff, to_lower, trim_space}
use w8nc.Models.Tags.{
  TagInput, max_tag_name_length, max_endpoint_tags, is_ascii_alnum, is_tag_name_char,
  tag_color_allowed, check_chars, check_name, normalize_tag_name, normalize_color, seen_name,
  add_tag, normalize_from, normalize_tag_inputs,
}

abbrev pub StartsAlnum : Text → Type 0
StartsAlnum [] = ⊥
StartsAlnum (c ∷ s) = is_ascii_alnum c ≡ true

-- A tag name: 1 to 16 letters, digits, hyphens and underscores, a letter or digit first.
pub record IsTagName (name : Text) : Type 0 where
  pub characters : all is_tag_name_char name ≡ true
  pub start : StartsAlnum name
  pub short : length name ≤ max_tag_name_length

abbrev pub IsTag : TagInput → Type 0
IsTag tag = IsTagName tag.name × (tag_color_allowed tag.color ≡ true)

abbrev pub has_name : Text → List TagInput → Bool
has_name name = any (λ tag. text_eq name tag.name)

abbrev pub Distinct : List TagInput → Type 0
Distinct [] = Unit
Distinct (tag ∷ tags) = (has_name tag.name tags ≡ false) × Distinct tags

-- At most 8 tags with well-formed names, all different, and known colors.
pub record IsNormalized (tags : List TagInput) : Type 0 where
  pub valid : All IsTag tags
  pub distinct : Distinct tags
  pub few : length tags ≤ max_endpoint_tags

-- The name of an input, if it is accepted, is this one.
abbrev pub normalizes_to : Text → TagInput → Bool
normalizes_to name input = elim (normalize_tag_name input.name) [
  | ok normalized ↦ text_eq name normalized
  | err _ ↦ false
]

check_chars_sound :
    (i : ℕ) (s : Text) {u : Unit {0}} → check_chars i s ≡ ok u → all is_tag_name_char s ≡ true
unfolding check_chars
check_chars_sound i [] h = refl
check_chars_sound i (c ∷ s) {u} h = ground (arith, check_chars_sound (suc i) s {u = u})

check_chars_start :
    (c : ℕ) (s : Text) {u : Unit {0}} → check_chars 0 (c ∷ s) ≡ ok u → is_ascii_alnum c ≡ true
unfolding check_chars
check_chars_start c s h = ground arith

check_name_sound : (s name : Text) → check_name s ≡ ok name → IsTagName name × (s ≡ name)
unfolding check_name
check_name_sound [] name h = absurd (cc)
check_name_sound (c ∷ s) name h = elim (Bool-cases (ltb 16 (length (c ∷ s)))) [
  | inl long ↦ absurd (cc)
  | inr short ↦
      let (u, e, k) = >>=-eq-ok (check_chars 0 (c ∷ s)) (λ _. ok (c ∷ s)) (rw short at h) in
      (
        rw (← (ok-injective k)) (record {
          characters = check_chars_sound 0 (c ∷ s) e;
          start = check_chars_start c s e;
          short = ground arith;
        }),
        ok-injective k,
      )
]

-- An accepted tag name is well formed.
pub normalize_tag_name-IsTagName :
    (value name : Text) → normalize_tag_name value ≡ ok name → IsTagName name
unfolding normalize_tag_name
normalize_tag_name-IsTagName value name h =
    (check_name_sound (to_lower (trim_space value)) name h).0

pub has_name-concat :
    (name : Text) (tags : List TagInput) (tag : TagInput)
    → has_name name (tags ++ tag ∷ []) ≡ (text_eq name tag.name || has_name name tags)
has_name-concat name [] tag = ground arith
has_name-concat name (t ∷ tags) tag = ground (arith, has_name-concat name tags tag)

Distinct-concat :
    (tags : List TagInput) (tag : TagInput)
    → Distinct tags
    → has_name tag.name tags ≡ false
    → Distinct (tags ++ tag ∷ [])
Distinct-concat [] tag h k = (refl, tt)
Distinct-concat (t ∷ tags) tag (here, later) k = (
  rw (has_name-concat t.name tags tag)
      (ground (arith, text_eq_iff t.name tag.name, text_eq_iff tag.name t.name)),
  Distinct-concat tags tag later (ground arith),
)

-- The result of one round that adds a tag.
add_tag_sound :
    (tags longer : List TagInput) (name raw : Text)
    → add_tag tags name raw ≡ ok longer
    → (color : Text) × (longer ≡ tags ++ record { name = name; color = color } ∷ [])
      × (tag_color_allowed color ≡ true)
      × (length longer ≤ max_endpoint_tags)
unfolding add_tag
add_tag_sound tags longer name raw h =
    (normalize_color raw, ground arith, ground arith, ground arith)

-- The state of the loop: the keys of `seen` are the names added so far.
record IsRound (tags : List TagInput) (seen : List Text) : Type 0 where
  normalized : IsNormalized tags
  tracks : (name : Text) → seen_name name seen ≡ has_name name tags

add_tag-IsRound :
    (tags longer : List TagInput) (seen : List Text) (name raw : Text)
    → IsRound tags seen
    → IsTagName name
    → seen_name name seen ≡ false
    → add_tag tags name raw ≡ ok longer
    → IsRound longer (name ∷ seen)
      × ((other : Text) → has_name other longer ≡ (text_eq other name || has_name other tags))
unfolding seen_name
add_tag-IsRound tags longer seen name raw round named fresh h =
    let (color, e, allowed, few) = add_tag_sound tags longer name raw h in
    let tag : TagInput = record { name = name; color = color } in
    (
      record {
        normalized = record {
          valid =
              rw e (All-append IsTag tags (tag ∷ []) round.normalized.valid ((named, allowed), tt));
          distinct = rw e (
              Distinct-concat tags tag round.normalized.distinct (sym (round.tracks name) ∙ fresh));
          few = few;
        };
        tracks =
            λ other. rw (e, has_name-concat other tags tag) (ground (arith, round.tracks other));
      },
      λ other. rw e (has_name-concat other tags tag),
    )

abbrev Names : List TagInput → List TagInput → List TagInput → Type 0
Names tags inputs out =
    (name : Text) → has_name name out ≡ (has_name name tags || any (normalizes_to name) inputs)

normalizes_to_of_ok :
    (other name : Text) (input : TagInput)
    → normalize_tag_name input.name ≡ ok name
    → normalizes_to other input ≡ text_eq other name
normalizes_to_of_ok other name input e = rw (e, normalizes_to)

-- A name that was seen adds nothing.
Names-old :
    (tags inputs out : List TagInput) (input : TagInput) (name : Text)
    → normalize_tag_name input.name ≡ ok name
    → has_name name tags ≡ true
    → Names tags inputs out
    → Names tags (input ∷ inputs) out
Names-old tags inputs out input name e old names other = elim (Bool-cases (text_eq other name)) [
  | inl same ↦
      let known : has_name other tags ≡ true = rw ((text_eq_iff other name).0 same) old in
      ground (arith, names other)
  | inr differ ↦ ground (arith, names other, normalizes_to_of_ok other name input e)
]

Names-fresh :
    (tags longer inputs out : List TagInput) (input : TagInput) (name : Text)
    → normalize_tag_name input.name ≡ ok name
    → ((other : Text) → has_name other longer ≡ (text_eq other name || has_name other tags))
    → Names longer inputs out
    → Names tags (input ∷ inputs) out
Names-fresh tags longer inputs out input name e more names other =
    ground (arith, names other, more other, normalizes_to_of_ok other name input e)

normalize_from_sound :
    (tags : List TagInput) (seen : List Text) (inputs out : List TagInput)
    → IsRound tags seen
    → normalize_from tags seen inputs ≡ ok out
    → IsNormalized out × Names tags inputs out
unfolding normalize_from
normalize_from_sound tags seen [] out round h =
    rw (← (ok-injective h)) (round.normalized, λ name. ground arith)
normalize_from_sound tags seen (input ∷ inputs) out round h =
    let (name, e, k) = >>=-eq-ok (normalize_tag_name input.name) _ h in
    elim (Bool-cases (seen_name name seen)) [
      | inl old ↦
          let (normal, names) = normalize_from_sound tags seen inputs out round (rw old at k) in
          (normal, Names-old tags inputs out input name e (sym (round.tracks name) ∙ old) names)
      | inr fresh ↦
          let (longer, e2, k2) = >>=-eq-ok (add_tag tags name input.color) _ (rw fresh at k) in
          let (round2, more) =
            add_tag-IsRound tags longer seen name input.color round
              (normalize_tag_name-IsTagName input.name name e) fresh e2 in
          let (normal, names) = normalize_from_sound longer (name ∷ seen) inputs out round2 k2 in
          (normal, Names-fresh tags longer inputs out input name e more names)
    ]

-- If the inputs are accepted, the result is normalised, and it holds a name exactly when the name of
-- some input normalises to it.
pub normalize_tag_inputs_sound :
    (inputs out : List TagInput)
    → normalize_tag_inputs inputs ≡ ok out
    → IsNormalized out × ((name : Text) → has_name name out ≡ any (normalizes_to name) inputs)
unfolding normalize_tag_inputs seen_name
normalize_tag_inputs_sound inputs out h =
    normalize_from_sound [] [] inputs out
      (record {
        normalized = record { valid = tt; distinct = tt; few = omega arith };
        tracks = λ name. refl;
      })
      h
