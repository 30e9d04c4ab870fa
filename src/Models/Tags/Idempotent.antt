-- ===== src/Models/Tags/Idempotent.antt =====
-- Normalising tags twice: the API does it, and CreateEndpoint and UpdateEndpoint do it again.
use w8nc.Base.{
  ◌<◌, ℕ, suc, ◌≤◌, ◌≡◌, refl, ap, sym, ◌∙◌, true, false, ◌||◌, List, [], ◌∷◌, ◌++◌, append_assoc,
  append-nil, arith, length, length-append, any, all, All,
}
use w8nc.Base.Result.{ok}
use w8nc.Base.Text.{Text, text_eq, text_eq_iff, to_lower}
use w8nc.Base.Trim.{is_solid, trim_space_of_solid}
use w8nc.Models.Tags.{
  TagInput, max_endpoint_tags, allowed_tag_colors, is_tag_name_char, tag_color_allowed, check_chars,
  check_name, normalize_tag_name, normalize_color, seen_name, add_tag, normalize_from,
  normalize_tag_inputs,
}
use w8nc.Models.Tags.Laws.{
  IsTagName, IsTag, has_name, Distinct, has_name-concat, normalize_tag_inputs_sound,
}

check_rest : (i : ℕ) (s : Text) → all is_tag_name_char s ≡ true → check_chars (suc i) s ≡ ok tt
unfolding check_chars
check_rest i [] h = refl
check_rest i (c ∷ s) h = ground (arith, check_rest (suc i) s)

check_name_of_IsTagName : (s : Text) → IsTagName s → check_name s ≡ ok s
unfolding check_name
check_name_of_IsTagName [] h = absurd h.start
check_name_of_IsTagName (c ∷ s) h = ground (arith, h.characters, h.start, h.short, check_rest 0 s)

solid_names :
    (s : Text) → all is_tag_name_char s ≡ true → (all is_solid s ≡ true) × (to_lower s ≡ s)
unfolding is_tag_name_char
solid_names [] h = (refl, refl)
solid_names (c ∷ s) h =
    let (a, b) = solid_names s (ground arith) in (ground arith, ground (arith, b))

normalize_tag_name_of_IsTagName : (s : Text) → IsTagName s → normalize_tag_name s ≡ ok s
unfolding normalize_tag_name
normalize_tag_name_of_IsTagName s h =
    let (solid, small) = solid_names s h.characters in
    ap (λ t. check_name (to_lower t)) (trim_space_of_solid s solid)
    ∙ (ap check_name small ∙ check_name_of_IsTagName s h)

fixed_among :
    (color : Text) (colors : List Text)
    → any (text_eq color) colors ≡ true
    → All (λ c. normalize_color c ≡ c) colors
    → normalize_color color ≡ color
fixed_among color [] h k = absurd (cc)
fixed_among color (c ∷ cs) h (here, later) =
    ground (arith, text_eq_iff color c, fixed_among color cs)

normalize_color_of_allowed :
    (color : Text) → tag_color_allowed color ≡ true → normalize_color color ≡ color
unfolding tag_color_allowed normalize_color
normalize_color_of_allowed color h =
    fixed_among color allowed_tag_colors h
      (refl, (refl, (refl, (refl, (refl, (refl, (refl, (refl, tt))))))))

has_name-append :
    (name : Text) (tags : List TagInput) (tag : TagInput) (rest : List TagInput)
    → has_name name (tags ++ tag ∷ rest) ≡ false
    → text_eq name tag.name ≡ false
has_name-append name [] tag rest h = ground arith
has_name-append name (t ∷ tags) tag rest h = has_name-append name tags tag rest (ground arith)

Distinct-fresh :
    (tags : List TagInput) (tag : TagInput) (rest : List TagInput)
    → Distinct (tags ++ tag ∷ rest)
    → has_name tag.name tags ≡ false
Distinct-fresh [] tag rest h = refl
Distinct-fresh (t ∷ tags) tag rest (here, later) = ground (
  arith,
  has_name-append t.name tags tag rest here,
  text_eq_iff t.name tag.name,
  text_eq_iff tag.name t.name,
  Distinct-fresh tags tag rest later,
)

add_tag_of_normal :
    (tags : List TagInput) (tag : TagInput)
    → tag_color_allowed tag.color ≡ true
    → length tags < max_endpoint_tags
    → add_tag tags tag.name tag.color ≡ ok (tags ++ tag ∷ [])
unfolding add_tag
add_tag_of_normal tags tag h k =
    rw (normalize_color_of_allowed tag.color h, h) (ground (arith, length-append tags (tag ∷ [])))

-- The round of the loop that adds a tag.
normalize_from-add :
    (tags longer : List TagInput) (seen : List Text) (tag : TagInput) (rest : List TagInput)
    (name : Text)
    → normalize_tag_name tag.name ≡ ok name
    → seen_name name seen ≡ false
    → add_tag tags name tag.color ≡ ok longer
    → normalize_from tags seen (tag ∷ rest) ≡ normalize_from longer (name ∷ seen) rest
unfolding normalize_from
normalize_from-add tags longer seen tag rest name e fresh added = ground arith

normalize_from_of_normal :
    (tags : List TagInput) (seen : List Text) (rest : List TagInput)
    → ((name : Text) → seen_name name seen ≡ has_name name tags)
    → All IsTag rest
    → Distinct (tags ++ rest)
    → length (tags ++ rest) ≤ max_endpoint_tags
    → normalize_from tags seen rest ≡ ok (tags ++ rest)
unfolding normalize_from
normalize_from_of_normal tags seen [] tracks valid distinct few = ap ok (sym (append-nil tags))
normalize_from_of_normal tags seen (tag ∷ rest) tracks ((named, allowed), valid) distinct few =
    let regroup = append_assoc tags (tag ∷ []) rest in
    normalize_from-add tags (tags ++ tag ∷ []) seen tag rest tag.name
      (normalize_tag_name_of_IsTagName tag.name named)
      (tracks tag.name ∙ Distinct-fresh tags tag rest distinct)
      (add_tag_of_normal tags tag allowed (omega (arith, length-append tags (tag ∷ rest))))
    ∙ (normalize_from_of_normal (tags ++ tag ∷ []) (tag.name ∷ seen) rest grown valid
          (rw regroup distinct) (rw regroup few)
        ∙ ap ok regroup)
  where
    grown : (name : Text) → seen_name name (tag.name ∷ seen) ≡ has_name name (tags ++ tag ∷ [])
    grown name =
        rw (has_name-concat name tags tag)
          (unfold seen_name in ap (◌||◌ (text_eq name tag.name)) (tracks name))

-- A list of tags that was accepted once is accepted again, and stays as it is.
pub normalize_tag_inputs_idempotent :
    (inputs tags : List TagInput)
    → normalize_tag_inputs inputs ≡ ok tags
    → normalize_tag_inputs tags ≡ ok tags
unfolding normalize_tag_inputs seen_name
normalize_tag_inputs_idempotent inputs tags h =
    let (normal, _) = normalize_tag_inputs_sound inputs tags h in
    normalize_from_of_normal [] [] tags (λ name. refl) normal.valid normal.distinct normal.few
