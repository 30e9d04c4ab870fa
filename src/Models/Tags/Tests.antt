-- ===== src/Models/Tags/Tests.antt =====
-- Tags on concrete inputs, and the theorems at inputs that meet their hypotheses.
use w8nc.Base.{◌≡◌, refl, List, [], ◌∷◌, any}
use w8nc.Base.Result.{ok, err}
use w8nc.Base.Text.{Text, codes}
use w8nc.Models.Tags.{
  TagInput, bad_start, unknown_color, normalize_tag_name, seen_name, add_tag, normalize_tag_inputs,
}
use w8nc.Models.Tags.Laws.{has_name, IsNormalized, normalizes_to, normalize_tag_inputs_sound}

abbrev inputs : List TagInput
inputs =
    record { name = codes " Prod "; color = [] }
    ∷ record { name = codes "db-1"; color = codes "Blue" }
    ∷ record { name = codes "prod"; color = codes "rose" }
    ∷ []

abbrev tags : List TagInput
tags =
    record { name = codes "prod"; color = codes "slate" }
    ∷ record { name = codes "db-1"; color = codes "blue" }
    ∷ []

inputs_accepted : normalize_tag_inputs inputs ≡ ok tags
unfolding normalize_tag_inputs normalize_tag_name seen_name add_tag
inputs_accepted = refl

rejected_inputs :
    (normalize_tag_inputs (record { name = codes "-a"; color = [] } ∷ []) ≡ err bad_start)
    × (normalize_tag_inputs (record { name = codes "a"; color = codes "red" } ∷ [])
        ≡ err unknown_color)
unfolding normalize_tag_inputs normalize_tag_name seen_name add_tag
rejected_inputs = (refl, refl)

upper_name : normalize_tag_name (codes " A1") ≡ ok (codes "a1")
unfolding normalize_tag_name
upper_name = refl

normalize_tag_inputs_sound_example :
    IsNormalized tags × ((name : Text) → has_name name tags ≡ any (normalizes_to name) inputs)
normalize_tag_inputs_sound_example = normalize_tag_inputs_sound inputs tags inputs_accepted
