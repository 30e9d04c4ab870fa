-- ===== src/Base/Assoc.antt =====
-- Go's maps with string keys, as lists of entries without a key twice.
use mathlib.Core.Path.{◌≡◌, refl, sym, ◌∙◌}
use mathlib.Core.Logic.{◌≢◌, inl, inr}
use mathlib.Core.Bool.{false, not}
use mathlib.Core.Option.{Option, none, some}
use mathlib.Core.List.{List, [], ◌∷◌}
use w8nc.Base.Tests.{if◌then◌else◌, Bool-cases}
use w8nc.Base.Lists.{filter}
use w8nc.Base.Text.{Text, text_eq, text_eq_iff, text_eq_refl}

pub text_eq-ne : (s t : Text) → s ≢ t → text_eq s t ≡ false
text_eq-ne s t differ = elim (Bool-cases (text_eq s t)) [
  | inl same ↦ absurd (differ ((text_eq_iff s t).0 same))
  | inr other ↦ other
]

module _ {V : Type 0} where
  -- m[key]
  unfoldable pub lookup : Text → List (Text × V) → Option V
  lookup key [] = none
  lookup key ((k, v) ∷ m) = let rest = lookup key m in if text_eq k key then some v else rest

  -- delete(m, key)
  unfoldable pub remove : Text → List (Text × V) → List (Text × V)
  remove key m = filter (λ entry. not (text_eq entry.0 key)) m

  -- m[key] = v
  unfoldable pub put : Text → V → List (Text × V) → List (Text × V)
  unfolding remove
  put key v m = (key, v) ∷ remove key m

  pub lookup-remove : (key : Text) (m : List (Text × V)) → lookup key (remove key m) ≡ none
  unfolding lookup remove
  lookup-remove key [] = refl
  lookup-remove key ((k, v) ∷ m) = elim (Bool-cases (text_eq k key)) [
    | inl same ↦ rw same (lookup-remove key m)
    | inr other ↦ rw (other, other) (lookup-remove key m)
  ]

  pub lookup-remove_other :
      (key other : Text) (m : List (Text × V))
      → key ≢ other
      → lookup key (remove other m) ≡ lookup key m
  unfolding lookup remove
  lookup-remove_other key other [] differ = refl
  lookup-remove_other key other ((k, v) ∷ m) differ =
      let rest = lookup-remove_other key other m differ in
      elim (Bool-cases (text_eq k other)) [
        | inl same ↦
            rw (same, text_eq-ne k key (λ e. differ (sym e ∙ (text_eq_iff k other).0 same))) rest
        | inr miss ↦ elim (Bool-cases (text_eq k key)) [
          | inl here ↦ rw (miss, here) refl
          | inr there ↦ rw (miss, there) rest
        ]
      ]

  pub lookup-put : (key : Text) (v : V) (m : List (Text × V)) → lookup key (put key v m) ≡ some v
  unfolding lookup put
  lookup-put key v m = rw (text_eq_refl key) refl

  pub lookup-put_other :
      (key other : Text) (v : V) (m : List (Text × V))
      → key ≢ other
      → lookup key (put other v m) ≡ lookup key m
  unfolding put lookup
  lookup-put_other key other v m differ =
      rw (text_eq-ne other key (λ e. differ (sym e))) (lookup-remove_other key other m differ)
