-- ===== src/Base/Trim.antt =====
-- Texts that strings.TrimSpace leaves alone.
use Prim.Native.Nat.{ℕ}
use mathlib.Core.Path.{◌≡◌, refl, ap, ◌∙◌}
use mathlib.Core.Bool.{Bool, true, not}
use mathlib.Core.List.{[], ◌∷◌, reverse, reverse-cons, reverse-reverse}
use native.Mathlib.Omega.{arith}
use w8nc.Base.Lists.{all, all-append}
use w8nc.Base.Text.{Text, is_space, trim_left, trim_space}

abbrev pub is_solid : ℕ → Bool
is_solid c = not (is_space c)

trim_left_of_solid : (s : Text) → all is_solid s ≡ true → trim_left s ≡ s
unfolding trim_left
trim_left_of_solid [] h = refl
trim_left_of_solid (c ∷ s) h = ground arith

all-reverse : (p : ℕ → Bool) (s : Text) → all p s ≡ true → all p (reverse s) ≡ true
all-reverse p [] h = refl
all-reverse p (c ∷ s) h =
    rw (reverse-cons c s)
      (all-append p (reverse s) (c ∷ []) (all-reverse p s (ground arith)) (ground arith))

-- A text with no white space is not changed.
pub trim_space_of_solid : (s : Text) → all is_solid s ≡ true → trim_space s ≡ s
unfolding trim_space
trim_space_of_solid s h =
    ap (λ t. reverse (trim_left (reverse t))) (trim_left_of_solid s h)
    ∙ (ap reverse (trim_left_of_solid (reverse s) (all-reverse is_solid s h)) ∙ reverse-reverse s)
