-- ===== src/Base/Text.antt =====
-- Go strings as lists of bytes, and the functions of package strings that the program calls.
use Prim.Native.Char.{code}
use Prim.Native.Nat.{ℕ, ◌+◌, ◌-◌}
use Prim.Native.String.{String}
use mathlib.Core.Path.{◌≡◌, refl, ap}
use mathlib.Core.Logic.{◌↔◌, inl, inr}
use mathlib.Core.Bool.{Bool, true, false, ◌&&◌, ◌||◌}
use mathlib.Core.List.{List, [], ◌∷◌, ◌++◌, map, reverse}
use native.Mathlib.Omega.{arith}
use w8nc.Base.Tests.{leb, ltb, ◌==◌, if◌then◌else◌, Bool-cases}

abbrev pub Text : Type 0
Text = List ℕ

-- The bytes of an ASCII literal.
abbrev pub codes : String → Text
codes String.[] = []
codes (String.◌∷◌ c s) = code c ∷ codes s

-- `a == b` on strings.
unfoldable pub text_eq : Text → Text → Bool
text_eq [] [] = true
text_eq [] (_ ∷ _) = false
text_eq (_ ∷ _) [] = false
text_eq (a ∷ s) (b ∷ t) = a == b && text_eq s t

pub text_eq_iff : (s t : Text) → (text_eq s t ≡ true) ↔ (s ≡ t)
unfolding text_eq
text_eq_iff [] [] = ground arith
text_eq_iff [] (b ∷ t) = ground arith
text_eq_iff (a ∷ s) [] = ground arith
text_eq_iff (a ∷ s) (b ∷ t) = ground (arith, text_eq_iff s t)

pub text_eq_refl : (s : Text) → text_eq s s ≡ true
text_eq_refl s = (text_eq_iff s s).1 refl

-- The order of strings, by their bytes.
abbrev pub text_leb : Text → Text → Bool
text_leb [] t = true
text_leb (c ∷ s) [] = false
text_leb (c ∷ s) (d ∷ t) = ltb c d || (c == d && text_leb s t)

abbrev pub is_empty : Text → Bool
is_empty [] = true
is_empty (_ ∷ _) = false

-- strings.HasPrefix(s, p)
unfoldable pub has_prefix : Text → Text → Bool
has_prefix s [] = true
has_prefix [] (_ ∷ _) = false
has_prefix (a ∷ s) (b ∷ p) = a == b && has_prefix s p

-- strings.Contains(s, t) and bytes.Contains(s, t)
unfoldable pub contains : Text → Text → Bool
unfolding has_prefix
contains [] t = has_prefix [] t
contains (a ∷ s) t = has_prefix (a ∷ s) t || contains s t

pub has_prefix_iff : (s p : Text) → (has_prefix s p ≡ true) ↔ ((r : Text) × (s ≡ p ++ r))
unfolding has_prefix
has_prefix_iff s [] = ((λ _. (s, refl)), λ _. refl)
has_prefix_iff [] (b ∷ p) = ((λ h. absurd (cc)), λ e. absurd (cc (e.1)))
has_prefix_iff (a ∷ s) (b ∷ p) = (
  (λ h. let (r, e) = (has_prefix_iff s p).0 (ground arith) in (r, ground arith)),
  (λ e. ground (arith, e.1, (has_prefix_iff s p).1 (e.0, ground (arith, e.1)))),
)

contains_of_prefix : (s t : Text) → has_prefix s t ≡ true → contains s t ≡ true
unfolding contains
contains_of_prefix [] t h = h
contains_of_prefix (a ∷ s) t h = ground arith

contains_append : (x t y : Text) → contains (x ++ (t ++ y)) t ≡ true
unfolding contains
contains_append [] t y = contains_of_prefix _ t ((has_prefix_iff _ t).1 (y, refl))
contains_append (a ∷ x) t y = ground (arith, contains_append x t y)

contains_sound : (s t : Text) → contains s t ≡ true → (x : Text) × (y : Text) × (s ≡ x ++ (t ++ y))
unfolding contains
contains_sound [] t h = let (r, e) = (has_prefix_iff [] t).0 h in ([], r, e)
contains_sound (a ∷ s) t h = elim (Bool-cases (has_prefix (a ∷ s) t)) [
  | inl first ↦ let (r, e) = (has_prefix_iff (a ∷ s) t).0 first in ([], r, e)
  | inr later ↦ let (x, y, e) = contains_sound s t (ground arith) in (a ∷ x, y, ap (◌∷◌ a) e)
]

-- A text contains exactly its factors.
pub contains_iff :
    (s t : Text) → (contains s t ≡ true) ↔ ((x : Text) × (y : Text) × (s ≡ x ++ (t ++ y)))
contains_iff s t = (contains_sound s t, λ e. rw (e.2) (contains_append e.0 t e.1))

-- strings.HasSuffix(s, p)
unfoldable pub has_suffix : Text → Text → Bool
unfolding has_prefix
has_suffix s p = has_prefix (reverse s) (reverse p)

-- The ASCII white space of strings.TrimSpace.
abbrev pub is_space : ℕ → Bool
is_space c = c == 32 || (leb 9 c && leb c 13)

unfoldable pub trim_left : Text → Text
trim_left [] = []
trim_left (c ∷ s) = let rest = trim_left s in if is_space c then rest else c ∷ s

-- strings.TrimSpace on a text whose white space is ASCII.
unfoldable pub trim_space : Text → Text
unfolding trim_left
trim_space s = reverse (trim_left (reverse (trim_left s)))

abbrev pub lower : ℕ → ℕ
lower c = if leb b'A' c && leb c b'Z' then c + 32 else c

abbrev pub upper : ℕ → ℕ
upper c = if leb b'a' c && leb c b'z' then c - 32 else c

-- strings.ToLower and strings.ToUpper, which change ASCII letters only where the text is ASCII.
abbrev pub to_lower : Text → Text
to_lower = map lower

abbrev pub to_upper : Text → Text
to_upper = map upper
