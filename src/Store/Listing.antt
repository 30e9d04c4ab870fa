-- ===== src/Store/Listing.antt =====
-- The parameters of a list of endpoints (internal/db/db.go: ListEndpointsParams and Normalize).
mod Tests
use w8nc.Base.{
  ℕ, ◌≡◌, refl, ◌∙◌, ap, ◌⊎◌, inl, inr, Bool, true, false, not, ◌||◌, Option, List, [], ◌∷◌, ◌==◌,
  arith, if◌then◌else◌, any, Bool-cases,
}
use w8nc.Base.Int.{ℤ, pos, negsuc, ltb_ℤ}
use w8nc.Base.Text.{Text, codes, text_eq, trim_space, to_lower, to_upper}

pub record ListEndpointsParams : Type 0 where
  pub page : ℤ
  pub page_size : ℤ
  pub sort : Text
  pub state : Text
  pub active : Option Bool
  pub method : Text
  pub search : Text
  pub tag : Text

-- The keys of `sortExpressions`.
abbrev pub sort_keys : List Text
sort_keys =
    codes "created_desc"
    ∷ codes "created_asc"
    ∷ codes "updated_desc"
    ∷ codes "updated_asc"
    ∷ codes "active_desc"
    ∷ codes "active_asc"
    ∷ codes "state_asc"
    ∷ codes "state_desc"
    ∷ codes "last_checked_desc"
    ∷ codes "last_checked_asc"
    ∷ []

unfoldable pub is_sort_key : Text → Bool
unfolding text_eq
is_sort_key sort = any (text_eq sort) sort_keys

-- `allowedPage`
abbrev pub allowed_page : ℤ → Bool
allowed_page (negsuc n) = false
allowed_page (pos n) = any (λ size. size == n) (20 ∷ 50 ∷ 100 ∷ 250 ∷ [])

unfoldable pub normalize : ListEndpointsParams → ListEndpointsParams
unfolding is_sort_key trim_space
normalize p = record p {
  page = if ltb_ℤ p.page (pos 1) then pos 1 else p.page;
  page_size = if allowed_page p.page_size then p.page_size else pos 20;
  sort = if is_sort_key p.sort then p.sort else codes "created_desc";
  method = to_upper (trim_space p.method);
  state = trim_space p.state;
  search = trim_space p.search;
  tag = to_lower (trim_space p.tag);
}

-- Whatever the parameters, after Normalize the page is at least 1, the page size is one of the four that
-- are allowed, the sort is a key of `sortExpressions`, and each of the three that was right before is
-- unchanged.
pub normalize_bounds :
    (p : ListEndpointsParams)
    → (ltb_ℤ (normalize p).page (pos 1) ≡ false)
      × (allowed_page (normalize p).page_size ≡ true)
      × (is_sort_key (normalize p).sort ≡ true)
      × ((ltb_ℤ p.page (pos 1) ≡ true) ⊎ ((normalize p).page ≡ p.page))
      × ((allowed_page p.page_size ≡ false) ⊎ ((normalize p).page_size ≡ p.page_size))
      × ((is_sort_key p.sort ≡ false) ⊎ ((normalize p).sort ≡ p.sort))
unfolding normalize
normalize_bounds p = (
  elim (Bool-cases (ltb_ℤ p.page (pos 1))) [ inl low ↦ rw low refl | inr fine ↦ rw fine fine ],
  elim (Bool-cases (allowed_page p.page_size)) [ inl fine ↦ rw fine fine | inr odd ↦ rw odd refl ],
  sort_is_key p.sort,
  elim (Bool-cases (ltb_ℤ p.page (pos 1))) [ inl low ↦ inl low | inr fine ↦ inr (rw fine refl) ],
  elim (Bool-cases (allowed_page p.page_size)) [
    | inl fine ↦ inr (rw fine refl)
    | inr odd ↦ inl odd
  ],
  elim (Bool-cases (is_sort_key p.sort)) [
    | inl known ↦ inr (rw known refl)
    | inr unknown ↦ inl unknown
  ],
)
  where
    sort_is_key :
        (sort : Text) → is_sort_key (if is_sort_key sort then sort else codes "created_desc") ≡ true
    sort_is_key sort = elim (Bool-cases (is_sort_key sort)) [
      | inl known ↦ rw known known
      | inr unknown ↦ rw unknown (unfold is_sort_key in refl)
    ]
