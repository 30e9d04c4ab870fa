-- ===== src/Store/Users/Views/Wellformed.antt =====
-- The constraints of the tables of users and sessions, which every operation of internal/db/db.go on
-- them keeps.
use w8nc.Base.{
  ◌≡◌, refl, ◌∙◌, inl, inr, Bool, true, false, not, List, [], ◌∷◌, any, filter, All, Bool-cases,
  arith,
}
use w8nc.Base.Text.{Text}
use w8nc.Store.{User, Session, Db, update_where}
use w8nc.Store.Rules.{Keeps, changing-Keeps}
use w8nc.Store.Rows.{filter-All, All-imp}
use w8nc.Store.Users.{is_user, has_token, drop_sessions, drop_users, update_user}

-- No two sessions have one hash.
abbrev pub Unique : List Session → Type 0
Unique [] = Unit
Unique (session ∷ sessions) =
    (any (has_token session.token_hash) sessions ≡ false) × Unique sessions

-- No two users have one id.
abbrev pub Distinct : List User → Type 0
Distinct [] = Unit
Distinct (user ∷ users) = (any (is_user user.id) users ≡ false) × Distinct users

-- The user of the session exists.
abbrev pub HasUser : List User → Session → Type 0
HasUser users session = any (is_user session.user_id) users ≡ true

abbrev pub Wellformed : Db → Type 0
Wellformed db = Distinct db.users × Unique db.sessions × All (HasUser db.users) db.sessions

any-filter :
    {A : Type 0} (q p : A → Bool) (xs : List A) → any q xs ≡ false → any q (filter p xs) ≡ false
any-filter q p [] h = refl
any-filter q p (x ∷ xs) h = ground (arith, any-filter q p xs)

filter-Unique : (p : Session → Bool) (xs : List Session) → Unique xs → Unique (filter p xs)
filter-Unique p [] h = tt
filter-Unique p (x ∷ xs) (here, later) = elim (Bool-cases (p x)) [
  | inl e ↦ rw e (any-filter (has_token x.token_hash) p xs here, filter-Unique p xs later)
  | inr e ↦ rw e (filter-Unique p xs later)
]

filter-Distinct : (p : User → Bool) (xs : List User) → Distinct xs → Distinct (filter p xs)
filter-Distinct p [] h = tt
filter-Distinct p (x ∷ xs) (here, later) = elim (Bool-cases (p x)) [
  | inl e ↦ rw e (any-filter (is_user x.id) p xs here, filter-Distinct p xs later)
  | inr e ↦ rw e (filter-Distinct p xs later)
]

pub drop_sessions-Wellformed :
    (p : Session → Bool) (db : Db) → Wellformed db → Wellformed (drop_sessions p db)
unfolding drop_sessions
drop_sessions-Wellformed p db (users, unique, owned) = (
  users,
  filter-Unique (λ s. not (p s)) db.sessions unique,
  filter-All (λ s. not (p s)) (HasUser db.users) db.sessions owned,
)

-- A user found among the users is dropped or kept.
any_kept :
    (q p : User → Bool) (users : List User)
    → any q users ≡ true
    → any q (filter p users) ≡ false
    → any q (filter (λ u. not (p u)) users) ≡ true
any_kept q p [] h k = absurd (ground arith)
any_kept q p (u ∷ users) h k = ground (arith, any_kept q p users)

pub kept-HasUser :
    (p : User → Bool) (users : List User) (sessions : List Session)
    → All (HasUser users) sessions
    → All
        (HasUser (filter (λ u. not (p u)) users))
        (filter (λ s. not (any (is_user s.user_id) (filter p users))) sessions)
kept-HasUser p users [] h = tt
kept-HasUser p users (s ∷ sessions) (here, later) =
    elim (Bool-cases (any (is_user s.user_id) (filter p users))) [
      | inl e ↦ rw e (kept-HasUser p users sessions later)
      | inr e ↦
          rw e (any_kept (is_user s.user_id) p users here e, kept-HasUser p users sessions later)
    ]

pub drop_users-Wellformed :
    (p : User → Bool) (db : Db) → Wellformed db → Wellformed (drop_users p db)
unfolding drop_users
drop_users-Wellformed p db (users, unique, owned) = (
  filter-Distinct (λ u. not (p u)) db.users users,
  filter-Unique (λ s. not (any (is_user s.user_id) (filter p db.users))) db.sessions unique,
  kept-HasUser p db.users db.sessions owned,
)

-- An UPDATE that leaves the ids alone.
module _ (p : User → Bool) (f : User → User) (same : (u : User) → (f u).id ≡ u.id) where
  pub any-update :
      (id : Text) (users : List User)
      → any (is_user id) (update_where p f users) ≡ any (is_user id) users
  unfolding update_where
  any-update id [] = refl
  any-update id (u ∷ users) = elim (Bool-cases (p u)) [
    | inl e ↦ rw (e, same u, any-update id users) refl
    | inr e ↦ rw (e, any-update id users) refl
  ]

  update-Distinct : (users : List User) → Distinct users → Distinct (update_where p f users)
  unfolding update_where
  update-Distinct [] h = tt
  update-Distinct (u ∷ users) (here, later) = elim (Bool-cases (p u)) [
    | inl e ↦ rw (e, same u) (any-update u.id users ∙ here, update-Distinct users later)
    | inr e ↦ rw e (any-update u.id users ∙ here, update-Distinct users later)
  ]

  update-HasUser :
      (users : List User) (sessions : List Session)
      → All (HasUser users) sessions
      → All (HasUser (update_where p f users)) sessions
  update-HasUser users =
      All-imp (HasUser users) (HasUser (update_where p f users))
        (λ s h. any-update s.user_id users ∙ h)

pub update_user-Keeps :
    (id : Text) (f : User → User)
    → ((u : User) → (f u).id ≡ u.id)
    → Keeps Wellformed (update_user id f)
unfolding update_user
update_user-Keeps id f same = changing-Keeps Wellformed _ _ (λ db a e h. (
  update-Distinct (is_user id) f same db.users (h.0),
  h.1,
  update-HasUser (is_user id) f same db.users db.sessions (h.2),
))
