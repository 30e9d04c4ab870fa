-- ===== src/Auth/Handlers/Returning.antt =====
-- A session that Login of internal/auth/auth.go creates, as userFromRequest reads it.
use w8nc.Base.{
  ℕ, ◌+◌, ◌++◌, ◌<◌, ◌≡◌, ◌≢◌, refl, sym, ap, subst, ◌∙◌, inl, inr, true, Option, none, some, List,
  [], ◌∷◌, any, All, length, lt→ltb, arith, Bool-cases, ◌⊎◌,
}
use w8nc.Base.Encoding.{hex, raw_url_encode}
use w8nc.Base.Result.{ok, ok-injective}
use w8nc.Base.Sort.{sort_by, sort_by-All}
use w8nc.Base.Text.{Text, codes, text_eq_iff, text_eq_refl}
use w8nc.Store.{User, Db, Conn, find_row}
use w8nc.Store.Rules.{query-ok, query_quiet}
use w8nc.Store.Rows.{All-imp}
use w8nc.Store.Users.{
  is_user, is_older, first_row, primary_user, user_of, user_by_session, new_session,
}
use w8nc.Auth.{World, Manager, Cookie, Response, Request, encoded, token_hash, cookie}
use w8nc.Auth.Handlers.{
  login, random_token, user_from_request, user_of_cookie, user_id, session_lifetime,
}
use w8nc.Auth.Handlers.Granting.{Granted, Refused, login_grants}

-- Every user is found by its id.
found_by_id : (users : List User) → All (λ u. any (is_user u.id) users ≡ true) users
found_by_id [] = tt
found_by_id (u ∷ users) = (
  rw (text_eq_refl u.id) refl,
  All-imp (λ v. any (is_user v.id) users ≡ true) (λ v. any (is_user v.id) (u ∷ users) ≡ true)
      (λ v h. ground (arith, h)) users (found_by_id users),
)

first_row-All :
    {A : Type 0} (P : A → Type 0) (rows : List A) (row : A)
    → All P rows
    → first_row rows ≡ ok row
    → P row
first_row-All P [] row h e = absurd (cc)
first_row-All P (x ∷ rows) row (here, later) e = subst P (ok-injective e) here

find_row-any :
    (id : Text) (users : List User)
    → any (is_user id) users ≡ true
    → (user : User) × (find_row (is_user id) users ≡ ok user) × (user.id ≡ id)
unfolding find_row
find_row-any id [] h = absurd (cc)
find_row-any id (u ∷ users) h = elim (Bool-cases (is_user id u)) [
  | inl hit ↦ (u, rw hit refl, (text_eq_iff u.id id).0 hit)
  | inr miss ↦
      let (user, found, same) = find_row-any id users (ground arith) in (user, rw miss found, same)
]

-- The user of a session just added, while it lasts.
user_of-added :
    (now : ℕ) (db : Db) (id token : Text) (expires : ℕ)
    → any (is_user id) db.users ≡ true
    → now < expires
    → (user : User) × (user_of now token db.users (new_session id token expires ∷ db.sessions)
        ≡ ok user)
      × (user.id ≡ id)
unfolding user_of
user_of-added now db id token expires known live =
    let (user, found, same) = find_row-any id db.users known in
    (user, rw (text_eq_refl token, lt→ltb now expires live, found) refl, same)

raw_url_encode-nonempty : (bytes : List ℕ) → length bytes ≡ 32 → raw_url_encode bytes ≢ []
unfolding raw_url_encode
raw_url_encode-nonempty [] h e = absurd (omega (arith, h))
raw_url_encode-nonempty (a ∷ []) h e = cc
raw_url_encode-nonempty (a ∷ b ∷ []) h e = cc
raw_url_encode-nonempty (a ∷ b ∷ c ∷ bytes) h e = cc

random_token-nonempty :
    (w : World) (token : Text)
    → ((bytes : List ℕ) → w.random 32 ≡ some bytes → length bytes ≡ 32)
    → random_token w ≡ some token
    → token ≢ []
random_token-nonempty w token full drawn = go (w.random 32) full drawn
  where
    go :
        (read : Option (List ℕ))
        → ((bytes : List ℕ) → read ≡ some bytes → length bytes ≡ 32)
        → encoded read ≡ some token
        → token ≢ []
    go none whole e = absurd (cc)
    go (some bytes) whole e =
        let same : raw_url_encode bytes ≡ token = cc in
        λ empty. raw_url_encode-nonempty bytes (whole bytes refl) (same ∙ empty)

-- The user whom Login finds is found by id.
primary_user-known :
    (c : Conn) (user : User)
    → (primary_user c).0 ≡ ok user
    → any (is_user user.id) c.db.users ≡ true
unfolding primary_user
primary_user-known c user found =
    let (first, _) = query-ok _ c (ap (λ r. (r, (primary_user c).1)) found) in
    first_row-All (λ u. any (is_user u.id) c.db.users ≡ true) (sort_by is_older c.db.users) user
      (sort_by-All is_older (λ u. any (is_user u.id) c.db.users ≡ true) c.db.users
        (found_by_id c.db.users))
      first

module _ (w : World) (later : ℕ) (m : Manager) (id : Text) where
  -- userFromRequest where the query finds this user.
  user_of_cookie_found :
      (token : Text)
      → token ≢ []
      → m.store.faults ≡ []
      → ((user : User) × (user_of later (token_hash w m token) m.store.db.users m.store.db.sessions
            ≡ ok user)
          × (user.id ≡ id))
      → (user_of_cookie w later (some token) m).0 ≡ some id
  unfolding user_by_session
  user_of_cookie_found [] some_token quiet found = absurd (some_token refl)
  user_of_cookie_found (c ∷ token) some_token quiet (user, found, same) =
      ap user_id (query_quiet _ m.store quiet ∙ found) ∙ ap some same

-- A request with the cookie that Login has set is one of the user who signed in, until the cookie expires,
-- where rand.Read fills its buffer and the statement of the query does not fail.
pub login-user_from_request :
    (w : World) (now later : ℕ) (body : Option Text) (request again : Request) (m m' : Manager)
    (response : Response) (c : Cookie)
    → ((bytes : List ℕ) → w.random 32 ≡ some bytes → length bytes ≡ 32)
    → login w now body request m ≡ (response, m')
    → response.set_cookie ≡ some c
    → m'.store.faults ≡ []
    → again.cookie ≡ some c.value
    → later < c.expires
    → (user : User) × ((primary_user m.store).0 ≡ ok user)
      × ((user_from_request w later again m').0 ≡ some user.id)
unfolding user_from_request
login-user_from_request w now later body request again m m' response c full signed set quiet sent
      live =
    elim (subst (λ r. Granted w now body request m r ⊎ Refused m r) signed
      (login_grants w now body request m)) [
        | inr (unset, _, _) ↦ absurd (cc (unset, set))
        | inl (password, user, token, _, _, found, _, drawn, secret, answered, added) ↦
            let expires = now + session_lifetime in
            let same : c ≡ cookie m token expires = cc (set, ap (λ r. r.set_cookie) answered) in
            let hash : token_hash w m token ≡ token_hash w m' token =
              unfold token_hash in
              ap (λ s. hex (w.sha256 (token ++ (codes ":" ++ s)))) (sym secret) in
            let there : (u : User) × (user_of later (token_hash w m' token) m'.store.db.users
                    m'.store.db.sessions
                  ≡ ok u)
                × (u.id ≡ user.id) =
              subst
                (λ (db : Db).
                  (u : User) × (user_of later (token_hash w m' token) db.users db.sessions ≡ ok u)
                  × (u.id ≡ user.id))
                (sym added)
                (subst
                  (λ h.
                    (u : User) × (user_of later h m.store.db.users
                        (new_session user.id (token_hash w m token) expires ∷ m.store.db.sessions)
                      ≡ ok u)
                    × (u.id ≡ user.id))
                  hash
                  (user_of-added later m.store.db user.id (token_hash w m token) expires
                    (primary_user-known m.store user found)
                    (subst (λ k. later < k.expires) same live))) in
            (
              user,
              found,
              ap (λ o. (user_of_cookie w later o m').0) (sent ∙ ap (λ k. some k.value) same)
                  ∙ user_of_cookie_found w later m' user.id token
                      (random_token-nonempty w token full drawn) quiet there,
            )
      ]
