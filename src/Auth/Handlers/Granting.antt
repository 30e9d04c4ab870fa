-- ===== src/Auth/Handlers/Granting.antt =====
-- When Login of internal/auth/auth.go creates a session.
use w8nc.Base.{
  ℕ, ◌+◌, ◌≡◌, refl, ap, ◌∙◌, ◌⊎◌, inl, inr, Bool, true, false, Option, none, some, [], ◌∷◌, any,
  ◌==◌,
}
use w8nc.Base.Result.{Result, ok, err}
use w8nc.Base.Text.{Text}
use w8nc.Store
use w8nc.Store.{Db, Conn, User}
use w8nc.Store.Rules.{Effect, query_db}
use w8nc.Store.Users.{primary_user, new_session, add_session}
use w8nc.Store.Users.Views.Effects.{create_session-Does}
use w8nc.Auth.{World, Manager, Response, Request, token_hash, cookie, client_ip}
use w8nc.Auth.RateLimiter.{RateLimiter as Limiter, limited, reset}
use w8nc.Auth.Handlers.{
  login, unless_limited, with_user, with_token, session_created, random_token, session_lifetime,
  signed_in, if_right,
}

-- A session was created: the address was not limited, the password is that of the first user, the
-- cookie holds a new token, and the table holds one session more, with the hash of the token.
abbrev pub Granted : World → ℕ → Option Text → Request → Manager → Response × Manager → Type 0
Granted w now body request m (response, after) =
    (password : Text) × (user : User) × (token : Text) × (body ≡ some password)
    × ((limited now (client_ip w request) m.rate_limiter).0 ≡ false)
    × ((primary_user m.store).0 ≡ ok user)
    × (w.matches user.password_hash password ≡ true)
    × (random_token w ≡ some token)
    × (after.session_secret ≡ m.session_secret)
    × (response ≡ signed_in (cookie m token (now + session_lifetime)))
    × (after.store.db
        ≡ add_session (new_session user.id (token_hash w m token) (now + session_lifetime))
            m.store.db)

-- No session was created, and the answer says so.
abbrev pub Refused : Manager → Response × Manager → Type 0
Refused m (response, after) =
    (response.set_cookie ≡ none)
    × (after.store.db ≡ m.store.db)
    × (any (λ status. response.status == status) (400 ∷ 401 ∷ 429 ∷ 500 ∷ []) ≡ true)

module _ (w : World) (now : ℕ) (password : Text) (request : Request) (m : Manager) where
  -- Login with a limiter that the test and a right password have changed.
  with_limiter : Limiter → Conn → Manager
  with_limiter r c = record m { store = c; rate_limiter = r }

  module _ (allowed : (limited now (client_ip w request) m.rate_limiter).0 ≡ false) (user : User)
      (found : (primary_user m.store).0 ≡ ok user)
      (right : w.matches user.password_hash password ≡ true) (r : Limiter) (before : Conn)
      (same : before.db ≡ m.store.db) where
    after_session :
        (token : Text) (drawn : random_token w ≡ some token)
        (result : Result Store.Error (Unit {0}) × Conn)
        → Effect before.db
            (add_session (new_session user.id (token_hash w m token) (now + session_lifetime)))
            result
        → Granted w now
            (some password)
            request
            m
            (session_created token (now + session_lifetime) (with_limiter r before) result)
          ⊎ Refused m
              (session_created token (now + session_lifetime) (with_limiter r before) result)
    unfolding with_limiter
    after_session token drawn (err e, c) unchanged = inr (refl, unchanged ∙ same, refl)
    after_session token drawn (ok _, c) added = inl (
      password,
      user,
      token,
      refl,
      allowed,
      found,
      right,
      drawn,
      refl,
      refl,
      added
          ∙ ap (add_session (new_session user.id (token_hash w m token) (now + session_lifetime)))
              same,
    )

    after_password :
        (random : Option Text)
        → random_token w ≡ random
        → Granted w now
            (some password)
            request
            m
            (with_token w now user random (with_limiter r before))
          ⊎ Refused m (with_token w now user random (with_limiter r before))
    unfolding with_limiter token_hash
    after_password none drawn = inr (refl, same, refl)
    after_password (some token) drawn =
        after_session token drawn _
          (create_session-Does user.id (token_hash w m token) (now + session_lifetime) before)

  after_check :
      (allowed : (limited now (client_ip w request) m.rate_limiter).0 ≡ false) (r : Limiter)
      (before : Conn)
      → before.db ≡ m.store.db
      → (user : User) → (primary_user m.store).0 ≡ ok user
      → (right : Bool) → w.matches user.password_hash password ≡ right
      → Granted w now
          (some password)
          request
          m
          (if_right w now (client_ip w request) user right (with_limiter r before))
        ⊎ Refused m (if_right w now (client_ip w request) user right (with_limiter r before))
  unfolding with_limiter
  after_check allowed r before same user found true right =
      after_password allowed user found right (reset (client_ip w request) r) before same
        (random_token w) refl
  after_check allowed r before same user found false wrong = inr (refl, same, refl)

  after_lookup :
      (allowed : (limited now (client_ip w request) m.rate_limiter).0 ≡ false) (r : Limiter)
      (before : Conn)
      → before.db ≡ m.store.db
      → (result : Result Store.Error User) → (primary_user m.store).0 ≡ result
      → Granted w now
          (some password)
          request
          m
          (with_user w now password (client_ip w request) result (with_limiter r before))
        ⊎ Refused m (with_user w now password (client_ip w request) result (with_limiter r before))
  unfolding with_user with_limiter
  after_lookup allowed r before same (err e) found = inr (refl, same, refl)
  after_lookup allowed r before same (ok user) found =
      after_check allowed r before same user found (w.matches user.password_hash password) refl

  after_limit :
      (stopped : Bool)
      → (limited now (client_ip w request) m.rate_limiter).0 ≡ stopped
      → (r : Limiter)
      → Granted w now
          (some password)
          request
          m
          (unless_limited w now password (client_ip w request) stopped (with_limiter r m.store))
        ⊎ Refused m
            (unless_limited w now password (client_ip w request) stopped (with_limiter r m.store))
  unfolding unless_limited with_limiter primary_user
  after_limit true limit r = inr (refl, refl, refl)
  after_limit false limit r =
      after_lookup limit r (primary_user m.store).1 (query_db _ m.store) (primary_user m.store).0
        refl

-- Login either creates one session, with a new cookie, for the first user, whose password was given from
-- an address that is not limited; or it sets no cookie, leaves the tables as they were and answers with
-- the status 400, 401, 429 or 500, whichever statements fail.
pub login_grants :
    (w : World) (now : ℕ) (body : Option Text) (request : Request) (m : Manager)
    → Granted w now body request m (login w now body request m)
      ⊎ Refused m (login w now body request m)
unfolding login with_limiter
login_grants w now none request m = inr (refl, refl, refl)
login_grants w now (some password) request m =
    after_limit w now password request m (limited now (client_ip w request) m.rate_limiter).0 refl
      (limited now (client_ip w request) m.rate_limiter).1
