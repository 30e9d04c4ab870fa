-- ===== src/Auth/Handlers.antt =====
-- The handlers and the middleware of internal/auth/auth.go. Each takes what json.Decode makes of the body:
-- nothing if it is no JSON of that form. `now` is the time of the call, for this process and the database.
pub mod Granting
pub mod Returning
pub mod Changing
pub mod SigningOut
pub mod Guessing
mod Tests
use w8nc.Base.{
  ℕ, ◌+◌, ◌-◌, ◌*◌, Bool, true, false, ◌&&◌, Option, none, some, List, [], ◌∷◌, ltb, if◌then◌else◌,
  length,
}
use w8nc.Base.Int.{negsuc}
use w8nc.Base.Result.{Result, ok, err}
use w8nc.Base.Text.{Text, codes, is_empty}
use w8nc.Store
use w8nc.Store.{User, Conn}
use w8nc.Store.Users.{
  primary_user, user_by_id, create_session, delete_session, update_user_password, user_by_session,
}
use w8nc.Auth.RateLimiter.{limited, record_failure, reset}
use w8nc.Auth.{
  World, Manager, Cookie, Response, Request, authenticated, done, encoded, token_hash, cookie,
  write_auth_error, write_json, client_ip, min_password_length, hour,
}

-- randomToken
abbrev pub random_token : World → Option Text
random_token w = encoded (w.random 32)

-- `7 * 24 * time.Hour`
abbrev pub session_lifetime : ℕ
session_lifetime = 7 * (24 * hour)

abbrev pub no_session : Response
no_session = write_auth_error 500 (codes "could not create session")

abbrev pub signed_in : Cookie → Response
signed_in c = record { status = 200; body = authenticated true true none; set_cookie = some c }

abbrev pub session_created :
    Text → ℕ → Manager → Result Store.Error (Unit {0}) × Conn → Response × Manager
session_created token expires_at m (err e, c) = (no_session, record m { store = c })
session_created token expires_at m (ok _, c) =
    (signed_in (cookie m token expires_at), record m { store = c })

-- Login from the random token on.
abbrev pub with_token : World → ℕ → User → Option Text → Manager → Response × Manager
with_token w now user none m = (no_session, m)
with_token w now user (some token) m =
    session_created token (now + session_lifetime) m
      (create_session user.id (token_hash w m token) (now + session_lifetime) m.store)

abbrev pub refused : ℕ → Text → Manager → Response × Manager
refused now ip m = (
  write_auth_error 401 (codes "invalid password"),
  record m { rate_limiter = record_failure now ip m.rate_limiter },
)

abbrev pub cleared : Text → Manager → Manager
cleared ip m = record m { rate_limiter = reset ip m.rate_limiter }

-- Login behind CheckPassword.
abbrev pub if_right : World → ℕ → Text → User → Bool → Manager → Response × Manager
if_right w now ip user true m = with_token w now user (random_token w) (cleared ip m)
if_right w now ip user false m = refused now ip m

-- `err != nil || !CheckPassword(...)`, and what follows either way.
unfoldable pub with_user :
    World → ℕ → Text → Text → Result Store.Error User → Manager → Response × Manager
with_user w now password ip (err e) m = refused now ip m
with_user w now password ip (ok user) m =
    if_right w now ip user (w.matches user.password_hash password) m

unfoldable pub unless_limited : World → ℕ → Text → Text → Bool → Manager → Response × Manager
unless_limited w now password ip true m =
    (write_auth_error 429 (codes "too many failed login attempts"), m)
unless_limited w now password ip false m =
    with_user w now password ip (primary_user m.store).0
      (record m { store = (primary_user m.store).1 })

-- Login
unfoldable pub login : World → ℕ → Option Text → Request → Manager → Response × Manager
login w now none request m = (write_auth_error 400 (codes "invalid JSON"), m)
login w now (some password) request m =
    unless_limited w now password (client_ip w request)
      (limited now (client_ip w request) m.rate_limiter).0
      (record m { rate_limiter = (limited now (client_ip w request) m.rate_limiter).1 })

abbrev pub not_updated : Response
not_updated = write_auth_error 500 (codes "could not update password")

abbrev pub answer_update : Result Store.Error (Unit {0}) → Response
answer_update (ok _) = write_json done
answer_update (err e) = not_updated

-- keepSessionHash
abbrev pub kept_hash : World → Manager → Request → Text
kept_hash w m request = elim request.cookie [ none ↦ [] | some token ↦ token_hash w m token ]

-- UpdateUserPassword and the answer.
unfoldable pub store_password : World → Request → User → Text → Manager → Response × Manager
store_password w request user hash m =
    let updated = update_user_password user.id hash (kept_hash w m request) m.store in
    (answer_update updated.0, record m { store = updated.1 })

abbrev pub with_hash : World → Request → User → Option Text → Manager → Response × Manager
with_hash w request user none m = (not_updated, m)
with_hash w request user (some hash) m = store_password w request user hash m

abbrev pub wrong_password : Response
wrong_password = write_auth_error 401 (codes "current password is incorrect")

abbrev pub if_correct : World → Text → Request → User → Bool → Manager → Response × Manager
if_correct w new request user true m = with_hash w request user (w.generate_from_password new) m
if_correct w new request user false m = (wrong_password, m)

unfoldable pub if_current :
    World → Text → Text → Request → Result Store.Error User → Manager → Response × Manager
if_current w current new request (err e) m = (wrong_password, m)
if_current w current new request (ok user) m =
    if_correct w new request user (w.matches user.password_hash current) m

unfoldable pub for_user : World → Text → Text → Request → Option Text → Manager → Response × Manager
for_user w current new request none m = (write_auth_error 401 (codes "authentication required"), m)
for_user w current new request (some id) m =
    if_current w current new request (user_by_id id m.store).0
      (record m { store = (user_by_id id m.store).1 })

abbrev pub unless_short : World → Text → Text → Request → Bool → Manager → Response × Manager
unless_short w current new request true m =
    (write_auth_error 400 (codes "new password must be at least 12 characters"), m)
unless_short w current new request false m = for_user w current new request request.user m

-- ChangePassword, of the current and the new password.
unfoldable pub change_password :
    World → Option (Text × Text) → Request → Manager → Response × Manager
change_password w none request m = (write_auth_error 400 (codes "invalid JSON"), m)
change_password w (some (current, new)) request m =
    unless_short w current new request (ltb (length new) min_password_length) m

abbrev pub signed_out : World → Option Text → Manager → Conn
signed_out w none m = m.store
signed_out w (some token) m = (delete_session (token_hash w m token) m.store).1

-- Logout; an error of DeleteSession is dropped.
unfoldable pub logout : World → ℕ → Request → Manager → Response × Manager
logout w now request m = (
  record (write_json done) {
    set_cookie = some (record (cookie m [] (now - hour)) { max_age = negsuc 0 });
  },
  record m { store = signed_out w request.cookie m },
)

abbrev pub warning : Text
warning =
    codes "Authentication is disabled. Bind the app to localhost or enable auth before exposing it."

abbrev pub me_of : Bool → Option Text → Response
me_of false user = write_json (authenticated true false (some warning))
me_of true none = write_json (authenticated false true none)
me_of true (some id) = write_json (authenticated true true none)

-- Me
unfoldable pub me : Request → Manager → Response
me request m = me_of m.enabled request.user

abbrev pub user_id : Result Store.Error User → Option Text
user_id (ok user) = some user.id
user_id (err e) = none

abbrev pub user_of_cookie : World → ℕ → Option Text → Manager → Option Text × Manager
user_of_cookie w now none m = (none, m)
user_of_cookie w now (some []) m = (none, m)
user_of_cookie w now (some (c ∷ token)) m =
    let found = user_by_session now (token_hash w m (c ∷ token)) m.store in
    (user_id found.0, record m { store = found.1 })

-- userFromRequest
unfoldable pub user_from_request : World → ℕ → Request → Manager → Option Text × Manager
user_from_request w now request m = user_of_cookie w now request.cookie m

-- A handler behind the middleware.
abbrev pub Handler : Type 0
Handler = Request → Manager → Response × Manager

abbrev pub if_user : Handler → Request → Option Text × Manager → Response × Manager
if_user next request (none, m) = (write_auth_error 401 (codes "authentication required"), m)
if_user next request (some id, m) = next (record request { user = some id }) m

abbrev pub guarded : World → ℕ → Handler → Bool → Handler
guarded w now next false request m = next request m
guarded w now next true request m = if_user next request (user_from_request w now request m)

-- Middleware
unfoldable pub middleware : World → ℕ → Handler → Handler
middleware w now next request m = guarded w now next m.enabled request m

abbrev pub with_user_if_any : Handler → Request → Option Text × Manager → Response × Manager
with_user_if_any next request (none, m) = next request m
with_user_if_any next request (some id, m) = next (record request { user = some id }) m

abbrev pub informed : World → ℕ → Handler → Bool → Handler
informed w now next false request m = next request m
informed w now next true request m =
    with_user_if_any next request (user_from_request w now request m)

-- Optional
unfoldable pub optional : World → ℕ → Handler → Handler
optional w now next request m = informed w now next m.enabled request m
