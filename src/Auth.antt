-- ===== src/Auth.antt =====
-- internal/auth/auth.go: the manager of the one user, its password and its sessions. What bcrypt, sha256,
-- the random source and net.SplitHostPort answer during a call is a record of functions.
pub mod RateLimiter
pub mod Passwords
pub mod Handlers
use w8nc.Base.{ℕ, ◌+◌, ◌*◌, Bool, true, false, Option, none, some, List, [], ◌∷◌, ◌++◌}
use w8nc.Base.Encoding.{hex, raw_url_encode}
use w8nc.Base.Int.{ℤ}
use w8nc.Base.Result.{Result, ok, err}
use w8nc.Base.Text.{Text, codes}
use w8nc.Store
use w8nc.Store.{Conn}
use w8nc.Auth.RateLimiter.{RateLimiter as Limiter, new_rate_limiter}

-- What lies outside: bcrypt.GenerateFromPassword, bcrypt.CompareHashAndPassword of a hash and a password,
-- rand.Read of a number of bytes, sha256.Sum256, the host of net.SplitHostPort, and gen_random_uuid.
pub record World : Type 0 where
  pub generate_from_password : Text → Option Text
  pub matches : Text → Text → Bool
  pub random : ℕ → Option (List ℕ)
  pub sha256 : Text → List ℕ
  pub split_host : Text → Option Text
  pub new_id : Text

pub record Manager : Type 0 where
  pub store : Conn
  pub enabled : Bool
  pub session_secret : Text
  pub cookie_secure : Bool
  pub rate_limiter : Limiter

abbrev pub max_login_failures : ℕ
max_login_failures = 5

abbrev pub min_password_length : ℕ
min_password_length = 12

abbrev pub single_user_name : Text
single_user_name = codes "local"

abbrev pub minute : ℕ
minute = 60 * 1000000000

abbrev pub hour : ℕ
hour = 60 * minute

-- NewManager
abbrev pub new_manager : Conn → Bool → Text → Bool → Manager
new_manager store enabled session_secret cookie_secure = record {
  store = store;
  enabled = enabled;
  session_secret = session_secret;
  cookie_secure = cookie_secure;
  rate_limiter = new_rate_limiter max_login_failures (10 * minute);
}

-- What a call of the manager can fail with: no random bytes, no hash, or an error of the store.
pub data Error : Type 0 where
  no_randomness no_hash : Error
  of_store : Store.Error → Error

-- A call that may change the store or the limiter.
abbrev pub Call : Type 0 → Type 0
Call A = Manager → Result Error A × Manager

unfoldable pub and_then :
    {A B : Type 0} → (A → Call B) → Result Error A × Manager → Result Error B × Manager
and_then f (ok a, m) = f a m
and_then f (err e, m) = (err e, m)

infixl 5 ◌>>=◌
abbrev pub ◌>>=◌ : {A B : Type 0} → Call A → (A → Call B) → Call B
◌>>=◌ first next m = and_then next (first m)

abbrev pub pure : {A : Type 0} → A → Call A
pure a m = (ok a, m)

abbrev pub fail : {A : Type 0} → Error → Call A
fail e m = (err e, m)

abbrev pub stored : {A : Type 0} → Manager → Result Store.Error A × Conn → Result Error A × Manager
stored m (ok a, c) = (ok a, record m { store = c })
stored m (err e, c) = (err (of_store e), record m { store = c })

-- An operation of the store.
abbrev pub of_op : {A : Type 0} → Store.Op A → Call A
of_op op m = stored m (op m.store)

abbrev pub or_fail : {A : Type 0} → Error → Option A → Call A
or_fail e none = fail e
or_fail e (some a) = pure a

-- GeneratePassword and randomToken on what rand.Read fills.
abbrev pub encoded : Option (List ℕ) → Option Text
encoded none = none
encoded (some bytes) = some (raw_url_encode bytes)

-- tokenHash
unfoldable pub token_hash : World → Manager → Text → Text
unfolding hex
token_hash w m token = hex (w.sha256 (token ++ (codes ":" ++ m.session_secret)))

-- The cookie `pinger_session`; `max_age` is 0 where it is not set.
pub record Cookie : Type 0 where
  pub value : Text
  pub path : Text
  pub http_only : Bool
  pub secure : Bool
  pub same_site_lax : Bool
  pub expires : ℕ
  pub max_age : ℤ

-- cookie
abbrev pub cookie : Manager → Text → ℕ → Cookie
cookie m token expires_at = record {
  value = token;
  path = codes "/";
  http_only = true;
  secure = m.cookie_secure;
  same_site_lax = true;
  expires = expires_at;
  max_age = ℤ.pos 0;
}

-- The JSON objects that the handlers write.
pub data Body : Type 0 where
  error : Text → Body
  authenticated : Bool → Bool → Option Text → Body
  done : Body

pub record Response : Type 0 where
  pub status : ℕ
  pub body : Body
  pub set_cookie : Option Cookie

-- What the handlers read of a request: RemoteAddr, the value of the cookie `pinger_session`, and the id of
-- the user in the context.
pub record Request : Type 0 where
  pub remote_addr : Text
  pub cookie : Option Text
  pub user : Option Text

-- writeAuthError
abbrev pub write_auth_error : ℕ → Text → Response
write_auth_error status message = record {
  status = status;
  body = error message;
  set_cookie = none;
}

-- writeJSON
abbrev pub write_json : Body → Response
write_json body = record { status = 200; body = body; set_cookie = none }

-- clientIP
abbrev pub client_ip : World → Request → Text
client_ip w request = elim (w.split_host request.remote_addr) [
  | none ↦ request.remote_addr
  | some host ↦ host
]
