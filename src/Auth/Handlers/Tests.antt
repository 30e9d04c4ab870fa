-- ===== src/Auth/Handlers/Tests.antt =====
-- The handlers on a concrete manager, and the theorems at inputs that meet their hypotheses.
use w8nc.Base.{
  ℕ, zero, suc, ◌+◌, ◌<◌, ◌≡◌, ◌≢◌, ◌⊎◌, refl, true, false, none, some, List, [], ◌∷◌, length,
  arith, All,
}
use w8nc.Base.Assoc.{lookup, remove, put}
use w8nc.Base.Encoding.{hex, raw_url_encode}
use w8nc.Base.Result.{ok}
use w8nc.Base.Sort.{insert_by, sort_by}
use w8nc.Base.Text.{Text, codes, text_eq, text_eq_iff}
use w8nc.Store.{
  User, Conn, and_then, answer, run_statement, statement, returning, execute, changing, query,
  rolled_back, commit, bracketed, transaction, update_where, find_row,
}
use w8nc.Store.Users.{
  new_user, new_session, create_single_user, primary_user, user_by_id, create_session,
  drop_sessions, delete_session, drop_users, update_user, reset_user, reset_to_single_user,
  update_password, update_user_password, user_of, user_by_session,
}
use w8nc.Store.Users.Views.{session_of, view}
use w8nc.Store.Users.Views.Wellformed.{Wellformed}
use w8nc.Auth
use w8nc.Auth.{
  World, Manager, Cookie, Response, Request, token_hash, cookie, client_ip, hour, new_manager,
}
use w8nc.Auth.Passwords.{generate_and_install, bootstrap_password, set_generated_password}
use w8nc.Auth.RateLimiter.{limited, record_failure, reset, reset_all}
use w8nc.Auth.Handlers.{
  login, unless_limited, with_user, change_password, for_user, if_current, store_password, logout,
  user_from_request, middleware, session_lifetime, kept_hash,
}
use w8nc.Auth.Handlers.Granting.{Granted, Refused, login_grants}
use w8nc.Auth.Handlers.Returning.{login-user_from_request}
use w8nc.Auth.Handlers.Changing.{Changed, Unchanged, change_password_changes}
use w8nc.Auth.Handlers.SigningOut.{change_password_signs_out}
use w8nc.Auth.Handlers.Guessing.{IsWrong, refusals, statuses, after, guesses_bounded}

handlers : Unit {0}
unfolding create_single_user primary_user user_by_id create_session drop_sessions delete_session
    drop_users update_user reset_user reset_to_single_user update_password update_user_password
    user_of user_by_session session_of view and_then answer run_statement statement returning
    execute changing query rolled_back commit bracketed transaction update_where find_row insert_by
    sort_by text_eq hex raw_url_encode token_hash lookup remove put limited record_failure reset
    reset_all login unless_limited with_user change_password for_user if_current store_password
    logout user_from_request middleware generate_and_install bootstrap_password
    set_generated_password Auth.and_then
handlers = tt

abbrev sevens : ℕ → List ℕ
sevens zero = []
sevens (suc n) = 7 ∷ sevens n

-- The hash of a password is the password behind an `h`, and that of a token is the token.
abbrev world : World
world = record {
  generate_from_password = λ password. some (104 ∷ password);
  matches = λ hash password. text_eq hash (104 ∷ password);
  random = λ n. some (sevens n);
  sha256 = λ text. text;
  split_host = λ address. none;
  new_id = codes "n";
}

abbrev store : Conn
store = record {
  db = record {
    endpoints = [];
    endpoint_checks = [];
    notification_events = [];
    screenshot_attempts = [];
    last_seen_at = none;
    notification_settings = none;
    users = new_user (codes "a") 1 (codes "local") (codes "hsecret") ∷ [];
    sessions = [];
    tags = [];
    endpoint_tags = [];
  };
  faults = [];
}

abbrev manager : Manager
manager = new_manager store true (codes "s") true

abbrev plain : Request
plain = record { remote_addr = codes "ip"; cookie = none; user = none }

abbrev signed_in : Response × Manager
signed_in = login world 10 (some (codes "secret")) plain manager

granted : signed_in.0.status ≡ 200
unfolding handlers
granted = refl

already_local :
    (bootstrap_password world 5 manager).0
    ≡ ok (record { generated = false; password = []; legacy_reset = false })
unfolding handlers
already_local = refl

login_grants_example :
    Granted world 10 (some (codes "secret")) plain manager signed_in ⊎ Refused manager signed_in
login_grants_example = login_grants world 10 (some (codes "secret")) plain manager

abbrev given : Cookie
given = cookie manager (raw_url_encode (sevens 32)) (10 + session_lifetime)

abbrev with_cookie : Request
with_cookie = record plain { cookie = some given.value; user = some (codes "a") }

given_cookie : (signed_in.0.set_cookie ≡ some given) × (signed_in.1.store.faults ≡ [])
unfolding handlers
given_cookie = (refl, refl)

sevens_32 : (bytes : List ℕ) → world.random 32 ≡ some bytes → length bytes ≡ 32
sevens_32 bytes e = cc

login-user_from_request_example :
    (user : User) × ((primary_user manager.store).0 ≡ ok user)
    × ((user_from_request world 20 with_cookie signed_in.1).0 ≡ some user.id)
login-user_from_request_example =
    login-user_from_request world 10 20 (some (codes "secret")) plain with_cookie manager
      signed_in.1 signed_in.0 given sevens_32 refl (given_cookie.0) (given_cookie.1) refl
      (omega arith)

-- A second session of the same user.
abbrev two_sessions : Manager
two_sessions = record signed_in.1 {
  store =
      (create_session (codes "a") (token_hash world manager (codes "t")) 90 signed_in.1.store).1;
}

abbrev changed : Response × Manager
changed =
    change_password world (some (codes "secret", codes "a longer secret")) with_cookie two_sessions

change_password_changes_example :
    Changed world (codes "secret") (codes "a longer secret") with_cookie two_sessions changed
    ⊎ Unchanged two_sessions changed
change_password_changes_example =
    change_password_changes world (some (codes "secret", codes "a longer secret")) with_cookie
      two_sessions

ready :
    Wellformed two_sessions.store.db
    × (changed.0.status ≡ 200)
    × (view two_sessions.store.db (token_hash world two_sessions (codes "t"))
        ≡ some (new_session (codes "a") (token_hash world manager (codes "t")) 90))
    × (text_eq
          (token_hash world two_sessions (codes "t"))
          (kept_hash world two_sessions with_cookie)
        ≡ false)
unfolding handlers
ready = (((refl, tt), (refl, (refl, tt)), (refl, (refl, tt))), refl, refl, refl)

other_token : token_hash world two_sessions (codes "t") ≢ kept_hash world two_sessions with_cookie
other_token e = let (_, _, _, differs) = ready in absurd (cc (differs, (text_eq_iff _ _).1 e))

change_password_signs_out_example :
    (user_from_request world 30 (record plain { cookie = some (codes "t") }) changed.1).0 ≡ none
change_password_signs_out_example =
    change_password_signs_out world 30 (codes "secret") (codes "a longer secret") with_cookie
      (record plain { cookie = some (codes "t") }) two_sessions changed.1 changed.0 (codes "a")
      (codes "t") (new_session (codes "a") (token_hash world manager (codes "t")) 90) (ready.0) refl
      (ready.1) refl refl (ready.2) refl other_token

abbrev tries : List (ℕ × Text)
tries =
    (11, codes "a")
    ∷ (12, codes "b")
    ∷ (13, codes "c")
    ∷ (14, codes "d")
    ∷ (15, codes "e")
    ∷ (16, codes "f")
    ∷ (17, codes "g")
    ∷ []

tries-IsWrong : All (IsWrong world store.db.users 10 (10 + manager.rate_limiter.window)) tries
unfolding handlers
tries-IsWrong = (
  (omega arith, omega arith, (refl, tt)),
  (
    (omega arith, omega arith, (refl, tt)),
    (
      (omega arith, omega arith, (refl, tt)),
      (
        (omega arith, omega arith, (refl, tt)),
        (
          (omega arith, omega arith, (refl, tt)),
          ((omega arith, omega arith, (refl, tt)), ((omega arith, omega arith, (refl, tt)), tt)),
        ),
      ),
    ),
  ),
)

no_failures : lookup (client_ip world plain) manager.rate_limiter.items ≡ none
unfolding handlers
no_failures = refl

guesses_bounded_example :
    (refusals (statuses world plain tries manager) < 5)
    ⊎ ((refusals (statuses world plain tries manager) ≡ 5)
        × ((login world 18 (some (codes "secret")) plain (after world plain tries manager)).0.status
            ≡ 429))
guesses_bounded_example =
    guesses_bounded world plain 10 manager tries 18 (codes "secret") (omega arith) no_failures
      tries-IsWrong (omega arith) (omega arith)

-- The right password comes too late.
used_up :
    (refusals (statuses world plain tries manager) ≡ 5)
    × ((login world 18 (some (codes "secret")) plain (after world plain tries manager)).0.status
        ≡ 429)
unfolding handlers statuses after
used_up = (refl, refl)
