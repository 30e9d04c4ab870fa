-- ===== src/Store/Users/Views.antt =====
-- The sessions of internal/db/db.go as a map from the hash of a token to its session.
pub mod Wellformed
pub mod Keeping
pub mod Effects
pub mod Refining
use w8nc.Base.{ℕ, Bool, true, false, Option, none, some, List, [], ◌∷◌, if◌then◌else◌}
use w8nc.Base.Result.{Result, ok, err}
use w8nc.Base.Text.{Text, text_eq}
use w8nc.Store.{Error, Session, Db, Conn}
use w8nc.Store.Users.{
  has_token, is_signed_out, is_over, new_session, create_single_user, create_session,
  delete_session, reset_to_single_user, update_user_password, delete_expired_sessions,
}

-- The session with this hash of a token.
unfoldable pub session_of : Text → List Session → Option Session
session_of token [] = none
session_of token (session ∷ sessions) =
    let rest = session_of token sessions in if has_token token session then some session else rest

-- What a token leads to.
unfoldable pub view : Db → Text → Option Session
view db token = session_of token db.sessions

-- An operation that changes users or sessions.
pub data Act : Type 0 where
  sign_up : Text → ℕ → Text → Text → Act
  sign_in : Text → Text → ℕ → Act
  sign_out : Text → Act
  purge : ℕ → Act
  change_password : Text → Text → Text → Act
  reset : Text → Text → Text → Act

abbrev pub succeeded : {A : Type 0} → Result Error A × Conn → Bool × Conn
succeeded (ok a, c) = (true, c)
succeeded (err e, c) = (false, c)

-- Whether the operation succeeds, and what it leaves.
abbrev pub perform : Act → Conn → Bool × Conn
perform (sign_up id now username password_hash) c =
    succeeded (create_single_user id now username password_hash c)
perform (sign_in user_id token_hash expires_at) c =
    succeeded (create_session user_id token_hash expires_at c)
perform (sign_out token_hash) c = succeeded (delete_session token_hash c)
perform (purge now) c = succeeded (delete_expired_sessions now c)
perform (change_password id password_hash keep) c =
    succeeded (update_user_password id password_hash keep c)
perform (reset id username password_hash) c =
    succeeded (reset_to_single_user id username password_hash c)

-- The connection that a sequence of operations leaves.
unfoldable pub run : List Act → Conn → Conn
run [] c = c
run (act ∷ acts) c = run acts (perform act c).1

-- Those of the operations that succeed.
unfoldable pub successes : List Act → Conn → List Act
successes [] c = []
successes (act ∷ acts) c =
    let rest = successes acts (perform act c).1 in if (perform act c).0 then act ∷ rest else rest

abbrev pub unless : (Session → Bool) → Option Session → Option Session
unless p none = none
unless p (some session) = if p session then none else some session

-- The operations on a map.
abbrev pub apply : Act → (Text → Option Session) → Text → Option Session
apply (sign_up id now username password_hash) f token = f token
apply (sign_in user_id token_hash expires_at) f token =
    if text_eq token_hash token then some (new_session user_id token_hash expires_at) else f token
apply (sign_out token_hash) f token = if text_eq token token_hash then none else f token
apply (purge now) f token = unless (is_over now) (f token)
apply (change_password id password_hash keep) f token = unless (is_signed_out id keep) (f token)
apply (reset id username password_hash) f token = none

abbrev pub replay : List Act → (Text → Option Session) → Text → Option Session
replay [] f = f
replay (act ∷ acts) f = replay acts (apply act f)
