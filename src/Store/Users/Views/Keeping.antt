-- ===== src/Store/Users/Views/Keeping.antt =====
-- The operations on users and sessions of internal/db/db.go against the constraints of their tables.
use w8nc.Base.{ℕ, ◌≡◌, refl, Bool, true, false, not, List, [], ◌∷◌, any, All, arith}
use w8nc.Base.Result.{Result, ok, err}
use w8nc.Base.Text.{Text}
use w8nc.Store.{Error, execute, User, Session, Conn}
use w8nc.Store.Rules.{Keeps, changing-Keeps, execute-Keeps, >>=-Keeps, transaction-Keeps}
use w8nc.Store.Rows.{All-imp}
use w8nc.Store.Users.{
  is_user, has_token, clashes, inserted, new_user, drop_sessions, set_login, set_password,
  create_single_user, create_session, delete_session, reset_user, reset_to_single_user,
  update_password, update_user_password, delete_expired_sessions, belongs_to, is_signed_out,
  is_over,
}
use w8nc.Store.Users.Views.{
  Act, sign_up, sign_in, sign_out, purge, change_password, reset, perform, succeeded,
}
use w8nc.Store.Users.Views.Wellformed.{
  HasUser, Wellformed, drop_sessions-Wellformed, drop_users-Wellformed, update_user-Keeps,
}

no_clash :
    (new : User) (users : List User)
    → any (clashes new) users ≡ false
    → any (is_user new.id) users ≡ false
no_clash new [] h = refl
no_clash new (u ∷ users) h = ground (arith, no_clash new users)

pub inserted-ok : {A : Type 0} (fits : Bool) (row a : A) → inserted fits row ≡ ok a → fits ≡ true
inserted-ok true row a h = refl
inserted-ok false row a h = absurd (cc)

longer-HasUser :
    (new : User) (users : List User) (sessions : List Session)
    → All (HasUser users) sessions
    → All (HasUser (new ∷ users)) sessions
longer-HasUser new users =
    All-imp (HasUser users) (HasUser (new ∷ users)) (λ s h. ground (arith, h))

create_single_user-Keeps :
    (id : Text) (now : ℕ) (username password_hash : Text)
    → Keeps Wellformed (create_single_user id now username password_hash)
unfolding create_single_user
create_single_user-Keeps id now username password_hash = changing-Keeps Wellformed _ _ (λ db a e h.
    let user = new_user id now username password_hash in
    let fits = inserted-ok _ user a e in
    (
      (no_clash user db.users (ground arith), h.0),
      h.1,
      longer-HasUser user db.users db.sessions (h.2),
    ))

create_session-Keeps :
    (user_id token_hash : Text) (expires_at : ℕ)
    → Keeps Wellformed (create_session user_id token_hash expires_at)
unfolding create_session
create_session-Keeps user_id token_hash expires_at =
    changing-Keeps Wellformed _ _ (λ db a e h.
      let fits = inserted-ok _ tt a e in (h.0, (ground arith, h.1), (ground arith, h.2)))

drop-Keeps : (p : Session → Bool) → Keeps Wellformed (execute (drop_sessions p))
drop-Keeps p = execute-Keeps Wellformed _ (drop_sessions-Wellformed p)

delete_session-Keeps : (token_hash : Text) → Keeps Wellformed (delete_session token_hash)
unfolding delete_session
delete_session-Keeps token_hash = drop-Keeps (has_token token_hash)

delete_expired_sessions-Keeps : (now : ℕ) → Keeps Wellformed (delete_expired_sessions now)
unfolding delete_expired_sessions
delete_expired_sessions-Keeps now = drop-Keeps (is_over now)

pub update_user_password-Keeps :
    (id password_hash keep : Text) → Keeps Wellformed (update_user_password id password_hash keep)
unfolding update_user_password update_password
update_user_password-Keeps id password_hash keep = transaction-Keeps Wellformed _ (
    >>=-Keeps Wellformed _ _ (update_user-Keeps id (set_password password_hash) (λ u. refl))
      (λ _. drop-Keeps (is_signed_out id keep)))

reset_to_single_user-Keeps :
    (id username password_hash : Text)
    → Keeps Wellformed (reset_to_single_user id username password_hash)
unfolding reset_to_single_user reset_user
reset_to_single_user-Keeps id username password_hash = transaction-Keeps Wellformed _ (
    >>=-Keeps Wellformed _ _
      (execute-Keeps Wellformed _ (drop_users-Wellformed (λ u. not (is_user id u))))
      (λ _.
        >>=-Keeps Wellformed _ _
          (update_user-Keeps id (set_login username password_hash) (λ u. refl))
          (λ _. drop-Keeps (belongs_to id))))

succeeded-Wellformed :
    {A : Type 0} (r : Result Error A × Conn) → Wellformed r.1.db → Wellformed (succeeded r).1.db
succeeded-Wellformed (ok a, c) h = h
succeeded-Wellformed (err e, c) h = h

-- Every operation on users and sessions keeps the constraints of the tables, whichever of its
-- statements fail: no two users have one id, no two sessions have one hash of a token, and the user of
-- every session exists.
pub perform-Wellformed : (act : Act) (c : Conn) → Wellformed c.db → Wellformed (perform act c).1.db
perform-Wellformed (sign_up id now username password_hash) c h =
    succeeded-Wellformed _ (create_single_user-Keeps id now username password_hash c h)
perform-Wellformed (sign_in user_id token_hash expires_at) c h =
    succeeded-Wellformed _ (create_session-Keeps user_id token_hash expires_at c h)
perform-Wellformed (sign_out token_hash) c h =
    succeeded-Wellformed _ (delete_session-Keeps token_hash c h)
perform-Wellformed (purge now) c h = succeeded-Wellformed _ (delete_expired_sessions-Keeps now c h)
perform-Wellformed (change_password id password_hash keep) c h =
    succeeded-Wellformed _ (update_user_password-Keeps id password_hash keep c h)
perform-Wellformed (reset id username password_hash) c h =
    succeeded-Wellformed _ (reset_to_single_user-Keeps id username password_hash c h)
