-- ===== src/Store/Users/Views/Effects.antt =====
-- What the transactions on users and sessions of internal/db/db.go do when they succeed.
use w8nc.Base.{
  ℕ, ◌≡◌, refl, sym, ap, ◌∙◌, inl, inr, true, not, List, [], ◌∷◌, any, filter, All, Bool-cases,
  arith,
}
use w8nc.Base.Text.{Text, text_eq, text_eq_iff}
use w8nc.Store.{User, Session, Db, Conn, ◌>>◌, execute}
use w8nc.Store.Rules.{
  Does, Returns, changing-Does, changing-ok, execute-Does, execute-ok, transaction-Does, >>=-ok,
}
use w8nc.Store.Users.{
  is_user, has_token, belongs_to, new_user, add_user, new_session, add_session, drop_sessions,
  drop_users, set_user, update_user, set_login, set_password, is_signed_out, is_over,
  create_single_user, create_session, delete_session, reset_user, reset_to_single_user,
  update_password, update_user_password, delete_expired_sessions,
}
use w8nc.Store.Users.Views.Wellformed.{HasUser, Wellformed, kept-HasUser}

update_user-ok :
    (id : Text) (f : User → User) (c : Conn) (u : Unit {0}) (c' : Conn)
    → Returns (update_user id f) c u c'
    → c'.db ≡ set_user id f c.db
unfolding update_user
update_user-ok id f c u c' h = (changing-ok _ _ c h).1

pub create_single_user-Does :
    (id : Text) (now : ℕ) (username password_hash : Text)
    → Does
        (add_user (new_user id now username password_hash))
        (create_single_user id now username password_hash)
unfolding create_single_user
create_single_user-Does id now username password_hash = changing-Does _ _

pub create_session-Does :
    (user_id token_hash : Text) (expires_at : ℕ)
    → Does
        (add_session (new_session user_id token_hash expires_at))
        (create_session user_id token_hash expires_at)
unfolding create_session
create_session-Does user_id token_hash expires_at = changing-Does _ _

pub delete_session-Does :
    (token_hash : Text) → Does (drop_sessions (has_token token_hash)) (delete_session token_hash)
unfolding delete_session
delete_session-Does token_hash = execute-Does _

pub delete_expired_sessions-Does :
    (now : ℕ) → Does (drop_sessions (is_over now)) (delete_expired_sessions now)
unfolding delete_expired_sessions
delete_expired_sessions-Does now = execute-Does _

unfoldable pub change : Text → Text → Text → Db → Db
change id password_hash keep db =
    drop_sessions (is_signed_out id keep) (set_user id (set_password password_hash) db)

pub update_user_password-Does :
    (id password_hash keep : Text)
    → Does (change id password_hash keep) (update_user_password id password_hash keep)
unfolding update_user_password update_password change
update_user_password-Does id password_hash keep =
    transaction-Does _ (update_password id password_hash keep) body
  where
    body :
        (c : Conn) (u : Unit {0}) (c' : Conn)
        → Returns (update_password id password_hash keep) c u c'
        → c'.db ≡ change id password_hash keep c.db
    body c u c' h =
        let (_, c1, updated, dropped) =
          >>=-ok (update_user id (set_password password_hash))
            (λ _. execute (drop_sessions (is_signed_out id keep))) c h in
        execute-ok (drop_sessions (is_signed_out id keep)) c1 dropped
        ∙ ap (drop_sessions (is_signed_out id keep))
            (update_user-ok id (set_password password_hash) c _ c1 updated)

unfoldable pub keep_only : Text → Text → Text → Db → Db
keep_only id username password_hash db =
    drop_sessions (belongs_to id)
      (set_user id (set_login username password_hash) (drop_users (λ u. not (is_user id u)) db))

pub reset_to_single_user-Does :
    (id username password_hash : Text)
    → Does (keep_only id username password_hash) (reset_to_single_user id username password_hash)
unfolding reset_to_single_user reset_user keep_only
reset_to_single_user-Does id username password_hash =
    transaction-Does _ (reset_user id username password_hash) body
  where
    body :
        (c : Conn) (u : Unit {0}) (c' : Conn)
        → Returns (reset_user id username password_hash) c u c'
        → c'.db ≡ keep_only id username password_hash c.db
    body c u c' h =
        let forget = execute (drop_sessions (belongs_to id)) in
        let rename = update_user id (set_login username password_hash) in
        let (_, c1, deleted, rest) =
          >>=-ok (execute (drop_users (λ u. not (is_user id u)))) (λ _. rename >> forget) c h in
        let (_, c2, updated, dropped) = >>=-ok rename (λ _. forget) c1 rest in
        execute-ok (drop_sessions (belongs_to id)) c2 dropped
        ∙ ap (drop_sessions (belongs_to id)) (
            update_user-ok id (set_login username password_hash) c1 _ c2 updated
            ∙ ap (set_user id (set_login username password_hash))
                (execute-ok (drop_users (λ u. not (is_user id u))) c deleted))

-- A session of the one user who stays belongs to that user.
owner :
    (id other : Text) (users : List User)
    → any (is_user other) (filter (λ u. not (not (is_user id u))) users) ≡ true
    → text_eq other id ≡ true
owner id other [] h = absurd (cc)
owner id other (u ∷ users) h = elim (Bool-cases (is_user id u)) [
  | inl same ↦ elim (Bool-cases (is_user other u)) [
    | inl found ↦
        (text_eq_iff other id).1
          (sym ((text_eq_iff u.id other).0 found) ∙ (text_eq_iff u.id id).0 same)
    | inr missed ↦ owner id other users (ground arith)
  ]
  | inr differs ↦ owner id other users (ground arith)
]

all_dropped :
    (id : Text) (users : List User) (sessions : List Session)
    → All (HasUser (filter (λ u. not (not (is_user id u))) users)) sessions
    → filter (λ s. not (belongs_to id s)) sessions ≡ []
all_dropped id users [] h = refl
all_dropped id users (s ∷ sessions) (here, later) =
    rw (owner id s.user_id users here) (all_dropped id users sessions later)

pub keep_only-sessions :
    (id username password_hash : Text) (db : Db)
    → Wellformed db
    → (keep_only id username password_hash db).sessions ≡ []
unfolding keep_only drop_sessions drop_users
keep_only-sessions id username password_hash db (users, unique, owned) =
    all_dropped id db.users _ (kept-HasUser (λ u. not (is_user id u)) db.users db.sessions owned)
