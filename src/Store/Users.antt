-- ===== src/Store/Users.antt =====
-- The users and sessions of internal/db/db.go. `now` is the clock of the database, and the id of a new
-- user is an argument.
pub mod Views
mod Tests
use w8nc.Base.{
  ℕ, Bool, true, false, not, ◌&&◌, List, [], ◌∷◌, ◌||◌, ltb, leb, ◌==◌, if◌then◌else◌, any, filter,
}
use w8nc.Base.Result.{Result, ok, err}
use w8nc.Base.Sort.{sort_by}
use w8nc.Base.Text.{Text, text_eq, text_leb, is_empty}
use w8nc.Store.{
  Error, no_rows, failed, User, Session, Db, Op, ◌>>=◌, ◌>>◌, changing, execute, query, transaction,
  update_where, find_row,
}
use w8nc.Store.Endpoints.{affected}

abbrev pub is_user : Text → User → Bool
is_user id user = text_eq user.id id

abbrev pub has_token : Text → Session → Bool
has_token token session = text_eq session.token_hash token

-- A row that breaks a constraint of its table is another error of the database.
abbrev pub inserted : {A : Type 0} → Bool → A → Result Error A
inserted true row = ok row
inserted false row = err failed

-- The id is the primary key and `username` is UNIQUE.
abbrev pub clashes : User → User → Bool
clashes new user = text_eq user.id new.id || text_eq user.username new.username

-- VALUES ($1, $2), and the defaults of the other columns.
abbrev pub new_user : Text → ℕ → Text → Text → User
new_user id now username password_hash = record {
  id = id;
  username = username;
  password_hash = password_hash;
  created_at = now;
}

abbrev pub add_user : User → Db → Db
add_user user db = record db { users = user ∷ db.users }

-- CreateSingleUser
unfoldable pub create_single_user : Text → ℕ → Text → Text → Op User
create_single_user id now username password_hash =
    let user = new_user id now username password_hash in
    changing (λ db. inserted (not (any (clashes user) db.users)) user) (add_user user)

-- ORDER BY created_at ASC, id ASC
abbrev pub is_older : User → User → Bool
is_older a b =
    if a.created_at == b.created_at then text_leb a.id b.id else ltb a.created_at b.created_at

-- LIMIT 1
abbrev pub first_row : {A : Type 0} → List A → Result Error A
first_row [] = err no_rows
first_row (row ∷ rows) = ok row

-- PrimaryUser
unfoldable pub primary_user : Op User
primary_user = query (λ db. first_row (sort_by is_older db.users))

-- UserByID
unfoldable pub user_by_id : Text → Op User
user_by_id id = query (λ db. find_row (is_user id) db.users)

-- The user must exist (REFERENCES), and `token_hash` is UNIQUE.
abbrev pub session_fits : Session → Db → Bool
session_fits new db =
    any (is_user new.user_id) db.users && not (any (has_token new.token_hash) db.sessions)

-- VALUES ($1, $2, $3)
abbrev pub new_session : Text → Text → ℕ → Session
new_session user_id token_hash expires_at = record {
  user_id = user_id;
  token_hash = token_hash;
  expires_at = expires_at;
}

abbrev pub add_session : Session → Db → Db
add_session session db = record db { sessions = session ∷ db.sessions }

-- CreateSession
unfoldable pub create_session : Text → Text → ℕ → Op (Unit {0})
create_session user_id token_hash expires_at =
    let session = new_session user_id token_hash expires_at in
    changing (λ db. inserted (session_fits session db) tt) (add_session session)

unfoldable pub drop_sessions : (Session → Bool) → Db → Db
drop_sessions p db = record db { sessions = filter (λ session. not (p session)) db.sessions }

-- DeleteSession
unfoldable pub delete_session : Text → Op (Unit {0})
delete_session token_hash = execute (drop_sessions (has_token token_hash))

-- DELETE FROM users: their sessions go with them (ON DELETE CASCADE).
unfoldable pub drop_users : (User → Bool) → Db → Db
drop_users p db = record db {
  users = filter (λ user. not (p user)) db.users;
  sessions =
      filter (λ session. not (any (is_user session.user_id) (filter p db.users))) db.sessions;
}

abbrev pub set_user : Text → (User → User) → Db → Db
set_user id f db = record db { users = update_where (is_user id) f db.users }

-- An UPDATE of one user, which finds it or returns no_rows.
unfoldable pub update_user : Text → (User → User) → Op (Unit {0})
update_user id f = changing (λ db. affected (find_row (is_user id) db.users)) (set_user id f)

abbrev pub belongs_to : Text → Session → Bool
belongs_to id session = text_eq session.user_id id

abbrev pub set_login : Text → Text → User → User
set_login username password_hash user = record user {
  username = username;
  password_hash = password_hash;
}

-- The body of the transaction of ResetToSingleUser.
unfoldable pub reset_user : Text → Text → Text → Op (Unit {0})
reset_user id username password_hash =
    execute (drop_users (λ user. not (is_user id user)))
    >> (update_user id (set_login username password_hash)
        >> execute (drop_sessions (belongs_to id)))

-- ResetToSingleUser
unfoldable pub reset_to_single_user : Text → Text → Text → Op (Unit {0})
reset_to_single_user id username password_hash = transaction (reset_user id username password_hash)

abbrev pub set_password : Text → User → User
set_password password_hash user = record user { password_hash = password_hash }

-- The sessions that UpdateUserPassword deletes; no session is kept for the empty hash.
abbrev pub is_signed_out : Text → Text → Session → Bool
is_signed_out id keep_session_hash session =
    if is_empty keep_session_hash
    then belongs_to id session
    else belongs_to id session && not (has_token keep_session_hash session)

-- The body of the transaction of UpdateUserPassword.
unfoldable pub update_password : Text → Text → Text → Op (Unit {0})
update_password id password_hash keep_session_hash =
    update_user id (set_password password_hash)
    >> execute (drop_sessions (is_signed_out id keep_session_hash))

-- UpdateUserPassword
unfoldable pub update_user_password : Text → Text → Text → Op (Unit {0})
update_user_password id password_hash keep_session_hash =
    transaction (update_password id password_hash keep_session_hash)

abbrev pub is_live : ℕ → Text → Session → Bool
is_live now token_hash session = has_token token_hash session && ltb now session.expires_at

abbrev pub or_else : {A : Type 0} → Result Error A → Result Error A → Result Error A
or_else (ok a) next = ok a
or_else (err e) next = next

-- The first row of the join.
unfoldable pub user_of : ℕ → Text → List User → List Session → Result Error User
user_of now token_hash users [] = err no_rows
user_of now token_hash users (session ∷ sessions) =
    let rest = user_of now token_hash users sessions in
    if is_live now token_hash session
    then or_else (find_row (is_user session.user_id) users) rest
    else rest

-- UserBySession
unfoldable pub user_by_session : ℕ → Text → Op User
user_by_session now token_hash = query (λ db. user_of now token_hash db.users db.sessions)

abbrev pub is_over : ℕ → Session → Bool
is_over now session = leb session.expires_at now

-- DeleteExpiredSessions
unfoldable pub delete_expired_sessions : ℕ → Op (Unit {0})
delete_expired_sessions now = execute (drop_sessions (is_over now))
