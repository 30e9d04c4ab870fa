-- ===== src/Store/Users/Tests.antt =====
-- Users and sessions on concrete tables, and the theorems at inputs that meet their hypotheses.
use w8nc.Base.{◌≡◌, refl, none, List, [], ◌∷◌, length}
use w8nc.Base.Result.{ok, err}
use w8nc.Base.Sort.{insert_by, sort_by}
use w8nc.Base.Text.{codes, text_eq}
use w8nc.Store.{
  failed, no_rows, Conn, and_then, answer, run_statement, statement, returning, execute, changing,
  query, rolled_back, commit, bracketed, transaction, update_where, find_row,
}
use w8nc.Store.Users.{
  new_user, create_single_user, primary_user, user_by_id, create_session, drop_sessions,
  delete_session, drop_users, update_user, reset_user, reset_to_single_user, update_password,
  update_user_password, user_of, user_by_session, delete_expired_sessions,
}
use w8nc.Store.Users.Views.{
  session_of, view, Act, sign_in, purge, change_password, run, successes, replay,
}
use w8nc.Store.Users.Views.Wellformed.{Wellformed}
use w8nc.Store.Users.Views.Refining.{run_refines}

users : Unit {0}
unfolding create_single_user primary_user user_by_id create_session drop_sessions delete_session
    drop_users update_user reset_user reset_to_single_user update_password update_user_password
    user_of user_by_session delete_expired_sessions session_of view run successes and_then answer
    run_statement statement returning execute changing query rolled_back commit bracketed
    transaction update_where find_row insert_by sort_by text_eq
users = tt

abbrev start : Conn
start = record {
  db = record {
    endpoints = [];
    endpoint_checks = [];
    notification_events = [];
    screenshot_attempts = [];
    last_seen_at = none;
    notification_settings = none;
    users =
        new_user (codes "b") 2 (codes "bob") (codes "hb")
        ∷ new_user (codes "a") 1 (codes "ann") (codes "ha")
        ∷ [];
    sessions = record { user_id = codes "b"; token_hash = codes "t0"; expires_at = 100 } ∷ [];
    tags = [];
    endpoint_tags = [];
  };
  faults = [];
}

wellformed : Wellformed start.db
unfolding users
wellformed = ((refl, (refl, tt)), (refl, tt), (refl, tt))

first_user : (primary_user start).0 ≡ ok (new_user (codes "a") 1 (codes "ann") (codes "ha"))
unfolding users
first_user = refl

name_taken : (create_single_user (codes "c") 3 (codes "ann") (codes "hc") start).0 ≡ err failed
unfolding users
name_taken = refl

no_such_user : (create_session (codes "x") (codes "t1") 9 start).0 ≡ err failed
unfolding users
no_such_user = refl

session_over : (user_by_session 100 (codes "t0") start).0 ≡ err no_rows
unfolding users
session_over = refl

-- The other user goes, with the session of that user.
left_alone :
    (length (reset_to_single_user (codes "a") (codes "local") (codes "h") start).1.db.users ≡ 1)
    × (length (reset_to_single_user (codes "a") (codes "local") (codes "h") start).1.db.sessions
        ≡ 0)
unfolding users
left_alone = (refl, refl)

abbrev acts : List Act
acts =
    sign_in (codes "a") (codes "t1") 50
    ∷ sign_in (codes "a") (codes "t1") 60
    ∷ sign_in (codes "a") (codes "t2") 70
    ∷ change_password (codes "a") (codes "new") (codes "t2")
    ∷ purge 60
    ∷ []

four_succeed : length (successes acts start) ≡ 4
unfolding users
four_succeed = refl

run_refines_example : view (run acts start).db ≡ replay (successes acts start) (view start.db)
run_refines_example = run_refines acts start wellformed
