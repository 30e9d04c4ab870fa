-- ===== src/Store/Users/Views/Refining.antt =====
-- The operations on users and sessions of internal/db/db.go against operations on a map.
use mathlib.Core.Path.{fun_ext}
use w8nc.Base.{
  ◌≡◌, refl, ap, subst, ◌∙◌, inl, inr, Bool, false, not, Option, none, some, List, [], ◌∷◌,
  if◌then◌else◌, any, filter, Bool-cases, Option-cases, arith,
}
use w8nc.Base.Result.{Result, ok, err}
use w8nc.Base.Text.{Text, text_eq, text_eq_iff}
use w8nc.Store.{Error, Session, Db, Conn}
use w8nc.Store.Rules.{Effect}
use w8nc.Store.Users.{
  has_token, new_user, add_user, new_session, add_session, drop_sessions, is_signed_out, is_over,
  create_single_user, create_session, delete_session, reset_to_single_user, update_user_password,
  delete_expired_sessions,
}
use w8nc.Store.Users.Views.{
  session_of, view, Act, sign_up, sign_in, sign_out, purge, change_password, reset, succeeded,
  perform, run, successes, unless, apply, replay,
}
use w8nc.Store.Users.Views.Wellformed.{Unique, Wellformed}
use w8nc.Store.Users.Views.Effects.{
  create_single_user-Does, create_session-Does, delete_session-Does, delete_expired_sessions-Does,
  change, update_user_password-Does, keep_only, reset_to_single_user-Does, keep_only-sessions,
}
use w8nc.Store.Users.Views.Keeping.{perform-Wellformed}

-- The session that a token leads to has its hash.
pub session_of-hash :
    (token : Text) (sessions : List Session) (s : Session)
    → session_of token sessions ≡ some s
    → s.token_hash ≡ token
unfolding session_of
session_of-hash token [] s h = absurd (cc)
session_of-hash token (x ∷ xs) s h = elim (Bool-cases (has_token token x)) [
  | inl hit ↦ ground (arith, (text_eq_iff x.token_hash token).0 hit)
  | inr miss ↦ session_of-hash token xs s (ground arith)
]

session_of-none :
    (token : Text) (sessions : List Session)
    → any (has_token token) sessions ≡ false
    → session_of token sessions ≡ none
unfolding session_of
session_of-none token [] h = refl
session_of-none token (x ∷ xs) h = ground (arith, session_of-none token xs)

-- Where each hash occurs once, deleting sessions deletes them from the map.
pub session_of-filter :
    (p : Session → Bool) (token : Text) (sessions : List Session)
    → Unique sessions
    → session_of token (filter (λ s. not (p s)) sessions) ≡ unless p (session_of token sessions)
unfolding session_of
session_of-filter p token [] h = refl
session_of-filter p token (x ∷ xs) (here, later) =
    let rest = session_of-filter p token xs later in
    elim (Bool-cases (has_token token x)) [
      | inl hit ↦
          let e = (text_eq_iff x.token_hash token).0 hit in
          let gone = session_of-none token xs (subst (λ t. any (has_token t) xs ≡ false) e here) in
          elim (Bool-cases (p x)) [
            | inl dropped ↦ rw (hit, dropped) (rest ∙ ap (unless p) gone)
            | inr stays ↦ rw (hit, stays, hit) refl
          ]
      | inr miss ↦ elim (Bool-cases (p x)) [
        | inl dropped ↦ rw (miss, dropped) rest
        | inr stays ↦ rw (miss, stays, miss) rest
      ]
    ]

signed_out :
    (token_hash token : Text) (sessions : List Session)
    → Unique sessions
    → session_of token (filter (λ s. not (has_token token_hash s)) sessions)
      ≡ (if text_eq token token_hash then none else session_of token sessions)
signed_out token_hash token sessions h =
    session_of-filter (has_token token_hash) token sessions h
    ∙ (elim (Option-cases (session_of token sessions)) [
      | inl missing ↦
          rw missing
            (elim (Bool-cases (text_eq token token_hash)) [ inl e ↦ rw e refl | inr e ↦ rw e refl ])
      | inr (s, found) ↦ rw (found, session_of-hash token sessions s found) refl
    ])

-- The map after a change of the database, or after none.
view-succeeded :
    {A : Type 0} (r : Result Error A × Conn) (db : Db) (f : Db → Db) (token : Text)
    (after : Option Session)
    → Effect db f r
    → view (f db) token ≡ after
    → view (succeeded r).1.db token ≡ (if (succeeded r).0 then after else view db token)
view-succeeded (ok a, c) db f token after e h = ap (λ d. view d token) e ∙ h
view-succeeded (err b, c) db f token after e h = ap (λ d. view d token) e

-- One operation, on the tables and on the map.
perform_refines :
    (act : Act) (c : Conn) (token : Text)
    → Wellformed c.db
    → view (perform act c).1.db token
      ≡ (if (perform act c).0 then apply act (view c.db) token else view c.db token)
unfolding view session_of drop_sessions change
perform_refines (sign_up id now username password_hash) c token h =
    view-succeeded (create_single_user id now username password_hash c) c.db
      (add_user (new_user id now username password_hash)) token _
      (create_single_user-Does id now username password_hash c) refl
perform_refines (sign_in user_id token_hash expires_at) c token h =
    view-succeeded (create_session user_id token_hash expires_at c) c.db
      (add_session (new_session user_id token_hash expires_at)) token _
      (create_session-Does user_id token_hash expires_at c) refl
perform_refines (sign_out token_hash) c token h =
    view-succeeded (delete_session token_hash c) c.db (drop_sessions (has_token token_hash)) token _
      (delete_session-Does token_hash c) (signed_out token_hash token c.db.sessions (h.1))
perform_refines (purge now) c token h =
    view-succeeded (delete_expired_sessions now c) c.db (drop_sessions (is_over now)) token _
      (delete_expired_sessions-Does now c)
      (session_of-filter (is_over now) token c.db.sessions (h.1))
perform_refines (change_password id password_hash keep) c token h =
    view-succeeded (update_user_password id password_hash keep c) c.db
      (change id password_hash keep) token _ (update_user_password-Does id password_hash keep c)
      (session_of-filter (is_signed_out id keep) token c.db.sessions (h.1))
perform_refines (reset id username password_hash) c token h =
    view-succeeded (reset_to_single_user id username password_hash c) c.db
      (keep_only id username password_hash) token _
      (reset_to_single_user-Does id username password_hash c)
      (ap (session_of token) (keep_only-sessions id username password_hash c.db h))

-- Any sequence of operations on users and sessions, whichever of their statements fail, leaves the
-- sessions that the operations that succeed leave on a map from hashes to sessions.
pub run_refines :
    (acts : List Act) (c : Conn)
    → Wellformed c.db
    → view (run acts c).db ≡ replay (successes acts c) (view c.db)
unfolding run successes
run_refines [] c h = refl
run_refines (act ∷ acts) c h =
    let rest = run_refines acts (perform act c).1 (perform-Wellformed act c h) in
    elim (Bool-cases (perform act c).0) [
      | inl done ↦ rw done (
          rest
          ∙ ap (replay (successes acts (perform act c).1))
              (fun_ext (λ token. rw done at (perform_refines act c token h))))
      | inr failed ↦ rw failed (
          rest
          ∙ ap (replay (successes acts (perform act c).1))
              (fun_ext (λ token. rw failed at (perform_refines act c token h))))
    ]
