-- ===== src/Auth/Handlers/Changing.antt =====
-- When ChangePassword of internal/auth/auth.go changes the password.
use w8nc.Base.{
  ◌≤◌, ◌≡◌, refl, sym, ap, subst, ◌∙◌, ◌⊎◌, inl, inr, Bool, true, false, Option, none, some, [],
  ◌∷◌, any, ◌==◌, ltb, length, arith,
}
use w8nc.Base.Result.{Result, ok, err}
use w8nc.Base.Text.{Text, text_eq_iff}
use w8nc.Store
use w8nc.Store.{Db, Conn, User, find_row}
use w8nc.Store.Rules.{Effect, query_db, query-ok}
use w8nc.Store.Rows.{find_row-ok}
use w8nc.Store.Users.{user_by_id, is_user}
use w8nc.Store.Users.Views.Effects.{change, update_user_password-Does}
use w8nc.Auth.{World, Manager, Response, Request, done, token_hash, write_json, min_password_length}
use w8nc.Auth.Handlers.{
  change_password, unless_short, for_user, if_current, if_correct, with_hash, store_password,
  answer_update, kept_hash,
}

-- The password was changed: the new one is long enough, the current one matches the hash in the row of
-- the user in the context, and the tables hold the new hash and, of this user, only the session of the request.
abbrev pub Changed : World → Text → Text → Request → Manager → Response × Manager → Type 0
Changed w current new request m (response, after) =
    (user : User) × (hash : Text) × (min_password_length ≤ length new)
    × (request.user ≡ some user.id)
    × (find_row (is_user user.id) m.store.db.users ≡ ok user)
    × (w.matches user.password_hash current ≡ true)
    × (w.generate_from_password new ≡ some hash)
    × (response ≡ write_json done)
    × (after.session_secret ≡ m.session_secret)
    × (after.store.db ≡ change user.id hash (kept_hash w m request) m.store.db)

-- The same of a decoded body.
abbrev pub ChangedBy :
    World → Option (Text × Text) → Request → Manager → Response × Manager → Type 0
ChangedBy w none request m answered = ⊥
ChangedBy w (some (current, new)) request m answered = Changed w current new request m answered

-- The tables are as they were, and the answer says so.
abbrev pub Unchanged : Manager → Response × Manager → Type 0
Unchanged m (response, after) =
    (after.store.db ≡ m.store.db)
    × (any (λ status. response.status == status) (400 ∷ 401 ∷ 500 ∷ []) ≡ true)

module _ (w : World) (current new : Text) (request : Request) (m : Manager) where
  abbrev Outcome : Response × Manager → Type 0
  Outcome r = Changed w current new request m r ⊎ Unchanged m r

  module _ (long : min_password_length ≤ length new) (user : User)
      (asked : request.user ≡ some user.id)
      (row : find_row (is_user user.id) m.store.db.users ≡ ok user) (before : Conn)
      (same : before.db ≡ m.store.db) where
    after_update :
        (hash : Text)
        → w.matches user.password_hash current ≡ true
        → w.generate_from_password new ≡ some hash
        → (result : Result Store.Error (Unit {0}) × Conn)
        → Effect before.db (change user.id hash (kept_hash w m request)) result
        → Outcome (answer_update result.0, record m { store = result.1 })
    after_update hash right hashed (err e, c) unchanged = inr (unchanged ∙ same, refl)
    after_update hash right hashed (ok _, c) changed = inl (
      user,
      hash,
      long,
      asked,
      row,
      right,
      hashed,
      refl,
      refl,
      changed ∙ ap (change user.id hash (kept_hash w m request)) same,
    )

    after_hash :
        w.matches user.password_hash current ≡ true
        → (hashed : Option Text) → w.generate_from_password new ≡ hashed
        → Outcome (with_hash w request user hashed (record m { store = before }))
    unfolding store_password token_hash
    after_hash right none e = inr (same, refl)
    after_hash right (some hash) e =
        after_update hash right e _
          (update_user_password-Does user.id hash (kept_hash w m request) before)

    after_check :
        (right : Bool)
        → w.matches user.password_hash current ≡ right
        → Outcome (if_correct w new request user right (record m { store = before }))
    after_check true right = after_hash right (w.generate_from_password new) refl
    after_check false wrong = inr (same, refl)

  after_lookup :
      min_password_length ≤ length new
      → (id : Text) → request.user ≡ some id
      → (before : Conn) → before.db ≡ m.store.db
      → (result : Result Store.Error User) → (user_by_id id m.store).0 ≡ result
      → Outcome (if_current w current new request result (record m { store = before }))
  unfolding if_current user_by_id
  after_lookup long id asked before same (err e) found = inr (same, refl)
  after_lookup long id asked before same (ok user) found =
      let (row, _) = query-ok _ m.store (ap (λ r. (r, (user_by_id id m.store).1)) found) in
      let e = (text_eq_iff user.id id).0 (find_row-ok (is_user id) m.store.db.users user row).0 in
      after_check long user (asked ∙ ap some (sym e))
        (subst (λ i. find_row (is_user i) m.store.db.users ≡ ok user) (sym e) row) before same
        (w.matches user.password_hash current) refl

  for_asked :
      min_password_length ≤ length new
      → (asked : Option Text) → request.user ≡ asked
      → Outcome (for_user w current new request asked m)
  unfolding for_user user_by_id
  for_asked long none e = inr (refl, refl)
  for_asked long (some id) e =
      after_lookup long id e (user_by_id id m.store).1 (query_db _ m.store)
        (user_by_id id m.store).0 refl

  after_length :
      (short : Bool)
      → ltb (length new) min_password_length ≡ short
      → Outcome (unless_short w current new request short m)
  after_length true e = inr (refl, refl)
  after_length false e = for_asked (ground arith) request.user refl

-- On every body ChangePassword either stores the hash of a new password of at least 12 bytes for the user
-- of the request, whose row has the hash of the current password that was given, and signs all other
-- sessions of that user out; or it answers with the status 400, 401 or 500 and leaves the tables as they
-- were, whichever statements fail. A body that is not JSON of the form is of the second kind.
pub change_password_changes :
    (w : World) (input : Option (Text × Text)) (request : Request) (m : Manager)
    → ChangedBy w input request m (change_password w input request m)
      ⊎ Unchanged m (change_password w input request m)
unfolding change_password
change_password_changes w none request m = inr (refl, refl)
change_password_changes w (some (current, new)) request m =
    after_length w current new request m (ltb (length new) min_password_length) refl
