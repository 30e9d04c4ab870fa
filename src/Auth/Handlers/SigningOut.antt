-- ===== src/Auth/Handlers/SigningOut.antt =====
-- The sessions that ChangePassword of internal/auth/auth.go ends.
use w8nc.Base.{
  ℕ, ◌++◌, ◌≡◌, ◌≢◌, refl, sym, ap, subst, ◌∙◌, ◌⊎◌, inl, inr, true, none, some, List, [], ◌∷◌,
  Bool-cases, arith,
}
use w8nc.Base.Assoc.{text_eq-ne}
use w8nc.Base.Encoding.{hex}
use w8nc.Base.Result.{Result, err, Result-cases}
use w8nc.Base.Text.{Text, codes, text_eq_iff, is_empty}
use w8nc.Store.{no_rows, Error, User, Session, Db, Conn, query}
use w8nc.Store.Rules.{query-ok}
use w8nc.Store.Users.{has_token, belongs_to, is_signed_out, drop_sessions, user_of, user_by_session}
use w8nc.Store.Users.Views.{session_of, view, unless}
use w8nc.Store.Users.Views.Effects.{change}
use w8nc.Store.Users.Views.Refining.{session_of-hash, session_of-filter}
use w8nc.Store.Users.Views.Wellformed.{Wellformed}
use w8nc.Auth.{World, Manager, Response, Request, token_hash}
use w8nc.Auth.Handlers.{change_password, kept_hash, user_of_cookie, user_id, user_from_request}
use w8nc.Auth.Handlers.Changing.{Changed, Unchanged, change_password_changes}

-- Without a session there is no user.
user_of-none :
    (now : ℕ) (hash : Text) (users : List User) (sessions : List Session)
    → session_of hash sessions ≡ none
    → user_of now hash users sessions ≡ err no_rows
unfolding session_of user_of
user_of-none now hash users [] h = refl
user_of-none now hash users (s ∷ sessions) h = elim (Bool-cases (has_token hash s)) [
  | inl hit ↦ absurd (ground arith)
  | inr miss ↦ rw miss (user_of-none now hash users sessions (rw miss at h))
]

-- A session of the user that is not kept is signed out.
is_signed_out-other :
    (id keep : Text) (s : Session)
    → s.user_id ≡ id
    → s.token_hash ≢ keep
    → is_signed_out id keep s ≡ true
is_signed_out-other id keep s owned other =
    let mine : belongs_to id s ≡ true = (text_eq_iff s.user_id id).1 owned in
    let differs = text_eq-ne s.token_hash keep other in
    elim (Bool-cases (is_empty keep)) [ inl e ↦ rw e mine | inr e ↦ rw (e, mine, differs) refl ]

-- A query of a user that finds none at the database reports none, if it fails too.
user_id-none :
    (g : Db → Result Error User) (c : Conn) → g c.db ≡ err no_rows → user_id (query g c).0 ≡ none
user_id-none g c missing = elim (Result-cases (query g c).0) [
  | inl (user, found) ↦ absurd (cc (missing, (query-ok g c (ap (λ r. (r, (query g c).1)) found)).0))
  | inr (e, failed) ↦ ap user_id failed
]

user_of_cookie-none :
    (w : World) (later : ℕ) (token : Text) (m : Manager)
    → view m.store.db (token_hash w m token) ≡ none
    → (user_of_cookie w later (some token) m).0 ≡ none
unfolding user_by_session view
user_of_cookie-none w later [] m gone = refl
user_of_cookie-none w later (c ∷ token) m gone =
    user_id-none _ m.store (user_of-none later _ m.store.db.users m.store.db.sessions gone)

change-gone :
    (id hash keep token : Text) (db : Db) (s : Session)
    → Wellformed db
    → view db token ≡ some s
    → s.user_id ≡ id
    → token ≢ keep
    → view (change id hash keep db) token ≡ none
unfolding view change drop_sessions
change-gone id hash keep token db s (_, unique, _) found owned other =
    session_of-filter (is_signed_out id keep) token db.sessions unique
    ∙ (ap (unless (is_signed_out id keep)) found
        ∙ rw
            (is_signed_out-other id keep s owned
              (λ e. other (sym (session_of-hash token db.sessions s found) ∙ e)))
            refl)

-- Once ChangePassword has answered with the status 200, a request with the cookie of any other session
-- of that user, one whose hash is not that of the cookie that the change came with, is no longer the
-- request of a user.
pub change_password_signs_out :
    (w : World) (later : ℕ) (current new : Text) (request again : Request) (m m' : Manager)
    (response : Response) (id token : Text) (session : Session)
    → Wellformed m.store.db
    → change_password w (some (current, new)) request m ≡ (response, m')
    → response.status ≡ 200
    → request.user ≡ some id
    → again.cookie ≡ some token
    → view m.store.db (token_hash w m token) ≡ some session
    → session.user_id ≡ id
    → token_hash w m token ≢ kept_hash w m request
    → (user_from_request w later again m').0 ≡ none
unfolding user_from_request
change_password_signs_out w later current new request again m m' response id token session wf
      answered success asked sent found owned other =
    elim (subst (λ r. Changed w current new request m r ⊎ Unchanged m r) answered
      (change_password_changes w (some (current, new)) request m)) [
        | inr (_, failed) ↦ absurd (cc (rw success at failed))
        | inl (user, hash, _, by, _, _, _, _, secret, changed) ↦
            let same : user.id ≡ id = cc (asked, by) in
            let hashes : token_hash w m' token ≡ token_hash w m token =
              unfold token_hash in ap (λ s. hex (w.sha256 (token ++ (codes ":" ++ s)))) secret in
            let gone : view m'.store.db (token_hash w m' token) ≡ none =
              ap (view m'.store.db) hashes
              ∙ (ap (λ db. view db (token_hash w m token)) changed
                  ∙ change-gone user.id hash (kept_hash w m request) (token_hash w m token)
                      m.store.db session wf found (owned ∙ sym same) other) in
            ap (λ o. (user_of_cookie w later o m').0) sent
            ∙ user_of_cookie-none w later token m' gone
      ]
