-- ===== src/Api/Routes/Guarded.antt =====
-- The requests that internal/api/server.go answers without a session.
use w8nc.Base.{
  ℕ, ◌≡◌, refl, sym, subst, Bool, true, false, Option, none, some, List, [], ◌∷◌, any, arith,
}
use w8nc.Base.Text.{Text, codes, text_eq}
use w8nc.Store.Rules.{query_db}
use w8nc.Store.Users.{user_by_session}
use w8nc.Auth
use w8nc.Auth.{Manager, Response, Request}
use w8nc.Auth.Handlers.{Handler, if_user, guarded, middleware, user_of_cookie, user_from_request}
use w8nc.Api.Routes.{Server, serve_protected_api, serve_api}

abbrev pub public_paths : List Text
public_paths =
    codes "/api/health"
    ∷ codes "/api/auth/login"
    ∷ codes "/api/auth/logout"
    ∷ codes "/api/auth/me"
    ∷ []

user_of_cookie-db :
    (w : Auth.World) (now : ℕ) (cookie : Option Text) (m : Manager)
    → (user_of_cookie w now cookie m).1.store.db ≡ m.store.db
unfolding user_by_session
user_of_cookie-db w now none m = refl
user_of_cookie-db w now (some []) m = refl
user_of_cookie-db w now (some (c ∷ token)) m = query_db _ m.store

-- Nobody is let through.
abbrev pub Stopped : Manager → Response × Manager → Type 0
Stopped m (response, after) = (response.status ≡ 401) × (after.store.db ≡ m.store.db)

if_user-Stopped :
    (next : Handler) (request : Request) (m : Manager) (found : Option Text × Manager)
    → found.0 ≡ none
    → found.1.store.db ≡ m.store.db
    → Stopped m (if_user next request found)
if_user-Stopped next request m (none, after) nobody same = (refl, same)
if_user-Stopped next request m (some id, after) nobody same = absurd (cc)

-- With authentication on, a request to any path but those of health, login, logout and me that comes
-- without the cookie of a session is answered with the status 401 and changes no table, whatever its
-- method and whatever the handlers would do.
pub serve_api-Stopped :
    (w : Auth.World) (now : ℕ) (server : Server) (auth_enabled : Bool) (method path : Text)
    (request : Request) (m : Manager)
    → m.enabled ≡ true
    → any (text_eq path) public_paths ≡ false
    → (user_from_request w now request m).0 ≡ none
    → Stopped m (serve_api w now server auth_enabled method path request m)
unfolding serve_api middleware user_from_request
serve_api-Stopped w now server auth_enabled method path request m on private nobody =
    let (health, login, logout, me) = apart path private in
    rw (health, login, logout, me)
      (subst (λ b. Stopped m (guarded w now (serve_protected_api server method path) b request m))
        (sym on)
        (if_user-Stopped (serve_protected_api server method path) request m
          (user_of_cookie w now request.cookie m) nobody
          (user_of_cookie-db w now request.cookie m)))
  where
    apart :
        (path : Text)
        → any (text_eq path) public_paths ≡ false
        → (text_eq path (codes "/api/health") ≡ false)
          × (text_eq path (codes "/api/auth/login") ≡ false)
          × (text_eq path (codes "/api/auth/logout") ≡ false)
          × (text_eq path (codes "/api/auth/me") ≡ false)
    apart path h = ground arith
