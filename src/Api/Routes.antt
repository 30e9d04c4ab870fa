-- ===== src/Api/Routes.antt =====
-- The routes of internal/api/server.go, and what stands in front of them.
pub mod Guarded
mod Tests
use w8nc.Base.{
  ℕ, Bool, true, false, not, ◌&&◌, Option, none, some, List, [], ◌∷◌, ◌++◌, ◌==◌, if◌then◌else◌,
  drop, length,
}
use w8nc.Base.Text.{Text, codes, text_eq, has_prefix, is_empty}
use w8nc.Auth
use w8nc.Auth.{Manager, Response, Request}
use w8nc.Auth.Handlers.{Handler, login, logout, me, middleware, optional}
use mathlib.Core.List.{reverse}

-- What a request behind the middleware is answered by; the texts are ids.
pub data Route : Type 0 where
  list_endpoints create_endpoint test_request placeholders list_tags change_password : Route
  last_proxy get_settings update_settings test_notification : Route
  delete_tag get_endpoint update_endpoint delete_endpoint activate deactivate : Text → Route
  ping_now checks image retry : Text → Route
  not_found not_allowed : Route

abbrev pub slash : ℕ
slash = b'/'

unfoldable pub trim_slashes_left : Text → Text
trim_slashes_left [] = []
trim_slashes_left (c ∷ s) = let rest = trim_slashes_left s in if c == slash then rest else c ∷ s

-- strings.Trim(s, "/")
abbrev pub trim_slashes : Text → Text
trim_slashes s = reverse (trim_slashes_left (reverse (trim_slashes_left s)))

-- strings.Split(s, "/"), with the piece before `s`.
unfoldable pub split_slashes : Text → Text → List Text
split_slashes piece [] = piece ∷ []
split_slashes piece (c ∷ s) =
    let cut = piece ∷ split_slashes [] s in
    let longer = split_slashes (piece ++ c ∷ []) s in if c == slash then cut else longer

-- The parts of a path behind a prefix.
abbrev pub parts_after : Text → Text → List Text
parts_after prefix path = split_slashes [] (trim_slashes (drop (length prefix) path))

abbrev pub is_method : Text → Text → Bool
is_method method name = text_eq method name

-- `if r.Method != name { methodNotAllowed(w) }`
abbrev pub only : Text → Text → Route → Route
only method name route = if text_eq method name then route else not_allowed

-- handleTagPath
abbrev pub tag_route : Text → List Text → Route
tag_route method [] = not_found
tag_route method (id ∷ []) =
    if is_empty id then not_found else only method (codes "DELETE") (delete_tag id)
tag_route method (id ∷ part ∷ parts) = not_found

-- The actions of handleEndpointPath.
abbrev pub endpoint_action : Text → Text → Text → Route
endpoint_action method id action =
    if text_eq action (codes "activate")
    then only method (codes "POST") (activate id)
    else if text_eq action (codes "deactivate")
    then only method (codes "POST") (deactivate id)
    else if text_eq action (codes "ping-now")
    then only method (codes "POST") (ping_now id)
    else if text_eq action (codes "checks")
    then only method (codes "GET") (checks id)
    else not_found

abbrev pub one_endpoint : Text → Text → Route
one_endpoint method id =
    if text_eq method (codes "GET")
    then get_endpoint id
    else if text_eq method (codes "PUT")
    then update_endpoint id
    else if text_eq method (codes "DELETE")
    then delete_endpoint id
    else not_allowed

-- handleEndpointPath
abbrev pub endpoint_route : Text → List Text → Route
endpoint_route method [] = not_found
endpoint_route method (id ∷ []) = if is_empty id then not_found else one_endpoint method id
endpoint_route method (id ∷ action ∷ []) =
    if is_empty id then not_found else endpoint_action method id action
endpoint_route method (id ∷ action ∷ part ∷ parts) = not_found

-- handleScreenshotAttemptPath
abbrev pub screenshot_route : Text → List Text → Route
screenshot_route method [] = not_found
screenshot_route method (id ∷ []) = not_found
screenshot_route method (id ∷ action ∷ []) =
    if is_empty id
    then not_found
    else if text_eq action (codes "image")
    then only method (codes "GET") (image id)
    else if text_eq action (codes "retry")
    then only method (codes "POST") (retry id)
    else not_found
screenshot_route method (id ∷ action ∷ part ∷ parts) = not_found

abbrev pub endpoints_route : Text → Route
endpoints_route method =
    if text_eq method (codes "GET")
    then list_endpoints
    else if text_eq method (codes "POST")
    then create_endpoint
    else not_allowed

abbrev pub settings_route : Text → Route
settings_route method =
    if text_eq method (codes "GET")
    then get_settings
    else if text_eq method (codes "PUT")
    then update_settings
    else not_allowed

-- serveProtectedAPI
unfoldable pub protected_route : Text → Text → Route
protected_route method path =
    if text_eq path (codes "/api/endpoints")
    then endpoints_route method
    else if text_eq path (codes "/api/endpoints/test-request")
    then only method (codes "POST") test_request
    else if text_eq path (codes "/api/template-placeholders")
    then only method (codes "GET") placeholders
    else if text_eq path (codes "/api/tags")
    then only method (codes "GET") list_tags
    else if has_prefix path (codes "/api/tags/")
    then tag_route method (parts_after (codes "/api/tags/") path)
    else if text_eq path (codes "/api/auth/password")
    then only method (codes "PUT") change_password
    else if text_eq path (codes "/api/proxies/last")
    then only method (codes "GET") last_proxy
    else if has_prefix path (codes "/api/screenshot-attempts/")
    then screenshot_route method (parts_after (codes "/api/screenshot-attempts/") path)
    else if has_prefix path (codes "/api/endpoints/")
    then endpoint_route method (parts_after (codes "/api/endpoints/") path)
    else if text_eq path (codes "/api/settings/notifications")
    then settings_route method
    else if text_eq path (codes "/api/settings/notifications/test")
    then only method (codes "POST") test_notification
    else not_found

-- What the server needs for a request: the answer of handleHealth, the decoded body of a login, and what
-- answers the other routes.
pub record Server : Type 0 where
  pub health : Response
  pub password : Option Text
  pub answer : Route → Handler

abbrev pub write_error : ℕ → Text → Response
write_error = Auth.write_auth_error

-- methodNotAllowed
abbrev pub method_not_allowed : Handler
method_not_allowed request m = (write_error 405 (codes "method not allowed"), m)

abbrev pub if_enabled : Bool → Handler → Handler
if_enabled true handler = handler
if_enabled false handler = λ request m. (write_error 400 (codes "authentication is disabled"), m)

abbrev pub for_method : Text → Text → Handler → Handler
for_method method name handler = if text_eq method name then handler else method_not_allowed

-- The route behind the middleware.
abbrev pub serve_protected_api : Server → Text → Text → Handler
serve_protected_api server method path = server.answer (protected_route method path)

-- serveAPI; `auth_enabled` is `Config.AuthEnabled`.
unfoldable pub serve_api : Auth.World → ℕ → Server → Bool → Text → Text → Handler
serve_api w now server auth_enabled method path =
    if text_eq path (codes "/api/health")
    then for_method method (codes "GET") (λ request m. (server.health, m))
    else if text_eq path (codes "/api/auth/login")
    then for_method method (codes "POST") (if_enabled auth_enabled (login w now server.password))
    else if text_eq path (codes "/api/auth/logout")
    then for_method method (codes "POST") (logout w now)
    else if text_eq path (codes "/api/auth/me")
    then for_method method (codes "GET") (optional w now (λ request m. (me request m, m)))
    else middleware w now (serve_protected_api server method path)
