-- ===== src/Api/Routes/Tests.antt =====
-- Routes of concrete requests, and the theorem at a request that meets its hypotheses.
use w8nc.Base.{◌≡◌, refl, true, false, none, some, [], ◌∷◌, any}
use w8nc.Base.Encoding.{hex}
use w8nc.Base.Text.{codes, text_eq, has_prefix}
use w8nc.Store.{Conn, answer, run_statement, statement, changing, query, find_row}
use w8nc.Store.Users.{new_user, user_of, user_by_session}
use w8nc.Auth
use w8nc.Auth.{Manager, Request, new_manager, token_hash, write_json, done}
use w8nc.Auth.Handlers.{user_from_request, middleware}
use w8nc.Api.Routes.{
  Server, delete_tag, ping_now, retry, not_found, not_allowed, trim_slashes_left, split_slashes,
  protected_route, serve_api,
}
use w8nc.Api.Routes.Guarded.{public_paths, Stopped, serve_api-Stopped}

routes : Unit {0}
unfolding hex text_eq has_prefix answer run_statement statement changing query find_row user_of
    user_by_session token_hash user_from_request middleware trim_slashes_left split_slashes
    protected_route serve_api
routes = tt

some_routes :
    (protected_route (codes "POST") (codes "/api/endpoints/e1/ping-now/") ≡ ping_now (codes "e1"))
    × (protected_route (codes "DELETE") (codes "/api/tags/t1") ≡ delete_tag (codes "t1"))
    × (protected_route (codes "GET") (codes "/api/tags/t1") ≡ not_allowed)
    × (protected_route (codes "POST") (codes "/api/screenshot-attempts/a/retry")
        ≡ retry (codes "a"))
    × (protected_route (codes "GET") (codes "/api/endpoints/") ≡ not_found)
unfolding routes
some_routes = (refl, refl, refl, refl, refl)

abbrev world : Auth.World
world = record {
  generate_from_password = λ password. none;
  matches = λ hash password. false;
  random = λ n. none;
  sha256 = λ text. text;
  split_host = λ address. none;
  new_id = [];
}

abbrev store : Conn
store = record {
  db = record {
    endpoints = [];
    endpoint_checks = [];
    notification_events = [];
    screenshot_attempts = [];
    last_seen_at = none;
    notification_settings = none;
    users = new_user (codes "a") 1 (codes "local") (codes "h") ∷ [];
    sessions =
        record {
          user_id = codes "a";
          token_hash =
              token_hash world
                (new_manager
                  (record {
                    db = record {
                      endpoints = [];
                      endpoint_checks = [];
                      notification_events = [];
                      screenshot_attempts = [];
                      last_seen_at = none;
                      notification_settings = none;
                      users = [];
                      sessions = [];
                      tags = [];
                      endpoint_tags = [];
                    };
                    faults = [];
                  })
                  true (codes "s") true)
                (codes "t");
          expires_at = 50;
        }
        ∷ [];
    tags = [];
    endpoint_tags = [];
  };
  faults = [];
}

abbrev manager : Manager
manager = new_manager store true (codes "s") true

abbrev server : Server
server = record {
  health = write_json done;
  password = none;
  answer = λ route request m. (write_json done, m);
}

abbrev asking : Request
asking = record { remote_addr = codes "ip"; cookie = some (codes "t"); user = none }

-- The session lasts until 50.
answers :
    ((serve_api world 20 server true (codes "GET") (codes "/api/tags") asking manager).0.status
      ≡ 200)
    × ((user_from_request world 60 asking manager).0 ≡ none)
    × (any (text_eq (codes "/api/tags")) public_paths ≡ false)
unfolding routes
answers = (refl, refl, refl)

serve_api-Stopped_example :
    Stopped manager
      (serve_api world 60 server true (codes "GET") (codes "/api/tags") asking manager)
serve_api-Stopped_example =
    serve_api-Stopped world 60 server true (codes "GET") (codes "/api/tags") asking manager refl
      (answers.2) (answers.1)
