-- ===== src/Api/Endpoints.antt =====
-- The handlers of internal/api/server.go that read and change one endpoint. Each takes what json.Decode
-- makes of the body: nothing if it is no JSON of that form. A request happens at one time, for this process
-- and the database. The tags of an endpoint in an answer are left out.
pub mod Quiet
pub mod Sealed
mod Tests
use w8nc.Base.{ℕ, Bool, true, false, Option, none, some, List, [], ◌∷◌}
use w8nc.Base.Result.{Result, ok, err}
use w8nc.Base.Text.{Text, codes}
use w8nc.Models.{Endpoint}
use w8nc.Store
use w8nc.Store.{TagRow, Conn}
use w8nc.Store.Endpoints.{get_endpoint, activate_endpoint, deactivate_endpoint, delete_endpoint}
use w8nc.Store.Editing.{EndpointRecord, create_endpoint, update_endpoint}
use w8nc.Api.{World, Config, EndpointInput, Error}
use w8nc.Api.Inputs.{endpoint_record}

-- The JSON of an answer: a message, the text of an error of endpointRecord, an endpoint, or nothing.
pub data Body : Type 0 where
  message : Text → Body
  reason : Error → Body
  shown : Endpoint → Body
  empty : Body

pub record Reply : Type 0 where
  pub status : ℕ
  pub body : Body

abbrev pub write_error : ℕ → Text → Reply
write_error status text = record { status = status; body = message text }

-- writeStoreError; no operation of the store fails with http.ErrNoCookie.
abbrev pub write_store_error : Store.Error → Reply
write_store_error Store.Error.no_rows = write_error 404 (codes "not found")
write_store_error Store.Error.invalid_state = write_error 500 (codes "database error")
write_store_error Store.Error.failed = write_error 500 (codes "database error")
write_store_error (Store.Error.bad_tags e) = write_error 500 (codes "database error")

abbrev pub show : ℕ → Endpoint → Reply
show status row = record { status = status; body = shown row }

-- writeEndpointMutation, and the end of handleGetEndpoint.
abbrev pub write_endpoint_mutation : Result Store.Error Endpoint × Conn → Reply × Conn
write_endpoint_mutation (ok row, c) = (show 200 row, c)
write_endpoint_mutation (err e, c) = (write_store_error e, c)

abbrev pub untagged : Result Store.Error (Endpoint × List TagRow) → Result Store.Error Endpoint
untagged (ok (row, tags)) = ok row
untagged (err e) = err e

-- handleGetEndpoint
unfoldable pub handle_get_endpoint : ℕ → Text → Conn → Reply × Conn
handle_get_endpoint now id c = write_endpoint_mutation (get_endpoint now id c)

-- `if err != nil { writeStoreError(w, err); return }` behind GetEndpoint.
abbrev pub if_found :
    (Endpoint → Conn → Reply × Conn) → Result Store.Error Endpoint × Conn → Reply × Conn
if_found next (ok row, c) = next row c
if_found next (err e, c) = (write_store_error e, c)

-- The same behind endpointRecord.
abbrev pub if_accepted :
    (EndpointRecord → Bool → Conn → Reply × Conn)
    → Result Error (EndpointRecord × Bool) × Conn
    → Reply × Conn
if_accepted next (ok (edit, changed), c) = next edit changed c
if_accepted next (err e, c) = (record { status = 400; body = reason e }, c)

abbrev pub invalid_json : Reply
invalid_json = write_error 400 (codes "invalid JSON")

abbrev pub created : Result Store.Error (Endpoint × List TagRow) × Conn → Reply × Conn
created (ok (row, tags), c) = (show 201 row, c)
created (err e, c) = (write_error 500 (codes "could not create endpoint"), c)

-- handleCreateEndpoint from endpointRecord on. The id of the endpoint and those of the tags are generated by
-- the database.
unfoldable pub create_from :
    World
    → Config
    → Text
    → ℕ
    → (Text → Text)
    → EndpointInput
    → Option Endpoint
    → Conn
    → Reply × Conn
create_from w config id now new_id input source c =
    if_accepted (λ edit changed c. created (create_endpoint id now new_id edit c))
      (endpoint_record w config input source c)

-- handleCreateEndpoint, of the input and its `DuplicateFrom`.
unfoldable pub handle_create_endpoint :
    World → Config → Text → ℕ → (Text → Text) → Option (EndpointInput × Text) → Conn → Reply × Conn
handle_create_endpoint w config id now new_id none c = (invalid_json, c)
handle_create_endpoint w config id now new_id (some (input, [])) c =
    create_from w config id now new_id input none c
handle_create_endpoint w config id now new_id (some (input, code ∷ from)) c =
    if_found (λ source. create_from w config id now new_id input (some source))
      (get_endpoint now (code ∷ from) c)

abbrev pub write_updated : Result Store.Error (Endpoint × List TagRow) × Conn → Reply × Conn
write_updated (r, c) = write_endpoint_mutation (untagged r, c)

-- handleUpdateEndpoint behind GetEndpoint.
unfoldable pub update_with :
    World
    → Config
    → ℕ
    → (Text → Text)
    → Text
    → Option EndpointInput
    → Endpoint
    → Conn
    → Reply × Conn
update_with w config now new_id id none current c = (invalid_json, c)
update_with w config now new_id id (some input) current c =
    if_accepted (λ edit changed c. write_updated (update_endpoint id now new_id edit changed c))
      (endpoint_record w config input (some current) c)

-- handleUpdateEndpoint
unfoldable pub handle_update_endpoint :
    World → Config → ℕ → (Text → Text) → Text → Option EndpointInput → Conn → Reply × Conn
handle_update_endpoint w config now new_id id input c =
    if_found (update_with w config now new_id id input) (get_endpoint now id c)

abbrev pub write_deleted : Result Store.Error (Unit {0}) × Conn → Reply × Conn
write_deleted (ok _, c) = (record { status = 204; body = empty }, c)
write_deleted (err e, c) = (write_store_error e, c)

-- handleDeleteEndpoint
unfoldable pub handle_delete_endpoint : Text → Conn → Reply × Conn
handle_delete_endpoint id c = write_deleted (delete_endpoint id c)

-- The requests that change endpoints.
pub data EndpointCall : Type 0 where
  create : Text → Option (EndpointInput × Text) → EndpointCall
  update : Text → Option EndpointInput → EndpointCall
  get activate deactivate delete : Text → EndpointCall

-- What the routes of an endpoint do; the id of a new endpoint comes with the call.
unfoldable pub handle : World → Config → ℕ → (Text → Text) → EndpointCall → Conn → Reply × Conn
handle w config now new_id (create id input) = handle_create_endpoint w config id now new_id input
handle w config now new_id (update id input) = handle_update_endpoint w config now new_id id input
handle w config now new_id (get id) = handle_get_endpoint now id
handle w config now new_id (activate id) = λ c. write_endpoint_mutation (activate_endpoint now id c)
handle w config now new_id (deactivate id) =
    λ c. write_endpoint_mutation (deactivate_endpoint now id c)
handle w config now new_id (delete id) = handle_delete_endpoint id
