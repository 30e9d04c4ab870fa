-- ===== src/Api/Endpoints/Sealed.antt =====
-- What the requests that internal/api/server.go answers on one endpoint leave in the headers of the table.
use w8nc.Base.{ℕ, ◌≡◌, refl, sym, subst, Bool, Option, none, some, List, [], ◌∷◌, All}
use w8nc.Base.Result.{Result, ok, err}
use w8nc.Base.Text.{Text}
use w8nc.Models.{Endpoint}
use w8nc.Store
use w8nc.Store.{TagRow, Db, Conn}
use w8nc.Store.Rules.{Keeps, >>=-Keeps}
use w8nc.Store.Each.{
  Each, get_endpoint-Each, get_endpoint-row, activate_endpoint-Each, deactivate_endpoint-Each,
  delete_endpoint-Each,
}
use w8nc.Store.Endpoints.{
  set_expired, get_endpoint, set_activated, activate_endpoint, set_deactivated, deactivate_endpoint,
  delete_endpoint,
}
use w8nc.Store.Editing.{EndpointRecord, new_endpoint, create_endpoint, set_edited, update_endpoint}
use w8nc.Store.Editing.Keeping.{create_endpoint-Each, update_from-Each}
use w8nc.Api.{World, Config, EndpointInput, Error}
use w8nc.Api.Inputs.{endpoint_record}
use w8nc.Api.Inputs.Sealing.{Seals, IsSealed, SourceIsSealed}
use w8nc.Api.Inputs.Accepted.{endpoint_record-IsAccepted}
use w8nc.Api.Endpoints.{
  Reply, write_endpoint_mutation, untagged, handle_get_endpoint, if_found, if_accepted, created,
  create_from, handle_create_endpoint, write_updated, update_with, handle_update_endpoint,
  write_deleted, handle_delete_endpoint, EndpointCall, create, update, get, activate, deactivate,
  delete, handle,
}
use w8nc.Api.Endpoints.Quiet.{endpoint_record-Quiet}

-- The handler leaves a database with the property in such a database.
abbrev Leaves : (Db → Type 0) → (Conn → Reply × Conn) → Type 0
Leaves P handler = (c : Conn) → P c.db → P (handler c).1.db

module _ (P : Db → Type 0) where
  write_endpoint_mutation-db :
      (r : Result Store.Error Endpoint × Conn) → P r.1.db → P (write_endpoint_mutation r).1.db
  write_endpoint_mutation-db (ok row, c) h = h
  write_endpoint_mutation-db (err e, c) h = h

  created-db :
      (r : Result Store.Error (Endpoint × List TagRow) × Conn) → P r.1.db → P (created r).1.db
  created-db (ok (row, tags), c) h = h
  created-db (err e, c) h = h

  write_deleted-db :
      (r : Result Store.Error (Unit {0}) × Conn) → P r.1.db → P (write_deleted r).1.db
  write_deleted-db (ok u, c) h = h
  write_deleted-db (err e, c) h = h

-- Every sensitive header of the endpoint holds a ciphertext and no plain value.
abbrev pub HasSealed : (Text → Type 0) → Endpoint → Type 0
HasSealed IsCipher row = All (IsSealed IsCipher) row.headers

module _ (IsCipher : Text → Type 0) (w : World) (config : Config) (seals : Seals IsCipher w)
    (now : ℕ) where
  abbrev Safe : Endpoint → Type 0
  Safe = HasSealed IsCipher

  abbrev AllSafe : Db → Type 0
  AllSafe = Each Safe

  -- What follows a check of the input may rely on what the check accepts.
  endpoint_record-Leaves :
      (input : EndpointInput) (source : Option Endpoint)
      (next : EndpointRecord → Bool → Conn → Reply × Conn)
      → SourceIsSealed IsCipher source
      → ((edit : EndpointRecord) (changed : Bool)
          → All (IsSealed IsCipher) edit.headers
          → Leaves AllSafe (next edit changed))
      → Leaves AllSafe (λ c. if_accepted next (endpoint_record w config input source c))
  endpoint_record-Leaves input source next sealed leaves c h =
      go (endpoint_record w config input source c) refl
        (subst AllSafe (sym (endpoint_record-Quiet w config input source c)) h)
    where
      go :
          (r : Result Error (EndpointRecord × Bool) × Conn)
          → endpoint_record w config input source c ≡ r
          → AllSafe r.1.db
          → AllSafe (if_accepted next r).1.db
      go (err e, c') same k = k
      go (ok (edit, changed), c') same k =
          let accepted =
            endpoint_record-IsAccepted IsCipher w config input source c c' edit changed seals sealed
              same in
          leaves edit changed accepted.headers c' k

  set_expired-Safe : (row : Endpoint) → Safe row → Safe (set_expired now row)
  unfolding set_expired
  set_expired-Safe row h = h

  get_endpoint-Safe : (id : Text) → Keeps AllSafe (get_endpoint now id)
  get_endpoint-Safe = get_endpoint-Each Safe now set_expired-Safe

  -- What follows GetEndpoint may rely on the row that it returns.
  get_endpoint-Leaves :
      (id : Text) (next : Endpoint → Conn → Reply × Conn)
      → ((row : Endpoint) → Safe row → Leaves AllSafe (next row))
      → Leaves AllSafe (λ c. if_found next (get_endpoint now id c))
  get_endpoint-Leaves id next leaves c h =
      go (get_endpoint now id c) refl (get_endpoint-Safe id c h)
    where
      go :
          (r : Result Store.Error Endpoint × Conn)
          → get_endpoint now id c ≡ r
          → AllSafe r.1.db
          → AllSafe (if_found next r).1.db
      go (err e, c') same k = k
      go (ok row, c') same k =
          leaves row (get_endpoint-row Safe now set_expired-Safe id c c' row h same) c' k

  activate_endpoint-Safe : (id : Text) → Keeps AllSafe (activate_endpoint now id)
  unfolding set_activated
  activate_endpoint-Safe = activate_endpoint-Each Safe now set_expired-Safe (λ row h. h)

  deactivate_endpoint-Safe : (id : Text) → Keeps AllSafe (deactivate_endpoint now id)
  unfolding set_deactivated
  deactivate_endpoint-Safe = deactivate_endpoint-Each Safe now set_expired-Safe (λ row h. h)

  module _ (new_id : Text → Text) where
    create_endpoint-Safe :
        (id : Text) (edit : EndpointRecord)
        → All (IsSealed IsCipher) edit.headers
        → Keeps AllSafe (create_endpoint id now new_id edit)
    unfolding new_endpoint
    create_endpoint-Safe id edit sealed = create_endpoint-Each Safe id now new_id edit sealed

    update_endpoint-Safe :
        (id : Text) (edit : EndpointRecord) (changed : Bool)
        → All (IsSealed IsCipher) edit.headers
        → Keeps AllSafe (update_endpoint id now new_id edit changed)
    unfolding update_endpoint set_edited
    update_endpoint-Safe id edit changed sealed =
        >>=-Keeps AllSafe (get_endpoint now id) _ (get_endpoint-Safe id)
          (λ current. update_from-Each Safe id now new_id edit changed current (λ row _ _. sealed))

    create_from-Safe :
        (id : Text) (input : EndpointInput) (source : Option Endpoint)
        → SourceIsSealed IsCipher source
        → Leaves AllSafe (create_from w config id now new_id input source)
    unfolding create_from
    create_from-Safe id input source sealed =
        endpoint_record-Leaves input source _ sealed (λ edit changed headers c h.
          created-db AllSafe (create_endpoint id now new_id edit c)
            (create_endpoint-Safe id edit headers c h))

    write_updated-Safe :
        (r : Result Store.Error (Endpoint × List TagRow) × Conn)
        → AllSafe r.1.db
        → AllSafe (write_updated r).1.db
    write_updated-Safe (r, c) h = write_endpoint_mutation-db AllSafe (untagged r, c) h

    update_with-Safe :
        (id : Text) (input : Option EndpointInput) (current : Endpoint)
        → Safe current
        → Leaves AllSafe (update_with w config now new_id id input current)
    unfolding update_with
    update_with-Safe id none current sealed = λ c h. h
    update_with-Safe id (some input) current sealed =
        endpoint_record-Leaves input (some current) _ sealed (λ edit changed headers c h.
          write_updated-Safe (update_endpoint id now new_id edit changed c)
            (update_endpoint-Safe id edit changed headers c h))

    handle_create_endpoint-Safe :
        (id : Text) (input : Option (EndpointInput × Text))
        → Leaves AllSafe (handle_create_endpoint w config id now new_id input)
    unfolding handle_create_endpoint
    handle_create_endpoint-Safe id none = λ c h. h
    handle_create_endpoint-Safe id (some (input, [])) = create_from-Safe id input none tt
    handle_create_endpoint-Safe id (some (input, code ∷ from)) =
        get_endpoint-Leaves (code ∷ from) _ (λ source. create_from-Safe id input (some source))

-- Let every output of the box be a ciphertext. If every sensitive header in the table of endpoints holds a
-- ciphertext and no plain value, then so it is after any request to create, change, read, activate,
-- deactivate or delete an endpoint, whatever its body and whichever statements fail.
pub handle-HasSealed :
    (IsCipher : Text → Type 0) (w : World) (config : Config) (now : ℕ) (new_id : Text → Text)
    (call : EndpointCall) (c : Conn)
    → Seals IsCipher w
    → Each (HasSealed IsCipher) c.db
    → Each (HasSealed IsCipher) (handle w config now new_id call c).1.db
unfolding handle handle_get_endpoint handle_update_endpoint handle_delete_endpoint
handle-HasSealed IsCipher w config now new_id (create id input) c seals h =
    handle_create_endpoint-Safe IsCipher w config seals now new_id id input c h
handle-HasSealed IsCipher w config now new_id (update id input) c seals h =
    get_endpoint-Leaves IsCipher w config seals now id _
      (update_with-Safe IsCipher w config seals now new_id id input) c h
handle-HasSealed IsCipher w config now new_id (get id) c seals h =
    write_endpoint_mutation-db (Each (HasSealed IsCipher)) (get_endpoint now id c)
      (get_endpoint-Safe IsCipher w config seals now id c h)
handle-HasSealed IsCipher w config now new_id (activate id) c seals h =
    write_endpoint_mutation-db (Each (HasSealed IsCipher)) (activate_endpoint now id c)
      (activate_endpoint-Safe IsCipher w config seals now id c h)
handle-HasSealed IsCipher w config now new_id (deactivate id) c seals h =
    write_endpoint_mutation-db (Each (HasSealed IsCipher)) (deactivate_endpoint now id c)
      (deactivate_endpoint-Safe IsCipher w config seals now id c h)
handle-HasSealed IsCipher w config now new_id (delete id) c seals h =
    write_deleted-db (Each (HasSealed IsCipher)) (delete_endpoint id c)
      (delete_endpoint-Each (HasSealed IsCipher) id c h)
