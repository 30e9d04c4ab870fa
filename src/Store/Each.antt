-- ===== src/Store/Each.antt =====
-- A property of all rows of the table `endpoints`, and the operations of internal/db/db.go on one endpoint.
use w8nc.Base.{ℕ, ◌≡◌, subst, Bool, true, not, List, All}
use w8nc.Base.Text.{Text}
use w8nc.Models.{Endpoint}
use w8nc.Store.{Db, Conn, update_where}
use w8nc.Store.Rules.{
  Keeps, Returns, returning-Keeps, changing-Keeps, query-Keeps, >>=-Keeps, >>=-ok, query-ok,
}
use w8nc.Store.Rows.{update_where-All, filter-All, find_row-All}
use w8nc.Store.Endpoints.{
  has_id, is_expired, set_expired, deactivate_expired_endpoints, get_endpoint, update_endpoint_row,
  set_activated, activate_endpoint, set_deactivated, deactivate_endpoint, remove_endpoint,
  delete_endpoint,
}

abbrev pub Each : (Endpoint → Type 0) → Db → Type 0
Each P db = All P db.endpoints

module _ (P : Endpoint → Type 0) where
  pub update_where-Each :
      (p : Endpoint → Bool) (f : Endpoint → Endpoint)
      → ((row : Endpoint) → P row → P (f row))
      → (rows : List Endpoint) → All P rows
      → All P (update_where p f rows)
  update_where-Each p f keep = update_where-All p f P P (λ row h _. keep row h) (λ row h _. h)

  pub delete_endpoint-Each : (id : Text) → Keeps (Each P) (delete_endpoint id)
  unfolding delete_endpoint
  delete_endpoint-Each id = changing-Keeps (Each P) _ _ (λ db a e h.
      unfold remove_endpoint in filter-All (λ row. not (has_id id row)) P db.endpoints h)

  pub update_endpoint_row-Each :
      (id : Text) (f : Endpoint → Endpoint)
      → ((row : Endpoint) → P row → has_id id row ≡ true → P (f row))
      → Keeps (Each P) (update_endpoint_row id f)
  unfolding update_endpoint_row
  update_endpoint_row-Each id f keep =
      changing-Keeps (Each P) _ _
        (λ db a e. update_where-All (has_id id) f P P keep (λ row h _. h) db.endpoints)

module _ (P : Endpoint → Type 0) (now : ℕ)
    (expired : (row : Endpoint) → P row → P (set_expired now row)) where
  pub deactivate_expired_endpoints-Each : Keeps (Each P) (deactivate_expired_endpoints now)
  unfolding deactivate_expired_endpoints
  deactivate_expired_endpoints-Each =
      returning-Keeps (Each P) _ _
        (λ db. update_where-Each P (is_expired now) (set_expired now) expired db.endpoints)

  pub get_endpoint-Each : (id : Text) → Keeps (Each P) (get_endpoint now id)
  unfolding get_endpoint
  get_endpoint-Each id =
      >>=-Keeps (Each P) _ _ deactivate_expired_endpoints-Each (λ _. query-Keeps (Each P) _)

  -- The row that GetEndpoint returns.
  pub get_endpoint-row :
      (id : Text) (c c' : Conn) (row : Endpoint)
      → Each P c.db
      → Returns (get_endpoint now id) c row c'
      → P row
  unfolding get_endpoint
  get_endpoint-row id c c' row h found =
      let (n, c1, swept, read) = >>=-ok (deactivate_expired_endpoints now) _ c found in
      let kept : Each P c1.db =
        subst (λ r. Each P r.1.db) swept (deactivate_expired_endpoints-Each c h) in
      find_row-All (has_id id) P c1.db.endpoints row kept (query-ok _ c1 read).0

  pub activate_endpoint-Each :
      ((row : Endpoint) → P row → P (set_activated now row))
      → (id : Text) → Keeps (Each P) (activate_endpoint now id)
  unfolding activate_endpoint
  activate_endpoint-Each keep id =
      >>=-Keeps (Each P) _ _
        (update_endpoint_row-Each P id (set_activated now) (λ row h _. keep row h))
        (λ updated. get_endpoint-Each updated)

  pub deactivate_endpoint-Each :
      ((row : Endpoint) → P row → P (set_deactivated now row))
      → (id : Text) → Keeps (Each P) (deactivate_endpoint now id)
  unfolding deactivate_endpoint
  deactivate_endpoint-Each keep id =
      >>=-Keeps (Each P) _ _
        (update_endpoint_row-Each P id (set_deactivated now) (λ row h _. keep row h))
        (λ updated. get_endpoint-Each updated)
