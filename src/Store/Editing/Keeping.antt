-- ===== src/Store/Editing/Keeping.antt =====
-- CreateEndpoint and UpdateEndpoint of internal/db/db.go against the invariant of the endpoints.
use w8nc.Base.{ℕ, ◌≡◌, refl, Bool, true, List, [], ◌∷◌, arith}
use w8nc.Base.Result.{Result, ok, err}
use w8nc.Base.Text.{Text}
use w8nc.Models.{Endpoint}
use w8nc.Models.Tags
use w8nc.Models.Tags.{TagInput, normalize_tag_inputs}
use w8nc.Store.{Error, Db, Conn, and_then}
use w8nc.Store.Rules.{
  Keeps, execute-Keeps, changing-Keeps, query-Keeps, pure-Keeps, >>=-Keeps, transaction-Keeps,
}
use w8nc.Store.Each.{Each, update_endpoint_row-Each, get_endpoint-row}
use w8nc.Store.Endpoints.{has_id, get_endpoint}
use w8nc.Store.Labels.{unlink_all, upsert_tag, link_tag, sync_tag, sync_each, sync_endpoint_tags}
use w8nc.Store.Consistency.{IsConsistent, Consistent, set_expired-IsConsistent, get_endpoint-Keeps}
use w8nc.Store.Editing.{
  EndpointRecord, new_endpoint, insert_endpoint, select_endpoint, sync_and_select, normalized,
  create_endpoint, set_edited, update_from, update_endpoint,
}

new_endpoint-IsConsistent :
    (id : Text) (now : ℕ) (edit : EndpointRecord) → IsConsistent (new_endpoint id now edit)
unfolding new_endpoint
new_endpoint-IsConsistent id now edit = ground arith

set_edited-IsConsistent :
    (now : ℕ) (edit : EndpointRecord) (interval_changed : Bool) (current row : Endpoint)
    → IsConsistent current
    → IsConsistent (set_edited now edit interval_changed current row)
unfolding set_edited
set_edited-IsConsistent now edit interval_changed current row h = ground (arith, h)

normalized-Keeps :
    (P : Db → Type 0) (r : Result Tags.Error (List TagInput)) → Keeps P (normalized r)
normalized-Keeps P (ok tags) c h = h
normalized-Keeps P (err e) c h = h

module _ (P : Endpoint → Type 0) where
  -- The tags are in other tables.
  sync_each-Each :
      (now : ℕ) (new_id : Text → Text) (id : Text) (tags : List TagInput)
      → Keeps (Each P) (sync_each now new_id id tags)
  unfolding sync_each sync_tag upsert_tag link_tag
  sync_each-Each now new_id id [] = pure-Keeps (Each P) tt
  sync_each-Each now new_id id (tag ∷ tags) =
      >>=-Keeps (Each P) _ _
        (>>=-Keeps (Each P) _ _ (changing-Keeps (Each P) _ _ (λ db a e h. h))
          (λ tag_id. execute-Keeps (Each P) _ (λ db h. h)))
        (λ _. sync_each-Each now new_id id tags)

  sync_and_select-Each :
      (now : ℕ) (new_id : Text → Text) (tags : List TagInput) (id : Text)
      → Keeps (Each P) (sync_and_select now new_id tags id)
  unfolding sync_and_select sync_endpoint_tags select_endpoint
  sync_and_select-Each now new_id tags id =
      >>=-Keeps (Each P) _ _
        (>>=-Keeps (Each P) _ _ (execute-Keeps (Each P) (unlink_all id) (λ db h. h))
          (λ _. sync_each-Each now new_id id tags))
        (λ _. query-Keeps (Each P) _)

  pub create_endpoint-Each :
      (id : Text) (now : ℕ) (new_id : Text → Text) (edit : EndpointRecord)
      → P (new_endpoint id now edit)
      → Keeps (Each P) (create_endpoint id now new_id edit)
  unfolding create_endpoint insert_endpoint
  create_endpoint-Each id now new_id edit made =
      >>=-Keeps (Each P) _ _ (normalized-Keeps (Each P) (normalize_tag_inputs edit.tags)) (λ tags.
        transaction-Keeps (Each P) _ (
          >>=-Keeps (Each P) _ _ (changing-Keeps (Each P) _ _ (λ db a e h. (made, h)))
            (λ id. sync_and_select-Each now new_id tags id)))

  pub update_from-Each :
      (id : Text) (now : ℕ) (new_id : Text → Text) (edit : EndpointRecord) (interval_changed : Bool)
      (current : Endpoint)
      → ((row : Endpoint)
          → P row
          → has_id id row ≡ true
          → P (set_edited now edit interval_changed current row))
      → Keeps (Each P) (update_from id now new_id edit interval_changed current)
  unfolding update_from
  update_from-Each id now new_id edit interval_changed current keep =
      >>=-Keeps (Each P) _ _ (normalized-Keeps (Each P) (normalize_tag_inputs edit.tags)) (λ tags.
        transaction-Keeps (Each P) _ (
          >>=-Keeps (Each P) _ _
            (update_endpoint_row-Each P id (set_edited now edit interval_changed current) keep)
            (λ updated. sync_and_select-Each now new_id tags updated)))

update_endpoint-Consistent :
    (id : Text) (now : ℕ) (new_id : Text → Text) (edit : EndpointRecord) (interval_changed : Bool)
    (c : Conn)
    → Consistent c.db
    → Consistent (update_endpoint id now new_id edit interval_changed c).1.db
unfolding update_endpoint and_then
update_endpoint-Consistent id now new_id edit interval_changed c h =
    go (get_endpoint now id c) refl (get_endpoint-Keeps now id c h)
  where
    go :
        (r : Result Error Endpoint × Conn)
        → get_endpoint now id c ≡ r
        → Consistent r.1.db
        → Consistent (and_then (update_from id now new_id edit interval_changed) r).1.db
    go (err e, c1) same kept = kept
    go (ok current, c1) same kept =
        update_from-Each IsConsistent id now new_id edit interval_changed current
          (λ row _ _. set_edited-IsConsistent now edit interval_changed current row (
            get_endpoint-row IsConsistent now (λ row _. set_expired-IsConsistent now row) id c c1
              current h same))
          c1 kept

-- CreateEndpoint and UpdateEndpoint keep the endpoints consistent, whichever of their statements fail: an
-- inactive row has no next run and no deadline, an active one has a next run and another state than
-- deactivated.
pub edit-Consistent :
    (id : Text) (now : ℕ) (new_id : Text → Text) (edit : EndpointRecord) (interval_changed : Bool)
    (c : Conn)
    → Consistent c.db
    → Consistent (create_endpoint id now new_id edit c).1.db
      × Consistent (update_endpoint id now new_id edit interval_changed c).1.db
edit-Consistent id now new_id edit interval_changed c h = (
  create_endpoint-Each IsConsistent id now new_id edit (new_endpoint-IsConsistent id now edit) c h,
  update_endpoint-Consistent id now new_id edit interval_changed c h,
)
