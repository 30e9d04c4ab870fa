-- ===== src/Store/Labels.antt =====
-- The tables of tags of internal/db/db.go: ListTags, DeleteTag and syncEndpointTags. `new_id` is the id that
-- the database gives to a new tag of a name.
use w8nc.Base.{ℕ, Bool, true, false, not, ◌&&◌, List, [], ◌∷◌, any, filter, map, if◌then◌else◌}
use w8nc.Base.Result.{Result, ok, err}
use w8nc.Base.Sort.{sort_by}
use w8nc.Base.Text.{Text, text_eq, text_leb}
use w8nc.Models.{Tag}
use w8nc.Models.Tags.{TagInput}
use w8nc.Store.{
  Error, failed, TagRow, EndpointTag, Db, Op, ◌>>=◌, ◌>>◌, pure, changing, execute, query,
  update_where, count_where, find_row,
}
use w8nc.Store.Endpoints.{affected}

abbrev pub tag_id : Text → TagRow → Bool
tag_id id row = text_eq row.id id

abbrev pub tag_named : Text → TagRow → Bool
tag_named name row = text_eq row.name name

-- ORDER BY name ASC
abbrev pub name_before : TagRow → TagRow → Bool
name_before a b = text_leb a.name b.name

abbrev pub tags_it : Text → EndpointTag → Bool
tags_it id link = text_eq link.tag_id id

-- A row of the LEFT JOIN, grouped by the tag.
abbrev pub counted : List EndpointTag → TagRow → Tag
counted links row = record {
  id = row.id;
  name = row.name;
  color = row.color;
  endpoint_count = count_where (tags_it row.id) links;
  created_at = row.created_at;
  updated_at = row.updated_at;
}

-- ListTags
unfoldable pub list_tags : Op (List Tag)
list_tags = query (λ db. ok (map (counted db.endpoint_tags) (sort_by name_before db.tags)))

-- DELETE FROM tags: the links go with the tag (ON DELETE CASCADE).
unfoldable pub remove_tag : Text → Db → Db
remove_tag id db = record db {
  tags = filter (λ row. not (tag_id id row)) db.tags;
  endpoint_tags = filter (λ link. not (tags_it id link)) db.endpoint_tags;
}

-- DeleteTag
unfoldable pub delete_tag : Text → Op (Unit {0})
delete_tag id = changing (λ db. affected (find_row (tag_id id) db.tags)) (remove_tag id)

abbrev pub is_of : Text → EndpointTag → Bool
is_of endpoint_id link = text_eq link.endpoint_id endpoint_id

-- DELETE FROM endpoint_tags WHERE endpoint_id=$1
abbrev pub unlink_all : Text → Db → Db
unlink_all endpoint_id db = record db {
  endpoint_tags = filter (λ link. not (is_of endpoint_id link)) db.endpoint_tags;
}

abbrev pub recolored : ℕ → Text → TagRow → TagRow
recolored now color row = record row { color = color; updated_at = now }

abbrev pub new_tag : Text → ℕ → TagInput → TagRow
new_tag id now tag = record {
  id = id;
  name = tag.name;
  color = tag.color;
  created_at = now;
  updated_at = now;
}

-- RETURNING id: that of the tag of this name, or the new one unless it is taken.
abbrev pub returned_id : Bool → Text → Result Error TagRow → Result Error Text
returned_id taken id (ok row) = ok row.id
returned_id true id (err e) = err failed
returned_id false id (err e) = ok id

-- ON CONFLICT (name) DO UPDATE
abbrev pub stored_tags : ℕ → Text → TagInput → List TagRow → List TagRow
stored_tags now id tag rows =
    if any (tag_named tag.name) rows
    then update_where (tag_named tag.name) (recolored now tag.color) rows
    else new_tag id now tag ∷ rows

-- INSERT INTO tags ... RETURNING id
unfoldable pub upsert_tag : ℕ → (Text → Text) → TagInput → Op Text
upsert_tag now new_id tag =
    let id = new_id tag.name in
    changing
      (λ db. returned_id (any (tag_id id) db.tags) id (find_row (tag_named tag.name) db.tags))
      (λ db. record db { tags = stored_tags now id tag db.tags })

abbrev pub is_link : Text → Text → EndpointTag → Bool
is_link endpoint_id id link = is_of endpoint_id link && tags_it id link

-- INSERT INTO endpoint_tags ... ON CONFLICT DO NOTHING
unfoldable pub link_tag : Text → Text → Op (Unit {0})
link_tag endpoint_id id = execute λ db. record db {
  endpoint_tags =
      if any (is_link endpoint_id id) db.endpoint_tags
      then db.endpoint_tags
      else record { endpoint_id = endpoint_id; tag_id = id } ∷ db.endpoint_tags;
}

-- One round of the loop.
unfoldable pub sync_tag : ℕ → (Text → Text) → Text → TagInput → Op (Unit {0})
sync_tag now new_id endpoint_id tag = do id ← upsert_tag now new_id tag; link_tag endpoint_id id

unfoldable pub sync_each : ℕ → (Text → Text) → Text → List TagInput → Op (Unit {0})
sync_each now new_id endpoint_id [] = pure tt
sync_each now new_id endpoint_id (tag ∷ tags) =
    sync_tag now new_id endpoint_id tag >> sync_each now new_id endpoint_id tags

-- syncEndpointTags
unfoldable pub sync_endpoint_tags : ℕ → (Text → Text) → Text → List TagInput → Op (Unit {0})
sync_endpoint_tags now new_id endpoint_id tags =
    execute (unlink_all endpoint_id) >> sync_each now new_id endpoint_id tags

-- The tags of an endpoint that `endpointColumns` selects.
unfoldable pub tags_of : Text → Db → List TagRow
tags_of endpoint_id db =
    sort_by name_before (filter (λ row. any (is_link endpoint_id row.id) db.endpoint_tags) db.tags)
