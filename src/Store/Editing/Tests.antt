-- ===== src/Store/Editing/Tests.antt =====
-- Creating and changing endpoints on concrete tables, and the theorem at an input that meets its
-- hypothesis.
use w8nc.Base.{ℕ, ◌≡◌, refl, true, false, Option, none, some, [], ◌∷◌, length, arith, map}
use w8nc.Base.Int.{pos}
use w8nc.Base.Result.{err}
use w8nc.Base.Sort.{insert_by, sort_by}
use w8nc.Base.Text.{Text, codes, text_eq, trim_left, trim_space}
use w8nc.Models.{State, deactivated}
use w8nc.Models.Sample.{sample, no_proxy, equals_200}
use w8nc.Models.Tags
use w8nc.Models.Tags.{
  is_ascii_alnum, is_tag_name_char, tag_color_allowed, check_chars, check_name, normalize_tag_name,
  normalize_color, seen_name, add_tag, normalize_from, normalize_tag_inputs,
}
use w8nc.Store.{
  bad_tags, no_rows, Conn, and_then, answer, run_statement, statement, returning, execute, changing,
  query, rolled_back, commit, bracketed, transaction, update_where, count_where, find_row,
}
use w8nc.Store.Endpoints.{
  set_expired, deactivate_expired_endpoints, get_endpoint, update_endpoint_row, remove_endpoint,
  delete_endpoint,
}
use w8nc.Store.Labels.{
  remove_tag, delete_tag, list_tags, upsert_tag, link_tag, sync_tag, sync_each, sync_endpoint_tags,
  tags_of,
}
use w8nc.Store.Consistency.{Consistent}
use w8nc.Store.Editing.{
  EndpointRecord, new_endpoint, insert_endpoint, select_endpoint, sync_and_select, create_endpoint,
  set_edited, update_from, update_endpoint,
}
use w8nc.Store.Editing.Keeping.{edit-Consistent}

edits : Unit {0}
unfolding insert_by sort_by text_eq trim_left trim_space is_ascii_alnum is_tag_name_char
    tag_color_allowed check_chars check_name normalize_tag_name normalize_color seen_name add_tag
    normalize_from normalize_tag_inputs and_then answer run_statement statement returning execute
    changing query rolled_back commit bracketed transaction update_where count_where find_row
    set_expired deactivate_expired_endpoints get_endpoint update_endpoint_row remove_endpoint
    delete_endpoint remove_tag delete_tag list_tags upsert_tag link_tag sync_tag sync_each
    sync_endpoint_tags tags_of new_endpoint insert_endpoint select_endpoint sync_and_select
    create_endpoint set_edited update_from update_endpoint
edits = tt

abbrev start : Conn
start = record {
  db = record {
    endpoints = sample ∷ [];
    endpoint_checks = [];
    notification_events = [];
    screenshot_attempts = [];
    last_seen_at = none;
    notification_settings = none;
    users = [];
    sessions = [];
    tags = [];
    endpoint_tags = [];
  };
  faults = [];
}

abbrev edit : EndpointRecord
edit = record {
  name = none;
  description = [];
  url = codes "https://c.d";
  http_method = codes "GET";
  headers = [];
  request_body_enabled = false;
  request_body = [];
  proxy = no_proxy;
  ping_interval_seconds = pos 60;
  deactivate_after_seconds = some (pos 3600);
  notify_condition = equals_200;
  continue_on_match = true;
  notification_template = [];
  screenshot_on_match = false;
  tags =
      record { name = codes "Web"; color = codes "blue" }
      ∷ record { name = codes "api"; color = [] }
      ∷ record { name = codes "web "; color = codes "rose" }
      ∷ [];
  active = true;
}

abbrev new_id : Text → Text
new_id name = name

abbrev created : Conn
created = (create_endpoint (codes "f") 200 new_id edit start).1

-- Two tags, in the order of their names; the second spelling of one of them is skipped.
tags_created :
    (map (λ row. row.name) (tags_of (codes "f") created.db) ≡ codes "api" ∷ codes "web" ∷ [])
    × (length created.db.endpoint_tags ≡ 2)
unfolding edits
tags_created = (refl, refl)

tags_gone : length (delete_endpoint (codes "f") created).1.db.endpoint_tags ≡ 0
unfolding edits
tags_gone = refl

tag_gone : length (delete_tag (codes "web") created).1.db.endpoint_tags ≡ 1
unfolding edits
tag_gone = refl

bad_tag :
    (create_endpoint
      (codes "f")
      200
      new_id
      (record edit { tags = record { name = codes "!"; color = [] } ∷ [] })
      start).0
    ≡ err (bad_tags Tags.Error.bad_character)
unfolding edits
bad_tag = refl

-- A fault behind the INSERT: nothing stays.
undone :
    (create_endpoint
      (codes "f")
      200
      new_id
      edit
      (record start { faults = false ∷ false ∷ true ∷ [] })).1.db
    ≡ start.db
unfolding edits
undone = refl

missing : (update_endpoint (codes "g") 200 new_id edit false start).0 ≡ err no_rows
unfolding edits
missing = refl

abbrev switched_off : EndpointRecord
switched_off = record edit { active = false; tags = [] }

abbrev updated : Conn
updated = (update_endpoint (codes "e") 300 new_id switched_off false start).1

row_updated :
    map {B = ℕ × Option ℕ × State}
      (λ row. (row.version, row.next_run_at, row.state))
      updated.db.endpoints
    ≡ (2, none, deactivated) ∷ []
unfolding edits
row_updated = refl

consistent : Consistent start.db
consistent = (ground arith, tt)

edit-Consistent_example :
    Consistent (create_endpoint (codes "e") 300 new_id switched_off start).1.db
    × Consistent (update_endpoint (codes "e") 300 new_id switched_off false start).1.db
edit-Consistent_example = edit-Consistent (codes "e") 300 new_id switched_off false start consistent
