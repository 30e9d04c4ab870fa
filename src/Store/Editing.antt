-- ===== src/Store/Editing.antt =====
-- CreateEndpoint and UpdateEndpoint of internal/db/db.go. `now` is the clock of the process and of the
-- database, `id` the id of a new endpoint. Headers and conditions go into the table as JSON and come out
-- as they were.
pub mod Keeping
mod Tests
use w8nc.Base.{
  ℕ, suc, Bool, true, false, not, ◌||◌, Option, none, some, List, [], ◌∷◌, any, if◌then◌else◌,
}
use w8nc.Base.Int.{ℤ}
use w8nc.Base.Result.{Result, ok, err}
use w8nc.Base.Text.{Text, codes, is_empty}
use w8nc.Models.{Header, ProxyConfig, Condition, Endpoint, State, Reason}
use w8nc.Models.Tags
use w8nc.Models.Tags.{TagInput, normalize_tag_inputs}
use w8nc.Store.{
  Error, failed, bad_tags, TagRow, Db, Op, ◌>>=◌, ◌>>◌, pure, fail, changing, query, transaction,
  find_row,
}
use w8nc.Store.Endpoints.{has_id, deactivate_deadline, get_endpoint, update_endpoint_row}
use w8nc.Store.Labels.{sync_endpoint_tags, tags_of}
use w8nc.Store.Settings.{string_from_null, null_string, is_set}

pub record EndpointRecord : Type 0 where
  pub name : Option Text
  pub description : Text
  pub url : Text
  pub http_method : Text
  pub headers : List Header
  pub request_body_enabled : Bool
  pub request_body : Text
  pub proxy : ProxyConfig
  pub ping_interval_seconds : ℤ
  pub deactivate_after_seconds : Option ℤ
  pub notify_condition : Condition
  pub continue_on_match : Bool
  pub notification_template : Text
  pub screenshot_on_match : Bool
  pub tags : List TagInput
  pub active : Bool

-- The columns of the proxy as scanEndpoint reads them.
abbrev pub stored_proxy : ProxyConfig → ProxyConfig
stored_proxy proxy = record {
  enabled = proxy.enabled;
  address = string_from_null (null_string proxy.address);
  username = string_from_null (null_string proxy.username);
  password = if is_set proxy.password_encrypted then codes "********" else [];
  password_encrypted = proxy.password_encrypted;
  password_set = is_set proxy.password_encrypted;
}

-- The columns that both statements take from the record.
abbrev pub with_record : EndpointRecord → Endpoint → Endpoint
with_record edit row = record row {
  name = edit.name;
  description = edit.description;
  url = edit.url;
  http_method = edit.http_method;
  headers = edit.headers;
  request_body_enabled = edit.request_body_enabled;
  request_body = edit.request_body;
  proxy = stored_proxy edit.proxy;
  ping_interval_seconds = edit.ping_interval_seconds;
  deactivate_after_seconds = edit.deactivate_after_seconds;
  notify_condition = edit.notify_condition;
  notify_once = not edit.continue_on_match;
  notification_template = edit.notification_template;
  screenshot_on_match = edit.screenshot_on_match;
  active = edit.active;
}

-- `nextRun` and `deactivateAt` of CreateEndpoint.
abbrev pub if_active : {A : Type 0} → Bool → Option A → Option A
if_active true value = value
if_active false value = none

abbrev pub initial_state : Bool → State
initial_state true = State.unknown
initial_state false = State.deactivated

-- The row that the INSERT adds, with the defaults of the other columns.
unfoldable pub new_endpoint : Text → ℕ → EndpointRecord → Endpoint
new_endpoint id now edit = record {
  id = id;
  name = edit.name;
  description = edit.description;
  url = edit.url;
  http_method = edit.http_method;
  headers = edit.headers;
  request_body_enabled = edit.request_body_enabled;
  request_body = edit.request_body;
  proxy = stored_proxy edit.proxy;
  ping_interval_seconds = edit.ping_interval_seconds;
  deactivate_after_seconds = edit.deactivate_after_seconds;
  notify_condition = edit.notify_condition;
  notify_once = not edit.continue_on_match;
  notification_template = edit.notification_template;
  screenshot_on_match = edit.screenshot_on_match;
  active = edit.active;
  state = initial_state edit.active;
  created_at = now;
  updated_at = now;
  last_checked_at = none;
  next_run_at = if_active edit.active (some now);
  deactivate_at = if_active edit.active (deactivate_deadline now edit.deactivate_after_seconds);
  last_status_code = none;
  last_response_length = none;
  last_error = none;
  last_duration_ms = none;
  baseline_status_code = none;
  baseline_response_length = none;
  notified_at = none;
  deactivated_reason = none;
  locked_until = none;
  version = 1;
}

-- INSERT INTO endpoints ... RETURNING id; the id is the primary key.
unfoldable pub insert_endpoint : Text → ℕ → EndpointRecord → Op Text
insert_endpoint id now edit =
    changing (λ db. if any (has_id id) db.endpoints then err failed else ok id)
      (λ db. record db { endpoints = new_endpoint id now edit ∷ db.endpoints })

abbrev pub with_tags : Db → Result Error Endpoint → Result Error (Endpoint × List TagRow)
with_tags db (ok row) = ok (row, tags_of row.id db)
with_tags db (err e) = err e

-- SELECT endpointColumns FROM endpoints WHERE id=$1
unfoldable pub select_endpoint : Text → Op (Endpoint × List TagRow)
select_endpoint id = query (λ db. with_tags db (find_row (has_id id) db.endpoints))

-- The statements of both behind the first one.
unfoldable pub sync_and_select :
    ℕ → (Text → Text) → List TagInput → Text → Op (Endpoint × List TagRow)
sync_and_select now new_id tags id = sync_endpoint_tags now new_id id tags >> select_endpoint id

-- `NormalizeTagInputs` in an operation.
abbrev pub normalized : Result Tags.Error (List TagInput) → Op (List TagInput)
normalized (ok tags) = pure tags
normalized (err e) = fail (bad_tags e)

-- CreateEndpoint
unfoldable pub create_endpoint :
    Text → ℕ → (Text → Text) → EndpointRecord → Op (Endpoint × List TagRow)
create_endpoint id now new_id edit = do
  tags ← normalized (normalize_tag_inputs edit.tags)
  transaction (insert_endpoint id now edit >>= sync_and_select now new_id tags)

-- `nextRun` of UpdateEndpoint for a record that is active.
abbrev pub next_run : ℕ → Bool → Endpoint → Option ℕ
next_run now interval_changed current =
    if not current.active || interval_changed then some now else current.next_run_at

abbrev pub next_state : Bool → Endpoint → State
next_state false current = State.deactivated
next_state true current = if current.active then current.state else State.unknown

abbrev pub next_reason : Bool → Endpoint → Option Reason
next_reason false current = some Reason.manual
next_reason true current = if current.active then current.deactivated_reason else none

abbrev pub next_notified : Bool → Endpoint → Option ℕ
next_notified false current = current.notified_at
next_notified true current = if current.active then current.notified_at else none

-- The row that the UPDATE leaves; `current` is the copy that was read before.
unfoldable pub set_edited : ℕ → EndpointRecord → Bool → Endpoint → Endpoint → Endpoint
set_edited now edit interval_changed current row = record (with_record edit row) {
  state = next_state edit.active current;
  next_run_at = if_active edit.active (next_run now interval_changed current);
  deactivate_at = if_active edit.active (deactivate_deadline now edit.deactivate_after_seconds);
  deactivated_reason = next_reason edit.active current;
  notified_at = next_notified edit.active current;
  updated_at = now;
  version = suc row.version;
  locked_until = none;
}

-- The part of UpdateEndpoint behind the read of the current row.
unfoldable pub update_from :
    Text → ℕ → (Text → Text) → EndpointRecord → Bool → Endpoint → Op (Endpoint × List TagRow)
update_from id now new_id edit interval_changed current = do
  tags ← normalized (normalize_tag_inputs edit.tags)
  transaction (
      update_endpoint_row id (set_edited now edit interval_changed current)
      >>= sync_and_select now new_id tags)

-- UpdateEndpoint
unfoldable pub update_endpoint :
    Text → ℕ → (Text → Text) → EndpointRecord → Bool → Op (Endpoint × List TagRow)
update_endpoint id now new_id edit interval_changed = do
  current ← get_endpoint now id
  update_from id now new_id edit interval_changed current
