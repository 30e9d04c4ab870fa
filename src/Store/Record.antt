-- ===== src/Store/Record.antt =====
-- RecordPingResult of internal/db/db.go.
use w8nc.Base.{
  ℕ, suc, Bool, true, false, ◌&&◌, ◌||◌, Option, none, some, [], ◌∷◌, ◌++◌, leb, if◌then◌else◌,
}
use w8nc.Base.Result.{Result, ok, err}
use w8nc.Base.Text.{Text, text_eq}
use w8nc.Models.{
  Endpoint, State, Reason, PingResult, EndpointCheck, NotificationEvent, EventStatus,
  ScreenshotAttempt, AttemptStatus,
}
use w8nc.Store.{
  Error, failed, Op, ◌>>◌, pure, when, changing, execute, transaction, update_where, find_row,
}
use w8nc.Store.Endpoints.{has_id}

-- StateForResult
unfoldable pub state_for_result : Bool → PingResult → State
state_for_result false result = State.deactivated
state_for_result true result = elim result.status_code [
  | none ↦ State.offline
  | some code ↦ if leb 100 code && leb code 399 then State.live else State.warning
]

-- The ids that the database generates for the rows that are inserted.
pub record Ids : Type 0 where
  pub check : Text
  pub event : Text
  pub attempt : Text

-- The arguments of RecordPingResult; `now` is the clock of the database.
pub record Ping : Type 0 where
  pub ids : Ids
  pub now : ℕ
  pub endpoint : Endpoint
  pub result : PingResult
  pub condition_matched : Bool
  pub message : Text
  pub next_run : Option ℕ
  pub baseline_status : Option ℕ
  pub baseline_length : Option ℕ
  pub manual : Bool

unfoldable pub new_check : Ping → EndpointCheck
new_check p = record {
  id = p.ids.check;
  endpoint_id = p.endpoint.id;
  started_at = p.result.started_at;
  finished_at = p.result.finished_at;
  status_code = p.result.status_code;
  response_length = p.result.response_length;
  duration_ms = p.result.duration_ms;
  error = p.result.error;
  truncated = p.result.truncated;
  condition_matched = p.condition_matched;
  notification_event_id = none;
  created_at = p.now;
}

-- The check of a foreign key.
abbrev pub referenced : {A : Type 0} → Result Error A → Result Error (Unit {0})
referenced (ok a) = ok tt
referenced (err e) = err failed

-- INSERT INTO endpoint_checks, which fails if the endpoint is gone (its foreign key).
unfoldable pub insert_check : Ping → Op (Unit {0})
insert_check p =
    changing (λ db. referenced (find_row (has_id p.endpoint.id) db.endpoints))
      (λ db. record db { endpoint_checks = db.endpoint_checks ++ new_check p ∷ [] })

unfoldable pub new_event : Ping → NotificationEvent
new_event p = record {
  id = p.ids.event;
  endpoint_id = p.endpoint.id;
  status = EventStatus.pending;
  message = p.message;
  error = none;
  attempts = 0;
  created_at = p.now;
  sent_at = none;
  updated_at = p.now;
}

unfoldable pub new_attempt : Ping → ScreenshotAttempt
new_attempt p = record {
  id = p.ids.attempt;
  endpoint_id = p.endpoint.id;
  endpoint_check_id = p.ids.check;
  notification_event_id = some p.ids.event;
  status = AttemptStatus.pending;
  error = none;
  image_path = none;
  image_content_type = none;
  image_size_bytes = none;
  capture_started_at = none;
  capture_finished_at = none;
  telegram_sent_at = none;
  created_at = p.now;
  updated_at = p.now;
}

abbrev pub link_event : Text → EndpointCheck → EndpointCheck
link_event event row = record row { notification_event_id = some event }

-- The event, its link from the check, and the screenshot if the endpoint wants one.
unfoldable pub insert_event : Ping → Op (Unit {0})
insert_event p = do
  execute (λ db. record db { notification_events = db.notification_events ++ new_event p ∷ [] })
  execute (λ db. record db {
    endpoint_checks =
        update_where (λ row. text_eq row.id p.ids.check) (link_event p.ids.event)
          db.endpoint_checks;
  })
  when p.endpoint.screenshot_on_match (
      execute
        (λ db. record db { screenshot_attempts = db.screenshot_attempts ++ new_attempt p ∷ [] }))

-- The columns that both UPDATE statements set alike.
unfoldable pub set_last : Ping → Endpoint → Endpoint
set_last p row = record row {
  last_checked_at = some p.result.finished_at;
  last_status_code = p.result.status_code;
  last_response_length = p.result.response_length;
  last_error = p.result.error;
  last_duration_ms = some p.result.duration_ms;
  baseline_status_code = p.baseline_status;
  baseline_response_length = p.baseline_length;
  locked_until = none;
  updated_at = p.now;
  version = suc row.version;
}

-- The UPDATE for a match of an endpoint that notifies once.
unfoldable pub set_notified_once : Ping → Endpoint → Endpoint
unfolding set_last
set_notified_once p row = record (set_last p row) {
  active = false;
  state = State.deactivated;
  next_run_at = none;
  deactivate_at = none;
  notified_at = some p.now;
  deactivated_reason = some Reason.notify_once_condition_matched;
}

-- `state`, as it stands at the second UPDATE.
abbrev pub next_state : Ping → State
next_state p =
    if p.endpoint.active || p.manual
    then state_for_result (p.endpoint.active || p.manual) p.result
    else State.deactivated

-- `nextRun`, as it stands at the second UPDATE.
abbrev pub next_run_of : Ping → Option ℕ
next_run_of p = if p.endpoint.active then p.next_run else none

unfoldable pub set_checked : Ping → Endpoint → Endpoint
unfolding set_last state_for_result
set_checked p row = record (set_last p row) {
  state = next_state p;
  next_run_at = next_run_of p;
  notified_at = if p.condition_matched && p.endpoint.active then some p.now else row.notified_at;
}

abbrev pub is_final : Ping → Bool
is_final p = p.condition_matched && p.endpoint.active && p.endpoint.notify_once

-- The UPDATE of the endpoint; it may affect no row.
unfoldable pub update_checked : Ping → Op (Unit {0})
update_checked p = execute (λ db. record db {
  endpoints =
      update_where (has_id p.endpoint.id)
        (if is_final p then set_notified_once p else set_checked p) db.endpoints;
})

unfoldable pub record_ping_result : Ping → Op Text
record_ping_result p = transaction (do
  insert_check p
  when (p.condition_matched && p.endpoint.active) (insert_event p)
  update_checked p
  pure p.ids.check)
