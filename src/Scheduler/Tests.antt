-- ===== src/Scheduler/Tests.antt =====
-- The scheduler on a concrete endpoint, and the theorems at inputs that meet their hypotheses.
use w8nc.Base.{◌≡◌, ◌⊎◌, refl, arith, true, false, none, some, [], ◌∷◌, ◌++◌}
use w8nc.Base.Result.{ok}
use w8nc.Base.Text.{Text, codes, text_eq, trim_space, trim_left}
use w8nc.Base.Decimal.{digits, print_ℕ, itoa}
use w8nc.Base.Sort.{insert_by, sort_by}
use w8nc.Models.{Endpoint, EventStatus}
use w8nc.Models.Sample.{sample, response}
use w8nc.Conditions.{
  evaluate, evaluate_kind, kind_of, base_evaluation, status_code_equals, int_value,
  validate_condition, validate_kind,
}
use w8nc.Conditions.Matching.{Meets}
use w8nc.Conditions.Template.{
  span_word, token, value_of, replace, state_for_template, response_headers_string, template_values,
  render_template,
}
use w8nc.Store.{
  SettingsRow, Conn, and_then, answer, run_statement, statement, returning, execute, changing,
  query, rolled_back, commit, bracketed, transaction, update_where, find_row,
}
use w8nc.Store.Rules.{Returns}
use w8nc.Store.Record.{
  Ids, state_for_result, new_check, new_event, new_attempt, set_last, set_notified_once,
  set_checked, insert_check, insert_event, update_checked, record_ping_result,
}
use w8nc.Store.Events.{due_notification_events, mark_notification_sent, mark_notification_failed}
use w8nc.Store.Settings.{get_notification_settings}
use w8nc.Store.Consistency.{IsConsistent, Consistent}
use w8nc.Scheduler.{
  World, outcome, ping_of, process_endpoint, ping_now, deliver_all, dispatch_notifications_once,
}
use w8nc.Scheduler.Processing.{process_endpoint-Consistent, process_endpoint_notifies}

scheduler : Unit {0}
unfolding process_endpoint outcome ping_now deliver_all dispatch_notifications_once evaluate
    evaluate_kind kind_of base_evaluation status_code_equals int_value validate_condition
    validate_kind render_template replace token span_word value_of state_for_template
    response_headers_string template_values itoa print_ℕ digits insert_by sort_by text_eq trim_space
    trim_left record_ping_result insert_check insert_event update_checked set_last set_notified_once
    set_checked state_for_result new_check new_event new_attempt due_notification_events
    mark_notification_sent mark_notification_failed get_notification_settings and_then answer
    run_statement statement returning execute changing query rolled_back commit bracketed
    transaction update_where find_row
scheduler = tt

abbrev world : World
world = record {
  library = record { format_time = λ zone at. zone; valid_runes = λ body. body ∷ [] };
  quote = λ s. s;
  system_zone = codes "UTC";
}

abbrev endpoint : Endpoint
endpoint = record sample { notification_template = codes "{{status_code}}" }

abbrev row : SettingsRow
row = record {
  telegram_enabled = true;
  telegram_api_key_encrypted = none;
  telegram_chat_id = none;
  telegram_parse_mode = [];
  timezone = none;
  proxy_enabled = false;
  proxy_address = none;
  proxy_username = none;
  proxy_password_encrypted = none;
  updated_at = 1;
}

abbrev start : Conn
start = record {
  db = record {
    endpoints = endpoint ∷ [];
    endpoint_checks = [];
    notification_events = [];
    screenshot_attempts = [];
    last_seen_at = none;
    notification_settings = some row;
    users = [];
    sessions = [];
    tags = [];
    endpoint_tags = [];
  };
  faults = [];
}

abbrev ids : Ids
ids = record { check = codes "c"; event = codes "n"; attempt = codes "s" }

abbrev processed : Conn
processed = (process_endpoint world ids 130 endpoint response true false start).1

processing :
    Returns
      (process_endpoint world ids 130 endpoint response true false)
      start
      (codes "c")
      processed
unfolding scheduler
processing = refl

the_event :
    processed.db.notification_events
    ≡ record {
      id = codes "n";
      endpoint_id = codes "e";
      status = EventStatus.pending;
      message = codes "200";
      error = none;
      attempts = 0;
      created_at = 130;
      sent_at = none;
      updated_at = 130;
    }
      ∷ []
unfolding scheduler
the_event = refl

valid : validate_condition endpoint.notify_condition ≡ ok tt
unfolding scheduler
valid = refl

endpoint-IsConsistent : IsConsistent endpoint
endpoint-IsConsistent = ground arith

process_endpoint-Consistent_example : Consistent processed.db
process_endpoint-Consistent_example =
    process_endpoint-Consistent world ids 130 endpoint response true false start
      ((endpoint-IsConsistent, λ _. refl), tt)

process_endpoint_notifies_example :
    (Meets endpoint response
      × ((message : Text) × (processed.db.notification_events
            ≡ []
              ++ new_event
                  (ping_of ids 130 endpoint (outcome world endpoint response true) false message)
                ∷ [])))
    ⊎ ((¬ Meets endpoint response) × (processed.db.notification_events ≡ []))
process_endpoint_notifies_example =
    process_endpoint_notifies world ids 130 endpoint response false start processed (codes "c")
      valid refl processing
