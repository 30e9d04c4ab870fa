-- ===== src/Scheduler.antt =====
-- internal/scheduler/scheduler.go: the processing of one endpoint, and the dispatch of notifications.
pub mod Processing
mod Tests
use w8nc.Base.{
  ℕ, suc, ◌+◌, ◌-◌, Bool, true, false, not, ◌&&◌, ◌||◌, Option, none, some, List, [], ◌∷◌, ◌++◌,
  if◌then◌else◌,
}
use w8nc.Base.Int.{ℤ, pos, negsuc, mul_int64}
use w8nc.Base.Result.{ok}
use w8nc.Base.Text.{Text, codes}
use w8nc.Models.{Endpoint, PingResult, NotificationEvent, NotificationSettings}
use w8nc.Conditions.{
  Evaluation, Error, missing_value, not_a_string, not_an_integer, unsupported_type, evaluate,
  or_else, unless_truncated,
}
use w8nc.Conditions.Template.{Library, render_template}
use w8nc.Store.{Op, ◌>>=◌, ◌>>◌, pure}
use w8nc.Store.Record.{Ids, Ping, record_ping_result}
use w8nc.Store.Events.{due_notification_events, mark_notification_sent, mark_notification_failed}
use w8nc.Store.Settings.{get_notification_settings}

-- What the service uses from outside: the parts of the Go library that a template needs, `%q` of
-- package fmt, and the name of the system's time zone.
pub record World : Type 0 where
  pub library : Library
  pub quote : Text → Text
  pub system_zone : Text

-- The texts of the errors of Evaluate.
abbrev pub error_text : World → Error → Text
error_text world missing_value = codes "missing value"
error_text world not_a_string = codes "value must be a string"
error_text world not_an_integer = codes "value must be an integer"
error_text world (unsupported_type type) = codes "unsupported condition type " ++ world.quote type

-- The variables `result`, `evaluation` and `conditionMatched` behind the evaluation.
pub record Outcome : Type 0 where
  pub result : PingResult
  pub evaluation : Evaluation
  pub matched : Bool

abbrev pub initial_evaluation : Endpoint → Evaluation
initial_evaluation endpoint = record {
  matched = false;
  condition_type = endpoint.notify_condition.type;
  condition_value = [];
  baseline_status = endpoint.baseline_status_code;
  baseline_length = endpoint.baseline_response_length;
}

-- With an error the evaluation stays the initial one, and the error becomes that of the result.
abbrev pub evaluated : World → Endpoint → PingResult → Evaluation × Option Error → Outcome
evaluated world endpoint result (next, none) = record {
  result = result;
  evaluation = next;
  matched = next.matched;
}
evaluated world endpoint result (next, some e) = record {
  result = record result { error = some (error_text world e) };
  evaluation = initial_evaluation endpoint;
  matched = false;
}

unfoldable pub outcome : World → Endpoint → PingResult → Bool → Outcome
unfolding evaluate
outcome world endpoint result true = evaluated world endpoint result (evaluate endpoint result)
outcome world endpoint result false = record {
  result = result;
  evaluation = record (initial_evaluation endpoint) {
    baseline_status = or_else result.status_code endpoint.baseline_status_code;
    baseline_length =
        or_else (unless_truncated result.truncated result.response_length)
          endpoint.baseline_response_length;
  };
  matched = false;
}

-- `at.Add(d)`, for times from the epoch on.
abbrev pub add_duration : ℕ → ℤ → ℕ
add_duration at (pos d) = at + d
add_duration at (negsuc d) = at - suc d

-- `nextRun`; the interval in `time.Duration` wraps.
abbrev pub next_run : Endpoint → Outcome → Option ℕ
next_run endpoint o =
    if endpoint.active && (not o.matched || not endpoint.notify_once)
    then some
        (add_duration o.result.finished_at (mul_int64 endpoint.ping_interval_seconds 1000000000))
    else none

-- `message`
abbrev pub message_for : World → Endpoint → Outcome → Bool → Op Text
message_for world endpoint o true = do
  settings ← get_notification_settings world.system_zone
  pure (
      render_template world.library endpoint.notification_template endpoint o.result o.evaluation
        settings.timezone)
message_for world endpoint o false = pure []

-- The arguments of RecordPingResult.
abbrev pub ping_of : Ids → ℕ → Endpoint → Outcome → Bool → Text → Ping
ping_of ids now endpoint o manual message = record {
  ids = ids;
  now = now;
  endpoint = endpoint;
  result = o.result;
  condition_matched = o.matched;
  message = message;
  next_run = next_run endpoint o;
  baseline_status = o.evaluation.baseline_status;
  baseline_length = o.evaluation.baseline_length;
  manual = manual;
}

abbrev pub process_outcome : World → Ids → ℕ → Endpoint → Outcome → Bool → Op Text
process_outcome world ids now endpoint o manual = do
  message ← message_for world endpoint o o.matched
  record_ping_result (ping_of ids now endpoint o manual message)

-- processEndpoint, behind the ping with this result.
unfoldable pub process_endpoint : World → Ids → ℕ → Endpoint → PingResult → Bool → Bool → Op Text
process_endpoint world ids now endpoint result evaluate manual =
    process_outcome world ids now endpoint (outcome world endpoint result evaluate) manual

-- `_ = op`, or an error that is only logged.
abbrev pub ignoring : {A : Type 0} → Op A → Op (Unit {0})
ignoring op c = (ok tt, (op c).1)

-- PingNow
unfoldable pub ping_now : World → Ids → ℕ → Endpoint → PingResult → Op (Unit {0})
ping_now world ids now endpoint result = do
  _ ← process_endpoint world ids now endpoint result endpoint.active true
  pure tt

-- The outcome of Notifier.Send for the event with this id: an error or none.
abbrev pub Send : Type 0
Send = Text → NotificationSettings → Text → Option Text

abbrev pub mark_delivery : ℕ → Text → Option Text → Op (Unit {0})
mark_delivery now id none = mark_notification_sent now id
mark_delivery now id (some e) = mark_notification_failed now id e

-- The loop of DispatchNotificationsOnce; a delivery that cannot be marked is logged.
unfoldable pub deliver_all :
    Send → ℕ → NotificationSettings → List NotificationEvent → Op (Unit {0})
deliver_all send now settings [] = pure tt
deliver_all send now settings (event ∷ events) =
    ignoring (mark_delivery now event.id (send event.id settings event.message))
    >> deliver_all send now settings events

-- DispatchNotificationsOnce
unfoldable pub dispatch_notifications_once : World → Send → ℕ → Op (Unit {0})
dispatch_notifications_once world send now = do
  settings ← get_notification_settings world.system_zone
  events ← due_notification_events now 20
  deliver_all send now settings events
