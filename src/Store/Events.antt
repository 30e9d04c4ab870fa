-- ===== src/Store/Events.antt =====
-- The notification events of internal/db/db.go: what is due, and what becomes of a delivery.
pub mod Retry
mod Tests
use w8nc.Base.{
  ℕ, suc, ◌+◌, ◌*◌, ◌^◌, Bool, true, false, ◌&&◌, ◌||◌, none, some, List, [], ◌∷◌, ◌++◌, ltb, leb,
  if◌then◌else◌, filter, take,
}
use w8nc.Base.Result.{Result, ok, err}
use w8nc.Base.Sort.{sort_by}
use w8nc.Base.Text.{Text, text_eq}
use w8nc.Models.{Endpoint, NotificationEvent, EventStatus}
use w8nc.Store.{Error, failed, Db, Op, execute, query, changing, update_where, find_row}
use w8nc.Store.Endpoints.{nanoseconds, has_id}

abbrev pub event_id : Text → NotificationEvent → Bool
event_id id row = text_eq row.id id

-- LEAST(300, POWER(2, attempts)::int * 10), in seconds
abbrev pub retry_delay : ℕ → ℕ
retry_delay attempts = let delay = 2 ^ attempts * 10 in if leb delay 300 then delay else 300

-- `status='failed' AND attempts < 5 AND updated_at < now() - the delay`, or pending.
abbrev pub status_due : EventStatus → ℕ → NotificationEvent → Bool
status_due EventStatus.pending now row = true
status_due EventStatus.failed now row =
    ltb row.attempts 5 && ltb (row.updated_at + nanoseconds (retry_delay row.attempts)) now
status_due EventStatus.sent now row = false

abbrev pub is_event_due : ℕ → NotificationEvent → Bool
is_event_due now row = status_due row.status now row

-- ORDER BY created_at ASC
abbrev pub created_before : NotificationEvent → NotificationEvent → Bool
created_before a b = leb a.created_at b.created_at

-- DueNotificationEvents
unfoldable pub due_notification_events : ℕ → ℕ → Op (List NotificationEvent)
due_notification_events now limit = query (λ db.
    ok (take limit (sort_by created_before (filter (is_event_due now) db.notification_events))))

abbrev pub set_sent : ℕ → NotificationEvent → NotificationEvent
set_sent now row = record row {
  status = EventStatus.sent;
  sent_at = some now;
  error = none;
  updated_at = now;
}

-- MarkNotificationSent
unfoldable pub mark_notification_sent : ℕ → Text → Op (Unit {0})
mark_notification_sent now id = execute (λ db. record db {
  notification_events = update_where (event_id id) (set_sent now) db.notification_events;
})

abbrev pub set_failed : ℕ → Text → NotificationEvent → NotificationEvent
set_failed now message row = record row {
  status = EventStatus.failed;
  attempts = suc row.attempts;
  error = some message;
  updated_at = now;
}

-- MarkNotificationFailed
unfoldable pub mark_notification_failed : ℕ → Text → Text → Op (Unit {0})
mark_notification_failed now id message = execute (λ db. record db {
  notification_events = update_where (event_id id) (set_failed now message) db.notification_events;
})

abbrev pub created_for : Text → Result Error Endpoint → Result Error Text
created_for id (ok endpoint) = ok id
created_for id (err e) = err failed

abbrev pub created_event : ℕ → Text → Text → Text → NotificationEvent
created_event now id endpoint_id message = record {
  id = id;
  endpoint_id = endpoint_id;
  status = EventStatus.pending;
  message = message;
  error = none;
  attempts = 0;
  created_at = now;
  sent_at = none;
  updated_at = now;
}

-- CreateNotificationEvent, which fails if the endpoint is gone (its foreign key).
unfoldable pub create_notification_event : ℕ → Text → Text → Text → Op Text
create_notification_event now id endpoint_id message =
    changing (λ db. created_for id (find_row (has_id endpoint_id) db.endpoints))
      (λ db. record db {
        notification_events =
            db.notification_events ++ created_event now id endpoint_id message ∷ [];
      })
