-- ===== src/Store/Screenshots.antt =====
-- The screenshot attempts of internal/db/db.go: the statements that move an attempt from one status
-- to another.
pub mod Lifecycle
mod Tests
use w8nc.Base.{
  ℕ, zero, suc, ◌+◌, Bool, true, false, not, ◌&&◌, Option, none, some, List, [], ◌∷◌, ltb, leb,
  ◌==◌, if◌then◌else◌, filter, take, any,
}
use w8nc.Base.Result.{Result, ok, err}
use w8nc.Base.Sort.{sort_by}
use w8nc.Base.Text.{Text, codes, text_eq, is_empty}
use w8nc.Models.{ScreenshotAttempt, AttemptStatus, NotificationEvent, EventStatus}
use w8nc.Store.{
  Error, no_rows, invalid_state, Db, Op, ◌>>=◌, ◌>>◌, fail, pure, execute, query, returning,
  changing, update_where, count_where, find_row,
}

abbrev pub attempt_id : Text → ScreenshotAttempt → Bool
attempt_id id row = text_eq row.id id

abbrev pub is_pending : AttemptStatus → Bool
is_pending AttemptStatus.pending = true
is_pending _ = false

abbrev pub is_failed : AttemptStatus → Bool
is_failed AttemptStatus.failed = true
is_failed _ = false

abbrev pub is_sent : EventStatus → Bool
is_sent EventStatus.sent = true
is_sent _ = false

-- The JOIN with the event: there is one, and it is sent.
abbrev pub event_sent : List NotificationEvent → Option Text → Bool
event_sent events none = false
event_sent events (some id) = any (λ event. text_eq event.id id && is_sent event.status) events

abbrev pub is_attempt_due : List NotificationEvent → ScreenshotAttempt → Bool
is_attempt_due events row = is_pending row.status && event_sent events row.notification_event_id

-- ORDER BY created_at ASC
abbrev pub created_before : ScreenshotAttempt → ScreenshotAttempt → Bool
created_before a b = leb a.created_at b.created_at

-- DueScreenshotAttempts
unfoldable pub due_screenshot_attempts : ℕ → Op (List ScreenshotAttempt)
due_screenshot_attempts limit = query (λ db. ok (
    take (if limit == 0 then 1 else limit) (
      sort_by created_before
        (filter (is_attempt_due db.notification_events) db.screenshot_attempts))))

abbrev pub can_claim : Text → ScreenshotAttempt → Bool
can_claim id row = attempt_id id row && is_pending row.status

abbrev pub set_capturing : ℕ → ScreenshotAttempt → ScreenshotAttempt
set_capturing now row = record row {
  status = AttemptStatus.capturing;
  capture_started_at = some now;
  error = none;
  updated_at = now;
}

-- MarkScreenshotCapturing: whether the attempt was claimed.
unfoldable pub mark_screenshot_capturing : ℕ → Text → Op Bool
mark_screenshot_capturing now id =
    returning (λ db. ltb 0 (count_where (can_claim id) db.screenshot_attempts))
      (λ db. record db {
        screenshot_attempts =
            update_where (can_claim id) (set_capturing now) db.screenshot_attempts;
      })

-- COALESCE(column, value)
abbrev pub coalesce {ℓ} : {A : Type ℓ} → Option A → A → Option A
coalesce none a = some a
coalesce (some b) a = some b

abbrev pub set_succeeded : ℕ → Text → Text → ℕ → ScreenshotAttempt → ScreenshotAttempt
set_succeeded now path content_type size row = record row {
  status = AttemptStatus.succeeded;
  image_path = some path;
  image_content_type = some content_type;
  image_size_bytes = some size;
  capture_finished_at = coalesce row.capture_finished_at now;
  telegram_sent_at = some now;
  error = none;
  updated_at = now;
}

-- MarkScreenshotSucceeded
unfoldable pub mark_screenshot_succeeded : ℕ → Text → Text → Text → ℕ → Op (Unit {0})
mark_screenshot_succeeded now id path content_type size = execute (λ db. record db {
  screenshot_attempts =
      update_where (attempt_id id) (set_succeeded now path content_type size)
        db.screenshot_attempts;
})

-- COALESCE(NULLIF(value, ''), column)
abbrev pub unless_empty : Text → Option Text → Option Text
unless_empty value old = if is_empty value then old else some value

abbrev pub set_attempt_failed : ℕ → Text → Text → ℕ → Text → ScreenshotAttempt → ScreenshotAttempt
set_attempt_failed now path content_type size message row = record row {
  status = AttemptStatus.failed;
  image_path = unless_empty path row.image_path;
  image_content_type = unless_empty content_type row.image_content_type;
  image_size_bytes = if ltb 0 size then some size else row.image_size_bytes;
  capture_finished_at = coalesce row.capture_finished_at now;
  error = some message;
  updated_at = now;
}

-- MarkScreenshotFailed
unfoldable pub mark_screenshot_failed : ℕ → Text → Text → Text → ℕ → Text → Op (Unit {0})
mark_screenshot_failed now id path content_type size message = execute (λ db. record db {
  screenshot_attempts =
      update_where (attempt_id id) (set_attempt_failed now path content_type size message)
        db.screenshot_attempts;
})

abbrev pub set_unsupported : ℕ → Text → ScreenshotAttempt → ScreenshotAttempt
set_unsupported now message row = record row {
  status = AttemptStatus.unsupported;
  capture_finished_at = some now;
  error = some message;
  updated_at = now;
}

-- MarkScreenshotUnsupported
unfoldable pub mark_screenshot_unsupported : ℕ → Text → Text → Op (Unit {0})
mark_screenshot_unsupported now id message = execute (λ db. record db {
  screenshot_attempts =
      update_where (attempt_id id) (set_unsupported now message) db.screenshot_attempts;
})

-- ScreenshotAttempt
unfoldable pub screenshot_attempt : Text → Op ScreenshotAttempt
screenshot_attempt id = query (λ db. find_row (attempt_id id) db.screenshot_attempts)

abbrev pub set_retried : ℕ → ScreenshotAttempt → ScreenshotAttempt
set_retried now row = record row {
  status = AttemptStatus.pending;
  error = none;
  image_path = none;
  image_content_type = none;
  image_size_bytes = none;
  capture_started_at = none;
  capture_finished_at = none;
  telegram_sent_at = none;
  updated_at = now;
}

abbrev pub retried : ℕ → Result Error ScreenshotAttempt → Result Error ScreenshotAttempt
retried now (ok row) = ok (set_retried now row)
retried now (err e) = err e

-- The UPDATE of RetryScreenshotAttempt, which returns the new row.
unfoldable pub reset_attempt : ℕ → Text → Op ScreenshotAttempt
reset_attempt now id =
    changing (λ db. retried now (find_row (attempt_id id) db.screenshot_attempts))
      (λ db. record db {
        screenshot_attempts = update_where (attempt_id id) (set_retried now) db.screenshot_attempts;
      })

-- RetryScreenshotAttempt
unfoldable pub retry_screenshot_attempt : ℕ → Text → Op ScreenshotAttempt
retry_screenshot_attempt now id = do
  current ← screenshot_attempt id
  (if is_failed current.status then reset_attempt now id else fail invalid_state)

abbrev pub has_image : Text → ScreenshotAttempt → Bool
has_image id row =
    attempt_id id row && elim row.image_path [ none ↦ false | some path ↦ not (is_empty path) ]

abbrev pub mime_of : Option Text → Text
mime_of none = codes "image/png"
mime_of (some type) = if is_empty type then codes "image/png" else type

abbrev pub path_of : Option Text → Text
path_of none = []
path_of (some path) = path

abbrev pub image_of : Result Error ScreenshotAttempt → Result Error (Text × Text)
image_of (ok row) = ok (path_of row.image_path, mime_of row.image_content_type)
image_of (err e) = err e

-- ScreenshotImage: the path and the type of the image.
unfoldable pub screenshot_image : Text → Op (Text × Text)
screenshot_image id = query (λ db. image_of (find_row (has_image id) db.screenshot_attempts))
