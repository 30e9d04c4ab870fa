-- ===== src/Screenshots.antt =====
-- internal/screenshots/service.go: the work on one screenshot attempt.
pub mod Settling
mod Tests
use w8nc.Base.{ℕ, Bool, true, false, Option, none, some, List, [], ◌∷◌, leb, if◌then◌else◌}
use w8nc.Base.Result.{Result, ok, err}
use w8nc.Base.Text.{Text, codes}
use w8nc.Models.{Endpoint, NotificationSettings, ScreenshotAttempt}
use w8nc.Store.{Error, failed, Conn, Op, ◌>>=◌, ◌>>◌, pure, fail}
use w8nc.Store.Endpoints.{get_endpoint}
use w8nc.Store.Screenshots.{
  due_screenshot_attempts, mark_screenshot_capturing, mark_screenshot_succeeded,
  mark_screenshot_failed, mark_screenshot_unsupported,
}
use w8nc.Store.Settings.{get_notification_settings}

-- What Capturer.Capture returns: an image, an error that IsUnsupported holds of, or another error.
pub data Captured : Type 0 where
  image : Text → Text → ℕ → Captured
  unsupported broken : Text → Captured

-- What the service uses from outside: the capture of an endpoint for an attempt, the error or none of
-- Notifier.SendScreenshot, and the name of the system's time zone.
pub record World : Type 0 where
  pub capture : Text → Endpoint → Captured
  pub send_screenshot : NotificationSettings → Text → Text → Option Text
  pub system_zone : Text

-- `_ = op`
abbrev pub ignoring : {A : Type 0} → Op A → Op (Unit {0})
ignoring op c = (ok tt, (op c).1)

-- `if err != nil { _ = cleanup; return err }`
unfoldable pub otherwise :
    {A B : Type 0} → Op (Unit {0}) → (A → Op B) → Result Error A × Conn → Result Error B × Conn
otherwise cleanup next (ok a, c) = next a c
otherwise cleanup next (err e, c) = (err e, (cleanup c).1)

-- Behind SendScreenshot, by its error.
abbrev pub sent : ℕ → Text → Text → Text → ℕ → Option Text → Op (Unit {0})
sent now id path type size (some message) =
    (ignoring (mark_screenshot_failed now id path type size message)) >> fail failed
sent now id path type size none = mark_screenshot_succeeded now id path type size

abbrev pub send :
    World → ℕ → Text → Endpoint → Text → Text → ℕ → NotificationSettings → Op (Unit {0})
send world now id endpoint path type size settings =
    sent now id path type size (world.send_screenshot settings endpoint.url path)

abbrev pub deliver : World → ℕ → Text → Endpoint → Captured → Op (Unit {0})
deliver world now id endpoint (unsupported message) =
    ignoring (mark_screenshot_unsupported now id message)
deliver world now id endpoint (broken message) =
    (ignoring (mark_screenshot_failed now id [] [] 0 message)) >> fail failed
deliver world now id endpoint (image path type size) = λ c.
    otherwise
      (mark_screenshot_failed now id path type size
        (codes "notification settings could not be loaded"))
      (send world now id endpoint path type size) (get_notification_settings world.system_zone c)

-- process behind the claim.
unfoldable pub work : World → ℕ → Text → Text → Op (Unit {0})
unfolding otherwise
work world now id endpoint_id c =
    otherwise (mark_screenshot_failed now id [] [] 0 (codes "endpoint could not be loaded"))
      (λ endpoint. deliver world now id endpoint (world.capture id endpoint))
      (get_endpoint now endpoint_id c)

-- process
unfoldable pub process : World → ℕ → Text → Text → Op (Unit {0})
process world now id endpoint_id = do
  claimed ← mark_screenshot_capturing now id
  (if claimed then work world now id endpoint_id else pure tt)

-- The loop of RunOnce; an error is logged.
unfoldable pub process_all : World → ℕ → List ScreenshotAttempt → Op (Unit {0})
process_all world now [] = pure tt
process_all world now (attempt ∷ attempts) =
    ignoring (process world now attempt.id attempt.endpoint_id) >> process_all world now attempts

-- RunOnce
unfoldable pub run_once : World → ℕ → ℕ → Op (Unit {0})
run_once world now concurrency = do
  attempts ← due_screenshot_attempts (if leb concurrency 0 then 1 else concurrency)
  process_all world now attempts
