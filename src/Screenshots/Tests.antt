-- ===== src/Screenshots/Tests.antt =====
-- The screenshot service on a concrete attempt, and the theorem at an input that meets its hypotheses.
use w8nc.Base.{◌≡◌, refl, true, none, some, [], ◌∷◌}
use w8nc.Base.Sort.{insert_by, sort_by}
use w8nc.Base.Text.{codes, text_eq}
use w8nc.Models.{ScreenshotAttempt, AttemptStatus}
use w8nc.Models.Sample.{sample}
use w8nc.Store.{
  Conn, and_then, answer, run_statement, statement, returning, execute, changing, query,
  update_where, count_where, find_row,
}
use w8nc.Store.Rules.{Returns}
use w8nc.Store.Endpoints.{get_endpoint, deactivate_expired_endpoints}
use w8nc.Store.Screenshots.{
  due_screenshot_attempts, mark_screenshot_capturing, mark_screenshot_succeeded,
  mark_screenshot_failed, mark_screenshot_unsupported,
}
use w8nc.Store.Settings.{get_notification_settings}
use w8nc.Screenshots.{World, image, otherwise, work, process, process_all, run_once}
use w8nc.Screenshots.Settling.{Settled, process-Settled}

service : Unit {0}
unfolding otherwise work process process_all run_once get_endpoint deactivate_expired_endpoints
    due_screenshot_attempts mark_screenshot_capturing mark_screenshot_succeeded
    mark_screenshot_failed mark_screenshot_unsupported get_notification_settings and_then answer
    run_statement statement returning execute changing query update_where count_where find_row
    insert_by sort_by text_eq
service = tt

abbrev world : World
world = record {
  capture = λ id endpoint. image (codes "s.png") (codes "image/png") 3;
  send_screenshot = λ settings url path. none;
  system_zone = codes "UTC";
}

abbrev attempt : ScreenshotAttempt
attempt = record {
  id = codes "s";
  endpoint_id = codes "e";
  endpoint_check_id = codes "c";
  notification_event_id = none;
  status = AttemptStatus.pending;
  error = none;
  image_path = none;
  image_content_type = none;
  image_size_bytes = none;
  capture_started_at = none;
  capture_finished_at = none;
  telegram_sent_at = none;
  created_at = 10;
  updated_at = 10;
}

-- The settings are missing, so that the attempt fails after the capture.
abbrev start : Conn
start = record {
  db = record {
    endpoints = sample ∷ [];
    endpoint_checks = [];
    notification_events = [];
    screenshot_attempts = attempt ∷ [];
    last_seen_at = none;
    notification_settings = none;
    users = [];
    sessions = [];
    tags = [];
    endpoint_tags = [];
  };
  faults = [];
}

abbrev claimed : Conn
claimed = (mark_screenshot_capturing 20 (codes "s") start).1

claiming : Returns (mark_screenshot_capturing 20 (codes "s")) start true claimed
unfolding service
claiming = refl

processed_rows :
    (process world 20 (codes "s") (codes "e") start).1.db.screenshot_attempts
    ≡ record attempt {
      status = AttemptStatus.failed;
      error = some (codes "notification settings could not be loaded");
      image_path = some (codes "s.png");
      image_content_type = some (codes "image/png");
      image_size_bytes = some 3;
      capture_started_at = some 20;
      capture_finished_at = some 20;
      updated_at = 20;
    }
      ∷ []
unfolding service
processed_rows = refl

process-Settled_example : Settled (codes "s") (process world 20 (codes "s") (codes "e") start).1
unfolding service
process-Settled_example =
    process-Settled world 20 (codes "s") (codes "e") start claimed claiming refl
