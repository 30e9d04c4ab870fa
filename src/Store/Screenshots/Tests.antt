-- ===== src/Store/Screenshots/Tests.antt =====
-- Screenshot attempts on concrete tables, and the theorems at inputs that meet their hypotheses.
use w8nc.Base.{◌≡◌, refl, true, false, none, some, List, [], ◌∷◌}
use w8nc.Base.Result.{ok, err}
use w8nc.Base.Text.{Text, codes, text_eq}
use w8nc.Models.{AttemptStatus}
use w8nc.Store.{
  invalid_state, Conn, and_then, answer, run_statement, statement, returning, execute, changing,
  query, update_where, count_where, find_row,
}
use w8nc.Store.Rules.{Returns}
use w8nc.Store.Screenshots.{
  mark_screenshot_capturing, mark_screenshot_succeeded, mark_screenshot_failed,
  mark_screenshot_unsupported, screenshot_attempt, reset_attempt, retry_screenshot_attempt,
  screenshot_image,
}
use w8nc.Store.Screenshots.Lifecycle.{Act, give_up, run, claim_excludes}

screenshots : Unit {0}
unfolding mark_screenshot_capturing mark_screenshot_succeeded mark_screenshot_failed
    mark_screenshot_unsupported screenshot_attempt reset_attempt retry_screenshot_attempt
    screenshot_image and_then answer run_statement statement returning execute changing query
    update_where count_where find_row text_eq
screenshots = tt

abbrev id : Text
id = codes "s1"

abbrev start : Conn
start = record {
  db = record {
    endpoints = [];
    endpoint_checks = [];
    notification_events = [];
    screenshot_attempts =
        record {
          id = id;
          endpoint_id = codes "e";
          endpoint_check_id = codes "c1";
          notification_event_id = some (codes "n1");
          status = AttemptStatus.pending;
          error = none;
          image_path = none;
          image_content_type = none;
          image_size_bytes = none;
          capture_started_at = none;
          capture_finished_at = none;
          telegram_sent_at = none;
          created_at = 10;
          updated_at = 10;
        }
        ∷ [];
    last_seen_at = none;
    notification_settings = none;
    users = [];
    sessions = [];
    tags = [];
    endpoint_tags = [];
  };
  faults = [];
}

abbrev claimed : Conn
claimed = (mark_screenshot_capturing 20 id start).1

abbrev acts : List Act
acts = give_up 30 id (codes "p.png") [] 0 (codes "no route") ∷ []

abbrev given_up : Conn
given_up = run acts claimed

claiming : Returns (mark_screenshot_capturing 20 id) start true claimed
unfolding screenshots
claiming = refl

claiming_again :
    Returns
      (mark_screenshot_capturing 40 id)
      given_up
      false
      (mark_screenshot_capturing 40 id given_up).1
unfolding screenshots
claiming_again = refl

-- A pending attempt cannot be retried; a failed one keeps its image until it is.
around_retry :
    ((retry_screenshot_attempt 40 id start).0 ≡ err invalid_state)
    × ((screenshot_image id given_up).0 ≡ ok (codes "p.png", codes "image/png"))
    × ((mark_screenshot_capturing 60 id (retry_screenshot_attempt 50 id given_up).1).0 ≡ ok true)
unfolding screenshots
around_retry = (refl, refl, refl)

claim_excludes_example : false ≡ false
claim_excludes_example =
    claim_excludes id 20 start claimed acts 40 (mark_screenshot_capturing 40 id given_up).1 false
      claiming (tt, tt) claiming_again
