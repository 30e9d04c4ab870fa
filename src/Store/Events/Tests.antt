-- ===== src/Store/Events/Tests.antt =====
-- Notification events on concrete tables, and the theorems at inputs that meet their hypotheses.
use w8nc.Base.{ℕ, ◌≤◌, ◌≡◌, refl, true, none, List, [], ◌∷◌, any}
use w8nc.Base.Result.{ok}
use w8nc.Base.Sort.{insert_by, sort_by}
use w8nc.Base.Text.{Text, codes, text_eq}
use w8nc.Models.{NotificationEvent, EventStatus}
use w8nc.Store.{
  Conn, answer, run_statement, statement, returning, execute, changing, query, update_where,
}
use w8nc.Store.Rules.{Returns}
use w8nc.Store.Events.{
  event_id, retry_delay, due_notification_events, mark_notification_sent, mark_notification_failed,
}
use w8nc.Store.Events.Retry.{start, fails, deliveries_bounded}

events : Unit {0}
unfolding due_notification_events mark_notification_sent mark_notification_failed answer
    run_statement statement returning execute changing query update_where insert_by sort_by text_eq
events = tt

abbrev event : Text → ℕ → NotificationEvent
event id created = record {
  id = id;
  endpoint_id = codes "e";
  status = EventStatus.pending;
  message = [];
  error = none;
  attempts = 0;
  created_at = created;
  sent_at = none;
  updated_at = created;
}

abbrev two : Conn
two = record {
  db = record {
    endpoints = [];
    endpoint_checks = [];
    notification_events = event (codes "b") 20 ∷ event (codes "a") 10 ∷ [];
    screenshot_attempts = [];
    last_seen_at = none;
    notification_settings = none;
    users = [];
    sessions = [];
    tags = [];
    endpoint_tags = [];
  };
  faults = [];
}

abbrev in_order : List NotificationEvent
in_order = event (codes "a") 10 ∷ event (codes "b") 20 ∷ []

abbrev one_failed : Conn
one_failed = (mark_notification_failed 30 (codes "a") (codes "down") two).1

listing : Returns (due_notification_events 30 10) two in_order two
unfolding events
listing = refl

failing : Returns (mark_notification_failed 30 (codes "a") (codes "down")) two tt one_failed
unfolding events
failing = refl

-- The failed event rests for twenty seconds.
rests :
    ((due_notification_events 31 10 one_failed).0 ≡ ok (event (codes "b") 20 ∷ []))
    × ((due_notification_events 20000000030 10 one_failed).0 ≡ ok (event (codes "b") 20 ∷ []))
    × (retry_delay 1 ≡ 20)
    × (retry_delay 5 ≡ 300)
unfolding events
rests = (refl, refl, refl, refl)

listed : any (event_id (codes "a")) in_order ≡ true
unfolding events
listed = refl

deliveries_bounded_example : 1 ≤ 5
deliveries_bounded_example =
    deliveries_bounded (codes "a") two one_failed 1
      ((λ _. (refl, λ _. refl)), ((λ _. (refl, λ _. refl)), tt))
      (fails 30 10 (codes "down") in_order start listing listed failing)
