-- ===== src/Store/Tests.antt =====
-- Database operations on concrete tables, and the theorems at inputs that meet their hypotheses.
use w8nc.Base.{
  ◌≤◌, ◌≡◌, ◌++◌, refl, true, false, none, some, List, [], ◌∷◌, any, All, length, arith,
}
use w8nc.Base.Result.{err}
use w8nc.Base.Sort.{insert_by, sort_by}
use w8nc.Base.Text.{Text, codes, text_eq}
use w8nc.Models.Sample.{sample, response}
use w8nc.Store.{
  failed, no_rows, Conn, and_then, answer, run_statement, statement, returning, execute, changing,
  query, rolled_back, commit, bracketed, transaction, update_where, count_where, find_row,
}
use w8nc.Store.Rules.{Returns}
use w8nc.Store.Endpoints.{
  has_id, set_expired, deactivate_expired_endpoints, get_endpoint, update_endpoint_row,
  set_activated, activate_endpoint, set_deactivated, deactivate_endpoint, remove_endpoint,
  delete_endpoint, due_rows, lock_rows, lock_found, lock_due, lock_due_endpoints,
}
use w8nc.Store.Record.{
  Ping, state_for_result, new_check, new_event, new_attempt, set_last, set_notified_once,
  set_checked, insert_check, insert_event, update_checked, record_ping_result,
}
use w8nc.Store.Runtime.{
  set_last_seen, extend_deadlines, resume_from, resume_after_downtime, mark_runtime_seen,
}
use w8nc.Store.Consistency.{
  IsConsistent, Consistent, activate, deactivate, resume, perform, perform-Consistent,
}
use w8nc.Store.Locking.{lock_due_endpoints_excludes}
use w8nc.Store.Locking.Selecting.{IsReady, InOrder, lock_due_endpoints_selects}
use w8nc.Store.Logging.{Logs, record_ping_result-Logs}
use w8nc.Store.Once.{Act, asks, run, notify_once}
use w8nc.Store.Once.StaysOff.{IsOff}
use w8nc.Store.Race.{IsStuck, stale_ping_loses_schedule, two_matches_notify_twice}

store : Unit {0}
unfolding record_ping_result insert_check insert_event update_checked set_last set_notified_once
    set_checked state_for_result new_check new_event new_attempt deactivate_expired_endpoints
    set_expired get_endpoint update_endpoint_row set_activated activate_endpoint set_deactivated
    deactivate_endpoint remove_endpoint delete_endpoint due_rows lock_rows lock_found lock_due
    lock_due_endpoints set_last_seen extend_deadlines resume_from resume_after_downtime
    mark_runtime_seen and_then answer run_statement statement returning execute changing query
    rolled_back commit bracketed transaction update_where count_where find_row insert_by sort_by
    text_eq
store = tt

abbrev start : Conn
start = record {
  db = record {
    endpoints = sample ∷ [];
    endpoint_checks = [];
    notification_events = [];
    screenshot_attempts = [];
    last_seen_at = some 50;
    notification_settings = none;
    users = [];
    sessions = [];
    tags = [];
    endpoint_tags = [];
  };
  faults = [];
}

abbrev ping : Ping
ping = record {
  ids = record { check = codes "c1"; event = codes "n1"; attempt = codes "s1" };
  now = 121;
  endpoint = sample;
  result = response;
  condition_matched = true;
  message = codes "matched";
  next_run = some 300;
  baseline_status = some 200;
  baseline_length = some 25;
  manual = false;
}

abbrev second_ping : Ping
second_ping = record ping {
  ids = record { check = codes "c2"; event = codes "n2"; attempt = codes "s2" };
}

-- The copy that was read while the endpoint was inactive.
abbrev stale_ping : Ping
stale_ping = record ping { endpoint = record sample { active = false; next_run_at = none } }

abbrev id : Text
id = codes "e"

abbrev recorded : Conn
recorded = (record_ping_result ping start).1

abbrev locked : Conn
locked = (lock_due_endpoints 100 10 60 start).1

recorded-Returns : Returns (record_ping_result ping) start (codes "c1") recorded
unfolding store
recorded-Returns = refl

recorded_rows :
    (length recorded.db.endpoint_checks ≡ 1)
    × (length recorded.db.notification_events ≡ 1)
    × (length recorded.db.screenshot_attempts ≡ 1)
unfolding store
recorded_rows = (refl, refl, refl)

-- The commit fails: nothing is recorded.
rolled_back_whole :
    (record_ping_result ping
      (record start { faults = false ∷ false ∷ false ∷ false ∷ false ∷ false ∷ true ∷ [] }))
    ≡ (err failed, start)
unfolding store
rolled_back_whole = refl

missing_endpoint : (get_endpoint 100 (codes "f") start).0 ≡ err no_rows
unfolding store
missing_endpoint = refl

record_ping_result-Logs_example : Logs ping start.db (record_ping_result ping start)
record_ping_result-Logs_example = record_ping_result-Logs ping start

locked-Returns : Returns (lock_due_endpoints 100 10 60) start (sample ∷ []) locked
unfolding store
locked-Returns = refl

again : Returns (lock_due_endpoints 160 10 60) locked [] (lock_due_endpoints 160 10 60 locked).1
unfolding store
again = refl

listed : any (has_id id) (sample ∷ []) ≡ true
unfolding store
listed = refl

lock_due_endpoints_selects_example :
    All (IsReady 100) (sample ∷ []) × InOrder (sample ∷ []) × (1 ≤ 10)
lock_due_endpoints_selects_example =
    lock_due_endpoints_selects 100 10 60 start locked (sample ∷ []) locked-Returns

lock_due_endpoints_excludes_example : any (has_id id) [] ≡ false
lock_due_endpoints_excludes_example =
    lock_due_endpoints_excludes 100 10 60 start locked (sample ∷ []) id 160 10 60
      (lock_due_endpoints 160 10 60 locked).1 [] locked-Returns listed (omega arith) again

sample-IsConsistent : IsConsistent sample
sample-IsConsistent = ground arith

consistent : Consistent start.db
consistent = (sample-IsConsistent, tt)

perform-Consistent_example : Consistent (perform 6000 (activate id) start).db
perform-Consistent_example = perform-Consistent 6000 (activate id) start consistent

abbrev acts : List Act
acts = asks 130 (deactivate id) ∷ asks 140 resume ∷ []

after_acts :
    Returns
      (lock_due_endpoints 500 10 60)
      (run acts recorded)
      []
      (lock_due_endpoints 500 10 60 (run acts recorded)).1
unfolding store
after_acts = refl

notify_once_example : any (has_id id) [] ≡ false
notify_once_example =
    notify_once ping start recorded (codes "c1") acts 500 10 60 []
      (lock_due_endpoints 500 10 60 (run acts recorded)).1 recorded-Returns refl (tt, (tt, tt))
      after_acts

abbrev stale_recorded : Conn
stale_recorded = (record_ping_result stale_ping start).1

stale-Returns :
    (Returns (record_ping_result stale_ping) start (codes "c1") stale_recorded)
    × Returns
        (lock_due_endpoints 5000 10 60)
        stale_recorded
        []
        (lock_due_endpoints 5000 10 60 stale_recorded).1
unfolding store
stale-Returns = (refl, refl)

stale_ping_loses_schedule_example :
    All (IsStuck id) stale_recorded.db.endpoints × (any (has_id id) [] ≡ false)
stale_ping_loses_schedule_example =
    stale_ping_loses_schedule stale_ping start stale_recorded (codes "c1") 5000 10 60 []
      (lock_due_endpoints 5000 10 60 stale_recorded).1 refl ((λ _. refl), tt) stale-Returns.0
      stale-Returns.1

abbrev twice : Conn
twice = (record_ping_result second_ping recorded).1

second-Returns : Returns (record_ping_result second_ping) recorded (codes "c2") twice
unfolding store
second-Returns = refl

two_matches_notify_twice_example :
    All (IsOff id) recorded.db.endpoints
    × (twice.db.notification_events
        ≡ (start.db.notification_events ++ new_event ping ∷ []) ++ new_event second_ping ∷ [])
    × ((new_event ping).endpoint_id ≡ id)
    × ((new_event second_ping).endpoint_id ≡ id)
two_matches_notify_twice_example =
    two_matches_notify_twice ping second_ping start recorded twice (codes "c1") (codes "c2") refl
      refl refl refl refl recorded-Returns second-Returns
