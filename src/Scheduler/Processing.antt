-- ===== src/Scheduler/Processing.antt =====
-- What processEndpoint does to the tables (internal/scheduler/scheduler.go).
use w8nc.Base.{
  ℕ, ◌≡◌, refl, sym, ap, ◌∙◌, subst, ◌⊎◌, inl, inr, Bool, true, false, Option, none, some, [], ◌∷◌,
  ◌++◌, append-nil, arith, All, Bool-cases,
}
use w8nc.Base.Result.{Result, ok}
use w8nc.Base.Text.{Text}
use w8nc.Models.{Endpoint, PingResult}
use w8nc.Conditions.{Evaluation, Error, evaluate, validate_condition}
use w8nc.Conditions.Matching.{Meets, evaluate_iff}
use w8nc.Store
use w8nc.Store.{Db, Conn, Op, ◌>>=◌, pure}
use w8nc.Store.Rules.{Keeps, Returns, query-Keeps, >>=-Keeps, >>=-ok, >>=-result}
use w8nc.Store.Rows.{All-imp}
use w8nc.Store.Record.{Ids, Ping, new_event}
use w8nc.Store.Consistency.{IsConsistent, Consistent}
use w8nc.Store.Recording.{HasNextRun, record_ping_result-Consistent}
use w8nc.Store.Logging.{events_of, one_event, no_event, logged_events}
use w8nc.Store.Settings.{get_notification_settings}
use w8nc.Store.Endpoints.{has_id}
use w8nc.Scheduler.{
  World, Outcome, outcome, evaluated, message_for, ping_of, process_outcome, process_endpoint,
}

-- The rows are consistent, and those of this endpoint are as active as its copy.
abbrev pub Current : Endpoint → Db → Type 0
Current endpoint db =
    All (λ row. IsConsistent row × (has_id endpoint.id row ≡ true → row.active ≡ endpoint.active))
      db.endpoints

module _ (world : World) (ids : Ids) (now : ℕ) (endpoint : Endpoint) (o : Outcome)
    (manual : Bool) where
  message_for-Keeps :
      (P : Db → Type 0) (matched : Bool) → Keeps P (message_for world endpoint o matched)
  unfolding get_notification_settings
  message_for-Keeps P true = >>=-Keeps P _ _ (query-Keeps P _) (λ settings c h. h)
  message_for-Keeps P false = λ c h. h

  ping_of-HasNextRun : (message : Text) → HasNextRun (ping_of ids now endpoint o manual message)
  ping_of-HasNextRun message active final = ground arith

  message_for-same :
      (c c' : Conn) (matched : Bool) (message : Text)
      → Returns (message_for world endpoint o matched) c message c'
      → c'.db.notification_events ≡ c.db.notification_events
  message_for-same c c' matched message h =
      subst
        (λ (r : Result Store.Error Text × Conn).
          r.1.db.notification_events ≡ c.db.notification_events)
        h
        (message_for-Keeps (λ db. db.notification_events ≡ c.db.notification_events) matched c refl)

  process_outcome-Consistent :
      (c : Conn)
      → Current endpoint c.db
      → Consistent (process_outcome world ids now endpoint o manual c).1.db
  process_outcome-Consistent =
      >>=-result (Current endpoint) Consistent (message_for world endpoint o o.matched) _
        (message_for-Keeps (Current endpoint) o.matched)
        (λ message c k.
          record_ping_result-Consistent (ping_of ids now endpoint o manual message) c
            (ping_of-HasNextRun message) k)
        (λ db k. All-imp _ IsConsistent (λ row pair. pair.0) db.endpoints k)

  process_outcome_events :
      (c c' : Conn) (i : Text)
      → Returns (process_outcome world ids now endpoint o manual) c i c'
      → (message : Text) × (c'.db.notification_events
          ≡ c.db.notification_events ++ events_of (ping_of ids now endpoint o manual message))
  process_outcome_events c c' i h =
      let (message, c1, prepared, recorded) =
        >>=-ok (message_for world endpoint o o.matched) _ c h in
      (
        message,
        logged_events (ping_of ids now endpoint o manual message) c1 c' i recorded
            ∙ ap (λ events. events ++ events_of (ping_of ids now endpoint o manual message))
                (message_for-same c c1 o.matched message prepared),
      )

-- If the endpoints are consistent and the rows of the endpoint are as active as the copy that is processed,
-- processEndpoint leaves the endpoints consistent, whatever the ping returned and whichever statements fail.
pub process_endpoint-Consistent :
    (world : World) (ids : Ids) (now : ℕ) (endpoint : Endpoint) (result : PingResult)
    (evaluate manual : Bool) (c : Conn)
    → Current endpoint c.db
    → Consistent (process_endpoint world ids now endpoint result evaluate manual c).1.db
unfolding process_endpoint
process_endpoint-Consistent world ids now endpoint result evaluate manual c h =
    process_outcome-Consistent world ids now endpoint (outcome world endpoint result evaluate)
      manual c h

evaluated_matched :
    (world : World) (endpoint : Endpoint) (result : PingResult) (e : Evaluation × Option Error)
    → e.1 ≡ none
    → (evaluated world endpoint result e).matched ≡ e.0.matched
evaluated_matched world endpoint result (next, none) h = refl
evaluated_matched world endpoint result (next, some e) h = absurd (ground arith)

-- If processEndpoint with evaluation succeeds for an active endpoint whose condition passes
-- ValidateCondition, it adds the pending event of this endpoint exactly if the condition is met by
-- the response, and else no event.
pub process_endpoint_notifies :
    (world : World) (ids : Ids) (now : ℕ) (endpoint : Endpoint) (result : PingResult)
    (manual : Bool) (c c' : Conn) (i : Text)
    → validate_condition endpoint.notify_condition ≡ ok tt
    → endpoint.active ≡ true
    → Returns (process_endpoint world ids now endpoint result true manual) c i c'
    → (Meets endpoint result
        × ((message : Text) × (c'.db.notification_events
              ≡ c.db.notification_events
                ++ new_event
                    (ping_of ids now endpoint (outcome world endpoint result true) manual message)
                  ∷ [])))
      ⊎ ((¬ Meets endpoint result) × (c'.db.notification_events ≡ c.db.notification_events))
unfolding process_endpoint outcome
process_endpoint_notifies world ids now endpoint result manual c c' i valid active h =
    let o : Outcome = evaluated world endpoint result (evaluate endpoint result) in
    let (no_error, meets) = evaluate_iff endpoint result valid in
    let same : o.matched ≡ (evaluate endpoint result).0.matched =
      evaluated_matched world endpoint result (evaluate endpoint result) no_error in
    let (message, events) = process_outcome_events world ids now endpoint o manual c c' i h in
    let p : Ping = ping_of ids now endpoint o manual message in
    elim (Bool-cases o.matched) [
      | inl hit ↦ inl (
        meets.0 (sym same ∙ hit),
        (
          message,
          events
              ∙ ap (λ es. c.db.notification_events ++ es)
                  (one_event p (ground (arith, hit, active))),
        ),
      )
      | inr miss ↦ inr (
        (λ met. absurd (cc (same, miss, meets.1 met))),
        events
            ∙ (ap (λ es. c.db.notification_events ++ es) (no_event p (ground (arith, miss)))
                ∙ append-nil c.db.notification_events),
      )
    ]
