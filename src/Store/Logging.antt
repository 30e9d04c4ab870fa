-- ===== src/Store/Logging.antt =====
-- What RecordPingResult adds to the tables of checks, events and screenshots (internal/db/db.go).
use w8nc.Base.{
  suc, ◌+◌, ◌≡◌, refl, sym, ap, ◌∙◌, subst, Bool, true, false, ◌&&◌, List, [], ◌∷◌, ◌++◌,
  append-nil, arith, if◌then◌else◌, length, length-append,
}
use w8nc.Base.Result.{Result, ok, err}
use w8nc.Base.Text.{Text, text_eq}
use w8nc.Models.{NotificationEvent, ScreenshotAttempt}
use w8nc.Store.{Error, Db, Conn, ◌>>◌, pure, when, execute, update_where}
use w8nc.Store.Rules.{
  Ensures, Returns, execute-Ensures, changing-Ensures, >>=-Ensures, transaction-ok, transaction-err,
  Ensures-Returns,
}
use w8nc.Store.Rows.{length-update_where}
use w8nc.Store.Record.{
  Ping, new_check, new_event, new_attempt, link_event, insert_check, insert_event, update_checked,
  record_ping_result,
}

abbrev pub notifies : Ping → Bool
notifies p = p.condition_matched && p.endpoint.active

abbrev pub events_of : Ping → List NotificationEvent
events_of p = if notifies p then new_event p ∷ [] else []

pub one_event : (p : Ping) → notifies p ≡ true → events_of p ≡ new_event p ∷ []
one_event p h = rw h refl

pub no_event : (p : Ping) → notifies p ≡ false → events_of p ≡ []
no_event p h = rw h refl

abbrev pub attempts_of : Ping → List ScreenshotAttempt
attempts_of p = if notifies p && p.endpoint.screenshot_on_match then new_attempt p ∷ [] else []

module _ (p : Ping) (old : Db) where
  -- The three tables after one more check, these events and these attempts.
  record Grown (events : List NotificationEvent) (attempts : List ScreenshotAttempt) (db : Db)
      : Type 0 where
    checks : length db.endpoint_checks ≡ suc (length old.endpoint_checks)
    events_are : db.notification_events ≡ old.notification_events ++ events
    attempts_are : db.screenshot_attempts ≡ old.screenshot_attempts ++ attempts

  insert_check-Ensures : Ensures (λ db. db ≡ old) (insert_check p) (Grown [] [])
  unfolding insert_check
  insert_check-Ensures =
      changing-Ensures (λ db. db ≡ old) (Grown [] []) _ _
        (λ db a e same. record {
          checks =
              length-append db.endpoint_checks (new_check p ∷ [])
              ∙ (ap (λ (d : Db). length d.endpoint_checks + 1) same ∙ omega arith);
          events_are =
              ap (λ d. d.notification_events) same ∙ sym (append-nil old.notification_events);
          attempts_are =
              ap (λ d. d.screenshot_attempts) same ∙ sym (append-nil old.screenshot_attempts);
        })

  add_event-Ensures :
      Ensures
        (Grown [] [])
        (execute
          (λ db. record db { notification_events = db.notification_events ++ new_event p ∷ [] }))
        (Grown (new_event p ∷ []) [])
  add_event-Ensures = execute-Ensures (Grown [] []) (Grown (new_event p ∷ []) []) _ (λ db g.
      record {
        checks = g.checks;
        events_are =
            ap (λ es. es ++ new_event p ∷ []) (g.events_are ∙ append-nil old.notification_events);
        attempts_are = g.attempts_are;
      })

  link-Ensures :
      (attempts : List ScreenshotAttempt) (events : List NotificationEvent)
      → Ensures
          (Grown events attempts)
          (execute (λ db. record db {
            endpoint_checks =
                update_where
                  (λ row. text_eq row.id p.ids.check)
                  (link_event p.ids.event)
                  db.endpoint_checks;
          }))
          (Grown events attempts)
  link-Ensures attempts events =
      execute-Ensures (Grown events attempts) (Grown events attempts) _ (λ db g. record {
        checks = length-update_where _ _ db.endpoint_checks ∙ g.checks;
        events_are = g.events_are;
        attempts_are = g.attempts_are;
      })

  shoot-Ensures :
      (shoot : Bool)
      → Ensures
          (Grown (new_event p ∷ []) [])
          (when shoot (
            execute (λ db. record db {
              screenshot_attempts = db.screenshot_attempts ++ new_attempt p ∷ [];
            })))
          (Grown (new_event p ∷ []) (if shoot then new_attempt p ∷ [] else []))
  shoot-Ensures false = λ c g. g
  shoot-Ensures true = execute-Ensures (Grown (new_event p ∷ []) []) _ _ (λ db g. record {
    checks = g.checks;
    events_are = g.events_are;
    attempts_are =
        ap (λ es. es ++ new_attempt p ∷ []) (g.attempts_are ∙ append-nil old.screenshot_attempts);
  })

  insert_event-Ensures :
      Ensures (Grown [] []) (insert_event p) (
        Grown
          (new_event p ∷ [])
          (if p.endpoint.screenshot_on_match then new_attempt p ∷ [] else []))
  unfolding insert_event
  insert_event-Ensures =
      >>=-Ensures (Grown [] []) (Grown (new_event p ∷ []) []) _ _ _ add_event-Ensures (λ _.
        >>=-Ensures (Grown (new_event p ∷ []) []) (Grown (new_event p ∷ []) []) _ _ _
          (link-Ensures [] (new_event p ∷ [])) (λ _. shoot-Ensures p.endpoint.screenshot_on_match))

  -- What the transaction adds in all.
  abbrev Logged : Db → Type 0
  Logged = Grown (events_of p) (attempts_of p)

  notify-Ensures :
      (b : Bool) → notifies p ≡ b → Ensures (Grown [] []) (when b (insert_event p)) Logged
  notify-Ensures true e = rw e insert_event-Ensures
  notify-Ensures false e = rw e (λ c g. g)

  update_checked-Grown : Ensures Logged (update_checked p) Logged
  unfolding update_checked
  update_checked-Grown = execute-Ensures Logged Logged _ (λ db g. record {
    checks = g.checks;
    events_are = g.events_are;
    attempts_are = g.attempts_are;
  })

  body-Ensures :
      Ensures
        (λ db. db ≡ old)
        (do
          insert_check p
          when (p.condition_matched && p.endpoint.active) (insert_event p)
          update_checked p
          pure p.ids.check)
        Logged
  body-Ensures =
      >>=-Ensures (λ db. db ≡ old) (Grown [] []) Logged _ _ insert_check-Ensures
        (λ _.
          >>=-Ensures (Grown [] []) Logged Logged _ _ (notify-Ensures (notifies p) refl)
            (λ _. >>=-Ensures Logged Logged Logged _ _ update_checked-Grown (λ _ c' g. g)))

-- What is left of the tables by each of the two outcomes.
abbrev pub Logs : Ping → Db → Result Error Text × Conn → Type 0
Logs p old (ok i, c) =
    (length c.db.endpoint_checks ≡ suc (length old.endpoint_checks))
    × (c.db.notification_events ≡ old.notification_events ++ events_of p)
    × (c.db.screenshot_attempts ≡ old.screenshot_attempts ++ attempts_of p)
Logs p old (err e, c) = c.db ≡ old

-- RecordPingResult, if it succeeds, adds one check; it adds one pending event exactly if the condition
-- matched and the pinged copy of the endpoint was active, and then one pending screenshot exactly if
-- the endpoint asks for one. If it fails, all tables stay as they were.
pub record_ping_result-Logs : (p : Ping) (c : Conn) → Logs p c.db (record_ping_result p c)
unfolding record_ping_result
record_ping_result-Logs p c = go (record_ping_result p c) refl
  where
    go : (r : Result Error Text × Conn) → record_ping_result p c ≡ r → Logs p c.db r
    go (err e, c') h = transaction-err _ c h
    go (ok i, c') h =
        let (c0, c1, same, body, end) = transaction-ok _ c h in
        let g =
          Ensures-Returns (λ db. db ≡ c.db) (Grown p c.db (events_of p) (attempts_of p)) _ c0
            (body-Ensures p c.db) same body in
        (
          ap (λ db. length db.endpoint_checks) end ∙ g.checks,
          ap (λ db. db.notification_events) end ∙ g.events_are,
          ap (λ db. db.screenshot_attempts) end ∙ g.attempts_are,
        )

pub logged_events :
    (p : Ping) (c c' : Conn) (i : Text)
    → Returns (record_ping_result p) c i c'
    → c'.db.notification_events ≡ c.db.notification_events ++ events_of p
logged_events p c c' i h =
    let logs : Logs p c.db (ok i, c') = subst (Logs p c.db) h (record_ping_result-Logs p c) in
    let (_, events, _) = logs in events
