-- ===== src/Screenshots/Settling.antt =====
-- What becomes of a claimed attempt (internal/screenshots/service.go).
use w8nc.Base.{
  ℕ, ◌≡◌, refl, sym, subst, Bool, true, false, Option, none, some, List, [], if◌then◌else◌, All,
}
use w8nc.Base.Result.{Result, ok, err}
use w8nc.Base.Sort.{Unit-All}
use w8nc.Base.Text.{Text, codes}
use w8nc.Models.{Endpoint, ScreenshotAttempt, AttemptStatus}
use w8nc.Store.{
  Error, Db, Conn, Op, and_then, pure, with_db, answer, run_statement, statement, returning,
  execute, changing, query, update_where,
}
use w8nc.Store.Rules.{Returns}
use w8nc.Store.Rows.{update_where-All}
use w8nc.Store.Screenshots.{
  attempt_id, mark_screenshot_capturing, mark_screenshot_succeeded, mark_screenshot_failed,
  mark_screenshot_unsupported, set_succeeded, set_attempt_failed, set_unsupported,
}
use w8nc.Store.Endpoints.{get_endpoint, deactivate_expired_endpoints}
use w8nc.Store.Settings.{get_notification_settings}
use w8nc.Screenshots.{
  World, Captured, image, unsupported, broken, otherwise, sent, deliver, work, process,
}

abbrev pub is_settled : AttemptStatus → Bool
is_settled AttemptStatus.pending = false
is_settled AttemptStatus.capturing = false
is_settled AttemptStatus.succeeded = true
is_settled AttemptStatus.failed = true
is_settled AttemptStatus.unsupported = true

-- No attempt with this id is pending or being captured.
abbrev pub Settled : Text → Conn → Type 0
Settled id c =
    All (λ row. attempt_id id row ≡ true → is_settled row.status ≡ true) c.db.screenshot_attempts

-- No statement to come fails.
abbrev pub Quiet : Conn → Type 0
Quiet c = c.faults ≡ []

update-Settled :
    (id : Text) (f : ScreenshotAttempt → ScreenshotAttempt)
    → ((row : ScreenshotAttempt) → is_settled (f row).status ≡ true)
    → (rows : List ScreenshotAttempt)
    → All
        (λ row. attempt_id id row ≡ true → is_settled row.status ≡ true)
        (update_where (attempt_id id) f rows)
update-Settled id f settles rows =
    update_where-All (attempt_id id) f (λ row. Unit {0})
      (λ row. attempt_id id row ≡ true → is_settled row.status ≡ true) (λ row _ _ _. settles row)
      (λ row _ miss hit. absurd (cc)) rows (Unit-All rows)

-- A quiet connection is one over a database.
quiet-Conn :
    (P : Conn → Type 0)
    → ((db : Db) → P (record { db = db; faults = [] }))
    → (c : Conn) → Quiet c
    → P c
quiet-Conn P k c quiet =
    subst (λ faults. P (record { db = c.db; faults = faults })) (sym quiet) (k c.db)

changing-Quiet :
    {A : Type 0} (g : Db → Result Error A) (f : Db → Db) (c : Conn)
    → Quiet c
    → Quiet (changing g f c).1
unfolding changing statement run_statement answer
changing-Quiet {A} g f = quiet-Conn (λ c. Quiet (changing g f c).1) (λ db. go db (g db))
  where
    go :
        (db : Db) (r : Result Error A)
        → Quiet (answer [] (record { db = db; faults = [] }) (with_db (f db) r)).1
    go db (ok a) = refl
    go db (err e) = refl

query-Quiet : {A : Type 0} (g : Db → Result Error A) (c : Conn) → Quiet c → Quiet (query g c).1
unfolding query
query-Quiet g c quiet = changing-Quiet g (λ db. db) c quiet

get_notification_settings-Quiet :
    (zone : Text) (c : Conn) → Quiet c → Quiet (get_notification_settings zone c).1
unfolding get_notification_settings
get_notification_settings-Quiet zone c quiet = query-Quiet _ c quiet

get_endpoint-Quiet : (now : ℕ) (id : Text) (c : Conn) → Quiet c → Quiet (get_endpoint now id c).1
unfolding get_endpoint deactivate_expired_endpoints returning statement run_statement answer
    and_then
get_endpoint-Quiet now id =
    quiet-Conn (λ c. Quiet (get_endpoint now id c).1) (λ db. query-Quiet _ _ refl)

module _ (world : World) (now : ℕ) (id : Text) where
  mark_failed-Settled :
      (path type : Text) (size : ℕ) (message : Text) (c : Conn)
      → Quiet c
      → Settled id (mark_screenshot_failed now id path type size message c).1
  unfolding mark_screenshot_failed execute returning statement run_statement answer
  mark_failed-Settled path type size message =
      quiet-Conn (λ c. Settled id (mark_screenshot_failed now id path type size message c).1)
        (λ db.
          update-Settled id (set_attempt_failed now path type size message) (λ row. refl)
            db.screenshot_attempts)

  mark_succeeded-Settled :
      (path type : Text) (size : ℕ) (c : Conn)
      → Quiet c
      → Settled id (mark_screenshot_succeeded now id path type size c).1
  unfolding mark_screenshot_succeeded execute returning statement run_statement answer
  mark_succeeded-Settled path type size =
      quiet-Conn (λ c. Settled id (mark_screenshot_succeeded now id path type size c).1)
        (λ db.
          update-Settled id (set_succeeded now path type size) (λ row. refl) db.screenshot_attempts)

  mark_unsupported-Settled :
      (message : Text) (c : Conn)
      → Quiet c
      → Settled id (mark_screenshot_unsupported now id message c).1
  unfolding mark_screenshot_unsupported execute returning statement run_statement answer
  mark_unsupported-Settled message =
      quiet-Conn (λ c. Settled id (mark_screenshot_unsupported now id message c).1)
        (λ db. update-Settled id (set_unsupported now message) (λ row. refl) db.screenshot_attempts)

  sent-Settled :
      (path type : Text) (size : ℕ) (o : Option Text) (c : Conn)
      → Quiet c
      → Settled id (sent now id path type size o c).1
  unfolding and_then
  sent-Settled path type size (some message) = mark_failed-Settled path type size message
  sent-Settled path type size none = mark_succeeded-Settled path type size

  otherwise-Settled :
      {A : Type 0} (cleanup : Op (Unit {0})) (next : A → Op (Unit {0})) (r : Result Error A × Conn)
      → ((c : Conn) → Quiet c → Settled id (cleanup c).1)
      → ((a : A) (c : Conn) → Quiet c → Settled id (next a c).1)
      → Quiet r.1
      → Settled id (otherwise cleanup next r).1
  unfolding otherwise
  otherwise-Settled cleanup next (ok a, c) clean settle quiet = settle a c quiet
  otherwise-Settled cleanup next (err e, c) clean settle quiet = clean c quiet

  deliver-Settled :
      (endpoint : Endpoint) (captured : Captured) (c : Conn)
      → Quiet c
      → Settled id (deliver world now id endpoint captured c).1
  unfolding and_then
  deliver-Settled endpoint (unsupported message) c quiet = mark_unsupported-Settled message c quiet
  deliver-Settled endpoint (broken message) c quiet = mark_failed-Settled [] [] 0 message c quiet
  deliver-Settled endpoint (image path type size) c quiet =
      otherwise-Settled _ _ (get_notification_settings world.system_zone c)
        (λ d. mark_failed-Settled path type size _ d)
        (λ settings d.
          sent-Settled path type size (world.send_screenshot settings endpoint.url path) d)
        (get_notification_settings-Quiet world.system_zone c quiet)

  work-Settled :
      (endpoint_id : Text) (c : Conn) → Quiet c → Settled id (work world now id endpoint_id c).1
  unfolding work
  work-Settled endpoint_id c quiet =
      otherwise-Settled
        (mark_screenshot_failed now id [] [] 0 (codes "endpoint could not be loaded")) _
        (get_endpoint now endpoint_id c) (λ d. mark_failed-Settled [] [] 0 _ d)
        (λ endpoint d. deliver-Settled endpoint (world.capture id endpoint) d)
        (get_endpoint-Quiet now endpoint_id c quiet)

-- If the attempt is claimed and no statement after the claim fails, then process leaves no attempt with
-- this id pending or being captured, whatever became of the endpoint, the capture and the message.
pub process-Settled :
    (world : World) (now : ℕ) (id endpoint_id : Text) (c c' : Conn)
    → Returns (mark_screenshot_capturing now id) c true c'
    → Quiet c'
    → Settled id (process world now id endpoint_id c).1
unfolding process
process-Settled world now id endpoint_id c c' claimed quiet =
    subst
      (λ (r : Result Error Bool × Conn).
        Settled id
          (and_then (λ claimed. if claimed then work world now id endpoint_id else pure tt) r).1)
      (sym claimed) (unfold and_then in work-Settled world now id endpoint_id c' quiet)
