-- ===== src/Store/Screenshots/Lifecycle.antt =====
-- Who works on a screenshot attempt, and what a retry does (internal/db/db.go).
use w8nc.Base.{
  ℕ, ◌≡◌, ◌≢◌, refl, sym, ap, ◌∙◌, subst, inl, inr, Bool, true, false, List, [], ◌∷◌, arith, ltb,
  if◌then◌else◌, All, Bool-cases,
}
use w8nc.Base.Result.{Result, ok, err, ok-injective}
use w8nc.Base.Sort.{Unit-All}
use w8nc.Base.Text.{Text, text_eq_iff}
use w8nc.Models.{ScreenshotAttempt, AttemptStatus}
use w8nc.Store.{
  Error, invalid_state, Db, Conn, Op, and_then, fail, query, update_where, count_where, find_row,
}
use w8nc.Store.Rules.{
  Keeps, Returns, Fails, execute-Keeps, returning-Keeps, changing-Keeps, query-Keeps, >>=-Keeps,
  returning-ok, query-ok, changing-ok, changing-err,
}
use w8nc.Store.Rows.{update_where-All}
use w8nc.Store.Screenshots.{
  attempt_id, is_failed, can_claim, set_capturing, mark_screenshot_capturing, set_succeeded,
  mark_screenshot_succeeded, set_attempt_failed, mark_screenshot_failed, set_unsupported,
  mark_screenshot_unsupported, screenshot_attempt, set_retried, retried, reset_attempt,
  retry_screenshot_attempt,
}

-- The attempt with this id cannot be claimed.
abbrev pub IsTaken : Text → ScreenshotAttempt → Type 0
IsTaken id row = can_claim id row ≡ false

abbrev pub Taken : Text → Db → Type 0
Taken id db = All (IsTaken id) db.screenshot_attempts

-- An operation of the worker or of the API on the attempts.
pub data Act : Type 0 where
  claim retry : ℕ → Text → Act
  succeed : ℕ → Text → Text → Text → ℕ → Act
  give_up : ℕ → Text → Text → Text → ℕ → Text → Act
  refuse : ℕ → Text → Text → Act

abbrev pub act : Act → Conn → Conn
act (claim now id) c = (mark_screenshot_capturing now id c).1
act (retry now id) c = (retry_screenshot_attempt now id c).1
act (succeed now id path type size) c = (mark_screenshot_succeeded now id path type size c).1
act (give_up now id path type size message) c =
    (mark_screenshot_failed now id path type size message c).1
act (refuse now id message) c = (mark_screenshot_unsupported now id message c).1

abbrev pub run : List Act → Conn → Conn
run [] c = c
run (a ∷ acts) c = run acts (act a c)

-- No retry of this attempt.
abbrev pub LeavesTaken : Text → Act → Type 0
LeavesTaken id (retry now other) = other ≢ id
LeavesTaken id _ = Unit

module _ (id : Text) where
  update-Taken :
      (p : ScreenshotAttempt → Bool) (f : ScreenshotAttempt → ScreenshotAttempt)
      → ((row : ScreenshotAttempt) → IsTaken id row → p row ≡ true → IsTaken id (f row))
      → (db : Db) → Taken id db
      → All (IsTaken id) (update_where p f db.screenshot_attempts)
  update-Taken p f keep db =
      update_where-All p f (IsTaken id) (IsTaken id) keep (λ row h _. h) db.screenshot_attempts

  claim-Taken : (now : ℕ) (other : Text) → Keeps (Taken id) (mark_screenshot_capturing now other)
  unfolding mark_screenshot_capturing
  claim-Taken now other =
      returning-Keeps (Taken id) _ _
        (update-Taken (can_claim other) (set_capturing now) (λ row h _. ground arith))

  succeed-Taken :
      (now : ℕ) (other path type : Text) (size : ℕ)
      → Keeps (Taken id) (mark_screenshot_succeeded now other path type size)
  unfolding mark_screenshot_succeeded
  succeed-Taken now other path type size =
      execute-Keeps (Taken id) _ (
        update-Taken (attempt_id other) (set_succeeded now path type size)
          (λ row h _. ground arith))

  give_up-Taken :
      (now : ℕ) (other path type : Text) (size : ℕ) (message : Text)
      → Keeps (Taken id) (mark_screenshot_failed now other path type size message)
  unfolding mark_screenshot_failed
  give_up-Taken now other path type size message = execute-Keeps (Taken id) _ (
      update-Taken (attempt_id other) (set_attempt_failed now path type size message)
        (λ row h _. ground arith))

  refuse-Taken :
      (now : ℕ) (other message : Text)
      → Keeps (Taken id) (mark_screenshot_unsupported now other message)
  unfolding mark_screenshot_unsupported
  refuse-Taken now other message =
      execute-Keeps (Taken id) _
        (update-Taken (attempt_id other) (set_unsupported now message) (λ row h _. ground arith))

  reset-Taken : (now : ℕ) (other : Text) → other ≢ id → Keeps (Taken id) (reset_attempt now other)
  unfolding reset_attempt
  reset-Taken now other differ = changing-Keeps (Taken id) _ _ (λ db a e.
      update-Taken (attempt_id other) (set_retried now)
        (λ row h hit. elim (Bool-cases (attempt_id id row)) [
          | inl same ↦
              absurd
                (differ (sym ((text_eq_iff row.id other).0 hit) ∙ (text_eq_iff row.id id).0 same))
          | inr miss ↦ rw miss refl
        ])
        db)

  if-Taken :
      {A : Type 0} (b : Bool) (op : Op A) (e : Error)
      → Keeps (Taken id) op
      → Keeps (Taken id) (if b then op else fail e)
  if-Taken true op e keep = keep
  if-Taken false op e keep = λ c h. h

  retry-Taken :
      (now : ℕ) (other : Text) → other ≢ id → Keeps (Taken id) (retry_screenshot_attempt now other)
  unfolding retry_screenshot_attempt screenshot_attempt
  retry-Taken now other differ =
      >>=-Keeps (Taken id) _ _ (query-Keeps (Taken id) _)
        (λ current. if-Taken (is_failed current.status) _ _ (reset-Taken now other differ))

  act-Taken : (a : Act) (c : Conn) → LeavesTaken id a → Taken id c.db → Taken id (act a c).db
  act-Taken (claim now other) c q h = claim-Taken now other c h
  act-Taken (retry now other) c q h = retry-Taken now other q c h
  act-Taken (succeed now other path type size) c q h = succeed-Taken now other path type size c h
  act-Taken (give_up now other path type size message) c q h =
      give_up-Taken now other path type size message c h
  act-Taken (refuse now other message) c q h = refuse-Taken now other message c h

  run-Taken :
      (acts : List Act) (c : Conn)
      → All (LeavesTaken id) acts
      → Taken id c.db
      → Taken id (run acts c).db
  run-Taken [] c q h = h
  run-Taken (a ∷ acts) c (q, qs) h = run-Taken acts (act a c) qs (act-Taken a c q h)

  none_claimed :
      (rows : List ScreenshotAttempt) → All (IsTaken id) rows → count_where (can_claim id) rows ≡ 0
  unfolding count_where
  none_claimed [] h = refl
  none_claimed (row ∷ rows) (here, later) =
      let rest = none_claimed rows later in rw here (omega arith)

  -- Every claim leaves nothing to claim.
  claimed-Taken :
      (now : ℕ) (c : Conn) {b : Bool} {c' : Conn}
      → Returns (mark_screenshot_capturing now id) c b c'
      → Taken id c'.db
  unfolding mark_screenshot_capturing
  claimed-Taken now c h =
      let (_, e) = returning-ok _ _ c h in
      subst (Taken id) (sym e) (
        update_where-All (can_claim id) (set_capturing now) (λ row. Unit {0}) (IsTaken id)
          (λ row _ hit. ground arith) (λ row _ miss. miss) c.db.screenshot_attempts
          (Unit-All c.db.screenshot_attempts))

-- After one worker has claimed an attempt, no other claim of it succeeds, whatever happens to the
-- attempts and whichever statements fail, until the attempt is retried.
pub claim_excludes :
    (id : Text) (now : ℕ) (c c' : Conn) (acts : List Act) (t : ℕ) (d : Conn) (b : Bool)
    → Returns (mark_screenshot_capturing now id) c true c'
    → All (LeavesTaken id) acts
    → Returns (mark_screenshot_capturing t id) (run acts c') b d
    → b ≡ false
unfolding mark_screenshot_capturing
claim_excludes id now c c' acts t d b h quiet again =
    let taken = run-Taken id acts c' quiet (claimed-Taken id now c h) in
    let (counted, _) = returning-ok _ _ (run acts c') again in
    sym counted ∙ ap (ltb 0) (none_claimed id (run acts c').db.screenshot_attempts taken)

-- What a retry that returns a row has found, and that one that fails changes nothing.
abbrev pub Retries : ℕ → Text → Db → Result Error ScreenshotAttempt × Conn → Type 0
Retries now id db (ok row, c) =
    (old : ScreenshotAttempt) × (find_row (attempt_id id) db.screenshot_attempts ≡ ok old)
    × (old.status ≡ AttemptStatus.failed)
    × (row ≡ set_retried now old)
    × (c.db.screenshot_attempts
        ≡ update_where (attempt_id id) (set_retried now) db.screenshot_attempts)
Retries now id db (err e, c) = c.db ≡ db

retried-ok :
    (now : ℕ) (r : Result Error ScreenshotAttempt) {row : ScreenshotAttempt}
    → retried now r ≡ ok row
    → (old : ScreenshotAttempt) × (r ≡ ok old) × (row ≡ set_retried now old)
retried-ok now (ok old) h = (old, refl, sym (ok-injective h))
retried-ok now (err e) h = absurd (ground arith)

failed_status : (status : AttemptStatus) → is_failed status ≡ true → status ≡ AttemptStatus.failed
failed_status AttemptStatus.failed h = refl
failed_status AttemptStatus.pending h = absurd (ground arith)
failed_status AttemptStatus.capturing h = absurd (ground arith)
failed_status AttemptStatus.succeeded h = absurd (ground arith)
failed_status AttemptStatus.unsupported h = absurd (ground arith)

module _ (now : ℕ) (id : Text) (c c' : Conn) where
  reset-Fails : (e : Error) → Fails (reset_attempt now id) c e c' → c'.db ≡ c.db
  unfolding reset_attempt
  reset-Fails e h = changing-err _ _ c h

  reset-Returns :
      (row : ScreenshotAttempt)
      → Returns (reset_attempt now id) c row c'
      → (old : ScreenshotAttempt) × (find_row (attempt_id id) c.db.screenshot_attempts ≡ ok old)
        × (row ≡ set_retried now old)
        × (c'.db.screenshot_attempts
            ≡ update_where (attempt_id id) (set_retried now) c.db.screenshot_attempts)
  unfolding reset_attempt
  reset-Returns row h =
      let (found, changed) =
        changing-ok (λ db. retried now (find_row (attempt_id id) db.screenshot_attempts)) _ c h in
      let (old, there, is_retried) = retried-ok now _ found in
      (old, there, is_retried, ap (λ db. db.screenshot_attempts) changed)

-- RetryScreenshotAttempt, if it succeeds, has found a failed attempt with this id, returns it pending
-- and with no image, and sets its row so; if it fails, nothing changes.
pub retry_screenshot_attempt_guarded :
    (now : ℕ) (id : Text) (c : Conn) → Retries now id c.db (retry_screenshot_attempt now id c)
unfolding retry_screenshot_attempt screenshot_attempt and_then query
retry_screenshot_attempt_guarded now id c = go (screenshot_attempt id c) refl
  where
    reset :
        (current : ScreenshotAttempt) (c1 : Conn) (b : Bool)
        → find_row (attempt_id id) c.db.screenshot_attempts ≡ ok current
        → c1.db ≡ c.db
        → is_failed current.status ≡ b
        → (r : Result Error ScreenshotAttempt × Conn)
        → (if b then reset_attempt now id else fail invalid_state) c1 ≡ r
        → Retries now id c.db r
    reset current c1 false found same failed (ok row, c') h = absurd (ground arith)
    reset current c1 false found same failed (err e, c') h = ap (λ r. r.1.db) (sym h) ∙ same
    reset current c1 true found same failed (err e, c') h = reset-Fails now id c1 c' e h ∙ same
    reset current c1 true found same failed (ok row, c') h =
        let (old, there, is_retried, rows) = reset-Returns now id c1 c' row h in
        let is_current : old ≡ current =
          ok-injective (
            sym there
            ∙ (ap (λ db. find_row (attempt_id id) db.screenshot_attempts) same ∙ found)) in
        (
          current,
          found,
          failed_status current.status failed,
          is_retried ∙ ap (set_retried now) is_current,
          rows
              ∙ ap (λ db. update_where (attempt_id id) (set_retried now) db.screenshot_attempts)
                  same,
        )

    go :
        (r : Result Error ScreenshotAttempt × Conn)
        → screenshot_attempt id c ≡ r
        → Retries now id c.db (
            and_then
              (λ current.
                if is_failed current.status then reset_attempt now id else fail invalid_state)
              r)
    go (err e, c1) h = changing-err _ _ c h
    go (ok current, c1) h =
        let (found, same) = query-ok (λ db. find_row (attempt_id id) db.screenshot_attempts) c h in
        reset current c1 (is_failed current.status) found same refl _ refl
