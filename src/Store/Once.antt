-- ===== src/Store/Once.antt =====
-- The match of an endpoint that notifies once, and what can happen after it (internal/db/db.go).
pub mod StaysOff
use w8nc.Base.{
  ℕ, ◌+◌, ◌-◌, ◌≡◌, ◌≢◌, ◌⊎◌, refl, sym, ap, ◌∙◌, subst, Bool, true, false, not, ◌&&◌, Option, none,
  some, List, [], ◌∷◌, inl, inr, ltb, if◌then◌else◌, any, All, Bool-cases,
}
use w8nc.Base.Text.{Text, text_eq_iff}
use w8nc.Models.{Endpoint}
use w8nc.Store.{Db, Conn, pure, when, update_where}
use w8nc.Store.Rules.{
  Keeps, Returns, execute-Keeps, returning-Keeps, changing-Keeps, query-Keeps, pure-Keeps,
  when-Keeps, >>=-Keeps, transaction-Keeps, execute-Ensures, transaction-ok, Ensures-Returns,
  >>=-ok,
}
use w8nc.Store.Rows.{update_where-All, filter-All, All-imp}
use w8nc.Store.Endpoints.{
  has_id, is_expired, set_expired, deactivate_expired_endpoints, get_endpoint, update_endpoint_row,
  set_activated, activate_endpoint, set_deactivated, deactivate_endpoint, remove_endpoint,
  delete_endpoint, set_locked, lock_rows, lock_found, lock_due, lock_due_endpoints,
}
use w8nc.Store.Runtime.{
  no_resume, set_last_seen, has_deadline, extend, extend_deadlines, resume_from,
  resume_after_downtime, mark_runtime_seen,
}
use w8nc.Store.Record.{
  Ping, set_last, set_notified_once, set_checked, is_final, insert_check, insert_event,
  update_checked, record_ping_result,
}
use w8nc.Store.Consistency.{
  Request, get, activate, deactivate, delete, expire, mark_seen, resume, lock, perform,
}
use w8nc.Store.Editing.{EndpointRecord, create_endpoint, update_endpoint}
use w8nc.Store.Locking.{Rests, lock_due_endpoints-Rests}
use w8nc.Store.Once.StaysOff.{
  IsOff, Off, Unit-rows, activate-Off, create-Off, update-Off, deactivate-Off, delete-Off,
  expire-Off, extend_if-Off, final_switches-Off, get-Off, insert_check-Off, insert_event-Off,
  lock-Off, lock_rows-Off, record-Off, resume-Off, resume_from-Off, seen-Off, set_activated-Off,
  set_checked-Off, set_notified_once-Off, update_checked-Off, update_endpoint_row-Off,
  update_where-Off,
}

-- What happens to the endpoints: an operation on them, or a ping that is recorded.
pub data Act : Type 0 where
  asks : ℕ → Request → Act
  records : Ping → Act
  creates : Text → ℕ → (Text → Text) → EndpointRecord → Act
  updates : Text → ℕ → (Text → Text) → EndpointRecord → Bool → Act

abbrev pub act : Act → Conn → Conn
act (asks now request) c = perform now request c
act (records p) c = (record_ping_result p c).1
act (creates id now new_id edit) c = (create_endpoint id now new_id edit c).1
act (updates id now new_id edit changed) c = (update_endpoint id now new_id edit changed c).1

abbrev pub run : List Act → Conn → Conn
run [] c = c
run (a ∷ acts) c = run acts (act a c)

-- Nothing that activates this endpoint: no ActivateEndpoint and no edit as active, and no new endpoint
-- takes its id.
abbrev pub LeavesOff : Text → Act → Type 0
LeavesOff id (asks now (activate other)) = other ≢ id
LeavesOff id (asks now _) = Unit
LeavesOff id (records p) = Unit
LeavesOff id (creates other now new_id edit) = other ≢ id
LeavesOff id (updates other now new_id edit changed) = (other ≢ id) ⊎ (edit.active ≡ false)

act-Off : (id : Text) (a : Act) (c : Conn) → LeavesOff id a → Off id c.db → Off id (act a c).db
unfolding mark_runtime_seen
act-Off id (asks now (get other)) c q h = get-Off id now other c h
act-Off id (asks now (activate other)) c q h = activate-Off id now other q c h
act-Off id (asks now (deactivate other)) c q h = deactivate-Off id now other c h
act-Off id (asks now (delete other)) c q h = delete-Off id other c h
act-Off id (asks now expire) c q h = expire-Off id now c h
act-Off id (asks now mark_seen) c q h = seen-Off id now c h
act-Off id (asks now resume) c q h = resume-Off id now c h
act-Off id (asks now (lock limit lock_for)) c q h = lock-Off id now limit lock_for c h
act-Off id (records p) c q h = record-Off id p c h
act-Off id (creates other now new_id edit) c q h = create-Off id now other new_id edit q c h
act-Off id (updates other now new_id edit changed) c q h =
    update-Off id now other new_id edit changed q c h

run-Off :
    (id : Text) (acts : List Act) (c : Conn)
    → All (LeavesOff id) acts
    → Off id c.db
    → Off id (run acts c).db
run-Off id [] c q h = h
run-Off id (a ∷ acts) c (q, qs) h = run-Off id acts (act a c) qs (act-Off id a c q h)

-- Once the match of an endpoint that notifies once is recorded, no LockDueEndpoints hands the endpoint
-- out again, however endpoints are read, created, edited, activated, deactivated, deleted, expired,
-- resumed, locked and pinged meanwhile and whichever of these statements fail, until this endpoint is
-- activated or edited as active, or a new one takes its id.
pub notify_once :
    (p : Ping) (c c' : Conn) (i : Text) (acts : List Act) (t limit lock_for : ℕ)
    (rows : List Endpoint) (d : Conn)
    → Returns (record_ping_result p) c i c'
    → is_final p ≡ true
    → All (LeavesOff p.endpoint.id) acts
    → Returns (lock_due_endpoints t limit lock_for) (run acts c') rows d
    → any (has_id p.endpoint.id) rows ≡ false
notify_once p c c' i acts t limit lock_for rows d h final quiet locks =
    let off = run-Off p.endpoint.id acts c' quiet (final_switches-Off p c c' i h final) in
    lock_due_endpoints-Rests t limit lock_for (run acts c') d rows p.endpoint.id
      (All-imp (IsOff p.endpoint.id) (Rests p.endpoint.id t) (λ row is_off same. rw (is_off same))
        (run acts c').db.endpoints off)
      locks
