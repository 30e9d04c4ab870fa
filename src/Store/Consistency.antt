-- ===== src/Store/Consistency.antt =====
-- The invariant of the table `endpoints`, and the operations of internal/db/db.go that keep it.
use w8nc.Base.{
  ℕ, ◌+◌, ◌-◌, ◌≡◌, ◌≢◌, Bool, true, false, Option, none, some, List, [], ◌∷◌, arith, ltb,
  if◌then◌else◌, All,
}
use w8nc.Base.Text.{Text}
use w8nc.Models.{Endpoint, deactivated}
use w8nc.Store.{Db, Conn, pure}
use w8nc.Store.Rules.{
  Keeps, returning-Keeps, execute-Keeps, query-Keeps, pure-Keeps, >>=-Keeps, transaction-Keeps,
}
use w8nc.Store.Runtime.{
  no_resume, set_last_seen, has_deadline, extend, extend_deadlines, resume_from,
  resume_after_downtime, mark_runtime_seen,
}
use w8nc.Store.Each.{
  update_where-Each, deactivate_expired_endpoints-Each, get_endpoint-Each, activate_endpoint-Each,
  deactivate_endpoint-Each, delete_endpoint-Each,
}
use w8nc.Store.Endpoints.{
  has_id, set_expired, deactivate_expired_endpoints, get_endpoint, set_activated, activate_endpoint,
  set_deactivated, deactivate_endpoint, delete_endpoint, set_locked, lock_rows, lock_found,
  lock_due, lock_due_endpoints,
}

-- A row that is not active has no next run and no deadline; an active one has a next run and does
-- not show as deactivated.
pub record IsConsistent (row : Endpoint) : Type 0 where
  pub no_run : row.active ≡ false → row.next_run_at ≡ none
  pub no_deadline : row.active ≡ false → row.deactivate_at ≡ none
  pub scheduled : row.active ≡ true → row.next_run_at ≢ none
  pub shown : row.active ≡ true → row.state ≢ deactivated

abbrev pub Consistent : Db → Type 0
Consistent db = All IsConsistent db.endpoints

pub set_expired-IsConsistent : (now : ℕ) (row : Endpoint) → IsConsistent (set_expired now row)
unfolding set_expired
set_expired-IsConsistent now row = ground arith

set_activated-IsConsistent : (now : ℕ) (row : Endpoint) → IsConsistent (set_activated now row)
unfolding set_activated
set_activated-IsConsistent now row = ground arith

set_deactivated-IsConsistent : (now : ℕ) (row : Endpoint) → IsConsistent (set_deactivated now row)
unfolding set_deactivated
set_deactivated-IsConsistent now row = ground arith

set_locked-IsConsistent :
    (until : ℕ) (row : Endpoint) → IsConsistent row → IsConsistent (set_locked until row)
set_locked-IsConsistent until row h = ground arith

pub deactivate_expired_endpoints-Keeps :
    (now : ℕ) → Keeps Consistent (deactivate_expired_endpoints now)
deactivate_expired_endpoints-Keeps now =
    deactivate_expired_endpoints-Each IsConsistent now (λ row _. set_expired-IsConsistent now row)

pub get_endpoint-Keeps : (now : ℕ) (id : Text) → Keeps Consistent (get_endpoint now id)
get_endpoint-Keeps now =
    get_endpoint-Each IsConsistent now (λ row _. set_expired-IsConsistent now row)

activate_endpoint-Keeps : (now : ℕ) (id : Text) → Keeps Consistent (activate_endpoint now id)
activate_endpoint-Keeps now =
    activate_endpoint-Each IsConsistent now (λ row _. set_expired-IsConsistent now row)
      (λ row _. set_activated-IsConsistent now row)

deactivate_endpoint-Keeps : (now : ℕ) (id : Text) → Keeps Consistent (deactivate_endpoint now id)
deactivate_endpoint-Keeps now =
    deactivate_endpoint-Each IsConsistent now (λ row _. set_expired-IsConsistent now row)
      (λ row _. set_deactivated-IsConsistent now row)

lock_rows-Keeps : (until : ℕ) (rows : List Endpoint) → Keeps Consistent (lock_rows until rows)
unfolding lock_rows
lock_rows-Keeps until [] = pure-Keeps Consistent tt
lock_rows-Keeps until (row ∷ rows) =
    >>=-Keeps Consistent _ _
      (execute-Keeps Consistent _ (λ db.
        update_where-Each IsConsistent (has_id row.id) (set_locked until)
          (set_locked-IsConsistent until) db.endpoints))
      (λ _. lock_rows-Keeps until rows)

lock_due_endpoints-Keeps :
    (now limit lock_for : ℕ) → Keeps Consistent (lock_due_endpoints now limit lock_for)
unfolding lock_due_endpoints lock_due lock_found
lock_due_endpoints-Keeps now limit lock_for =
    >>=-Keeps Consistent _ _ (deactivate_expired_endpoints-Keeps now) (λ _.
      transaction-Keeps Consistent _ (
        >>=-Keeps Consistent _ _ (query-Keeps Consistent _) (λ rows.
          >>=-Keeps Consistent _ _ (lock_rows-Keeps (now + lock_for) rows)
            (λ _. pure-Keeps Consistent rows))))

extend-IsConsistent : (d : ℕ) (row : Endpoint) → IsConsistent row → IsConsistent (extend d row)
extend-IsConsistent d row h = ground arith

extend_deadlines-Keeps : (d : ℕ) → Keeps Consistent (extend_deadlines d)
unfolding extend_deadlines
extend_deadlines-Keeps d = returning-Keeps Consistent _ _ (λ db.
    update_where-Each IsConsistent has_deadline (extend d) (extend-IsConsistent d) db.endpoints)

set_last_seen-Keeps : (at : ℕ) → Keeps Consistent (set_last_seen at)
unfolding set_last_seen
set_last_seen-Keeps at = execute-Keeps Consistent _ (λ db h. h)

extend_if-Keeps :
    (late : Bool) (d : ℕ) → Keeps Consistent (if late then extend_deadlines d else pure no_resume)
extend_if-Keeps true d = extend_deadlines-Keeps d
extend_if-Keeps false d = pure-Keeps Consistent no_resume

resume_from-Keeps : (now : ℕ) (last : Option ℕ) → Keeps Consistent (resume_from now last)
unfolding resume_from
resume_from-Keeps now none =
    >>=-Keeps Consistent _ _ (set_last_seen-Keeps now) (λ _. pure-Keeps Consistent no_resume)
resume_from-Keeps now (some last_seen) =
    >>=-Keeps Consistent _ _ (extend_if-Keeps (ltb last_seen now) (now - last_seen)) (λ resume.
      >>=-Keeps Consistent _ _ (set_last_seen-Keeps now) (λ _. pure-Keeps Consistent resume))

resume_after_downtime-Keeps : (now : ℕ) → Keeps Consistent (resume_after_downtime now)
unfolding resume_after_downtime
resume_after_downtime-Keeps now =
    transaction-Keeps Consistent _
      (>>=-Keeps Consistent _ _ (query-Keeps Consistent _) (λ last. resume_from-Keeps now last))

-- An operation on the endpoints that the scheduler, the API or the start of the program asks for.
pub data Request : Type 0 where
  get activate deactivate delete : Text → Request
  expire mark_seen resume : Request
  lock : ℕ → ℕ → Request

-- The operation at a time, without its result.
abbrev pub perform : ℕ → Request → Conn → Conn
perform now (get id) c = (get_endpoint now id c).1
perform now (activate id) c = (activate_endpoint now id c).1
perform now (deactivate id) c = (deactivate_endpoint now id c).1
perform now (delete id) c = (delete_endpoint id c).1
perform now expire c = (deactivate_expired_endpoints now c).1
perform now mark_seen c = (mark_runtime_seen now c).1
perform now resume c = (resume_after_downtime now c).1
perform now (lock limit lock_for) c = (lock_due_endpoints now limit lock_for c).1

-- GetEndpoint, ActivateEndpoint, DeactivateEndpoint, DeleteEndpoint, DeactivateExpiredEndpoints,
-- MarkRuntimeSeen, ResumeAfterDowntime and LockDueEndpoints each keep the endpoints consistent, whichever of
-- their statements fail: an inactive row has no next run and no deadline, an active one has a next run and
-- another state than deactivated.
pub perform-Consistent :
    (now : ℕ) (request : Request) (c : Conn)
    → Consistent c.db
    → Consistent (perform now request c).db
unfolding mark_runtime_seen
perform-Consistent now (get id) c h = get_endpoint-Keeps now id c h
perform-Consistent now (activate id) c h = activate_endpoint-Keeps now id c h
perform-Consistent now (deactivate id) c h = deactivate_endpoint-Keeps now id c h
perform-Consistent now (delete id) c h = delete_endpoint-Each IsConsistent id c h
perform-Consistent now expire c h = deactivate_expired_endpoints-Keeps now c h
perform-Consistent now mark_seen c h = set_last_seen-Keeps now c h
perform-Consistent now resume c h = resume_after_downtime-Keeps now c h
perform-Consistent now (lock limit lock_for) c h = lock_due_endpoints-Keeps now limit lock_for c h
