-- ===== src/Store/Once/StaysOff.antt =====
-- A row that is not active, under the operations of internal/db/db.go.
use w8nc.Base.{
  ℕ, ◌+◌, ◌-◌, ◌≡◌, ◌≢◌, ◌⊎◌, refl, sym, ap, ◌∙◌, subst, Bool, true, false, not, ◌&&◌, Option, none,
  some, List, [], ◌∷◌, inl, inr, ltb, if◌then◌else◌, All, Bool-cases,
}
use w8nc.Base.Text.{Text, text_eq_iff}
use w8nc.Models.{Endpoint}
use w8nc.Store.{Db, Conn, pure, when, update_where}
use w8nc.Store.Rules.{
  Keeps, Returns, execute-Keeps, returning-Keeps, changing-Keeps, query-Keeps, pure-Keeps,
  when-Keeps, >>=-Keeps, transaction-Keeps, execute-Ensures, transaction-ok, Ensures-Returns,
  >>=-ok,
}
use w8nc.Store.Rows.{update_where-All, filter-All}
use w8nc.Store.Endpoints.{
  has_id, is_expired, set_expired, deactivate_expired_endpoints, get_endpoint, update_endpoint_row,
  set_activated, activate_endpoint, set_deactivated, deactivate_endpoint, remove_endpoint,
  delete_endpoint, set_locked, lock_rows, lock_found, lock_due, lock_due_endpoints,
}
use w8nc.Store.Runtime.{
  no_resume, set_last_seen, has_deadline, extend, extend_deadlines, resume_from,
  resume_after_downtime,
}
use w8nc.Store.Editing.{EndpointRecord, new_endpoint, create_endpoint, set_edited, update_endpoint}
use w8nc.Store.Editing.Keeping.{create_endpoint-Each, update_from-Each}
use w8nc.Store.Record.{
  Ping, set_last, set_notified_once, set_checked, is_final, insert_check, insert_event,
  update_checked, record_ping_result,
}

-- The row with this id is not active.
abbrev pub IsOff : Text → Endpoint → Type 0
IsOff id row = has_id id row ≡ true → row.active ≡ false

abbrev pub Off : Text → Db → Type 0
Off id db = All (IsOff id) db.endpoints

module _ (id : Text) where
  pub update_where-Off :
      (p : Endpoint → Bool) (f : Endpoint → Endpoint)
      → ((row : Endpoint) → IsOff id row → p row ≡ true → IsOff id (f row))
      → (rows : List Endpoint) → All (IsOff id) rows
      → All (IsOff id) (update_where p f rows)
  update_where-Off p f keep = update_where-All p f (IsOff id) (IsOff id) keep (λ row h _. h)

  pub expire-Off : (now : ℕ) → Keeps (Off id) (deactivate_expired_endpoints now)
  unfolding deactivate_expired_endpoints set_expired
  expire-Off now =
      returning-Keeps (Off id) _ _
        (λ db. update_where-Off (is_expired now) (set_expired now) (λ row h _ _. refl) db.endpoints)

  pub get-Off : (now : ℕ) (other : Text) → Keeps (Off id) (get_endpoint now other)
  unfolding get_endpoint
  get-Off now other = >>=-Keeps (Off id) _ _ (expire-Off now) (λ _. query-Keeps (Off id) _)

  pub update_endpoint_row-Off :
      (other : Text) (f : Endpoint → Endpoint)
      → ((row : Endpoint) → IsOff id row → has_id other row ≡ true → IsOff id (f row))
      → Keeps (Off id) (update_endpoint_row other f)
  unfolding update_endpoint_row
  update_endpoint_row-Off other f keep =
      changing-Keeps (Off id) _ _ (λ db a e. update_where-Off (has_id other) f keep db.endpoints)

  pub deactivate-Off : (now : ℕ) (other : Text) → Keeps (Off id) (deactivate_endpoint now other)
  unfolding deactivate_endpoint set_deactivated
  deactivate-Off now other =
      >>=-Keeps (Off id) _ _
        (update_endpoint_row-Off other (set_deactivated now) (λ row h _ _. refl))
        (λ updated. get-Off now updated)

  pub set_activated-Off :
      (now : ℕ) (other : Text) (row : Endpoint)
      → other ≢ id
      → has_id other row ≡ true
      → IsOff id (set_activated now row)
  unfolding set_activated
  set_activated-Off now other row differ here there =
      absurd (differ (sym ((text_eq_iff row.id other).0 here) ∙ (text_eq_iff row.id id).0 there))

  pub activate-Off :
      (now : ℕ) (other : Text) → other ≢ id → Keeps (Off id) (activate_endpoint now other)
  unfolding activate_endpoint
  activate-Off now other differ =
      >>=-Keeps (Off id) _ _
        (update_endpoint_row-Off other (set_activated now)
          (λ row _ here. set_activated-Off now other row differ here))
        (λ updated. get-Off now updated)

  -- A new endpoint has another id.
  pub create-Off :
      (now : ℕ) (other : Text) (new_id : Text → Text) (edit : EndpointRecord)
      → other ≢ id
      → Keeps (Off id) (create_endpoint other now new_id edit)
  unfolding new_endpoint
  create-Off now other new_id edit differ =
      create_endpoint-Each (IsOff id) other now new_id edit
        (λ same. absurd (differ ((text_eq_iff other id).0 same)))

  set_edited-Off :
      (now : ℕ) (other : Text) (edit : EndpointRecord) (changed : Bool) (current row : Endpoint)
      → (other ≢ id) ⊎ (edit.active ≡ false)
      → has_id other row ≡ true
      → IsOff id (set_edited now edit changed current row)
  unfolding set_edited
  set_edited-Off now other edit changed current row (inl differ) here there =
      absurd (differ (sym ((text_eq_iff row.id other).0 here) ∙ (text_eq_iff row.id id).0 there))
  set_edited-Off now other edit changed current row (inr off) here there = off

  pub update-Off :
      (now : ℕ) (other : Text) (new_id : Text → Text) (edit : EndpointRecord) (changed : Bool)
      → (other ≢ id) ⊎ (edit.active ≡ false)
      → Keeps (Off id) (update_endpoint other now new_id edit changed)
  unfolding update_endpoint
  update-Off now other new_id edit changed quiet =
      >>=-Keeps (Off id) _ _ (get-Off now other) (λ current.
        update_from-Each (IsOff id) other now new_id edit changed current
          (λ row _ here. set_edited-Off now other edit changed current row quiet here))

  pub delete-Off : (other : Text) → Keeps (Off id) (delete_endpoint other)
  unfolding delete_endpoint
  delete-Off other = changing-Keeps (Off id) _ _ (λ db a e h.
      unfold remove_endpoint in
      filter-All (λ row. not (has_id other row)) (IsOff id) db.endpoints h)

  pub lock_rows-Off : (until : ℕ) (rows : List Endpoint) → Keeps (Off id) (lock_rows until rows)
  unfolding lock_rows
  lock_rows-Off until [] = pure-Keeps (Off id) tt
  lock_rows-Off until (row ∷ rows) =
      >>=-Keeps (Off id) _ _
        (execute-Keeps (Off id) _
          (λ db. update_where-Off (has_id row.id) (set_locked until) (λ x h _. h) db.endpoints))
        (λ _. lock_rows-Off until rows)

  pub lock-Off : (now limit lock_for : ℕ) → Keeps (Off id) (lock_due_endpoints now limit lock_for)
  unfolding lock_due_endpoints lock_due lock_found
  lock-Off now limit lock_for = >>=-Keeps (Off id) _ _ (expire-Off now) (λ _.
      transaction-Keeps (Off id) _ (
        >>=-Keeps (Off id) _ _ (query-Keeps (Off id) _) (λ rows.
          >>=-Keeps (Off id) _ _ (lock_rows-Off (now + lock_for) rows)
            (λ _. pure-Keeps (Off id) rows))))

  pub extend_if-Off :
      (late : Bool) (d : ℕ) → Keeps (Off id) (if late then extend_deadlines d else pure no_resume)
  unfolding extend_deadlines
  extend_if-Off true d =
      returning-Keeps (Off id) _ _
        (λ db. update_where-Off has_deadline (extend d) (λ row h _. h) db.endpoints)
  extend_if-Off false d = pure-Keeps (Off id) no_resume

  pub seen-Off : (at : ℕ) → Keeps (Off id) (set_last_seen at)
  unfolding set_last_seen
  seen-Off at = execute-Keeps (Off id) _ (λ db h. h)

  pub resume_from-Off : (now : ℕ) (last : Option ℕ) → Keeps (Off id) (resume_from now last)
  unfolding resume_from
  resume_from-Off now none =
      >>=-Keeps (Off id) _ _ (seen-Off now) (λ _. pure-Keeps (Off id) no_resume)
  resume_from-Off now (some last_seen) =
      >>=-Keeps (Off id) _ _ (extend_if-Off (ltb last_seen now) (now - last_seen))
        (λ resume. >>=-Keeps (Off id) _ _ (seen-Off now) (λ _. pure-Keeps (Off id) resume))

  pub resume-Off : (now : ℕ) → Keeps (Off id) (resume_after_downtime now)
  unfolding resume_after_downtime
  resume-Off now =
      transaction-Keeps (Off id) _
        (>>=-Keeps (Off id) _ _ (query-Keeps (Off id) _) (λ last. resume_from-Off now last))

  pub set_notified_once-Off : (p : Ping) (row : Endpoint) → IsOff id (set_notified_once p row)
  unfolding set_notified_once
  set_notified_once-Off p row _ = refl

  pub set_checked-Off : (p : Ping) (row : Endpoint) → IsOff id row → IsOff id (set_checked p row)
  unfolding set_checked set_last
  set_checked-Off p row h = h

  pub update_checked-Off : (p : Ping) → Keeps (Off id) (update_checked p)
  unfolding update_checked
  update_checked-Off p = execute-Keeps (Off id) _ (λ db.
      update_where-Off (has_id p.endpoint.id) _
        (λ row h _. elim (Bool-cases (is_final p)) [
          | inl e ↦ rw e (set_notified_once-Off p row)
          | inr e ↦ rw e (set_checked-Off p row h)
        ])
        db.endpoints)

  pub insert_check-Off : (p : Ping) → Keeps (Off id) (insert_check p)
  unfolding insert_check
  insert_check-Off p = changing-Keeps (Off id) _ _ (λ db a e h. h)

  pub insert_event-Off : (p : Ping) → Keeps (Off id) (insert_event p)
  unfolding insert_event
  insert_event-Off p = >>=-Keeps (Off id) _ _ (execute-Keeps (Off id) _ (λ db h. h)) (λ _.
      >>=-Keeps (Off id) _ _ (execute-Keeps (Off id) _ (λ db h. h)) (λ _.
        when-Keeps (Off id) p.endpoint.screenshot_on_match _
          (execute-Keeps (Off id) _ (λ db h. h))))

  -- No ping that is recorded switches an endpoint on.
  pub record-Off : (p : Ping) → Keeps (Off id) (record_ping_result p)
  unfolding record_ping_result
  record-Off p = transaction-Keeps (Off id) _ (
      >>=-Keeps (Off id) _ _ (insert_check-Off p) (λ _.
        >>=-Keeps (Off id) _ _
          (when-Keeps (Off id) (p.condition_matched && p.endpoint.active) _ (insert_event-Off p))
          (λ _.
            >>=-Keeps (Off id) _ _ (update_checked-Off p) (λ _. pure-Keeps (Off id) p.ids.check))))

  pub Unit-rows : (rows : List Endpoint) → All (λ row. Unit {0}) rows
  Unit-rows [] = tt
  Unit-rows (row ∷ rows) = (tt, Unit-rows rows)

-- The match of an endpoint that notifies once switches its row off.
pub final_switches-Off :
    (p : Ping) (c c' : Conn) (i : Text)
    → Returns (record_ping_result p) c i c'
    → is_final p ≡ true
    → Off p.endpoint.id c'.db
unfolding record_ping_result update_checked
final_switches-Off p c c' i h final =
    let (c0, c1, same, body, end) = transaction-ok _ c h in
    let (_, c2, checked, rest) = >>=-ok (insert_check p) _ c0 body in
    let (_, c3, notified, rest2) =
      >>=-ok (when (p.condition_matched && p.endpoint.active) (insert_event p)) _ c2 rest in
    let (_, c4, updated, last) = >>=-ok (update_checked p) (λ _. pure p.ids.check) c3 rest2 in
    subst (Off p.endpoint.id) (ap (λ r. r.1.db) last ∙ sym end) (
      Ensures-Returns (λ db. Unit) (Off p.endpoint.id) (update_checked p) c3
        (execute-Ensures (λ db. Unit) (Off p.endpoint.id) _
          (λ db _. rw final (
            update_where-All (has_id p.endpoint.id) (set_notified_once p) (λ row. Unit)
              (IsOff p.endpoint.id) (λ row _ _. set_notified_once-Off p.endpoint.id p row)
              (λ row _ miss hit. absurd (cc)) db.endpoints (Unit-rows p.endpoint.id db.endpoints))))
        tt updated)
