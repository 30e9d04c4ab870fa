-- ===== src/Store/Recording.antt =====
-- The invariant of the endpoints under RecordPingResult (internal/db/db.go).
use w8nc.Base.{◌≡◌, ◌≢◌, true, false, ◌&&◌, none, arith, All, inl, inr, Bool-cases}
use w8nc.Models.{Endpoint, deactivated, PingResult}
use w8nc.Store.{Db, Conn}
use w8nc.Store.Rules.{
  Keeps, Ensures, execute-Keeps, changing-Keeps, when-Keeps, >>=-Keeps, Ensures_of_Keeps,
  execute-Ensures, >>=-Ensures, transaction_result,
}
use w8nc.Store.Rows.{update_where-All, All-imp}
use w8nc.Store.Endpoints.{has_id}
use w8nc.Store.Record.{
  Ping, state_for_result, set_notified_once, set_checked, is_final, insert_check, insert_event,
  update_checked, record_ping_result,
}
use w8nc.Store.Consistency.{IsConsistent, Consistent}

-- The row of the endpoint is as active as the copy that was pinged.
abbrev pub Agrees : Ping → Endpoint → Type 0
Agrees p row = has_id p.endpoint.id row ≡ true → row.active ≡ p.endpoint.active

abbrev pub Ready : Ping → Db → Type 0
Ready p db = All (λ row. IsConsistent row × Agrees p row) db.endpoints

-- The caller names a next run for an active endpoint that stays active.
abbrev pub HasNextRun : Ping → Type 0
HasNextRun p = p.endpoint.active ≡ true → is_final p ≡ false → p.next_run ≢ none

set_notified_once-IsConsistent :
    (p : Ping) (row : Endpoint) → IsConsistent (set_notified_once p row)
unfolding set_notified_once
set_notified_once-IsConsistent p row = ground arith

state_for_result-ne-deactivated : (result : PingResult) → state_for_result true result ≢ deactivated
unfolding state_for_result
state_for_result-ne-deactivated result = ground arith

set_checked-IsConsistent :
    (p : Ping) (row : Endpoint)
    → HasNextRun p
    → is_final p ≡ false
    → IsConsistent row
    → row.active ≡ p.endpoint.active
    → IsConsistent (set_checked p row)
unfolding set_checked
set_checked-IsConsistent p row next final h same = ground arith

update_checked-Ensures : (p : Ping) → HasNextRun p → Ensures (Ready p) (update_checked p) Consistent
unfolding update_checked
update_checked-Ensures p next = execute-Ensures (Ready p) Consistent _ (λ db h.
    update_where-All (has_id p.endpoint.id) _ (λ row. IsConsistent row × Agrees p row) IsConsistent
      (λ row k here. elim (Bool-cases (is_final p)) [
        | inl e ↦ rw e (set_notified_once-IsConsistent p row)
        | inr e ↦ rw e (set_checked-IsConsistent p row next e k.0 (k.1 here))
      ])
      (λ row k there. k.0) db.endpoints h)

insert_check-Keeps : (p q : Ping) → Keeps (Ready q) (insert_check p)
unfolding insert_check
insert_check-Keeps p q = changing-Keeps (Ready q) _ _ (λ db a e h. h)

insert_event-Keeps : (p q : Ping) → Keeps (Ready q) (insert_event p)
unfolding insert_event
insert_event-Keeps p q = >>=-Keeps (Ready q) _ _ (execute-Keeps (Ready q) _ (λ db h. h)) (λ _.
    >>=-Keeps (Ready q) _ _ (execute-Keeps (Ready q) _ (λ db h. h)) (λ _.
      when-Keeps (Ready q) p.endpoint.screenshot_on_match _
        (execute-Keeps (Ready q) _ (λ db h. h))))

-- Recording a ping keeps the endpoints consistent, whichever statements fail, if the pinged copy
-- of the endpoint is as active as its row, and the caller gives an active endpoint that is not
-- switched off by the match a next run.
pub record_ping_result-Consistent :
    (p : Ping) (c : Conn) → HasNextRun p → Ready p c.db → Consistent (record_ping_result p c).1.db
unfolding record_ping_result
record_ping_result-Consistent p c next h =
    transaction_result (Ready p) Consistent _
      (>>=-Ensures (Ready p) (Ready p) Consistent _ _
        (Ensures_of_Keeps (Ready p) (Ready p) _ (insert_check-Keeps p p) (λ db k. k))
        (λ _.
          >>=-Ensures (Ready p) (Ready p) Consistent _ _
            (Ensures_of_Keeps (Ready p) (Ready p) _
              (when-Keeps (Ready p) (p.condition_matched && p.endpoint.active) _
                (insert_event-Keeps p p))
              (λ db k. k))
            (λ _.
              >>=-Ensures (Ready p) Consistent Consistent _ _ (update_checked-Ensures p next)
                (λ _ c' k. k))))
      (λ db k. All-imp _ IsConsistent (λ row pair. pair.0) db.endpoints k) c h
