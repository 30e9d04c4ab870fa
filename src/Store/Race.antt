-- ===== src/Store/Race.antt =====
-- Recording a ping whose copy of the endpoint is out of date (internal/db/db.go).
use w8nc.Base.{
  ℕ, ◌≡◌, refl, ◌∙◌, sym, ap, subst, true, false, ◌&&◌, none, List, [], ◌∷◌, ◌++◌, arith, any, All,
}
use w8nc.Base.Text.{Text}
use w8nc.Models.{Endpoint}
use w8nc.Store.{Db, Conn, ◌>>◌, pure, when}
use w8nc.Store.Rules.{
  Keeps, Ensures, Returns, execute-Keeps, changing-Keeps, when-Keeps, >>=-Keeps, Ensures_of_Keeps,
  execute-Ensures, >>=-Ensures, transaction-ok, Ensures-Returns,
}
use w8nc.Store.Rows.{update_where-All, All-imp}
use w8nc.Store.Endpoints.{has_id, lock_due_endpoints}
use w8nc.Store.Record.{
  Ping, set_last, set_checked, is_final, insert_check, insert_event, update_checked, new_event,
  record_ping_result,
}
use w8nc.Store.Logging.{notifies, one_event, logged_events}
use w8nc.Store.Once.StaysOff.{IsOff, final_switches-Off}
use w8nc.Store.Locking.{Rests, lock_due_endpoints-Rests}

-- The row with this id is active.
abbrev pub IsOn : Text → Endpoint → Type 0
IsOn id row = has_id id row ≡ true → row.active ≡ true

-- The row with this id is active and has no next run.
abbrev pub IsStuck : Text → Endpoint → Type 0
IsStuck id row = has_id id row ≡ true → (row.active ≡ true) × (row.next_run_at ≡ none)

module _ (p : Ping) (stale : p.endpoint.active ≡ false) where
  unfoldable On : Db → Type 0
  On db = All (IsOn p.endpoint.id) db.endpoints

  unfoldable Stuck : Db → Type 0
  Stuck db = All (IsStuck p.endpoint.id) db.endpoints

  not_final : is_final p ≡ false
  not_final = ground arith

  set_checked-IsStuck :
      (row : Endpoint)
      → IsOn p.endpoint.id row
      → has_id p.endpoint.id row ≡ true
      → IsStuck p.endpoint.id (set_checked p row)
  unfolding set_checked set_last
  set_checked-IsStuck row on same _ = (on same, rw stale)

  update_checked-Stuck : Ensures On (update_checked p) Stuck
  unfolding update_checked On Stuck
  update_checked-Stuck = execute-Ensures On Stuck _ (λ db h. rw not_final (
      update_where-All (has_id p.endpoint.id) (set_checked p) (IsOn p.endpoint.id)
        (IsStuck p.endpoint.id) set_checked-IsStuck (λ row _ miss hit. absurd (cc)) db.endpoints h))

  insert_check-On : Keeps On (insert_check p)
  unfolding insert_check On
  insert_check-On = changing-Keeps On _ _ (λ db a e h. h)

  insert_event-On : Keeps On (insert_event p)
  unfolding insert_event On
  insert_event-On = >>=-Keeps On _ _ (execute-Keeps On _ (λ db h. h)) (λ _.
      >>=-Keeps On _ _ (execute-Keeps On _ (λ db h. h))
        (λ _. when-Keeps On p.endpoint.screenshot_on_match _ (execute-Keeps On _ (λ db h. h))))

  recorded-Stuck :
      (c c' : Conn) (i : Text) → On c.db → Returns (record_ping_result p) c i c' → Stuck c'.db
  unfolding record_ping_result
  recorded-Stuck c c' i on h =
      let (c0, c1, same, body, end) = transaction-ok _ c h in
      subst Stuck (sym end) (Ensures-Returns On Stuck _ c0 body-Stuck (subst On (sym same) on) body)
    where
      body-Stuck :
          Ensures On
            (do
              insert_check p
              when (p.condition_matched && p.endpoint.active) (insert_event p)
              update_checked p
              pure p.ids.check)
            Stuck
      body-Stuck =
          >>=-Ensures On On Stuck _ _ (Ensures_of_Keeps On On _ insert_check-On (λ db k. k)) (λ _.
            >>=-Ensures On On Stuck _ _
              (Ensures_of_Keeps On On _
                (when-Keeps On (p.condition_matched && p.endpoint.active) _ insert_event-On)
                (λ db k. k))
              (λ _. >>=-Ensures On Stuck Stuck _ _ update_checked-Stuck (λ _ c' k. k)))

-- If an endpoint is activated while a ping of its inactive copy is under way, recording that ping
-- leaves the row active with no next run, and no LockDueEndpoints that follows returns it.
pub stale_ping_loses_schedule :
    (p : Ping) (c c' : Conn) (i : Text) (t limit lock_for : ℕ) (rows : List Endpoint) (d : Conn)
    → p.endpoint.active ≡ false
    → All (IsOn p.endpoint.id) c.db.endpoints
    → Returns (record_ping_result p) c i c'
    → Returns (lock_due_endpoints t limit lock_for) c' rows d
    → All (IsStuck p.endpoint.id) c'.db.endpoints × (any (has_id p.endpoint.id) rows ≡ false)
unfolding On Stuck
stale_ping_loses_schedule p c c' i t limit lock_for rows d stale on h locks =
    let stuck = recorded-Stuck p stale c c' i on h in
    (
      stuck,
      lock_due_endpoints-Rests t limit lock_for c' d rows p.endpoint.id
          (All-imp (IsStuck p.endpoint.id) (Rests p.endpoint.id t)
            (λ row k same. rw ((k same).0, (k same).1)) c'.db.endpoints stuck)
          locks,
    )

-- Two pings of one active copy of an endpoint that notifies once, both matching, are both recorded with an
-- event of this endpoint, though the first has switched the endpoint off.
pub two_matches_notify_twice :
    (p q : Ping) (c c1 c2 : Conn) (i j : Text)
    → q.endpoint ≡ p.endpoint
    → p.endpoint.active ≡ true
    → p.endpoint.notify_once ≡ true
    → p.condition_matched ≡ true
    → q.condition_matched ≡ true
    → Returns (record_ping_result p) c i c1
    → Returns (record_ping_result q) c1 j c2
    → All (IsOff p.endpoint.id) c1.db.endpoints
      × (c2.db.notification_events
          ≡ (c.db.notification_events ++ new_event p ∷ []) ++ new_event q ∷ [])
      × ((new_event p).endpoint_id ≡ p.endpoint.id)
      × ((new_event q).endpoint_id ≡ p.endpoint.id)
unfolding new_event
two_matches_notify_twice p q c c1 c2 i j copy on once matched_p matched_q hp hq =
    let np : notifies p ≡ true = rw (matched_p, on) refl in
    let nq : notifies q ≡ true = rw (matched_q, ap (λ e. e.active) copy, on) refl in
    let final : is_final p ≡ true = rw (matched_p, on, once) refl in
    (
      final_switches-Off p c c1 i hp final,
      logged_events q c1 c2 j hq
          ∙ (ap (λ events. c1.db.notification_events ++ events) (one_event q nq)
              ∙ ap (λ events. events ++ new_event q ∷ [])
                  (logged_events p c c1 i hp
                    ∙ ap (λ events. c.db.notification_events ++ events) (one_event p np))),
      refl,
      ap (λ e. e.id) copy,
    )
