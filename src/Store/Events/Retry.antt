-- ===== src/Store/Events/Retry.antt =====
-- How often a notification is tried (internal/db/db.go: DueNotificationEvents, MarkNotificationSent,
-- MarkNotificationFailed).
use w8nc.Base.{
  ℕ, suc, ◌≤◌, ◌<◌, ◌≡◌, refl, sym, ap, ◌∙◌, subst, ◌≢◌, inl, inr, true, List, [], ◌∷◌, arith,
  length, length-take-le, filter, take, any, All, All-take, Bool-cases,
}
use w8nc.Base.Result.{ok-injective}
use w8nc.Base.Sort.{
  sort_by, Ordered, take-Ordered, sort_by-Ordered, sort_by-All, filter-selects, Unit-All,
}
use w8nc.Base.Text.{Text, text_eq_iff}
use w8nc.Models.{NotificationEvent, EventStatus}
use w8nc.Store.{Conn}
use w8nc.Store.Rules.{Returns, execute-ok, query-ok}
use w8nc.Store.Rows.{update_where-All, All-imp}
use w8nc.Store.Events.{
  event_id, is_event_due, status_due, created_before, due_notification_events, set_sent,
  mark_notification_sent, set_failed, mark_notification_failed,
}

-- Every event that DueNotificationEvents returns is pending, or failed fewer than five times and
-- past its delay; there are at most `limit` of them, in the order of their creation.
pub due_notification_events_selects :
    (now limit : ℕ) (c c' : Conn) (rows : List NotificationEvent)
    → Returns (due_notification_events now limit) c rows c'
    → All (λ row. is_event_due now row ≡ true) rows
      × Ordered created_before rows
      × (length rows ≤ limit)
unfolding due_notification_events
due_notification_events_selects now limit c c' rows h =
    let found = filter (is_event_due now) c.db.notification_events in
    let (value, _) = query-ok _ c h in
    let same : take limit (sort_by created_before found) ≡ rows = ok-injective value in
    (
      subst (All (λ row. is_event_due now row ≡ true)) same (
          All-take _ limit _ (
            sort_by-All created_before (λ row. is_event_due now row ≡ true) found
              (All-imp _ _ (λ row pair. pair.1) found
                (filter-selects (λ row. Unit {0}) (is_event_due now) c.db.notification_events
                  (Unit-All c.db.notification_events))))),
      subst (Ordered created_before) same (
          take-Ordered created_before limit (sort_by created_before found)
            (sort_by-Ordered created_before (λ a b h. ground arith) found)),
      subst (λ xs. length xs ≤ limit) same (length-take-le limit (sort_by created_before found)),
    )

-- How the deliveries of one notification go on from one database to another: the number counts the
-- failures of this notification that are recorded, each of them of an event that was due.
pub data Deliveries (id : Text) : Conn → ℕ → Conn → Type 0 where
  start : {c : Conn} → Deliveries id c 0 c
  fails :
      {c d e f : Conn} {n : ℕ} (now limit : ℕ) (message : Text) (rows : List NotificationEvent)
      → Deliveries id c n d
      → Returns (due_notification_events now limit) d rows e
      → any (event_id id) rows ≡ true
      → Returns (mark_notification_failed now id message) e tt f
      → Deliveries id c (suc n) f
  sends :
      {c d e : Conn} {n : ℕ} (now : ℕ) (other : Text)
      → Deliveries id c n d
      → Returns (mark_notification_sent now other) d tt e
      → Deliveries id c n e
  fails_other :
      {c d e : Conn} {n : ℕ} (now : ℕ) (other message : Text)
      → other ≢ id
      → Deliveries id c n d
      → Returns (mark_notification_failed now other message) d tt e
      → Deliveries id c n e

-- The event with this id has failed so many times, and it is not pending after a failure.
abbrev pub Tried : Text → ℕ → NotificationEvent → Type 0
Tried id n row =
    event_id id row ≡ true → (row.attempts ≡ n) × (row.status ≡ EventStatus.pending → n ≡ 0)

abbrev TriedIn : Text → ℕ → Conn → Type 0
TriedIn id n c = All (Tried id n) c.db.notification_events

due_Tried :
    (id : Text) (n now : ℕ) (row : NotificationEvent)
    → event_id id row ≡ true
    → Tried id n row
    → is_event_due now row ≡ true
    → n < 5
due_Tried id n now row same tried due = go row.status refl
  where
    go : (status : EventStatus) → row.status ≡ status → n < 5
    go EventStatus.pending e = let none_yet = (tried same).1 e in omega arith
    go EventStatus.failed e =
        let counted = (tried same).0 in
        let few : (status_due EventStatus.failed now row) ≡ true =
          ap (λ s. status_due s now row) (sym e) ∙ due in
        ground arith
    go EventStatus.sent e = absurd (cc (ap (λ s. status_due s now row) e))

any_due :
    (id : Text) (n now : ℕ) (rows : List NotificationEvent)
    → any (event_id id) rows ≡ true
    → All (λ row. Tried id n row × (is_event_due now row ≡ true)) rows
    → n < 5
any_due id n now [] listed h = absurd (ground arith)
any_due id n now (row ∷ rows) listed ((tried, due), later) = elim (Bool-cases (event_id id row)) [
  | inl same ↦ due_Tried id n now row same tried due
  | inr other ↦ any_due id n now rows (rw other at listed) later
]

listed_due :
    (id : Text) (n now limit : ℕ) (c c' : Conn) (rows : List NotificationEvent)
    → TriedIn id n c
    → Returns (due_notification_events now limit) c rows c'
    → any (event_id id) rows ≡ true
    → (n < 5) × TriedIn id n c'
unfolding due_notification_events
listed_due id n now limit c c' rows tried h listed =
    let P : NotificationEvent → Type 0 = λ row. Tried id n row × (is_event_due now row ≡ true) in
    let (value, same) = query-ok _ c h in
    (
      any_due id n now rows listed (
          subst (All P) (ok-injective value) (
            All-take P limit _ (
              sort_by-All created_before P _
                (filter-selects (Tried id n) (is_event_due now) c.db.notification_events tried)))),
      subst (λ db. All (Tried id n) db.notification_events) (sym same) tried,
    )

sent_Tried :
    (id : Text) (n now : ℕ) (other : Text) (c c' : Conn)
    → Returns (mark_notification_sent now other) c tt c'
    → TriedIn id n c
    → TriedIn id n c'
unfolding mark_notification_sent
sent_Tried id n now other c c' h tried =
    subst (λ db. All (Tried id n) db.notification_events) (sym (execute-ok _ c h))
      (update_where-All (event_id other) (set_sent now) (Tried id n) (Tried id n)
        (λ row t _ same. ((t same).0, λ e. absurd (ground arith))) (λ row t _. t)
        c.db.notification_events tried)

failed_Tried :
    (id : Text) (n now : ℕ) (message : Text) (c c' : Conn)
    → Returns (mark_notification_failed now id message) c tt c'
    → TriedIn id n c
    → TriedIn id (suc n) c'
unfolding mark_notification_failed
failed_Tried id n now message c c' h tried =
    subst (λ db. All (Tried id (suc n)) db.notification_events) (sym (execute-ok _ c h))
      (update_where-All (event_id id) (set_failed now message) (Tried id n) (Tried id (suc n))
        (λ row t hit same. (ap suc (t hit).0, λ e. absurd (ground arith)))
        (λ row t miss same. absurd (cc)) c.db.notification_events tried)

failed_other_Tried :
    (id : Text) (n now : ℕ) (other message : Text) (c c' : Conn)
    → other ≢ id
    → Returns (mark_notification_failed now other message) c tt c'
    → TriedIn id n c
    → TriedIn id n c'
unfolding mark_notification_failed
failed_other_Tried id n now other message c c' differ h tried =
    subst (λ db. All (Tried id n) db.notification_events) (sym (execute-ok _ c h))
      (update_where-All (event_id other) (set_failed now message) (Tried id n) (Tried id n)
        (λ row t hit same.
          absurd (differ (sym ((text_eq_iff row.id other).0 hit) ∙ (text_eq_iff row.id id).0 same)))
        (λ row t _. t) c.db.notification_events tried)

-- A notification that has not failed yet fails at most five times: after the fifth failure it is not
-- due any more, whatever else is delivered in between.
pub deliveries_bounded :
    (id : Text) (c d : Conn) (n : ℕ)
    → All (Tried id 0) c.db.notification_events
    → Deliveries id c n d
    → n ≤ 5
deliveries_bounded id c d n fresh deliveries = (go n d deliveries).0
  where
    go : (n : ℕ) (d : Conn) → Deliveries id c n d → (n ≤ 5) × TriedIn id n d
    go n d start = (omega arith, fresh)
    go n d (fails now limit message rows before listing listed marked) =
        let (few, tried) = listed_due id _ now limit _ _ rows (go _ _ before).1 listing listed in
        (few, failed_Tried id _ now message _ d marked tried)
    go n d (sends now other before marked) =
        let (few, tried) = go n _ before in (few, sent_Tried id n now other _ d marked tried)
    go n d (fails_other now other message differ before marked) =
        let (few, tried) = go n _ before in
        (few, failed_other_Tried id n now other message _ d differ marked tried)
