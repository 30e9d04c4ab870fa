-- ===== src/Store/Locking.antt =====
-- What LockDueEndpoints of internal/db/db.go hands out, and when again.
mod Run
pub mod Selecting
use w8nc.Base.{
  ℕ, zero, suc, ◌+◌, ◌≤◌, ◌<◌, ◌≡◌, refl, sym, ap, subst, ◌∙◌, inl, inr, Bool, true, false, not,
  ◌&&◌, ◌||◌, Option, none, some, List, [], ◌∷◌, arith, ltb, leb, if◌then◌else◌, length,
  length-take-le, filter, take, any, All, All-take, Bool-cases,
}
use w8nc.Base.Result.{Result, ok, err, ok-injective}
use w8nc.Base.Sort.{
  sort_by, Ordered, take-Ordered, sort_by-Ordered, sort_by-All, filter-selects, Unit-All,
}
use w8nc.Base.Text.{Text, text_eq, text_eq_iff}
use w8nc.Models.{Endpoint}
use w8nc.Store.{Error, Db, Conn, Op, ◌>>=◌, ◌>>◌, pure, execute, query, transaction, update_where}
use w8nc.Store.Rules.{
  Keeps, Ensures, Returns, execute-Keeps, pure-Keeps, >>=-Keeps, Ensures_of_Keeps, execute-Ensures,
  >>=-Ensures, >>=-ok, query-ok, returning-ok, transaction-ok, Ensures-Returns,
}
use w8nc.Store.Locking.Run.{Fresh, LockedRow, LockRun, lock_due_endpoints-LockRun, due_rows-All}
use w8nc.Store.Rows.{update_where-All, All-imp}
use w8nc.Store.Endpoints.{
  has_id, is_past, is_expired, set_expired, deactivate_expired_endpoints, is_unlocked, is_due,
  at_most, runs_before, due_rows, set_locked, lock_rows, lock_found, lock_due, lock_due_endpoints,
}

-- A row with this id is not due at this time.
abbrev pub Rests : Text → ℕ → Endpoint → Type 0
Rests id t row = has_id id row ≡ true → is_due t row ≡ false

LockedRow-Rests :
    (id : Text) (until t : ℕ) (row : Endpoint) → t ≤ until → LockedRow id until row → Rests id t row
LockedRow-Rests id until t row before locked same =
    let e = locked same in rw (e, is_unlocked) (ground arith)

Rests-set_expired : (id : Text) (t : ℕ) (row : Endpoint) → Rests id t (set_expired t row)
unfolding set_expired
Rests-set_expired id t row same = refl

absent :
    (id : Text) (t : ℕ) (rows : List Endpoint)
    → All (λ row. Rests id t row × (is_due t row ≡ true)) rows
    → any (has_id id) rows ≡ false
absent id t [] h = refl
absent id t (row ∷ rows) ((rests, due), later) = elim (Bool-cases (has_id id row)) [
  | inl same ↦ absurd (cc (rests same))
  | inr other ↦ rw other (absent id t rows later)
]

-- If no row with an id is due, LockDueEndpoints does not return it.
pub lock_due_endpoints-Rests :
    (t limit lock_for : ℕ) (c c' : Conn) (rows : List Endpoint) (id : Text)
    → All (Rests id t) c.db.endpoints
    → Returns (lock_due_endpoints t limit lock_for) c rows c'
    → any (has_id id) rows ≡ false
lock_due_endpoints-Rests t limit lock_for c c' rows id resting h =
    let run = lock_due_endpoints-LockRun t limit lock_for c h in
    let swept : All (Rests id t) run.expired.endpoints = subst (All (Rests id t)) (sym run.swept) (
      update_where-All (is_expired t) (set_expired t) (Rests id t) (Rests id t)
        (λ row _ _. Rests-set_expired id t row) (λ row r _. r) c.db.endpoints resting) in
    absent id t rows (
      subst (All (λ row. Rests id t row × (is_due t row ≡ true))) run.rows_due
        (due_rows-All (Rests id t) limit t run.expired.endpoints swept))

-- While the lock that LockDueEndpoints sets lasts, no other LockDueEndpoints that follows returns
-- the same endpoint.
pub lock_due_endpoints_excludes :
    (now limit lock_for : ℕ) (c c' : Conn) (rows : List Endpoint) (id : Text)
    (t limit' lock_for' : ℕ) (c'' : Conn) (rows' : List Endpoint)
    → Returns (lock_due_endpoints now limit lock_for) c rows c'
    → any (has_id id) rows ≡ true
    → t ≤ now + lock_for
    → Returns (lock_due_endpoints t limit' lock_for') c' rows' c''
    → any (has_id id) rows' ≡ false
lock_due_endpoints_excludes now limit lock_for c c' rows id t limit' lock_for' c'' rows' h listed
      before k =
    let first = lock_due_endpoints-LockRun now limit lock_for c h in
    let resting : All (Rests id t) c'.db.endpoints =
      All-imp (LockedRow id (now + lock_for)) (Rests id t)
        (λ row locked. LockedRow-Rests id (now + lock_for) t row before locked) c'.db.endpoints
        (first.locked id listed) in
    lock_due_endpoints-Rests t limit' lock_for' c' c'' rows' id resting k
