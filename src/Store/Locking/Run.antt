-- ===== src/Store/Locking/Run.antt =====
-- The parts of a successful LockDueEndpoints (internal/db/db.go): the expiry, the read and the locks.
use w8nc.Base.{
  ℕ, ◌+◌, ◌≡◌, refl, sym, ap, subst, ◌∙◌, inl, inr, true, false, some, List, [], ◌∷◌, arith, filter,
  any, All, All-take, Bool-cases,
}
use w8nc.Base.Result.{ok, ok-injective}
use w8nc.Base.Sort.{sort_by-All, filter-selects, Unit-All}
use w8nc.Base.Text.{Text, text_eq_iff}
use w8nc.Models.{Endpoint}
use w8nc.Store.{Db, Conn, pure, query, transaction, update_where}
use w8nc.Store.Rules.{
  Keeps, Ensures, Returns, execute-Keeps, pure-Keeps, >>=-Keeps, Ensures_of_Keeps, execute-Ensures,
  >>=-Ensures, >>=-ok, query-ok, returning-ok, transaction-ok, Ensures-Returns,
}
use w8nc.Store.Rows.{update_where-All}
use w8nc.Store.Endpoints.{
  has_id, is_expired, set_expired, deactivate_expired_endpoints, is_due, runs_before, due_rows,
  set_locked, lock_rows, lock_found, lock_due, lock_due_endpoints,
}

-- After the expiry no active row is past its deadline.
abbrev pub Fresh : ℕ → Endpoint → Type 0
Fresh now row = is_expired now row ≡ false

expire-Fresh :
    (now : ℕ) (c : Conn) {n : ℕ} {c' : Conn}
    → Returns (deactivate_expired_endpoints now) c n c'
    → All (Fresh now) c'.db.endpoints
unfolding deactivate_expired_endpoints set_expired
expire-Fresh now c h =
    let (_, e) = returning-ok _ _ c h in
    subst (All (Fresh now)) (ap (λ db. db.endpoints) (sym e)) (
      update_where-All (is_expired now) (set_expired now) (λ row. Unit) (Fresh now)
        (λ row _ _. refl) (λ row _ miss. miss) c.db.endpoints (Unit-All c.db.endpoints))

expire_rows :
    (now : ℕ) (c : Conn) {n : ℕ} {c' : Conn}
    → Returns (deactivate_expired_endpoints now) c n c'
    → c'.db.endpoints ≡ update_where (is_expired now) (set_expired now) c.db.endpoints
unfolding deactivate_expired_endpoints
expire_rows now c h = let (_, e) = returning-ok _ _ c h in ap (λ db. db.endpoints) e

-- A row with this id is locked until then.
abbrev pub LockedRow : Text → ℕ → Endpoint → Type 0
LockedRow id until row = has_id id row ≡ true → row.locked_until ≡ some until

abbrev pub LockedIn : Text → ℕ → Db → Type 0
LockedIn id until db = All (LockedRow id until) db.endpoints

abbrev lock_one : Endpoint → ℕ → Db → Db
lock_one row until db = record db {
  endpoints = update_where (has_id row.id) (set_locked until) db.endpoints;
}

lock_one-LockedIn :
    (id : Text) (row : Endpoint) (until : ℕ) (db : Db)
    → LockedIn id until db
    → LockedIn id until (lock_one row until db)
lock_one-LockedIn id row until db =
    update_where-All (has_id row.id) (set_locked until) (LockedRow id until) (LockedRow id until)
      (λ x h hit same. refl) (λ x h miss. h) db.endpoints

lock_rows-Keeps_locked :
    (id : Text) (until : ℕ) (rows : List Endpoint)
    → Keeps (LockedIn id until) (lock_rows until rows)
unfolding lock_rows
lock_rows-Keeps_locked id until [] = pure-Keeps (LockedIn id until) tt
lock_rows-Keeps_locked id until (row ∷ rows) =
    >>=-Keeps (LockedIn id until) _ _
      (execute-Keeps (LockedIn id until) (lock_one row until) (lock_one-LockedIn id row until))
      (λ _. lock_rows-Keeps_locked id until rows)

lock_one_hits :
    (id : Text) (row : Endpoint) (until : ℕ) (db : Db)
    → row.id ≡ id
    → LockedIn id until (lock_one row until db)
lock_one_hits id row until db same =
    update_where-All (has_id row.id) (set_locked until) (λ x. Unit) (LockedRow id until)
      (λ x _ hit there. refl) (λ x _ miss there. absurd (cc (ap (λ i. has_id i x) same)))
      db.endpoints (Unit-All db.endpoints)

lock_rows-LockedIn :
    (id : Text) (until : ℕ) (rows : List Endpoint)
    → any (has_id id) rows ≡ true
    → Ensures (λ db. Unit) (lock_rows until rows) (LockedIn id until)
unfolding lock_rows
lock_rows-LockedIn id until [] h = absurd (ground arith)
lock_rows-LockedIn id until (row ∷ rows) h = elim (Bool-cases (has_id id row)) [
  | inl here ↦
      >>=-Ensures (λ db. Unit) (LockedIn id until) (LockedIn id until) _ _
        (execute-Ensures (λ db. Unit) (LockedIn id until) (lock_one row until)
          (λ db _. lock_one_hits id row until db ((text_eq_iff row.id id).0 here)))
        (λ _.
          Ensures_of_Keeps (LockedIn id until) (LockedIn id until) _
            (lock_rows-Keeps_locked id until rows) (λ db k. k))
  | inr there ↦
      >>=-Ensures (λ db. Unit) (λ db. Unit) (LockedIn id until) _ _
        (execute-Ensures (λ db. Unit) (λ db. Unit) (lock_one row until) (λ db _. tt))
        (λ _. lock_rows-LockedIn id until rows (ground arith))
]

-- A successful LockDueEndpoints: the expiry, then the rows that are due are read and locked.
pub record LockRun (now limit lock_for : ℕ) (c : Conn) (rows : List Endpoint) (c' : Conn)
    : Type 0 where
  pub expired : Db
  pub fresh : All (Fresh now) expired.endpoints
  pub rows_due : due_rows limit now expired.endpoints ≡ rows
  pub locked : (id : Text) → any (has_id id) rows ≡ true → LockedIn id (now + lock_for) c'.db
  pub swept : expired.endpoints ≡ update_where (is_expired now) (set_expired now) c.db.endpoints

pub lock_due_endpoints-LockRun :
    (now limit lock_for : ℕ) (c : Conn) {rows : List Endpoint} {c' : Conn}
    → Returns (lock_due_endpoints now limit lock_for) c rows c'
    → LockRun now limit lock_for c rows c'
unfolding lock_due_endpoints lock_due lock_found
lock_due_endpoints-LockRun now limit lock_for c {rows} {c'} h =
    let (n, c1, expiry, rest) =
      >>=-ok (deactivate_expired_endpoints now) (λ _. transaction (lock_due now limit lock_for)) c
        h in
    let (c2, c3, same, body, end) = transaction-ok (lock_due now limit lock_for) c1 rest in
    let (found, c4, read, last) =
      >>=-ok (query (λ db. ok (due_rows limit now db.endpoints))) (lock_found (now + lock_for)) c2
        body in
    let (value, unchanged) = query-ok (λ db. ok (due_rows limit now db.endpoints)) c2 read in
    let (u, c5, locks, result) =
      >>=-ok (lock_rows (now + lock_for) found) (λ _. pure found) c4 last in
    let is_found : found ≡ rows = ok-injective (ap (λ r. r.0) result) in
    record {
      expired = c1.db;
      fresh = expire-Fresh now c expiry;
      rows_due =
          ap (λ db. due_rows limit now db.endpoints) (sym same) ∙ (ok-injective value ∙ is_found);
      locked = λ id listed.
          subst (LockedIn id (now + lock_for)) (ap (λ r. r.1.db) result ∙ sym end) (
            Ensures-Returns (λ db. Unit) (LockedIn id (now + lock_for))
              (lock_rows (now + lock_for) found) c4
              (lock_rows-LockedIn id (now + lock_for) found (rw is_found listed)) tt locks);
      swept = expire_rows now c expiry;
    }

pub due_rows-All :
    (P : Endpoint → Type 0) (limit now : ℕ) (rows : List Endpoint)
    → All P rows
    → All (λ row. P row × (is_due now row ≡ true)) (due_rows limit now rows)
unfolding due_rows
due_rows-All P limit now rows h =
    All-take (λ row. P row × (is_due now row ≡ true)) limit _
      (sort_by-All runs_before (λ row. P row × (is_due now row ≡ true)) (filter (is_due now) rows)
        (filter-selects P (is_due now) rows h))
