-- ===== src/Store/Locking/Selecting.antt =====
-- Which rows LockDueEndpoints of internal/db/db.go hands out.
use w8nc.Base.{
  ℕ, ◌≤◌, ◌<◌, ◌≡◌, refl, subst, ◌⊎◌, inl, inr, true, false, Option, none, some, List, [], ◌∷◌,
  arith, length, length-take-le, filter, All,
}
use w8nc.Base.Sort.{sort_by, Ordered, take-Ordered, sort_by-Ordered}
use w8nc.Base.Text.{Text}
use w8nc.Models.{Endpoint}
use w8nc.Store.{Conn}
use w8nc.Store.Rules.{Returns}
use w8nc.Store.Endpoints.{
  is_past, is_expired, is_unlocked, is_due, at_most, runs_before, due_rows, lock_due_endpoints,
}
use w8nc.Store.Locking.Run.{Fresh, lock_due_endpoints-LockRun, due_rows-All}

-- The time is set and has come.
abbrev pub HasCome : ℕ → Option ℕ → Type 0
HasCome now column = (at : ℕ) × (column ≡ some at) × (at ≤ now)

-- The row is active, its next run is not in the future, its lock has ended and its deadline is to come.
pub record IsReady (now : ℕ) (row : Endpoint) : Type 0 where
  pub active : row.active ≡ true
  pub due : HasCome now row.next_run_at
  pub unlocked : (row.locked_until ≡ none) ⊎ ((at : ℕ) × (row.locked_until ≡ some at) × (at < now))
  pub alive : (row.deactivate_at ≡ none) ⊎ ((at : ℕ) × (row.deactivate_at ≡ some at) × (now < at))

past-HasCome : (now : ℕ) (column : Option ℕ) → is_past column now ≡ true → HasCome now column
past-HasCome now none h = absurd (cc)
past-HasCome now (some at) h = (at, refl, ground arith)

unlocked_lem :
    (now : ℕ) (column : Option ℕ)
    → is_unlocked column now ≡ true
    → (column ≡ none) ⊎ ((at : ℕ) × (column ≡ some at) × (at < now))
unlocked_lem now none h = inl refl
unlocked_lem now (some at) h = inr (at, refl, ground arith)

to_come :
    (now : ℕ) (column : Option ℕ)
    → is_past column now ≡ false
    → (column ≡ none) ⊎ ((at : ℕ) × (column ≡ some at) × (now < at))
to_come now none h = inl refl
to_come now (some at) h = inr (at, refl, ground arith)

due-IsReady :
    (now : ℕ) (row : Endpoint)
    → is_expired now row ≡ false
    → is_due now row ≡ true
    → IsReady now row
due-IsReady now row fresh due = record {
  active = ground arith;
  due = past-HasCome now row.next_run_at (ground arith);
  unlocked = unlocked_lem now row.locked_until (ground arith);
  alive = to_come now row.deactivate_at (ground arith);
}

-- Both have a next run, the first no later than the second.
abbrev pub RunsNoLater : Endpoint → Endpoint → Type 0
RunsNoLater a b = (s : ℕ) × (t : ℕ) × (a.next_run_at ≡ some s) × (b.next_run_at ≡ some t) × (s ≤ t)

abbrev pub InOrder : List Endpoint → Type 0
InOrder [] = Unit
InOrder (a ∷ []) = Unit
InOrder (a ∷ b ∷ rows) = RunsNoLater a b × InOrder (b ∷ rows)

ordered-RunsNoLater :
    (now : ℕ) (a b : Endpoint)
    → IsReady now a
    → IsReady now b
    → runs_before a b ≡ true
    → RunsNoLater a b
ordered-RunsNoLater now a b ready_a ready_b h =
    let (s, es, _) = ready_a.due in
    let (t, et, _) = ready_b.due in (s, t, es, et, ground (arith, rw (es, et) at h))

Ordered-InOrder :
    (now : ℕ) (rows : List Endpoint)
    → All (IsReady now) rows
    → Ordered runs_before rows
    → InOrder rows
Ordered-InOrder now [] ready h = tt
Ordered-InOrder now (a ∷ []) ready h = tt
Ordered-InOrder now (a ∷ b ∷ rows) (ready_a, (ready_b, ready)) (here, later) = (
  ordered-RunsNoLater now a b ready_a ready_b here,
  Ordered-InOrder now (b ∷ rows) (ready_b, ready) later,
)

at_most_total : (a b : Option ℕ) → at_most a b ≡ false → at_most b a ≡ true
at_most_total (some a) (some b) h = ground arith
at_most_total (some a) none h = absurd (ground arith)
at_most_total none (some b) h = refl
at_most_total none none h = absurd (ground arith)

rows-IsReady :
    (now : ℕ) (rows : List Endpoint)
    → All (λ row. (is_expired now row ≡ false) × (is_due now row ≡ true)) rows
    → All (IsReady now) rows
rows-IsReady now [] h = tt
rows-IsReady now (row ∷ rows) ((fresh, due), later) =
    (due-IsReady now row fresh due, rows-IsReady now rows later)

-- Every row that LockDueEndpoints returns is active, its next run is not in the future, its lock has
-- ended and it is not past its deadline; there are at most `limit` rows, in the order of the next run.
pub lock_due_endpoints_selects :
    (now limit lock_for : ℕ) (c c' : Conn) (rows : List Endpoint)
    → Returns (lock_due_endpoints now limit lock_for) c rows c'
    → All (IsReady now) rows × InOrder rows × (length rows ≤ limit)
unfolding due_rows
lock_due_endpoints_selects now limit lock_for c c' rows h =
    let run = lock_due_endpoints-LockRun now limit lock_for c h in
    let found = sort_by runs_before (filter (is_due now) run.expired.endpoints) in
    let ready : All (IsReady now) rows = rows-IsReady now rows (
      subst (All (λ row. (is_expired now row ≡ false) × (is_due now row ≡ true))) run.rows_due
        (due_rows-All (Fresh now) limit now run.expired.endpoints run.fresh)) in
    let ordered : Ordered runs_before rows = subst (Ordered runs_before) run.rows_due (
      take-Ordered runs_before limit found (
        sort_by-Ordered runs_before (λ a b. at_most_total a.next_run_at b.next_run_at)
          (filter (is_due now) run.expired.endpoints))) in
    (
      ready,
      Ordered-InOrder now rows ready ordered,
      subst (λ xs. length xs ≤ limit) run.rows_due (length-take-le limit found),
    )
