-- ===== src/Store/Endpoints.antt =====
-- The endpoint operations of internal/db/db.go that need no input from the API: lookup, deletion,
-- activation, expiry and the lock of due endpoints. `now` is the clock of the database.
use w8nc.Base.{
  ℕ, suc, ◌+◌, ◌-◌, ◌*◌, Bool, true, false, not, ◌&&◌, Option, none, some, List, [], ◌∷◌, ltb, leb,
  filter, take,
}
use w8nc.Base.Int.{ℤ, pos, negsuc, mul_int64}
use w8nc.Base.Result.{Result, ok, err}
use w8nc.Base.Sort.{sort_by}
use w8nc.Base.Text.{Text, text_eq}
use w8nc.Models.{Endpoint, State, Reason}
use w8nc.Store.{
  Error, Db, Op, ◌>>=◌, ◌>>◌, pure, returning, changing, execute, query, transaction, update_where,
  count_where, find_row,
}

abbrev pub nanoseconds : ℕ → ℕ
nanoseconds seconds = seconds * 1000000000

abbrev pub has_id : Text → Endpoint → Bool
has_id id row = text_eq row.id id

-- The CASE of ActivateEndpoint, for times from the epoch on.
abbrev pub deadline : ℕ → Option ℤ → Option ℕ
deadline now none = none
deadline now (some (pos seconds)) = some (now + nanoseconds seconds)
deadline now (some (negsuc n)) = some (now - nanoseconds (suc n))

-- Time.Add, for times from the epoch on.
abbrev pub add_duration : ℕ → ℤ → ℕ
add_duration now (pos duration) = now + duration
add_duration now (negsuc n) = now - suc n

-- deactivateDeadline; the product of the seconds is one of `int64` and wraps.
abbrev pub deactivate_deadline : ℕ → Option ℤ → Option ℕ
deactivate_deadline now none = none
deactivate_deadline now (some seconds) = some (add_duration now (mul_int64 seconds 1000000000))

-- `column IS NOT NULL AND column <= now()`
abbrev pub is_past : Option ℕ → ℕ → Bool
is_past none now = false
is_past (some at) now = leb at now

abbrev pub is_expired : ℕ → Endpoint → Bool
is_expired now row = row.active && is_past row.deactivate_at now

unfoldable pub set_expired : ℕ → Endpoint → Endpoint
set_expired now row = record row {
  active = false;
  state = State.deactivated;
  next_run_at = none;
  deactivate_at = none;
  deactivated_reason = some Reason.time_limit_expired;
  locked_until = none;
  updated_at = now;
  version = suc row.version;
}

-- DeactivateExpiredEndpoints: the number of rows affected.
unfoldable pub deactivate_expired_endpoints : ℕ → Op ℕ
deactivate_expired_endpoints now =
    returning (λ db. count_where (is_expired now) db.endpoints)
      (λ db. record db { endpoints = update_where (is_expired now) (set_expired now) db.endpoints })

-- GetEndpoint
unfoldable pub get_endpoint : ℕ → Text → Op Endpoint
get_endpoint now id = do
  _ ← deactivate_expired_endpoints now
  query (λ db. find_row (has_id id) db.endpoints)

-- `RETURNING id`
abbrev pub found_id : Result Error Endpoint → Result Error Text
found_id (ok row) = ok row.id
found_id (err e) = err e

-- An `UPDATE endpoints ... WHERE id=$1 RETURNING id`, which finds a row or returns no_rows.
unfoldable pub update_endpoint_row : Text → (Endpoint → Endpoint) → Op Text
update_endpoint_row id f =
    changing (λ db. found_id (find_row (has_id id) db.endpoints))
      (λ db. record db { endpoints = update_where (has_id id) f db.endpoints })

unfoldable pub set_activated : ℕ → Endpoint → Endpoint
set_activated now row = record row {
  active = true;
  state = State.unknown;
  next_run_at = some now;
  notified_at = none;
  deactivate_at = deadline now row.deactivate_after_seconds;
  deactivated_reason = none;
  locked_until = none;
  updated_at = now;
  version = suc row.version;
}

-- ActivateEndpoint
unfoldable pub activate_endpoint : ℕ → Text → Op Endpoint
activate_endpoint now id = do
  updated ← update_endpoint_row id (set_activated now)
  get_endpoint now updated

unfoldable pub set_deactivated : ℕ → Endpoint → Endpoint
set_deactivated now row = record row {
  active = false;
  state = State.deactivated;
  next_run_at = none;
  deactivate_at = none;
  deactivated_reason = some Reason.manual;
  locked_until = none;
  updated_at = now;
  version = suc row.version;
}

-- DeactivateEndpoint
unfoldable pub deactivate_endpoint : ℕ → Text → Op Endpoint
deactivate_endpoint now id = do
  updated ← update_endpoint_row id (set_deactivated now)
  get_endpoint now updated

-- DELETE FROM endpoints: the tables that reference the row lose their rows too (ON DELETE CASCADE).
unfoldable pub remove_endpoint : Text → Db → Db
remove_endpoint id db = record db {
  endpoints = filter (λ row. not (has_id id row)) db.endpoints;
  endpoint_checks = filter (λ row. not (text_eq row.endpoint_id id)) db.endpoint_checks;
  notification_events = filter (λ row. not (text_eq row.endpoint_id id)) db.notification_events;
  screenshot_attempts = filter (λ row. not (text_eq row.endpoint_id id)) db.screenshot_attempts;
  endpoint_tags = filter (λ row. not (text_eq row.endpoint_id id)) db.endpoint_tags;
}

-- `tag.RowsAffected() == 0`
abbrev pub affected : {A : Type 0} → Result Error A → Result Error (Unit {0})
affected (ok a) = ok tt
affected (err e) = err e

-- DeleteEndpoint
unfoldable pub delete_endpoint : Text → Op (Unit {0})
delete_endpoint id =
    changing (λ db. affected (find_row (has_id id) db.endpoints)) (remove_endpoint id)

-- `locked_until IS NULL OR locked_until < now()`
abbrev pub is_unlocked : Option ℕ → ℕ → Bool
is_unlocked none now = true
is_unlocked (some until) now = ltb until now

-- The WHERE clause of LockDueEndpoints.
abbrev pub is_due : ℕ → Endpoint → Bool
is_due now row = row.active && (is_past row.next_run_at now && is_unlocked row.locked_until now)

-- The order of `next_run_at`, where NULL comes last.
abbrev pub at_most : Option ℕ → Option ℕ → Bool
at_most (some a) (some b) = leb a b
at_most (some a) none = true
at_most none (some b) = false
at_most none none = true

-- ORDER BY next_run_at ASC
abbrev pub runs_before : Endpoint → Endpoint → Bool
runs_before a b = at_most a.next_run_at b.next_run_at

unfoldable pub due_rows : ℕ → ℕ → List Endpoint → List Endpoint
unfolding sort_by
due_rows limit now rows = take limit (sort_by runs_before (filter (is_due now) rows))

abbrev pub set_locked : ℕ → Endpoint → Endpoint
set_locked until row = record row { locked_until = some until }

-- The loop that locks the rows found.
unfoldable pub lock_rows : ℕ → List Endpoint → Op (Unit {0})
lock_rows until [] = pure tt
lock_rows until (row ∷ rows) =
    (execute (λ db. record db {
      endpoints = update_where (has_id row.id) (set_locked until) db.endpoints;
    }))
    >> lock_rows until rows

-- The body of the transaction behind the SELECT.
unfoldable pub lock_found : ℕ → List Endpoint → Op (List Endpoint)
lock_found until rows = do lock_rows until rows; pure rows

unfoldable pub lock_due : ℕ → ℕ → ℕ → Op (List Endpoint)
lock_due now limit lock_for = do
  rows ← query (λ db. ok (due_rows limit now db.endpoints))
  lock_found (now + lock_for) rows

-- LockDueEndpoints; the rows are returned as they were before the lock.
unfoldable pub lock_due_endpoints : ℕ → ℕ → ℕ → Op (List Endpoint)
lock_due_endpoints now limit lock_for = do
  _ ← deactivate_expired_endpoints now
  transaction (lock_due now limit lock_for)
