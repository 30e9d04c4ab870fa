-- ===== src/Store/Runtime.antt =====
-- The downtime bookkeeping of internal/db/db.go: ResumeAfterDowntime and MarkRuntimeSeen.
use w8nc.Base.{ℕ, ◌+◌, ◌-◌, Bool, true, false, ◌&&◌, Option, none, some, ltb, if◌then◌else◌}
use w8nc.Base.Result.{ok}
use w8nc.Models.{Endpoint}
use w8nc.Store.{
  Op, ◌>>=◌, ◌>>◌, pure, returning, execute, query, transaction, update_where, count_where,
}

pub record RuntimeResume : Type 0 where
  pub downtime : ℕ
  pub extended_endpoints : ℕ

abbrev pub no_resume : RuntimeResume
no_resume = record { downtime = 0; extended_endpoints = 0 }

-- INSERT ... ON CONFLICT (id) DO UPDATE SET last_seen_at
unfoldable pub set_last_seen : ℕ → Op (Unit {0})
set_last_seen at = execute (λ db. record db { last_seen_at = some at })

abbrev pub is_some {ℓ} : {A : Type ℓ} → Option A → Bool
is_some none = false
is_some (some a) = true

abbrev pub has_deadline : Endpoint → Bool
has_deadline row = row.active && is_some row.deactivate_at

abbrev pub later_by : ℕ → Option ℕ → Option ℕ
later_by d none = none
later_by d (some at) = some (at + d)

abbrev pub extend : ℕ → Endpoint → Endpoint
extend d row = record row { deactivate_at = later_by d row.deactivate_at }

-- The UPDATE that moves the deadlines, and what it reports.
unfoldable pub extend_deadlines : ℕ → Op RuntimeResume
extend_deadlines downtime =
    returning
      (λ db. record {
        downtime = downtime;
        extended_endpoints = count_where has_deadline db.endpoints;
      })
      (λ db. record db { endpoints = update_where has_deadline (extend downtime) db.endpoints })

-- The body of ResumeAfterDowntime, behind the SELECT of `last_seen_at`.
unfoldable pub resume_from : ℕ → Option ℕ → Op RuntimeResume
resume_from now none = do set_last_seen now; pure no_resume
resume_from now (some last_seen) = do
  resume ← (if ltb last_seen now then extend_deadlines (now - last_seen) else pure no_resume)
  set_last_seen now
  pure resume

-- ResumeAfterDowntime
unfoldable pub resume_after_downtime : ℕ → Op RuntimeResume
resume_after_downtime now =
    transaction (do last_seen ← query (λ db. ok db.last_seen_at); resume_from now last_seen)

-- MarkRuntimeSeen
unfoldable pub mark_runtime_seen : ℕ → Op (Unit {0})
mark_runtime_seen at = set_last_seen at
