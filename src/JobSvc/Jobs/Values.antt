-- ===== src/JobSvc/Jobs/Values.antt =====
-- services/job_svc/src/job_svc/services/jobs.py: what the statements assign and what they require
-- of a row.
use agent_exec_platform.Common.{
  ℕ, ◌+◌, Bool, true, false, Option, none, some, List, [], ◌∷◌, Text, text_eq, contains, ltb,
  if◌then◌else◌, ◌&&◌, ◌||◌, any,
}
use agent_exec_platform.JobSvc.Models.{
  JobStatus, queued, running, succeeded, failed, dead, cancelled, waiting_approval, is_status,
  JobRow, Progress,
}

-- _ALLOWED_ENTRY.get(status); `running` and `failed` are no keys of it.
unfoldable pub allowed_entry : JobStatus → Option (List JobStatus)
allowed_entry succeeded = some (running ∷ [])
allowed_entry cancelled = some (queued ∷ running ∷ waiting_approval ∷ [])
allowed_entry queued = some (failed ∷ dead ∷ cancelled ∷ waiting_approval ∷ [])
allowed_entry dead = some (failed ∷ running ∷ [])
allowed_entry waiting_approval = some (running ∷ [])
allowed_entry running = none
allowed_entry failed = none

-- _next_status_after_failure
unfoldable pub next_status_after_failure : JobRow → JobStatus
next_status_after_failure r =
    if ltb r.attempts r.max_attempts
    then queued
    else if ltb r.retry_count r.max_retries
    then failed
    else dead

-- The values of `update`: a job that is requeued or parked releases its claim lease.
unfoldable pub enter_values : JobStatus → ℕ → JobRow → JobRow
unfolding is_status
enter_values target now r =
    if is_status target queued || is_status target waiting_approval
    then (record r { status = target; updated_at = now; locked_at = none; locked_by = none })
    else record r { status = target; updated_at = now }

-- The values of `_start`.
unfoldable pub start_values : ℕ → JobRow → JobRow
start_values now r = record r {
  status = running;
  attempts = r.attempts + 1;
  locked_at = some now;
  locked_by = none;
  updated_at = now;
}

-- The values of `_fail` and of `reap_expired`.
unfoldable pub fail_values : ℕ → JobRow → JobRow
unfolding next_status_after_failure
fail_values now r = record r {
  status = next_status_after_failure r;
  locked_at = none;
  locked_by = none;
  updated_at = now;
}

-- The values of `retry`.
unfoldable pub retry_values : ℕ → JobRow → JobRow
retry_values now r = record r {
  status = queued;
  attempts = 0;
  retry_count = r.retry_count + 1;
  locked_at = none;
  locked_by = none;
  updated_at = now;
}

-- The values of `claim_batch`.
unfoldable pub claim_values : Text → ℕ → JobRow → JobRow
claim_values owner now r = record r {
  status = running;
  attempts = r.attempts + 1;
  locked_at = some now;
  locked_by = some owner;
  updated_at = now;
}

-- The values of `renew_lease`; the column's `onupdate` sets `updated_at` too.
unfoldable pub renew_values : ℕ → JobRow → JobRow
renew_values now r = record r { locked_at = some now; updated_at = now }

-- The values of `save_progress`.
unfoldable pub progress_values : Progress → ℕ → JobRow → JobRow
progress_values p now r = record r { progress = p; updated_at = now }

-- JobRow.locked_at < now - lease_seconds; a comparison with NULL is not true.
unfoldable pub is_expired : ℕ → ℕ → Option ℕ → Bool
is_expired lease now none = false
is_expired lease now (some t) = ltb (t + lease) now

-- The conditions of the WHERE clauses.
unfoldable pub may_enter : Text → List JobStatus → JobRow → Bool
unfolding is_status any
may_enter tenant allowed r = text_eq r.tenant_id tenant && any (is_status r.status) allowed

unfoldable pub is_queued : JobRow → Bool
unfolding is_status
is_queued r = is_status r.status queued

unfoldable pub is_running : JobRow → Bool
unfolding is_status
is_running r = is_status r.status running

unfoldable pub is_stranded : ℕ → ℕ → JobRow → Bool
unfolding is_running is_expired
is_stranded lease now r = is_running r && is_expired lease now r.locked_at

-- `if ids: stmt = stmt.where(column.in_(ids))`
unfoldable pub in_filter : List Text → Text → Bool
in_filter [] a = true
in_filter (x ∷ xs) a = contains (x ∷ xs) a
