-- ===== src/JobSvc/Jobs/Events.antt =====
-- services/job_svc/src/job_svc/services/jobs.py, seen from one job: the events that the statements
-- are for it, when each is permitted, and what it makes of the row.
use agent_exec_platform.Common.{ℕ, Bool, true, List, [], ◌∷◌, none, some, Text, any, if◌then◌else◌}
use agent_exec_platform.JobSvc.Models.{
  JobStatus, queued, running, failed, is_status, JobRow, Progress,
}
use agent_exec_platform.JobSvc.Jobs.Values.{
  allowed_entry, enter_values, start_values, fail_values, retry_values, claim_values, renew_values,
  progress_values, is_queued, is_running, is_stranded,
}

pub data Event : Type 0 where
  -- `update` to a status; to `running` it is `_start`, to `failed` it is `_fail`
  entered : JobStatus → ℕ → Event
  retried : ℕ → Event
  claimed : Text → ℕ → Event
  reaped : ℕ → ℕ → Event
  renewed : ℕ → Event
  checkpointed : Progress → ℕ → Event

-- The source statuses of `update` for each target.
unfoldable pub sources : JobStatus → List JobStatus
unfolding allowed_entry
sources running = queued ∷ []
sources failed = running ∷ []
sources target = elim (allowed_entry target) [ none ↦ [] | some allowed ↦ allowed ]

unfoldable pub permitted : Event → JobRow → Bool
unfolding is_status any sources is_queued is_running is_stranded
permitted (entered target now) r = any (is_status r.status) (sources target)
permitted (retried now) r = any (is_status r.status) (failed ∷ [])
permitted (claimed owner now) r = is_queued r
permitted (reaped lease now) r = is_stranded lease now r
permitted (renewed now) r = is_running r
permitted (checkpointed p now) r = true

-- The values that `update` assigns for each target.
unfoldable pub entry_values : JobStatus → ℕ → JobRow → JobRow
unfolding start_values fail_values enter_values
entry_values running now r = start_values now r
entry_values failed now r = fail_values now r
entry_values target now r = enter_values target now r

unfoldable pub assign : Event → JobRow → JobRow
unfolding entry_values retry_values claim_values renew_values progress_values fail_values
assign (entered target now) r = entry_values target now r
assign (retried now) r = retry_values now r
assign (claimed owner now) r = claim_values owner now r
assign (reaped lease now) r = fail_values now r
assign (renewed now) r = renew_values now r
assign (checkpointed p now) r = progress_values p now r

-- An event that is not permitted leaves the row alone.
unfoldable pub step : Event → JobRow → JobRow
unfolding permitted assign
step e r = if permitted e r then assign e r else r

unfoldable pub steps : List Event → JobRow → JobRow
steps [] r = r
steps (e ∷ es) r = steps es (step e r)
