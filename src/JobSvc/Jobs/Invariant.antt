-- ===== src/JobSvc/Jobs/Invariant.antt =====
-- What holds of a job's row whatever the callers, the poller and the reaper do.
use agent_exec_platform.Common.{ℕ, ◌≤◌, ◌<◌, ◌≡◌, true, none, List, [], ◌∷◌, Text, is_some, arith}
use agent_exec_platform.JobSvc.Models.{
  JobStatus, queued, running, failed, waiting_approval, JobSpec, JobRow,
}
use agent_exec_platform.JobSvc.Jobs.Events.{Event, step, steps}
use agent_exec_platform.JobSvc.Jobs.Service.{new_row}

-- A status at which no worker holds the job.
abbrev pub IsReleased : JobStatus → Type 0
IsReleased queued = Unit
IsReleased failed = Unit
IsReleased waiting_approval = Unit
IsReleased _ = ⊥

pub record IsSound (r : JobRow) : Type 0 where
  -- the manual budget is never overdrawn
  pub retries_bounded : r.retry_count ≤ r.max_retries
  -- a job rests at `failed` only while the manual budget has room and the automatic has none
  pub failed_retryable :
      r.status ≡ failed → (r.retry_count < r.max_retries) × (r.max_attempts ≤ r.attempts)
  -- a running job has a lease, and has consumed an attempt
  pub leased : r.status ≡ running → (is_some r.locked_at ≡ true) × (0 < r.attempts)
  -- a job that waits has none
  pub released : IsReleased r.status → (r.locked_at ≡ none) × (r.locked_by ≡ none)

pub new_row-IsSound :
    (id : Text) (now : ℕ) (tenant type : Text) (spec : JobSpec) (max_attempts max_retries : ℕ)
    → IsSound (new_row id now tenant type spec max_attempts max_retries)
unfolding new_row
new_row-IsSound id now tenant type spec max_attempts max_retries = ground arith

pub step-IsSound : (e : Event) (r : JobRow) → IsSound r → IsSound (step e r)
unfolding step
step-IsSound e r s = ground arith

-- Every event, permitted or not, keeps a row sound.
pub steps-IsSound : (es : List Event) (r : JobRow) → IsSound r → IsSound (steps es r)
unfolding steps
steps-IsSound [] r s = s
steps-IsSound (e ∷ es) r s = steps-IsSound es (step e r) (step-IsSound e r s)
