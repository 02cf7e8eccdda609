-- ===== src/JobSvc/Models.antt =====
-- services/job_svc/src/job_svc/models.py and errors.py: the row of a job, and the typed errors.
-- The status column only ever holds the seven words of `JobStatus`; the words themselves are what
-- the callers of `JobService.update` pass.
use agent_exec_platform.Common.{
  ℕ, ◌≡◌, refl, Bool, true, false, Option, none, some, List, Text, codes, text_eq, if◌then◌else◌,
}

pub data JobStatus : Type 0 where
  queued running succeeded failed dead cancelled waiting_approval : JobStatus

unfoldable pub status_name : JobStatus → Text
status_name queued = codes "queued"
status_name running = codes "running"
status_name succeeded = codes "succeeded"
status_name failed = codes "failed"
status_name dead = codes "dead"
status_name cancelled = codes "cancelled"
status_name waiting_approval = codes "waiting_approval"

unfoldable pub status_of_name : Text → Option JobStatus
unfolding status_name text_eq
status_of_name s =
    if text_eq s (status_name queued)
    then some queued
    else if text_eq s (status_name running)
    then some running
    else if text_eq s (status_name succeeded)
    then some succeeded
    else if text_eq s (status_name failed)
    then some failed
    else if text_eq s (status_name dead)
    then some dead
    else if text_eq s (status_name cancelled)
    then some cancelled
    else if text_eq s (status_name waiting_approval)
    then some waiting_approval
    else none

pub status_of_name-status_name : (s : JobStatus) → status_of_name (status_name s) ≡ some s
unfolding status_of_name
status_of_name-status_name queued = refl
status_of_name-status_name _ = refl

-- status in statuses
unfoldable pub is_status : JobStatus → JobStatus → Bool
is_status queued queued = true
is_status running running = true
is_status succeeded succeeded = true
is_status failed failed = true
is_status dead dead = true
is_status cancelled cancelled = true
is_status waiting_approval waiting_approval = true
is_status _ _ = false

-- An `AppError`, or an exception of the runner. `state` carries the status that was found,
-- `not_found` the id, `dependency` and `invalid` the message; the
-- wording is left out. `integrity` is SQLAlchemy's error for a duplicate key,
-- `key_error` is Python's for a missing key, `unknown_type` its one for a type without an enum.
pub data Error : Type 0 where
  not_found : Text → Error
  state : Text → JobStatus → Error
  invalid : Text → Error
  authentication : Error
  conflict : Text → Error
  dependency : Text → Error
  runner_error : Text → Error
  integrity : Text → Error
  key_error : ℕ → Error
  approval_required : Error
  unknown_type : Text → Error

-- The value of one key of `progress["steps"]`.
pub record Step : Type 0 where
  pub prompt : Text
  pub output : Text
  pub finish_reason : Text
  pub agent : Text

-- `progress["pending_approval"]`
pub record Pending : Type 0 where
  pub step : ℕ
  pub prompt : Text
  pub detail : Text

-- The `progress` column. A field is `none` where the dict has no such key. The keys of `steps` are
-- `str(index)`, and are kept as the index.
pub record Progress : Type 0 where
  pub plan : Option (List Text)
  pub phase : Option Text
  pub steps : Option (List (ℕ × Step))
  pub pending_approval : Option Pending
  pub error : Option Text
  pub result : Option Text

-- {}
abbrev pub no_progress : Progress
no_progress = record {
  plan = none;
  phase = none;
  steps = none;
  pending_approval = none;
  error = none;
  result = none;
}

-- The `spec` column: `none` where a key is missing.
pub record AgentExecutionSpec : Type 0 where
  pub instructions : Option Text

pub record JobSpec : Type 0 where
  pub agent_execution_spec : Option AgentExecutionSpec

pub record JobRow : Type 0 where
  pub id : Text
  pub tenant_id : Text
  pub type : Text
  pub spec : JobSpec
  pub status : JobStatus
  pub attempts : ℕ
  pub max_attempts : ℕ
  pub retry_count : ℕ
  pub max_retries : ℕ
  pub progress : Progress
  pub locked_at : Option ℕ
  pub locked_by : Option Text
  pub created_at : ℕ
  pub updated_at : ℕ

abbrev pub job_id : JobRow → Text
job_id r = r.id

abbrev pub default_max_attempts : ℕ
default_max_attempts = 3

abbrev pub default_max_retries : ℕ
default_max_retries = 3
