-- ===== src/Aes/Models.antt =====
-- services/agent_execution_service/src/agent_execution_service/models.py, errors.py and
-- job_client.py: the row of a task, the typed errors, and what `TaskService` needs of job_svc.
use agent_exec_platform.Common.{ℕ, Bool, Option, List, Text}
use agent_exec_platform.Common.Outcome.{Outcome}
use agent_exec_platform.JobSvc.Models.{JobStatus}

-- The words that the status column of a task holds.
pub data TaskStatus : Type 0 where
  pending running waiting_approval completed failed : TaskStatus

-- AppError and its subclasses; the wording is left out but for the id of what was not found.
pub data AppError : Type 0 where
  app_error : AppError
  not_found : Text → AppError
  validation : AppError
  authentication : AppError
  conflict : AppError
  state : AppError

pub record TaskRow : Type 0 where
  pub id : Text
  pub tenant_id : Text
  pub input : Text
  pub job_id : Text
  pub status : TaskStatus
  pub result : Text
  pub created_at : ℕ
  pub updated_at : ℕ

abbrev pub task_id : TaskRow → Text
task_id r = r.id

-- JobRef; `none` is the status "unspecified".
pub record JobRef : Type 0 where
  pub id : Text
  pub status : Option JobStatus
  pub result : Text

pub record JobStepRef : Type 0 where
  pub index : ℕ
  pub description : Text
  pub output : Text
  pub agent : Text
  pub requires_approval : Bool

pub record JobProgressRef : Type 0 where
  pub status : Option JobStatus
  pub steps_total : ℕ
  pub steps : List JobStepRef
  pub error : Text
  pub result : Text

-- The protocol `JobGateway`. The state is that of job_svc, which a call may change.
pub record JobGateway : Type 1 where
  pub State : Type 0
  pub create_job : Text → Text → State → Outcome AppError JobRef × State
  pub get_job : Text → Text → State → Outcome AppError JobRef × State
  pub start_job : Text → Text → State → Outcome AppError JobRef × State
  pub retry_job : Text → Text → State → Outcome AppError JobRef × State
  pub get_job_progress : Text → Text → State → Outcome AppError JobProgressRef × State
