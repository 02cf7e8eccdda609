-- ===== src/Aes/Progress.antt =====
-- services/agent_execution_service/src/agent_execution_service/services/tasks.py: what a caller is
-- told of the progress of a task. The floating-point fraction is a parameter.
use agent_exec_platform.Common.{
  ℕ, ◌≤◌, ◌≡◌, ◌↔◌, Bool, true, false, Option, none, some, List, Text, codes, ◌++◌, length, max,
  leb, is_truthy, if◌then◌else◌, arith,
}
use agent_exec_platform.JobSvc.Models.{JobStatus}
use agent_exec_platform.Aes.Models.{
  TaskStatus, pending, running, waiting_approval, completed, failed, JobStepRef, JobProgressRef,
}

-- _TASK_STATUS_FROM_JOB.get(job_status, "pending")
unfoldable pub task_status : Option JobStatus → TaskStatus
task_status none = pending
task_status (some JobStatus.queued) = pending
task_status (some JobStatus.running) = running
task_status (some JobStatus.waiting_approval) = waiting_approval
task_status (some JobStatus.succeeded) = completed
task_status (some JobStatus.failed) = failed
task_status (some JobStatus.dead) = failed
task_status (some JobStatus.cancelled) = failed

-- status in _TERMINAL_STATUSES
unfoldable pub is_terminal : TaskStatus → Bool
is_terminal completed = true
is_terminal failed = true
is_terminal _ = false

abbrev pub is_waiting : TaskStatus → Bool
is_waiting waiting_approval = true
is_waiting _ = false

abbrev pub is_failed : TaskStatus → Bool
is_failed failed = true
is_failed _ = false

is_waiting-task_status :
    (s : Option JobStatus)
    → (is_waiting (task_status s) ≡ true) ↔ (s ≡ some JobStatus.waiting_approval)
unfolding task_status
is_waiting-task_status none = ground arith
is_waiting-task_status (some JobStatus.queued) = ground arith
is_waiting-task_status (some JobStatus.running) = ground arith
is_waiting-task_status (some JobStatus.waiting_approval) = ground arith
is_waiting-task_status (some JobStatus.succeeded) = ground arith
is_waiting-task_status (some JobStatus.failed) = ground arith
is_waiting-task_status (some JobStatus.dead) = ground arith
is_waiting-task_status (some JobStatus.cancelled) = ground arith

is_failed_iff : (s : TaskStatus) → (is_failed s ≡ true) ↔ (s ≡ failed)
is_failed_iff failed = ground arith
is_failed_iff pending = ground arith
is_failed_iff running = ground arith
is_failed_iff waiting_approval = ground arith
is_failed_iff completed = ground arith

pub record TaskProgressView (Number : Type 0) : Type 0 where
  pub task_id : Text
  pub status : TaskStatus
  pub percent_complete : Number
  pub steps_completed : ℕ
  pub steps_total : ℕ
  pub requires_approval : Bool
  pub summary : Text
  pub steps : List JobStepRef
  pub output : Text
  pub error : Text
  pub updated_at : ℕ

-- Python's floats, as far as a percentage needs them.
pub record Floats : Type 1 where
  pub Number : Type 0
  pub zero_percent : Number
  pub hundred_percent : Number
  -- round(min(completed / total, 1.0) * 100.0, 1)
  pub percent_of : ℕ → ℕ → Number
  -- the decimal digits of a whole number
  pub digits : ℕ → Text

module _ (f : Floats) where
  -- _percent_complete
  unfoldable pub percent_complete : TaskStatus → ℕ → ℕ → f.Number
  percent_complete completed done total = f.hundred_percent
  percent_complete _ done total = if leb total 0 then f.zero_percent else f.percent_of done total

  -- _summary
  unfoldable pub summary : TaskStatus → ℕ → ℕ → Text → Text
  summary running done total error =
      if leb total 0
      then codes "Running: planning"
      else codes "Running: "
        ++ f.digits done
        ++ codes " of "
        ++ f.digits total
        ++ codes " steps done"
  summary waiting_approval done total error = codes "Waiting for approval"
  summary completed done total error = codes "Completed"
  summary failed done total error =
      if is_truthy error then codes "Failed: " ++ error else codes "Failed"
  summary pending done total error = codes "Pending"

  -- The view that `get_progress` builds of a job's progress.
  unfoldable pub view_of : Text → ℕ → JobProgressRef → TaskProgressView f.Number
  unfolding task_status percent_complete summary is_truthy
  view_of id updated_at ref =
      let status = task_status ref.status in
      let done = length ref.steps in
      let total = max ref.steps_total done in
      let error : Text = if is_failed status then ref.error else codes "" in
      record {
        task_id = id;
        status = status;
        percent_complete = percent_complete status done total;
        steps_completed = done;
        steps_total = total;
        requires_approval = is_waiting status;
        summary = summary status done total error;
        steps = ref.steps;
        output = ref.result;
        error = error;
        updated_at = updated_at;
      }

  -- A view never claims more finished steps than planned ones; it asks for an approval exactly if
  -- the job waits for one; it carries an error only of a task that failed.
  pub view_of-IsConsistent :
      (id : Text) (updated_at : ℕ) (ref : JobProgressRef)
      → ((view_of id updated_at ref).steps_completed ≤ (view_of id updated_at ref).steps_total)
        × (((view_of id updated_at ref).requires_approval ≡ true)
            ↔ (ref.status ≡ some JobStatus.waiting_approval))
        × (is_truthy (view_of id updated_at ref).error ≡ true
            → (view_of id updated_at ref).status ≡ failed)
  unfolding view_of
  view_of-IsConsistent id updated_at ref =
      ground (arith, is_waiting-task_status ref.status, is_failed_iff (task_status ref.status))
