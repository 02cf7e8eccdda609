-- ===== src/JobSvc/Samples.antt =====
-- Jobs and tables that the tests of job_svc run on.
use agent_exec_platform.Common.{ℕ, refl, Option, none, some, [], ◌∷◌, Text, codes, text_eq}
use agent_exec_platform.Database.Table.{Table, by_key, Distinct}
use agent_exec_platform.Database.Memory.{memory}
use agent_exec_platform.JobSvc.Models.{
  JobStatus, queued, running, JobSpec, JobRow, job_id, Progress, no_progress,
}

abbrev pub jobs : Table JobRow job_id
jobs = memory job_id

abbrev pub invoice_spec : JobSpec
invoice_spec = record {
  agent_execution_spec = some (record { instructions = some (codes "find overdue invoices") });
}

-- A job of tenant `t1` with a status, a checkpoint and two of three attempts used.
abbrev pub job : Text → JobStatus → Option ℕ → Progress → ℕ → JobRow
job id s lease p created = record {
  id = id;
  tenant_id = codes "t1";
  type = codes "agent_execution";
  spec = invoice_spec;
  status = s;
  attempts = 2;
  max_attempts = 3;
  retry_count = 0;
  max_retries = 1;
  progress = p;
  locked_at = lease;
  locked_by = none;
  created_at = created;
  updated_at = created;
}

abbrev pub waiting_job : JobRow
waiting_job = job (codes "a") queued none no_progress 5

abbrev pub younger_job : JobRow
younger_job = job (codes "b") queued none no_progress 9

abbrev pub running_job : JobRow
running_job = job (codes "r") running (some 10) no_progress 1

pub one_row : (r : JobRow) → Distinct job_id (r ∷ [])
unfolding by_key
one_row r = (refl, tt)

pub two_jobs : Distinct job_id (waiting_job ∷ younger_job ∷ [])
unfolding by_key text_eq
two_jobs = (refl, (refl, tt))

-- A table with one row, and one with the two queued jobs.
abbrev pub holding : JobRow → jobs.Db
unfolding memory
holding r = (r ∷ [], one_row r)

abbrev pub backlog : jobs.Db
unfolding memory
backlog = (waiting_job ∷ younger_job ∷ [], two_jobs)

abbrev pub no_jobs : jobs.Db
unfolding memory
no_jobs = ([], tt)
