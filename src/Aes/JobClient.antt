-- ===== src/Aes/JobClient.antt =====
-- services/agent_execution_service/src/agent_execution_service/job_client.py: the client of job_svc, over
-- the handlers of job_svc's servicer. The state is job_svc's table and a clock that every call moves
-- on. The ids that job_svc draws and the calls that the channel fails are parameters; a call that
-- fails does not reach job_svc.
use agent_exec_platform.Common.{
  ℕ, suc, Bool, true, false, Option, none, some, List, [], ◌∷◌, length, Text, codes,
}
use agent_exec_platform.Common.Outcome.{Outcome, ok, raise}
use agent_exec_platform.Common.Grpc.{
  StatusCode, code_not_found, code_invalid_argument, code_already_exists, code_failed_precondition,
  code_aborted,
}
use agent_exec_platform.Database.Table.{Table}
use agent_exec_platform.JobSvc.Models.{JobStatus, JobRow, job_id, JobSpec}
use agent_exec_platform.JobSvc.Jobs.Service.{Settings}
use agent_exec_platform.JobSvc.Mappers.{
  FinishReason, finish_requires_approval, Job, JobStep, insert_step, or_blank, nonempty,
}
use agent_exec_platform.JobSvc.Servicer.{create_job, get_job, update_job, retry_job}
use agent_exec_platform.Aes.Models.{
  AppError, not_found, validation, state, conflict, app_error, JobRef, JobStepRef, JobProgressRef,
  JobGateway,
}

-- _ERROR_BY_CODE.get(code, AppError); the id is the one that the call was made for
unfoldable pub error_by_code : Text → StatusCode → AppError
error_by_code id code_not_found = not_found id
error_by_code id code_invalid_argument = validation
error_by_code id code_failed_precondition = state
error_by_code id code_already_exists = conflict
error_by_code id code_aborted = conflict
error_by_code id _ = app_error

-- _to_ref
unfoldable pub to_ref : Job → JobRef
to_ref j = record { id = j.id; status = some j.status; result = or_blank j.result }

unfoldable pub is_approval : FinishReason → Bool
is_approval finish_requires_approval = true
is_approval _ = false

abbrev to_step_ref : JobStep → JobStepRef
to_step_ref s = record {
  index = s.index;
  description = s.prompt;
  output = s.output;
  agent = s.agent;
  requires_approval = is_approval s.finish_reason;
}

-- sorted(progress.steps, key=lambda s: s.index)
unfoldable pub sort_steps : List JobStep → List JobStep
unfolding insert_step
sort_steps [] = []
sort_steps (s ∷ ss) = insert_step s (sort_steps ss)

abbrev step_refs : List JobStep → List JobStepRef
step_refs [] = []
step_refs (s ∷ ss) = to_step_ref s ∷ step_refs ss

-- _to_progress_ref
unfoldable pub to_progress_ref : Job → JobProgressRef
unfolding sort_steps is_approval
to_progress_ref j = record {
  status = some j.status;
  steps_total = length j.progress.plan;
  steps = step_refs (sort_steps j.progress.steps);
  error = j.progress.error;
  result = or_blank j.result;
}

-- The spec that `create_job` submits; a message with no text has no entry for it.
unfoldable pub submitted_spec : Text → JobSpec
submitted_spec input = record {
  agent_execution_spec = some (record { instructions = nonempty input });
}

-- _call, given what the stub gave
abbrev pub answered : {A B : Type 0} → Text → (A → B) → Outcome StatusCode A → Outcome AppError B
answered id f (ok a) = ok (f a)
answered id f (raise code) = raise (error_by_code id code)

-- response.jobs[0]
abbrev pub first_job :
    {B : Type 0} → Text → (Job → B) → Outcome StatusCode (List Job) → Outcome AppError B
first_job id f (raise code) = raise (error_by_code id code)
first_job id f (ok []) = raise (not_found id)
first_job id f (ok (j ∷ js)) = ok (f j)

module _ (t : Table JobRow job_id) (settings : Settings) (ids : ℕ → Text)
    (fails : ℕ → Option StatusCode) where
  open t use {Db}

  -- job_svc's table and the clock.
  abbrev pub Backend : Type 0
  Backend = Db × ℕ

  abbrev pub timed : {A : Type 0} → ℕ → Outcome StatusCode A × Db → Outcome StatusCode A × Backend
  timed n (r, db) = (r, (db, suc n))

  -- One call over the channel.
  unfoldable pub call :
      {A : Type 0} → (ℕ → Db → Outcome StatusCode A × Db) → Backend → Outcome StatusCode A × Backend
  call method (db, n) = elim (fails n) [
    | some code ↦ (raise code, (db, suc n))
    | none ↦ timed n (method n db)
  ]

  abbrev pub seen :
      {A B : Type 0}
      → (Outcome StatusCode A → Outcome AppError B)
      → Outcome StatusCode A × Backend
      → Outcome AppError B × Backend
  seen f (r, s) = (f r, s)

  -- JobClient.create_job
  unfoldable pub create_job_ref : Text → Text → Backend → Outcome AppError JobRef × Backend
  unfolding call create_job to_ref error_by_code submitted_spec
  create_job_ref tenant input s = seen (answered [] to_ref) (
      call
        (λ n db.
          create_job t settings (ids n) n (some tenant) (some (codes "agent_execution"))
            (submitted_spec input) none none db)
        s)

  abbrev read : Text → Text → Backend → Outcome StatusCode (List Job) × Backend
  read tenant job s = call (λ n db. (get_job t (some tenant) (job ∷ []) [] [] db, db)) s

  -- JobClient.get_job
  unfoldable pub get_job_ref : Text → Text → Backend → Outcome AppError JobRef × Backend
  unfolding call get_job to_ref error_by_code
  get_job_ref tenant job s = seen (first_job job to_ref) (read tenant job s)

  -- JobClient.start_job
  unfoldable pub start_job_ref : Text → Text → Backend → Outcome AppError JobRef × Backend
  unfolding call update_job to_ref error_by_code
  start_job_ref tenant job s =
      seen (answered job to_ref)
        (call (λ n db. update_job t n (some tenant) job (some JobStatus.queued) db) s)

  -- JobClient.retry_job
  unfoldable pub retry_job_ref : Text → Text → Backend → Outcome AppError JobRef × Backend
  unfolding call retry_job to_ref error_by_code
  retry_job_ref tenant job s =
      seen (answered job to_ref) (call (λ n db. retry_job t n (some tenant) job db) s)

  -- JobClient.get_job_progress
  unfoldable pub get_job_progress_ref :
      Text → Text → Backend → Outcome AppError JobProgressRef × Backend
  unfolding call get_job to_progress_ref error_by_code
  get_job_progress_ref tenant job s = seen (first_job job to_progress_ref) (read tenant job s)

  -- JobClient as the gateway of the task service.
  unfoldable pub job_client : JobGateway
  unfolding create_job_ref get_job_ref start_job_ref retry_job_ref get_job_progress_ref
  job_client = record {
    State = Backend;
    create_job = create_job_ref;
    get_job = get_job_ref;
    start_job = start_job_ref;
    retry_job = retry_job_ref;
    get_job_progress = get_job_progress_ref;
  }
