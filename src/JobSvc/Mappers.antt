-- ===== src/JobSvc/Mappers.antt =====
-- services/job_svc/src/job_svc/mappers.py: the messages that a caller sees of a job.
use agent_exec_platform.Common.{
  ℕ, Option, none, some, List, [], ◌∷◌, Text, codes, text_eq, leb, if◌then◌else◌,
}
use agent_exec_platform.Common.Outcome.{Outcome, ok, raise, ◌>>=◌}
use agent_exec_platform.JobSvc.Models.{
  JobStatus, JobRow, JobSpec, Progress, Step, Error, unknown_type,
}
use agent_exec_platform.JobSvc.Runner.Execute.{or_empty}

-- The enum FinishReason; a word that the runner did not set is unspecified.
pub data FinishReason : Type 0 where
  finish_unspecified finish_stop finish_requires_approval : FinishReason

-- The enum JobPhase.
pub data JobPhase : Type 0 where
  phase_unspecified phase_planning phase_executing phase_completed : JobPhase

-- _FINISH_REASON_TO_PROTO.get(reason, FINISH_REASON_UNSPECIFIED)
unfoldable pub finish_reason_to_proto : Text → FinishReason
unfolding text_eq
finish_reason_to_proto s =
    if text_eq s (codes "stop")
    then finish_stop
    else if text_eq s (codes "requires_approval")
    then finish_requires_approval
    else finish_unspecified

-- _PHASE_TO_PROTO.get(phase, JOB_PHASE_UNSPECIFIED)
unfoldable pub phase_to_proto : Text → JobPhase
unfolding text_eq
phase_to_proto s =
    if text_eq s (codes "planning")
    then phase_planning
    else if text_eq s (codes "executing")
    then phase_executing
    else if text_eq s (codes "completed")
    then phase_completed
    else phase_unspecified

pub record JobStep : Type 0 where
  pub index : ℕ
  pub prompt : Text
  pub output : Text
  pub finish_reason : FinishReason
  pub agent : Text

pub record JobProgress : Type 0 where
  pub phase : JobPhase
  pub plan : List Text
  pub steps : List JobStep
  pub error : Text
  pub result : Text

-- The enum JobType, less the unspecified one.
pub data JobType : Type 0 where
  agent_execution : JobType

-- _TYPE_TO_PROTO.get(type)
unfoldable pub type_to_proto : Text → Option JobType
unfolding text_eq
type_to_proto s = if text_eq s (codes "agent_execution") then some agent_execution else none

-- A Job message. The status is the word of the row.
pub record Job : Type 0 where
  pub id : Text
  pub type : JobType
  pub spec : JobSpec
  pub status : JobStatus
  pub attempts : ℕ
  pub max_attempts : ℕ
  pub retry_count : ℕ
  pub max_retries : ℕ
  pub created_at : ℕ
  pub updated_at : ℕ
  pub progress : JobProgress
  pub result : Option Text

abbrev pub step_to_proto : ℕ × Step → JobStep
step_to_proto (k, s) = record {
  index = k;
  prompt = s.prompt;
  output = s.output;
  finish_reason = finish_reason_to_proto s.finish_reason;
  agent = s.agent;
}

-- sorted(..., key=lambda kv: int(kv[0])), a stable sort
unfoldable pub insert_step : JobStep → List JobStep → List JobStep
insert_step s [] = s ∷ []
insert_step s (u ∷ us) =
    let rest = insert_step s us in if leb s.index u.index then s ∷ u ∷ us else u ∷ rest

unfoldable pub sorted_steps : List (ℕ × Step) → List JobStep
unfolding insert_step finish_reason_to_proto
sorted_steps [] = []
sorted_steps (e ∷ es) = insert_step (step_to_proto e) (sorted_steps es)

abbrev pub or_blank : Option Text → Text
or_blank none = []
or_blank (some s) = s

abbrev pub or_no_plan : Option (List Text) → List Text
or_no_plan none = []
or_no_plan (some p) = p

-- progress_to_proto
unfoldable pub progress_to_proto : Progress → JobProgress
unfolding sorted_steps phase_to_proto
progress_to_proto p = record {
  phase = phase_to_proto (or_blank p.phase);
  plan = or_no_plan p.plan;
  steps = sorted_steps (or_empty p.steps);
  error = or_blank p.error;
  result = or_blank p.result;
}

abbrev pub nonempty : Text → Option Text
nonempty [] = none
nonempty (c ∷ s) = some (c ∷ s)

-- result_to_proto; the output of the AgentExecutionResult
unfoldable pub result_to_proto : JobRow → Option Text
result_to_proto r = nonempty (or_blank r.progress.result)

abbrev pub typed_job : JobRow → Option JobType → Outcome Error Job
typed_job r none = raise (unknown_type r.type)
typed_job r (some type) = ok (record {
  id = r.id;
  type = type;
  spec = r.spec;
  status = r.status;
  attempts = r.attempts;
  max_attempts = r.max_attempts;
  retry_count = r.retry_count;
  max_retries = r.max_retries;
  created_at = r.created_at;
  updated_at = r.updated_at;
  progress = progress_to_proto r.progress;
  result = result_to_proto r;
})

-- job_to_proto, which raises for a row whose type has no enum
unfoldable pub job_to_proto : JobRow → Outcome Error Job
unfolding type_to_proto progress_to_proto result_to_proto
job_to_proto r = typed_job r (type_to_proto r.type)

-- [job_to_proto(r) for r in rows]
unfoldable pub jobs_to_proto : List JobRow → Outcome Error (List Job)
unfolding job_to_proto
jobs_to_proto [] = ok []
jobs_to_proto (r ∷ rows) =
    let rest = jobs_to_proto rows in job_to_proto r >>= (λ j. rest >>= (λ js. ok (j ∷ js)))
