-- ===== src/JobSvc/Tests/Messages.antt =====
-- The theorems about the messages and the RPCs of job_svc at concrete jobs.
use mathlib.Core.Option.{some-injective}
use agent_exec_platform.Common.{
  arith, ◌⊎◌, inl, inr, ◌≡◌, refl, sym, ap, true, false, Bool-cases, some, [], ◌∷◌, codes, text_eq,
  map,
}
use agent_exec_platform.Common.Outcome.{raise}
use agent_exec_platform.Database.Memory.{memory}
use agent_exec_platform.Database.Table.{by_key}
use agent_exec_platform.JobSvc.Models.{failed, no_progress, Progress, Step, JobRow}
use agent_exec_platform.JobSvc.Runner.Execute.{or_empty}
use agent_exec_platform.JobSvc.Mappers.{progress_to_proto}
use agent_exec_platform.Common.Grpc.{code_failed_precondition, code_internal}
use agent_exec_platform.JobSvc.Servicer.{retry_job}
use agent_exec_platform.JobSvc.Messages.{
  IsOrdered, count_index, count_key, progress_to_proto-IsOrdered,
}
use agent_exec_platform.JobSvc.Answers.{IsAnswered, call, retry_rpc, call-IsAnswered}
use agent_exec_platform.JobSvc.Kinds.{IsTyped}
use agent_exec_platform.JobSvc.Poller.{Poller}
use agent_exec_platform.JobSvc.Samples.{jobs, running_job, holding}

abbrev a_step : Step
a_step = record { prompt = []; output = []; finish_reason = codes "stop"; agent = [] }

abbrev two_done : Progress
two_done = record no_progress { steps = some ((1, a_step) ∷ (0, a_step) ∷ []) }

sorts_steps : map (λ s. s.index) (progress_to_proto two_done).steps ≡ 0 ∷ 1 ∷ []
unfolding progress_to_proto text_eq
sorts_steps = refl

progress_to_proto-IsOrdered_example :
    IsOrdered (progress_to_proto two_done).steps
    × (count_index 1 (progress_to_proto two_done).steps ≡ count_key 1 (or_empty two_done.steps))
progress_to_proto-IsOrdered_example = progress_to_proto-IsOrdered two_done 1

-- A running job is not retried.
refuses_retry :
    (call jobs 5 (some (codes "t1")) (retry_rpc (codes "r")) (holding running_job)).0
    ≡ raise code_failed_precondition
unfolding retry_job memory text_eq
refuses_retry = refl

holding-IsTyped : IsTyped jobs (holding running_job)
unfolding memory by_key
holding-IsTyped j r h =
    ap (λ (q : JobRow). q.type) (sym (found (Bool-cases (text_eq (codes "r") j))))
  where
    found : ((text_eq (codes "r") j ≡ true) ⊎ (text_eq (codes "r") j ≡ false)) → running_job ≡ r
    found (inl e) = some-injective running_job r (rw e at h)
    found (inr e) = absurd (ground (arith, (rw e at h)))

call-IsAnswered_example :
    IsAnswered jobs
      (holding running_job)
      (call jobs 5 (some (codes "t1")) (retry_rpc (codes "r")) (holding running_job))
call-IsAnswered_example =
    call-IsAnswered jobs 5 (some (codes "t1")) (retry_rpc (codes "r")) (holding running_job)
      holding-IsTyped

-- A row of another type has no message: the RPC commits the retry and fails.
abbrev odd_job : JobRow
odd_job = record running_job { type = codes "batch"; status = failed }

commits_and_fails :
    (call jobs 5 (some (codes "t1")) (retry_rpc (codes "r")) (holding odd_job)).0
    ≡ raise code_internal
unfolding retry_job memory text_eq
commits_and_fails = refl

abbrev pod : Poller
pod = record { batch = 1; lease_seconds = 60; owner = codes "pod" }

abbrev idle : JobRow → jobs.Db → jobs.Db
idle row db = db
