-- ===== src/JobSvc/Tests/Running.antt =====
-- The theorems about `JobRunner` at a concrete run.
use agent_exec_platform.Common.{
  ◌+◌, ◌≡◌, refl, false, none, some, List, [], ◌∷◌, ◌++◌, Text, codes, text_eq, arith, get_elem?,
}
use agent_exec_platform.Common.Outcome.{ok}
use agent_exec_platform.Database.Table.{by_key}
use agent_exec_platform.Database.Memory.{memory}
use agent_exec_platform.JobSvc.Models.{running, JobRow, Pending, no_progress}
use agent_exec_platform.JobSvc.Jobs.Service.{claim_batch, reap_expired}
use agent_exec_platform.JobSvc.Orchestrator.{replied}
use agent_exec_platform.JobSvc.Runner.World.{Call, Environment, World}
use agent_exec_platform.JobSvc.Runner.Execute.{lookup, execute_steps, attempt, run}
use agent_exec_platform.JobSvc.Runner.Calls.{IsDue, execute_steps-IsDue}
use agent_exec_platform.JobSvc.Runner.Records.{Extends, Complete, execute_steps-records}
use agent_exec_platform.JobSvc.Runner.Keeps.{IsHeld}
use agent_exec_platform.JobSvc.Runner.Outcomes.{Leaves, run-Leaves}
use agent_exec_platform.JobSvc.Runner.Approval.{approved_call, crashed_pause_is_approved}
use agent_exec_platform.JobSvc.Samples.{jobs, job, running_job, holding}

-- An orchestrator that answers every turn with "done", and nobody else at the table.
abbrev calm : Environment jobs
calm = record {
  rpc = λ calls request. replied (record {
    messages = record { role = codes "assistant"; content = codes "done"; agent = codes "A" } ∷ [];
    finish_reason = codes "stop";
  });
  others = λ n db. db;
  clock = λ n. 20 + n;
  describe = λ e. codes "failed";
  json_array = λ content. none;
  is_decimal = λ c. false;
}

abbrev begun : World jobs
begun = record { db = holding running_job; calls = []; statements = 0; progress = no_progress }

abbrev two_steps : List Text
two_steps = codes "look up" ∷ codes "write" ∷ []

execute_steps-IsDue_example :
    (new : List Call) × ((execute_steps jobs calm running_job two_steps begun).1.calls ≡ [] ++ new)
    × IsDue running_job two_steps none 0 [] new
execute_steps-IsDue_example = execute_steps-IsDue jobs calm running_job two_steps begun

execute_steps-records_example :
    let (r, w') = execute_steps jobs calm running_job two_steps begun in
    Extends no_progress w'.progress × (r ≡ ok tt → Complete 0 two_steps w'.progress)
execute_steps-records_example = execute_steps-records jobs calm running_job two_steps begun

running_job-IsHeld : IsHeld jobs calm running_job begun
unfolding memory by_key text_eq
running_job-IsHeld = record {
  kept = no_progress;
  holds = record {
    current = running_job;
    found = refl;
    is_run = record {
      live = refl;
      same_tenant = refl;
      same_attempts = refl;
      same_max_attempts = refl;
      same_retry_count = refl;
      same_max_retries = refl;
    };
    stored = refl;
  };
}

run-Leaves_example :
    let (r, w') = attempt jobs calm running_job begun in
    ((run jobs calm running_job begun).0 ≡ ok tt)
    × Leaves jobs calm running_job r w' (run jobs calm running_job begun).1.db
run-Leaves_example = run-Leaves jobs calm running_job (λ n db p h. h) begun running_job-IsHeld

-- The planner's answer has no JSON array, so its one line is the plan; the job succeeds.
run_succeeds : (attempt jobs calm running_job begun).0 ≡ ok tt
unfolding attempt memory by_key text_eq
run_succeeds = refl

-- A job that paused at its first step, and whose pod died before the job was parked.
abbrev marker : Pending
marker = record { step = 0; prompt = codes "send email"; detail = [] }

abbrev paused : JobRow
paused =
    job (codes "p") running (some 10)
      (record no_progress {
        plan = some (codes "send email" ∷ []);
        steps = some [];
        pending_approval = some marker;
      })
      1

-- The job as a claim at 60 takes it, after a reaper at 50.
abbrev restarted : JobRow
restarted = record paused {
  attempts = 3;
  locked_at = some 60;
  locked_by = some (codes "w");
  updated_at = 60;
}

abbrev resumed : World jobs
resumed = record { db = holding restarted; calls = []; statements = 0; progress = paused.progress }

crashed_pause_is_approved_example :
    (restarted.status ≡ running)
    × (more : List Call) × ((execute_steps jobs calm restarted
          (codes "send email" ∷ [])
          resumed).1.calls
        ≡ [] ++ approved_call jobs calm restarted 0 (codes "send email") ∷ more)
unfolding memory by_key text_eq claim_batch reap_expired lookup get_elem?
crashed_pause_is_approved_example =
    crashed_pause_is_approved jobs calm (holding paused) (codes "p") paused restarted 30 50
      (λ k. false) 5 (codes "w") 60 10 (codes "send email" ∷ []) 0 (codes "send email") marker
      resumed refl refl refl (omega arith) (omega arith) refl (λ k h. absurd (omega arith)) refl
      refl refl refl refl
