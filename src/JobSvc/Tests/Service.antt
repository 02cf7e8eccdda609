-- ===== src/JobSvc/Tests/Service.antt =====
-- The theorems about `JobService` at concrete jobs.
use agent_exec_platform.Common.Outcome.{ok}
use agent_exec_platform.Common.{
  ℕ, ◌<◌, ◌↔◌, ◌&&◌, if◌then◌else◌, ltb, ◌+◌, ◌*◌, ◌≤◌, ◌≡◌, refl, Bool, false, none, some, List,
  [], ◌∷◌, Text, codes, text_eq, arith, length,
}
use agent_exec_platform.Database.Table.{by_key, updated}
use agent_exec_platform.Database.Memory.{memory}
use agent_exec_platform.JobSvc.Models.{queued, running, failed, dead, is_status, JobRow, job_id}
use agent_exec_platform.JobSvc.Jobs.Service.{
  new_row, enter, retry, claim_batch, reap_expired, renew_lease,
}
use agent_exec_platform.JobSvc.Jobs.Values.{is_stranded, claim_values, renew_values}
use agent_exec_platform.JobSvc.Jobs.Events.{
  entered, claimed, reaped, step, sources, entry_values, Event,
}
use agent_exec_platform.JobSvc.Jobs.Guarded.{
  answer, own, retried_answer, requeued, enter_lem, retry_lem,
}
use agent_exec_platform.JobSvc.Jobs.Budget.{runs_of, requeues_of, runs_bounded}
use agent_exec_platform.JobSvc.Jobs.Batches.{
  claim_batch_lem, claim_batch-first, claim_batch-disjoint, claim_batch-skip_locked,
  length-claim_batch,
}
use agent_exec_platform.JobSvc.Jobs.Reaping.{reap_expired_lem, renewed-survives}
use agent_exec_platform.JobSvc.Jobs.Invariant.{IsSound}
use agent_exec_platform.JobSvc.Jobs.Operations.{
  Operation, creates, claims, performs, performs-IsSound, HasHistory,
}
use agent_exec_platform.JobSvc.Samples.{
  jobs, invoice_spec, waiting_job, younger_job, running_job, holding, backlog, no_jobs,
}

enter_lem_example :
    ((enter jobs (codes "t1") (codes "r") failed 20 (holding running_job)).0
      ≡ answer
          (codes "t1")
          (codes "r")
          (sources failed)
          (entry_values failed 20)
          (jobs.find (codes "r") (holding running_job)))
    × (jobs.find (codes "r") (enter jobs (codes "t1") (codes "r") failed 20 (holding running_job)).1
        ≡ updated
            (own (codes "t1") (codes "r") (codes "r"))
            (step (entered failed 20))
            (jobs.find (codes "r") (holding running_job)))
enter_lem_example =
    enter_lem jobs (codes "t1") (codes "r") 20 (holding running_job) failed (codes "r")

-- The third attempt is left, so a failed job goes back to the queue.
failed_requeues :
    jobs.find (codes "r") (enter jobs (codes "t1") (codes "r") failed 20 (holding running_job)).1
    ≡ some (record running_job { status = queued; locked_at = none; updated_at = 20 })
unfolding enter memory text_eq
failed_requeues = refl

retry_lem_example :
    ((retry jobs (codes "t1") (codes "r") 20 (holding running_job)).0
      ≡ retried_answer (codes "t1") (codes "r") 20 (jobs.find (codes "r") (holding running_job)))
    × (jobs.find (codes "r") (retry jobs (codes "t1") (codes "r") 20 (holding running_job)).1
        ≡ elim (jobs.find (codes "r") (holding running_job)) [
          | none ↦ none
          | some r ↦
              if text_eq (codes "r") (codes "r")
                && (text_eq r.tenant_id (codes "t1") && is_status r.status failed)
              then some (requeued 20 r)
              else some r
        ])
retry_lem_example = retry_lem jobs (codes "t1") (codes "r") 20 (holding running_job) (codes "r")

-- A failed job has all its attempts again.
retries_failed :
    retried_answer (codes "t1") (codes "r") 20 (some (record running_job { status = failed }))
    ≡ ok (record running_job {
      status = queued;
      attempts = 0;
      retry_count = 1;
      locked_at = none;
      updated_at = 20;
    })
unfolding retried_answer text_eq
retries_failed = refl

abbrev two_runs : List Event
two_runs = claimed (codes "w") 1 ∷ reaped 5 10 ∷ claimed (codes "w") 12 ∷ entered failed 13 ∷ []

abbrev fresh_job : JobRow
unfolding new_row
fresh_job = new_row (codes "n") 0 (codes "t1") (codes "agent_execution") invoice_spec 2 1

runs_bounded_example :
    let r = new_row (codes "n") 0 (codes "t1") (codes "agent_execution") invoice_spec 2 1 in
    runs_of two_runs r ≤ (1 + 1) * 2 + requeues_of two_runs r
runs_bounded_example =
    runs_bounded (codes "n") 0 (codes "t1") (codes "agent_execution") invoice_spec 2 1 two_runs
      (omega arith)

two_runs_count : runs_of two_runs fresh_job ≡ 2
unfolding runs_of fresh_job step
two_runs_count = refl

abbrev free : Text → Bool
free k = false

claim_batch_lem_example :
    (r : JobRow) × (jobs.find (codes "a") backlog ≡ some r)
    × (r.status ≡ queued)
    × (free (codes "a") ≡ false)
    × (claim_values (codes "w") 20 waiting_job ≡ record r {
      status = running;
      attempts = r.attempts + 1;
      locked_at = some 20;
      locked_by = some (codes "w");
      updated_at = 20;
    })
    × (jobs.find (codes "a") (claim_batch jobs free 1 (codes "w") 20 backlog).1
        ≡ some (claim_values (codes "w") 20 waiting_job))
unfolding memory claim_batch by_key text_eq
claim_batch_lem_example =
    claim_batch_lem jobs free 1 (codes "w") 20 backlog (codes "a")
      (claim_values (codes "w") 20 waiting_job) refl

claim_batch-first_example :
    (length (claim_batch jobs free 1 (codes "w") 20 backlog).0 ≡ 1)
    × ((k : Text) (c : JobRow)
        → by_key job_id k (claim_batch jobs free 1 (codes "w") 20 backlog).0 ≡ some c
        → c.created_at ≤ 9)
unfolding memory claim_batch by_key text_eq
claim_batch-first_example =
    claim_batch-first jobs free 1 (codes "w") 20 backlog (codes "b") younger_job refl refl refl refl

length-claim_batch_example : length (claim_batch jobs free 1 (codes "w") 20 backlog).0 ≤ 1
length-claim_batch_example = length-claim_batch jobs free 1 (codes "w") 20 backlog

claim_batch-disjoint_example :
    by_key job_id
      (codes "a")
      (claim_batch jobs free 2 (codes "v") 21 (claim_batch jobs free 1 (codes "w") 20 backlog).1).0
    ≡ none
unfolding memory claim_batch by_key text_eq
claim_batch-disjoint_example =
    claim_batch-disjoint jobs 1 2 (codes "w") (codes "v") 20 21 backlog free free (codes "a") refl

abbrev held_a : Text → Bool
unfolding text_eq
held_a = text_eq (codes "a")

claim_batch-skip_locked_example :
    by_key job_id (codes "a") (claim_batch jobs held_a 2 (codes "v") 20 backlog).0 ≡ none
unfolding memory claim_batch by_key text_eq
claim_batch-skip_locked_example =
    claim_batch-skip_locked jobs 1 2 (codes "w") (codes "v") 20 20 backlog held_a (codes "a") refl
      refl

reap_expired_lem_example :
    ((r' : JobRow)
      → (by_key job_id (codes "r") (reap_expired jobs 30 50 (holding running_job)).0 ≡ some r') ↔ (
          (r : JobRow) × (s : ℕ) × (jobs.find (codes "r") (holding running_job) ≡ some r)
          × (r.status ≡ running)
          × (r.locked_at ≡ some s)
          × (s + 30 < 50)
          × (r' ≡ record r {
            status =
                if ltb r.attempts r.max_attempts
                then queued
                else if ltb r.retry_count r.max_retries
                then failed
                else dead;
            locked_at = none;
            locked_by = none;
            updated_at = 50;
          })))
    × (jobs.find (codes "r") (reap_expired jobs 30 50 (holding running_job)).1
        ≡ elim (by_key job_id (codes "r") (reap_expired jobs 30 50 (holding running_job)).0) [
          | some r' ↦ some r'
          | none ↦ jobs.find (codes "r") (holding running_job)
        ])
reap_expired_lem_example = reap_expired_lem jobs 30 50 (holding running_job) (codes "r")

-- The third attempt is left, so the stranded job goes back to the queue.
reaps_stranded :
    jobs.find (codes "r") (reap_expired jobs 30 50 (holding running_job)).1
    ≡ some (record running_job { status = queued; locked_at = none; updated_at = 50 })
unfolding reap_expired memory by_key text_eq
reaps_stranded = refl

renewed-survives_example :
    let db' = (renew_lease jobs (codes "r") 35 (holding running_job)).1 in
    jobs.find (codes "r") (reap_expired jobs 30 50 db').1 ≡ some (renew_values 35 running_job)
unfolding memory by_key text_eq is_stranded
renewed-survives_example =
    renewed-survives jobs 30 35 50 (holding running_job) (codes "r") running_job refl refl
      (omega arith)

abbrev two_operations : List Operation
two_operations =
    creates (record { default_max_attempts = 3; default_max_retries = 3 }) (codes "n") 0
      (codes "t1") (codes "agent_execution") invoice_spec none (some 1)
    ∷ claims free 5 (codes "w") 4
    ∷ []

abbrev claimed_job : JobRow
unfolding new_row claim_values
claimed_job =
    claim_values (codes "w") 4
      (new_row (codes "n") 0 (codes "t1") (codes "agent_execution") invoice_spec 3 1)

performs-IsSound_example : IsSound claimed_job × HasHistory claimed_job
unfolding memory performs by_key text_eq claimed_job
performs-IsSound_example =
    performs-IsSound jobs two_operations no_jobs (codes "n") claimed_job (λ k. refl) refl
