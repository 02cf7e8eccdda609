-- ===== src/JobSvc/Jobs/Recovery.antt =====
-- services/job_svc/src/job_svc/services/jobs.py: a stranded job under `reap_expired` and then
-- `claim_batch`, as a tick of the poller runs them.
use agent_exec_platform.Common.{ℕ, ◌<◌, ◌≡◌, refl, sym, ap, ◌∙◌, Bool, true, some, Text, arith}
use mathlib.Core.Option.{some-injective}
use agent_exec_platform.Database.Table.{Table, by_key}
use agent_exec_platform.JobSvc.Models.{JobRow, job_id}
use agent_exec_platform.JobSvc.Jobs.Values.{is_stranded, is_queued, fail_values, claim_values}
use agent_exec_platform.JobSvc.Jobs.Batches.{claimed_row}
use agent_exec_platform.JobSvc.Jobs.Service.{reap_expired, claim_batch}

module _ (t : Table JobRow job_id) (lease now : ℕ) where
  open t use {Db}

  -- With attempts left the reaper puts it back to the queue.
  pub reap_expired-requeues :
      (db : Db) (j : Text) (r : JobRow)
      → t.find j db ≡ some r
      → is_stranded lease now r ≡ true
      → r.attempts < r.max_attempts
      → (t.find j (reap_expired t lease now db).1 ≡ some (fail_values now r))
        × (is_queued (fail_values now r) ≡ true)
  unfolding reap_expired fail_values is_queued
  reap_expired-requeues db j r found lost left = (
    ground (arith, t.find-update_where (is_stranded lease now) (fail_values now) db j (λ q. refl)),
    ground arith,
  )

  -- A claim that then returns it starts it anew.
  pub claim_batch-reaped :
      (locked : Text → Bool) (limit : ℕ) (owner : Text) (later : ℕ) (db : Db) (j : Text)
      (r r' : JobRow)
      → t.find j db ≡ some r
      → is_stranded lease now r ≡ true
      → r.attempts < r.max_attempts
      → by_key job_id j (claim_batch t locked limit owner later (reap_expired t lease now db).1).0
        ≡ some r'
      → r' ≡ claim_values owner later (fail_values now r)
  claim_batch-reaped locked limit owner later db j r r' found lost left taken =
      let (requeued, _) = reap_expired-requeues db j r found lost left in
      let (q, stored, _, _, new, _) =
        claimed_row t locked limit owner later (reap_expired t lease now db).1 j r' taken in
      new
      ∙ ap (claim_values owner later) (some-injective q (fail_values now r) (sym stored ∙ requeued))
