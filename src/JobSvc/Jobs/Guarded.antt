-- ===== src/JobSvc/Jobs/Guarded.antt =====
-- The conditional updates of `JobService` against their specification on one row.
use agent_exec_platform.Common.{
  not, ◌∙◌, ◌+◌, ℕ, ◌≡◌, refl, ap, Bool, Option, none, some, List, [], ◌∷◌, Text, text_eq,
  text_eq_iff, text_eq_refl, any, if◌then◌else◌, ◌&&◌, arith,
}
use agent_exec_platform.Common.Outcome.{Outcome, ok, raise}
use agent_exec_platform.Database.Table.{Table, updated}
use agent_exec_platform.JobSvc.Models.{
  JobStatus, queued, running, failed, is_status, Error, not_found, state, JobRow, job_id,
}
use agent_exec_platform.JobSvc.Jobs.Values.{
  enter_values, start_values, fail_values, retry_values, may_enter,
}
use agent_exec_platform.JobSvc.Jobs.Events.{entered, retried, sources, entry_values, step}
use agent_exec_platform.JobSvc.Jobs.Service.{guarded_update, enter, retry}

-- What a conditional update answers, given the job that has the id.
unfoldable pub answer :
    Text → Text → List JobStatus → (JobRow → JobRow) → Option JobRow → Outcome Error JobRow
unfolding is_status any
answer tenant id allowed values none = raise (not_found id)
answer tenant id allowed values (some r) =
    if text_eq r.tenant_id tenant
    then (if any (is_status r.status) allowed then ok (values r) else raise (state id r.status))
    else raise (not_found id)

-- What it makes of the row with key `j`.
abbrev pub own : Text → Text → Text → JobRow → Bool
own tenant id j r = text_eq id j && text_eq r.tenant_id tenant

-- A failed job that is put back to the queue: it has all its attempts again, one retry less and no
-- lease.
abbrev pub requeued : ℕ → JobRow → JobRow
requeued now r = record r {
  status = queued;
  attempts = 0;
  retry_count = r.retry_count + 1;
  locked_at = none;
  locked_by = none;
  updated_at = now;
}

-- What a retry is to answer.
unfoldable pub retried_answer : Text → Text → ℕ → Option JobRow → Outcome Error JobRow
unfolding is_status
retried_answer tenant id now none = raise (not_found id)
retried_answer tenant id now (some r) =
    if not (text_eq r.tenant_id tenant)
    then raise (not_found id)
    else if is_status r.status failed
    then ok (requeued now r)
    else raise (state id r.status)

module _ (t : Table JobRow job_id) where
  open t use {Db}

  module _ (tenant id : Text) (allowed : List JobStatus) (values : JobRow → JobRow)
      (fixes : (r : JobRow) → job_id (values r) ≡ job_id r) (db : Db) where
    -- The answer is a function of the one row with the id.
    pub guarded_update-answer :
        (guarded_update t tenant id allowed values db).0
        ≡ answer tenant id allowed values (t.find id db)
    unfolding guarded_update answer
    guarded_update-answer = ground (
      arith,
      t.update_one_result id (may_enter tenant allowed) values db fixes,
      t.find-update_one id (may_enter tenant allowed) values db id fixes,
      text_eq_refl id,
    )

    pub find-guarded_update :
        (j : Text)
        → t.find j (guarded_update t tenant id allowed values db).1
          ≡ updated
              (λ r. own tenant id j r && any (is_status r.status) allowed)
              values
              (t.find j db)
    unfolding guarded_update
    find-guarded_update j = ground (
      arith,
      t.update_one_result id (may_enter tenant allowed) values db fixes,
      t.find-update_one id (may_enter tenant allowed) values db j fixes,
      text_eq_iff id j,
      ap (λ k. t.find k db) {x = id} {y = j},
    )

  module _ (tenant id : Text) (now : ℕ) (db : Db) where
    -- `_start`, `_fail` and every other target of `update` are the event `entered` for the job that
    -- has the id, if the tenant owns it, and nothing for any other.
    pub find-enter :
        (target : JobStatus) (j : Text)
        → t.find j (enter t tenant id target now db).1
          ≡ updated (own tenant id j) (step (entered target now)) (t.find j db)
    unfolding enter step
    find-enter queued j = ground (
      arith,
      find-guarded_update tenant id (sources queued) (enter_values queued now) (λ r. refl) db j,
    )
    find-enter running j =
        ground
          (arith, find-guarded_update tenant id (queued ∷ []) (start_values now) (λ r. refl) db j)
    find-enter failed j =
        ground
          (arith, find-guarded_update tenant id (running ∷ []) (fail_values now) (λ r. refl) db j)
    find-enter target j = ground (
      arith,
      find-guarded_update tenant id (sources target) (enter_values target now) (λ r. refl) db j,
    )

    pub enter-answer :
        (target : JobStatus)
        → (enter t tenant id target now db).0
          ≡ answer tenant id (sources target) (entry_values target now) (t.find id db)
    unfolding enter sources entry_values
    enter-answer queued =
        guarded_update-answer tenant id (sources queued) (enter_values queued now) (λ r. refl) db
    enter-answer running =
        guarded_update-answer tenant id (sources running) (start_values now) (λ r. refl) db
    enter-answer failed =
        guarded_update-answer tenant id (sources failed) (fail_values now) (λ r. refl) db
    enter-answer target =
        guarded_update-answer tenant id (sources target) (enter_values target now) (λ r. refl) db

    pub find-retry :
        (j : Text)
        → t.find j (retry t tenant id now db).1
          ≡ updated (own tenant id j) (step (retried now)) (t.find j db)
    unfolding retry step
    find-retry j =
        ground
          (arith, find-guarded_update tenant id (failed ∷ []) (retry_values now) (λ r. refl) db j)

    -- `update` answers by the one job that has the id, and is the event `entered` for it, if the
    -- tenant owns it, and nothing for any other job.
    pub enter_lem :
        (target : JobStatus) (j : Text)
        → ((enter t tenant id target now db).0
            ≡ answer tenant id (sources target) (entry_values target now) (t.find id db))
          × (t.find j (enter t tenant id target now db).1
              ≡ updated (own tenant id j) (step (entered target now)) (t.find j db))
    enter_lem target j = (enter-answer target, find-enter target j)

    -- `retry` puts a failed job of the tenant back to the queue: it answers with the job as `requeued`
    -- says, with the state of a job that is not failed, and with the same refusal for a job of another
    -- tenant as for none. The table has the requeued job, and every other job as it was.
    pub retry_lem :
        (j : Text)
        → ((retry t tenant id now db).0 ≡ retried_answer tenant id now (t.find id db))
          × (t.find j (retry t tenant id now db).1 ≡ elim (t.find j db) [
            | none ↦ none
            | some r ↦
                if text_eq id j && (text_eq r.tenant_id tenant && is_status r.status failed)
                then some (requeued now r)
                else some r
          ])
    unfolding retry retry_values retried_answer answer any
    retry_lem j = (
      guarded_update-answer tenant id (failed ∷ []) (retry_values now) (λ r. refl) db
          ∙ answered (t.find id db),
      ground
          (arith, find-guarded_update tenant id (failed ∷ []) (retry_values now) (λ r. refl) db j),
    )
      where
        answered :
            (o : Option JobRow)
            → answer tenant id (failed ∷ []) (retry_values now) o ≡ retried_answer tenant id now o
        answered none = refl
        answered (some r) = ground arith
