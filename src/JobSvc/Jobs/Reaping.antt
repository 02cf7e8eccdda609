-- ===== src/JobSvc/Jobs/Reaping.antt =====
-- services/job_svc/src/job_svc/services/jobs.py: `reap_expired` and `renew_lease`.
use agent_exec_platform.Common.{
  ltb, if◌then◌else◌, ◌<◌, ◌↔◌, ℕ, ◌+◌, ◌≤◌, ◌≡◌, refl, true, none, some, Text, text_eq_refl, arith,
  Option-cases, inl, inr,
}
use agent_exec_platform.Database.Table.{Table, by_key, changed, updated}
use agent_exec_platform.JobSvc.Models.{dead, failed, queued, running, JobRow, job_id}
use agent_exec_platform.JobSvc.Jobs.Values.{fail_values, renew_values, is_running, is_stranded}
use agent_exec_platform.JobSvc.Jobs.Conditions.{is_stranded_iff}
use agent_exec_platform.JobSvc.Jobs.Events.{reaped, step}
use agent_exec_platform.JobSvc.Jobs.Service.{reap_expired, renew_lease}

module _ (t : Table JobRow job_id) where
  open t use {Db}

  module _ (lease now : ℕ) (db : Db) (j : Text) where
    reap_expired-returned :
        by_key job_id j (reap_expired t lease now db).0
        ≡ changed (is_stranded lease now) (fail_values now) (t.find j db)
    unfolding reap_expired
    reap_expired-returned =
        t.update_where_result (is_stranded lease now) (fail_values now) db j (λ r. refl)

    pub find-reap_expired :
        t.find j (reap_expired t lease now db).1
        ≡ updated (λ r. true) (step (reaped lease now)) (t.find j db)
    unfolding reap_expired step
    find-reap_expired =
        ground
          (arith, t.find-update_where (is_stranded lease now) (fail_values now) db j (λ r. refl))

    returned_then :
        (r' : JobRow)
        → by_key job_id j (reap_expired t lease now db).0 ≡ some r'
        → (r : JobRow) × (s : ℕ) × (t.find j db ≡ some r)
          × (r.status ≡ running)
          × (r.locked_at ≡ some s)
          × (s + lease < now)
          × (r' ≡ fail_values now r)
    returned_then r' h = elim (Option-cases (t.find j db)) [
      | inl gone ↦ absurd (ground (arith, reap_expired-returned))
      | inr (r, found) ↦
          let lost : is_stranded lease now r ≡ true =
            ground (arith, reap_expired-returned, found, h) in
          let (s, live, held, late) = (is_stranded_iff lease now r).0 lost in
          (r, s, found, live, held, late, ground (arith, reap_expired-returned, found, h, lost))
    ]

    returned_if :
        (r' : JobRow)
        → ((r : JobRow) × (s : ℕ) × (t.find j db ≡ some r)
            × (r.status ≡ running)
            × (r.locked_at ≡ some s)
            × (s + lease < now)
            × (r' ≡ fail_values now r))
        → by_key job_id j (reap_expired t lease now db).0 ≡ some r'
    returned_if r' (r, s, found, live, held, late, new) =
        let lost = (is_stranded_iff lease now r).1 (s, live, held, late) in
        ground (arith, reap_expired-returned, found, lost, new)

    -- The reaper returns exactly the running jobs whose lease started longer ago than its length. Each
    -- comes back without a lease: queued if attempts are left, else failed if retries are left, else
    -- dead. The table then holds the returned rows, and every other job as it was.
    pub reap_expired_lem :
        ((r' : JobRow)
          → (by_key job_id j (reap_expired t lease now db).0 ≡ some r') ↔ (
              (r : JobRow) × (s : ℕ) × (t.find j db ≡ some r)
              × (r.status ≡ running)
              × (r.locked_at ≡ some s)
              × (s + lease < now)
              × (r' ≡ record r {
                status =
                    if ltb r.attempts r.max_attempts
                    then queued
                    else if ltb r.retry_count r.max_retries
                    then failed
                    else dead;
                locked_at = none;
                locked_by = none;
                updated_at = now;
              })))
        × (t.find j (reap_expired t lease now db).1
            ≡ elim (by_key job_id j (reap_expired t lease now db).0) [
              | some r' ↦ some r'
              | none ↦ t.find j db
            ])
    unfolding fail_values step
    reap_expired_lem = (
      λ r'. (returned_then r', returned_if r'),
      ground (arith, reap_expired-returned, find-reap_expired),
    )

  -- A heartbeat keeps a running job out of the reaper's reach for the length of a lease.
  pub renewed-survives :
      (lease beat now : ℕ) (db : Db) (j : Text) (r : JobRow)
      → t.find j db ≡ some r
      → is_running r ≡ true
      → now ≤ beat + lease
      → let db' = (renew_lease t j beat db).1 in
        t.find j (reap_expired t lease now db').1 ≡ some (renew_values beat r)
  unfolding renew_lease step
  renewed-survives lease beat now db j r found live soon =
      let db' = (renew_lease t j beat db).1 in
      let beaten : t.find j db' ≡ some (renew_values beat r) = ground (
        arith,
        t.find-update_one j is_running (renew_values beat) db j (λ q. refl),
        text_eq_refl j,
      ) in
      ground (arith, beaten, find-reap_expired lease now db' j)
