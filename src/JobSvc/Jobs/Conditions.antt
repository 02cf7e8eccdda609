-- ===== src/JobSvc/Jobs/Conditions.antt =====
-- services/job_svc/src/job_svc/services/jobs.py: the conditions of the statements in terms of the
-- fields of a row.
use agent_exec_platform.Common.{
  ℕ, ◌+◌, ◌<◌, ◌≡◌, ◌↔◌, refl, true, some, Option-cases, arith, inl, inr,
}
use agent_exec_platform.JobSvc.Models.{JobStatus, queued, running, is_status, JobRow}
use agent_exec_platform.JobSvc.Jobs.Values.{is_queued, is_stranded}

pub is_status-same : (s t : JobStatus) → is_status s t ≡ true → s ≡ t
unfolding is_status
is_status-same s t h = ground arith

pub is_queued_iff : (r : JobRow) → (is_queued r ≡ true) ↔ (r.status ≡ queued)
unfolding is_queued
is_queued_iff r = (is_status-same r.status queued, λ e. rw e refl)

-- A job is stranded when it runs and its lease started longer ago than its length.
pub is_stranded_iff :
    (lease now : ℕ) (r : JobRow)
    → (is_stranded lease now r ≡ true)
      ↔ ((s : ℕ) × (r.status ≡ running) × (r.locked_at ≡ some s) × (s + lease < now))
unfolding is_stranded
is_stranded_iff lease now r = (
  λ h. elim (Option-cases r.locked_at) [
    | inl free ↦ absurd (ground arith)
    | inr (s, held) ↦
        (s, is_status-same r.status running (ground arith), held, ground (arith, held))
  ],
  λ (s, live, held, late). rw (live, held) (ground (arith, late)),
)
