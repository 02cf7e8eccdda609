-- ===== src/JobSvc/Jobs/Budget.antt =====
-- The two-tier retry budget bounds how often a job is run.
use agent_exec_platform.Common.{
  ℕ, ◌+◌, ◌-◌, ◌*◌, ◌≤◌, ◌<◌, ◌≡◌, List, [], ◌∷◌, Text, leb, if◌then◌else◌, ◌&&◌, arith,
}
use agent_exec_platform.JobSvc.Models.{queued, running, is_status, JobSpec, JobRow}
use agent_exec_platform.JobSvc.Jobs.Events.{Event, entered, claimed, permitted, step}
use agent_exec_platform.JobSvc.Jobs.Service.{new_row}
use agent_exec_platform.JobSvc.Jobs.Invariant.{IsSound, step-IsSound, new_row-IsSound}

-- Whether the event starts a run: a claim, or `_start`.
unfoldable pub starts : Event → JobRow → ℕ
starts (claimed owner now) r = if permitted (claimed owner now) r then 1 else 0
starts (entered running now) r = if permitted (entered running now) r then 1 else 0
starts _ r = 0

-- Whether it is an `update` to `queued`: an approval, or a requeue by a caller.
unfoldable pub requeues : Event → JobRow → ℕ
requeues (entered queued now) r = if permitted (entered queued now) r then 1 else 0
requeues _ r = 0

-- The number of runs, and of such requeues, in a history.
unfoldable pub runs_of : List Event → JobRow → ℕ
unfolding starts
runs_of [] r = 0
runs_of (e ∷ es) r = starts e r + runs_of es (step e r)

unfoldable pub requeues_of : List Event → JobRow → ℕ
unfolding requeues
requeues_of [] r = 0
requeues_of (e ∷ es) r = requeues e r + requeues_of es (step e r)

-- The runs that the budgets still allow; a requeued job with no attempt left has one more.
credit : JobRow → ℕ
unfolding is_status
credit r =
    (r.max_retries - r.retry_count) * r.max_attempts
    + (r.max_attempts - r.attempts)
    + (if is_status r.status queued && leb r.max_attempts r.attempts then 1 else 0)

spend_retry : (m c a : ℕ) → c < m → (m - (c + 1)) * a + a ≡ (m - c) * a
spend_retry m c a h = let e : m - c ≡ m - (c + 1) + 1 = omega arith in rw e (omega arith)

credit-step :
    (e : Event) (r : JobRow)
    → IsSound r
    → 0 < r.max_attempts
    → starts e r + credit (step e r) ≤ credit r + requeues e r
unfolding starts requeues credit step permitted
credit-step e r s h = ground (arith, spend_retry r.max_retries r.retry_count r.max_attempts)

max_attempts-step : (e : Event) (r : JobRow) → (step e r).max_attempts ≡ r.max_attempts
unfolding step
max_attempts-step e r = ground arith

runs_of-le-credit :
    (es : List Event) (r : JobRow)
    → IsSound r
    → 0 < r.max_attempts
    → runs_of es r ≤ credit r + requeues_of es r
unfolding runs_of requeues_of
runs_of-le-credit [] r s h = omega arith
runs_of-le-credit (e ∷ es) r s h = omega (
  arith,
  credit-step e r s h,
  runs_of-le-credit es (step e r) (step-IsSound e r s) (omega (arith, max_attempts-step e r)),
)

-- In any history of a job with `max_attempts` above zero, it is run at most `max_attempts` times for
-- each of its `max_retries + 1` automatic cycles, and once more for each `update` that puts it back
-- to `queued`.
pub runs_bounded :
    (id : Text) (now : ℕ) (tenant type : Text) (spec : JobSpec) (max_attempts max_retries : ℕ)
    (es : List Event)
    → 0 < max_attempts
    → let r = new_row id now tenant type spec max_attempts max_retries in
      runs_of es r ≤ (max_retries + 1) * max_attempts + requeues_of es r
unfolding new_row credit
runs_bounded id now tenant type spec max_attempts max_retries es h =
    let r = new_row id now tenant type spec max_attempts max_retries in
    ground (
      arith,
      runs_of-le-credit es r (new_row-IsSound id now tenant type spec max_attempts max_retries) h,
    )
