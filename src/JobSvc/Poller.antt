-- ===== src/JobSvc/Poller.antt =====
-- services/job_svc/src/job_svc/poller.py: one tick of the poller. The runner is a parameter: what a
-- run of a claimed job makes of the state, whether it raises or not.
use agent_exec_platform.Common.{ℕ, Bool, Option, none, some, List, [], ◌∷◌, Text, length}
use agent_exec_platform.Database.Table.{Table}
use agent_exec_platform.JobSvc.Models.{JobRow, job_id}
use agent_exec_platform.JobSvc.Jobs.Service.{list_queued, reap_expired, claim_batch}

-- JobPoller.__init__, without the runner
pub record Poller : Type 0 where
  pub batch : ℕ
  pub lease_seconds : ℕ
  pub owner : Text

-- The runs of the claimed rows, one after the other: each starts from the state that the one before
-- it leaves.
pub data Runs {Db : Type 0} (runner : JobRow → Db → Db) : List JobRow → Db → Db → Type 0 where
  nothing : {db : Db} → Runs runner [] db db
  next :
      {row : JobRow}
      → {rows : List JobRow} → {db db' : Db} → Runs runner rows (runner row db) db'
      → Runs runner (row ∷ rows) db db'

module _ (t : Table JobRow job_id) where
  open t use {Db}

  -- The loop over the claimed rows: what a run raises is logged, and the loop goes on.
  unfoldable pub dispatch_all : (JobRow → Db → Db) → List JobRow → Db → Db
  dispatch_all runner [] db = db
  dispatch_all runner (row ∷ rows) db = dispatch_all runner rows (runner row db)

  -- The branch of `tick` with a runner. The two statements have their own times, and `locked` says
  -- which rows other transactions hold when the claim runs.
  unfoldable pub run_tick : (JobRow → Db → Db) → (Text → Bool) → Poller → ℕ → ℕ → Db → ℕ × Db
  unfolding reap_expired claim_batch dispatch_all
  run_tick runner locked p reap_time claim_time db =
      let (reaped, db1) = reap_expired t p.lease_seconds reap_time db in
      let (claimed, db2) = claim_batch t locked p.batch p.owner claim_time db1 in
      (length claimed, dispatch_all runner claimed db2)

  -- tick; without a runner it only looks at the queue
  unfoldable pub tick : Option (JobRow → Db → Db) → (Text → Bool) → Poller → ℕ → ℕ → Db → ℕ × Db
  unfolding run_tick list_queued
  tick none locked p reap_time claim_time db = (0, db)
  tick (some runner) locked p reap_time claim_time db =
      run_tick runner locked p reap_time claim_time db
