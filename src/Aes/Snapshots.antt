-- ===== src/Aes/Snapshots.antt =====
-- services/agent_execution_service/src/agent_execution_service/services/tasks.py: how the snapshots
-- of the tasks follow the jobs when they are read.
use agent_exec_platform.Common.{
  All, ℕ, true, Option, none, some, List, [], ◌∷◌, Text, filter, ◌≡◌, refl, arith,
}
use agent_exec_platform.Common.Outcome.{Outcome}
use agent_exec_platform.Database.Table.{Table}
use agent_exec_platform.Aes.Models.{TaskRow, task_id, JobRef, JobGateway}
use agent_exec_platform.Aes.Progress.{task_status, is_terminal}
use agent_exec_platform.Aes.Tasks.{
  owned_by, snapshot_values, get, load, write_changes, fetch_changes, stale_rows,
}

-- A row follows its job if it shows the status and the result that the job has.
abbrev pub Follows : JobRef → Option TaskRow → Type 0
Follows ref o =
    (r : TaskRow) × (o ≡ some r) × (r.status ≡ task_status ref.status) × (r.result ≡ ref.result)

-- The states of job_svc that reads of the tenant's jobs lead to.
pub data Reads (jobs : JobGateway) (tenant : Text) : jobs.State → jobs.State → Type 0 where
  here : {s : jobs.State} → Reads jobs tenant s s
  after :
      {s s' : jobs.State} (job : Text)
      → Reads jobs tenant (jobs.get_job tenant job s).1 s'
      → Reads jobs tenant s s'

module _ (t : Table TaskRow task_id) (jobs : JobGateway) (tenant : Text) (now : ℕ) where
  open t use {Db}
  open jobs use {State}

  abbrev write : List TaskRow → State → Db → Db
  write rows s db = write_changes t jobs tenant now (fetch_changes t jobs tenant rows s).0 db

  -- One fetch and its write.
  abbrev write_one : TaskRow → Option (TaskRow × JobRef) → Db → Db
  write_one row none db = db
  write_one row (some (q, ref)) db =
      (t.update_one q.id (owned_by tenant) (snapshot_values ref now) db).1

  stale_rows-terminal :
      (rows : List TaskRow)
      → All (λ r. is_terminal r.status ≡ true) rows
      → stale_rows t jobs rows ≡ []
  unfolding filter
  stale_rows-terminal [] a = refl
  stale_rows-terminal (r ∷ rows) a = ground (arith, stale_rows-terminal rows)

  -- A read that selects terminal tasks alone asks job_svc nothing and writes nothing.
  pub get-terminal :
      (ids : List Text) (db : Db) (s : State)
      → All (λ r. is_terminal r.status ≡ true) (load t jobs tenant ids db)
      → get t jobs tenant ids now db s ≡ (load t jobs tenant ids db, db, s)
  unfolding get
  get-terminal ids db s a = rw (stale_rows-terminal (load t jobs tenant ids db) a) refl
