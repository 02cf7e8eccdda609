-- ===== src/Aes/Tasks.antt =====
-- services/agent_execution_service/src/agent_execution_service/services/tasks.py: the methods of
-- `TaskService` over the tasks table and a gateway to job_svc. The fetches that `asyncio.gather`
-- starts together are made one after the other, in the order of the rows.
use agent_exec_platform.Common.{
  ℕ, Bool, true, false, not, ◌&&◌, Option, none, some, List, [], ◌∷◌, Text, text_eq, filter,
  if◌then◌else◌,
}
use agent_exec_platform.Common.Outcome.{Outcome, ok, raise}
use agent_exec_platform.Database.Table.{Table}
use agent_exec_platform.JobSvc.Jobs.Values.{in_filter}
use agent_exec_platform.Aes.Models.{
  TaskStatus, pending, running, waiting_approval, completed, failed, AppError, not_found, app_error,
  TaskRow, task_id, JobRef, JobProgressRef, JobGateway,
}
use agent_exec_platform.Aes.Progress.{task_status, is_terminal, TaskProgressView, Floats, view_of}

-- status == row.status
unfoldable pub same_status : TaskStatus → TaskStatus → Bool
same_status pending pending = true
same_status running running = true
same_status waiting_approval waiting_approval = true
same_status completed completed = true
same_status failed failed = true
same_status _ _ = false

-- The row that `create` adds.
unfoldable pub new_task : Text → ℕ → Text → Text → JobRef → TaskRow
unfolding task_status
new_task id now tenant input ref = record {
  id = id;
  tenant_id = tenant;
  input = input;
  job_id = ref.id;
  status = task_status ref.status;
  result = ref.result;
  created_at = now;
  updated_at = now;
}

-- The values of `_save_status` and of `_refresh`.
unfoldable pub snapshot_values : JobRef → ℕ → TaskRow → TaskRow
unfolding task_status
snapshot_values ref now r = record r {
  status = task_status ref.status;
  result = ref.result;
  updated_at = now;
}

-- The condition of `_load`.
unfoldable pub load_where : Text → List Text → TaskRow → Bool
unfolding in_filter
load_where tenant ids r = text_eq r.tenant_id tenant && in_filter ids r.id

abbrev pub owned_by : Text → TaskRow → Bool
owned_by tenant r = text_eq r.tenant_id tenant

-- row is None or row.tenant_id != tenant_id
unfoldable pub own_row : Text → Option TaskRow → Option TaskRow
own_row tenant none = none
own_row tenant (some r) = if owned_by tenant r then some r else none

-- What a fetch of `_refresh` gives for a row: a change, or none if nothing changed or it failed.
unfoldable pub change_of : TaskRow → Outcome AppError JobRef → Option (TaskRow × JobRef)
unfolding task_status same_status
change_of row (raise e) = none
change_of row (ok ref) =
    if same_status (task_status ref.status) row.status && text_eq ref.result row.result
    then none
    else some (row, ref)

abbrev pub cons_change :
    Option (TaskRow × JobRef) → List (TaskRow × JobRef) → List (TaskRow × JobRef)
cons_change none changes = changes
cons_change (some c) changes = c ∷ changes

module _ (t : Table TaskRow task_id) (jobs : JobGateway) where
  open t use {Db}
  open jobs use {State}

  -- The result of a method, the table, and the state of job_svc.
  abbrev pub Result : Type 0 → Type 0
  Result A = Outcome AppError A × Db × State

  abbrev pub add_task : TaskRow → Db → State → Option Db → Result TaskRow
  add_task row db s (some db') = (ok row, db', s)
  add_task row db s none = (raise app_error, db, s)

  abbrev pub submitted :
      Text → ℕ → Text → Text → Db → Outcome AppError JobRef × State → Result TaskRow
  submitted id now tenant input db (raise e, s) = (raise e, db, s)
  submitted id now tenant input db (ok ref, s) =
      let row = new_task id now tenant input ref in add_task row db s (t.insert row db)

  -- create; the job is submitted first
  unfoldable pub create : Text → ℕ → Text → Text → Db → State → Result TaskRow
  unfolding new_task
  create id now tenant input db s =
      submitted id now tenant input db (jobs.create_job tenant input s)

  -- _load
  unfoldable pub load : Text → List Text → Db → List TaskRow
  unfolding load_where
  load tenant ids db = t.select (load_where tenant ids) db

  -- _save_status
  unfoldable pub save_status : Text → Text → ℕ → JobRef → Db → Outcome AppError TaskRow × Db
  unfolding snapshot_values
  save_status tenant id now ref db =
      let (row, db') = t.update_one id (owned_by tenant) (snapshot_values ref now) db in
      elim row [ some r ↦ (ok r, db') | none ↦ (raise (not_found id), db) ]

  abbrev pub forwarded : Text → Text → ℕ → Db → Outcome AppError JobRef × State → Result TaskRow
  forwarded tenant id now db (raise e, s) = (raise e, db, s)
  forwarded tenant id now db (ok ref, s) =
      let (r, db') = save_status tenant id now ref db in (r, db', s)

  -- `approve` and `retry`, given the call that they forward
  abbrev pub forward :
      (Text → Text → State → Outcome AppError JobRef × State)
      → Text
      → Text
      → ℕ
      → Db
      → State
      → Result TaskRow
  forward call tenant id now db s = elim (own_row tenant (t.find id db)) [
    | none ↦ (raise (not_found id), db, s)
    | some r ↦ forwarded tenant id now db (call tenant r.job_id s)
  ]

  -- approve
  unfoldable pub approve : Text → Text → ℕ → Db → State → Result TaskRow
  unfolding own_row save_status
  approve tenant id now db s = forward jobs.start_job tenant id now db s

  -- retry
  unfoldable pub retry : Text → Text → ℕ → Db → State → Result TaskRow
  unfolding own_row save_status
  retry tenant id now db s = forward jobs.retry_job tenant id now db s

  -- The fetches of `_refresh`, less those that gave no change.
  unfoldable pub fetch_changes : Text → List TaskRow → State → List (TaskRow × JobRef) × State
  unfolding change_of
  fetch_changes tenant [] s = ([], s)
  fetch_changes tenant (row ∷ rows) s =
      let (r, s') = jobs.get_job tenant row.job_id s in
      let (changes, s'') = fetch_changes tenant rows s' in
      (cons_change (change_of row r) changes, s'')

  -- The writes of `_refresh`.
  unfoldable pub write_changes : Text → ℕ → List (TaskRow × JobRef) → Db → Db
  unfolding snapshot_values
  write_changes tenant now [] db = db
  write_changes tenant now ((row, ref) ∷ changes) db =
      write_changes tenant now changes
        (t.update_one row.id (owned_by tenant) (snapshot_values ref now) db).1

  abbrev pub stale_rows : List TaskRow → List TaskRow
  stale_rows rows = filter (λ r. not (is_terminal r.status)) rows

  -- The part of `get` after the rows are loaded; it loads them again if a task changed.
  abbrev pub reload :
      Text
      → List Text
      → ℕ
      → List TaskRow
      → Db
      → List (TaskRow × JobRef) × State
      → List TaskRow × Db × State
  reload tenant ids now rows db ([], s) = (rows, db, s)
  reload tenant ids now rows db (c ∷ changes, s) =
      let db' = write_changes tenant now (c ∷ changes) db in (load tenant ids db', db', s)

  -- get, with _refresh
  unfoldable pub get : Text → List Text → ℕ → Db → State → List TaskRow × Db × State
  unfolding load fetch_changes write_changes is_terminal filter
  get tenant ids now db s =
      let rows = load tenant ids db in
      reload tenant ids now rows db (fetch_changes tenant (stale_rows rows) s)

  abbrev pub seen :
      (f : Floats)
      → TaskRow
      → Outcome AppError JobProgressRef × State
      → Outcome AppError (TaskProgressView f.Number) × State
  seen f r (raise e, s) = (raise e, s)
  seen f r (ok ref, s) = (ok (view_of f r.id r.updated_at ref), s)

  -- get_progress
  unfoldable pub get_progress :
      (f : Floats) → Text → Text → Db → State → Outcome AppError (TaskProgressView f.Number) × State
  unfolding own_row view_of
  get_progress f tenant id db s = elim (own_row tenant (t.find id db)) [
    | none ↦ (raise (not_found id), s)
    | some r ↦ seen f r (jobs.get_job_progress tenant r.job_id s)
  ]
