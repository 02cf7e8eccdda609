-- ===== src/Aes/Tenancy.antt =====
-- services/agent_execution_service/src/agent_execution_service/services/tasks.py: what the methods
-- do to the tasks of other tenants.
use agent_exec_platform.Common.{
  ℕ, false, some, List, [], ◌∷◌, Text, text_eq, ◌≡◌, refl, Option-cases, inl, inr, arith,
  text_eq_iff,
}
use agent_exec_platform.Common.Outcome.{Outcome, ok, raise}
use agent_exec_platform.Database.Table.{Table}
use agent_exec_platform.Aes.Models.{AppError, TaskRow, task_id, JobRef, JobGateway}
use agent_exec_platform.Aes.Tasks.{
  owned_by, own_row, new_task, snapshot_values, create, approve, retry, get, load, save_status,
  write_changes, fetch_changes, forward, forwarded, submitted, add_task, reload, stale_rows,
}

module _ (t : Table TaskRow task_id) (jobs : JobGateway) where
  open t use {Db}
  open jobs use {State}

  -- A request of one tenant, with what `new_id()` and `now()` give it.
  pub data Request : Type 0 where
    create_task : Text → ℕ → Text → Request
    get_tasks : List Text → ℕ → Request
    approve_task : Text → ℕ → Request
    retry_task : Text → ℕ → Request

  abbrev pub after : {A : Type 0} → A × Db × State → Db × State
  after (r, db, s) = (db, s)

  -- The table and the state of job_svc after a request.
  abbrev pub handle : Text → Request → Db × State → Db × State
  handle tenant (create_task id now input) (db, s) = after (create t jobs id now tenant input db s)
  handle tenant (get_tasks ids now) (db, s) = after (get t jobs tenant ids now db s)
  handle tenant (approve_task id now) (db, s) = after (approve t jobs tenant id now db s)
  handle tenant (retry_task id now) (db, s) = after (retry t jobs tenant id now db s)

  abbrev pub handle_all : Text → List Request → Db × State → Db × State
  handle_all tenant [] w = w
  handle_all tenant (q ∷ qs) w = handle_all tenant qs (handle tenant q w)

  -- The write of a snapshot leaves the rows of other tenants.
  snapshot-foreign :
      (tenant id : Text) (ref : JobRef) (now : ℕ) (db : Db) (j : Text) (r : TaskRow)
      → t.find j db ≡ some r
      → owned_by tenant r ≡ false
      → t.find j (t.update_one id (owned_by tenant) (snapshot_values ref now) db).1 ≡ some r
  unfolding snapshot_values
  snapshot-foreign tenant id ref now db j r h o =
      ground
        (arith, t.find-update_one id (owned_by tenant) (snapshot_values ref now) db j (λ s. refl))

  save_status-foreign :
      (tenant id : Text) (now : ℕ) (ref : JobRef) (db : Db) (j : Text) (r : TaskRow)
      → t.find j db ≡ some r
      → owned_by tenant r ≡ false
      → t.find j (save_status t jobs tenant id now ref db).1 ≡ some r
  unfolding save_status
  save_status-foreign tenant id now ref db j r h o = ground (
    arith,
    snapshot-foreign tenant id ref now db j r h o,
    Option-cases (t.update_one id (owned_by tenant) (snapshot_values ref now) db).0,
  )

  write_changes-foreign :
      (tenant : Text) (now : ℕ) (cs : List (TaskRow × JobRef)) (db : Db) (j : Text) (r : TaskRow)
      → t.find j db ≡ some r
      → owned_by tenant r ≡ false
      → t.find j (write_changes t jobs tenant now cs db) ≡ some r
  unfolding write_changes
  write_changes-foreign tenant now [] db j r h o = h
  write_changes-foreign tenant now ((row, ref) ∷ cs) db j r h o =
      write_changes-foreign tenant now cs
        (t.update_one row.id (owned_by tenant) (snapshot_values ref now) db).1 j r
        (snapshot-foreign tenant row.id ref now db j r h o) o

  forwarded-foreign :
      (tenant id : Text) (now : ℕ) (db : Db) (a : Outcome AppError JobRef × State) (j : Text)
      (r : TaskRow)
      → t.find j db ≡ some r
      → owned_by tenant r ≡ false
      → t.find j (forwarded t jobs tenant id now db a).1 ≡ some r
  forwarded-foreign tenant id now db (raise e, s) j r h o = h
  forwarded-foreign tenant id now db (ok ref, s) j r h o =
      save_status-foreign tenant id now ref db j r h o

  forward-foreign :
      (call : Text → Text → State → Outcome AppError JobRef × State) (tenant id : Text) (now : ℕ)
      (db : Db) (s : State) (j : Text) (r : TaskRow)
      → t.find j db ≡ some r
      → owned_by tenant r ≡ false
      → t.find j (forward t jobs call tenant id now db s).1 ≡ some r
  forward-foreign call tenant id now db s j r h o =
      elim (Option-cases (own_row tenant (t.find id db))) [
        | inl e ↦ rw (e, forward) h
        | inr (q, e) ↦
            rw (e, forward) (forwarded-foreign tenant id now db (call tenant q.job_id s) j r h o)
      ]

  add_task-foreign :
      (row : TaskRow) (db : Db) (s : State) (j : Text) (r : TaskRow)
      → t.find j db ≡ some r
      → t.find j (add_task t jobs row db s (t.insert row db)).1 ≡ some r
  add_task-foreign row db s j r h = elim (Option-cases (t.insert row db)) [
    | inl e ↦ rw e h
    | inr (db', e) ↦ rw e (
        ground (arith, t.find-insert row db db' j e, text_eq_iff row.id j, t.insert_clash row r db))
  ]

  submitted-foreign :
      (id : Text) (now : ℕ) (tenant input : Text) (db : Db) (a : Outcome AppError JobRef × State)
      (j : Text) (r : TaskRow)
      → t.find j db ≡ some r
      → t.find j (submitted t jobs id now tenant input db a).1 ≡ some r
  submitted-foreign id now tenant input db (raise e, s) j r h = h
  submitted-foreign id now tenant input db (ok ref, s) j r h =
      add_task-foreign (new_task id now tenant input ref) db s j r h

  reload-foreign :
      (tenant : Text) (ids : List Text) (now : ℕ) (rows : List TaskRow) (db : Db)
      (c : List (TaskRow × JobRef) × State) (j : Text) (r : TaskRow)
      → t.find j db ≡ some r
      → owned_by tenant r ≡ false
      → t.find j (reload t jobs tenant ids now rows db c).1 ≡ some r
  reload-foreign tenant ids now rows db ([], s) j r h o = h
  reload-foreign tenant ids now rows db (c ∷ cs, s) j r h o =
      write_changes-foreign tenant now (c ∷ cs) db j r h o

  handle-foreign :
      (tenant : Text) (q : Request) (db : Db) (s : State) (j : Text) (r : TaskRow)
      → t.find j db ≡ some r
      → owned_by tenant r ≡ false
      → t.find j (handle tenant q (db, s)).0 ≡ some r
  unfolding create get approve retry
  handle-foreign tenant (create_task id now input) db s j r h o =
      submitted-foreign id now tenant input db (jobs.create_job tenant input s) j r h
  handle-foreign tenant (get_tasks ids now) db s j r h o =
      reload-foreign tenant ids now (load t jobs tenant ids db) db
        (fetch_changes t jobs tenant (stale_rows t jobs (load t jobs tenant ids db)) s) j r h o
  handle-foreign tenant (approve_task id now) db s j r h o =
      forward-foreign jobs.start_job tenant id now db s j r h o
  handle-foreign tenant (retry_task id now) db s j r h o =
      forward-foreign jobs.retry_job tenant id now db s j r h o

  -- Whatever a tenant asks of the task service, in whatever order and whatever job_svc answers, the
  -- rows of every other tenant stay as they are.
  pub handle_all-foreign :
      (tenant : Text) (qs : List Request) (w : Db × State) (j : Text) (r : TaskRow)
      → t.find j w.0 ≡ some r
      → text_eq r.tenant_id tenant ≡ false
      → t.find j (handle_all tenant qs w).0 ≡ some r
  handle_all-foreign tenant [] w j r h o = h
  handle_all-foreign tenant (q ∷ qs) (db, s) j r h o =
      handle_all-foreign tenant qs (handle tenant q (db, s)) j r
        (handle-foreign tenant q db s j r h o) o
