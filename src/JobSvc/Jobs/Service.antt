-- ===== src/JobSvc/Jobs/Service.antt =====
-- services/job_svc/src/job_svc/services/jobs.py: the methods of `JobService` over the jobs table.
-- A method takes the time that `now()` gives it and, for `create`, the id that `new_id()` gives it.
-- A method that raises leaves the table as it was: its transaction is rolled back.
use agent_exec_platform.Common.{
  ℕ, Bool, true, false, Option, none, some, List, [], ◌∷◌, map, Text, text_eq, contains,
  if◌then◌else◌, ◌&&◌,
}
use agent_exec_platform.Common.Outcome.{Outcome, ok, raise}
use agent_exec_platform.Database.Table.{Table}
use agent_exec_platform.JobSvc.Models.{
  JobStatus, queued, running, failed, status_name, status_of_name, Error, not_found, state, invalid,
  integrity, JobSpec, JobRow, job_id, Progress, no_progress,
}
use agent_exec_platform.JobSvc.Jobs.Values.{
  allowed_entry, enter_values, start_values, fail_values, retry_values, claim_values, renew_values,
  progress_values, may_enter, is_queued, is_running, is_stranded, in_filter,
}

-- `x if x is not None else default`
abbrev pub or_default : Option ℕ → ℕ → ℕ
or_default none d = d
or_default (some n) d = n

-- The row that `create` adds, with the defaults of the columns.
unfoldable pub new_row : Text → ℕ → Text → Text → JobSpec → ℕ → ℕ → JobRow
new_row id now tenant type spec max_attempts max_retries = record {
  id = id;
  tenant_id = tenant;
  type = type;
  spec = spec;
  status = queued;
  attempts = 0;
  max_attempts = max_attempts;
  retry_count = 0;
  max_retries = max_retries;
  progress = no_progress;
  locked_at = none;
  locked_by = none;
  created_at = now;
  updated_at = now;
}

-- JobService.__init__
pub record Settings : Type 0 where
  pub default_max_attempts : ℕ
  pub default_max_retries : ℕ

-- The condition of `get`.
unfoldable pub get_where : Text → List Text → List JobStatus → List Text → JobRow → Bool
unfolding in_filter
get_where tenant ids statuses types r =
    text_eq r.tenant_id tenant
    && (in_filter ids r.id
        && (in_filter (map status_name statuses) (status_name r.status) && in_filter types r.type))

module _ (t : Table JobRow job_id) where
  open t use {Db}

  -- The error that `_guarded_update` raises when no row was updated.
  unfoldable pub refusal : Text → Text → Option JobRow → Error
  refusal tenant id none = not_found id
  refusal tenant id (some r) =
      if text_eq r.tenant_id tenant then state id r.status else not_found id

  abbrev pub settle : Text → Text → Db → Option JobRow → Db → Outcome Error JobRow × Db
  settle tenant id db (some r) db' = (ok r, db')
  settle tenant id db none db' = (raise (refusal tenant id (t.find id db')), db)

  -- _guarded_update
  unfoldable pub guarded_update :
      Text → Text → List JobStatus → (JobRow → JobRow) → Db → Outcome Error JobRow × Db
  unfolding may_enter refusal
  guarded_update tenant id allowed values db =
      let (row, db') = t.update_one id (may_enter tenant allowed) values db in
      settle tenant id db row db'

  -- create
  unfoldable pub create :
      Settings
      → Text
      → ℕ
      → Text
      → Text
      → JobSpec
      → Option ℕ
      → Option ℕ
      → Db
      → Outcome Error JobRow × Db
  unfolding new_row
  create c id now tenant type spec max_attempts max_retries db =
      let row =
        new_row id now tenant type spec (or_default max_attempts c.default_max_attempts)
          (or_default max_retries c.default_max_retries) in
      elim (t.insert row db) [ some db' ↦ (ok row, db') | none ↦ (raise (integrity id), db) ]

  -- get
  unfoldable pub get : Text → List Text → List JobStatus → List Text → Db → List JobRow
  unfolding get_where
  get tenant ids statuses types db = t.select (get_where tenant ids statuses types) db

  -- _start
  unfoldable pub start : Text → Text → ℕ → Db → Outcome Error JobRow × Db
  unfolding guarded_update start_values
  start tenant id now db = guarded_update tenant id (queued ∷ []) (start_values now) db

  -- _fail
  unfoldable pub fail : Text → Text → ℕ → Db → Outcome Error JobRow × Db
  unfolding guarded_update fail_values
  fail tenant id now db = guarded_update tenant id (running ∷ []) (fail_values now) db

  -- update, once the target status is known
  unfoldable pub enter : Text → Text → JobStatus → ℕ → Db → Outcome Error JobRow × Db
  unfolding start fail guarded_update allowed_entry enter_values
  enter tenant id running now db = start tenant id now db
  enter tenant id failed now db = fail tenant id now db
  enter tenant id target now db = elim (allowed_entry target) [
    | none ↦ (raise (invalid (status_name target)), db)
    | some allowed ↦ guarded_update tenant id allowed (enter_values target now) db
  ]

  -- update
  unfoldable pub update : Text → Text → Text → ℕ → Db → Outcome Error JobRow × Db
  unfolding enter status_of_name
  update tenant id status now db = elim (status_of_name status) [
    | none ↦ (raise (invalid status), db)
    | some target ↦ enter tenant id target now db
  ]

  -- retry
  unfoldable pub retry : Text → Text → ℕ → Db → Outcome Error JobRow × Db
  unfolding guarded_update retry_values
  retry tenant id now db = guarded_update tenant id (failed ∷ []) (retry_values now) db

  -- list_queued; a plain SELECT waits for no lock, so no row is passed over
  unfoldable pub list_queued : ℕ → Db → List JobRow
  unfolding is_queued
  list_queued limit db = t.select_oldest (λ k. false) is_queued (λ r. r.created_at) limit db

  -- claim_batch; `locked` says which rows other transactions hold
  unfoldable pub claim_batch : (Text → Bool) → ℕ → Text → ℕ → Db → List JobRow × Db
  unfolding is_queued claim_values contains
  claim_batch locked limit owner now db =
      let candidates = map job_id (t.select_oldest locked is_queued (λ r. r.created_at) limit db) in
      t.update_where (λ r. contains candidates r.id) (claim_values owner now) db

  -- reap_expired
  unfoldable pub reap_expired : ℕ → ℕ → Db → List JobRow × Db
  unfolding is_stranded fail_values
  reap_expired lease now db = t.update_where (is_stranded lease now) (fail_values now) db

  -- renew_lease
  unfoldable pub renew_lease : Text → ℕ → Db → Bool × Db
  unfolding is_running renew_values
  renew_lease id now db =
      let (row, db') = t.update_one id is_running (renew_values now) db in
      (elim row [ none ↦ false | some r ↦ true ], db')

  -- save_progress
  unfoldable pub save_progress : Text → Progress → ℕ → Db → Outcome Error (Unit {0}) × Db
  unfolding progress_values
  save_progress id p now db =
      let (row, db') = t.update_one id (λ r. true) (progress_values p now) db in
      elim row [ none ↦ (raise (not_found id), db) | some r ↦ (ok tt, db') ]
