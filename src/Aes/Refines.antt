-- ===== src/Aes/Refines.antt =====
-- services/agent_execution_service/src/agent_execution_service/job_client.py and services/job_svc: the
-- gateway of the task service is the job service itself, seen through its errors and references.
use agent_exec_platform.Common.{
  ℕ, suc, true, false, Option, none, some, List, [], ◌∷◌, Text, codes, is_blank, is_truthy, strip,
  any, ◌≡◌, refl, ap, ◌∙◌, arith, text_eq,
}
use agent_exec_platform.Common.Outcome.{Outcome, ok, raise}
use agent_exec_platform.Common.Grpc.{StatusCode}
use agent_exec_platform.Database.Table.{Table}
use agent_exec_platform.JobSvc.Models.{
  JobStatus, JobRow, job_id, Error, state, invalid, authentication, conflict, status_name,
}
use agent_exec_platform.JobSvc.Jobs.Service.{Settings, create, get, update, retry}
use agent_exec_platform.JobSvc.Mappers.{Job, job_to_proto, jobs_to_proto}
use agent_exec_platform.JobSvc.Servicer.{
  create_job, get_job, validate_type, validate_spec, validate_max_attempts, validate_max_retries,
  validate_filter_ids, validate_filter_enums, update_job, retry_job, status_code, tenant_of,
  validate_job_id, validate_status, respond_with, coded,
}
use agent_exec_platform.Aes.Models.{AppError, app_error, JobRef}
use agent_exec_platform.Aes.JobClient.{
  error_by_code, to_ref, answered, first_job, call, timed, seen, start_job_ref, retry_job_ref,
  create_job_ref, get_job_ref, submitted_spec,
}

-- The error of the task service for an error of job_svc.
unfoldable pub error_of : Text → Error → AppError
error_of id (Error.not_found other) = AppError.not_found id
error_of id (state other found) = AppError.state
error_of id (invalid message) = AppError.validation
error_of id (conflict message) = AppError.conflict
error_of id _ = app_error

-- What the task service makes of a job's message, or of the error in building it.
abbrev pub ref_of : Text → Outcome Error Job → Outcome AppError JobRef
ref_of id (ok j) = ok (to_ref j)
ref_of id (raise e) = raise (error_of id e)

-- What the task service sees of a method of job_svc.
abbrev pub view : Text → Outcome Error JobRow → Outcome AppError JobRef
view id (ok r) = ref_of id (job_to_proto r)
view id (raise e) = raise (error_of id e)

error_by_code-status_code :
    (id : Text) (e : Error) → error_by_code id (status_code e) ≡ error_of id e
unfolding error_by_code status_code error_of
error_by_code-status_code id (Error.not_found other) = refl
error_by_code-status_code id (state other found) = refl
error_by_code-status_code id (invalid message) = refl
error_by_code-status_code id (authentication) = refl
error_by_code-status_code id (conflict message) = refl
error_by_code-status_code id (Error.dependency message) = refl
error_by_code-status_code id (Error.runner_error message) = refl
error_by_code-status_code id (Error.integrity other) = refl
error_by_code-status_code id (Error.key_error k) = refl
error_by_code-status_code id (Error.approval_required) = refl
error_by_code-status_code id (Error.unknown_type type) = refl

-- The first of the jobs that a query of job_svc gives.
abbrev pub first_ref : Text → Outcome Error (List Job) → Outcome AppError JobRef
first_ref id (raise e) = raise (error_of id e)
first_ref id (ok []) = raise (AppError.not_found id)
first_ref id (ok (j ∷ js)) = ok (to_ref j)

abbrev pub first_view : Text → List JobRow → Outcome AppError JobRef
first_view id rows = first_ref id (jobs_to_proto rows)

module _ (t : Table JobRow job_id) (settings : Settings) (ids : ℕ → Text)
    (fails : ℕ → Option StatusCode) where
  open t use {Db}

  abbrev pub viewed : Text → ℕ → Outcome Error JobRow × Db → Outcome AppError JobRef × (Db × ℕ)
  viewed id n (r, db) = (view id r, (db, suc n))

  answered-coded : (id : Text) (o : Outcome Error Job) → answered id to_ref (coded o) ≡ ref_of id o
  answered-coded id (ok j) = refl
  answered-coded id (raise e) = ap raise (error_by_code-status_code id e)

  seen-answered :
      (id : Text) (n : ℕ) (x : Outcome Error JobRow × Db)
      → seen t settings ids fails
          (answered id to_ref)
          (timed t settings ids fails n (respond_with job_to_proto x))
        ≡ viewed id n x
  seen-answered id n (ok r, db) = ap (λ o. (o, (db, suc n))) (answered-coded id (job_to_proto r))
  seen-answered id n (raise e, db) =
      ap (λ q. (raise q, (db, suc n))) (error_by_code-status_code id e)

  call-none :
      {A : Type 0} (method : ℕ → Db → Outcome StatusCode A × Db) (db : Db) (n : ℕ)
      → fails n ≡ none
      → call t settings ids fails method (db, n) ≡ timed t settings ids fails n (method n db)
  unfolding call
  call-none method db n h = rw (h, call) refl

  start_job_ref-view :
      (c : ℕ) (tenant id : Text) (db : Db) (n : ℕ)
      → fails n ≡ none
      → is_blank id ≡ false
      → start_job_ref t settings ids fails (c ∷ tenant) id (db, n)
        ≡ viewed id n (update t (c ∷ tenant) id (codes "queued") n db)
  unfolding start_job_ref update_job tenant_of validate_job_id validate_status status_name
  start_job_ref-view c tenant id db n h blank =
      ap (seen t settings ids fails (answered id to_ref)) (
        call-none (λ n db. update_job t n (some (c ∷ tenant)) id (some JobStatus.queued) db) db n h)
      ∙ rw blank (seen-answered id n (update t (c ∷ tenant) id (codes "queued") n db))

  retry_job_ref-view :
      (c : ℕ) (tenant id : Text) (db : Db) (n : ℕ)
      → fails n ≡ none
      → is_blank id ≡ false
      → retry_job_ref t settings ids fails (c ∷ tenant) id (db, n)
        ≡ viewed id n (retry t (c ∷ tenant) id n db)
  unfolding retry_job_ref retry_job tenant_of validate_job_id
  retry_job_ref-view c tenant id db n h blank =
      ap (seen t settings ids fails (answered id to_ref))
        (call-none (λ n db. retry_job t n (some (c ∷ tenant)) id db) db n h)
      ∙ rw blank (seen-answered id n (retry t (c ∷ tenant) id n db))

  create_job_ref-view :
      (c : ℕ) (tenant input : Text) (db : Db) (n : ℕ)
      → fails n ≡ none
      → is_truthy (strip input) ≡ true
      → create_job_ref t settings ids fails (c ∷ tenant) input (db, n)
        ≡ viewed [] n (
            create t settings
              (ids n)
              n
              (c ∷ tenant)
              (codes "agent_execution")
              (submitted_spec input)
              none
              none
              db)
  unfolding create_job_ref create_job tenant_of validate_type validate_spec validate_max_attempts
      validate_max_retries submitted_spec text_eq strip is_truthy
  create_job_ref-view c tenant [] db n h blank = absurd (ground (arith, blank))
  create_job_ref-view c tenant (d ∷ input) db n h blank =
      ap (seen t settings ids fails (answered [] to_ref)) (
        call-none
          (λ n db.
            create_job t settings (ids n) n (some (c ∷ tenant)) (some (codes "agent_execution"))
              (submitted_spec (d ∷ input)) none none db)
          db n h)
      ∙ rw blank (
          seen-answered [] n (
            create t settings (ids n) n (c ∷ tenant) (codes "agent_execution")
              (submitted_spec (d ∷ input)) none none db))

  first_job-coded :
      (id : Text) (o : Outcome Error (List Job)) → first_job id to_ref (coded o) ≡ first_ref id o
  first_job-coded id (raise e) = ap raise (error_by_code-status_code id e)
  first_job-coded id (ok []) = refl
  first_job-coded id (ok (j ∷ js)) = refl

  get_job_ref-view :
      (c : ℕ) (tenant id : Text) (db : Db) (n : ℕ)
      → fails n ≡ none
      → is_blank id ≡ false
      → get_job_ref t settings ids fails (c ∷ tenant) id (db, n)
        ≡ (first_view id (get t (c ∷ tenant) (id ∷ []) [] [] db), (db, suc n))
  unfolding get_job_ref get_job tenant_of validate_filter_ids validate_filter_enums any
  get_job_ref-view c tenant id db n h blank =
      ap (seen t settings ids fails (first_job id to_ref))
        (call-none (λ n db. (get_job t (some (c ∷ tenant)) (id ∷ []) [] [] db, db)) db n h)
      ∙ rw blank (
          ap (λ o. (o, (db, suc n)))
            (first_job-coded id (jobs_to_proto (get t (c ∷ tenant) (id ∷ []) [] [] db))))

  -- A call of a tenant that the channel does not fail, for an id or an input that is not blank: the
  -- gateway creates, reads, starts and retries a job as the methods of job_svc's own service do on
  -- its table, and gives the job's reference, or the error of the task service that stands for the
  -- one that job_svc raised. Starting is the update to "queued".
  pub job_client-view :
      (c : ℕ) (tenant id input : Text) (db : Db) (n : ℕ)
      → fails n ≡ none
      → is_blank id ≡ false
      → is_truthy (strip input) ≡ true
      → (create_job_ref t settings ids fails (c ∷ tenant) input (db, n)
          ≡ viewed [] n (
              create t settings
                (ids n)
                n
                (c ∷ tenant)
                (codes "agent_execution")
                (submitted_spec input)
                none
                none
                db))
        × (get_job_ref t settings ids fails (c ∷ tenant) id (db, n)
            ≡ (first_view id (get t (c ∷ tenant) (id ∷ []) [] [] db), (db, suc n)))
        × (start_job_ref t settings ids fails (c ∷ tenant) id (db, n)
            ≡ viewed id n (update t (c ∷ tenant) id (codes "queued") n db))
        × (retry_job_ref t settings ids fails (c ∷ tenant) id (db, n)
            ≡ viewed id n (retry t (c ∷ tenant) id n db))
  job_client-view c tenant id input db n h blank given = (
    create_job_ref-view c tenant input db n h given,
    get_job_ref-view c tenant id db n h blank,
    start_job_ref-view c tenant id db n h blank,
    retry_job_ref-view c tenant id db n h blank,
  )
