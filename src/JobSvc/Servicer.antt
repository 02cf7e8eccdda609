-- ===== src/JobSvc/Servicer.antt =====
-- services/job_svc/src/job_svc/validators.py and servicer.py: the handlers of the four RPCs. The enum
-- of a request is `none` when it maps to no word.
use agent_exec_platform.Common.{
  text_eq, ℕ, Bool, true, false, not, Option, none, some, List, [], ◌∷◌, Text, codes, length, ltb,
  is_blank, is_truthy, strip, any, if◌then◌else◌,
}
use agent_exec_platform.Common.Outcome.{Outcome, ok, raise, ◌>>=◌}
use agent_exec_platform.Common.Grpc.{
  StatusCode, code_not_found, code_invalid_argument, code_unauthenticated, code_already_exists,
  code_failed_precondition, code_internal,
}
use agent_exec_platform.Database.Table.{Table}
use agent_exec_platform.JobSvc.Models.{
  JobStatus, status_name, Error, not_found, state, invalid, authentication, conflict, JobRow,
  JobSpec, AgentExecutionSpec, job_id,
}
use agent_exec_platform.JobSvc.Jobs.Service.{Settings, create, get, update, retry}
use agent_exec_platform.JobSvc.Mappers.{Job, job_to_proto, jobs_to_proto, or_blank}

-- _handle_errors with _STATUS_BY_ERROR; any other exception is an internal error.
unfoldable pub status_code : Error → StatusCode
status_code (not_found id) = code_not_found
status_code (invalid message) = code_invalid_argument
status_code authentication = code_unauthenticated
status_code (conflict message) = code_already_exists
status_code (state id found) = code_failed_precondition
status_code _ = code_internal

-- tenant_id_from_metadata, given the header
unfoldable pub tenant_of : Option Text → Outcome Error Text
tenant_of none = raise authentication
tenant_of (some []) = raise authentication
tenant_of (some (c ∷ s)) = ok (c ∷ s)

abbrev pub max_filter_ids : ℕ
max_filter_ids = 1000

abbrev pub require : Bool → Text → Outcome Error (Unit {0})
require true message = ok tt
require false message = raise (invalid message)

-- validate_job_id
unfoldable pub validate_job_id : Text → Outcome Error (Unit {0})
unfolding is_blank
validate_job_id id = require (not (is_blank id)) (codes "id must not be empty")

-- validate_filter_ids
unfoldable pub validate_filter_ids : List Text → Outcome Error (Unit {0})
unfolding is_blank any
validate_filter_ids ids =
    if ltb max_filter_ids (length ids)
    then raise (invalid (codes "filter may contain at most 1000 ids"))
    else require (not (any is_blank ids)) (codes "filter ids must not be empty")

abbrev instructions_of : Option AgentExecutionSpec → Option Text
instructions_of none = none
instructions_of (some s) = some (or_blank s.instructions)

abbrev check_instructions : Option Text → Outcome Error (Unit {0})
check_instructions none =
    raise (invalid (codes "spec.agent_execution_spec is required for this job type"))
check_instructions (some s) =
    require (is_truthy (strip s)) (codes "spec.agent_execution_spec.instructions must not be empty")

-- validate_spec, for the type "agent_execution"
unfoldable pub validate_spec : JobSpec → Outcome Error (Unit {0})
unfolding is_truthy strip
validate_spec spec = check_instructions (instructions_of spec.agent_execution_spec)

-- validate_type, given what TYPE_FROM_PROTO has for the enum
unfoldable pub validate_type : Option Text → Outcome Error Text
unfolding text_eq
validate_type none = raise (invalid (codes "type is required"))
validate_type (some type) =
    if text_eq type (codes "agent_execution")
    then ok type
    else raise (invalid (codes "type is required"))

-- validate_status, given what STATUS_FROM_PROTO has for the enum
unfoldable pub validate_status : Option JobStatus → Outcome Error Text
unfolding status_name
validate_status none = raise (invalid (codes "status is required"))
validate_status (some s) = ok (status_name s)

-- A number of a request; `negsuc n` is -(n + 1).
pub data ℤ : Type 0 where
  pos : ℕ → ℤ
  negsuc : ℕ → ℤ

-- validate_max_attempts, which gives the number that it lets pass
unfoldable pub validate_max_attempts : Option ℤ → Outcome Error (Option ℕ)
validate_max_attempts none = ok none
validate_max_attempts (some (pos n)) =
    if ltb n 1 then raise (invalid (codes "max_attempts must be >= 1")) else ok (some n)
validate_max_attempts (some (negsuc n)) = raise (invalid (codes "max_attempts must be >= 1"))

-- validate_max_retries, which gives the number that it lets pass
unfoldable pub validate_max_retries : Option ℤ → Outcome Error (Option ℕ)
validate_max_retries none = ok none
validate_max_retries (some (pos n)) = ok (some n)
validate_max_retries (some (negsuc n)) = raise (invalid (codes "max_retries must be >= 0"))

-- What a valid request to create a job has: the tenant, the type and the two budgets.
abbrev pub Order : Type 0
Order = Text × Text × Option ℕ × Option ℕ

-- The checks of `CreateJob`.
abbrev pub checked_order :
    Option Text → Option Text → JobSpec → Option ℤ → Option ℤ → Outcome Error Order
checked_order header type spec max_attempts max_retries = tenant_of header >>= (λ tenant.
    validate_type type >>= (λ type. validate_spec spec >>= (λ u.
      validate_max_attempts max_attempts >>= (λ attempts.
        validate_max_retries max_retries >>= (λ retries. ok (tenant, type, attempts, retries))))))

-- validate_filter_enums
unfoldable pub validate_filter_enums : {A : Type 0} → List (Option A) → Outcome Error (List A)
validate_filter_enums [] = ok []
validate_filter_enums (none ∷ vs) = raise (invalid (codes "invalid filter value"))
validate_filter_enums (some v ∷ vs) = validate_filter_enums vs >>= (λ rest. ok (v ∷ rest))

-- The outcome of an RPC: a response, or the code it is aborted with.
abbrev pub coded : {B : Type 0} → Outcome Error B → Outcome StatusCode B
coded (ok b) = ok b
coded (raise e) = raise (status_code e)

abbrev pub respond : {A B : Type 0} → (A → Outcome Error B) → Outcome Error A → Outcome StatusCode B
respond f (ok a) = coded (f a)
respond f (raise e) = raise (status_code e)

-- A response that cannot be built leaves the state of the commit before it.
abbrev pub respond_with :
    {A B S : Type 0} → (A → Outcome Error B) → Outcome Error A × S → Outcome StatusCode B × S
respond_with f (r, s) = (respond f r, s)

module _ (t : Table JobRow job_id) where
  open t use {Db}

  abbrev pub guarded :
      {A : Type 0}
      → Outcome Error A
      → (A → Db → Outcome StatusCode Job × Db)
      → Db
      → Outcome StatusCode Job × Db
  guarded (raise e) handler db = (raise (status_code e), db)
  guarded (ok a) handler db = handler a db

  -- CreateJob
  unfoldable pub create_job :
      Settings
      → Text
      → ℕ
      → Option Text
      → Option Text
      → JobSpec
      → Option ℤ
      → Option ℤ
      → Db
      → Outcome StatusCode Job × Db
  unfolding tenant_of validate_type validate_spec validate_max_attempts validate_max_retries create
      job_to_proto status_code
  create_job settings id now header type spec max_attempts max_retries db =
      guarded (checked_order header type spec max_attempts max_retries)
        (λ (tenant, type, attempts, retries) db.
          respond_with job_to_proto (create t settings id now tenant type spec attempts retries db))
        db

  -- GetJob
  unfoldable pub get_job :
      Option Text
      → List Text
      → List (Option JobStatus)
      → List (Option Text)
      → Db
      → Outcome StatusCode (List Job)
  unfolding tenant_of validate_filter_ids validate_filter_enums get jobs_to_proto status_code
  get_job header ids statuses types db = respond jobs_to_proto (
      tenant_of header >>= (λ tenant. validate_filter_ids ids >>= (λ u.
        validate_filter_enums statuses >>= (λ statuses.
          validate_filter_enums types >>= (λ types. ok (get t tenant ids statuses types db))))))

  -- UpdateJob
  unfoldable pub update_job :
      ℕ → Option Text → Text → Option JobStatus → Db → Outcome StatusCode Job × Db
  unfolding tenant_of validate_job_id validate_status update job_to_proto status_code
  update_job now header id status db =
      guarded
        (tenant_of header >>= (λ tenant.
          validate_job_id id >>= (λ u. validate_status status >>= (λ status. ok (tenant, status)))))
        (λ (tenant, status) db. respond_with job_to_proto (update t tenant id status now db)) db

  -- RetryJob
  unfoldable pub retry_job : ℕ → Option Text → Text → Db → Outcome StatusCode Job × Db
  unfolding tenant_of validate_job_id retry job_to_proto status_code
  retry_job now header id db =
      guarded (tenant_of header >>= (λ tenant. validate_job_id id >>= (λ u. ok tenant)))
        (λ tenant db. respond_with job_to_proto (retry t tenant id now db)) db
