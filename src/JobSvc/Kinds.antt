-- ===== src/JobSvc/Kinds.antt =====
-- services/job_svc: no RPC makes a job that is no agent execution, and each such job has a message.
use mathlib.Core.Path.{subst}
use agent_exec_platform.Common.{
  codes, text_eq, text_eq_iff, ℕ, Option, none, some, List, [], ◌∷◌, Text, ◌≡◌, refl, sym, ◌∙◌,
  Option-cases, inl, inr, arith,
}
use agent_exec_platform.Common.Outcome.{Outcome, ok, raise, ◌>>=◌, bind-ok}
use agent_exec_platform.Database.Table.{Table}
use agent_exec_platform.JobSvc.Models.{
  JobStatus, status_of_name, JobRow, JobSpec, Error, integrity, invalid, job_id, running, failed,
}
use agent_exec_platform.JobSvc.Jobs.Values.{enter_values, start_values, fail_values, retry_values}
use agent_exec_platform.JobSvc.Jobs.Events.{entered, step, entry_values}
use agent_exec_platform.JobSvc.Jobs.Guarded.{find-guarded_update, find-enter}
use agent_exec_platform.JobSvc.Jobs.Service.{
  Settings, new_row, or_default, guarded_update, create, enter, update, retry,
}
use agent_exec_platform.JobSvc.Mappers.{Job, job_to_proto}
use agent_exec_platform.JobSvc.Servicer.{
  tenant_of, validate_type, validate_spec, validate_max_attempts, validate_max_retries, ℤ, Order,
  checked_order,
}

entry_values-type : (s : JobStatus) (now : ℕ) (r : JobRow) → (entry_values s now r).type ≡ r.type
unfolding entry_values enter_values start_values fail_values
entry_values-type running now r = refl
entry_values-type failed now r = refl
entry_values-type _ now r = refl

step-type : (s : JobStatus) (now : ℕ) (r : JobRow) → (step (entered s now) r).type ≡ r.type
unfolding step
step-type s now r = ground (arith, entry_values-type s now r)

-- An agent execution has a message.
pub job_to_proto-typed :
    (r : JobRow) → r.type ≡ codes "agent_execution" → (j : Job) × (job_to_proto r ≡ ok j)
unfolding job_to_proto text_eq
job_to_proto-typed r e = rw e (_, refl)

validate_type-agent :
    (type : Option Text) (kind : Text)
    → validate_type type ≡ ok kind
    → kind ≡ codes "agent_execution"
unfolding validate_type
validate_type-agent none kind h = ground arith
validate_type-agent (some s) kind h = ground (arith, text_eq_iff s (codes "agent_execution"))

abbrev placed : Text → Text → Option ℕ → Option ℕ → Outcome Error Order
placed caller named m n = ok (caller, named, m, n)

-- Only an agent execution passes the validators.
pub checked_order-type :
    (header type : Option Text) (spec : JobSpec) (a b : Option ℤ) (order : Order)
    → checked_order header type spec a b ≡ ok order
    → order.1 ≡ codes "agent_execution"
checked_order-type header type spec a b order h =
    let (caller, from, h1) =
      bind-ok {B = Order} (tenant_of header)
        (λ tenant. validate_type type >>= (λ type. validate_spec spec >>= (λ u.
          validate_max_attempts a
          >>= (λ m. validate_max_retries b >>= (λ n. ok (tenant, type, m, n))))))
        order h in
    let (named, valid, h2) =
      bind-ok {B = Order} (validate_type type)
        (λ type. validate_spec spec >>= (λ u.
          validate_max_attempts a
          >>= (λ m. validate_max_retries b >>= (λ n. ok (caller, type, m, n)))))
        order h1 in
    let (u, fine, h3) =
      bind-ok {B = Order} (validate_spec spec)
        (λ u.
          validate_max_attempts a
          >>= (λ m. validate_max_retries b >>= (λ n. ok (caller, named, m, n))))
        order h2 in
    let (m, some_attempts, h4) =
      bind-ok {B = Order} (validate_max_attempts a)
        (λ m. validate_max_retries b >>= (λ n. ok (caller, named, m, n))) order h3 in
    let (n, some_retries, last) =
      bind-ok {B = Order} (validate_max_retries b) (λ n. ok (caller, named, m, n)) order h4 in
    kept order named caller m n last ∙ validate_type-agent type named valid
  where
    kept :
        (order : Order) (named caller : Text) (m n : Option ℕ)
        → placed caller named m n ≡ ok order
        → order.1 ≡ named
    kept order named caller m n e = cc

module _ (t : Table JobRow job_id) where
  open t use {Db}

  -- Every job of the table is an agent execution, the one type that an RPC creates.
  abbrev pub IsTyped : Db → Type 0
  IsTyped db = (j : Text) (r : JobRow) → t.find j db ≡ some r → r.type ≡ codes "agent_execution"

  guarded_update-IsTyped :
      (tenant id : Text) (allowed : List JobStatus) (values : JobRow → JobRow) (db : Db)
      → ((r : JobRow) → (values r).id ≡ r.id)
      → ((r : JobRow) → (values r).type ≡ r.type)
      → IsTyped db
      → IsTyped (guarded_update t tenant id allowed values db).1
  guarded_update-IsTyped tenant id allowed values db fixes same typed j r h =
      elim (Option-cases (t.find j db)) [
        | inl gone ↦
            absurd (ground (arith, find-guarded_update t tenant id allowed values fixes db j))
        | inr (q, found) ↦ ground (
          arith,
          find-guarded_update t tenant id allowed values fixes db j,
          typed j q found,
          same q,
        )
      ]

  pub create-IsTyped :
      (c : Settings) (id : Text) (now : ℕ) (tenant type : Text) (spec : JobSpec) (a b : Option ℕ)
      (db : Db)
      → type ≡ codes "agent_execution"
      → IsTyped db
      → IsTyped (create t c id now tenant type spec a b db).1
  unfolding create new_row
  create-IsTyped c id now tenant type spec a b db is_it typed =
      let row =
        new_row id now tenant type spec (or_default a c.default_max_attempts)
          (or_default b c.default_max_retries) in
      elim (Option-cases (t.insert row db)) [
        | inl e ↦ subst (added row) (sym e) typed
        | inr (db', e) ↦
            subst (added row) (sym e)
              (λ j r h. ground (arith, t.find-insert row db db' j e, typed j r))
      ]
    where
      added : JobRow → Option Db → Type 0
      added row o =
          IsTyped
            (elim o as (λ x. Outcome Error JobRow × Db) [
              | some db' ↦ (ok row, db')
              | none ↦ (raise (integrity id), db)
            ]).1

  enter-IsTyped :
      (tenant id : Text) (s : JobStatus) (now : ℕ) (db : Db)
      → IsTyped db
      → IsTyped (enter t tenant id s now db).1
  enter-IsTyped tenant id s now db typed j r h = elim (Option-cases (t.find j db)) [
    | inl gone ↦ absurd (ground (arith, find-enter t tenant id now db s j))
    | inr (q, found) ↦
        ground (arith, find-enter t tenant id now db s j, typed j q found, step-type s now q)
  ]

  pub update-IsTyped :
      (tenant id status : Text) (now : ℕ) (db : Db)
      → IsTyped db
      → IsTyped (update t tenant id status now db).1
  unfolding update
  update-IsTyped tenant id status now db typed = elim (Option-cases (status_of_name status)) [
    | inl e ↦ subst entered (sym e) typed
    | inr (s, e) ↦ subst entered (sym e) (enter-IsTyped tenant id s now db typed)
  ]
    where
      entered : Option JobStatus → Type 0
      entered o =
          IsTyped
            (elim o as (λ x. Outcome Error JobRow × Db) [
              | none ↦ (raise (invalid status), db)
              | some target ↦ enter t tenant id target now db
            ]).1

  pub retry-IsTyped :
      (tenant id : Text) (now : ℕ) (db : Db) → IsTyped db → IsTyped (retry t tenant id now db).1
  unfolding retry retry_values
  retry-IsTyped tenant id now db typed =
      guarded_update-IsTyped tenant id (failed ∷ []) (retry_values now) db (λ r. refl) (λ r. refl)
        typed
