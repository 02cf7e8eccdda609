-- ===== src/JobSvc/Answers.antt =====
-- services/job_svc/src/job_svc/servicer.py: an RPC that changes a job either answers with the job as
-- it is stored or leaves the table as it was.
use mathlib.Core.Path.{subst}
use agent_exec_platform.Common.{
  ℕ, Option, none, some, List, [], ◌∷◌, Text, ◌≡◌, refl, sym, ap, ◌∙◌, Option-cases, inl, inr,
  arith, text_eq_refl,
}
use agent_exec_platform.Common.Outcome.{Outcome, ok, raise, ◌>>=◌}
use agent_exec_platform.Database.Table.{Table, changed}
use agent_exec_platform.JobSvc.Models.{
  JobStatus, status_of_name, JobRow, JobSpec, Error, integrity, invalid, job_id, queued, running,
  succeeded, failed, dead, cancelled, waiting_approval,
}
use agent_exec_platform.JobSvc.Jobs.Values.{
  allowed_entry, enter_values, start_values, fail_values, retry_values, may_enter,
}
use agent_exec_platform.JobSvc.Jobs.Service.{
  Settings, new_row, or_default, settle, guarded_update, create, start, fail, enter, update, retry,
}
use agent_exec_platform.JobSvc.Mappers.{Job, job_to_proto}
use agent_exec_platform.Common.Grpc.{StatusCode}
use agent_exec_platform.JobSvc.Servicer.{
  create_job, update_job, retry_job, guarded, respond_with, tenant_of, validate_job_id,
  validate_status, coded, ℤ, checked_order,
}
use agent_exec_platform.JobSvc.Kinds.{
  IsTyped, create-IsTyped, update-IsTyped, retry-IsTyped, job_to_proto-typed, checked_order-type,
}

module _ (t : Table JobRow job_id) where
  open t use {Db}

  -- A method either returns the row as it is stored, or raises and changes nothing.
  abbrev IsSettled : Db → Outcome Error JobRow × Db → Type 0
  IsSettled db (ok r, db') = t.find r.id db' ≡ some r
  IsSettled db (raise e, db') = db' ≡ db

  -- So does an RPC.
  abbrev pub IsAnswered : Db → Outcome StatusCode Job × Db → Type 0
  IsAnswered db (ok job, db') =
      (r : JobRow) × (t.find r.id db' ≡ some r) × (job_to_proto r ≡ ok job) × IsTyped t db'
  IsAnswered db (raise code, db') = db' ≡ db

  guarded_update-IsSettled :
      (tenant id : Text) (allowed : List JobStatus) (values : JobRow → JobRow) (db : Db)
      → ((r : JobRow) → (values r).id ≡ r.id)
      → IsSettled db (guarded_update t tenant id allowed values db)
  unfolding guarded_update
  guarded_update-IsSettled tenant id allowed values db fixes =
      go (t.update_one id (may_enter tenant allowed) values db).0
        (t.update_one_result id (may_enter tenant allowed) values db fixes)
    where
      go :
          (o : Option JobRow)
          → o ≡ changed (may_enter tenant allowed) values (t.find id db)
          → IsSettled db
              (settle t tenant id db o (t.update_one id (may_enter tenant allowed) values db).1)
      go none h = refl
      go (some r) h = elim (Option-cases (t.find id db)) [
        | inl gone ↦ absurd (ground arith)
        | inr (q, found) ↦
            let at : values q ≡ r = ground arith in
            let key : r.id ≡ id = ap job_id (sym at) ∙ fixes q ∙ t.find_key id db q found in
            subst (λ k. t.find k (t.update_one id (may_enter tenant allowed) values db).1 ≡ some r)
              (sym key)
              (ground (
                arith,
                t.find-update_one id (may_enter tenant allowed) values db id fixes,
                text_eq_refl id,
              ))
      ]

  create-IsSettled :
      (c : Settings) (id : Text) (now : ℕ) (tenant type : Text) (spec : JobSpec) (a b : Option ℕ)
      (db : Db)
      → IsSettled db (create t c id now tenant type spec a b db)
  unfolding create new_row
  create-IsSettled c id now tenant type spec a b db =
      let row =
        new_row id now tenant type spec (or_default a c.default_max_attempts)
          (or_default b c.default_max_retries) in
      elim (Option-cases (t.insert row db)) [
        | inl e ↦ subst (added row db) (sym e) refl
        | inr (db', e) ↦
            subst (added row db) (sym e)
              (ground (arith, t.find-insert row db db' id e, text_eq_refl id))
      ]
    where
      added : JobRow → Db → Option Db → Type 0
      added row db o =
          IsSettled db (elim o [ some db' ↦ (ok row, db') | none ↦ (raise (integrity id), db) ])

  enter-IsSettled :
      (tenant id : Text) (s : JobStatus) (now : ℕ) (db : Db)
      → IsSettled db (enter t tenant id s now db)
  unfolding enter start fail allowed_entry enter_values start_values fail_values
  enter-IsSettled tenant id running now db =
      guarded_update-IsSettled tenant id (queued ∷ []) (start_values now) db (λ r. refl)
  enter-IsSettled tenant id failed now db =
      guarded_update-IsSettled tenant id (running ∷ []) (fail_values now) db (λ r. refl)
  enter-IsSettled tenant id queued now db =
      guarded_update-IsSettled tenant id (failed ∷ dead ∷ cancelled ∷ waiting_approval ∷ [])
        (enter_values queued now) db (λ r. refl)
  enter-IsSettled tenant id succeeded now db =
      guarded_update-IsSettled tenant id (running ∷ []) (enter_values succeeded now) db (λ r. refl)
  enter-IsSettled tenant id cancelled now db =
      guarded_update-IsSettled tenant id (queued ∷ running ∷ waiting_approval ∷ [])
        (enter_values cancelled now) db (λ r. refl)
  enter-IsSettled tenant id dead now db =
      guarded_update-IsSettled tenant id (failed ∷ running ∷ []) (enter_values dead now) db
        (λ r. refl)
  enter-IsSettled tenant id waiting_approval now db =
      guarded_update-IsSettled tenant id (running ∷ []) (enter_values waiting_approval now) db
        (λ r. refl)

  update-IsSettled :
      (tenant id status : Text) (now : ℕ) (db : Db)
      → IsSettled db (update t tenant id status now db)
  unfolding update
  update-IsSettled tenant id status now db = elim (Option-cases (status_of_name status)) [
    | inl e ↦ subst entered (sym e) refl
    | inr (s, e) ↦ subst entered (sym e) (enter-IsSettled tenant id s now db)
  ]
    where
      entered : Option JobStatus → Type 0
      entered o = IsSettled db (elim o [
        | none ↦ (raise (invalid status), db)
        | some target ↦ enter t tenant id target now db
      ])

  retry-IsSettled : (tenant id : Text) (now : ℕ) (db : Db) → IsSettled db (retry t tenant id now db)
  unfolding retry retry_values
  retry-IsSettled tenant id now db =
      guarded_update-IsSettled tenant id (failed ∷ []) (retry_values now) db (λ r. refl)

  respond_with-IsAnswered :
      (db : Db) (x : Outcome Error JobRow × Db)
      → IsSettled db x
      → IsTyped t x.1
      → IsAnswered db (respond_with job_to_proto x)
  respond_with-IsAnswered db (ok r, db') h typed = go (job_to_proto r) refl
    where
      go : (o : Outcome Error Job) → job_to_proto r ≡ o → IsAnswered db (coded o, db')
      go (ok job) e = (r, h, e, typed)
      go (raise error) e = absurd (ground (arith, job_to_proto-typed r (typed r.id r h)))
  respond_with-IsAnswered db (raise e, db') h typed = h

  guarded-IsAnswered :
      {A : Type 0} (a : Outcome Error A) (handler : A → Db → Outcome StatusCode Job × Db) (db : Db)
      → ((x : A) → a ≡ ok x → IsAnswered db (handler x db))
      → IsAnswered db (guarded t a handler db)
  guarded-IsAnswered (raise e) handler db h = refl
  guarded-IsAnswered (ok x) handler db h = h x refl

  -- The RPCs that change a job, with the header and the fields of their requests.
  pub data Rpc : Type 0 where
    create_rpc : Settings → Text → Option Text → JobSpec → Option ℤ → Option ℤ → Rpc
    update_rpc : Text → Option JobStatus → Rpc
    retry_rpc : Text → Rpc

  abbrev pub call : ℕ → Option Text → Rpc → Db → Outcome StatusCode Job × Db
  call now header (create_rpc settings id type spec a b) db =
      create_job t settings id now header type spec a b db
  call now header (update_rpc id status) db = update_job t now header id status db
  call now header (retry_rpc id) db = retry_job t now header id db

  -- In a table of agent executions, an RPC that creates, updates or retries a job answers with a job
  -- that is stored as the answer says, in a table of agent executions again, or it is aborted and
  -- the table is as before.
  pub call-IsAnswered :
      (now : ℕ) (header : Option Text) (rpc : Rpc) (db : Db)
      → IsTyped t db
      → IsAnswered db (call now header rpc db)
  unfolding create_job update_job retry_job
  call-IsAnswered now header (create_rpc settings id type spec a b) db typed =
      guarded-IsAnswered (checked_order header type spec a b)
        (λ (tenant, kind, m, n) db.
          respond_with job_to_proto (create t settings id now tenant kind spec m n db))
        db
        (λ (tenant, kind, m, n) valid.
          respond_with-IsAnswered db (create t settings id now tenant kind spec m n db)
            (create-IsSettled settings id now tenant kind spec m n db)
            (create-IsTyped t settings id now tenant kind spec m n db
              (checked_order-type header type spec a b (tenant, kind, m, n) valid) typed))
  call-IsAnswered now header (update_rpc id status) db typed =
      guarded-IsAnswered
        (tenant_of header >>= (λ tenant.
          validate_job_id id >>= (λ u. validate_status status >>= (λ status. ok (tenant, status)))))
        (λ (tenant, status) db. respond_with job_to_proto (update t tenant id status now db)) db
        (λ (tenant, status) valid.
          respond_with-IsAnswered db (update t tenant id status now db)
            (update-IsSettled tenant id status now db)
            (update-IsTyped t tenant id status now db typed))
  call-IsAnswered now header (retry_rpc id) db typed =
      guarded-IsAnswered (tenant_of header >>= (λ tenant. validate_job_id id >>= (λ u. ok tenant)))
        (λ tenant db. respond_with job_to_proto (retry t tenant id now db)) db
        (λ tenant valid.
          respond_with-IsAnswered db (retry t tenant id now db) (retry-IsSettled tenant id now db)
            (retry-IsTyped t tenant id now db typed))
