-- ===== src/JobSvc/Runner/Keeps.antt =====
-- services/job_svc/src/job_svc/runner.py: while a run is under way the job's row stays the running
-- row that the run was started for, as long as the other users of the table leave it that.
use agent_exec_platform.Common.{
  ℕ, suc, ◌≡◌, refl, Bool, true, false, Option, none, some, List, [], ◌∷◌, Text, text_eq_refl,
  if◌then◌else◌, arith, Option-cases, inl, inr,
}
use agent_exec_platform.Common.Outcome.{Outcome, ok, raise}
use agent_exec_platform.Database.Table.{Table}
use agent_exec_platform.JobSvc.Models.{Step, running, Error, JobRow, job_id, Progress}
use agent_exec_platform.JobSvc.Jobs.Values.{progress_values}
use agent_exec_platform.JobSvc.Orchestrator.{ChatRequest}
use agent_exec_platform.JobSvc.Runner.Calls.{loop-skip, loop-run}
use agent_exec_platform.JobSvc.Runner.World.{
  Environment, World, Run, bind, proceed, pure, throw, modify, local, chat,
}
use agent_exec_platform.JobSvc.Runner.Execute.{
  last_index, lookup, or_empty, checkpoint, adopt_plan, make_plan, plan_or, ensure_plan,
  settle_step, run_step, steps_from, execute_steps, result_of, set_result,
}

-- The row `q` is the job that `row` was claimed as, still running.
pub record IsRunOf (row q : JobRow) : Type 0 where
  pub live : q.status ≡ running
  pub same_tenant : q.tenant_id ≡ row.tenant_id
  pub same_attempts : q.attempts ≡ row.attempts
  pub same_max_attempts : q.max_attempts ≡ row.max_attempts
  pub same_retry_count : q.retry_count ≡ row.retry_count
  pub same_max_retries : q.max_retries ≡ row.max_retries

module _ (t : Table JobRow job_id) (env : Environment t) (row : JobRow) where
  -- The table holds it, with the progress `p`.
  pub record Holds (p : Progress) (db : t.Db) : Type 0 where
    pub current : JobRow
    pub found : t.find row.id db ≡ some current
    pub is_run : IsRunOf row current
    pub stored : current.progress ≡ p

  -- Other transactions may renew the lease of the job, and do to other jobs what they like.
  abbrev pub Undisturbed : Type 0
  Undisturbed = (n : ℕ) (db : t.Db) (p : Progress) → Holds p db → Holds p (env.others n db)

  pub record IsHeld (w : World t) : Type 0 where
    pub kept : Progress
    pub holds : Holds kept w.db

  module _ (quiet : Undisturbed) where
    -- A checkpoint succeeds and stores the local progress.
    pub checkpoint-stores :
        (w : World t)
        → IsHeld w
        → ((checkpoint t env row w).0 ≡ ok tt) × Holds w.progress (checkpoint t env row w).1.db
    unfolding checkpoint progress_values
    checkpoint-stores w h =
        let db = env.others w.statements w.db in
        let now = env.clock w.statements in
        let q = quiet w.statements w.db h.kept h.holds in
        let f = progress_values w.progress now in
        (
          ground (arith, q.found, t.update_one_result row.id (λ r. true) f db (λ r. refl)),
          record {
            current = f q.current;
            found = ground (
              arith,
              q.found,
              t.update_one_result row.id (λ r. true) f db (λ r. refl),
              t.find-update_one row.id (λ r. true) f db row.id (λ r. refl),
              text_eq_refl row.id,
            );
            is_run = ground (arith, q.is_run);
            stored = refl;
          },
        )

    -- An action of the runner that keeps the row held.
    pub record Keeps {A : Type 0} (m : Run t A) : Type 0 where
      pub at : (w : World t) → IsHeld w → IsHeld (m w).1

    Keeps-pure : {A : Type 0} (a : A) → Keeps (pure t a)
    Keeps-pure a = record { at = λ w h. h }

    Keeps-throw : {A : Type 0} (e : Error) → Keeps (throw t {A = A} e)
    Keeps-throw e = record { at = λ w h. h }

    Keeps-modify : (f : Progress → Progress) → Keeps (modify t f)
    Keeps-modify f = record { at = λ w h. record { kept = h.kept; holds = h.holds } }

    Keeps-local : Keeps (local t)
    Keeps-local = record { at = λ w h. h }

    Keeps-chat : (index : Option ℕ) (request : ChatRequest) → Keeps (chat t env index request)
    Keeps-chat index request = record { at = λ w h. record { kept = h.kept; holds = h.holds } }

    Keeps-checkpoint : Keeps (checkpoint t env row)
    Keeps-checkpoint = record {
      at = λ w h. record { kept = w.progress; holds = (checkpoint-stores w h).1 };
    }

    Keeps-proceed :
        {A B : Type 0} (r : Outcome Error A) (f : A → Run t B) (w : World t)
        → ((a : A) → Keeps (f a))
        → IsHeld w
        → IsHeld (proceed t r f w).1
    Keeps-proceed (ok a) f w k h = (k a).at w h
    Keeps-proceed (raise e) f w k h = h

    Keeps-bind :
        {A B : Type 0} {m : Run t A} {f : A → Run t B}
        → Keeps m
        → ((a : A) → Keeps (f a))
        → Keeps (bind t m f)
    Keeps-bind {m} {f} k l = record { at = λ w h. Keeps-proceed (m w).0 f (m w).1 l (k.at w h) }

    ruleset keeps_rules = (
      Keeps-pure, Keeps-throw, Keeps-modify, Keeps-local, Keeps-chat, Keeps-checkpoint, Keeps-bind,
    )

    Keeps-adopt_plan : (plan : List Text) → Keeps (adopt_plan t env row plan)
    unfolding adopt_plan
    Keeps-adopt_plan [] = search keeps_rules
    Keeps-adopt_plan (p ∷ ps) = search keeps_rules

    Keeps-plan_or : (prompt : Text) (o : Option (List Text)) → Keeps (plan_or t env row prompt o)
    unfolding plan_or make_plan
    Keeps-plan_or prompt none = search (keeps_rules, Keeps-adopt_plan)
    Keeps-plan_or prompt (some []) = search (keeps_rules, Keeps-adopt_plan)
    Keeps-plan_or prompt (some (p ∷ ps)) = search keeps_rules

    pub Keeps-ensure_plan : (prompt : Text) → Keeps (ensure_plan t env row prompt)
    unfolding ensure_plan
    Keeps-ensure_plan prompt = record { at = λ w h. (Keeps-plan_or prompt w.progress.plan).at w h }

    Keeps-if :
        {A : Type 0} (b : Bool) {m n : Run t A} → Keeps m → Keeps n → Keeps (if b then m else n)
    Keeps-if true k l = k
    Keeps-if false k l = l

    Keeps-run_step : (index : ℕ) (prompt : Text) → Keeps (run_step t env row index prompt)
    unfolding run_step settle_step
    Keeps-run_step index prompt = search (keeps_rules, Keeps-if) depth 8

    Keeps-steps_from : (index : ℕ) (plan : List Text) → Keeps (steps_from t env row index plan)
    unfolding steps_from
    Keeps-steps_from index [] = record { at = λ w h. h }
    Keeps-steps_from index (prompt ∷ plan) = record {
      at = λ w h. elim (Option-cases (lookup index (or_empty w.progress.steps))) [
        | inr (done, recorded) ↦
            rw (loop-skip t env row prompt plan index w done recorded)
              ((Keeps-steps_from (suc index) plan).at w h)
        | inl out ↦ rw (loop-run t env row prompt plan index w out) (
            (Keeps-bind (Keeps-run_step index prompt) (λ _. Keeps-steps_from (suc index) plan)).at w
              h)
      ];
    }

    pub Keeps-execute_steps : (plan : List Text) → Keeps (execute_steps t env row plan)
    unfolding execute_steps
    Keeps-execute_steps plan = search (keeps_rules, Keeps-steps_from)

    Keeps-result_of : (k : ℕ) (o : Option Step) → Keeps (result_of t env k o)
    Keeps-result_of k none = search keeps_rules
    Keeps-result_of k (some s) = search keeps_rules

    pub Keeps-set_result : (m : List (ℕ × Step)) → Keeps (set_result t env m)
    unfolding set_result
    Keeps-set_result [] = search keeps_rules
    Keeps-set_result ((k, s) ∷ m) =
        Keeps-result_of (last_index k m) (lookup (last_index k m) ((k, s) ∷ m))
