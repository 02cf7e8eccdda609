-- ===== src/JobSvc/Runner/Outcomes.antt =====
-- services/job_svc/src/job_svc/runner.py: how a run ends, and what it leaves in the job's row.
use mathlib.Core.Path.{subst}
use agent_exec_platform.Common.{
  codes, ℕ, ◌≡◌, refl, sym, ap, ◌∙◌, true, none, some, Text, text_eq, text_eq_refl, any, arith,
}
use agent_exec_platform.Common.Outcome.{Outcome, ok, raise}
use agent_exec_platform.Database.Table.{Table}
use agent_exec_platform.JobSvc.Models.{
  JobStatus, running, succeeded, failed, waiting_approval, is_status, status_name,
  status_of_name-status_name, Error, approval_required, JobRow, job_id, Progress,
}
use agent_exec_platform.JobSvc.Jobs.Values.{next_status_after_failure}
use agent_exec_platform.JobSvc.Jobs.Events.{step, entry_values, sources, permitted}
use agent_exec_platform.JobSvc.Jobs.Service.{update, enter}
use agent_exec_platform.JobSvc.Jobs.Guarded.{answer, find-enter, enter-answer}
use agent_exec_platform.JobSvc.Runner.World.{Environment, World, Run, bind, proceed, pure, throw}
use agent_exec_platform.JobSvc.Runner.Execute.{
  prompt_of, or_empty, checkpoint, report, ensure_plan, execute_steps, set_result, finalize,
  attempt, recover, execute, conclude, run,
}
use agent_exec_platform.JobSvc.Runner.Keeps.{
  IsRunOf, Holds, Undisturbed, IsHeld, checkpoint-stores, Keeps-ensure_plan, Keeps-execute_steps,
  Keeps-set_result,
}

update-enter :
    (t : Table JobRow job_id) (tenant id : Text) (s : JobStatus) (now : ℕ) (db : t.Db)
    → update t tenant id (status_name s) now db ≡ enter t tenant id s now db
unfolding update
update-enter t tenant id s now db = ground (arith, status_of_name-status_name s)

entry-progress :
    (s : JobStatus) (now : ℕ) (r : JobRow) → (entry_values s now r).progress ≡ r.progress
unfolding entry_values
entry-progress running now r = refl
entry-progress s now r = ground arith

-- The status that a report of a running job leads to.
unfoldable pub reported_status : JobStatus → JobRow → JobStatus
unfolding next_status_after_failure
reported_status failed row = next_status_after_failure row
reported_status s row = s

entry-status :
    (s : JobStatus) (now : ℕ) (r row : JobRow)
    → IsRunOf row r
    → (entry_values s now r).status ≡ reported_status s row
unfolding entry_values reported_status
entry-status running now r row h = refl
entry-status s now r row h = ground arith

module _ (t : Table JobRow job_id) (env : Environment t) (row : JobRow) where
  -- The job has the status `s` and the stored progress `p`.
  pub record Rests (s : JobStatus) (p : Progress) (db : t.Db) : Type 0 where
    pub final : JobRow
    pub at_rest : t.find row.id db ≡ some final
    pub status : final.status ≡ s
    pub progress : final.progress ≡ p

  -- What the job's row is left as, by how the body of `_execute` ended.
  abbrev pub Leaves : Outcome Error (Unit {0}) → World t → t.Db → Type 0
  Leaves (ok _) w db = Rests succeeded w.progress db
  Leaves (raise approval_required) w db = (p : Progress) × Rests waiting_approval p db
  Leaves (raise e) w db =
      Rests (next_status_after_failure row) (record w.progress { error = some (env.describe e) }) db

  -- The row after the run reported `s`.
  pub record Reported (s : JobStatus) (p : Progress) (r : Outcome Error JobRow) (db : t.Db)
      : Type 0 where
    pub before : JobRow
    pub time : ℕ
    pub was_run : IsRunOf row before
    pub stored : before.progress ≡ p
    pub answered : r ≡ ok (entry_values s time before)
    pub found : t.find row.id db ≡ some (entry_values s time before)

  module _ (quiet : Undisturbed t env row) where
    report-Reported :
        (s : JobStatus) (w : World t) (p : Progress)
        → any (is_status running) (sources s) ≡ true
        → Holds t env row p w.db
        → Reported s p (report t env row s w).0 (report t env row s w).1.db
    unfolding report answer step permitted
    report-Reported s w p legal h =
        let db = env.others w.statements w.db in
        let now = env.clock w.statements in
        let q = quiet w.statements w.db p h in
        let same = update-enter t row.tenant_id row.id s now db in
        let tenant : text_eq q.current.tenant_id row.tenant_id ≡ true =
          ap (λ x. text_eq x row.tenant_id) q.is_run.same_tenant ∙ text_eq_refl row.tenant_id in
        let may : any (is_status q.current.status) (sources s) ≡ true =
          ap (λ x. any (is_status x) (sources s)) q.is_run.live ∙ legal in
        record {
          before = q.current;
          time = now;
          was_run = q.is_run;
          stored = q.stored;
          answered =
              ap (λ (x : Outcome Error JobRow × t.Db). x.0) same
              ∙ enter-answer t row.tenant_id row.id now db s
              ∙ ground (arith, q.found, tenant, may);
          found =
              ap (λ (x : Outcome Error JobRow × t.Db). t.find row.id x.1) same
              ∙ find-enter t row.tenant_id row.id now db s row.id
              ∙ ground (arith, q.found, tenant, may, text_eq_refl row.id);
        }

    -- A report that the state machine allows succeeds, and keeps the progress.
    report-Rests :
        (s : JobStatus) (w : World t) (p : Progress)
        → any (is_status running) (sources s) ≡ true
        → Holds t env row p w.db
        → (r : JobRow) × ((report t env row s w).0 ≡ ok r)
          × Rests (reported_status s row) p (report t env row s w).1.db
    report-Rests s w p legal h =
        let q = report-Reported s w p legal h in
        (
          entry_values s q.time q.before,
          q.answered,
          record {
            final = entry_values s q.time q.before;
            at_rest = q.found;
            status = entry-status s q.time q.before row q.was_run;
            progress = entry-progress s q.time q.before ∙ q.stored;
          },
        )

    report-progress : (s : JobStatus) (w : World t) → (report t env row s w).1.progress ≡ w.progress
    unfolding report
    report-progress s w = refl

    checkpoint-progress : (w : World t) → (checkpoint t env row w).1.progress ≡ w.progress
    unfolding checkpoint
    checkpoint-progress w = refl

    -- The end of `_finalize`.
    abbrev finish : Run t (Unit {0})
    finish =
        bind t (checkpoint t env row) (λ _. bind t (report t env row succeeded) (λ _. pure t tt))

    -- What the body of `_execute` leaves: on return a job that has succeeded, and after an exception
    -- one that is still held.
    abbrev Ended : Outcome Error (Unit {0}) → World t → Type 0
    Ended (ok _) w = Rests succeeded w.progress w.db
    Ended (raise e) w = IsHeld t env row w

    -- The end of `_finalize`: the checkpoint and the report.
    close_lem : (w : World t) → IsHeld t env row w → Ended (finish w).0 (finish w).1
    unfolding any sources is_status reported_status
    close_lem w h =
        let (fine, held) = checkpoint-stores t env row quiet w h in
        let v : World t = (checkpoint t env row w).1 in
        let (r, good, rest) = report-Rests succeeded v w.progress refl held in
        rw (fine, good)
          (subst (λ p. Rests succeeded p (report t env row succeeded v).1.db)
            (sym (report-progress succeeded v ∙ checkpoint-progress w)) rest)

    proceed-Ended :
        {A : Type 0} (r : Outcome Error A) (f : A → Run t (Unit {0})) (w : World t)
        → IsHeld t env row w
        → ((a : A) → Ended (f a w).0 (f a w).1)
        → Ended (proceed t r f w).0 (proceed t r f w).1
    proceed-Ended (ok a) f w h k = k a
    proceed-Ended (raise e) f w h k = h

    finalize-Ended :
        (w : World t) → IsHeld t env row w → Ended (finalize t env row w).0 (finalize t env row w).1
    unfolding finalize
    finalize-Ended w h =
        let p : Progress = record w.progress { phase = some (codes "completed"); error = none } in
        let v : World t = record w { progress = p } in
        let held =
          (Keeps-set_result t env row quiet (or_empty p.steps)).at v
            (record { kept = h.kept; holds = h.holds }) in
        proceed-Ended (set_result t env (or_empty p.steps) v).0 (λ _. finish)
          (set_result t env (or_empty p.steps) v).1 held
          (λ _. close_lem (set_result t env (or_empty p.steps) v).1 held)

    attempt-Ended :
        (w : World t) → IsHeld t env row w → Ended (attempt t env row w).0 (attempt t env row w).1
    unfolding attempt
    attempt-Ended w h =
        proceed-Ended (prompt_of row)
          (λ prompt.
            bind t (ensure_plan t env row prompt)
              (λ plan. bind t (execute_steps t env row plan) (λ _. finalize t env row)))
          w h
          (λ prompt.
            let v : World t = (ensure_plan t env row prompt w).1 in
            let planned = (Keeps-ensure_plan t env row quiet prompt).at w h in
            proceed-Ended (ensure_plan t env row prompt w).0
              (λ plan. bind t (execute_steps t env row plan) (λ _. finalize t env row)) v planned
              (λ plan.
                let executed = (Keeps-execute_steps t env row quiet plan).at v planned in
                proceed-Ended (execute_steps t env row plan v).0 (λ _. finalize t env row)
                  (execute_steps t env row plan v).1 executed
                  (λ _. finalize-Ended (execute_steps t env row plan v).1 executed)))

    -- The handlers of `_execute` and of `run`.
    abbrev handled : Outcome Error (Unit {0}) → World t → Outcome Error (Unit {0}) × World t
    handled r w = let (r', w') = recover t env row r w in conclude t env row r' w'

    handled-failure :
        (e : Error) (w : World t)
        → IsHeld t env row w
        → let v : World t = record w {
          progress = record w.progress { error = some (env.describe e) };
        } in
          let (r, u) = bind t (checkpoint t env row) (λ _. throw t {A = Unit {0}} e) v in
          (r ≡ raise e) × Holds t env row v.progress u.db
    handled-failure e w h =
        let v : World t = record w {
          progress = record w.progress { error = some (env.describe e) };
        } in
        let (fine, held) =
          checkpoint-stores t env row quiet v (record { kept = h.kept; holds = h.holds }) in
        rw fine (refl, held)

    handled-Leaves :
        (r : Outcome Error (Unit {0})) (w : World t)
        → Ended r w
        → ((handled r w).0 ≡ ok tt) × Leaves r w (handled r w).1.db
    unfolding recover conclude reported_status any sources is_status
    handled-Leaves (ok _) w h = (refl, h)
    handled-Leaves (raise approval_required) w h =
        let (r, good, rest) = report-Rests waiting_approval w h.kept refl h.holds in
        rw good (refl, (h.kept, rest))
    handled-Leaves (raise e) w h =
        let v : World t = record w {
          progress = record w.progress { error = some (env.describe e) };
        } in
        let u : World t = (checkpoint t env row v).1 in
        let (fine, held) =
          checkpoint-stores t env row quiet v (record { kept = h.kept; holds = h.holds }) in
        let (r, good, rest) = report-Rests failed u v.progress refl held in
        rw (fine, good) (refl, rest)

    -- A run that is not disturbed never leaves its job running, and never raises: the job has
    -- succeeded, is parked, or is where the two-tier budget puts a failed run, with the reason stored.
    pub run-Leaves :
        (w : World t)
        → IsHeld t env row w
        → let (r, w') = attempt t env row (record w { progress = row.progress }) in
          ((run t env row w).0 ≡ ok tt) × Leaves r w' (run t env row w).1.db
    unfolding run execute
    run-Leaves w h =
        let v : World t = record w { progress = row.progress } in
        handled-Leaves (attempt t env row v).0 (attempt t env row v).1
          (attempt-Ended v (record { kept = h.kept; holds = h.holds }))
