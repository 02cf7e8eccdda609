-- ===== src/JobSvc/Runner/Approval.antt =====
-- services/job_svc/src/job_svc/runner.py: what the approval of a paused step rests on.
use mathlib.Core.Option.{some-injective}
use mathlib.Core.Path.{subst}
use agent_exec_platform.Common.{
  ℕ, zero, suc, ◌+◌, ◌<◌, ◌≡◌, refl, sym, ap, ◌∙◌, true, none, some, List, [], ◌∷◌, ◌++◌,
  append_assoc, append-nil, Text, is_some, get_elem?, arith, Option-cases, inl, inr, Bool,
}
use agent_exec_platform.Common.Outcome.{Outcome, ok, raise}
use agent_exec_platform.Database.Table.{Table, by_key}
use agent_exec_platform.JobSvc.Models.{Error, running, JobRow, job_id, Pending, Progress}
use agent_exec_platform.JobSvc.Jobs.Conditions.{is_stranded_iff}
use agent_exec_platform.JobSvc.Jobs.Recovery.{claim_batch-reaped}
use agent_exec_platform.JobSvc.Jobs.Service.{reap_expired, claim_batch}
use agent_exec_platform.JobSvc.Jobs.Values.{claim_values, fail_values}
use agent_exec_platform.JobSvc.Runner.World.{Call, Environment, World, Run, proceed}
use agent_exec_platform.JobSvc.Runner.Execute.{
  lookup, or_empty, step_request, is_approved, run_step, steps_from, execute_steps,
}
use agent_exec_platform.JobSvc.Runner.Calls.{loop, loop-skip, loop-run, run_step-calls, call_of}

module _ (t : Table JobRow job_id) (env : Environment t) (row : JobRow) where
  abbrev Grows : World t → World t → Type 0
  Grows w w' = (more : List Call) × (w'.calls ≡ w.calls ++ more)

  proceed-Grows :
      (r : Outcome Error (Unit {0})) (f : Run t (Unit {0})) (w : World t)
      → Grows w (f w).1
      → Grows w (proceed t r (λ _. f) w).1
  proceed-Grows (ok a) f w g = g
  proceed-Grows (raise e) f w g = ([], sym (append-nil w.calls))

  loop-Grows : (rest : List Text) (n : ℕ) (w : World t) → Grows w (loop t env row n rest w).1
  unfolding steps_from
  loop-Grows [] n w = ([], sym (append-nil w.calls))
  loop-Grows (prompt ∷ rest) n w =
      let v : World t = (run_step t env row n prompt w).1 in
      let later = loop-Grows rest (suc n) v in
      let skipped = loop-Grows rest (suc n) w in
      elim (Option-cases (lookup n (or_empty w.progress.steps))) [
        | inr (done, recorded) ↦ rw (loop-skip t env row prompt rest n w done recorded) skipped
        | inl out ↦
            let (more, e) =
              proceed-Grows (run_step t env row n prompt w).0 (loop t env row (suc n) rest) v
                later in
            rw (loop-run t env row prompt rest n w out) (
              call_of t env row n prompt w ∷ more,
              e
                  ∙ ap (λ l. l ++ more) (run_step-calls t env row n prompt w)
                  ∙ append_assoc w.calls (call_of t env row n prompt w ∷ []) more,
            )
      ]

  -- The call for step `i` with the approval.
  abbrev pub approved_call : ℕ → Text → Call
  approved_call i prompt = record { index = some i; request = step_request row prompt true }

  call_of-approved :
      (n m : ℕ) (prompt q : Text) (p : Pending) (w : World t)
      → n ≡ m
      → q ≡ prompt
      → w.progress.pending_approval ≡ some p
      → p.step ≡ m
      → call_of t env row n q w ≡ approved_call m prompt
  unfolding is_approved
  call_of-approved n m prompt q p w same now marked at =
      let yes_it_is : is_approved n w.progress.pending_approval ≡ true = ground arith in
      rw (yes_it_is, same, now) refl

  loop-approved :
      (rest : List Text) (i n : ℕ) (prompt : Text) (p : Pending) (w : World t)
      → ((k : ℕ) → k < i → is_some (lookup (n + k) (or_empty w.progress.steps)) ≡ true)
      → lookup (n + i) (or_empty w.progress.steps) ≡ none
      → get_elem? rest i ≡ some prompt
      → w.progress.pending_approval ≡ some p
      → p.step ≡ n + i
      → (more : List Call) × ((loop t env row n rest w).1.calls
          ≡ w.calls ++ approved_call (n + i) prompt ∷ more)
  unfolding get_elem?
  loop-approved [] i n prompt p w before out has marked at = cc
  loop-approved (q ∷ rest) zero n prompt p w before out has marked at =
      let v : World t = (run_step t env row n q w).1 in
      let start : lookup n (or_empty w.progress.steps) ≡ none =
        ap (λ k. lookup k (or_empty w.progress.steps)) (omega arith) ∙ out in
      let (more, e) =
        proceed-Grows (run_step t env row n q w).0 (loop t env row (suc n) rest) v
          (loop-Grows rest (suc n) v) in
      let first =
        call_of-approved n (n + 0) prompt q p w (omega arith) (some-injective _ _ has) marked at in
      rw (loop-run t env row q rest n w start) (
        more,
        e
            ∙ ap (λ l. l ++ more) (run_step-calls t env row n q w)
            ∙ append_assoc w.calls (call_of t env row n q w ∷ []) more
            ∙ ap (λ c. w.calls ++ c ∷ more) first,
      )
  loop-approved (q ∷ rest) (suc i) n prompt p w before out has marked at =
      let steps = or_empty w.progress.steps in
      let recorded : is_some (lookup n steps) ≡ true =
        ap (λ k. is_some (lookup k steps)) (omega arith) ∙ before 0 (omega arith) in
      let (more, e) =
        loop-approved rest i (suc n) prompt p w
          (λ k h. ap (λ j. is_some (lookup j steps)) (omega arith) ∙ before (suc k) (omega arith))
          (ap (λ j. lookup j steps) (omega arith) ∙ out) has marked (omega arith) in
      elim (Option-cases (lookup n steps)) [
        | inl none_there ↦ absurd (ground arith)
        | inr (done, there) ↦
            rw (loop-skip t env row q rest n w done there)
              (more, e ∙ ap (λ j. w.calls ++ approved_call j prompt ∷ more) (omega arith))
      ]

  -- A run that reaches the step named by the stored marker asks for it with the approval set,
  -- whoever put the job back to work.
  pub marked_step-approved :
      (plan : List Text) (i : ℕ) (prompt : Text) (p : Pending) (w : World t)
      → ((k : ℕ) → k < i → is_some (lookup k (or_empty w.progress.steps)) ≡ true)
      → lookup i (or_empty w.progress.steps) ≡ none
      → get_elem? plan i ≡ some prompt
      → w.progress.pending_approval ≡ some p
      → p.step ≡ i
      → (more : List Call) × ((execute_steps t env row plan w).1.calls
          ≡ w.calls ++ approved_call i prompt ∷ more)
  unfolding execute_steps
  marked_step-approved plan i prompt p w before out has marked at =
      let v : World t = record w {
        progress = record w.progress { steps = some (or_empty w.progress.steps) };
      } in
      let steps = or_empty w.progress.steps in
      let (more, e) =
        loop-approved plan i 0 prompt p v
          (λ k h. ap (λ j. is_some (lookup j steps)) (omega arith) ∙ before k h)
          (ap (λ j. lookup j steps) (omega arith) ∙ out) has marked (omega arith) in
      (more, e ∙ ap (λ j. w.calls ++ approved_call j prompt ∷ more) (omega arith))

-- A pause is checkpointed before the job is parked. A job with attempts left whose pod dies in between
-- is reaped once its lease is over, and a claim that then returns it starts it anew with its marker:
-- the run asks for the paused step with `approved` set, and no caller was involved.
pub crashed_pause_is_approved :
    (t : Table JobRow job_id) (env : Environment t) (db : t.Db) (j : Text) (r r' : JobRow)
    (lease now : ℕ) (locked : Text → Bool) (limit : ℕ) (owner : Text) (later s : ℕ)
    (plan : List Text) (i : ℕ) (prompt : Text) (p : Pending) (w : World t)
    → t.find j db ≡ some r
    → r.status ≡ running
    → r.locked_at ≡ some s
    → s + lease < now
    → r.attempts < r.max_attempts
    → by_key job_id j (claim_batch t locked limit owner later (reap_expired t lease now db).1).0
      ≡ some r'
    → ((k : ℕ) → k < i → is_some (lookup k (or_empty r.progress.steps)) ≡ true)
    → lookup i (or_empty r.progress.steps) ≡ none
    → get_elem? plan i ≡ some prompt
    → r.progress.pending_approval ≡ some p
    → p.step ≡ i
    → w.progress ≡ r'.progress
    → (r'.status ≡ running)
      × (more : List Call) × ((execute_steps t env r' plan w).1.calls
          ≡ w.calls ++ approved_call t env r' i prompt ∷ more)
unfolding claim_values fail_values
crashed_pause_is_approved t env db j r r' lease now locked limit owner later s plan i prompt p w
      found live held late left taken before out has marked at start =
    let lost = (is_stranded_iff lease now r).1 (s, live, held, late) in
    let new =
      claim_batch-reaped t lease now locked limit owner later db j r r' found lost left taken in
    let e : r.progress ≡ w.progress = sym (start ∙ ap (λ (q : JobRow). q.progress) new) in
    let (more, calls) =
      marked_step-approved t env r' plan i prompt p w
        (subst (λ (q : Progress). (k : ℕ) → k < i → is_some (lookup k (or_empty q.steps)) ≡ true) e
          before)
        (subst (λ (q : Progress). lookup i (or_empty q.steps) ≡ none) e out) has
        (subst (λ (q : Progress). q.pending_approval ≡ some p) e marked) at in
    (ap (λ (q : JobRow). q.status) new, more, calls)
