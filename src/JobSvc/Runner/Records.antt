-- ===== src/JobSvc/Runner/Records.antt =====
-- services/job_svc/src/job_svc/runner.py: what the loop over the plan records in `progress["steps"]`.
use agent_exec_platform.Common.{
  ◌⊎◌, ℕ, suc, ◌≡◌, refl, sym, ap, ◌∙◌, true, some, List, [], ◌∷◌, ◌++◌, Text, is_some, arith,
  Option-cases, inl, inr,
}
use agent_exec_platform.Common.Outcome.{Outcome, ok, raise}
use agent_exec_platform.Database.Table.{Table}
use agent_exec_platform.JobSvc.Models.{Error, JobRow, job_id, Step, Progress}
use agent_exec_platform.JobSvc.Orchestrator.{ChatReply}
use agent_exec_platform.JobSvc.Runner.World.{Environment, World, Run, proceed}
use agent_exec_platform.JobSvc.Runner.Execute.{
  lookup, or_empty, with_step, with_pause, settle_step, run_step, steps_from, execute_steps,
  checkpoint,
}
use agent_exec_platform.JobSvc.Runner.Calls.{
  loop, loop-skip, loop-run, run_step_lem, run_step-progress, answered, called, asked,
}

-- Every recorded step is still recorded, as it was.
abbrev pub Extends : Progress → Progress → Type 0
Extends p q =
    (k : ℕ) (s : Step) → lookup k (or_empty p.steps) ≡ some s → lookup k (or_empty q.steps) ≡ some s

-- The steps from `n` on are recorded.
abbrev pub Complete : ℕ → List Text → Progress → Type 0
Complete n [] p = Unit
Complete n (prompt ∷ rest) p =
    (is_some (lookup n (or_empty p.steps)) ≡ true) × Complete (suc n) rest p

lookup-append :
    (k : ℕ) (m n : List (ℕ × Step)) (s : Step) → lookup k m ≡ some s → lookup k (m ++ n) ≡ some s
unfolding lookup
lookup-append k [] n s h = cc
lookup-append k ((j, v) ∷ m) n s h = ground (arith, lookup-append k m n s)

lookup-append_new :
    (k : ℕ) (m : List (ℕ × Step)) (s : Step) → is_some (lookup k (m ++ (k, s) ∷ [])) ≡ true
unfolding lookup
lookup-append_new k [] s = ground arith
lookup-append_new k ((j, v) ∷ m) s = ground (arith, lookup-append_new k m s)

Extends-trans : (p q r : Progress) → Extends p q → Extends q r → Extends p r
Extends-trans p q r f g k s h = g k s (f k s h)

Extends-with_step :
    (index : ℕ) (prompt : Text) (reply : ChatReply) (p : Progress)
    → Extends p (with_step index prompt reply p)
unfolding with_step
Extends-with_step index prompt reply p k s h = lookup-append k (or_empty p.steps) _ s h

module _ (t : Table JobRow job_id) (env : Environment t) (row : JobRow) where
  settle_step-cases :
      (index : ℕ) (prompt : Text) (reply : ChatReply) (w : World t)
      → ((settle_step t env row index prompt reply w).1.progress
          ≡ with_step index prompt reply w.progress)
        ⊎ ((settle_step t env row index prompt reply w).1.progress
            ≡ with_pause index prompt reply w.progress)
  unfolding settle_step checkpoint
  settle_step-cases index prompt reply w = ground arith

  asked-Extends :
      (r : Outcome Error ChatReply) (index : ℕ) (prompt : Text) (w : World t)
      → Extends w.progress (asked t env row r index prompt w).1.progress
  unfolding with_pause asked
  asked-Extends (raise e) index prompt w k s h = h
  asked-Extends (ok reply) index prompt w k s h = elim (settle_step-cases index prompt reply w) [
    | inl done ↦ rw done (Extends-with_step index prompt reply w.progress k s h)
    | inr paused ↦ rw paused h
  ]

  run_step-Extends :
      (index : ℕ) (prompt : Text) (w : World t)
      → Extends w.progress (run_step t env row index prompt w).1.progress
  run_step-Extends index prompt w k s h = rw (run_step_lem t env row index prompt w) (
      asked-Extends (answered t env row index prompt w) index prompt
        (called t env row index prompt w) k s h)

  -- A step that returns has recorded the step.
  run_step-records :
      (index : ℕ) (prompt : Text) (w : World t)
      → (run_step t env row index prompt w).0 ≡ ok tt
      → is_some (lookup index (or_empty (run_step t env row index prompt w).1.progress.steps))
        ≡ true
  unfolding with_step
  run_step-records index prompt w h =
      let (reply, now) = run_step-progress t env row index prompt w h in
      ap (λ (p : Progress). is_some (lookup index (or_empty p.steps))) now
      ∙ lookup-append_new index (or_empty w.progress.steps) _

  proceed-Extends :
      (r : Outcome Error (Unit {0})) (f : Run t (Unit {0})) (w : World t)
      → Extends w.progress (f w).1.progress
      → Extends w.progress (proceed t r (λ _. f) w).1.progress
  proceed-Extends (ok a) f w g k s h = g k s h
  proceed-Extends (raise e) f w g k s h = h

  loop-Extends :
      (rest : List Text) (n : ℕ) (w : World t)
      → Extends w.progress (loop t env row n rest w).1.progress
  unfolding steps_from
  loop-Extends [] n w k s h = h
  loop-Extends (prompt ∷ rest) n w k s h =
      let v : World t = (run_step t env row n prompt w).1 in
      let later = loop-Extends rest (suc n) v in
      let skipped = loop-Extends rest (suc n) w k s h in
      elim (Option-cases (lookup n (or_empty w.progress.steps))) [
        | inr (done, recorded) ↦ rw (loop-skip t env row prompt rest n w done recorded) skipped
        | inl out ↦ rw (loop-run t env row prompt rest n w out) (
            proceed-Extends (run_step t env row n prompt w).0 (loop t env row (suc n) rest) v later
              k s (run_step-Extends n prompt w k s h))
      ]

  proceed-ok :
      (r : Outcome Error (Unit {0})) (f : Run t (Unit {0})) (w : World t)
      → (proceed t r (λ _. f) w).0 ≡ ok tt
      → (r ≡ ok tt) × ((f w).0 ≡ ok tt) × ((proceed t r (λ _. f) w).1 ≡ (f w).1)
  proceed-ok (ok a) f w h = (refl, h, refl)
  proceed-ok (raise e) f w h = cc

  is_some-Extends :
      (p q : Progress) (k : ℕ)
      → Extends p q
      → is_some (lookup k (or_empty p.steps)) ≡ true
      → is_some (lookup k (or_empty q.steps)) ≡ true
  is_some-Extends p q k f h = elim (Option-cases (lookup k (or_empty p.steps))) [
    | inl out ↦ absurd (ground arith)
    | inr (s, e) ↦ rw (f k s e) refl
  ]

  loop-Complete :
      (rest : List Text) (n : ℕ) (w : World t)
      → (loop t env row n rest w).0 ≡ ok tt
      → Complete n rest (loop t env row n rest w).1.progress
  unfolding steps_from
  loop-Complete [] n w h = tt
  loop-Complete (prompt ∷ rest) n w h =
      let v : World t = (run_step t env row n prompt w).1 in
      let later = loop-Complete rest (suc n) v in
      let skipped = loop-Complete rest (suc n) w in
      elim (Option-cases (lookup n (or_empty w.progress.steps))) [
        | inr (done, recorded) ↦ rw (loop-skip t env row prompt rest n w done recorded) (
          is_some-Extends w.progress (loop t env row (suc n) rest w).1.progress n
              (loop-Extends rest (suc n) w) (rw recorded refl),
          skipped (
              ap (λ (x : Outcome Error (Unit {0}) × World t). x.0)
                (sym (loop-skip t env row prompt rest n w done recorded))
              ∙ h),
        )
        | inl out ↦
            let run = loop-run t env row prompt rest n w out in
            let (fine, ended, same) =
              proceed-ok (run_step t env row n prompt w).0 (loop t env row (suc n) rest) v
                (ap (λ (x : Outcome Error (Unit {0}) × World t). x.0) (sym run) ∙ h) in
            rw (run, same)
              (
                is_some-Extends v.progress (loop t env row (suc n) rest v).1.progress n
                    (loop-Extends rest (suc n) v) (run_step-records n prompt w fine),
                later ended,
              )
      ]

  -- Whether it returns, pauses or fails, the loop over the plan forgets and changes no recorded step;
  -- if it returns, every step of the plan is recorded.
  pub execute_steps-records :
      (plan : List Text) (w : World t)
      → let (r, w') = execute_steps t env row plan w in
        Extends w.progress w'.progress × (r ≡ ok tt → Complete 0 plan w'.progress)
  unfolding execute_steps
  execute_steps-records plan w =
      let v : World t = record w {
        progress = record w.progress { steps = some (or_empty w.progress.steps) };
      } in
      (loop-Extends plan 0 v, loop-Complete plan 0 v)
