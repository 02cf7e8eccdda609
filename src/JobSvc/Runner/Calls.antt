-- ===== src/JobSvc/Runner/Calls.antt =====
-- services/job_svc/src/job_svc/runner.py: which calls of the orchestrator the loop over the plan makes.
use mathlib.Core.Path.{subst}
use agent_exec_platform.Common.{
  ◌↔◌, true, false, Bool, ==_iff, append_assoc, ap, append-nil, ◌∙◌, sym, ◌+◌, ◌≤◌, ◌++◌,
  Option-cases, inl, inr, ℕ, suc, ◌≡◌, refl, Option, none, some, List, [], ◌∷◌, Text, get_elem?,
  arith,
}
use agent_exec_platform.Common.Outcome.{Outcome, ok, raise}
use agent_exec_platform.Database.Table.{Table}
use agent_exec_platform.JobSvc.Models.{Progress, Error, JobRow, job_id, Step, Pending}
use agent_exec_platform.JobSvc.Orchestrator.{ChatReply, chat_reply}
use agent_exec_platform.JobSvc.Runner.World.{bind, Call, Environment, World, Run, proceed}
use agent_exec_platform.JobSvc.Runner.Execute.{
  execute_steps, or_empty, checkpoint, lookup, step_request, is_approved, with_step, settle_step,
  run_step, steps_from,
}

-- The approval that a step gets: none without a marker, else that of the step the marker names.
abbrev pub IsMarked : ℕ → Option Pending → Bool → Type 0
IsMarked i none approved = approved ≡ false
IsMarked i (some p) approved = (approved ≡ true) ↔ (p.step ≡ i)

is_approved-IsMarked :
    (i : ℕ) (pending : Option Pending) → IsMarked i pending (is_approved i pending)
unfolding is_approved
is_approved-IsMarked i none = refl
is_approved-IsMarked i (some p) = ==_iff p.step i

-- The calls of a loop that starts at step `n` of the plan, where some steps are recorded: each is
-- the request of a step that is not, later in the plan than the one before. Only the first can be
-- approved, and only if it is for the step that is marked as paused.
abbrev pub IsDue : JobRow → List Text → Option Pending → ℕ → List (ℕ × Step) → List Call → Type 0
IsDue row plan pending n steps [] = Unit
IsDue row plan pending n steps (c ∷ cs) =
    (i : ℕ) × (prompt : Text) × (c.index ≡ some i)
    × (n ≤ i)
    × (lookup i steps ≡ none)
    × (get_elem? plan i ≡ some prompt)
    × ((approved : Bool) × (c.request ≡ step_request row prompt approved)
        × IsMarked i pending approved)
    × IsDue row plan none (suc i) steps cs

lookup-append_none :
    {A : Type 0} (k : ℕ) (m : List (ℕ × A)) (j : ℕ) (v : A)
    → lookup k (m ++ (j, v) ∷ []) ≡ none
    → lookup k m ≡ none
unfolding lookup
lookup-append_none k [] j v h = refl
lookup-append_none k ((i, u) ∷ m) j v h = ground (arith, lookup-append_none k m j v)

module _ (row : JobRow) (plan : List Text) where
  -- What is due after one more step was recorded was due before.
  IsDue-before :
      (p : Option Pending) (m n : ℕ) (steps : List (ℕ × Step)) (s : Step) (cs : List Call)
      → IsDue row plan p n (steps ++ (m, s) ∷ []) cs
      → IsDue row plan p n steps cs
  IsDue-before p m n steps s [] d = tt
  IsDue-before p m n steps s (c ∷ cs) (i, prompt, at, le, out, has, asked, rest) = (
    i,
    prompt,
    at,
    le,
    lookup-append_none i steps m s out,
    has,
    asked,
    IsDue-before none m (suc i) steps s cs rest,
  )

  IsDue-later :
      (p : Option Pending) (n : ℕ) (steps : List (ℕ × Step)) (cs : List Call)
      → IsDue row plan p (suc n) steps cs
      → IsDue row plan p n steps cs
  IsDue-later p n steps [] d = tt
  IsDue-later p n steps (c ∷ cs) (i, prompt, at, le, out, has, asked, rest) =
      (i, prompt, at, omega arith, out, has, asked, rest)

module _ (t : Table JobRow job_id) (env : Environment t) (row : JobRow) where
  abbrev pub loop : ℕ → List Text → Run t (Unit {0})
  loop = steps_from t env row

  -- The one call of a step.
  abbrev pub call_of : ℕ → Text → World t → Call
  call_of index prompt w = record {
    index = some index;
    request = step_request row prompt (is_approved index w.progress.pending_approval);
  }

  checkpoint-calls : (w : World t) → (checkpoint t env row w).1.calls ≡ w.calls
  unfolding checkpoint
  checkpoint-calls w = refl

  checkpoint-progress : (w : World t) → (checkpoint t env row w).1.progress ≡ w.progress
  unfolding checkpoint
  checkpoint-progress w = refl

  settle_step-calls :
      (index : ℕ) (prompt : Text) (reply : ChatReply) (w : World t)
      → (settle_step t env row index prompt reply w).1.calls ≡ w.calls
  unfolding settle_step checkpoint
  settle_step-calls index prompt reply w = ground arith

  -- A step that does not raise is recorded, and clears the marker.
  settle_step-progress :
      (index : ℕ) (prompt : Text) (reply : ChatReply) (w : World t)
      → (settle_step t env row index prompt reply w).0 ≡ ok tt
      → (settle_step t env row index prompt reply w).1.progress
        ≡ with_step index prompt reply w.progress
  unfolding settle_step checkpoint
  settle_step-progress index prompt reply w h = ground arith

  unfoldable pub asked :
      Outcome Error ChatReply → ℕ → Text → World t → Outcome Error (Unit {0}) × World t
  asked r index prompt w = proceed t r (settle_step t env row index prompt) w

  asked-calls :
      (r : Outcome Error ChatReply) (index : ℕ) (prompt : Text) (w : World t)
      → (asked r index prompt w).1.calls ≡ w.calls
  unfolding asked
  asked-calls (ok reply) index prompt w = settle_step-calls index prompt reply w
  asked-calls (raise e) index prompt w = refl

  asked-progress :
      (r : Outcome Error ChatReply) (index : ℕ) (prompt : Text) (w : World t)
      → (asked r index prompt w).0 ≡ ok tt
      → (reply : ChatReply) × ((asked r index prompt w).1.progress
          ≡ with_step index prompt reply w.progress)
  unfolding asked
  asked-progress (ok reply) index prompt w h = (reply, settle_step-progress index prompt reply w h)
  asked-progress (raise e) index prompt w h = cc

  -- The world after the call of a step.
  abbrev pub called : ℕ → Text → World t → World t
  called index prompt w = record w { calls = w.calls ++ call_of index prompt w ∷ [] }

  abbrev pub answered : ℕ → Text → World t → Outcome Error ChatReply
  answered index prompt w =
      chat_reply
        (env.rpc w.calls (step_request row prompt (is_approved index w.progress.pending_approval)))

  pub run_step_lem :
      (index : ℕ) (prompt : Text) (w : World t)
      → run_step t env row index prompt w
        ≡ asked (answered index prompt w) index prompt (called index prompt w)
  unfolding run_step asked
  run_step_lem index prompt w = refl

  pub run_step-calls :
      (index : ℕ) (prompt : Text) (w : World t)
      → (run_step t env row index prompt w).1.calls ≡ w.calls ++ call_of index prompt w ∷ []
  run_step-calls index prompt w =
      rw run_step_lem (asked-calls (answered index prompt w) index prompt (called index prompt w))

  pub run_step-progress :
      (index : ℕ) (prompt : Text) (w : World t)
      → (run_step t env row index prompt w).0 ≡ ok tt
      → (reply : ChatReply) × ((run_step t env row index prompt w).1.progress
          ≡ with_step index prompt reply w.progress)
  run_step-progress index prompt w h = rw run_step_lem (
      asked-progress (answered index prompt w) index prompt (called index prompt w)
        (rw run_step_lem at h))

  -- The calls that a loop adds, from step `n` of the plan on.
  abbrev Adds : List Text → ℕ → World t → World t → Type 0
  Adds plan n w w' =
      (new : List Call) × (w'.calls ≡ w.calls ++ new)
      × IsDue row plan w.progress.pending_approval n (or_empty w.progress.steps) new

  Adds-later :
      (plan : List Text) (n : ℕ) (w w' : World t) → Adds plan (suc n) w w' → Adds plan n w w'
  Adds-later plan n w w' (new, e, d) = (new, e, IsDue-later row plan _ n _ new d)

  abbrev done_step : Text → ChatReply → Step
  done_step prompt reply = record {
    prompt = prompt;
    output = reply.content;
    finish_reason = reply.finish_reason;
    agent = reply.agent;
  }

  Adds-step :
      (plan : List Text) (n : ℕ) (prompt : Text) (reply : ChatReply) (w v w' : World t)
      → lookup n (or_empty w.progress.steps) ≡ none
      → get_elem? plan n ≡ some prompt
      → v.calls ≡ w.calls ++ call_of n prompt w ∷ []
      → v.progress ≡ with_step n prompt reply w.progress
      → Adds plan (suc n) v w'
      → Adds plan n w w'
  unfolding with_step
  Adds-step plan n prompt reply w v w' out has one now (new, e, d) = (
    call_of n prompt w ∷ new,
    e ∙ ap (λ l. l ++ new) one ∙ append_assoc w.calls (call_of n prompt w ∷ []) new,
    (
      n,
      prompt,
      refl,
      omega arith,
      out,
      has,
      (
        is_approved n w.progress.pending_approval,
        refl,
        is_approved-IsMarked n w.progress.pending_approval,
      ),
      IsDue-before row plan none n (suc n) (or_empty w.progress.steps) (done_step prompt reply) new
          (subst
            (λ (p : Progress). IsDue row plan p.pending_approval (suc n) (or_empty p.steps) new) now
            d),
    ),
  )

  pub loop-skip :
      (prompt : Text) (rest : List Text) (n : ℕ) (w : World t) (done : Step)
      → lookup n (or_empty w.progress.steps) ≡ some done
      → loop n (prompt ∷ rest) w ≡ loop (suc n) rest w
  unfolding steps_from
  loop-skip prompt rest n w done h = ground arith

  pub loop-run :
      (prompt : Text) (rest : List Text) (n : ℕ) (w : World t)
      → lookup n (or_empty w.progress.steps) ≡ none
      → loop n (prompt ∷ rest) w ≡ bind t (run_step t env row n prompt) (λ _. loop (suc n) rest) w
  unfolding steps_from
  loop-run prompt rest n w h = ground arith

  -- The calls of a loop are due, whatever the orchestrator and the table answer.
  loop-due :
      (plan rest : List Text) (n : ℕ) (w : World t)
      → ((i : ℕ) → get_elem? plan (n + i) ≡ get_elem? rest i)
      → Adds plan n w (loop n rest w).1
  unfolding steps_from get_elem?
  loop-due plan [] n w h = ([], sym (append-nil w.calls), tt)
  loop-due plan (prompt ∷ rest) n w h =
      let tail : (i : ℕ) → get_elem? plan (suc n + i) ≡ get_elem? rest i =
        λ i. ap (get_elem? plan) (omega arith) ∙ h (suc i) in
      let has : get_elem? plan n ≡ some prompt = ap (get_elem? plan) (omega arith) ∙ h 0 in
      let (r, v) = run_step t env row n prompt w in
      elim (Option-cases (lookup n (or_empty w.progress.steps))) [
        | inr (done, recorded) ↦
            rw (loop-skip prompt rest n w done recorded)
              (Adds-later plan n w (loop (suc n) rest w).1 (loop-due plan rest (suc n) w tail))
        | inl out ↦
            rw (loop-run prompt rest n w out)
              (go has out r refl (loop-due plan rest (suc n) v tail))
      ]
    where
      go :
          get_elem? plan n ≡ some prompt
          → lookup n (or_empty w.progress.steps) ≡ none
          → (r : Outcome Error (Unit {0})) → (run_step t env row n prompt w).0 ≡ r
          → Adds plan
              (suc n)
              (run_step t env row n prompt w).1
              (loop (suc n) rest (run_step t env row n prompt w).1).1
          → Adds plan n w (proceed t r (λ _. loop (suc n) rest) (run_step t env row n prompt w).1).1
      go has out (ok _) e d =
          let (reply, now) = run_step-progress n prompt w e in
          Adds-step plan n prompt reply w (run_step t env row n prompt w).1
            (loop (suc n) rest (run_step t env row n prompt w).1).1 out has
            (run_step-calls n prompt w) now d
      go has out (raise x) e d = (
        call_of n prompt w ∷ [],
        run_step-calls n prompt w,
        (
          n,
          prompt,
          refl,
          omega arith,
          out,
          has,
          (
            is_approved n w.progress.pending_approval,
            refl,
            is_approved-IsMarked n w.progress.pending_approval,
          ),
          tt,
        ),
      )

  -- However the orchestrator and the table answer, the steps of a run are asked in the order of the
  -- plan, each at most once, with the prompt that the plan has for it and only if it is not recorded
  -- as completed; only the first of them can carry the approval, and only if the stored marker names
  -- that very step.
  pub execute_steps-IsDue :
      (plan : List Text) (w : World t)
      → (new : List Call) × ((execute_steps t env row plan w).1.calls ≡ w.calls ++ new)
        × IsDue row plan w.progress.pending_approval 0 (or_empty w.progress.steps) new
  unfolding execute_steps
  execute_steps-IsDue plan w =
      loop-due plan plan 0
        (record w { progress = record w.progress { steps = some (or_empty w.progress.steps) } })
        (λ i. ap (get_elem? plan) (omega arith))
