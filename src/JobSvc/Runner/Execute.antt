-- ===== src/JobSvc/Runner/Execute.antt =====
-- services/job_svc/src/job_svc/runner.py: the methods of `JobRunner`. The heartbeat that `run` starts
-- beside `_execute` is one of the other users of the table (`Environment.others`).
use agent_exec_platform.Common.{
  ℕ, suc, Bool, false, Option, none, some, List, [], ◌∷◌, ◌++◌, Text, codes, text_eq, is_blank, max,
  ◌==◌, if◌then◌else◌,
}
use agent_exec_platform.Common.Outcome.{Outcome, ok, raise}
use agent_exec_platform.Database.Table.{Table}
use agent_exec_platform.JobSvc.Models.{
  JobStatus, succeeded, failed, waiting_approval, status_name, Error, approval_required,
  runner_error, key_error, JobRow, job_id, Step, Pending, Progress,
}
use agent_exec_platform.JobSvc.Jobs.Service.{update, save_progress}
use agent_exec_platform.JobSvc.Orchestrator.{chat_reply, ChatRequest, ChatReply}
use agent_exec_platform.JobSvc.Runner.Plan.{parse_plan}
use agent_exec_platform.JobSvc.Runner.World.{
  Environment, Run, pure, throw, bind, modify, local, statement, chat,
}

abbrev pub approval_finish_reason : Text
approval_finish_reason = codes "requires_approval"

abbrev pub planner_instruction : Text
planner_instruction =
    codes
      "You are a task planner. Break the user's request into the fewest self-contained sub-prompts needed, each independently executable by one agent that may make several tool calls; prefer a SINGLE prompt when the whole request can be answered in one agent turn. Return ONLY a JSON array of strings (each string one prompt), in execution order, with no surrounding text."

-- steps.get(str(index))
unfoldable pub lookup : {A : Type 0} → ℕ → List (ℕ × A) → Option A
lookup k [] = none
lookup k ((j, v) ∷ m) = if j == k then some v else lookup k m

-- max(int(key) for key in steps), for a dict with at least the key `k`
unfoldable pub last_index : {A : Type 0} → ℕ → List (ℕ × A) → ℕ
last_index k [] = k
last_index k ((j, v) ∷ m) = last_index (max k j) m

abbrev pub or_empty : {A : Type 0} → Option (List A) → List A
or_empty none = []
or_empty (some l) = l

-- _prompt_of
unfoldable pub prompt_of : JobRow → Outcome Error Text
unfolding is_blank
prompt_of row = elim row.spec.agent_execution_spec [
  | none ↦ raise (runner_error row.id)
  | some s ↦ elim s.instructions [
    | none ↦ raise (runner_error row.id)
    | some prompt ↦ if is_blank prompt then raise (runner_error row.id) else ok prompt
  ]
]

unfoldable pub planner_request : JobRow → Text → ChatRequest
planner_request row prompt = record {
  tenant_id = row.tenant_id;
  messages =
      record { role = codes "system"; content = planner_instruction }
      ∷ record { role = codes "user"; content = prompt }
      ∷ [];
  approved = false;
}

unfoldable pub step_request : JobRow → Text → Bool → ChatRequest
step_request row sub_prompt approved = record {
  tenant_id = row.tenant_id;
  messages = record { role = codes "user"; content = sub_prompt } ∷ [];
  approved = approved;
}

-- bool(pending) and pending.get("step") == index
unfoldable pub is_approved : ℕ → Option Pending → Bool
is_approved index none = false
is_approved index (some p) = p.step == index

-- The assignments of `_ensure_plan` to `progress`.
unfoldable pub with_plan : List Text → Progress → Progress
with_plan plan p = record p {
  plan = some plan;
  phase = some (codes "executing");
  steps = some (or_empty p.steps);
}

-- A step that completed: the marker of a pause is cleared and the step recorded.
unfoldable pub with_step : ℕ → Text → ChatReply → Progress → Progress
with_step index sub_prompt reply p =
    let done : Step = record {
      prompt = sub_prompt;
      output = reply.content;
      finish_reason = reply.finish_reason;
      agent = reply.agent;
    } in
    record p { pending_approval = none; steps = some (or_empty p.steps ++ (index, done) ∷ []) }

-- A step that paused.
unfoldable pub with_pause : ℕ → Text → ChatReply → Progress → Progress
with_pause index sub_prompt reply p = record p {
  pending_approval = some (record { step = index; prompt = sub_prompt; detail = reply.content });
}

module _ (t : Table JobRow job_id) (env : Environment t) where
  infixl 5 ◌>>=◌ ◌>>◌
  abbrev ◌>>=◌ : {A B : Type 0} → Run t A → (A → Run t B) → Run t B
  m >>= f = bind t m f

  abbrev ◌>>◌ : {B : Type 0} → Run t (Unit {0}) → Run t B → Run t B
  m >> n = bind t m (λ _. n)

  -- self._jobs.save_progress(job_id=row.id, progress=progress)
  unfoldable pub checkpoint : JobRow → Run t (Unit {0})
  unfolding save_progress
  checkpoint row w = statement t env (save_progress t row.id w.progress) w

  -- self._jobs.update(tenant_id=row.tenant_id, job_id=row.id, status=status)
  unfoldable pub report : JobRow → JobStatus → Run t JobRow
  unfolding update status_name
  report row status w = statement t env (update t row.tenant_id row.id (status_name status)) w

  -- The part of `_ensure_plan` after the reply.
  unfoldable pub adopt_plan : JobRow → List Text → Run t (List Text)
  unfolding checkpoint with_plan
  adopt_plan row [] = throw t (runner_error row.id)
  adopt_plan row (p ∷ ps) = do modify t (with_plan (p ∷ ps)); checkpoint row; pure t (p ∷ ps)

  -- The part of `_ensure_plan` without a stored plan.
  unfoldable pub make_plan : JobRow → Text → Run t (List Text)
  unfolding parse_plan adopt_plan planner_request chat_reply
  make_plan row prompt = do
    reply ← chat t env none (planner_request row prompt)
    adopt_plan row (parse_plan env.is_decimal env.json_array reply.content)

  -- _ensure_plan, given `progress.get("plan")`; an empty stored plan counts as none
  unfoldable pub plan_or : JobRow → Text → Option (List Text) → Run t (List Text)
  unfolding make_plan
  plan_or row prompt none = make_plan row prompt
  plan_or row prompt (some []) = make_plan row prompt
  plan_or row prompt (some (p ∷ ps)) = pure t (p ∷ ps)

  -- _ensure_plan
  unfoldable pub ensure_plan : JobRow → Text → Run t (List Text)
  unfolding plan_or
  ensure_plan row prompt w = plan_or row prompt w.progress.plan w

  -- What the loop of `_execute_steps` does with the reply to one step: it pauses, or it is recorded.
  unfoldable pub settle_step : JobRow → ℕ → Text → ChatReply → Run t (Unit {0})
  unfolding checkpoint with_step with_pause text_eq
  settle_step row index sub_prompt reply =
      if text_eq reply.finish_reason approval_finish_reason
      then (do
        modify t (with_pause index sub_prompt reply)
        checkpoint row
        throw t approval_required)
      else (do modify t (with_step index sub_prompt reply); checkpoint row)

  -- The body of the loop, for a step that is not recorded.
  unfoldable pub run_step : JobRow → ℕ → Text → Run t (Unit {0})
  unfolding settle_step step_request is_approved chat_reply
  run_step row index sub_prompt = do
    p ← local t
    reply ←
        chat t env (some index) (step_request row sub_prompt (is_approved index p.pending_approval))
    settle_step row index sub_prompt reply

  -- The loop of `_execute_steps`, from a step on; a recorded step is skipped.
  unfoldable pub steps_from : JobRow → ℕ → List Text → Run t (Unit {0})
  unfolding run_step lookup
  steps_from row index [] w = (ok tt, w)
  steps_from row index (sub_prompt ∷ plan) w =
      let rest = steps_from row (suc index) plan in
      elim (lookup index (or_empty w.progress.steps)) [
        | some done ↦ rest w
        | none ↦ (run_step row index sub_prompt >> rest) w
      ]

  -- _execute_steps
  unfoldable pub execute_steps : JobRow → List Text → Run t (Unit {0})
  unfolding steps_from
  execute_steps row plan = do
    modify t (λ p. record p { steps = some (or_empty p.steps) })
    steps_from row 0 plan

  abbrev pub result_of : ℕ → Option Step → Run t (Unit {0})
  result_of k none = throw t (key_error k)
  result_of k (some s) = modify t (λ p. record p { result = some s.output })

  -- The branch `if steps:` of `_finalize`.
  unfoldable pub set_result : List (ℕ × Step) → Run t (Unit {0})
  unfolding last_index lookup
  set_result [] = pure t tt
  set_result ((k, s) ∷ m) = let last = last_index k m in result_of last (lookup last ((k, s) ∷ m))

  -- _finalize
  unfoldable pub finalize : JobRow → Run t (Unit {0})
  unfolding set_result checkpoint report
  finalize row = do
    modify t (λ p. record p { phase = some (codes "completed"); error = none })
    p ← local t
    set_result (or_empty p.steps)
    checkpoint row
    done ← report row succeeded
    pure t tt

  -- The body of the `try` of `_execute`, given what `_prompt_of` does.
  unfoldable pub attempt : JobRow → Run t (Unit {0})
  unfolding prompt_of ensure_plan execute_steps finalize
  attempt row = do
    prompt ← (λ w. (prompt_of row, w))
    plan ← ensure_plan row prompt
    execute_steps row plan
    finalize row

  -- The handlers of `_execute`.
  unfoldable pub recover : JobRow → Outcome Error (Unit {0}) → Run t (Unit {0})
  unfolding checkpoint
  recover row (ok _) = pure t tt
  recover row (raise approval_required) = throw t approval_required
  recover row (raise e) = do
    modify t (λ p. record p { error = some (env.describe e) })
    checkpoint row
    throw t e

  -- _execute; the local variable starts as the stored progress
  unfoldable pub execute : JobRow → Run t (Unit {0})
  unfolding attempt recover
  execute row w =
      let (r, w') = attempt row (record w { progress = row.progress }) in recover row r w'

  -- The handlers of `run`: `_mark_waiting_approval` and `_mark_failed`.
  unfoldable pub conclude : JobRow → Outcome Error (Unit {0}) → Run t (Unit {0})
  unfolding report
  conclude row (ok _) = pure t tt
  conclude row (raise approval_required) = do parked ← report row waiting_approval; pure t tt
  conclude row (raise e) = do updated ← report row failed; pure t tt

  -- run
  unfoldable pub run : JobRow → Run t (Unit {0})
  unfolding execute conclude
  run row w = let (r, w') = execute row w in conclude row r w'
