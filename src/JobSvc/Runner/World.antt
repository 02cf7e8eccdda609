-- ===== src/JobSvc/Runner/World.antt =====
-- services/job_svc/src/job_svc/runner.py: what a run of `JobRunner` reads and writes, and the monad
-- of its methods. The orchestrator, the clock and all other users of the jobs table are parameters;
-- each of them may act differently at every statement.
use agent_exec_platform.Common.{ℕ, suc, Bool, Option, List, [], ◌∷◌, ◌++◌, Text}
use agent_exec_platform.Common.Outcome.{Outcome, ok, raise}
use agent_exec_platform.Database.Table.{Table}
use agent_exec_platform.JobSvc.Models.{Error, JobRow, job_id, Progress}
use agent_exec_platform.JobSvc.Orchestrator.{ChatRequest, ChatReply, Rpc, chat_reply}

-- A call of the orchestrator, with the plan step that it is made for (none for the planner's turn).
pub record Call : Type 0 where
  pub index : Option ℕ
  pub request : ChatRequest

module _ (t : Table JobRow job_id) where
  pub record Environment : Type 0 where
    -- the orchestrator's answer, which may depend on all calls before
    pub rpc : List Call → ChatRequest → Rpc
    -- what other transactions did to the table before our n-th statement
    pub others : ℕ → t.Db → t.Db
    -- `now()` in our n-th statement
    pub clock : ℕ → ℕ
    -- str(exc)
    pub describe : Error → Text
    -- the decoder and the character class of `Plan.parse_plan`
    pub json_array : Text → Option (List Text)
    pub is_decimal : ℕ → Bool

  -- The table, the calls made so far in order, the statements made so far, and the local variable
  -- `progress` of `_execute`.
  pub record World : Type 0 where
    pub db : t.Db
    pub calls : List Call
    pub statements : ℕ
    pub progress : Progress

  abbrev pub Run : Type 0 → Type 0
  Run A = World → Outcome Error A × World

  abbrev pub pure : {A : Type 0} → A → Run A
  pure a w = (ok a, w)

  abbrev pub throw : {A : Type 0} → Error → Run A
  throw e w = (raise e, w)

  abbrev pub proceed : {A B : Type 0} → Outcome Error A → (A → Run B) → Run B
  proceed (ok a) f w = f a w
  proceed (raise e) f w = (raise e, w)

  abbrev pub bind : {A B : Type 0} → Run A → (A → Run B) → Run B
  bind m f w = let (r, w') = m w in proceed r f w'

  -- progress[...] = ...
  abbrev pub modify : (Progress → Progress) → Run (Unit {0})
  modify f w = (ok tt, record w { progress = f w.progress })

  abbrev pub local : Run Progress
  local w = (ok w.progress, w)

  -- A statement on the table, after what the others did.
  abbrev pub statement : {A : Type 0} → Environment → (ℕ → t.Db → Outcome Error A × t.Db) → Run A
  statement env f w =
      let (r, db') = f (env.clock w.statements) (env.others w.statements w.db) in
      (r, record w { db = db'; statements = suc w.statements })

  -- self._orchestrator.chat(...)
  abbrev pub chat : Environment → Option ℕ → ChatRequest → Run ChatReply
  chat env index request w = (
    chat_reply (env.rpc w.calls request),
    record w { calls = w.calls ++ record { index = index; request = request } ∷ [] },
  )
