-- ===== src/Aes/Edge.antt =====
-- services/agent_execution_service/src/agent_execution_service/servicer.py: which requests are turned away
-- before any service is called.
use agent_exec_platform.Common.{
  ℕ, true, false, ◌||◌, Option, none, some, [], ◌∷◌, Text, length, ltb, is_blank, is_truthy,
  if◌then◌else◌, ◌≡◌, refl, ap, ◌∙◌, Bool-cases, inl, inr, arith,
}
use mathlib.Core.Option.{some-injective}
use agent_exec_platform.Common.Outcome.{Outcome, ok, raise}
use agent_exec_platform.Common.Grpc.{
  StatusCode, code_invalid_argument, code_unauthenticated, code_failed_precondition,
}
use agent_exec_platform.Database.Table.{Table}
use agent_exec_platform.Aes.Models.{AppError, validation, state, TaskRow, task_id, JobGateway}
use agent_exec_platform.Aes.Progress.{Floats}
use agent_exec_platform.Aes.Tools.{ToolRow, tool_id}
use agent_exec_platform.Aes.Agents.{AgentRow, agent_id, has_any}
use agent_exec_platform.Aes.Validators.{tenant_id_from_metadata, validate_task_input, max_input_len}
use agent_exec_platform.Aes.Servicer.{
  World, Reply, handled, status_by_error, handle_create_agent, handle_get_agent,
  handle_update_agent, handle_delete_agent, handle_create_tool, handle_get_tool, handle_update_tool,
  handle_delete_tool, handle_create_task, handle_get_task, handle_approve_task, handle_retry_task,
  handle_get_task_progress,
}
use agent_exec_platform.Aes.Malformed.{
  Rpc, create_agent, update_agent, create_tool, update_tool, get_agent, get_tool, get_task,
  delete_agent, delete_tool, approve_task, retry_task, get_task_progress, create_task, is_malformed,
  names_tenant, filter_lem, then_lem, text_lem, agent_lem, input_lem,
}

module _ {Number : Type 0} (agents : Table (AgentRow Number) agent_id)
    (tools : Table ToolRow tool_id) (tasks : Table TaskRow task_id) (jobs : JobGateway) (f : Floats)
    (id : Text) (now : ℕ) where
  -- The handler of each request.
  abbrev pub serve :
      Option Text
      → Rpc Number
      → World agents tools tasks jobs f
      → Outcome StatusCode (Reply agents tools tasks jobs f) × World agents tools tasks jobs f
  serve header (create_agent fields ids) w =
      handle_create_agent agents tools tasks jobs f id now header fields ids w
  serve header (update_agent i fields ids) w =
      handle_update_agent agents tools tasks jobs f now header i fields ids w
  serve header (create_tool name description mutating) w =
      handle_create_tool agents tools tasks jobs f id now header name description mutating w
  serve header (update_tool i name description mutating) w =
      handle_update_tool agents tools tasks jobs f now header i name description mutating w
  serve header (get_agent ids) w = handle_get_agent agents tools tasks jobs f header ids w
  serve header (get_tool ids) w = handle_get_tool agents tools tasks jobs f header ids w
  serve header (get_task ids) w = handle_get_task agents tools tasks jobs f now header ids w
  serve header (delete_agent i) w = handle_delete_agent agents tools tasks jobs f header i w
  serve header (delete_tool i) w = handle_delete_tool agents tools tasks jobs f header i w
  serve header (approve_task i) w = handle_approve_task agents tools tasks jobs f now header i w
  serve header (retry_task i) w = handle_retry_task agents tools tasks jobs f now header i w
  serve header (get_task_progress i) w =
      handle_get_task_progress agents tools tasks jobs f header i w
  serve header (create_task input) w =
      handle_create_task agents tools tasks jobs f id now header input w

  -- No tenant, no call.
  handled-none :
      (header : Option Text) (checks : Outcome AppError (Unit {0}))
      (body : Text
        → World agents tools tasks jobs f
        → Outcome AppError (Reply agents tools tasks jobs f) × World agents tools tasks jobs f)
      (w : World agents tools tasks jobs f)
      → names_tenant header ≡ false
      → handled agents tools tasks jobs f header checks body w ≡ (raise code_unauthenticated, w)
  unfolding handled tenant_id_from_metadata status_by_error is_truthy
  handled-none none checks body w h = refl
  handled-none (some []) checks body w h = refl
  handled-none (some (c ∷ s)) checks body w h = ground (arith, h)

  handled-invalid :
      (header : Option Text) (checks : Outcome AppError (Unit {0}))
      (body : Text
        → World agents tools tasks jobs f
        → Outcome AppError (Reply agents tools tasks jobs f) × World agents tools tasks jobs f)
      (w : World agents tools tasks jobs f)
      → names_tenant header ≡ true
      → checks ≡ raise validation
      → handled agents tools tasks jobs f header checks body w ≡ (raise code_invalid_argument, w)
  unfolding handled tenant_id_from_metadata status_by_error is_truthy
  handled-invalid none checks body w h e = ground (arith, h)
  handled-invalid (some []) checks body w h e = ground (arith, h)
  handled-invalid (some (c ∷ s)) (ok u) body w h e = ground (arith, e)
  handled-invalid (some (c ∷ s)) (raise x) body w h e =
      ap
        (λ (o : Outcome AppError (Unit {0})).
          handled agents tools tasks jobs f (some (c ∷ s)) o body w)
        e

  serve-none :
      (header : Option Text) (q : Rpc Number) (w : World agents tools tasks jobs f)
      → names_tenant header ≡ false
      → serve header q w ≡ (raise code_unauthenticated, w)
  unfolding handle_create_agent handle_update_agent handle_create_tool handle_update_tool
      handle_get_agent handle_get_tool handle_get_task handle_delete_agent handle_delete_tool
      handle_approve_task handle_retry_task handle_get_task_progress handle_create_task
  serve-none header (create_agent fields ids) w h = handled-none header _ _ w h
  serve-none header (update_agent i fields ids) w h = handled-none header _ _ w h
  serve-none header (create_tool name description mutating) w h = handled-none header _ _ w h
  serve-none header (update_tool i name description mutating) w h = handled-none header _ _ w h
  serve-none header (get_agent ids) w h = handled-none header _ _ w h
  serve-none header (get_tool ids) w h = handled-none header _ _ w h
  serve-none header (get_task ids) w h = handled-none header _ _ w h
  serve-none header (delete_agent i) w h = handled-none header _ _ w h
  serve-none header (delete_tool i) w h = handled-none header _ _ w h
  serve-none header (approve_task i) w h = handled-none header _ _ w h
  serve-none header (retry_task i) w h = handled-none header _ _ w h
  serve-none header (get_task_progress i) w h = handled-none header _ _ w h
  serve-none header (create_task input) w h = handled-none header _ _ w h

  serve-invalid :
      (header : Option Text) (q : Rpc Number) (w : World agents tools tasks jobs f)
      → names_tenant header ≡ true
      → is_malformed q ≡ true
      → serve header q w ≡ (raise code_invalid_argument, w)
  unfolding handle_create_agent handle_update_agent handle_create_tool handle_update_tool
      handle_get_agent handle_get_tool handle_get_task handle_delete_agent handle_delete_tool
      handle_approve_task handle_retry_task handle_get_task_progress handle_create_task
  serve-invalid header (create_agent fields ids) w h e =
      handled-invalid header _ _ w h (agent_lem fields ids e)
  serve-invalid header (update_agent i fields ids) w h e =
      handled-invalid header _ _ w h
        (then_lem i (is_malformed (create_agent fields ids)) _ (agent_lem fields ids) e)
  serve-invalid header (create_tool name description mutating) w h e =
      handled-invalid header _ _ w h (text_lem name e)
  serve-invalid header (update_tool i name description mutating) w h e =
      handled-invalid header _ _ w h (then_lem i (is_blank name) _ (text_lem name) e)
  serve-invalid header (get_agent ids) w h e = handled-invalid header _ _ w h (filter_lem ids e)
  serve-invalid header (get_tool ids) w h e = handled-invalid header _ _ w h (filter_lem ids e)
  serve-invalid header (get_task ids) w h e = handled-invalid header _ _ w h (filter_lem ids e)
  serve-invalid header (delete_agent i) w h e = handled-invalid header _ _ w h (text_lem i e)
  serve-invalid header (delete_tool i) w h e = handled-invalid header _ _ w h (text_lem i e)
  serve-invalid header (approve_task i) w h e = handled-invalid header _ _ w h (text_lem i e)
  serve-invalid header (retry_task i) w h e = handled-invalid header _ _ w h (text_lem i e)
  serve-invalid header (get_task_progress i) w h e = handled-invalid header _ _ w h (text_lem i e)
  serve-invalid header (create_task input) w h e =
      handled-invalid header _ _ w h (input_lem input e)

  handled-state :
      (c : ℕ) (s : Text) (checks : Outcome AppError (Unit {0}))
      (body : Text
        → World agents tools tasks jobs f
        → Outcome AppError (Reply agents tools tasks jobs f) × World agents tools tasks jobs f)
      (w : World agents tools tasks jobs f)
      → checks ≡ ok tt
      → body (c ∷ s) w ≡ (raise state, w)
      → handled agents tools tasks jobs f (some (c ∷ s)) checks body w
        ≡ (raise code_failed_precondition, w)
  unfolding handled tenant_id_from_metadata status_by_error
  handled-state c s (raise x) body w e h = ground (arith, e)
  handled-state c s (ok u) body w e h = rw h refl

  valid_input :
      (input : Text)
      → (is_blank input || ltb max_input_len (length input)) ≡ false
      → validate_task_input input ≡ ok tt
  unfolding validate_task_input
  valid_input input h = ground (arith, h)

  create_task-state :
      (c : ℕ) (tenant input : Text) (w : World agents tools tasks jobs f)
      → is_malformed {Number = Number} (create_task input) ≡ false
      → has_any agents tools (c ∷ tenant) w.catalog ≡ false
      → serve (some (c ∷ tenant)) (create_task input) w ≡ (raise code_failed_precondition, w)
  unfolding handle_create_task
  create_task-state c tenant input w valid h =
      handled-state c tenant _ _ w (valid_input input valid) (rw h refl)

  -- The code of a request of a tenant that may run no task.
  abbrev pub gate : Text → Rpc Number → World agents tools tasks jobs f → Option StatusCode
  gate tenant (create_task input) w =
      if has_any agents tools tenant w.catalog then none else some code_failed_precondition
  gate tenant q w = none

  -- The code that a request is turned away with, if it is: without a tenant, malformed, or a task
  -- of a tenant that has no agent.
  abbrev pub rejection :
      Option Text → Rpc Number → World agents tools tasks jobs f → Option StatusCode
  rejection none q w = some code_unauthenticated
  rejection (some []) q w = some code_unauthenticated
  rejection (some (c ∷ s)) q w =
      if is_malformed q then some code_invalid_argument else gate (c ∷ s) q w

  gate-rejected :
      (c : ℕ) (s : Text) (q : Rpc Number) (w : World agents tools tasks jobs f) (code : StatusCode)
      → is_malformed q ≡ false
      → gate (c ∷ s) q w ≡ some code
      → serve (some (c ∷ s)) q w ≡ (raise code, w)
  gate-rejected c s (create_task input) w code valid h =
      elim (Bool-cases (has_any agents tools (c ∷ s) w.catalog)) [
        | inl e ↦ ground (arith, e, h)
        | inr e ↦
            let same : code_failed_precondition ≡ code = some-injective _ _ (rw e at h) in
            create_task-state c s input w valid e ∙ ap (λ k. (raise k, w)) same
      ]
  gate-rejected c s (create_agent fields ids) w code valid h = ground (arith, h)
  gate-rejected c s (update_agent i fields ids) w code valid h = ground (arith, h)
  gate-rejected c s (create_tool name description mutating) w code valid h = ground (arith, h)
  gate-rejected c s (update_tool i name description mutating) w code valid h = ground (arith, h)
  gate-rejected c s (get_agent ids) w code valid h = ground (arith, h)
  gate-rejected c s (get_tool ids) w code valid h = ground (arith, h)
  gate-rejected c s (get_task ids) w code valid h = ground (arith, h)
  gate-rejected c s (delete_agent i) w code valid h = ground (arith, h)
  gate-rejected c s (delete_tool i) w code valid h = ground (arith, h)
  gate-rejected c s (approve_task i) w code valid h = ground (arith, h)
  gate-rejected c s (retry_task i) w code valid h = ground (arith, h)
  gate-rejected c s (get_task_progress i) w code valid h = ground (arith, h)

  -- A request that is turned away gets its code (no tenant: unauthenticated; a malformed field: an
  -- invalid argument; a task of a tenant without agents: a failed precondition), and leaves the
  -- tables of the service and the state of job_svc as they were.
  pub serve-rejected :
      (header : Option Text) (q : Rpc Number) (w : World agents tools tasks jobs f)
      (code : StatusCode)
      → rejection header q w ≡ some code
      → serve header q w ≡ (raise code, w)
  serve-rejected none q w code h =
      serve-none none q w refl ∙ ap (λ k. (raise k, w)) (some-injective _ _ h)
  serve-rejected (some []) q w code h =
      serve-none (some []) q w (ground arith) ∙ ap (λ k. (raise k, w)) (some-injective _ _ h)
  serve-rejected (some (c ∷ s)) q w code h = elim (Bool-cases (is_malformed q)) [
    | inl e ↦
        serve-invalid (some (c ∷ s)) q w (ground arith) e
        ∙ ap (λ k. (raise k, w)) (some-injective _ _ (rw e at h))
    | inr e ↦ gate-rejected c s q w code e (rw e at h)
  ]
