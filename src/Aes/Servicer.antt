-- ===== src/Aes/Servicer.antt =====
-- services/agent_execution_service/src/agent_execution_service/servicer.py: the handlers of the RPCs, from
-- the metadata and the request to the response or the status code, over the services. `new_id()` and
-- `now()` are arguments; an exception that is no `AppError` is an internal error too.
use agent_exec_platform.Common.{ℕ, Bool, Option, List, map, Text, if◌then◌else◌}
use agent_exec_platform.Common.Outcome.{Outcome, ok, raise, ◌>>=◌}
use agent_exec_platform.Common.Grpc.{
  StatusCode, code_not_found, code_invalid_argument, code_unauthenticated, code_already_exists,
  code_failed_precondition, code_internal,
}
use agent_exec_platform.Database.Table.{Table}
use agent_exec_platform.Aes.Models.{
  AppError, not_found, validation, authentication, conflict, state, app_error, TaskRow, task_id,
  JobGateway,
}
use agent_exec_platform.Aes.Progress.{Floats, TaskProgressView}
use agent_exec_platform.Aes.Tools.{ToolRow, tool_id, get_tools}
use agent_exec_platform.Aes.Agents.{
  AgentRow, agent_id, AgentFields, Catalog, Listed, create_agent, get_agents, has_any, update_agent,
  delete_agent, add_tool, change_tool_row, remove_tool,
}
use agent_exec_platform.Aes.Tasks.{create, get, approve, retry, get_progress}
use agent_exec_platform.Aes.Mappers.{
  Agent, Tool, Task, TaskProgress, agent_to_proto, tool_to_proto, task_to_proto,
  task_progress_to_proto,
}
use agent_exec_platform.Aes.Validators.{
  tenant_id_from_metadata, validate_task_input, validate_text, validate_agent_tool_ids,
  validate_filter_ids,
}

-- _handle_errors with _STATUS_BY_ERROR
unfoldable pub status_by_error : AppError → StatusCode
status_by_error (not_found id) = code_not_found
status_by_error validation = code_invalid_argument
status_by_error authentication = code_unauthenticated
status_by_error conflict = code_already_exists
status_by_error state = code_failed_precondition
status_by_error app_error = code_internal

-- The responses of the RPCs.
pub data Response (Number Percent : Type 0) : Type 0 where
  agent_response : Agent Number → Response Number Percent
  agents_response : List (Agent Number) → Response Number Percent
  tool_response : Tool → Response Number Percent
  tools_response : List Tool → Response Number Percent
  task_response : Task → Response Number Percent
  tasks_response : List Task → Response Number Percent
  progress_response : TaskProgress Percent → Response Number Percent
  success : Response Number Percent

abbrev pub agent_checks :
    {Number : Type 0} → AgentFields Number → List Text → Outcome AppError (Unit {0})
agent_checks fields tool_ids =
    validate_text fields.name
    >>= (λ u. validate_text fields.instructions >>= (λ u. validate_agent_tool_ids tool_ids))

module _ {Number : Type 0} (agents : Table (AgentRow Number) agent_id)
    (tools : Table ToolRow tool_id) (tasks : Table TaskRow task_id) (jobs : JobGateway)
    (f : Floats) where
  -- The tables of the service and the state of job_svc.
  pub record World : Type 0 where
    pub catalog : Catalog agents tools
    pub task_rows : tasks.Db
    pub job_state : jobs.State

  abbrev pub Reply : Type 0
  Reply = Response Number f.Number

  abbrev coded : Outcome AppError Reply × World → Outcome StatusCode Reply × World
  coded (ok r, w) = (ok r, w)
  coded (raise e, w) = (raise (status_by_error e), w)

  -- A handler: the tenant of the metadata, the validation of the request, and what it does then.
  unfoldable pub handled :
      Option Text
      → Outcome AppError (Unit {0})
      → (Text → World → Outcome AppError Reply × World)
      → World
      → Outcome StatusCode Reply × World
  unfolding tenant_id_from_metadata status_by_error
  handled header checks body w = elim (tenant_id_from_metadata header) [
    | raise e ↦ (raise (status_by_error e), w)
    | ok tenant ↦ elim checks [
      | raise e ↦ (raise (status_by_error e), w)
      | ok u ↦ coded (body tenant w)
    ]
  ]

  abbrev in_catalog :
      {A : Type 0}
      → (A → Reply)
      → World
      → Outcome AppError A × Catalog agents tools
      → Outcome AppError Reply × World
  in_catalog reply w (ok a, c) = (ok (reply a), record w { catalog = c })
  in_catalog reply w (raise e, c) = (raise e, record w { catalog = c })

  abbrev in_tasks :
      {A : Type 0}
      → (A → Reply)
      → World
      → Outcome AppError A × tasks.Db × jobs.State
      → Outcome AppError Reply × World
  in_tasks reply w (ok a, db, s) = (ok (reply a), record w { task_rows = db; job_state = s })
  in_tasks reply w (raise e, db, s) = (raise e, record w { task_rows = db; job_state = s })

  abbrev succeed : {A : Type 0} → A → Reply
  succeed a = success

  abbrev agent_reply : Listed agents tools → Reply
  agent_reply a = agent_response (agent_to_proto a)

  -- CreateAgent
  unfoldable pub handle_create_agent :
      Text
      → ℕ
      → Option Text
      → AgentFields Number
      → List Text
      → World
      → Outcome StatusCode Reply × World
  unfolding validate_text validate_agent_tool_ids create_agent agent_to_proto
  handle_create_agent id now header fields tool_ids w =
      handled header (agent_checks fields tool_ids)
        (λ tenant w.
          in_catalog agent_reply w
            (create_agent agents tools id now tenant fields tool_ids w.catalog))
        w

  -- GetAgent
  unfoldable pub handle_get_agent :
      Option Text → List Text → World → Outcome StatusCode Reply × World
  unfolding validate_filter_ids get_agents agent_to_proto
  handle_get_agent header ids w =
      handled header (validate_filter_ids ids)
        (λ tenant w. (
          ok (agents_response (map agent_to_proto (get_agents agents tools tenant ids w.catalog))),
          w,
        ))
        w

  -- UpdateAgent
  unfoldable pub handle_update_agent :
      ℕ
      → Option Text
      → Text
      → AgentFields Number
      → List Text
      → World
      → Outcome StatusCode Reply × World
  unfolding validate_text validate_agent_tool_ids update_agent agent_to_proto
  handle_update_agent now header id fields tool_ids w =
      handled header (validate_text id >>= (λ u. agent_checks fields tool_ids))
        (λ tenant w.
          in_catalog agent_reply w
            (update_agent agents tools tenant id now fields tool_ids w.catalog))
        w

  -- DeleteAgent
  unfoldable pub handle_delete_agent : Option Text → Text → World → Outcome StatusCode Reply × World
  unfolding validate_text delete_agent
  handle_delete_agent header id w =
      handled header (validate_text id)
        (λ tenant w. in_catalog succeed w (delete_agent agents tools tenant id w.catalog)) w

  abbrev tool_reply : ToolRow → Reply
  tool_reply r = tool_response (tool_to_proto r)

  -- CreateTool
  unfoldable pub handle_create_tool :
      Text → ℕ → Option Text → Text → Option Text → Bool → World → Outcome StatusCode Reply × World
  unfolding validate_text add_tool tool_to_proto
  handle_create_tool id now header name description mutating w =
      handled header (validate_text name)
        (λ tenant w.
          in_catalog tool_reply w
            (add_tool agents tools id now tenant name description mutating w.catalog))
        w

  -- GetTool
  unfoldable pub handle_get_tool :
      Option Text → List Text → World → Outcome StatusCode Reply × World
  unfolding validate_filter_ids get_tools tool_to_proto
  handle_get_tool header ids w =
      handled header (validate_filter_ids ids)
        (λ tenant w. (
          ok (tools_response (map tool_to_proto (get_tools tools tenant ids w.catalog.tool_rows))),
          w,
        ))
        w

  -- UpdateTool
  unfoldable pub handle_update_tool :
      ℕ → Option Text → Text → Text → Text → Bool → World → Outcome StatusCode Reply × World
  unfolding validate_text change_tool_row tool_to_proto
  handle_update_tool now header id name description mutating w =
      handled header (validate_text id >>= (λ u. validate_text name))
        (λ tenant w.
          in_catalog tool_reply w
            (change_tool_row agents tools tenant id now name description mutating w.catalog))
        w

  -- DeleteTool
  unfoldable pub handle_delete_tool : Option Text → Text → World → Outcome StatusCode Reply × World
  unfolding validate_text remove_tool
  handle_delete_tool header id w =
      handled header (validate_text id)
        (λ tenant w. in_catalog succeed w (remove_tool agents tools tenant id w.catalog)) w

  abbrev task_reply : TaskRow → Reply
  task_reply r = task_response (task_to_proto r)

  -- CreateTask; a tenant with no agent has nothing to run a task against
  unfoldable pub handle_create_task :
      Text → ℕ → Option Text → Text → World → Outcome StatusCode Reply × World
  unfolding validate_task_input has_any create task_to_proto
  handle_create_task id now header input w =
      handled header (validate_task_input input)
        (λ tenant w.
          if has_any agents tools tenant w.catalog
          then in_tasks task_reply w (create tasks jobs id now tenant input w.task_rows w.job_state)
          else (raise state, w))
        w

  abbrev tasks_reply : World → List TaskRow × tasks.Db × jobs.State → Outcome AppError Reply × World
  tasks_reply w (rows, db, s) =
      (ok (tasks_response (map task_to_proto rows)), record w { task_rows = db; job_state = s })

  -- GetTask
  unfoldable pub handle_get_task :
      ℕ → Option Text → List Text → World → Outcome StatusCode Reply × World
  unfolding validate_filter_ids get task_to_proto
  handle_get_task now header ids w =
      handled header (validate_filter_ids ids)
        (λ tenant w. tasks_reply w (get tasks jobs tenant ids now w.task_rows w.job_state)) w

  -- ApproveTask
  unfoldable pub handle_approve_task :
      ℕ → Option Text → Text → World → Outcome StatusCode Reply × World
  unfolding validate_text approve
  handle_approve_task now header id w =
      handled header (validate_text id)
        (λ tenant w. in_tasks succeed w (approve tasks jobs tenant id now w.task_rows w.job_state))
        w

  -- RetryTask
  unfoldable pub handle_retry_task :
      ℕ → Option Text → Text → World → Outcome StatusCode Reply × World
  unfolding validate_text retry
  handle_retry_task now header id w =
      handled header (validate_text id)
        (λ tenant w. in_tasks succeed w (retry tasks jobs tenant id now w.task_rows w.job_state)) w

  abbrev progress_reply :
      World
      → Outcome AppError (TaskProgressView f.Number) × jobs.State
      → Outcome AppError Reply × World
  progress_reply w (ok v, s) =
      (ok (progress_response (task_progress_to_proto v)), record w { job_state = s })
  progress_reply w (raise e, s) = (raise e, record w { job_state = s })

  -- GetTaskProgress
  unfoldable pub handle_get_task_progress :
      Option Text → Text → World → Outcome StatusCode Reply × World
  unfolding validate_text get_progress task_progress_to_proto
  handle_get_task_progress header id w =
      handled header (validate_text id)
        (λ tenant w. progress_reply w (get_progress tasks jobs f tenant id w.task_rows w.job_state))
        w
