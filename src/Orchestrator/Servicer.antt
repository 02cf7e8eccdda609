-- ===== src/Orchestrator/Servicer.antt =====
-- services/orchestrator/src/orchestrator/servicer.py, auth.py and run.py: the Chat RPC, from the metadata to
-- the result of a group chat or the status code. The run of a team in AutoGen is a parameter: what
-- it gives, or raises, and what it leaves of the workbenches, the clients' usage and the world.
use agent_exec_platform.Common.{ℕ, Bool, Option, none, some, List, [], ◌∷◌, map, Text, codes}
use agent_exec_platform.Common.Outcome.{Outcome, ok, raise}
use agent_exec_platform.Common.Grpc.{
  StatusCode, code_unauthenticated, code_failed_precondition, code_internal, code_unavailable,
  code_deadline_exceeded, code_resource_exhausted,
}
use agent_exec_platform.Orchestrator.AgentsRepo.{AgentSpec}
use agent_exec_platform.Orchestrator.Slugs.{Characters}
use agent_exec_platform.Orchestrator.Workbench.{Workbench}
use agent_exec_platform.Orchestrator.Chat.{TeamMessage, Usage, ChatResult, is_planning, chat_result}
use agent_exec_platform.Orchestrator.Team.{GroupChatSession, ChatError, no_agents, build_group_chat}

-- What the run of a team raises: a failed call of the gateway with its code, or anything else.
pub data TeamFailure : Type 0 where
  gateway_failed : StatusCode → TeamFailure
  unexpected : TeamFailure

-- What a chat raises: AppError and its subclasses, or what the run of a team raises.
pub data Failure : Type 0 where
  authentication : Failure
  agents_missing : Failure
  team_failed : TeamFailure → Failure

-- The code, if it is in _PROPAGATED_UPSTREAM.
unfoldable pub propagated : StatusCode → StatusCode
propagated code_unavailable = code_unavailable
propagated code_deadline_exceeded = code_deadline_exceeded
propagated code_resource_exhausted = code_resource_exhausted
propagated _ = code_internal

-- _handle_errors with _STATUS_BY_ERROR
unfoldable pub code_of_failure : Failure → StatusCode
unfolding propagated
code_of_failure authentication = code_unauthenticated
code_of_failure agents_missing = code_failed_precondition
code_of_failure (team_failed (gateway_failed code)) = propagated code
code_of_failure (team_failed unexpected) = code_internal

-- tenant_id_from_metadata, given the header
unfoldable pub tenant_of_header : Option Text → Outcome Failure Text
tenant_of_header none = raise authentication
tenant_of_header (some []) = raise authentication
tenant_of_header (some (c ∷ s)) = ok (c ∷ s)

pub record InputMessage : Type 0 where
  pub role : Text
  pub content : Text

abbrev role_or_user : Text → Text
role_or_user [] = codes "user"
role_or_user (c ∷ s) = c ∷ s

abbrev pub role_of : InputMessage → Text
role_of m = m.role

-- The task that the team gets.
unfoldable pub task_of : List InputMessage → List TeamMessage
task_of [] = []
task_of (m ∷ ms) = record { source = role_or_user m.role; content = some m.content } ∷ task_of ms

-- What the run of a team gives, and the workbenches and the usage of the clients after it.
pub record TeamResult : Type 0 where
  pub messages : List TeamMessage
  pub stop_reason : Option Text
  pub workbenches : List Workbench
  pub usages : List Usage

module _ {Number World : Type 0} (zero_temperature : Number) (repr : Text → Text) (k : Characters)
    (max_messages : ℕ)
    (run_team : GroupChatSession Number
      → List TeamMessage
      → World
      → Outcome TeamFailure TeamResult × World) where
  abbrev pub finished :
      GroupChatSession Number
      → Outcome TeamFailure TeamResult × World
      → Outcome Failure ChatResult × World
  finished session (raise e, w) = (raise (team_failed e), w)
  finished session (ok r, w) =
      (ok (chat_result r.workbenches session.name_by_slug r.messages r.stop_reason r.usages), w)

  -- The part of `run_chat` after the session is built; a loop of `_slugify` that never ended would
  -- give none.
  abbrev pub run_session :
      List InputMessage
      → World
      → Option (Outcome ChatError (GroupChatSession Number))
      → Outcome Failure ChatResult × World
  run_session messages w none = (raise (team_failed unexpected), w)
  run_session messages w (some (raise no_agents)) = (raise agents_missing, w)
  run_session messages w (some (ok session)) =
      finished session (run_team session (task_of messages) w)

  -- run_chat, given the agents of the tenant
  unfoldable pub run_chat :
      Text
      → List InputMessage
      → Bool
      → List (AgentSpec Number)
      → World
      → Outcome Failure ChatResult × World
  unfolding is_planning build_group_chat task_of chat_result
  run_chat tenant messages approved specs w = run_session messages w (
      build_group_chat zero_temperature repr k max_messages tenant approved
        (is_planning (map role_of messages)) specs)

  abbrev pub coded : Outcome Failure ChatResult × World → Outcome StatusCode ChatResult × World
  coded (ok r, w) = (ok r, w)
  coded (raise e, w) = (raise (code_of_failure e), w)

  -- Chat; `agents` lists the agents of a tenant, and the response has the fields of the result
  unfoldable pub handle_chat :
      (Text → List (AgentSpec Number))
      → Option Text
      → List InputMessage
      → Bool
      → World
      → Outcome StatusCode ChatResult × World
  unfolding tenant_of_header run_chat code_of_failure
  handle_chat agents header messages approved w = elim (tenant_of_header header) [
    | raise e ↦ (raise (code_of_failure e), w)
    | ok tenant ↦ coded (run_chat tenant messages approved (agents tenant) w)
  ]
