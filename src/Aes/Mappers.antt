-- ===== src/Aes/Mappers.antt =====
-- services/agent_execution_service/src/agent_execution_service/mappers.py: the messages that a caller sees
-- of agents, tools and tasks. A time is a number.
use agent_exec_platform.Common.{ℕ, Bool, Option, none, some, List, [], ◌∷◌, Text}
use agent_exec_platform.Aes.Models.{
  TaskStatus, pending, running, waiting_approval, completed, failed, TaskRow, JobStepRef,
}
use agent_exec_platform.Aes.Progress.{TaskProgressView}
use agent_exec_platform.Aes.Tools.{ToolRow}
use agent_exec_platform.Aes.Agents.{AgentRow}

-- The enum TaskStatus of the messages.
pub data ProtoStatus : Type 0 where
  status_pending status_running status_waiting_approval status_completed status_failed : ProtoStatus

-- _TASK_STATUS_TO_PROTO, which has every word that a row holds
unfoldable pub status_to_proto : TaskStatus → ProtoStatus
status_to_proto pending = status_pending
status_to_proto running = status_running
status_to_proto waiting_approval = status_waiting_approval
status_to_proto completed = status_completed
status_to_proto failed = status_failed

pub record Agent (Number : Type 0) : Type 0 where
  pub id : Text
  pub name : Text
  pub instructions : Text
  pub llm_config_name : Text
  pub llm_config_temperature : Number
  pub tool_ids : List Text
  pub version : ℕ
  pub created_at : ℕ
  pub updated_at : ℕ

-- agent_to_proto
unfoldable pub agent_to_proto : {Number : Type 0} → AgentRow Number × List Text → Agent Number
agent_to_proto (r, tool_ids) = record {
  id = r.id;
  name = r.name;
  instructions = r.instructions;
  llm_config_name = r.llm_config_name;
  llm_config_temperature = r.llm_config_temperature;
  tool_ids = tool_ids;
  version = r.version;
  created_at = r.created_at;
  updated_at = r.updated_at;
}

pub record Tool : Type 0 where
  pub id : Text
  pub name : Text
  pub description : Option Text
  pub mutating : Bool
  pub version : ℕ
  pub created_at : ℕ
  pub updated_at : ℕ

-- tool_to_proto
unfoldable pub tool_to_proto : ToolRow → Tool
tool_to_proto r = record {
  id = r.id;
  name = r.name;
  description = r.description;
  mutating = r.mutating;
  version = r.version;
  created_at = r.created_at;
  updated_at = r.updated_at;
}

pub record Task : Type 0 where
  pub id : Text
  pub input : Text
  pub job_id : Text
  pub status : ProtoStatus
  pub result : Option Text
  pub created_at : ℕ
  pub updated_at : ℕ

abbrev result_of : Text → Option Text
result_of [] = none
result_of (c ∷ s) = some (c ∷ s)

-- task_to_proto
unfoldable pub task_to_proto : TaskRow → Task
unfolding status_to_proto
task_to_proto r = record {
  id = r.id;
  input = r.input;
  job_id = r.job_id;
  status = status_to_proto r.status;
  result = result_of r.result;
  created_at = r.created_at;
  updated_at = r.updated_at;
}

pub record TaskProgress (Number : Type 0) : Type 0 where
  pub task_id : Text
  pub status : ProtoStatus
  pub percent_complete : Number
  pub steps_completed : ℕ
  pub steps_total : ℕ
  pub requires_approval : Bool
  pub summary : Text
  pub steps : List JobStepRef
  pub output : Text
  pub error : Text
  pub updated_at : ℕ

-- task_progress_to_proto; a step of the message has the fields of the step
unfoldable pub task_progress_to_proto :
    {Number : Type 0} → TaskProgressView Number → TaskProgress Number
unfolding status_to_proto
task_progress_to_proto v = record {
  task_id = v.task_id;
  status = status_to_proto v.status;
  percent_complete = v.percent_complete;
  steps_completed = v.steps_completed;
  steps_total = v.steps_total;
  requires_approval = v.requires_approval;
  summary = v.summary;
  steps = v.steps;
  output = v.output;
  error = v.error;
  updated_at = v.updated_at;
}
