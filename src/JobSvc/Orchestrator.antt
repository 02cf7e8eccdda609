-- ===== src/JobSvc/Orchestrator.antt =====
-- services/job_svc/src/job_svc/orchestrator_client.py: the runner's client of the orchestrator. The
-- remote call itself is a parameter: what it answers may depend on all calls made before.
use agent_exec_platform.Common.{Bool, List, [], ◌∷◌, reverse, Text, is_truthy, if◌then◌else◌}
use agent_exec_platform.Common.Outcome.{Outcome, ok, raise}
use agent_exec_platform.JobSvc.Models.{Error, dependency}

pub record ChatTurn : Type 0 where
  pub role : Text
  pub content : Text

-- The ChatRequest, with the tenant that its metadata names.
pub record ChatRequest : Type 0 where
  pub tenant_id : Text
  pub messages : List ChatTurn
  pub approved : Bool

-- A message of the transcript in a ChatResponse.
pub record Message : Type 0 where
  pub role : Text
  pub content : Text
  pub agent : Text

pub record ChatResponse : Type 0 where
  pub messages : List Message
  pub finish_reason : Text

-- What the stub's `Chat` does: it answers, or raises an `AioRpcError`.
pub data Rpc : Type 0 where
  replied : ChatResponse → Rpc
  rpc_error : Text → Rpc

pub record ChatReply : Type 0 where
  pub content : Text
  pub finish_reason : Text
  pub agent : Text

-- service_pb2.Message()
abbrev empty_message : Message
empty_message = record { role = []; content = []; agent = [] }

-- The loop of `_final_message`, over the messages in reverse.
first_with_content : List Message → Message
first_with_content [] = empty_message
first_with_content (m ∷ ms) = if is_truthy m.content then m else first_with_content ms

unfoldable pub final_message : ChatResponse → Message
unfolding first_with_content
final_message response = first_with_content (reverse response.messages)

-- OrchestratorClient.chat, given what the stub does
unfoldable pub chat_reply : Rpc → Outcome Error ChatReply
unfolding final_message
chat_reply (rpc_error details) = raise (dependency details)
chat_reply (replied response) =
    let final = final_message response in
    ok (record {
      content = final.content;
      finish_reason = response.finish_reason;
      agent = final.agent;
    })
