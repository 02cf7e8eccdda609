-- ===== src/Gateway/Servicer.antt =====
-- services/gateway/src/gateway/servicer.py: the Chat RPC over a provider.
use agent_exec_platform.Common.{ℕ, Option, none, List, map, Text, codes}
use agent_exec_platform.Common.Outcome.{Outcome, ok, raise, ◌>>=◌}
use agent_exec_platform.Common.Grpc.{
  StatusCode, code_invalid_argument, code_unavailable, code_internal,
}
use agent_exec_platform.Gateway.Guardrails.{Rejection, Patterns, screen_and_sanitize}
use agent_exec_platform.Gateway.Models.{
  ToolCall, ToolSpec, Usage, Completion, Turn, GatewayError, guardrail_rejected, validation_error,
  provider_error, unhandled_error, ModelSettings, Formats,
}
use agent_exec_platform.Gateway.Zen as Zen
use agent_exec_platform.Gateway.OpenAi as OpenAi

-- The messages of aep.gateway.v1.
pub record ProtoCall : Type 0 where
  pub id : Text
  pub name : Text
  pub arguments : Text

pub record ProtoMessage : Type 0 where
  pub role : Text
  pub content : Text
  pub tool_calls : List ProtoCall
  pub tool_call_id : Option Text

pub record ProtoTool : Type 0 where
  pub name : Text
  pub description : Text
  pub parameters : Text

pub record ChatRequest (Number : Type 0) : Type 0 where
  pub messages : List ProtoMessage
  pub max_tokens : Option ℕ
  pub temperature : Option Number
  pub tools : List ProtoTool
  pub tool_choice : Option Text

pub record ChatResponse : Type 0 where
  pub message : ProtoMessage
  pub token_usage : Usage
  pub finish_reason : Text
  pub tool_calls : List ProtoCall

abbrev pub call_from_proto : ProtoCall → ToolCall
call_from_proto c = record { id = c.id; name = c.name; arguments = c.arguments }

abbrev pub call_to_proto : ToolCall → ProtoCall
call_to_proto c = record { id = c.id; name = c.name; arguments = c.arguments }

-- _message_from_proto
unfoldable pub message_from_proto : ProtoMessage → Turn
message_from_proto m = record {
  role = m.role;
  content = m.content;
  tool_calls = map call_from_proto m.tool_calls;
  tool_call_id = m.tool_call_id;
}

-- _tool_calls_to_proto
unfoldable pub tool_calls_to_proto : List ToolCall → List ProtoCall
tool_calls_to_proto calls = map call_to_proto calls

abbrev tool_from_proto : ProtoTool → ToolSpec
tool_from_proto t = record { name = t.name; description = t.description; parameters = t.parameters }

-- _handle_errors with _STATUS_BY_ERROR; any other exception is an internal error
unfoldable pub gateway_code : GatewayError → StatusCode
gateway_code (guardrail_rejected r) = code_invalid_argument
gateway_code validation_error = code_invalid_argument
gateway_code provider_error = code_unavailable
gateway_code unhandled_error = code_internal

-- What the servicer needs of a provider: `complete`.
pub record Provider (Number : Type 0) : Type 0 where
  pub complete :
      List Turn
      → Option ℕ
      → Option Number
      → List ToolSpec
      → Option Text
      → Outcome GatewayError Completion

pub record GuardrailSettings : Type 0 where
  pub max_input_chars : ℕ
  pub blocklist : List Text

abbrev screened : Outcome Rejection (List Turn) → Outcome GatewayError (List Turn)
screened (ok messages) = ok messages
screened (raise r) = raise (guardrail_rejected r)

-- The response that `Chat` builds of a completion.
unfoldable pub response_of : Completion → ChatResponse
unfolding tool_calls_to_proto
response_of c = record {
  message = record {
    role = codes "assistant";
    content = c.content;
    tool_calls = tool_calls_to_proto c.tool_calls;
    tool_call_id = none;
  };
  token_usage = c.usage;
  finish_reason = c.finish_reason;
  tool_calls = tool_calls_to_proto c.tool_calls;
}

abbrev pub respond_chat : Outcome GatewayError Completion → Outcome StatusCode ChatResponse
respond_chat (ok c) = ok (response_of c)
respond_chat (raise e) = raise (gateway_code e)

module _ {Number : Type 0} where
  -- Chat
  unfoldable pub chat :
      Provider Number
      → Patterns
      → GuardrailSettings
      → ChatRequest Number
      → Outcome StatusCode ChatResponse
  unfolding message_from_proto screen_and_sanitize gateway_code response_of
  chat provider patterns settings request = respond_chat (
      screened (
        screen_and_sanitize patterns (map message_from_proto request.messages)
          settings.max_input_chars settings.blocklist)
      >>= (λ sanitized.
          provider.complete sanitized request.max_tokens request.temperature
            (map tool_from_proto request.tools) request.tool_choice))

-- The two providers.
abbrev pub zen_provider :
    (f : Formats) → ModelSettings f.Number → (Zen.Payload f → Zen.Reply) → Provider f.Number
zen_provider f settings post = record { complete = Zen.complete f settings post }

abbrev pub openai_provider :
    (f : Formats)
    → ModelSettings f.Number
    → (OpenAi.SdkRequest f → OpenAi.SdkReply)
    → Provider f.Number
openai_provider f settings create = record { complete = OpenAi.complete_openai f settings create }
