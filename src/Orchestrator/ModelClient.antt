-- ===== src/Orchestrator/ModelClient.antt =====
-- services/orchestrator/src/orchestrator/model_client.py: the client through which the agents reach
-- the gateway. Encoding a schema as JSON and the RPC are parameters.
use agent_exec_platform.Common.{
  ℕ, ◌+◌, ◌-◌, ◌/◌, Option, none, some, List, [], ◌∷◌, ◌++◌, map, Text, codes, contains, length,
  if◌then◌else◌,
}
use agent_exec_platform.Common.Outcome.{Outcome, ok, raise}
use agent_exec_platform.Common.Grpc.{StatusCode}
use agent_exec_platform.Gateway.Servicer.{
  ProtoCall, ProtoMessage, ProtoTool, ChatRequest, ChatResponse,
}
use agent_exec_platform.Orchestrator.Workbench.{ToolSchema}
use agent_exec_platform.Orchestrator.Chat.{Usage}

-- The framework's FunctionCall and the result of one.
pub record FunctionCall : Type 0 where
  pub id : Text
  pub name : Text
  pub arguments : Text

pub record FunctionResult : Type 0 where
  pub call_id : Text
  pub content : Text

-- The framework's LLMMessage; contents that are no text stand as their `str`.
pub data LlmMessage : Type 0 where
  system_message : Text → LlmMessage
  user_message : Text → LlmMessage
  assistant_text : Text → LlmMessage
  assistant_calls : Option Text → List FunctionCall → LlmMessage
  function_results : List FunctionResult → LlmMessage
  unknown_message : Text → LlmMessage

abbrev pub said : Text → Text → ProtoMessage
said role content = record { role = role; content = content; tool_calls = []; tool_call_id = none }

abbrev pub to_proto_call : FunctionCall → ProtoCall
to_proto_call c = record { id = c.id; name = c.name; arguments = c.arguments }

abbrev pub to_proto_result : FunctionResult → ProtoMessage
to_proto_result r = record {
  role = codes "tool";
  content = r.content;
  tool_calls = [];
  tool_call_id = some r.call_id;
}

abbrev pub or_blank : Option Text → Text
or_blank none = []
or_blank (some s) = s

-- _to_gateway_messages
unfoldable pub to_gateway_messages : LlmMessage → List ProtoMessage
to_gateway_messages (system_message s) = said (codes "system") s ∷ []
to_gateway_messages (user_message s) = said (codes "user") s ∷ []
to_gateway_messages (assistant_text s) = said (codes "assistant") s ∷ []
to_gateway_messages (assistant_calls thought calls) =
    record {
      role = codes "assistant";
      content = or_blank thought;
      tool_calls = map to_proto_call calls;
      tool_call_id = none;
    }
    ∷ []
to_gateway_messages (function_results results) = map to_proto_result results
to_gateway_messages (unknown_message s) = said (codes "user") s ∷ []

-- The loop of `create` over the messages.
unfoldable pub all_messages : List LlmMessage → List ProtoMessage
unfolding to_gateway_messages
all_messages [] = []
all_messages (m ∷ ms) = to_gateway_messages m ++ all_messages ms

-- What a caller may ask of the choice of a tool: a word, or one tool.
pub data ToolChoice : Type 0 where
  word_choice : Text → ToolChoice
  tool_choice : ToolChoice

unfoldable pub valid_tool_choices : List Text
valid_tool_choices = codes "auto" ∷ codes "none" ∷ codes "required" ∷ []

-- _to_gateway_tool_choice
unfoldable pub to_gateway_tool_choice : ToolChoice → Text
unfolding contains valid_tool_choices
to_gateway_tool_choice (word_choice w) = if contains valid_tool_choices w then w else codes "auto"
to_gateway_tool_choice tool_choice = codes "required"

-- What the framework reads of a reply.
pub data CreateContent : Type 0 where
  text_reply : Text → CreateContent
  call_reply : List FunctionCall → CreateContent

pub record CreateResult : Type 0 where
  pub finish_reason : Text
  pub content : CreateContent
  pub usage : Usage

unfoldable pub finish_reasons : List Text
finish_reasons =
    codes "stop"
    ∷ codes "length"
    ∷ codes "function_calls"
    ∷ codes "content_filter"
    ∷ codes "unknown"
    ∷ []

abbrev pub from_proto_call : ProtoCall → FunctionCall
from_proto_call c = record { id = c.id; name = c.name; arguments = c.arguments }

abbrev pub result_of : List ProtoCall → ChatResponse → Usage → CreateResult
result_of (c ∷ cs) response usage = record {
  finish_reason = codes "function_calls";
  content = call_reply (map from_proto_call (c ∷ cs));
  usage = usage;
}
result_of [] response usage = record {
  finish_reason =
      if contains finish_reasons response.finish_reason
      then response.finish_reason
      else codes "unknown";
  content = text_reply response.message.content;
  usage = usage;
}

-- The result that `create` builds of a response.
unfoldable pub create_result : ChatResponse → CreateResult
unfolding contains finish_reasons
create_result response = result_of response.tool_calls response (record {
  prompt_tokens = response.token_usage.prompt_tokens;
  completion_tokens = response.token_usage.completion_tokens;
})

-- The state of one client.
pub record ModelClient (Number : Type 0) : Type 0 where
  pub temperature : Number
  pub actual_usage : Usage
  pub total_usage : Usage

abbrev pub no_usage : Usage
no_usage = record { prompt_tokens = 0; completion_tokens = 0 }

abbrev pub add_usage : Usage → Usage → Usage
add_usage u v = record {
  prompt_tokens = u.prompt_tokens + v.prompt_tokens;
  completion_tokens = u.completion_tokens + v.completion_tokens;
}

-- GatewayChatCompletionClient.__init__
abbrev pub new_client : {Number : Type 0} → Number → ModelClient Number
new_client temperature = record {
  temperature = temperature;
  actual_usage = no_usage;
  total_usage = no_usage;
}

module _ {Json : Type 0} (dumps : Json → Text) where
  -- _to_gateway_tool; `dumps` is the JSON text of parameters, or nothing if there are none
  unfoldable pub to_gateway_tool : ToolSchema Json → ProtoTool
  to_gateway_tool t = record {
    name = t.name;
    description = t.description;
    parameters = dumps t.parameters;
  }

abbrev choice_of : {Json : Type 0} → List (ToolSchema Json) → ToolChoice → Option Text
choice_of [] choice = none
choice_of (t ∷ ts) choice = some (to_gateway_tool_choice choice)

module _ {Number Json : Type 0} (dumps : Json → Text) where
  -- The request that `create` sends.
  unfoldable pub chat_request :
      ModelClient Number
      → List LlmMessage
      → List (ToolSchema Json)
      → ToolChoice
      → ChatRequest Number
  unfolding all_messages to_gateway_tool to_gateway_tool_choice
  chat_request client messages tools choice = record {
    messages = all_messages messages;
    max_tokens = none;
    temperature = some client.temperature;
    tools = map (to_gateway_tool dumps) tools;
    tool_choice = choice_of tools choice;
  }

  abbrev accounted :
      ModelClient Number
      → Outcome StatusCode ChatResponse
      → Outcome StatusCode CreateResult × ModelClient Number
  accounted client (raise code) = (raise code, client)
  accounted client (ok response) =
      let result = create_result response in
      (
        ok result,
        record client {
          actual_usage = result.usage;
          total_usage = add_usage client.total_usage result.usage;
        },
      )

  -- create
  unfoldable pub create :
      (ChatRequest Number → Outcome StatusCode ChatResponse)
      → List LlmMessage
      → List (ToolSchema Json)
      → ToolChoice
      → ModelClient Number
      → Outcome StatusCode CreateResult × ModelClient Number
  unfolding chat_request create_result
  create rpc messages tools choice client =
      accounted client (rpc (chat_request client messages tools choice))

-- count_tokens, of the `str` of each message
unfoldable pub count_tokens : List Text → ℕ
count_tokens contents = total contents / 4
  where
    total : List Text → ℕ
    total [] = 0
    total (s ∷ ss) = length s + total ss

-- remaining_tokens; a difference below 0 counts as 0
unfoldable pub remaining_tokens : List Text → ℕ
unfolding count_tokens
remaining_tokens contents = 8192 - count_tokens contents
