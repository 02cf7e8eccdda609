-- ===== src/Gateway/OpenAi.antt =====
-- services/gateway/src/gateway/provider.py: the provider over the chat-completions SDK. The SDK is a
-- parameter: the call it makes of a request.
use agent_exec_platform.Common.{
  ℕ, Bool, Option, none, some, List, [], ◌∷◌, map, Text, codes, if◌then◌else◌,
}
use agent_exec_platform.Common.Outcome.{Outcome, ok, raise, ◌>>=◌}
use agent_exec_platform.Gateway.Models.{
  ToolCall, ToolSpec, Usage, Completion, Turn, GatewayError, validation_error, provider_error,
  ModelSettings, or_else, given, WireTool, Formats, to_tools, or_default,
}

-- A chat message; a key is `none` where it is left out.
pub record OpenaiMessage : Type 0 where
  pub role : Text
  pub content : Text
  pub tool_calls : Option (List ToolCall)
  pub tool_call_id : Option Text

abbrev listed : List ToolCall → Option (List ToolCall)
listed [] = none
listed (c ∷ cs) = some (c ∷ cs)

-- _to_openai_message
unfoldable pub to_openai_message : Turn → OpenaiMessage
to_openai_message m = record {
  role = m.role;
  content = m.content;
  tool_calls = listed m.tool_calls;
  tool_call_id = m.tool_call_id;
}

-- A tool call of a choice: whether its type is "function", and its fields.
pub record ChoiceCall : Type 0 where
  pub is_function : Bool
  pub id : Text
  pub name : Text
  pub arguments : Option Text

pub record Choice : Type 0 where
  pub content : Option Text
  pub finish_reason : Option Text
  pub tool_calls : List ChoiceCall

-- What the SDK gives or raises.
pub data SdkReply : Type 0 where
  bad_request : SdkReply
  openai_error : SdkReply
  chat_completion : List Choice → Option Usage → SdkReply

unfoldable pub function_calls : List ChoiceCall → List ToolCall
function_calls [] = []
function_calls (c ∷ cs) =
    let rest = function_calls cs in
    if c.is_function
    then record { id = c.id; name = c.name; arguments = or_else c.arguments (codes "{}") } ∷ rest
    else rest

abbrev usage_or_zero : Option Usage → Usage
usage_or_zero none = record { prompt_tokens = 0; completion_tokens = 0; total_tokens = 0 }
usage_or_zero (some u) = u

-- The end of `complete`.
unfoldable pub completion_of_reply : SdkReply → Outcome GatewayError Completion
unfolding function_calls
completion_of_reply bad_request = raise validation_error
completion_of_reply openai_error = raise provider_error
completion_of_reply (chat_completion [] usage) = raise provider_error
completion_of_reply (chat_completion (c ∷ cs) usage) = ok (record {
  content = or_else c.content [];
  finish_reason = or_else c.finish_reason (codes "stop");
  usage = usage_or_zero usage;
  tool_calls = function_calls c.tool_calls;
})

module _ (f : Formats) where
  pub record SdkRequest : Type 0 where
    pub model : Text
    pub messages : List OpenaiMessage
    pub max_tokens : ℕ
    pub temperature : f.Number
    pub tools : Option (List (WireTool f.Json))
    pub tool_choice : Option Text

  abbrev or_limit : Option ℕ → ℕ → ℕ
  or_limit none d = d
  or_limit (some n) d = n

  abbrev pub plain_request :
      ModelSettings f.Number → List Turn → Option ℕ → Option f.Number → SdkRequest
  plain_request settings messages max_tokens temperature = record {
    model = settings.name;
    messages = map to_openai_message messages;
    max_tokens = or_limit max_tokens settings.max_tokens;
    temperature = or_default f temperature settings.temperature;
    tools = none;
    tool_choice = none;
  }

  abbrev pub offer : SdkRequest → List ToolSpec → Option Text → Outcome GatewayError SdkRequest
  offer request [] choice = ok request
  offer request (t ∷ ts) choice =
      to_tools f (t ∷ ts)
      >>= (λ wired. ok (record request { tools = some wired; tool_choice = given choice }))

  -- complete
  unfoldable pub complete_openai :
      ModelSettings f.Number
      → (SdkRequest → SdkReply)
      → List Turn
      → Option ℕ
      → Option f.Number
      → List ToolSpec
      → Option Text
      → Outcome GatewayError Completion
  unfolding to_openai_message to_tools completion_of_reply
  complete_openai settings create messages max_tokens temperature tools choice =
      offer (plain_request settings messages max_tokens temperature) tools choice
      >>= (λ request. completion_of_reply (create request))
