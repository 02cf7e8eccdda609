-- ===== src/Gateway/Zen.antt =====
-- services/gateway/src/gateway/provider_zen.py: the provider over the Responses API. The HTTP
-- exchange and the JSON reader are parameters; the body of a reply is what the code reads of it, at
-- the types that the API documents.
use agent_exec_platform.Common.{
  ℕ, ◌+◌, Bool, false, not, Option, none, some, List, [], ◌∷◌, ◌++◌, Text, codes, text_eq,
  is_truthy, leb, if◌then◌else◌,
}
use agent_exec_platform.Common.Outcome.{Outcome, ok, raise, ◌>>=◌}
use agent_exec_platform.Gateway.Models.{
  ToolCall, ToolSpec, Usage, Completion, Turn, GatewayError, validation_error, provider_error,
  unhandled_error, ModelSettings, or_else, given, WireTool, Formats, to_tools, or_default,
}

-- An item of the `input` array.
pub data InputItem : Type 0 where
  turn_item : Text → Text → InputItem
  call_item : Text → Text → Text → InputItem
  output_item : Text → Text → InputItem

abbrev pub or_blank : Option Text → Text
or_blank none = []
or_blank (some s) = s

-- The `function_call` items of a turn.
abbrev pub call_items : List ToolCall → List InputItem
call_items [] = []
call_items (c ∷ cs) = call_item c.id c.name c.arguments ∷ call_items cs

abbrev thought_items : Text → Text → List InputItem
thought_items role [] = []
thought_items role (c ∷ s) = turn_item role (c ∷ s) ∷ []

-- What a turn that is no tool result is rendered as.
abbrev pub said_items : Text → Text → List ToolCall → List InputItem
said_items role content [] = turn_item role content ∷ []
said_items role content (c ∷ cs) = thought_items role content ++ call_items (c ∷ cs)

-- The loop body of `_to_input`.
unfoldable pub items_of : Turn → List InputItem
unfolding text_eq
items_of m =
    if text_eq m.role (codes "tool")
    then output_item (or_blank m.tool_call_id) m.content ∷ []
    else said_items m.role m.content m.tool_calls

-- _to_input
unfoldable pub to_input : List Turn → List InputItem
unfolding items_of
to_input [] = []
to_input (m ∷ ms) = items_of m ++ to_input ms

-- An item of the `output` array: the texts of its chunks, or the fields of a call.
pub data OutputItem : Type 0 where
  message_output : List (Option Text) → OutputItem
  call_output : Option Text → Option Text → Option Text → Option Text → OutputItem
  other_output : OutputItem

pub record UsageBody : Type 0 where
  pub input_tokens : Option ℕ
  pub output_tokens : Option ℕ
  pub total_tokens : Option ℕ

pub record Body : Type 0 where
  -- the truth value of `error`
  pub has_error : Bool
  pub output : List OutputItem
  pub output_text : Option Text
  pub usage : UsageBody

abbrev pub pieces : List (Option Text) → List Text
pieces [] = []
pieces (none ∷ cs) = pieces cs
pieces (some s ∷ cs) = s ∷ pieces cs

-- The text parts that the loop of `_parse_output` collects.
unfoldable pub text_parts : List OutputItem → List Text
text_parts [] = []
text_parts (message_output chunks ∷ items) = pieces chunks ++ text_parts items
text_parts (call_output call_id id name arguments ∷ items) = text_parts items
text_parts (other_output ∷ items) = text_parts items

-- The tool calls that it collects.
unfoldable pub parsed_calls : List OutputItem → List ToolCall
parsed_calls [] = []
parsed_calls (message_output chunks ∷ items) = parsed_calls items
parsed_calls (call_output call_id id name arguments ∷ items) =
    record {
      id = or_else call_id (or_else id []);
      name = or_else name [];
      arguments = or_else arguments (codes "{}");
    }
    ∷ parsed_calls items
parsed_calls (other_output ∷ items) = parsed_calls items

abbrev pub concat : List Text → Text
concat [] = []
concat (s ∷ ss) = s ++ concat ss

abbrev with_fallback : List Text → Option Text → List Text
with_fallback [] none = []
with_fallback [] (some flat) = flat ∷ []
with_fallback (s ∷ ss) flat = s ∷ ss

-- _parse_output
unfoldable pub parse_output : Body → Text × List ToolCall
unfolding text_parts parsed_calls
parse_output b = (concat (with_fallback (text_parts b.output) b.output_text), parsed_calls b.output)

abbrev or_zero : Option ℕ → ℕ → ℕ
or_zero none d = d
or_zero (some n) d = n

-- The usage of a reply.
unfoldable pub usage_of : UsageBody → Usage
usage_of u =
    let prompt = or_zero u.input_tokens 0 in
    let completion = or_zero u.output_tokens 0 in
    record {
      prompt_tokens = prompt;
      completion_tokens = completion;
      total_tokens = or_zero u.total_tokens (prompt + completion);
    }

abbrev pub finish_of : List ToolCall → Text
finish_of [] = codes "stop"
finish_of (c ∷ cs) = codes "tool_calls"

abbrev pub is_silent : Text → List ToolCall → Bool
is_silent content [] = not (is_truthy content)
is_silent content (c ∷ cs) = false

-- The end of `complete`, on a body.
unfoldable pub completion_of : Body → Outcome GatewayError Completion
unfolding parse_output usage_of is_truthy
completion_of b =
    let (content, calls) = parse_output b in
    if b.has_error
    then raise provider_error
    else if is_silent content calls
    then raise provider_error
    else ok (record {
      content = content;
      finish_reason = finish_of calls;
      usage = usage_of b.usage;
      tool_calls = calls;
    })

-- A reply to the POST, with a body that is a JSON object or one from which `response.json()` and the
-- reads of it raise, or the failure to get one.
pub data Reply : Type 0 where
  no_reply : Reply
  reply : ℕ → Body → Reply
  unreadable : ℕ → Reply

abbrev pub settled : ℕ → Outcome GatewayError Completion → Outcome GatewayError Completion
settled status read =
    if leb 500 status
    then raise provider_error
    else if leb 400 status
    then raise validation_error
    else read

-- What `complete` makes of it.
unfoldable pub answer_of : Reply → Outcome GatewayError Completion
unfolding completion_of
answer_of no_reply = raise provider_error
answer_of (reply status body) = settled status (completion_of body)
answer_of (unreadable status) = settled status (raise unhandled_error)

module _ (f : Formats) where
  -- The payload, less the constant fields `stream` and `reasoning`; a field is `none` where it is
  -- not sent.
  pub record Payload : Type 0 where
    pub model : Text
    pub input : List InputItem
    pub temperature : f.Number
    pub max_output_tokens : Option ℕ
    pub tools : Option (List (WireTool f.Json))
    pub tool_choice : Option Text

  abbrev pub plain_payload :
      ModelSettings f.Number → List Turn → Option ℕ → Option f.Number → Payload
  plain_payload settings messages max_tokens temperature = record {
    model = settings.name;
    input = to_input messages;
    temperature = or_default f temperature settings.temperature;
    max_output_tokens = max_tokens;
    tools = none;
    tool_choice = none;
  }

  abbrev pub with_tools : Payload → List ToolSpec → Option Text → Outcome GatewayError Payload
  with_tools payload [] choice = ok payload
  with_tools payload (t ∷ ts) choice =
      to_tools f (t ∷ ts)
      >>= (λ wired. ok (record payload { tools = some wired; tool_choice = given choice }))

  -- complete
  unfoldable pub complete :
      ModelSettings f.Number
      → (Payload → Reply)
      → List Turn
      → Option ℕ
      → Option f.Number
      → List ToolSpec
      → Option Text
      → Outcome GatewayError Completion
  unfolding to_input to_tools answer_of
  complete settings post messages max_tokens temperature tools choice =
      with_tools (plain_payload settings messages max_tokens temperature) tools choice
      >>= (λ payload. answer_of (post payload))
