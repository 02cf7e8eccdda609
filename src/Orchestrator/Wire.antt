-- ===== src/Orchestrator/Wire.antt =====
-- services/orchestrator/src/orchestrator/model_client.py with services/gateway/src/gateway: what the
-- provider sees of the function calls and results of a conversation.
use agent_exec_platform.Common.{
  Option, List, [], ◌∷◌, ◌++◌, map, Text, codes, text_eq, ◌≡◌, refl, sym, ap, ◌∙◌, append_assoc,
  append-nil,
}
use agent_exec_platform.Gateway.Guardrails.{Patterns, redact_pii, sanitize}
use agent_exec_platform.Gateway.Models.{ToolCall, Completion}
use agent_exec_platform.Gateway.Zen.{
  InputItem, turn_item, call_item, output_item, call_items, items_of, said_items, to_input,
}
use agent_exec_platform.Gateway.Servicer.{
  ProtoMessage, message_from_proto, call_from_proto, call_to_proto, response_of,
}
use agent_exec_platform.Orchestrator.ModelClient.{
  or_blank, FunctionCall, FunctionResult, LlmMessage, system_message, user_message, assistant_text,
  assistant_calls, function_results, unknown_message, to_gateway_messages, all_messages,
  to_proto_call, to_proto_result, from_proto_call, create_result, call_reply,
}

-- The function calls among the items of a request, and the results with the ids they answer.
abbrev pub calls_in : List InputItem → List ToolCall
calls_in [] = []
calls_in (turn_item role content ∷ is) = calls_in is
calls_in (call_item id name arguments ∷ is) =
    record { id = id; name = name; arguments = arguments } ∷ calls_in is
calls_in (output_item id output ∷ is) = calls_in is

abbrev pub outputs_in : List InputItem → List (Text × Text)
outputs_in [] = []
outputs_in (turn_item role content ∷ is) = outputs_in is
outputs_in (call_item id name arguments ∷ is) = outputs_in is
outputs_in (output_item id output ∷ is) = (id, output) ∷ outputs_in is

-- The same, of the conversation as an agent holds it; the results as the gateway redacts them.
abbrev pub as_tool_call : FunctionCall → ToolCall
as_tool_call c = record { id = c.id; name = c.name; arguments = c.arguments }

abbrev pub message_calls : LlmMessage → List ToolCall
message_calls (assistant_calls thought calls) = map as_tool_call calls
message_calls _ = []

abbrev pub made_calls : List LlmMessage → List ToolCall
made_calls [] = []
made_calls (m ∷ ms) = message_calls m ++ made_calls ms

module _ (p : Patterns) where
  abbrev pub redacted : List FunctionResult → List (Text × Text)
  redacted [] = []
  redacted (r ∷ rs) = (r.call_id, redact_pii p r.content) ∷ redacted rs

  abbrev pub message_results : LlmMessage → List (Text × Text)
  message_results (function_results results) = redacted results
  message_results _ = []

  abbrev pub given_results : List LlmMessage → List (Text × Text)
  given_results [] = []
  given_results (m ∷ ms) = message_results m ++ given_results ms

calls_in-append : (is js : List InputItem) → calls_in (is ++ js) ≡ calls_in is ++ calls_in js
calls_in-append [] js = refl
calls_in-append (turn_item role content ∷ is) js = calls_in-append is js
calls_in-append (call_item id name arguments ∷ is) js = rw (calls_in-append is js) refl
calls_in-append (output_item id output ∷ is) js = calls_in-append is js

outputs_in-append :
    (is js : List InputItem) → outputs_in (is ++ js) ≡ outputs_in is ++ outputs_in js
outputs_in-append [] js = refl
outputs_in-append (turn_item role content ∷ is) js = outputs_in-append is js
outputs_in-append (call_item id name arguments ∷ is) js = outputs_in-append is js
outputs_in-append (output_item id output ∷ is) js = rw (outputs_in-append is js) refl

calls_in-call_items : (cs : List ToolCall) → calls_in (call_items cs) ≡ cs
calls_in-call_items [] = refl
calls_in-call_items (c ∷ cs) = rw (calls_in-call_items cs) refl

outputs_in-call_items : (cs : List ToolCall) → outputs_in (call_items cs) ≡ []
outputs_in-call_items [] = refl
outputs_in-call_items (c ∷ cs) = outputs_in-call_items cs

-- A turn that is no tool result carries its calls and no result, with or without a thought.
said_items-calls :
    (role content : Text) (cs : List ToolCall) → calls_in (said_items role content cs) ≡ cs
said_items-calls role content [] = refl
said_items-calls role [] (c ∷ cs) = rw (calls_in-call_items cs) refl
said_items-calls role (x ∷ s) (c ∷ cs) = rw (calls_in-call_items cs) refl

said_items-outputs :
    (role content : Text) (cs : List ToolCall) → outputs_in (said_items role content cs) ≡ []
said_items-outputs role content [] = refl
said_items-outputs role [] (c ∷ cs) = outputs_in-call_items cs
said_items-outputs role (x ∷ s) (c ∷ cs) = outputs_in-call_items cs

copied_calls :
    (cs : List FunctionCall) → map call_from_proto (map to_proto_call cs) ≡ map as_tool_call cs
copied_calls [] = refl
copied_calls (c ∷ cs) = rw (copied_calls cs) refl

module _ (p : Patterns) where
  -- The `input` that the provider posts for the messages of a request that passes the guardrails.
  abbrev pub wire : List ProtoMessage → List InputItem
  wire ms = to_input (sanitize p (map message_from_proto ms))

  wire-append : (ms ns : List ProtoMessage) → wire (ms ++ ns) ≡ wire ms ++ wire ns
  unfolding to_input sanitize
  wire-append [] ns = refl
  wire-append (m ∷ ms) ns =
      let sent = message_from_proto m in
      let items = items_of (record sent { content = redact_pii p sent.content }) in
      ap (λ l. items ++ l) (wire-append ms ns) ∙ sym (append_assoc items (wire ms) (wire ns))

  results-calls : (rs : List FunctionResult) → calls_in (wire (map to_proto_result rs)) ≡ []
  unfolding to_input items_of sanitize message_from_proto text_eq
  results-calls [] = refl
  results-calls (r ∷ rs) = results-calls rs

  results-outputs :
      (rs : List FunctionResult) → outputs_in (wire (map to_proto_result rs)) ≡ redacted p rs
  unfolding to_input items_of sanitize message_from_proto text_eq
  results-outputs [] = refl
  results-outputs (r ∷ rs) = rw (results-outputs rs) refl

  message-calls : (m : LlmMessage) → calls_in (wire (to_gateway_messages m)) ≡ message_calls m
  unfolding to_gateway_messages to_input items_of sanitize message_from_proto text_eq
  message-calls (assistant_calls thought calls) =
      let content = redact_pii p (or_blank thought) in
      let sent = map call_from_proto (map to_proto_call calls) in
      ap calls_in (append-nil (said_items (codes "assistant") content sent))
      ∙ said_items-calls (codes "assistant") content sent
      ∙ copied_calls calls
  message-calls (function_results results) = results-calls results
  message-calls (system_message s) = refl
  message-calls (user_message s) = refl
  message-calls (assistant_text s) = refl
  message-calls (unknown_message s) = refl

  message-results :
      (m : LlmMessage) → outputs_in (wire (to_gateway_messages m)) ≡ message_results p m
  unfolding to_gateway_messages to_input items_of sanitize message_from_proto text_eq
  message-results (assistant_calls thought calls) =
      let content = redact_pii p (or_blank thought) in
      let sent = map call_from_proto (map to_proto_call calls) in
      ap outputs_in (append-nil (said_items (codes "assistant") content sent))
      ∙ said_items-outputs (codes "assistant") content sent
  message-results (function_results results) = results-outputs results
  message-results (system_message s) = refl
  message-results (user_message s) = refl
  message-results (assistant_text s) = refl
  message-results (unknown_message s) = refl

  -- Whatever conversation an agent holds, the provider gets exactly the function calls that were made
  -- in it, in their order and with their ids, names and arguments as they were, and exactly the
  -- results that were given, each with the id of its call and with its content redacted.
  pub wire_round_trip :
      (ms : List LlmMessage)
      → (calls_in (wire (all_messages ms)) ≡ made_calls ms)
        × (outputs_in (wire (all_messages ms)) ≡ given_results p ms)
  unfolding all_messages to_input sanitize
  wire_round_trip [] = (refl, refl)
  wire_round_trip (m ∷ ms) =
      let here = to_gateway_messages m in
      let rest = all_messages ms in
      let (calls, results) = wire_round_trip ms in
      (
        ap calls_in (wire-append here rest)
            ∙ calls_in-append (wire here) (wire rest)
            ∙ rw (message-calls m, calls) refl,
        ap outputs_in (wire-append here rest)
            ∙ outputs_in-append (wire here) (wire rest)
            ∙ rw (message-results m, results) refl,
      )

copied_back :
    (cs : List ToolCall) → map as_tool_call (map from_proto_call (map call_to_proto cs)) ≡ cs
copied_back [] = refl
copied_back (c ∷ cs) = rw (copied_back cs) refl

-- The calls that a completion of the model asks for reach the agent as function calls, and when the
-- agent sends them back in its next turn, with or without a thought, the provider gets the same calls.
pub completion_round_trip :
    (p : Patterns) (c : Completion) (d : ToolCall) (ds : List ToolCall) (thought : Option Text)
    → c.tool_calls ≡ d ∷ ds
    → (calls : List FunctionCall) × ((create_result (response_of c)).content ≡ call_reply calls)
      × ((create_result (response_of c)).finish_reason ≡ codes "function_calls")
      × (calls_in (wire p (to_gateway_messages (assistant_calls thought calls))) ≡ c.tool_calls)
unfolding create_result response_of
completion_round_trip p c d ds thought e =
    let calls = map from_proto_call (map call_to_proto (d ∷ ds)) in
    (
      calls,
      rw e refl,
      rw e refl,
      message-calls p (assistant_calls thought calls) ∙ copied_back (d ∷ ds) ∙ sym e,
    )
