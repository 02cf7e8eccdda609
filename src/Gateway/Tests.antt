-- ===== src/Gateway/Tests.antt =====
-- Runs of the guardrails and of a provider, and the uses of their theorems.
use agent_exec_platform.Common.{
  map, text_eq, contains, Bool, true, false, ℕ, Text, some, ◌⊎◌, List, [], ◌∷◌, codes, none, ◌≡◌,
  refl,
}
use agent_exec_platform.Common.Outcome.{ok, raise}
use agent_exec_platform.Gateway.Guardrails.{
  Message, Patterns, blocked_term, sanitize, screen_and_sanitize,
}
use agent_exec_platform.Gateway.Screening.{IsAcceptable, redacted, screen_and_sanitize-IsAcceptable}
use agent_exec_platform.Gateway.Models.{ModelSettings, ToolSpec, Turn, Formats, validation_error}
use agent_exec_platform.Gateway.Zen.{
  Body, call_output, reply, Payload, plain_payload, with_tools, complete,
}
use agent_exec_platform.Gateway.Classes.{AreReadable, Explains, complete-Explains}

-- No letter has another case, and nothing is redacted but one text.
abbrev plain : Patterns
plain = record {
  lower = λ s. s;
  sub_email = λ s. s;
  sub_ssn = λ s. codes "x";
  sub_card = λ s. s;
  sub_phone = λ s. s;
}

abbrev question : List (Message Bool)
question =
    record { role = codes "user"; content = codes "hi you"; tool_calls = true; tool_call_id = none }
    ∷ []

passes_question :
    screen_and_sanitize plain question 10 (codes "bad" ∷ [])
    ≡ ok (
        record { role = codes "user"; content = codes "x"; tool_calls = true; tool_call_id = none }
        ∷ [])
unfolding screen_and_sanitize contains text_eq
passes_question = refl

blocks_question :
    screen_and_sanitize plain question 10 (codes "i y" ∷ []) ≡ raise (blocked_term (codes "i y"))
unfolding screen_and_sanitize contains text_eq
blocks_question = refl

sanitizes_question :
    screen_and_sanitize plain question 10 (codes "bad" ∷ []) ≡ ok (sanitize plain question)
unfolding screen_and_sanitize contains text_eq
sanitizes_question = refl

screen_and_sanitize-IsAcceptable_example :
    IsAcceptable plain 10 (codes "bad" ∷ []) question
    × (map (redacted plain) question ≡ sanitize plain question)
screen_and_sanitize-IsAcceptable_example =
    (screen_and_sanitize-IsAcceptable plain question (sanitize plain question) 10
        (codes "bad" ∷ [])).0
      sanitizes_question

-- A reader that reads no JSON.
abbrev no_json : Formats
no_json = record { Json = Text; Number = ℕ; json_loads = λ s. none; empty_object = codes "{}" }

abbrev model : ModelSettings ℕ
model = record { name = codes "m"; max_tokens = 100; temperature = 0 }

abbrev hello : List Turn
hello =
    record { role = codes "user"; content = codes "hello"; tool_calls = []; tool_call_id = none }
    ∷ []

-- A reply with one call and no text.
abbrev call_body : Body
call_body = record {
  has_error = false;
  output = call_output (some (codes "c")) none (some (codes "read")) none ∷ [];
  output_text = none;
  usage = record { input_tokens = some 3; output_tokens = none; total_tokens = none };
}

abbrev read_tool : ToolSpec
read_tool = record { name = codes "read"; description = []; parameters = [] }

call_is_answer :
    complete no_json model (λ payload. reply 200 call_body) hello none none (read_tool ∷ []) none
    ≡ ok (record {
      content = [];
      finish_reason = codes "tool_calls";
      usage = record { prompt_tokens = 3; completion_tokens = 0; total_tokens = 3 };
      tool_calls = record { id = codes "c"; name = codes "read"; arguments = codes "{}" } ∷ [];
    })
unfolding complete text_eq
call_is_answer = refl

complete-Explains_example :
    (¬ AreReadable no_json (read_tool ∷ [])
      × (complete no_json model
            (λ payload. reply 200 call_body)
            hello
            none
            none
            (read_tool ∷ [])
            none
          ≡ raise validation_error))
    ⊎ (AreReadable no_json (read_tool ∷ [])
        × (payload : Payload no_json) × (with_tools no_json
              (plain_payload no_json model hello none none)
              (read_tool ∷ [])
              none
            ≡ ok payload)
        × Explains (reply 200 call_body) (
            complete no_json model
              (λ payload. reply 200 call_body)
              hello
              none
              none
              (read_tool ∷ [])
              none))
complete-Explains_example =
    complete-Explains no_json model (λ payload. reply 200 call_body) hello none none
      (read_tool ∷ []) none
