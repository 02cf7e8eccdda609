-- ===== src/Gateway/Models.antt =====
-- services/gateway/src/gateway/models.py, errors.py and config.py: what the servicer and the
-- providers hand to one another. A temperature is an uninterpreted number.
use agent_exec_platform.Common.{ℕ, Option, none, some, List, [], ◌∷◌, Text}
use agent_exec_platform.Common.Outcome.{Outcome, ok, raise, ◌>>=◌}
use agent_exec_platform.Gateway.Guardrails.{Message, Rejection}

pub record ToolCall : Type 0 where
  pub id : Text
  pub name : Text
  pub arguments : Text

pub record ToolSpec : Type 0 where
  pub name : Text
  pub description : Text
  pub parameters : Text

pub record Usage : Type 0 where
  pub prompt_tokens : ℕ
  pub completion_tokens : ℕ
  pub total_tokens : ℕ

pub record Completion : Type 0 where
  pub content : Text
  pub finish_reason : Text
  pub usage : Usage
  pub tool_calls : List ToolCall

-- A message with its tool calls.
abbrev pub Turn : Type 0
Turn = Message (List ToolCall)

-- AppError and its subclasses; the wording is left out.
pub data GatewayError : Type 0 where
  guardrail_rejected : Rejection → GatewayError
  validation_error : GatewayError
  provider_error : GatewayError
  -- any other exception
  unhandled_error : GatewayError

-- The settings of the model that the providers read.
pub record ModelSettings (Number : Type 0) : Type 0 where
  pub name : Text
  pub max_tokens : ℕ
  pub temperature : Number

-- a or b, on an optional text whose absence and whose emptiness are both falsy
abbrev pub or_else : Option Text → Text → Text
or_else none d = d
or_else (some []) d = d
or_else (some (c ∷ s)) d = c ∷ s

-- `if tool_choice:`
abbrev pub given : Option Text → Option Text
given none = none
given (some []) = none
given (some (c ∷ s)) = some (c ∷ s)

-- A tool declaration on the wire.
pub record WireTool (Json : Type 0) : Type 0 where
  pub name : Text
  pub description : Text
  pub parameters : Json

-- The JSON reader, and the numbers that a temperature is.
pub record Formats : Type 1 where
  pub Json : Type 0
  pub Number : Type 0
  -- json.loads; `none` where it raises
  pub json_loads : Text → Option Json
  -- {}
  pub empty_object : Json

module _ (f : Formats) where
  abbrev pub parameters_of : Text → Option f.Json
  parameters_of [] = some f.empty_object
  parameters_of (c ∷ s) = f.json_loads (c ∷ s)

  -- _to_tools and _to_openai_tools, which wrap the same fields differently
  unfoldable pub to_tools : List ToolSpec → Outcome GatewayError (List (WireTool f.Json))
  to_tools [] = ok []
  to_tools (t ∷ ts) = elim (parameters_of t.parameters) [
    | none ↦ raise validation_error
    | some p ↦ to_tools ts >>= (λ rest.
        ok (record { name = t.name; description = t.description; parameters = p } ∷ rest))
  ]

  abbrev pub or_default : Option f.Number → f.Number → f.Number
  or_default none d = d
  or_default (some n) d = n
