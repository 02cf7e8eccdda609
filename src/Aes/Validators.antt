-- ===== src/Aes/Validators.antt =====
-- services/agent_execution_service/src/agent_execution_service/validators.py and auth.py: what a request
-- has to be before any service is called. Lengths are counted in code points, as Python counts them.
use agent_exec_platform.Common.{
  ℕ, Option, none, some, List, [], ◌∷◌, Text, length, ltb, is_blank, if◌then◌else◌,
}
use agent_exec_platform.Common.Outcome.{Outcome, ok, raise}
use agent_exec_platform.Aes.Models.{AppError, validation, authentication}

abbrev pub max_input_len : ℕ
max_input_len = 10000

abbrev pub max_filter_ids : ℕ
max_filter_ids = 1000

-- tenant_id_from_metadata, given the header
unfoldable pub tenant_id_from_metadata : Option Text → Outcome AppError Text
tenant_id_from_metadata none = raise authentication
tenant_id_from_metadata (some []) = raise authentication
tenant_id_from_metadata (some (c ∷ s)) = ok (c ∷ s)

-- validate_task_input
unfoldable pub validate_task_input : Text → Outcome AppError (Unit {0})
unfolding is_blank
validate_task_input value =
    if is_blank value
    then raise validation
    else if ltb max_input_len (length value)
    then raise validation
    else ok tt

-- validate_task_id, validate_agent_id, validate_tool_id, validate_name, validate_instructions; they
-- differ in the wording alone
unfoldable pub validate_text : Text → Outcome AppError (Unit {0})
unfolding is_blank
validate_text value = if is_blank value then raise validation else ok tt

-- validate_agent_tool_ids
unfoldable pub validate_agent_tool_ids : List Text → Outcome AppError (Unit {0})
validate_agent_tool_ids [] = raise validation
validate_agent_tool_ids (i ∷ is) = ok tt

unfoldable pub validate_each : List Text → Outcome AppError (Unit {0})
unfolding is_blank
validate_each [] = ok tt
validate_each (i ∷ is) =
    let rest = validate_each is in if is_blank i then raise validation else rest

-- validate_filter_ids
unfoldable pub validate_filter_ids : List Text → Outcome AppError (Unit {0})
unfolding validate_each
validate_filter_ids ids =
    if ltb max_filter_ids (length ids) then raise validation else validate_each ids
