-- ===== src/Aes/Malformed.antt =====
-- services/agent_execution_service/src/agent_execution_service/validators.py: the requests of the task
-- service, and which of them have a malformed field.
use agent_exec_platform.Common.{
  Bool, true, false, ◌||◌, Option, none, some, List, [], ◌∷◌, Text, any, length, ltb, is_blank, ◌≡◌,
  refl, Bool-cases, inl, inr, arith,
}
use agent_exec_platform.Common.Outcome.{Outcome, raise, ◌>>=◌}
use agent_exec_platform.Aes.Models.{AppError, validation}
use agent_exec_platform.Aes.Agents.{AgentFields}
use agent_exec_platform.Aes.Validators.{
  validate_task_input, validate_text, validate_agent_tool_ids, validate_filter_ids, validate_each,
  max_filter_ids, max_input_len,
}
use agent_exec_platform.Aes.Servicer.{agent_checks}

-- The requests of the service.
pub data Rpc (Number : Type 0) : Type 0 where
  create_agent : AgentFields Number → List Text → Rpc Number
  update_agent : Text → AgentFields Number → List Text → Rpc Number
  create_tool : Text → Option Text → Bool → Rpc Number
  update_tool : Text → Text → Text → Bool → Rpc Number
  get_agent get_tool get_task : List Text → Rpc Number
  delete_agent delete_tool approve_task retry_task get_task_progress : Text → Rpc Number
  create_task : Text → Rpc Number

abbrev pub is_empty : List Text → Bool
is_empty [] = true
is_empty (i ∷ is) = false

abbrev pub too_many : List Text → Bool
too_many ids = ltb max_filter_ids (length ids) || any is_blank ids

-- Which requests have a field that no caller may send: a blank id, name, text or entry of a filter, an
-- agent with no tool, an input or a filter that is too long.
abbrev pub is_malformed : {Number : Type 0} → Rpc Number → Bool
is_malformed (create_agent fields ids) =
    is_blank fields.name || (is_blank fields.instructions || is_empty ids)
is_malformed (update_agent id fields ids) =
    is_blank id || (is_blank fields.name || (is_blank fields.instructions || is_empty ids))
is_malformed (create_tool name description mutating) = is_blank name
is_malformed (update_tool id name description mutating) = is_blank id || is_blank name
is_malformed (get_agent ids) = too_many ids
is_malformed (get_tool ids) = too_many ids
is_malformed (get_task ids) = too_many ids
is_malformed (delete_agent id) = is_blank id
is_malformed (delete_tool id) = is_blank id
is_malformed (approve_task id) = is_blank id
is_malformed (retry_task id) = is_blank id
is_malformed (get_task_progress id) = is_blank id
is_malformed (create_task input) = is_blank input || ltb max_input_len (length input)

-- Whether a tenant is given.
abbrev pub names_tenant : Option Text → Bool
names_tenant none = false
names_tenant (some []) = false
names_tenant (some (c ∷ t)) = true

pub validate_each-any :
    (ids : List Text) → any is_blank ids ≡ true → validate_each ids ≡ raise validation
unfolding validate_each any
validate_each-any [] h = ground (arith, h)
validate_each-any (i ∷ is) h = ground (arith, h, validate_each-any is)

pub filter_lem :
    (ids : List Text) → too_many ids ≡ true → validate_filter_ids ids ≡ raise validation
unfolding validate_filter_ids
filter_lem ids h = ground (arith, h, validate_each-any ids)

-- Two checks of which one fails.
pub then_lem :
    (value : Text) (b : Bool) (rest : Outcome AppError (Unit {0}))
    → (b ≡ true → rest ≡ raise validation)
    → (is_blank value || b) ≡ true
    → (validate_text value >>= (λ u. rest)) ≡ raise validation
unfolding validate_text
then_lem value b rest f h = elim (Bool-cases (is_blank value)) [
  | inl e ↦ rw e refl
  | inr e ↦ rw e (f (ground (arith, e, h)))
]

pub text_lem : (value : Text) → is_blank value ≡ true → validate_text value ≡ raise validation
unfolding validate_text
text_lem value h = rw h refl

pub agent_lem :
    {Number : Type 0} (fields : AgentFields Number) (ids : List Text)
    → (is_blank fields.name || (is_blank fields.instructions || is_empty ids)) ≡ true
    → agent_checks fields ids ≡ raise validation
unfolding validate_agent_tool_ids
agent_lem fields ids h =
    then_lem fields.name (is_blank fields.instructions || is_empty ids) _
      (λ e.
        then_lem fields.instructions (is_empty ids) (validate_agent_tool_ids ids) (none_lem ids) e)
      h
  where
    none_lem : (is : List Text) → is_empty is ≡ true → validate_agent_tool_ids is ≡ raise validation
    none_lem [] e = refl
    none_lem (i ∷ is) e = ground (arith, e)

pub input_lem :
    (input : Text)
    → (is_blank input || ltb max_input_len (length input)) ≡ true
    → validate_task_input input ≡ raise validation
unfolding validate_task_input
input_lem input h = ground (arith, h)
