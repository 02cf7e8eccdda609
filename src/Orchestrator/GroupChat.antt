-- ===== src/Orchestrator/GroupChat.antt =====
-- services/orchestrator/src/orchestrator/groupchat.py: the participants, the selection of speakers and
-- the end of a run's group chat. AutoGen is not part of the repository: what the code hands its
-- constructors is data. Python's `repr` of a string is a parameter.
use agent_exec_platform.Common.{
  ℕ, Bool, true, false, Option, none, some, List, [], ◌∷◌, ◌++◌, map, Text, codes, text_eq, any,
  ltb, length, if◌then◌else◌,
}
use agent_exec_platform.Orchestrator.AgentsRepo.{AgentSpec}
use agent_exec_platform.Orchestrator.Workbench.{Workbench}

-- Who sits in a group chat.
pub data Role (Number : Type 0) : Type 0 where
  domain : AgentSpec Number → Role Number
  planner placeholder : Role Number

unfoldable pub planner_name : Text
planner_name = codes "Planner"

unfoldable pub placeholder_name : Text
placeholder_name = codes "Placeholder"

-- The display name, of which the slug is made.
unfoldable pub role_name : {Number : Type 0} → Role Number → Text
unfolding planner_name placeholder_name
role_name (domain spec) = spec.name
role_name planner = planner_name
role_name placeholder = placeholder_name

abbrev pub is_domain : {Number : Type 0} → Role Number → Bool
is_domain (domain spec) = true
is_domain _ = false

abbrev pub is_planner : {Number : Type 0} → Role Number → Bool
is_planner planner = true
is_planner _ = false

-- A condition that ends the run of a team.
pub data Termination : Type 0 where
  max_message : ℕ → Termination
  source_match : List Text → Termination
  text_message : Text → Termination
  either : Termination → Termination → Termination

-- The override of the speaker selection.
pub data Selector : Type 0 where
  plan_selector : Text → Selector
  solo_selector : Text → Selector

-- The tests of the sources of a thread's messages.
unfoldable pub has_source : Text → List Text → Bool
unfolding any text_eq
has_source name thread = any (λ source. text_eq source name) thread

-- The functions that _make_plan_selector and _make_solo_selector return, on the sources of a thread;
-- `none` leaves the choice to the model.
unfoldable pub select_speaker : Selector → List Text → Option Text
unfolding has_source
select_speaker (plan_selector slug) thread =
    if has_source (codes "system") thread
    then (if has_source slug thread then none else some slug)
    else none
select_speaker (solo_selector slug) thread = some slug

abbrev text_answers : Termination → List Text → Termination
text_answers t [] = t
text_answers t (slug ∷ slugs) = text_answers (either t (text_message slug)) slugs

-- _execution_termination
unfoldable pub execution_termination : ℕ → List Text → Termination
execution_termination max_messages slugs = text_answers (max_message max_messages) slugs

-- The workbench of an agent.
unfoldable pub workbench_of : {Number : Type 0} → Text → Bool → AgentSpec Number → Workbench
workbench_of tenant approved spec = record {
  tenant_id = tenant;
  allowed = spec.tool_names;
  mutating = spec.mutating_tool_names;
  approved = approved;
  pending_approvals = [];
}

abbrev pub first : (Text → Selector) → List Text → Option Selector
first make [] = none
first make (slug ∷ slugs) = some (make slug)

-- The participants with their slugs.
abbrev pub Seats : Type 0 → Type 0
Seats Number = List (Text × Role Number)

module _ {Number : Type 0} where
  -- Everyone who sits in the chat, in order: the planner only in a planning call, the placeholder
  -- only beside a single agent that executes.
  unfoldable pub roster : Bool → List (AgentSpec Number) → List (Role Number)
  roster true specs = map domain specs ++ planner ∷ []
  roster false specs = map domain specs ++ (if ltb (length specs) 2 then placeholder ∷ [] else [])

  unfoldable pub seats : List Text → List (Role Number) → Seats Number
  seats (slug ∷ slugs) (role ∷ roles) = (slug, role) ∷ seats slugs roles
  seats _ _ = []

  unfoldable pub workbenches_of : Text → Bool → Seats Number → List Workbench
  unfolding workbench_of
  workbenches_of tenant approved [] = []
  workbenches_of tenant approved ((slug, domain spec) ∷ rest) =
      workbench_of tenant approved spec ∷ workbenches_of tenant approved rest
  workbenches_of tenant approved ((slug, planner) ∷ rest) = workbenches_of tenant approved rest
  workbenches_of tenant approved ((slug, placeholder) ∷ rest) = workbenches_of tenant approved rest

  -- The slugs of those whose role passes a test.
  unfoldable pub slugs_where : (Role Number → Bool) → Seats Number → List Text
  slugs_where p [] = []
  slugs_where p ((slug, role) ∷ rest) =
      let others = slugs_where p rest in if p role then slug ∷ others else others

  unfoldable pub name_by_slug : Seats Number → List (Text × Text)
  unfolding role_name
  name_by_slug [] = []
  name_by_slug ((slug, role) ∷ rest) = (slug, role_name role) ∷ name_by_slug rest

  -- selector_func
  unfoldable pub selector_of : Bool → List (AgentSpec Number) → Seats Number → Option Selector
  unfolding slugs_where
  selector_of true specs table = first plan_selector (slugs_where is_planner table)
  selector_of false specs table =
      if ltb (length specs) 2 then first solo_selector (slugs_where is_domain table) else none

  unfoldable pub termination_of : ℕ → Bool → Seats Number → Termination
  unfolding execution_termination slugs_where
  termination_of max_messages true table =
      either (max_message max_messages) (source_match (slugs_where is_planner table))
  termination_of max_messages false table =
      execution_termination max_messages (slugs_where is_domain table)
