-- ===== src/Orchestrator/AgentsRepo.antt =====
-- services/orchestrator/src/orchestrator/agents_repo.py: the agents of a tenant with the names of the
-- tools that they were granted, read from the catalog of the task service. The order of names that
-- `ORDER BY` follows is a parameter.
use agent_exec_platform.Common.{
  Bool, ◌&&◌, none, some, List, [], ◌∷◌, ◌++◌, map, Text, text_eq, contains, filter,
}
use agent_exec_platform.Database.Table.{Table, by_key}
use agent_exec_platform.Aes.Tools.{ToolRow, tool_id}
use agent_exec_platform.Aes.Agents.{AgentRow, agent_id, AgentToolRow, Catalog, tools_of}

pub record AgentSpec (Number : Type 0) : Type 0 where
  pub id : Text
  pub name : Text
  pub instructions : Text
  pub llm_config_name : Text
  pub llm_config_temperature : Number
  pub tool_names : List Text
  pub mutating_tool_names : List Text

-- The ids of the tools that any of the agents has.
abbrev pub linked_ids : {Number : Type 0} → List (AgentRow Number) → List AgentToolRow → List Text
linked_ids [] links = []
linked_ids (r ∷ rs) links = tools_of r.id links ++ linked_ids rs links

-- [tools_by_id[i] for i in ids if i in tools_by_id]
unfoldable pub granted : List Text → List ToolRow → List ToolRow
unfolding by_key
granted [] tools = []
granted (i ∷ is) tools =
    let rest = granted is tools in elim (by_key tool_id i tools) [ none ↦ rest | some t ↦ t ∷ rest ]

abbrev pub tool_name : ToolRow → Text
tool_name t = t.name

abbrev pub is_mutating : ToolRow → Bool
is_mutating t = t.mutating

unfoldable pub spec_of : {Number : Type 0} → List ToolRow → AgentRow Number → AgentSpec Number
unfolding filter
spec_of tools r = record {
  id = r.id;
  name = r.name;
  instructions = r.instructions;
  llm_config_name = r.llm_config_name;
  llm_config_temperature = r.llm_config_temperature;
  tool_names = map tool_name tools;
  mutating_tool_names = map tool_name (filter is_mutating tools);
}

module _ {Number : Type 0} (agents : Table (AgentRow Number) agent_id)
    (tools : Table ToolRow tool_id) where
  -- The rows of `tools_by_id`.
  unfoldable pub tools_by_id : Text → List Text → Catalog agents tools → List ToolRow
  unfolding text_eq contains
  tools_by_id tenant [] c = []
  tools_by_id tenant (i ∷ is) c =
      tools.select (λ t. text_eq t.tenant_id tenant && contains (i ∷ is) t.id) c.tool_rows

  -- The loop over the rows of the agents.
  abbrev pub specs_of :
      List ToolRow → List AgentToolRow → List (AgentRow Number) → List (AgentSpec Number)
  specs_of by_id links rows = map (λ r. spec_of (granted (tools_of r.id links) by_id) r) rows

  -- list_agents_for_tenant
  unfoldable pub list_agents_for_tenant :
      (List (AgentRow Number) → List (AgentRow Number))
      → Text
      → Catalog agents tools
      → List (AgentSpec Number)
  unfolding tools_of granted spec_of tools_by_id text_eq
  list_agents_for_tenant by_name tenant c =
      let rows = by_name (agents.select (λ r. text_eq r.tenant_id tenant) c.agent_rows) in
      specs_of (tools_by_id tenant (linked_ids rows c.links) c) c.links rows
