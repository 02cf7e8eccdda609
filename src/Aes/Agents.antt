-- ===== src/Aes/Agents.antt =====
-- services/agent_execution_service/src/agent_execution_service/services/agents.py: the methods of
-- `AgentService` over the tables of agents and tools and the links between them, and what the
-- cascades of the foreign keys make of a deletion. A method that raises changes nothing.
use agent_exec_platform.Common.{
  ℕ, ◌+◌, Bool, true, false, not, ◌&&◌, Option, none, some, List, [], ◌∷◌, ◌++◌, map, Text, text_eq,
  contains, filter, if◌then◌else◌,
}
use agent_exec_platform.Common.Outcome.{Outcome, ok, raise}
use agent_exec_platform.Database.Table.{Table}
use agent_exec_platform.JobSvc.Jobs.Values.{in_filter}
use agent_exec_platform.Aes.Models.{AppError, app_error, not_found}
use agent_exec_platform.Aes.Tools.{ToolRow, tool_id, create_tool, update_tool, delete_tool}

-- A row of the agents table; the temperature is an uninterpreted number.
pub record AgentRow (Number : Type 0) : Type 0 where
  pub id : Text
  pub tenant_id : Text
  pub name : Text
  pub instructions : Text
  pub llm_config_name : Text
  pub llm_config_temperature : Number
  pub version : ℕ
  pub created_at : ℕ
  pub updated_at : ℕ

abbrev pub agent_id : {Number : Type 0} → AgentRow Number → Text
agent_id r = r.id

-- A row of agent_tools.
pub record AgentToolRow : Type 0 where
  pub agent : Text
  pub tool : Text

-- What a caller gives of an agent, less the tools.
pub record AgentFields (Number : Type 0) : Type 0 where
  pub name : Text
  pub instructions : Text
  pub llm_config_name : Text
  pub llm_config_temperature : Number

unfoldable pub new_agent :
    {Number : Type 0} → Text → ℕ → Text → AgentFields Number → AgentRow Number
new_agent id now tenant f = record {
  id = id;
  tenant_id = tenant;
  name = f.name;
  instructions = f.instructions;
  llm_config_name = f.llm_config_name;
  llm_config_temperature = f.llm_config_temperature;
  version = 1;
  created_at = now;
  updated_at = now;
}

-- The assignments of `update`.
unfoldable pub agent_values :
    {Number : Type 0} → ℕ → AgentFields Number → AgentRow Number → AgentRow Number
agent_values now f r = record r {
  name = f.name;
  instructions = f.instructions;
  llm_config_name = f.llm_config_name;
  llm_config_temperature = f.llm_config_temperature;
  version = r.version + 1;
  updated_at = now;
}

-- The tool ids of an agent.
unfoldable pub tools_of : Text → List AgentToolRow → List Text
unfolding text_eq
tools_of id [] = []
tools_of id (l ∷ ls) =
    let rest = tools_of id ls in if text_eq l.agent id then l.tool ∷ rest else rest

-- The links that a deletion leaves.
unfoldable pub without_agent : Text → List AgentToolRow → List AgentToolRow
unfolding filter text_eq
without_agent id links = filter (λ l. not (text_eq l.agent id)) links

unfoldable pub without_tool : Text → List AgentToolRow → List AgentToolRow
unfolding filter text_eq
without_tool id links = filter (λ l. not (text_eq l.tool id)) links

abbrev pub link : Text → Text → AgentToolRow
link agent tool = record { agent = agent; tool = tool }

-- row is None or row.tenant_id != tenant_id
unfoldable pub own_agent :
    {Number : Type 0} → Text → Option (AgentRow Number) → Option (AgentRow Number)
own_agent tenant none = none
own_agent tenant (some r) = if text_eq r.tenant_id tenant then some r else none

module _ {Number : Type 0} (agents : Table (AgentRow Number) agent_id)
    (tools : Table ToolRow tool_id) where
  -- The three tables.
  pub record Catalog : Type 0 where
    pub agent_rows : agents.Db
    pub tool_rows : tools.Db
    pub links : List AgentToolRow

  -- The ids that `_link_tools` links: those of the tenant's tools among the given ones.
  unfoldable pub valid_ids : Text → List Text → Catalog → List Text
  unfolding text_eq contains
  valid_ids tenant [] c = []
  valid_ids tenant (i ∷ is) c =
      map tool_id
        (tools.select (λ r. text_eq r.tenant_id tenant && contains (i ∷ is) r.id) c.tool_rows)

  abbrev pub with_links : Text → List Text → Catalog → Catalog
  with_links id valid c = record c { links = c.links ++ map (link id) valid }

  -- An agent with the ids of its tools.
  abbrev pub Listed : Type 0
  Listed = AgentRow Number × List Text

  abbrev pub inserted :
      AgentRow Number → List Text → Catalog → Option agents.Db → Outcome AppError Listed × Catalog
  inserted row valid c none = (raise app_error, c)
  inserted row valid c (some db) =
      (ok (row, valid), with_links row.id valid (record c { agent_rows = db }))

  -- create
  unfoldable pub create_agent :
      Text → ℕ → Text → AgentFields Number → List Text → Catalog → Outcome AppError Listed × Catalog
  unfolding new_agent valid_ids
  create_agent id now tenant fields tool_ids c =
      let row = new_agent id now tenant fields in
      inserted row (valid_ids tenant tool_ids c) c (agents.insert row c.agent_rows)

  -- get
  unfoldable pub get_agents : Text → List Text → Catalog → List Listed
  unfolding in_filter tools_of text_eq
  get_agents tenant ids c =
      map (λ r. (r, tools_of r.id c.links))
        (agents.select (λ r. text_eq r.tenant_id tenant && in_filter ids r.id) c.agent_rows)

  abbrev pub is_nonempty : List (AgentRow Number) → Bool
  is_nonempty [] = false
  is_nonempty (r ∷ rs) = true

  -- has_any
  unfoldable pub has_any : Text → Catalog → Bool
  unfolding text_eq
  has_any tenant c = is_nonempty (agents.select (λ r. text_eq r.tenant_id tenant) c.agent_rows)

  -- The part of `update` after the row is found.
  abbrev pub change_agent :
      ℕ → AgentFields Number → List Text → AgentRow Number → Catalog → Listed × Catalog
  change_agent now fields valid r c =
      let values = agent_values now fields in
      (
        (values r, valid),
        with_links r.id valid (record c {
          agent_rows = (agents.update_one r.id (λ q. true) values c.agent_rows).1;
          links = without_agent r.id c.links;
        }),
      )

  abbrev pub succeeded : {A : Type 0} → A × Catalog → Outcome AppError A × Catalog
  succeeded (a, c) = (ok a, c)

  -- update
  unfoldable pub update_agent :
      Text → Text → ℕ → AgentFields Number → List Text → Catalog → Outcome AppError Listed × Catalog
  unfolding own_agent agent_values without_agent valid_ids
  update_agent tenant id now fields tool_ids c =
      elim (own_agent tenant (agents.find id c.agent_rows)) [
        | none ↦ (raise (not_found id), c)
        | some r ↦ succeeded (change_agent now fields (valid_ids tenant tool_ids c) r c)
      ]

  -- delete; the links of the agent go with it
  unfoldable pub delete_agent : Text → Text → Catalog → Outcome AppError (Unit {0}) × Catalog
  unfolding own_agent without_agent
  delete_agent tenant id c = elim (own_agent tenant (agents.find id c.agent_rows)) [
    | none ↦ (raise (not_found id), c)
    | some r ↦ (
      ok tt,
      record c { agent_rows = agents.delete r.id c.agent_rows; links = without_agent r.id c.links },
    )
  ]

  abbrev pub stored_tool :
      {A : Type 0} → Catalog → Outcome AppError A × tools.Db → Outcome AppError A × Catalog
  stored_tool c (r, db) = (r, record c { tool_rows = db })

  -- The methods of `ToolService` on the catalog.
  unfoldable pub add_tool :
      Text → ℕ → Text → Text → Option Text → Bool → Catalog → Outcome AppError ToolRow × Catalog
  unfolding create_tool
  add_tool id now tenant name description mutating c =
      stored_tool c (create_tool tools id now tenant name description mutating c.tool_rows)

  unfoldable pub change_tool_row :
      Text → Text → ℕ → Text → Text → Bool → Catalog → Outcome AppError ToolRow × Catalog
  unfolding update_tool
  change_tool_row tenant id now name description mutating c =
      stored_tool c (update_tool tools tenant id now name description mutating c.tool_rows)

  abbrev pub removed_tool :
      Text
      → Catalog
      → Outcome AppError (Unit {0}) × tools.Db
      → Outcome AppError (Unit {0}) × Catalog
  removed_tool id c (raise e, db) = (raise e, c)
  removed_tool id c (ok u, db) =
      (ok u, record c { tool_rows = db; links = without_tool id c.links })

  -- delete of ToolService; the links to the tool go with it
  unfoldable pub remove_tool : Text → Text → Catalog → Outcome AppError (Unit {0}) × Catalog
  unfolding delete_tool without_tool
  remove_tool tenant id c = removed_tool id c (delete_tool tools tenant id c.tool_rows)
