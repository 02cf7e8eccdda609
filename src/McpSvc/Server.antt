-- ===== src/McpSvc/Server.antt =====
-- services/mcp_svc/src/mcp_svc/server.py and tools.py: the calls and the listing of tools. The
-- handlers that are registered are a parameter, as is the order that SQL gives to names.
use agent_exec_platform.Common.{
  ◌&&◌, Option, none, some, List, [], ◌∷◌, Text, codes, text_eq, filter, if◌then◌else◌,
}
use agent_exec_platform.Common.Outcome.{Outcome, ok, raise}

pub record ToolRow : Type 0 where
  pub id : Text
  pub tenant_id : Text
  pub name : Text
  pub description : Option Text

-- A handler: what it needs as arguments, and what running it for a tenant does to the world.
pub record Handler (World Json : Type 0) : Type 0 where
  pub description : Text
  pub input_schema : Json
  pub run : Json → Text → World → Outcome Text Text × World

pub record McpTool (Json : Type 0) : Type 0 where
  pub name : Text
  pub description : Text
  pub input_schema : Json

-- The result of a call: a text, or the text of an error.
pub data CallToolResult : Type 0 where
  text_result : Text → CallToolResult
  error_result : Text → CallToolResult

-- The first row of a tenant with a name.
unfoldable pub get_tool_by_name : Text → Text → List ToolRow → Option ToolRow
unfolding text_eq
get_tool_by_name tenant name [] = none
get_tool_by_name tenant name (r ∷ rs) =
    if text_eq r.tenant_id tenant && text_eq r.name name
    then some r
    else get_tool_by_name tenant name rs

-- list_tools_for_tenant, before its ORDER BY
unfoldable pub tools_of_tenant : Text → List ToolRow → List ToolRow
unfolding text_eq filter
tools_of_tenant tenant rows = filter (λ r. text_eq r.tenant_id tenant) rows

module _ {World Json : Type 0} (get_handler : Text → Option (Handler World Json))
    (no_schema : Json) where
  abbrev schema_of : Option (Handler World Json) → Json
  schema_of none = no_schema
  schema_of (some h) = h.input_schema

  abbrev default_description : Option (Handler World Json) → Text
  default_description none = []
  default_description (some h) = h.description

  abbrev description_of : Option Text → Option (Handler World Json) → Text
  description_of none h = default_description h
  description_of (some []) h = default_description h
  description_of (some (c ∷ s)) h = c ∷ s

  -- The loop of `_on_list_tools`.
  unfoldable pub on_list_tools : List ToolRow → List (McpTool Json)
  on_list_tools [] = []
  on_list_tools (r ∷ rs) =
      record {
        name = r.name;
        description = description_of r.description (get_handler r.name);
        input_schema = schema_of (get_handler r.name);
      }
      ∷ on_list_tools rs

  abbrev pub ran : Outcome Text Text × World → CallToolResult × World
  ran (ok text, w) = (text_result text, w)
  ran (raise e, w) = (error_result e, w)

  abbrev pub dispatch : Option (Handler World Json) → Json → Text → World → CallToolResult × World
  dispatch none arguments tenant w = (error_result (codes "no execution binding configured"), w)
  dispatch (some h) arguments tenant w = ran (h.run arguments tenant w)

  -- _on_call_tool: the catalog first, then the handler
  unfoldable pub on_call_tool : List ToolRow → Text → Text → Json → World → CallToolResult × World
  unfolding get_tool_by_name
  on_call_tool rows tenant name arguments w = elim (get_tool_by_name tenant name rows) [
    | none ↦ (error_result (codes "not found in the catalog"), w)
    | some tool ↦ dispatch (get_handler name) arguments tenant w
  ]
