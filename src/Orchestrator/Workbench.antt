-- ===== src/Orchestrator/Workbench.antt =====
-- services/orchestrator/src/orchestrator/mcp_workbench.py: the tool workbench of one agent. The
-- session with the tool server is a parameter: a state that only its calls change.
use agent_exec_platform.Common.{
  Bool, true, false, not, ◌&&◌, List, [], ◌∷◌, ◌++◌, Text, codes, contains, is_substring, join,
  if◌then◌else◌, Option, none, some,
}
use agent_exec_platform.Common.Outcome.{Outcome, ok, raise}

pub record Workbench : Type 0 where
  pub tenant_id : Text
  pub allowed : List Text
  pub mutating : List Text
  pub approved : Bool
  pub pending_approvals : List Text

pub record ToolResult : Type 0 where
  pub name : Text
  pub result : Text
  pub is_error : Bool

-- A content block of the tool server: a text, or another block with its `str`.
pub data Content : Type 0 where
  text_content : Text → Content
  other_content : Text → Content

-- What the tool server answers to a call, and what it lists.
pub record CallResult : Type 0 where
  pub content : List Content
  pub is_error : Bool

pub record ServerTool (Json : Type 0) : Type 0 where
  pub name : Text
  pub description : Option Text
  pub input_schema : Option Json

pub record ToolSchema (Json : Type 0) : Type 0 where
  pub name : Text
  pub description : Text
  pub parameters : Json

-- The tool server as the client sees it; `raise` carries the text of an exception.
pub record Server : Type 1 where
  pub State : Type 0
  pub Json : Type 0
  pub call : Text → Text → Json → State → Outcome Text CallResult × State
  pub list : Text → State → Outcome Text (List (ServerTool Json)) × State
  -- the type, properties and required entries of a schema, with their defaults
  pub parameters_of : Option Json → Json
  -- Python's `repr` of a string
  pub repr : Text → Text

abbrev pub approval_required_marker : Text
approval_required_marker = codes "APPROVAL_REQUIRED"

abbrev pub text_of : Content → Text
text_of (text_content s) = s
text_of (other_content s) = s

abbrev pub texts_of : List Content → List Text
texts_of [] = []
texts_of (c ∷ cs) = text_of c ∷ texts_of cs

-- _render_content
unfoldable pub render_content : List Content → Text
unfolding join
render_content items = join (codes "\n") (texts_of items)

abbrev pub or_blank : Option Text → Text
or_blank none = []
or_blank (some s) = s

abbrev pub record_approval : Text → Workbench → Workbench
record_approval content b = record b { pending_approvals = b.pending_approvals ++ content ∷ [] }

module _ (server : Server) where
  -- The content of a refusal that waits for a human.
  unfoldable pub refusal_content : Text → Text
  refusal_content name =
      approval_required_marker
      ++ codes ": tool "
      ++ server.repr name
      ++ codes " performs a mutating action and requires human approval before it can run."

  -- The end of `call_tool`, given what the session gave.
  unfoldable pub finish_call :
      Workbench
      → Text
      → Outcome Text CallResult × server.State
      → ToolResult × Workbench × server.State
  unfolding render_content is_substring
  finish_call b name (raise e, s) =
      (record { name = name; result = codes "Tool call failed: " ++ e; is_error = true }, b, s)
  finish_call b name (ok r, s) =
      let content = render_content r.content in
      let result : ToolResult = record { name = name; result = content; is_error = r.is_error } in
      if is_substring approval_required_marker content
      then (result, record_approval content b, s)
      else (result, b, s)

  -- call_tool
  unfoldable pub call_tool :
      Text → server.Json → Workbench → server.State → ToolResult × Workbench × server.State
  unfolding finish_call refusal_content
  call_tool name arguments b s =
      if not (contains b.allowed name)
      then (
        record {
          name = name;
          result = codes "Tool " ++ server.repr name ++ codes " is not permitted for this agent.";
          is_error = true;
        },
        b,
        s,
      )
      else if contains b.mutating name && not b.approved
      then (
        record { name = name; result = refusal_content name; is_error = false },
        record_approval (refusal_content name) b,
        s,
      )
      else finish_call b name (server.call b.tenant_id name arguments s)

  -- The loop of `list_tools` over what the server lists.
  unfoldable pub granted_schemas :
      List Text → List (ServerTool server.Json) → List (ToolSchema server.Json)
  granted_schemas allowed [] = []
  granted_schemas allowed (tool ∷ tools) =
      let rest = granted_schemas allowed tools in
      if contains allowed tool.name
      then record {
        name = tool.name;
        description = or_blank tool.description;
        parameters = server.parameters_of tool.input_schema;
      }
        ∷ rest
      else rest

  abbrev listed :
      List Text
      → Outcome Text (List (ServerTool server.Json)) × server.State
      → List (ToolSchema server.Json) × server.State
  listed allowed (raise e, s) = ([], s)
  listed allowed (ok tools, s) = (granted_schemas allowed tools, s)

  -- list_tools; an empty grant opens no session, a failure lists nothing
  abbrev list_granted :
      List Text → Text → server.State → List (ToolSchema server.Json) × server.State
  list_granted [] tenant s = ([], s)
  list_granted (a ∷ allowed) tenant s = listed (a ∷ allowed) (server.list tenant s)

  unfoldable pub list_tools :
      Workbench → server.State → List (ToolSchema server.Json) × server.State
  unfolding granted_schemas
  list_tools b s = list_granted b.allowed b.tenant_id s
