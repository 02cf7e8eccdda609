-- ===== src/Orchestrator/Team.antt =====
-- services/orchestrator/src/orchestrator/groupchat.py: the team and the session that
-- `build_group_chat` makes. AutoGen's constructors are not part of the repository: what the code hands
-- them is data. Python's `repr` of a string is a parameter.
use agent_exec_platform.Common.{
  ℕ, Bool, true, Option, none, some, List, [], ◌∷◌, ◌++◌, map, Text, codes, join,
}
use agent_exec_platform.Common.Outcome.{Outcome, ok, raise}
use agent_exec_platform.Orchestrator.AgentsRepo.{AgentSpec}
use agent_exec_platform.Orchestrator.Slugs.{Characters, slugify_all}
use agent_exec_platform.Orchestrator.Workbench.{Workbench}
use agent_exec_platform.Orchestrator.ModelClient.{ModelClient, new_client}
use agent_exec_platform.Orchestrator.GroupChat.{
  Role, domain, planner, placeholder, Termination, Selector, Seats, role_name, roster, seats,
  workbench_of, workbenches_of, name_by_slug, selector_of, termination_of,
}

unfoldable pub selector_prompt : Text
selector_prompt =
    codes
      "You are coordinating a team of agents. The available roles are:\n{roles}\n\nRead the conversation so far:\n{history}\n\nSelect the single role from {participants} best suited to make progress on the\nuser's most recent request. Prefer the one agent that owns the tools or domain\nthe request needs, and keep picking that same agent until it has produced a\ncomplete natural-language answer. Once the request has been answered, do not pick\nanother agent to restate or acknowledge it. Return only that role's name.\n"

unfoldable pub planner_system_message : Text
planner_system_message =
    codes
      "You are the team's task planner. Break the user's request into the FEWEST self-contained sub-prompts needed, each one carried out end to end by a single tool-using agent (an agent may make several tool calls within one sub-prompt). Prefer a SINGLE sub-prompt whenever the whole request can be answered in one agent turn; do not split a single lookup-and-compute into separate steps. Return ONLY a JSON array of strings (one sub-prompt per element), with no surrounding text. You have no tools: never execute the task or call a tool, only produce the plan."

unfoldable pub planner_description : Text
planner_description =
    codes
      "Task planner: decomposes the initial request into an ordered plan (a JSON array of sub-prompts). Has no tools and never executes a step -- pick it only to produce the plan, never to carry out a concrete sub-task."

unfoldable pub placeholder_system_message : Text
placeholder_system_message =
    codes
      "You are an inactive placeholder and will never be asked to respond. If you somehow are, reply with a single space and nothing else."

unfoldable pub placeholder_description : Text
placeholder_description =
    codes
      "Inactive placeholder with no tools; exists only to pad a single-agent team to the group chat's required minimum. Never select it."

abbrev instructed : Text → List Text → Text
instructed instructions [] = instructions
instructed instructions (t ∷ ts) =
    instructions
    ++ codes
        "\n\nYou are attached to the MCP tool server. You may ONLY make the following tool calls and none other: "
    ++ join (codes ", ") (t ∷ ts)
    ++ codes ". You must not call any other tool under any circumstances."

-- _agent_system_message
unfoldable pub agent_system_message : {Number : Type 0} → AgentSpec Number → Text
unfolding join
agent_system_message spec = instructed spec.instructions spec.tool_names

-- What an `AssistantAgent` is made of.
pub record Participant (Number : Type 0) : Type 0 where
  pub name : Text
  pub client : ModelClient Number
  pub workbench : Option Workbench
  pub system_message : Text
  pub description : Text

abbrev pub client_of : {Number : Type 0} → Participant Number → ModelClient Number
client_of p = p.client

pub record Team (Number : Type 0) : Type 0 where
  pub participants : List (Participant Number)
  pub client : ModelClient Number
  pub termination : Termination
  pub selector_prompt : Text
  pub allow_repeated_speaker : Bool
  pub selector : Option Selector

pub record GroupChatSession (Number : Type 0) : Type 0 where
  pub team : Team Number
  pub name_by_slug : List (Text × Text)
  pub clients : List (ModelClient Number)
  pub workbenches : List Workbench

pub data ChatError : Type 0 where
  no_agents : ChatError

module _ {Number : Type 0} (zero_temperature : Number) (repr : Text → Text) where
  abbrev pub role_client : Role Number → ModelClient Number
  role_client (domain spec) = new_client spec.llm_config_temperature
  role_client _ = new_client zero_temperature

  -- One `AssistantAgent`.
  unfoldable pub participant_of : Text → Bool → Text → Role Number → Participant Number
  unfolding workbench_of agent_system_message
  participant_of tenant approved slug (domain spec) = record {
    name = slug;
    client = role_client (domain spec);
    workbench = some (workbench_of tenant approved spec);
    system_message = agent_system_message spec;
    description =
        codes "Domain agent " ++ repr spec.name ++ codes " (agent id " ++ spec.id ++ codes ").";
  }
  participant_of tenant approved slug planner = record {
    name = slug;
    client = role_client planner;
    workbench = none;
    system_message = planner_system_message;
    description = planner_description;
  }
  participant_of tenant approved slug placeholder = record {
    name = slug;
    client = role_client placeholder;
    workbench = none;
    system_message = placeholder_system_message;
    description = placeholder_description;
  }

  unfoldable pub participants_of : Text → Bool → Seats Number → List (Participant Number)
  unfolding participant_of
  participants_of tenant approved [] = []
  participants_of tenant approved ((slug, role) ∷ rest) =
      participant_of tenant approved slug role ∷ participants_of tenant approved rest

  -- The session that is made of the seats.
  unfoldable pub session_of :
      ℕ → Text → Bool → Bool → List (AgentSpec Number) → Seats Number → GroupChatSession Number
  unfolding participants_of selector_of termination_of name_by_slug workbenches_of
  session_of max_messages tenant approved planning specs table = record {
    team = record {
      participants = participants_of tenant approved table;
      client = new_client zero_temperature;
      termination = termination_of max_messages planning table;
      selector_prompt = selector_prompt;
      allow_repeated_speaker = true;
      selector = selector_of planning specs table;
    };
    name_by_slug = name_by_slug table;
    clients =
        map client_of (participants_of tenant approved table) ++ new_client zero_temperature ∷ [];
    workbenches = workbenches_of tenant approved table;
  }

  abbrev pub seated :
      (List Text → GroupChatSession Number)
      → Option (List Text)
      → Option (Outcome ChatError (GroupChatSession Number))
  seated make none = none
  seated make (some slugs) = some (ok (make slugs))

  -- build_group_chat, given the agents of the tenant; `none` is a loop of `_slugify` that does not end
  unfoldable pub build_group_chat :
      Characters
      → ℕ
      → Text
      → Bool
      → Bool
      → List (AgentSpec Number)
      → Option (Outcome ChatError (GroupChatSession Number))
  unfolding slugify_all roster seats session_of role_name
  build_group_chat k max_messages tenant approved planning [] = some (raise no_agents)
  build_group_chat k max_messages tenant approved planning (spec ∷ specs) =
      let roles = roster planning (spec ∷ specs) in
      seated
        (λ slugs.
          session_of max_messages tenant approved planning (spec ∷ specs) (seats slugs roles))
        (slugify_all k (map role_name roles) [])
