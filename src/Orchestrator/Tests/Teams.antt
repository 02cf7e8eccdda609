-- ===== src/Orchestrator/Tests/Teams.antt =====
-- A group chat over a small catalog, and the uses of the theorems on teams and on the wire.
use agent_exec_platform.Common.{
  suc, ◌↔◌, arith, some, text_eq, text_eq_iff, contains, ℕ, true, false, not, List, [], ◌∷◌, filter,
  Text, codes, none, ◌≡◌, refl, All,
}
use agent_exec_platform.Common.Outcome.{Outcome, ok, raise}
use agent_exec_platform.Common.Grpc.{code_unavailable, code_failed_precondition}
use agent_exec_platform.Orchestrator.Servicer.{TeamFailure, gateway_failed, TeamResult, handle_chat}
use agent_exec_platform.Orchestrator.Precondition.{handle_chat-has_any}
use agent_exec_platform.Aes.Agents.{has_any}
use agent_exec_platform.Database.Table.{Table, by_key}
use agent_exec_platform.Database.Memory.{memory}
use agent_exec_platform.Aes.Tools.{ToolRow, tool_id}
use agent_exec_platform.Aes.Names.{IsUnique}
use agent_exec_platform.Aes.Agents.{AgentRow, agent_id, Catalog}
use agent_exec_platform.Gateway.Guardrails.{Patterns}
use agent_exec_platform.Gateway.Models.{Completion}
use agent_exec_platform.Gateway.Servicer.{response_of}
use agent_exec_platform.Orchestrator.ModelClient.{
  LlmMessage, FunctionCall, user_message, assistant_calls, function_results, all_messages,
  to_gateway_messages, create_result, call_reply,
}
use agent_exec_platform.Orchestrator.Wire.{
  calls_in, outputs_in, made_calls, given_results, wire, wire_round_trip, completion_round_trip,
}
use agent_exec_platform.Orchestrator.AgentsRepo.{AgentSpec, list_agents_for_tenant}
use agent_exec_platform.Orchestrator.Chat as Chat
use agent_exec_platform.Orchestrator.GroupChat.{roster, seats}
use agent_exec_platform.Orchestrator.Team.{GroupChatSession, session_of, build_group_chat}
use agent_exec_platform.Orchestrator.Granted.{is_flagged}
use agent_exec_platform.Orchestrator.Unapproved.{build_group_chat-call_all}
use agent_exec_platform.Orchestrator.Tests.Samples.{counting, unary, ones_injective}

abbrev agents : Table (AgentRow ℕ) agent_id
agents = memory agent_id

abbrev tools : Table ToolRow tool_id
tools = memory tool_id

abbrev clerk : AgentRow ℕ
clerk = record {
  id = codes "1";
  tenant_id = codes "acme";
  name = codes "a b";
  instructions = codes "work";
  llm_config_name = [];
  llm_config_temperature = 0;
  version = 1;
  created_at = 0;
  updated_at = 0;
}

abbrev pay : ToolRow
pay = record {
  id = codes "2";
  tenant_id = codes "acme";
  name = codes "pay";
  description = none;
  mutating = true;
  version = 1;
  created_at = 0;
  updated_at = 0;
}

-- One agent with one tool, which is mutating.
abbrev shop : Catalog agents tools
unfolding memory by_key
shop = record {
  agent_rows = (clerk ∷ [], (refl, tt));
  tool_rows = (pay ∷ [], (refl, tt));
  links = record { agent = codes "1"; tool = codes "2" } ∷ [];
}

shop-IsUnique : IsUnique tools shop.tool_rows
unfolding memory by_key
shop-IsUnique j k r s f g same named = ground (arith, text_eq_iff pay.id j, text_eq_iff pay.id k)

abbrev listed : List (AgentSpec ℕ)
listed = list_agents_for_tenant agents tools (λ rows. rows) (codes "acme") shop

abbrev clerk_spec : AgentSpec ℕ
clerk_spec = record {
  id = codes "1";
  name = codes "a b";
  instructions = codes "work";
  llm_config_name = [];
  llm_config_temperature = 0;
  tool_names = codes "pay" ∷ [];
  mutating_tool_names = codes "pay" ∷ [];
}

listed_lem : listed ≡ clerk_spec ∷ []
unfolding list_agents_for_tenant memory by_key text_eq contains
listed_lem = refl

-- The clerk, padded with the placeholder.
abbrev session : GroupChatSession ℕ
session =
    session_of 0 (λ s. s) 5 (codes "acme") false false listed
      (seats (codes "a_b" ∷ codes "laceholder" ∷ []) (roster false listed))

session_lem :
    build_group_chat 0 (λ s. s) unary 5 (codes "acme") false false listed ≡ some (ok session)
unfolding build_group_chat list_agents_for_tenant memory by_key text_eq contains
session_lem = refl

build_group_chat-call_all_example :
    All
      (λ b.
        (cs : List (Chat.ToolCall Text)) (s : ℕ)
        → (Chat.call_all counting cs b s).1
          ≡ (Chat.call_all counting
              (filter (λ q. not (is_flagged tools (codes "acme") shop.tool_rows q.name)) cs)
              b
              s).1)
      session.workbenches
build_group_chat-call_all_example =
    build_group_chat-call_all counting agents tools (λ rows. rows) 0 unary 5 (codes "acme") false
      shop session shop-IsUnique session_lem

-- Nothing is redacted.
abbrev lenient : Patterns
lenient = record {
  lower = λ s. s;
  sub_email = λ s. s;
  sub_ssn = λ s. s;
  sub_card = λ s. s;
  sub_phone = λ s. s;
}

abbrev talk : List LlmMessage
talk =
    user_message (codes "pay")
    ∷ assistant_calls none
        (record { id = codes "7"; name = codes "pay"; arguments = codes "{}" } ∷ [])
    ∷ function_results (record { call_id = codes "7"; content = codes "done" } ∷ [])
    ∷ []

wire_round_trip_example :
    (calls_in (wire lenient (all_messages talk)) ≡ made_calls talk)
    × (outputs_in (wire lenient (all_messages talk)) ≡ given_results lenient talk)
wire_round_trip_example = wire_round_trip lenient talk

abbrev asking : Completion
asking = record {
  content = [];
  finish_reason = codes "tool_calls";
  usage = record { prompt_tokens = 3; completion_tokens = 0; total_tokens = 3 };
  tool_calls = record { id = codes "7"; name = codes "pay"; arguments = codes "{}" } ∷ [];
}

completion_round_trip_example :
    (calls : List FunctionCall) × ((create_result (response_of asking)).content ≡ call_reply calls)
    × ((create_result (response_of asking)).finish_reason ≡ codes "function_calls")
    × (calls_in (wire lenient (to_gateway_messages (assistant_calls none calls)))
        ≡ asking.tool_calls)
completion_round_trip_example =
    completion_round_trip lenient asking
      (record { id = codes "7"; name = codes "pay"; arguments = codes "{}" }) [] none refl

-- A team that the gateway fails.
abbrev failing : GroupChatSession ℕ → List Chat.TeamMessage → ℕ → Outcome TeamFailure TeamResult × ℕ
failing s task n = (raise (gateway_failed code_unavailable), suc n)

outage_is_passed_on :
    handle_chat 0
      (λ s. s)
      unary
      5
      failing
      (λ id. list_agents_for_tenant agents tools (λ rows. rows) id shop)
      (some (codes "acme"))
      []
      false
      0
    ≡ (raise code_unavailable, 1)
unfolding handle_chat list_agents_for_tenant memory by_key text_eq contains
outage_is_passed_on = refl

handle_chat-has_any_example :
    ((handle_chat 0
        (λ s. s)
        unary
        5
        failing
        (λ id. list_agents_for_tenant agents tools (λ rows. rows) id shop)
        (some (codes "evil"))
        []
        false
        0).0
      ≡ raise code_failed_precondition)
    ↔ (has_any agents tools (codes "evil") shop ≡ false)
handle_chat-has_any_example =
    handle_chat-has_any 0 (λ s. s) unary ones_injective 5 failing agents tools (λ rows. rows)
      (λ rows. refl) shop 101 (codes "vil") [] false 0
