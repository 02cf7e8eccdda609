-- ===== src/Orchestrator/Chat.antt =====
-- services/orchestrator/src/orchestrator/run.py and groupchat.py: the calls that the agents of a
-- run make, in the order they make them, and the result of the run.
use agent_exec_platform.Common.{
  ℕ, ◌+◌, Bool, true, false, List, [], ◌∷◌, ◌++◌, Text, codes, text_eq, any, Option, none, some,
}
use agent_exec_platform.Orchestrator.Workbench.{Workbench, Server, call_tool}

-- A message that the group chat gave; a message whose content is no text has `none`.
pub record TeamMessage : Type 0 where
  pub source : Text
  pub content : Option Text

pub record ChatMessage : Type 0 where
  pub role : Text
  pub content : Text
  pub agent : Text

pub record Usage : Type 0 where
  pub prompt_tokens : ℕ
  pub completion_tokens : ℕ

pub record ChatResult : Type 0 where
  pub messages : List ChatMessage
  pub prompt_tokens : ℕ
  pub completion_tokens : ℕ
  pub finish_reason : Text
  pub total_tokens : ℕ

-- What one call of an agent's model asks for.
pub record ToolCall (Json : Type 0) : Type 0 where
  pub name : Text
  pub arguments : Json

abbrev pub approval_finish_reason : Text
approval_finish_reason = codes "requires_approval"

-- GroupChatSession.approval_sink
unfoldable pub approval_sink : List Workbench → List Text
approval_sink [] = []
approval_sink (b ∷ bs) = b.pending_approvals ++ approval_sink bs

-- result.stop_reason or "stop"
abbrev pub stop_or_default : Option Text → Text
stop_or_default none = codes "stop"
stop_or_default (some []) = codes "stop"
stop_or_default (some (c ∷ s)) = c ∷ s

abbrev pub reason_of : List Text → Option Text → Text
reason_of [] stop_reason = stop_or_default stop_reason
reason_of (a ∷ sink) stop_reason = approval_finish_reason

-- The finish reason of `run_chat`.
unfoldable pub finish_reason : List Workbench → Option Text → Text
unfolding approval_sink
finish_reason workbenches stop_reason = reason_of (approval_sink workbenches) stop_reason

-- name_by_slug.get(source, source)
unfoldable pub display_name : List (Text × Text) → Text → Text
unfolding text_eq
display_name [] source = source
display_name ((slug, name) ∷ names) source = elim (text_eq slug source) [
  | true ↦ name
  | false ↦ display_name names source
]

-- _to_transcript
unfoldable pub to_transcript : List (Text × Text) → List TeamMessage → List ChatMessage
unfolding display_name
to_transcript names [] = []
to_transcript names (m ∷ ms) =
    let rest = to_transcript names ms in
    elim m.content [
      | none ↦ rest
      | some content ↦
          record {
            role = codes "assistant";
            content = content;
            agent = display_name names m.source;
          }
          ∷ rest
    ]

abbrev sum_prompt : List Usage → ℕ
sum_prompt [] = 0
sum_prompt (u ∷ us) = u.prompt_tokens + sum_prompt us

abbrev sum_completion : List Usage → ℕ
sum_completion [] = 0
sum_completion (u ∷ us) = u.completion_tokens + sum_completion us

-- any(m.role == "system" for m in messages)
unfoldable pub is_planning : List Text → Bool
unfolding any text_eq
is_planning roles = any (λ role. text_eq role (codes "system")) roles

-- The result of `run_chat`, given what the team's run and the clients report.
unfoldable pub chat_result :
    List Workbench → List (Text × Text) → List TeamMessage → Option Text → List Usage → ChatResult
unfolding to_transcript finish_reason
chat_result workbenches names messages stop_reason clients = record {
  messages = to_transcript names messages;
  prompt_tokens = sum_prompt clients;
  completion_tokens = sum_completion clients;
  finish_reason = finish_reason workbenches stop_reason;
  total_tokens = sum_prompt clients + sum_completion clients;
}

module _ (server : Server) where
  -- The calls that one agent makes in a run.
  unfoldable pub call_all :
      List (ToolCall server.Json) → Workbench → server.State → Workbench × server.State
  unfolding call_tool
  call_all [] b s = (b, s)
  call_all (c ∷ cs) b s =
      let (r, b', s') = call_tool server c.name c.arguments b s in call_all cs b' s'
