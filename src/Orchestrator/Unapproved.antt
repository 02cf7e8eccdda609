-- ===== src/Orchestrator/Unapproved.antt =====
-- services/orchestrator: what the agents of a run that no human approved can do to the tool server,
-- from the flags of the catalog to the calls of the workbenches.
use agent_exec_platform.Common.{
  Bool, true, false, not, Option, some, List, [], ◌∷◌, map, filter, Text, All, All-map, All-append,
  All-imply, ℕ, length, ltb, ◌≡◌, refl, sym, ap, ◌∙◌, Option-cases, Bool-cases, inl, inr, arith,
  if◌then◌else◌,
}
use mathlib.Core.Path.{subst}
use agent_exec_platform.Common.Outcome.{Outcome, ok}
use agent_exec_platform.Database.Table.{Table}
use agent_exec_platform.Aes.Tools.{ToolRow, tool_id}
use agent_exec_platform.Aes.Names.{IsUnique}
use agent_exec_platform.Aes.Agents.{AgentRow, agent_id, Catalog}
use agent_exec_platform.Orchestrator.AgentsRepo.{AgentSpec, list_agents_for_tenant}
use agent_exec_platform.Orchestrator.Slugs.{Characters, slugify_all}
use agent_exec_platform.Orchestrator.Workbench.{Workbench, Server}
use agent_exec_platform.Orchestrator.Chat.{ToolCall, call_all}
use agent_exec_platform.Orchestrator.Gate.{passes, serve, call_all-serve}
use agent_exec_platform.Orchestrator.GroupChat.{
  Role, domain, planner, placeholder, roster, role_name, seats, workbench_of, workbenches_of,
}
use agent_exec_platform.Orchestrator.Team.{
  GroupChatSession, ChatError, session_of, build_group_chat,
}
use agent_exec_platform.Orchestrator.Granted.{is_flagged, IsGuarded, list_agents-IsGuarded}

abbrev benches :
    {Number : Type 0} → Option (Outcome ChatError (GroupChatSession Number)) → List Workbench
benches (some (ok session)) = session.workbenches
benches _ = []

module _ (server : Server) (flagged : Text → Bool) where
  -- A workbench that lets no flagged name pass.
  abbrev pub IsHeld : Workbench → Type 0
  IsHeld b = (name : Text) → flagged name ≡ true → passes server b name ≡ false

  abbrev IsGuardedRole : {Number : Type 0} → Role Number → Type 0
  IsGuardedRole (domain spec) = IsGuarded flagged spec
  IsGuardedRole _ = Unit

  workbench_of-IsHeld :
      {Number : Type 0} (tenant : Text) (spec : AgentSpec Number)
      → IsGuarded flagged spec
      → IsHeld (workbench_of tenant false spec)
  unfolding workbench_of
  workbench_of-IsHeld tenant spec g name h = ground (arith, g name h)

  workbenches_of-IsHeld :
      {Number : Type 0} (tenant : Text) (slugs : List Text) (roles : List (Role Number))
      → All IsGuardedRole roles
      → All IsHeld (workbenches_of tenant false (seats slugs roles))
  unfolding workbenches_of seats
  workbenches_of-IsHeld tenant [] roles a = tt
  workbenches_of-IsHeld tenant (s ∷ slugs) [] a = tt
  workbenches_of-IsHeld tenant (s ∷ slugs) (domain spec ∷ roles) (g, a) =
      (workbench_of-IsHeld tenant spec g, workbenches_of-IsHeld tenant slugs roles a)
  workbenches_of-IsHeld tenant (s ∷ slugs) (planner ∷ roles) (g, a) =
      workbenches_of-IsHeld tenant slugs roles a
  workbenches_of-IsHeld tenant (s ∷ slugs) (placeholder ∷ roles) (g, a) =
      workbenches_of-IsHeld tenant slugs roles a

  roster-All :
      {Number : Type 0} (planning : Bool) (specs : List (AgentSpec Number))
      → All (IsGuarded flagged) specs
      → All IsGuardedRole (roster planning specs)
  unfolding roster
  roster-All true specs a =
      All-append IsGuardedRole (map domain specs) (planner ∷ [])
        (All-map IsGuardedRole domain specs a) (tt, tt)
  roster-All false specs a = elim (Bool-cases (ltb (length specs) 2)) [
    | inl e ↦ rw e (
        All-append IsGuardedRole (map domain specs) (placeholder ∷ [])
          (All-map IsGuardedRole domain specs a) (tt, tt))
    | inr e ↦
        rw e
          (All-append IsGuardedRole (map domain specs) [] (All-map IsGuardedRole domain specs a) tt)
  ]

  build_group_chat-IsHeld :
      {Number : Type 0} (zero_temperature : Number) (repr : Text → Text) (k : Characters)
      (max_messages : ℕ) (tenant : Text) (planning : Bool) (specs : List (AgentSpec Number))
      (session : GroupChatSession Number)
      → All (IsGuarded flagged) specs
      → build_group_chat zero_temperature repr k max_messages tenant false planning specs
        ≡ some (ok session)
      → All IsHeld session.workbenches
  unfolding build_group_chat session_of
  build_group_chat-IsHeld zero_temperature repr k m tenant planning [] session a h = ground arith
  build_group_chat-IsHeld zero_temperature repr k m tenant planning (spec ∷ specs) session a h =
      elim (Option-cases (slugify_all k (map role_name (roster planning (spec ∷ specs))) [])) [
        | inl e ↦ absurd (ground (arith, h, e))
        | inr (slugs, e) ↦
            let bs : List Workbench =
              workbenches_of tenant false (seats slugs (roster planning (spec ∷ specs))) in
            subst (λ l. All IsHeld l) (ap benches (rw e at h))
              (workbenches_of-IsHeld tenant slugs (roster planning (spec ∷ specs))
                (roster-All planning (spec ∷ specs) a))
      ]

  -- The calls that a workbench holds back change nothing.
  serve-filter :
      (b : Workbench) (cs : List (ToolCall server.Json)) (s : server.State)
      → IsHeld b
      → serve server b cs s ≡ serve server b (filter (λ c. not (flagged c.name)) cs) s
  unfolding filter
  serve-filter b [] s held = refl
  serve-filter b (c ∷ cs) s held = elim (Bool-cases (flagged c.name)) [
    | inl e ↦ rw (e, held c.name e) (serve-filter b cs s held)
    | inr e ↦ rw e (
        serve-filter b cs
          (if passes server b c.name then (server.call b.tenant_id c.name c.arguments s).1 else s)
          held)
  ]

  call_all-filter :
      (b : Workbench) (cs : List (ToolCall server.Json)) (s : server.State)
      → IsHeld b
      → (call_all server cs b s).1 ≡ (call_all server (filter (λ c. not (flagged c.name)) cs) b s).1
  call_all-filter b cs s held =
      call_all-serve server cs b s
      ∙ serve-filter b cs s held
      ∙ sym (call_all-serve server (filter (λ c. not (flagged c.name)) cs) b s)

-- A group chat is built from the agents that the catalog lists, for a run that is not approved, and
-- names of tools are unique in the tenant. Then whatever calls one of its agents makes, in whatever
-- order, the tool server is left as by the calls of tools alone that the catalog does not flag as
-- mutating.
pub build_group_chat-call_all :
    {Number : Type 0} (server : Server) (agents : Table (AgentRow Number) agent_id)
    (tools : Table ToolRow tool_id) (by_name : List (AgentRow Number) → List (AgentRow Number))
    (zero_temperature : Number) (k : Characters) (max_messages : ℕ) (tenant : Text)
    (planning : Bool) (c : Catalog agents tools) (session : GroupChatSession Number)
    → IsUnique tools c.tool_rows
    → build_group_chat zero_temperature server.repr k max_messages tenant false planning
        (list_agents_for_tenant agents tools by_name tenant c)
      ≡ some (ok session)
    → All
        (λ b.
          (cs : List (ToolCall server.Json)) (s : server.State)
          → (call_all server cs b s).1
            ≡ (call_all server
                (filter (λ q. not (is_flagged tools tenant c.tool_rows q.name)) cs)
                b
                s).1)
        session.workbenches
build_group_chat-call_all server agents tools by_name zero k m tenant planning c session unique
      built =
    All-imply (IsHeld server (is_flagged tools tenant c.tool_rows)) _
      (λ b held cs s. call_all-filter server (is_flagged tools tenant c.tool_rows) b cs s held)
      session.workbenches
      (build_group_chat-IsHeld server (is_flagged tools tenant c.tool_rows) zero server.repr k m
        tenant planning (list_agents_for_tenant agents tools by_name tenant c) session
        (list_agents-IsGuarded tools agents by_name tenant c unique) built)
