-- ===== src/Orchestrator/Precondition.antt =====
-- services/orchestrator and services/agent_execution_service: the gate of the task service on the agents
-- of a tenant and the error of a chat without agents agree.
use agent_exec_platform.Common.{
  ℕ, Bool, true, false, some, List, [], ◌∷◌, map, Text, length, text_eq, ◌≡◌, ◌↔◌, refl, ap, ◌∙◌,
  arith,
}
use agent_exec_platform.Common.Outcome.{Outcome, ok, raise}
use agent_exec_platform.Common.Grpc.{
  StatusCode, code_not_found, code_invalid_argument, code_unauthenticated, code_already_exists,
  code_failed_precondition, code_internal, code_unavailable, code_deadline_exceeded,
  code_resource_exhausted, code_aborted, code_other,
}
use agent_exec_platform.Database.Table.{Table}
use agent_exec_platform.Aes.Tools.{ToolRow, tool_id}
use agent_exec_platform.Aes.Agents.{AgentRow, agent_id, Catalog, has_any, is_nonempty, AgentToolRow}
use agent_exec_platform.Orchestrator.AgentsRepo.{
  AgentSpec, list_agents_for_tenant, specs_of, tools_by_id, linked_ids,
}
use agent_exec_platform.Orchestrator.Slugs.{Characters}
use agent_exec_platform.Orchestrator.Chat.{TeamMessage, ChatResult, is_planning}
use agent_exec_platform.Orchestrator.Team.{GroupChatSession, build_group_chat}
use agent_exec_platform.Orchestrator.Seats.{build_group_chat-some}
use agent_exec_platform.Orchestrator.Servicer.{
  TeamFailure, unexpected, gateway_failed, propagated, code_of_failure, tenant_of_header,
  InputMessage, role_of, TeamResult, finished, run_session, run_chat, task_of, coded, handle_chat,
}

-- A failure that stands for a missing agent.
abbrev is_precondition : StatusCode → Bool
is_precondition code_failed_precondition = true
is_precondition _ = false

abbrev fails : Outcome StatusCode ChatResult → Bool
fails (ok r) = false
fails (raise code) = is_precondition code

-- No code of the gateway is passed on as a failed precondition.
propagated-fails : (code : StatusCode) → is_precondition (propagated code) ≡ false
unfolding propagated
propagated-fails code_not_found = refl
propagated-fails code_invalid_argument = refl
propagated-fails code_unauthenticated = refl
propagated-fails code_already_exists = refl
propagated-fails code_failed_precondition = refl
propagated-fails code_internal = refl
propagated-fails code_unavailable = refl
propagated-fails code_deadline_exceeded = refl
propagated-fails code_resource_exhausted = refl
propagated-fails code_aborted = refl
propagated-fails code_other = refl

module _ {Number World : Type 0} (zero_temperature : Number) (repr : Text → Text) (k : Characters)
    (inj : (i j : ℕ) → k.digits i ≡ k.digits j → i ≡ j) (max_messages : ℕ)
    (run_team : GroupChatSession Number
      → List TeamMessage
      → World
      → Outcome TeamFailure TeamResult × World) where
  finished-fails :
      (session : GroupChatSession Number) (x : Outcome TeamFailure TeamResult × World)
      → fails
          (coded zero_temperature repr k max_messages run_team
            (finished zero_temperature repr k max_messages run_team session x)).0
        ≡ false
  unfolding code_of_failure
  finished-fails session (ok r, w) = refl
  finished-fails session (raise (gateway_failed code), w) = propagated-fails code
  finished-fails session (raise unexpected, w) = refl

  -- The chat of a tenant with these agents.
  abbrev answer :
      Text
      → List InputMessage
      → Bool
      → List (AgentSpec Number)
      → World
      → Outcome StatusCode ChatResult
  answer tenant messages approved specs w =
      (coded zero_temperature repr k max_messages run_team
        (run_chat zero_temperature repr k max_messages run_team tenant messages approved specs w)).0

  answer-none :
      (tenant : Text) (messages : List InputMessage) (approved : Bool) (w : World)
      → answer tenant messages approved [] w ≡ raise code_failed_precondition
  unfolding run_chat build_group_chat code_of_failure
  answer-none tenant messages approved w = refl

  answer-some :
      (tenant : Text) (messages : List InputMessage) (approved : Bool) (spec : AgentSpec Number)
      (specs : List (AgentSpec Number)) (w : World)
      → fails (answer tenant messages approved (spec ∷ specs) w) ≡ false
  unfolding run_chat
  answer-some tenant messages approved spec specs w =
      let made =
        build_group_chat-some k inj zero_temperature repr max_messages tenant approved
          (is_planning (map role_of messages)) spec specs in
      ap
        (λ o.
          fails
            (coded zero_temperature repr k max_messages run_team
              (run_session zero_temperature repr k max_messages run_team messages w o)).0)
        made.1
      ∙ finished-fails made.0 (run_team made.0 (task_of messages) w)

  -- The specs of rows that are given in some order.
  answer-rows :
      (agents : Table (AgentRow Number) agent_id) (tools : Table ToolRow tool_id)
      (by_id : List ToolRow) (links : List AgentToolRow) (rows sorted : List (AgentRow Number))
      (tenant : Text) (messages : List InputMessage) (approved : Bool) (w : World)
      → length sorted ≡ length rows
      → (answer tenant messages approved (specs_of agents tools by_id links sorted) w
          ≡ raise code_failed_precondition)
        ↔ (is_nonempty agents tools rows ≡ false)
  answer-rows agents tools by_id links [] [] tenant messages approved w e =
      (λ h. refl, λ h. answer-none tenant messages approved w)
  answer-rows agents tools by_id links [] (r ∷ sorted) tenant messages approved w e =
      absurd (omega arith)
  answer-rows agents tools by_id links (q ∷ rows) [] tenant messages approved w e =
      absurd (omega arith)
  answer-rows agents tools by_id links (q ∷ rows) (r ∷ sorted) tenant messages approved w e = (
    λ h. absurd (
        cc_fails
          (answer tenant messages approved (specs_of agents tools by_id links (r ∷ sorted)) w) h
          (answer-some tenant messages approved _ (specs_of agents tools by_id links sorted) w)),
    λ h. ground (arith, h),
  )
    where
      cc_fails :
          (o : Outcome StatusCode ChatResult)
          → o ≡ raise code_failed_precondition
          → fails o ≡ false
          → ⊥
      cc_fails o h f = ground (arith, ap fails h, f)

  -- When different numbers have different digits and a query in the order of names gives as many rows
  -- as one without, a chat of a tenant fails its precondition exactly if the gate of the task service
  -- finds no agent of the tenant in the catalog, whatever the team does.
  pub handle_chat-has_any :
      (agents : Table (AgentRow Number) agent_id) (tools : Table ToolRow tool_id)
      (by_name : List (AgentRow Number) → List (AgentRow Number))
      (keeps : (rows : List (AgentRow Number)) → length (by_name rows) ≡ length rows)
      (catalog : Catalog agents tools) (c : ℕ) (tenant : Text) (messages : List InputMessage)
      (approved : Bool) (w : World)
      → ((handle_chat zero_temperature repr k max_messages run_team
            (λ id. list_agents_for_tenant agents tools by_name id catalog)
            (some (c ∷ tenant))
            messages
            approved
            w).0
          ≡ raise code_failed_precondition)
        ↔ (has_any agents tools (c ∷ tenant) catalog ≡ false)
  unfolding handle_chat tenant_of_header list_agents_for_tenant has_any
  handle_chat-has_any agents tools by_name keeps catalog c tenant messages approved w =
      let rows = agents.select (λ r. text_eq r.tenant_id (c ∷ tenant)) catalog.agent_rows in
      answer-rows agents tools
        (tools_by_id agents tools (c ∷ tenant) (linked_ids (by_name rows) catalog.links) catalog)
        catalog.links rows (by_name rows) (c ∷ tenant) messages approved w (keeps rows)
