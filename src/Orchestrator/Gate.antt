-- ===== src/Orchestrator/Gate.antt =====
-- services/orchestrator/src/orchestrator/mcp_workbench.py: what the calls of an agent do to the
-- tool server and to the approvals that its workbench holds.
use agent_exec_platform.Common.{
  ◌+◌, length-append, ◌≤◌, length, Bool, true, not, ◌&&◌, List, [], ◌∷◌, ◌++◌, Text, contains,
  is_substring, if◌then◌else◌, Option, ◌≡◌, refl, ap, ◌∙◌, Bool-cases, any, arith, inl, inr,
}
use agent_exec_platform.Common.Outcome.{Outcome, ok, raise}
use agent_exec_platform.Orchestrator.Workbench.{
  Workbench, Server, CallResult, call_tool, finish_call, render_content, refusal_content,
  approval_required_marker,
}
use agent_exec_platform.Orchestrator.Chat.{
  reason_of, ToolCall, call_all, approval_sink, finish_reason, approval_finish_reason,
}

module _ (server : Server) where
  -- The specification of the gate: the workbench lets a call pass if the agent was granted the
  -- tool, and a mutating tool only in an approved run.
  abbrev pub passes : Workbench → Text → Bool
  passes b name = contains b.allowed name && not (contains b.mutating name && not b.approved)

  -- A call that waits for a human.
  abbrev pub waits : Workbench → Text → Bool
  waits b name = contains b.allowed name && (contains b.mutating name && not b.approved)

  -- What the calls that pass do to the tool server, one after the other.
  abbrev pub serve : Workbench → List (ToolCall server.Json) → server.State → server.State
  serve b [] s = s
  serve b (c ∷ cs) s =
      serve b cs (if passes b c.name then (server.call b.tenant_id c.name c.arguments s).1 else s)

  -- Two workbenches that differ in their approvals alone.
  abbrev pub SameGrant : Workbench → Workbench → Type 0
  SameGrant b b' =
      (b'.tenant_id ≡ b.tenant_id)
      × (b'.allowed ≡ b.allowed)
      × (b'.mutating ≡ b.mutating)
      × (b'.approved ≡ b.approved)

  finish_call-state :
      (b : Workbench) (name : Text) (r : Outcome Text CallResult × server.State)
      → ((finish_call server b name r).2 ≡ r.1) × SameGrant b (finish_call server b name r).1
  unfolding finish_call
  finish_call-state b name (raise e, s) = (refl, (refl, refl, refl, refl))
  finish_call-state b name (ok r, s) =
      elim (Bool-cases (is_substring approval_required_marker (render_content r.content))) [
        | inl h ↦ ground (arith)
        | inr h ↦ ground (arith)
      ]

  -- One call reaches the tool server exactly if it passes, and leaves the grant as it is.
  call_tool-state :
      (name : Text) (arguments : server.Json) (b : Workbench) (s : server.State)
      → ((call_tool server name arguments b s).2
          ≡ (if passes b name then (server.call b.tenant_id name arguments s).1 else s))
        × SameGrant b (call_tool server name arguments b s).1
  unfolding call_tool
  call_tool-state name arguments b s =
      ground (arith, finish_call-state b name (server.call b.tenant_id name arguments s))

  serve-SameGrant :
      (b b' : Workbench) (cs : List (ToolCall server.Json)) (s : server.State)
      → SameGrant b b'
      → serve b' cs s ≡ serve b cs s
  serve-SameGrant b b' [] s g = refl
  serve-SameGrant b b' (c ∷ cs) s (t, a, m, p) =
      rw (t, a, m, p)
        (serve-SameGrant b b' cs
          (if passes b c.name then (server.call b.tenant_id c.name c.arguments s).1 else s)
          (t, a, m, p))

  -- Whatever calls an agent's model makes, in whatever order, the tool server is left as by the calls
  -- of granted tools alone, less those of mutating tools in a run that is not approved: a call that
  -- the workbench refuses does not reach the server.
  pub call_all-serve :
      (cs : List (ToolCall server.Json)) (b : Workbench) (s : server.State)
      → (call_all server cs b s).1 ≡ serve b cs s
  unfolding call_all
  call_all-serve [] b s = refl
  call_all-serve (c ∷ cs) b s =
      let b' = (call_tool server c.name c.arguments b s).1 in
      let s' = (call_tool server c.name c.arguments b s).2 in
      let (state, grant) = call_tool-state c.name c.arguments b s in
      call_all-serve cs b' s' ∙ serve-SameGrant b b' cs s' grant ∙ ap (serve b cs) state

  -- A call never takes an approval back, and one that waits adds its refusal.
  finish_call-length :
      (b : Workbench) (name : Text) (r : Outcome Text CallResult × server.State)
      → length b.pending_approvals ≤ length (finish_call server b name r).1.pending_approvals
  unfolding finish_call
  finish_call-length b name (raise e, s) = omega arith
  finish_call-length b name (ok r, s) =
      ground (arith, length-append b.pending_approvals (render_content r.content ∷ []))

  call_tool-length :
      (name : Text) (arguments : server.Json) (b : Workbench) (s : server.State)
      → length b.pending_approvals + (if waits b name then 1 else 0)
        ≤ length (call_tool server name arguments b s).1.pending_approvals
  unfolding call_tool
  call_tool-length name arguments b s = ground (
    arith,
    length-append b.pending_approvals (refusal_content server name ∷ []),
    finish_call-length b name (server.call b.tenant_id name arguments s),
  )

  waits-SameGrant : (b b' : Workbench) (name : Text) → SameGrant b b' → waits b' name ≡ waits b name
  waits-SameGrant b b' name (t, a, m, p) = cc

  any-waits-SameGrant :
      (b b' : Workbench) (cs : List (ToolCall server.Json))
      → SameGrant b b'
      → any (λ c. waits b' c.name) cs ≡ any (λ c. waits b c.name) cs
  unfolding any
  any-waits-SameGrant b b' [] g = refl
  any-waits-SameGrant b b' (c ∷ cs) g =
      rw (waits-SameGrant b b' c.name g, any-waits-SameGrant b b' cs g) refl

  call_all-length :
      (cs : List (ToolCall server.Json)) (b : Workbench) (s : server.State)
      → length b.pending_approvals + (if any (λ c. waits b c.name) cs then 1 else 0)
        ≤ length (call_all server cs b s).0.pending_approvals
  unfolding call_all any
  call_all-length [] b s = omega arith
  call_all-length (c ∷ cs) b s =
      let b' = (call_tool server c.name c.arguments b s).1 in
      let s' = (call_tool server c.name c.arguments b s).2 in
      ground (
        arith,
        call_tool-length c.name c.arguments b s,
        call_all-length cs b' s',
        any-waits-SameGrant b b' cs (call_tool-state c.name c.arguments b s).1,
      )

  length-approval_sink :
      (before after : List Workbench) (b : Workbench)
      → length b.pending_approvals ≤ length (approval_sink (before ++ b ∷ after))
  unfolding approval_sink
  length-approval_sink [] after b =
      ground (arith, length-append b.pending_approvals (approval_sink after))
  length-approval_sink (a ∷ before) after b = ground (
    arith,
    length-approval_sink before after b,
    length-append a.pending_approvals (approval_sink (before ++ b ∷ after)),
  )

  reason_of-pending :
      (sink : List Text) (stop : Option Text)
      → 1 ≤ length sink
      → reason_of sink stop ≡ approval_finish_reason
  reason_of-pending [] stop h = ground arith
  reason_of-pending (a ∷ sink) stop h = refl

  finish_reason-pending :
      (bs : List Workbench) (stop : Option Text)
      → 1 ≤ length (approval_sink bs)
      → finish_reason bs stop ≡ approval_finish_reason
  unfolding finish_reason
  finish_reason-pending bs stop h = reason_of-pending (approval_sink bs) stop h

  -- If any agent of a run calls a mutating tool that it was granted and the run is not approved, the
  -- run ends with the finish reason of a pause, whatever other calls its agents made and whatever
  -- the group chat gives as its stop reason.
  pub finish_reason-waits :
      (before after : List Workbench) (b : Workbench) (cs : List (ToolCall server.Json))
      (s : server.State) (stop : Option Text)
      → any (λ c. waits b c.name) cs ≡ true
      → finish_reason (before ++ (call_all server cs b s).0 ∷ after) stop ≡ approval_finish_reason
  finish_reason-waits before after b cs s stop h =
      finish_reason-pending (before ++ (call_all server cs b s).0 ∷ after) stop (
        ground (
          arith,
          call_all-length cs b s,
          length-approval_sink before after (call_all server cs b s).0,
        ))
