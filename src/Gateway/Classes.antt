-- ===== src/Gateway/Classes.antt =====
-- services/gateway/src/gateway/provider_zen.py: how the outcome of `complete` classifies a reply.
use agent_exec_platform.Common.{
  Option-cases, ℕ, ◌≤◌, ◌<◌, true, false, Option, none, some, List, [], ◌∷◌, Text, is_truthy, leb,
  ◌≡◌, ◌≢◌, ◌⊎◌, ◌↔◌, refl, sym, ◌∙◌, Bool-cases, inl, inr, arith, leb→le,
}
use agent_exec_platform.Common.Outcome.{Outcome, ok, raise}
use agent_exec_platform.Gateway.Models.{
  given, ToolCall, ToolSpec, Completion, Turn, GatewayError, validation_error, provider_error,
  guardrail_rejected, unhandled_error, ModelSettings, Formats, WireTool, to_tools, parameters_of,
}
use agent_exec_platform.Gateway.Zen.{
  is_silent, Body, Reply, no_reply, reply, unreadable, settled, parse_output, completion_of,
  answer_of, Payload, plain_payload, with_tools, complete,
}

-- A body that holds an answer: no error, and a text or a call.
abbrev pub IsAnswer : Body → Type 0
IsAnswer b =
    (b.has_error ≡ false) × ((is_truthy (parse_output b).0 ≡ true) ⊎ ((parse_output b).1 ≢ []))

abbrev pub status_of : Reply → Option ℕ
status_of no_reply = none
status_of (reply status b) = some status
status_of (unreadable status) = some status

-- What an outcome of `complete` says of the reply to its request.
abbrev pub Explains : Reply → Outcome GatewayError Completion → Type 0
Explains r (ok c) =
    (status : ℕ) × (b : Body) × (r ≡ reply status b)
    × (status < 400)
    × IsAnswer b
    × (c.content ≡ (parse_output b).0)
    × (c.tool_calls ≡ (parse_output b).1)
Explains r (raise validation_error) =
    (status : ℕ) × (status_of r ≡ some status) × (400 ≤ status) × (status < 500)
Explains r (raise provider_error) =
    (r ≡ no_reply)
    ⊎ (((status : ℕ) × (status_of r ≡ some status) × (500 ≤ status))
        ⊎ ((status : ℕ) × (b : Body) × (r ≡ reply status b) × (status < 400) × ¬ IsAnswer b))
Explains r (raise unhandled_error) = (status : ℕ) × (r ≡ unreadable status) × (status < 400)
Explains r (raise (guardrail_rejected e)) = true ≡ false

is_silent_iff :
    (content : Text) (calls : List ToolCall)
    → (is_silent content calls ≡ false) ↔ ((is_truthy content ≡ true) ⊎ (calls ≢ []))
unfolding is_truthy
is_silent_iff [] [] =
    (λ h. ground arith, λ h. elim h [ inl e ↦ ground arith | inr n ↦ absurd (n refl) ])
is_silent_iff (c ∷ s) [] = (λ h. inl refl, λ h. refl)
is_silent_iff content (c ∷ cs) = (λ h. inr (λ e. cc), λ h. refl)

completion_of-Explains :
    (status : ℕ) (b : Body) → status < 400 → Explains (reply status b) (completion_of b)
unfolding completion_of
completion_of-Explains status b low =
    let text = (parse_output b).0 in
    let calls = (parse_output b).1 in
    elim (Bool-cases b.has_error) [
      | inl bad ↦ rw (bad, Explains) (inr (inr (status, b, refl, low, λ (fine, _). ground arith)))
      | inr fine ↦ elim (Bool-cases (is_silent text calls)) [
        | inl silent ↦
            rw (fine, silent, Explains)
              (inr (
                inr (
                  status,
                  b,
                  refl,
                  low,
                  λ (_, said). ground (arith, (is_silent_iff text calls).1 said),
                )))
        | inr loud ↦
            rw (fine, loud, Explains)
              (status, b, refl, low, (fine, (is_silent_iff text calls).0 loud), refl, refl)
      ]
    ]

-- A reply with a status of 400 or more is judged by its status, whatever its body.
settled-Explains :
    (r : Reply) (status : ℕ) (read : Outcome GatewayError Completion)
    → status_of r ≡ some status
    → (status < 400 → Explains r read)
    → Explains r (settled status read)
settled-Explains r status read at below = elim (Bool-cases (leb 500 status)) [
  | inl high ↦ rw (high, Explains) (inr (inl (status, at, leb→le 500 status high)))
  | inr not_high ↦ elim (Bool-cases (leb 400 status)) [
    | inl client ↦
        rw (not_high, client, Explains) (status, at, leb→le 400 status client, ground arith)
    | inr low ↦ rw (not_high, low) (below (ground arith))
  ]
]

answer_of-Explains : (r : Reply) → Explains r (answer_of r)
unfolding answer_of
answer_of-Explains no_reply = inl refl
answer_of-Explains (reply status b) =
    settled-Explains (reply status b) status (completion_of b) refl
      (completion_of-Explains status b)
answer_of-Explains (unreadable status) =
    settled-Explains (unreadable status) status (raise unhandled_error) refl
      (λ low. (status, refl, low))

module _ (f : Formats) where
  -- Every tool has a parameters text that is empty or valid JSON.
  abbrev pub AreReadable : List ToolSpec → Type 0
  AreReadable [] = Unit
  AreReadable (t ∷ ts) = (parameters_of f t.parameters ≢ none) × AreReadable ts

  to_tools-AreReadable :
      (ts : List ToolSpec)
      → (¬ AreReadable ts × (to_tools f ts ≡ raise validation_error))
        ⊎ (AreReadable ts × (w : List (WireTool f.Json)) × (to_tools f ts ≡ ok w))
  unfolding to_tools
  to_tools-AreReadable [] = inr (tt, [], refl)
  to_tools-AreReadable (t ∷ ts) = elim (Option-cases (parameters_of f t.parameters)) [
    | inl e ↦ inl (λ (here, _). here e, rw (e, to_tools) refl)
    | inr (p, e) ↦ elim (to_tools-AreReadable ts) [
      | inl (bad, r) ↦ inl (λ (_, rest). bad rest, rw (e, r, to_tools) refl)
      | inr (good, w, r) ↦ inr (
        (λ h. absurd (ground (arith, sym e ∙ h)), good),
        record { name = t.name; description = t.description; parameters = p } ∷ w,
        rw (e, r, to_tools) refl,
      )
    ]
  ]

  -- How the outcome classifies the reply: it is a validation error if a tool's parameters cannot be
  -- read or the reply has a status from 400 to 499; a provider error if there is no reply, a status
  -- of 500 or more, or a body with an error or without text and calls; an unhandled exception if a
  -- body below 400 cannot be read; and otherwise the text and the calls of the body.
  pub complete-Explains :
      (settings : ModelSettings f.Number) (post : Payload f → Reply) (messages : List Turn)
      (max_tokens : Option ℕ) (temperature : Option f.Number) (tools : List ToolSpec)
      (choice : Option Text)
      → (¬ AreReadable tools
          × (complete f settings post messages max_tokens temperature tools choice
              ≡ raise validation_error))
        ⊎ (AreReadable tools
            × (payload : Payload f) × (with_tools f
                  (plain_payload f settings messages max_tokens temperature)
                  tools
                  choice
                ≡ ok payload)
            × Explains
                (post payload)
                (complete f settings post messages max_tokens temperature tools choice))
  unfolding complete
  complete-Explains settings post messages max_tokens temperature [] choice =
      let payload = plain_payload f settings messages max_tokens temperature in
      inr (tt, payload, refl, answer_of-Explains (post payload))
  complete-Explains settings post messages max_tokens temperature (t ∷ ts) choice =
      let plain = plain_payload f settings messages max_tokens temperature in
      elim (to_tools-AreReadable (t ∷ ts)) [
        | inl (bad, e) ↦ inl (bad, rw e refl)
        | inr (good, w, e) ↦
            let payload : Payload f = record plain { tools = some w; tool_choice = given choice } in
            inr (good, payload, rw e refl, rw e (answer_of-Explains (post payload)))
      ]
