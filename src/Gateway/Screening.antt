-- ===== src/Gateway/Screening.antt =====
-- services/gateway/src/gateway/guardrails.py: which requests pass the guardrails.
use agent_exec_platform.Common.{
  ℕ, ◌≤◌, true, false, List, [], ◌∷◌, contains, is_truthy, is_substring, length, All, none, ◌≡◌,
  ◌≢◌, ◌↔◌, ◌⊎◌, refl, ap, map, Text, codes, text_eq_iff, strip, join, Option-cases, arith,
}
use agent_exec_platform.Common.Outcome.{ok}
use agent_exec_platform.Gateway.Guardrails.{
  Message, Patterns, allowed_roles, first_term, is_external, bad_role, bad_term, sanitize, combined,
  contents_of, screen_and_sanitize,
}

-- The roles that the gateway supports.
abbrev pub IsSupported : Text → Type 0
IsSupported role =
    (role ≡ codes "system")
    ⊎ ((role ≡ codes "user")
        ⊎ ((role ≡ codes "assistant") ⊎ ((role ≡ codes "developer") ⊎ (role ≡ codes "tool"))))

allowed_roles_iff : (role : Text) → (contains allowed_roles role ≡ true) ↔ IsSupported role
unfolding allowed_roles contains
allowed_roles_iff role = ground (
  arith,
  text_eq_iff (codes "system") role,
  text_eq_iff (codes "user") role,
  text_eq_iff (codes "assistant") role,
  text_eq_iff (codes "developer") role,
  text_eq_iff (codes "tool") role,
)

is_external_iff :
    (role : Text) → (is_external role ≡ true) ↔ ((role ≡ codes "user") ⊎ (role ≡ codes "tool"))
unfolding is_external
is_external_iff role =
    ground (arith, text_eq_iff role (codes "user"), text_eq_iff role (codes "tool"))

is_truthy_iff : (s : Text) → (is_truthy s ≡ true) ↔ (s ≢ [])
unfolding is_truthy
is_truthy_iff [] = ground arith
is_truthy_iff (c ∷ s) = (λ h e. cc, λ h. refl)

module _ (p : Patterns) where
  first_term-none :
      (terms : List Text) (lowered : Text)
      → (first_term p terms lowered ≡ none)
        ↔ All (λ term. is_substring (p.lower term) lowered ≡ false) terms
  unfolding first_term
  first_term-none [] lowered = ground arith
  first_term-none (t ∷ terms) lowered = ground (arith, first_term-none terms lowered)

  module _ {Calls : Type 0} where
    -- A user or tool message holds no term of the blocklist, in any case of its letters.
    abbrev pub IsHarmless : List Text → Message Calls → Type 0
    IsHarmless blocklist m =
        ((m.role ≡ codes "user") ⊎ (m.role ≡ codes "tool"))
        → All (λ term. is_substring (p.lower term) (p.lower m.content) ≡ false) blocklist

    -- The contents, joined by blanks and stripped.
    abbrev pub joined : List (Message Calls) → Text
    joined messages = strip (join (codes " ") (map (λ m. m.content) messages))

    -- The specification of a request that may go to the model.
    abbrev pub IsAcceptable : ℕ → List Text → List (Message Calls) → Type 0
    IsAcceptable max_input_chars blocklist messages =
        All (λ m. IsSupported m.role) messages
        × (joined messages ≢ [])
        × (length (joined messages) ≤ max_input_chars)
        × All (IsHarmless blocklist) messages

    -- A message with the e-mail addresses, the social security numbers, the card numbers and the phone
    -- numbers of its content replaced, in this order.
    abbrev pub redacted : Message Calls → Message Calls
    redacted m = record m { content = p.sub_phone (p.sub_card (p.sub_ssn (p.sub_email m.content))) }

    bad_role-none :
        (messages : List (Message Calls))
        → (bad_role p messages ≡ none) ↔ All (λ m. IsSupported m.role) messages
    unfolding bad_role
    bad_role-none [] = ground arith
    bad_role-none (m ∷ ms) = ground (arith, bad_role-none ms, allowed_roles_iff m.role)

    bad_term-none :
        (blocklist : List Text) (messages : List (Message Calls))
        → (bad_term p blocklist messages ≡ none) ↔ All (IsHarmless blocklist) messages
    unfolding bad_term
    bad_term-none blocklist [] = ground arith
    bad_term-none blocklist (m ∷ ms) = ground (
      arith,
      bad_term-none blocklist ms,
      is_external_iff m.role,
      first_term-none blocklist (p.lower m.content),
      Option-cases (first_term p blocklist (p.lower m.content)),
    )

    contents_of-map :
        (messages : List (Message Calls)) → contents_of p messages ≡ map (λ m. m.content) messages
    contents_of-map [] = refl
    contents_of-map (m ∷ ms) = ap (λ l. m.content ∷ l) (contents_of-map ms)

    combined-joined : (messages : List (Message Calls)) → combined p messages ≡ joined messages
    unfolding combined
    combined-joined messages = ap (λ l. strip (join (codes " ") l)) (contents_of-map messages)

    sanitize-redacted :
        (messages : List (Message Calls)) → sanitize p messages ≡ map redacted messages
    unfolding sanitize
    sanitize-redacted [] = refl
    sanitize-redacted (m ∷ ms) = ap (λ l. redacted m ∷ l) (sanitize-redacted ms)

    -- The guardrails let a request pass exactly if every role is supported, the joined input is
    -- neither blank nor longer than the bound, and no user or tool message holds a term of the
    -- blocklist; what passes is the request with the content of each message redacted.
    pub screen_and_sanitize-IsAcceptable :
        (messages passed : List (Message Calls)) (max_input_chars : ℕ) (blocklist : List Text)
        → (screen_and_sanitize p messages max_input_chars blocklist ≡ ok passed)
          ↔ (IsAcceptable max_input_chars blocklist messages × (map redacted messages ≡ passed))
    unfolding screen_and_sanitize
    screen_and_sanitize-IsAcceptable messages passed max_input_chars blocklist = ground (
      arith,
      bad_role-none messages,
      bad_term-none blocklist messages,
      combined-joined messages,
      sanitize-redacted messages,
      is_truthy_iff (joined messages),
      Option-cases (bad_role p messages),
      Option-cases (bad_term p blocklist messages),
    )
