-- ===== src/Gateway/Guardrails.antt =====
-- services/gateway/src/gateway/guardrails.py: the screening and redaction of input. Lower-casing and
-- the regular expressions of the redaction are parameters.
use agent_exec_platform.Common.{
  ℕ, Bool, not, ◌||◌, List, [], ◌∷◌, Text, codes, text_eq, contains, is_truthy, strip, is_substring,
  join, length, ltb, if◌then◌else◌, Option, none, some,
}
use agent_exec_platform.Common.Outcome.{Outcome, ok, raise}

-- A message; the tool calls that it carries are passed on unread.
pub record Message (Calls : Type 0) : Type 0 where
  pub role : Text
  pub content : Text
  pub tool_calls : Calls
  pub tool_call_id : Option Text

-- GuardrailRejected, with the place that raises it.
pub data Rejection : Type 0 where
  unsupported_role : Text → Rejection
  empty_input : Rejection
  oversized_input : ℕ → Rejection
  blocked_term : Text → Rejection

unfoldable pub allowed_roles : List Text
allowed_roles =
    codes "system" ∷ codes "user" ∷ codes "assistant" ∷ codes "developer" ∷ codes "tool" ∷ []

-- What the gateway takes from Python's `str` and `re`.
pub record Patterns : Type 0 where
  pub lower : Text → Text
  -- pattern.sub(replacement, text), for each entry of _PII_PATTERNS
  pub sub_email : Text → Text
  pub sub_ssn : Text → Text
  pub sub_card : Text → Text
  pub sub_phone : Text → Text

-- _redact_pii
unfoldable pub redact_pii : Patterns → Text → Text
redact_pii p text = p.sub_phone (p.sub_card (p.sub_ssn (p.sub_email text)))

-- The term that is found first in a lowered content.
unfoldable pub first_term : Patterns → List Text → Text → Option Text
unfolding is_substring
first_term p [] lowered = none
first_term p (term ∷ terms) lowered =
    if is_substring (p.lower term) lowered then some term else first_term p terms lowered

-- m.role in ("user", "tool")
unfoldable pub is_external : Text → Bool
unfolding text_eq
is_external role = text_eq role (codes "user") || text_eq role (codes "tool")

module _ (p : Patterns) {Calls : Type 0} where
  abbrev pub contents_of : List (Message Calls) → List Text
  contents_of [] = []
  contents_of (m ∷ ms) = m.content ∷ contents_of ms

  -- The first loop: a message with a role that is not supported.
  unfoldable pub bad_role : List (Message Calls) → Option Text
  unfolding contains allowed_roles
  bad_role [] = none
  bad_role (m ∷ ms) = if contains allowed_roles m.role then bad_role ms else some m.role

  -- The second loop: a blocklisted term in a message from outside.
  unfoldable pub bad_term : List Text → List (Message Calls) → Option Text
  unfolding is_external first_term
  bad_term blocklist [] = none
  bad_term blocklist (m ∷ ms) =
      let rest = bad_term blocklist ms in
      if is_external m.role
      then elim (first_term p blocklist (p.lower m.content)) [ none ↦ rest | some t ↦ some t ]
      else rest

  unfoldable pub sanitize : List (Message Calls) → List (Message Calls)
  unfolding redact_pii
  sanitize [] = []
  sanitize (m ∷ ms) = record m { content = redact_pii p m.content } ∷ sanitize ms

  -- " ".join(m.content for m in messages).strip()
  unfoldable pub combined : List (Message Calls) → Text
  unfolding join strip
  combined messages = strip (join (codes " ") (contents_of messages))

  abbrev pub screen_terms :
      Option Text → List (Message Calls) → Outcome Rejection (List (Message Calls))
  screen_terms (some term) messages = raise (blocked_term term)
  screen_terms none messages = ok (sanitize messages)

  abbrev pub screen_size :
      ℕ → List Text → List (Message Calls) → Outcome Rejection (List (Message Calls))
  screen_size max_input_chars blocklist messages =
      if not (is_truthy (combined messages))
      then raise empty_input
      else if ltb max_input_chars (length (combined messages))
      then raise (oversized_input (length (combined messages)))
      else screen_terms (bad_term blocklist messages) messages

  abbrev pub screen_roles :
      Option Text → ℕ → List Text → List (Message Calls) → Outcome Rejection (List (Message Calls))
  screen_roles (some role) max_input_chars blocklist messages = raise (unsupported_role role)
  screen_roles none max_input_chars blocklist messages =
      screen_size max_input_chars blocklist messages

  -- screen_and_sanitize
  unfoldable pub screen_and_sanitize :
      List (Message Calls) → ℕ → List Text → Outcome Rejection (List (Message Calls))
  unfolding bad_role combined bad_term is_truthy sanitize
  screen_and_sanitize messages max_input_chars blocklist =
      screen_roles (bad_role messages) max_input_chars blocklist messages
