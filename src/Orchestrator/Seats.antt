-- ===== src/Orchestrator/Seats.antt =====
-- services/orchestrator/src/orchestrator/groupchat.py: every tenant with an agent gets a team that
-- AutoGen accepts, and the transcript names its speakers by their display names.
use agent_exec_platform.Common.{
  ℕ, ◌+◌, ◌≤◌, Bool, true, false, some, List, [], ◌∷◌, ◌++◌, map, Text, text_eq, text_eq_iff,
  text_eq_refl, contains, All, length, length-append, ltb, ◌≡◌, refl, sym, ap, ◌∙◌, Bool-cases, inl,
  inr, arith,
}
use mathlib.Core.Path.{subst}
use agent_exec_platform.Common.Outcome.{ok}
use agent_exec_platform.Orchestrator.AgentsRepo.{AgentSpec}
use agent_exec_platform.Orchestrator.Slugs.{Characters, IsFresh, slugify_all-IsFresh}
use agent_exec_platform.Orchestrator.Chat.{display_name}
use agent_exec_platform.Orchestrator.GroupChat.{
  Role, domain, planner, placeholder, Seats, roster, role_name, seats, name_by_slug,
}
use agent_exec_platform.Orchestrator.ModelClient.{new_client}
use agent_exec_platform.Orchestrator.Team.{
  Participant, GroupChatSession, seated, participant_of, participants_of, client_of, session_of,
  build_group_chat,
}

abbrev pub participant_name : {Number : Type 0} → Participant Number → Text
participant_name p = p.name

here : (s : Text) (taken : List Text) → contains (s ∷ taken) s ≡ true
unfolding contains
here s taken = rw (text_eq_refl s) refl

-- A slug that is free of those before it is another one.
fresh-differs :
    (k : Characters) (inj : (i j : ℕ) → k.digits i ≡ k.digits j → i ≡ j) (taken : List Text)
    (s : Text) (slugs : List Text)
    → contains taken s ≡ true
    → IsFresh k inj taken slugs
    → All (λ x. text_eq s x ≡ false) slugs
unfolding contains
fresh-differs k inj taken s [] h f = tt
fresh-differs k inj taken s (x ∷ slugs) h (free, f) = (
  ground (arith, text_eq_iff s x, h, free, ap (contains taken) {x = s} {y = x}),
  fresh-differs k inj (x ∷ taken) s slugs (ground (arith, h)) f,
)

display_name-other :
    (s name : Text) (names : List (Text × Text)) (slugs : List Text)
    → All (λ x. text_eq s x ≡ false) slugs
    → map (display_name ((s, name) ∷ names)) slugs ≡ map (display_name names) slugs
unfolding display_name
display_name-other s name names [] a = refl
display_name-other s name names (x ∷ slugs) (h, a) =
    rw (h, map, display_name)
      (ap (λ l. display_name names x ∷ l) (display_name-other s name names slugs a))

module _ {Number : Type 0} where
  length-domain :
      (specs : List (AgentSpec Number)) (extra : List (Role Number))
      → length (map domain specs ++ extra) ≡ length specs + length extra
  length-domain [] extra = omega arith
  length-domain (spec ∷ specs) extra = omega (arith, length-domain specs extra)

  length-roster :
      (planning : Bool) (spec : AgentSpec Number) (specs : List (AgentSpec Number))
      → 2 ≤ length (roster planning (spec ∷ specs))
  unfolding roster
  length-roster true spec specs = omega (arith, length-domain specs (planner ∷ []))
  length-roster false spec specs = elim (Bool-cases (ltb (length (spec ∷ specs)) 2)) [
    | inl e ↦ rw e (omega (arith, length-domain specs (placeholder ∷ [])))
    | inr e ↦
        let several : 2 ≤ length (spec ∷ specs) = ground (arith, e) in
        rw e (omega (arith, several, length-domain specs []))
  ]

  display_name-seats :
      (k : Characters) (inj : (i j : ℕ) → k.digits i ≡ k.digits j → i ≡ j) (taken slugs : List Text)
      (roles : List (Role Number))
      → length slugs ≡ length roles
      → IsFresh k inj taken slugs
      → map (display_name (name_by_slug (seats slugs roles))) slugs ≡ map role_name roles
  unfolding name_by_slug seats display_name
  display_name-seats k inj taken [] [] e f = refl
  display_name-seats k inj taken [] (r ∷ roles) e f = absurd (omega arith)
  display_name-seats k inj taken (s ∷ slugs) [] e f = absurd (omega arith)
  display_name-seats k inj taken (s ∷ slugs) (r ∷ roles) e (free, f) =
      rw (text_eq_refl s, map, display_name)
        (ap (λ l. role_name r ∷ l)
          (display_name-other s (role_name r) (name_by_slug (seats slugs roles)) slugs
              (fresh-differs k inj (s ∷ taken) s slugs (here s taken) f)
            ∙ display_name-seats k inj (s ∷ taken) slugs roles (omega arith) f))

  participant_name-seats :
      (zero : Number) (repr : Text → Text) (tenant : Text) (approved : Bool) (slugs : List Text)
      (roles : List (Role Number))
      → length slugs ≡ length roles
      → map participant_name (participants_of zero repr tenant approved (seats slugs roles)) ≡ slugs
  unfolding participants_of participant_of seats
  participant_name-seats zero repr tenant approved [] [] e = refl
  participant_name-seats zero repr tenant approved [] (r ∷ roles) e = absurd (omega arith)
  participant_name-seats zero repr tenant approved (s ∷ slugs) [] e = absurd (omega arith)
  participant_name-seats zero repr tenant approved (s ∷ slugs) (domain spec ∷ roles) e =
      ap (λ l. s ∷ l) (participant_name-seats zero repr tenant approved slugs roles (omega arith))
  participant_name-seats zero repr tenant approved (s ∷ slugs) (planner ∷ roles) e =
      ap (λ l. s ∷ l) (participant_name-seats zero repr tenant approved slugs roles (omega arith))
  participant_name-seats zero repr tenant approved (s ∷ slugs) (placeholder ∷ roles) e =
      ap (λ l. s ∷ l) (participant_name-seats zero repr tenant approved slugs roles (omega arith))

  length-names : (l : List (Participant Number)) → length (map participant_name l) ≡ length l
  length-names [] = refl
  length-names (p ∷ l) = omega (arith, length-names l)

  length-clients : (l : List (Participant Number)) → length (map client_of l) ≡ length l
  length-clients [] = refl
  length-clients (p ∷ l) = omega (arith, length-clients l)

  length-role_names : (l : List (Role Number)) → length (map role_name l) ≡ length l
  length-role_names [] = refl
  length-role_names (r ∷ l) = omega (arith, length-role_names l)

  pub build_group_chat-some :
      (k : Characters) (inj : (i j : ℕ) → k.digits i ≡ k.digits j → i ≡ j) (zero : Number)
      (repr : Text → Text) (max_messages : ℕ) (tenant : Text) (approved planning : Bool)
      (spec : AgentSpec Number) (specs : List (AgentSpec Number))
      → (session : GroupChatSession Number) × (build_group_chat zero repr k max_messages tenant
            approved planning
            (spec ∷ specs)
          ≡ some (ok session))
        × (2 ≤ length session.team.participants)
        × IsFresh k inj [] (map participant_name session.team.participants)
        × (length session.clients ≡ length session.team.participants + 1)
        × (map (display_name session.name_by_slug) (map participant_name session.team.participants)
            ≡ map role_name (roster planning (spec ∷ specs)))
  unfolding build_group_chat session_of
  build_group_chat-some k inj zero repr m tenant approved planning spec specs =
      let roles : List (Role Number) = roster planning (spec ∷ specs) in
      let (slugs, found, same, fresh) = slugify_all-IsFresh k inj (map role_name roles) [] in
      let table : Seats Number = seats slugs roles in
      let people : List (Participant Number) = participants_of zero repr tenant approved table in
      let agree : length slugs ≡ length roles = same ∙ length-role_names roles in
      let named : map participant_name people ≡ slugs =
        participant_name-seats zero repr tenant approved slugs roles agree in
      (
        session_of zero repr m tenant approved planning (spec ∷ specs) table,
        ap
            (seated zero repr
              (λ l. session_of zero repr m tenant approved planning (spec ∷ specs) (seats l roles)))
            found,
        omega
            (arith, length-names people, ap length named, agree, length-roster planning spec specs),
        subst (IsFresh k inj []) (sym named) fresh,
        omega (
          arith,
          length-append (map client_of people) (new_client zero ∷ []),
          length-clients people,
        ),
        ap (map (display_name (name_by_slug table))) named
            ∙ display_name-seats k inj [] slugs roles agree fresh,
      )
