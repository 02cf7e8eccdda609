-- ===== src/Orchestrator/Granted.antt =====
-- services/orchestrator: what the catalog of the task service says of the tools that the agents of a
-- group chat can call.
use agent_exec_platform.Common.{
  Bool, true, false, ◌&&◌, Option, none, some, List, [], ◌∷◌, map, filter, Text, text_eq,
  text_eq_iff, text_eq_refl, contains, All, ◌≡◌, refl, sym, ap, ◌∙◌, Option-cases, inl, inr, arith,
}
use mathlib.Core.Option.{some-injective}
use agent_exec_platform.Database.Table.{Table, by_key, chosen}
use agent_exec_platform.Aes.Tools.{ToolRow, tool_id}
use agent_exec_platform.Aes.Names.{IsUnique}
use agent_exec_platform.Aes.Agents.{AgentRow, agent_id, Catalog, tools_of}
use agent_exec_platform.Orchestrator.AgentsRepo.{
  AgentSpec, granted, tool_name, is_mutating, spec_of, tools_by_id, linked_ids, specs_of,
  list_agents_for_tenant,
}

-- The names of the rows that a filter keeps, when it keeps each row of a name.
contains-filter :
    (n : Text) (p : ToolRow → Bool) (ts : List ToolRow)
    → All (λ t. t.name ≡ n → p t ≡ true) ts
    → contains (map tool_name ts) n ≡ true
    → contains (map tool_name (filter p ts)) n ≡ true
unfolding contains filter
contains-filter n p [] a h = h
contains-filter n p (t ∷ ts) (f, a) h =
    ground (arith, f, text_eq_iff t.name n, contains-filter n p ts a)

granted-All :
    (P : ToolRow → Type 0) (is : List Text) (l : List ToolRow)
    → ((i : Text) (t : ToolRow) → by_key tool_id i l ≡ some t → P t)
    → All P (granted is l)
unfolding granted
granted-All P [] l f = tt
granted-All P (i ∷ is) l f = elim (Option-cases (by_key tool_id i l)) [
  | inl e ↦ rw (e, All) (granted-All P is l f)
  | inr (t, e) ↦ rw (e, All) (f i t e, granted-All P is l f)
]

-- What holds of the grants of an agent that the catalog lists: a flagged name is held back.
abbrev pub IsGuarded : {Number : Type 0} → (Text → Bool) → AgentSpec Number → Type 0
IsGuarded flagged spec =
    (name : Text)
    → flagged name ≡ true
    → contains spec.tool_names name ≡ true
    → contains spec.mutating_tool_names name ≡ true

module _ (tools : Table ToolRow tool_id) where
  -- Whether a row of a catalog is a mutating tool of a tenant with a name.
  abbrev pub flags : Text → Text → ToolRow → Bool
  flags tenant name t = text_eq t.tenant_id tenant && (text_eq t.name name && t.mutating)

  abbrev pub is_row : List ToolRow → Bool
  is_row [] = false
  is_row (t ∷ ts) = true

  -- Whether the catalog flags a tool name of a tenant as mutating.
  abbrev pub is_flagged : Text → tools.Db → Text → Bool
  is_flagged tenant db name = is_row (tools.select (flags tenant name) db)

  chosen_lem :
      (p : ToolRow → Bool) (o : Option ToolRow) (t : ToolRow)
      → chosen p o ≡ some t
      → (o ≡ some t) × (p t ≡ true)
  chosen_lem p none t h = ground arith
  chosen_lem p (some q) t h = ground arith

  selected :
      (p : ToolRow → Bool) (db : tools.Db) (i : Text) (t : ToolRow)
      → by_key tool_id i (tools.select p db) ≡ some t
      → (tools.find i db ≡ some t) × (p t ≡ true)
  selected p db i t h = chosen_lem p (tools.find i db) t (sym (tools.by_key-select p db i) ∙ h)

  -- The row behind a flag.
  flagged_row :
      (tenant name : Text) (db : tools.Db)
      → is_flagged tenant db name ≡ true
      → (r : ToolRow) × (tools.find r.id db ≡ some r) × (flags tenant name r ≡ true)
  unfolding by_key
  flagged_row tenant name db h = go (tools.select (flags tenant name) db) refl h
    where
      go :
          (l : List ToolRow)
          → tools.select (flags tenant name) db ≡ l
          → is_row l ≡ true
          → (r : ToolRow) × (tools.find r.id db ≡ some r) × (flags tenant name r ≡ true)
      go [] e h = ground arith
      go (r ∷ l) e h =
          let (found, flag) =
            selected (flags tenant name) db r.id r
              (ap (by_key tool_id r.id) e ∙ rw (text_eq_refl r.id) refl) in
          (r, found, flag)

  -- A granted tool with a flagged name is mutating, when names are unique.
  by_id-mutating :
      {Number : Type 0} (agents : Table (AgentRow Number) agent_id) (tenant name : Text)
      (is : List Text) (c : Catalog agents tools) (i : Text) (t : ToolRow)
      → IsUnique tools c.tool_rows
      → is_flagged tenant c.tool_rows name ≡ true
      → by_key tool_id i (tools_by_id agents tools tenant is c) ≡ some t
      → t.name ≡ name
      → t.mutating ≡ true
  unfolding tools_by_id by_key
  by_id-mutating agents tenant name [] c i t unique h e named = ground arith
  by_id-mutating agents tenant name (j ∷ js) c i t unique h e named =
      let (r, found, flag) = flagged_row tenant name c.tool_rows h in
      let p : ToolRow → Bool = λ q. text_eq q.tenant_id tenant && contains (j ∷ js) q.id in
      let (at, own) = selected p c.tool_rows i t e in
      let same : i ≡ r.id =
        unique i r.id t r at found
          (ground (arith, text_eq_iff t.tenant_id tenant, text_eq_iff r.tenant_id tenant))
          (ground (arith, text_eq_iff r.name name)) in
      let row : t ≡ r =
        some-injective t r (sym at ∙ ap (λ k. tools.find k c.tool_rows) same ∙ found) in
      ap is_mutating row ∙ ground arith

  pub list_agents-IsGuarded :
      {Number : Type 0} (agents : Table (AgentRow Number) agent_id)
      (by_name : List (AgentRow Number) → List (AgentRow Number)) (tenant : Text)
      (c : Catalog agents tools)
      → IsUnique tools c.tool_rows
      → All
          (IsGuarded (is_flagged tenant c.tool_rows))
          (list_agents_for_tenant agents tools by_name tenant c)
  unfolding list_agents_for_tenant spec_of
  list_agents-IsGuarded {Number} agents by_name tenant c unique = go rows
    where
      rows : List (AgentRow Number)
      rows = by_name (agents.select (λ r. text_eq r.tenant_id tenant) c.agent_rows)

      by_id : List ToolRow
      by_id = tools_by_id agents tools tenant (linked_ids rows c.links) c

      go :
          (l : List (AgentRow Number))
          → All (IsGuarded (is_flagged tenant c.tool_rows)) (specs_of agents tools by_id c.links l)
      go [] = tt
      go (r ∷ l) = (
        (λ name h has.
            contains-filter name is_mutating (granted (tools_of r.id c.links) by_id)
              (granted-All (λ t. t.name ≡ name → is_mutating t ≡ true) (tools_of r.id c.links) by_id
                (λ i t e named.
                  by_id-mutating agents tenant name (linked_ids rows c.links) c i t unique h e
                    named))
              has),
        go l,
      )
