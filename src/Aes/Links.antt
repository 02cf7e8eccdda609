-- ===== src/Aes/Links.antt =====
-- services/agent_execution_service/src/agent_execution_service/services/agents.py: what the links of
-- agents to tools lead to, whatever requests change the catalog.
use agent_exec_platform.Common.{
  ℕ, Bool, true, false, not, ◌&&◌, Option, none, some, List, [], ◌∷◌, map, Text, text_eq, contains,
  ◌≡◌, refl, sym, ap, ◌∙◌, Option-cases, Bool-cases, inl, inr, arith, text_eq_iff, All, All-imply,
  All-filter, All-append, All-map,
}
use mathlib.Core.Path.{subst}
use mathlib.Core.Option.{some-injective}
use agent_exec_platform.Database.Table.{Table, chosen}
use agent_exec_platform.Database.Keys.{All-found}
use agent_exec_platform.Database.Owners.{
  insert-owner, owner_of, owner, Preserves, insert-Preserves, update_one-Preserves, delete_keeps,
}
use agent_exec_platform.Aes.Tools.{ToolRow, tool_id, flushed}
use agent_exec_platform.Aes.Agents.{
  AgentRow, agent_id, AgentToolRow, AgentFields, agent_values, without_agent, without_tool,
  own_agent, Catalog, valid_ids, link, inserted, change_agent,
}

abbrev pub tool_tenant : ToolRow → Text
tool_tenant r = r.tenant_id

abbrev pub agent_tenant : {Number : Type 0} → AgentRow Number → Text
agent_tenant r = r.tenant_id

module _ {Number : Type 0} (agents : Table (AgentRow Number) agent_id)
    (tools : Table ToolRow tool_id) where
  -- An agent and a tool that both exist and belong to one tenant.
  abbrev pub IsLink : agents.Db → tools.Db → AgentToolRow → Type 0
  IsLink a t l =
      (tenant : Text) × (owner agent_id agent_tenant agents a l.agent ≡ some tenant)
      × (owner tool_id tool_tenant tools t l.tool ≡ some tenant)

  abbrev pub IsLinked : Catalog agents tools → Type 0
  IsLinked c = All (IsLink c.agent_rows c.tool_rows) c.links

  pub carried :
      (a a' : agents.Db) (t t' : tools.Db) (ls : List AgentToolRow)
      → Preserves agent_id agent_tenant agents a a'
      → Preserves tool_id tool_tenant tools t t'
      → All (IsLink a t) ls
      → All (IsLink a' t') ls
  carried a a' t t' ls f g h =
      All-imply (IsLink a t) (IsLink a' t')
        (λ l (tenant, x, y). (tenant, f l.agent tenant x, g l.tool tenant y)) ls h

  -- A row that a key finds is found under its own key.
  own_key :
      (db : tools.Db) (j : Text) (r : ToolRow)
      → tools.find j db ≡ some r
      → tools.find r.id db ≡ some r
  own_key db j r e = subst (λ k. tools.find k db ≡ some r) (sym (tools.find_key j db r e)) e

  chosen-owned :
      (tenant : Text) (p : ToolRow → Bool) (db : tools.Db) (j : Text) (r : ToolRow)
      → ((q : ToolRow) → p q ≡ true → q.tenant_id ≡ tenant)
      → chosen p (tools.find j db) ≡ some r
      → owner tool_id tool_tenant tools db r.id ≡ some tenant
  chosen-owned tenant p db j r owned h = elim (Option-cases (tools.find j db)) [
    | inl n ↦ absurd (ground (arith, n, h))
    | inr (q, f) ↦ elim (Bool-cases (p q)) [
      | inl e ↦
          let same : q ≡ r = some-injective q r (rw (f, e) at h) in
          ap (owner_of tool_tenant) (own_key db j r (f ∙ ap some same))
          ∙ ap some (ap tool_tenant (sym same) ∙ owned q e)
      | inr e ↦ absurd (ground (arith, f, e, h))
    ]
  ]

  pub valid_ids-owned :
      (tenant : Text) (is : List Text) (c : Catalog agents tools)
      → All
          (λ i. owner tool_id tool_tenant tools c.tool_rows i ≡ some tenant)
          (valid_ids agents tools tenant is c)
  unfolding valid_ids
  valid_ids-owned tenant [] c = tt
  valid_ids-owned tenant (i ∷ is) c =
      let p : ToolRow → Bool = λ r. text_eq r.tenant_id tenant && contains (i ∷ is) r.id in
      All-map (λ j. owner tool_id tool_tenant tools c.tool_rows j ≡ some tenant) tool_id
        (tools.select p c.tool_rows)
        (All-found tool_id (λ r. owner tool_id tool_tenant tools c.tool_rows r.id ≡ some tenant)
          (tools.select p c.tool_rows) (tools.select_distinct p c.tool_rows)
          (λ j r e.
            chosen-owned tenant p c.tool_rows j r
              (λ q h. ground (arith, text_eq_iff q.tenant_id tenant))
              (sym (tools.by_key-select p c.tool_rows j) ∙ e)))

  new_links-IsLink :
      (tenant id : Text) (a : agents.Db) (t : tools.Db) (is : List Text)
      → owner agent_id agent_tenant agents a id ≡ some tenant
      → All (λ i. owner tool_id tool_tenant tools t i ≡ some tenant) is
      → All (IsLink a t) (map (link id) is)
  new_links-IsLink tenant id a t is h owned = All-map (IsLink a t) (link id) is (
      All-imply (λ i. owner tool_id tool_tenant tools t i ≡ some tenant)
        (λ i. IsLink a t (link id i)) (λ i e. (tenant, h, e)) is owned)

  pub inserted-IsLinked :
      (row : AgentRow Number) (is : List Text) (c : Catalog agents tools) (o : Option agents.Db)
      → agents.insert row c.agent_rows ≡ o
      → All (λ i. owner tool_id tool_tenant tools c.tool_rows i ≡ some row.tenant_id) is
      → IsLinked c
      → IsLinked (inserted agents tools row is c o).1
  inserted-IsLinked row is c none e owned h = h
  inserted-IsLinked row is c (some db) e owned h =
      All-append (IsLink db c.tool_rows) c.links (map (link row.id) is)
        (carried c.agent_rows db c.tool_rows c.tool_rows c.links
          (insert-Preserves agent_id agent_tenant agents row c.agent_rows db e) (λ k tid x. x) h)
        (new_links-IsLink row.tenant_id row.id db c.tool_rows is
          (insert-owner agent_id agent_tenant agents row c.agent_rows db e) owned)

  pub without_agent-IsLink :
      (id : Text) (a a' : agents.Db) (t : tools.Db) (ls : List AgentToolRow)
      → ((k tenant : Text)
          → text_eq k id ≡ false
          → owner agent_id agent_tenant agents a k ≡ some tenant
          → owner agent_id agent_tenant agents a' k ≡ some tenant)
      → All (IsLink a t) ls
      → All (IsLink a' t) (without_agent id ls)
  unfolding without_agent
  without_agent-IsLink id a a' t ls f h =
      All-filter (IsLink a t) (IsLink a' t) (λ l. not (text_eq l.agent id)) ls
        (λ l e (tenant, x, y). (tenant, f l.agent tenant (ground arith) x, y)) h

  pub without_tool-IsLink :
      (id : Text) (a : agents.Db) (t : tools.Db) (ls : List AgentToolRow)
      → All (IsLink a t) ls
      → All (IsLink a (tools.delete id t)) (without_tool id ls)
  unfolding without_tool
  without_tool-IsLink id a t ls h =
      All-filter (IsLink a t) (IsLink a (tools.delete id t)) (λ l. not (text_eq l.tool id)) ls
        (λ l e (tenant, x, y). (
          tenant,
          x,
          delete_keeps tool_id tool_tenant tools id l.tool t
                (ground (arith, text_eq_iff l.tool id, text_eq_iff id l.tool))
              ∙ y,
        ))
        h

  pub own_agent-owner :
      (tenant id : Text) (db : agents.Db) (r : AgentRow Number)
      → own_agent tenant (agents.find id db) ≡ some r
      → owner agent_id agent_tenant agents db r.id ≡ some tenant
  unfolding own_agent
  own_agent-owner tenant id db r e = elim (Option-cases (agents.find id db)) [
    | inl n ↦ absurd (ground (arith, n, e))
    | inr (q, f) ↦ elim (Bool-cases (text_eq q.tenant_id tenant)) [
      | inl h ↦
          let same : q ≡ r = some-injective q r (rw (f, h) at e) in
          let found : agents.find q.id db ≡ some q =
            subst (λ k. agents.find k db ≡ some q) (sym (agents.find_key id db q f)) f in
          subst (λ (x : AgentRow Number). owner agent_id agent_tenant agents db x.id ≡ some tenant)
            same (ap (owner_of agent_tenant) found ∙ ap some ((text_eq_iff q.tenant_id tenant).0 h))
      | inr h ↦ absurd (ground (arith, f, h, e))
    ]
  ]

  pub change_agent-IsLinked :
      (tenant : Text) (now : ℕ) (fields : AgentFields Number) (is : List Text) (r : AgentRow Number)
      (c : Catalog agents tools)
      → owner agent_id agent_tenant agents c.agent_rows r.id ≡ some tenant
      → All (λ i. owner tool_id tool_tenant tools c.tool_rows i ≡ some tenant) is
      → IsLinked c
      → IsLinked (change_agent agents tools now fields is r c).1
  unfolding agent_values
  change_agent-IsLinked tenant now fields is r c h owned linked =
      let a : agents.Db =
        (agents.update_one r.id (λ q. true) (agent_values now fields) c.agent_rows).1 in
      let f : Preserves agent_id agent_tenant agents c.agent_rows a =
        update_one-Preserves agent_id agent_tenant agents r.id (λ q. true) (agent_values now fields)
          c.agent_rows (λ q. refl) (λ q. refl) in
      All-append (IsLink a c.tool_rows) (without_agent r.id c.links) (map (link r.id) is)
        (without_agent-IsLink r.id c.agent_rows a c.tool_rows c.links (λ k tid e. f k tid) linked)
        (new_links-IsLink tenant r.id a c.tool_rows is (f r.id tenant h) owned)

module _ (tools : Table ToolRow tool_id) where
  -- What a flush makes of the tools' table leaves every tool its tenant.
  pub flushed-Preserves :
      (clash : List ToolRow) (row : ToolRow) (db : tools.Db) (o : Option tools.Db)
      → ((db' : tools.Db) → o ≡ some db' → Preserves tool_id tool_tenant tools db db')
      → Preserves tool_id tool_tenant tools db (flushed tools clash row db o).1
  flushed-Preserves [] row db none f = λ k tid h. h
  flushed-Preserves [] row db (some db') f = f db' refl
  flushed-Preserves (q ∷ qs) row db none f = λ k tid h. h
  flushed-Preserves (q ∷ qs) row db (some db') f = λ k tid h. h
