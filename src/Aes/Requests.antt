-- ===== src/Aes/Requests.antt =====
-- services/agent_execution_service/src/agent_execution_service/services/agents.py and tools.py: the
-- catalog of a deployment under any sequence of requests.
use agent_exec_platform.Common.{
  text_eq_iff, arith, ℕ, Bool, true, Option, none, some, List, [], ◌∷◌, Text, ◌≡◌, refl, sym,
  Option-cases, inl, inr, All, ◌∙◌,
}
use mathlib.Core.Path.{subst}
use mathlib.Core.Option.{some-injective}
use agent_exec_platform.Common.Outcome.{Outcome, ok, raise}
use agent_exec_platform.Database.Table.{Table}
use agent_exec_platform.Database.Owners.{
  Preserves, insert-Preserves, update_one-Preserves, delete_keeps,
}
use agent_exec_platform.Aes.Models.{AppError, not_found}
use agent_exec_platform.Aes.Tools.{
  ToolRow, tool_id, own_tool, create_tool, update_tool, delete_tool, change_tool, tool_values,
  new_tool, clashes,
}
use agent_exec_platform.Aes.Agents.{
  AgentRow, agent_id, AgentFields, new_agent, own_agent, Catalog, valid_ids, without_agent, Listed,
  create_agent, change_agent, succeeded, update_agent, delete_agent, stored_tool, add_tool,
  change_tool_row, removed_tool, remove_tool,
}
use agent_exec_platform.Aes.Links.{
  tool_tenant, agent_tenant, IsLink, IsLinked, carried, valid_ids-owned, inserted-IsLinked,
  own_agent-owner, change_agent-IsLinked, flushed-Preserves, without_agent-IsLink,
  without_tool-IsLink,
}
use agent_exec_platform.Aes.Agents.{without_tool}

module _ {Number : Type 0} (agents : Table (AgentRow Number) agent_id)
    (tools : Table ToolRow tool_id) where
  -- The requests that change the catalog, with what `new_id()` and `now()` give them.
  pub data CatalogRequest : Type 0 where
    creating_agent : Text → ℕ → Text → AgentFields Number → List Text → CatalogRequest
    updating_agent : Text → Text → ℕ → AgentFields Number → List Text → CatalogRequest
    deleting_agent : Text → Text → CatalogRequest
    creating_tool : Text → ℕ → Text → Text → Option Text → Bool → CatalogRequest
    updating_tool : Text → Text → ℕ → Text → Text → Bool → CatalogRequest
    deleting_tool : Text → Text → CatalogRequest

  abbrev pub serve : CatalogRequest → Catalog agents tools → Catalog agents tools
  serve (creating_agent id now tenant fields is) c =
      (create_agent agents tools id now tenant fields is c).1
  serve (updating_agent tenant id now fields is) c =
      (update_agent agents tools tenant id now fields is c).1
  serve (deleting_agent tenant id) c = (delete_agent agents tools tenant id c).1
  serve (creating_tool id now tenant name description mutating) c =
      (add_tool agents tools id now tenant name description mutating c).1
  serve (updating_tool tenant id now name description mutating) c =
      (change_tool_row agents tools tenant id now name description mutating c).1
  serve (deleting_tool tenant id) c = (remove_tool agents tools tenant id c).1

  abbrev pub serve_all : List CatalogRequest → Catalog agents tools → Catalog agents tools
  serve_all [] c = c
  serve_all (q ∷ qs) c = serve_all qs (serve q c)

  update_agent-IsLinked :
      (tenant id : Text) (now : ℕ) (fields : AgentFields Number) (is : List Text)
      (c : Catalog agents tools)
      → IsLinked agents tools c
      → IsLinked agents tools (update_agent agents tools tenant id now fields is c).1
  unfolding update_agent
  update_agent-IsLinked tenant id now fields is c h =
      elim (Option-cases (own_agent tenant (agents.find id c.agent_rows))) [
        | inl e ↦ subst changed_by (sym e) h
        | inr (r, e) ↦ subst changed_by (sym e) (
            change_agent-IsLinked agents tools tenant now fields
              (valid_ids agents tools tenant is c) r c
              (own_agent-owner agents tools tenant id c.agent_rows r e)
              (valid_ids-owned agents tools tenant is c) h)
      ]
    where
      changed_by : Option (AgentRow Number) → Type 0
      changed_by o =
          IsLinked agents tools
            (elim o as (λ x. Outcome AppError (Listed agents tools) × Catalog agents tools) [
              | none ↦ (raise (not_found id), c)
              | some r ↦
                  succeeded agents tools
                    (change_agent agents tools now fields (valid_ids agents tools tenant is c) r c)
            ]).1

  delete_agent-IsLinked :
      (tenant id : Text) (c : Catalog agents tools)
      → IsLinked agents tools c
      → IsLinked agents tools (delete_agent agents tools tenant id c).1
  unfolding delete_agent
  delete_agent-IsLinked tenant id c h =
      elim (Option-cases (own_agent tenant (agents.find id c.agent_rows))) [
        | inl e ↦ subst changed_by (sym e) h
        | inr (r, e) ↦ subst changed_by (sym e) (
            without_agent-IsLink agents tools r.id c.agent_rows (agents.delete r.id c.agent_rows)
              c.tool_rows c.links
              (λ k tid away own.
                delete_keeps agent_id agent_tenant agents r.id k c.agent_rows
                  (ground (arith, text_eq_iff k r.id, text_eq_iff r.id k))
                ∙ own)
              h)
      ]
    where
      changed_by : Option (AgentRow Number) → Type 0
      changed_by o =
          IsLinked agents tools
            (elim o as (λ x. Outcome AppError (Unit {0}) × Catalog agents tools) [
              | none ↦ (raise (not_found id), c)
              | some r ↦ (
                ok tt,
                record c {
                  agent_rows = agents.delete r.id c.agent_rows;
                  links = without_agent r.id c.links;
                },
              )
            ]).1

  -- A change of the tools' table that leaves every tool its tenant.
  stored_tool-IsLinked :
      {A : Type 0} (c : Catalog agents tools) (x : Outcome AppError A × tools.Db)
      → Preserves tool_id tool_tenant tools c.tool_rows x.1
      → IsLinked agents tools c
      → IsLinked agents tools (stored_tool agents tools c x).1
  stored_tool-IsLinked c (x, db) f h =
      carried agents tools c.agent_rows c.agent_rows c.tool_rows db c.links (λ k tid e. e) f h

  create_tool-Preserves :
      (id : Text) (now : ℕ) (tenant name : Text) (description : Option Text) (mutating : Bool)
      (db : tools.Db)
      → Preserves tool_id tool_tenant tools db
          (create_tool tools id now tenant name description mutating db).1
  unfolding create_tool
  create_tool-Preserves id now tenant name description mutating db =
      let row = new_tool id now tenant name description mutating in
      flushed-Preserves tools (tools.select (clashes row) db) row db (tools.insert row db)
        (λ db' e. insert-Preserves tool_id tool_tenant tools row db db' e)

  change_tool-Preserves :
      (r : ToolRow) (values : ToolRow → ToolRow) (db : tools.Db)
      → ((q : ToolRow) → (values q).id ≡ q.id)
      → ((q : ToolRow) → (values q).tenant_id ≡ q.tenant_id)
      → Preserves tool_id tool_tenant tools db (change_tool tools r values db).1
  change_tool-Preserves r values db fixes owns =
      let new : tools.Db = (tools.update_one r.id (λ q. true) values db).1 in
      flushed-Preserves tools (tools.select (clashes (values r)) db) (values r) db (some new)
        (λ db' e.
          subst (λ d. Preserves tool_id tool_tenant tools db d) (some-injective new db' e)
            (update_one-Preserves tool_id tool_tenant tools r.id (λ q. true) values db fixes owns))

  update_tool-Preserves :
      (tenant id : Text) (now : ℕ) (name description : Text) (mutating : Bool) (db : tools.Db)
      → Preserves tool_id tool_tenant tools db
          (update_tool tools tenant id now name description mutating db).1
  unfolding update_tool tool_values
  update_tool-Preserves tenant id now name description mutating db =
      elim (Option-cases (own_tool tenant (tools.find id db))) [
        | inl e ↦ subst changed_by (sym e) (λ k tid h. h)
        | inr (r, e) ↦ subst changed_by (sym e) (
            change_tool-Preserves r (tool_values now name description mutating) db (λ q. refl)
              (λ q. refl))
      ]
    where
      changed_by : Option ToolRow → Type 0
      changed_by o =
          Preserves tool_id tool_tenant tools db
            (elim o as (λ x. Outcome AppError ToolRow × tools.Db) [
              | none ↦ (raise (not_found id), db)
              | some r ↦ change_tool tools r (tool_values now name description mutating) db
            ]).1

  own_tool-id :
      (tenant id : Text) (db : tools.Db) (r : ToolRow)
      → own_tool tenant (tools.find id db) ≡ some r
      → r.id ≡ id
  unfolding own_tool
  own_tool-id tenant id db r e = elim (Option-cases (tools.find id db)) [
    | inl n ↦ absurd (ground (arith, n, e))
    | inr (q, f) ↦ ground (arith, f, e, tools.find_key id db q f)
  ]

  remove_tool-IsLinked :
      (tenant id : Text) (c : Catalog agents tools)
      → IsLinked agents tools c
      → IsLinked agents tools (remove_tool agents tools tenant id c).1
  unfolding remove_tool delete_tool
  remove_tool-IsLinked tenant id c h =
      elim (Option-cases (own_tool tenant (tools.find id c.tool_rows))) [
        | inl e ↦ subst changed_by (sym e) h
        | inr (r, e) ↦ subst changed_by (sym e) (
            subst
              (λ k.
                All (IsLink agents tools c.agent_rows (tools.delete k c.tool_rows))
                  (without_tool id c.links))
              (sym (own_tool-id tenant id c.tool_rows r e))
              (without_tool-IsLink agents tools id c.agent_rows c.tool_rows c.links h))
      ]
    where
      changed_by : Option ToolRow → Type 0
      changed_by o =
          IsLinked agents tools
            (removed_tool agents tools id c
              (elim o as (λ x. Outcome AppError (Unit {0}) × tools.Db) [
                | none ↦ (raise (not_found id), c.tool_rows)
                | some r ↦ (ok tt, tools.delete r.id c.tool_rows)
              ])).1

  serve-IsLinked :
      (q : CatalogRequest) (c : Catalog agents tools)
      → IsLinked agents tools c
      → IsLinked agents tools (serve q c)
  unfolding create_agent add_tool change_tool_row new_agent
  serve-IsLinked (creating_agent id now tenant fields is) c h =
      inserted-IsLinked agents tools (new_agent id now tenant fields)
        (valid_ids agents tools tenant is c) c
        (agents.insert (new_agent id now tenant fields) c.agent_rows) refl
        (valid_ids-owned agents tools tenant is c) h
  serve-IsLinked (updating_agent tenant id now fields is) c h =
      update_agent-IsLinked tenant id now fields is c h
  serve-IsLinked (deleting_agent tenant id) c h = delete_agent-IsLinked tenant id c h
  serve-IsLinked (creating_tool id now tenant name description mutating) c h =
      stored_tool-IsLinked c (create_tool tools id now tenant name description mutating c.tool_rows)
        (create_tool-Preserves id now tenant name description mutating c.tool_rows) h
  serve-IsLinked (updating_tool tenant id now name description mutating) c h =
      stored_tool-IsLinked c (update_tool tools tenant id now name description mutating c.tool_rows)
        (update_tool-Preserves tenant id now name description mutating c.tool_rows) h
  serve-IsLinked (deleting_tool tenant id) c h = remove_tool-IsLinked tenant id c h

  -- Whatever requests create, change and delete agents and tools, of whatever tenants and in
  -- whatever order, every link of an agent to a tool joins an agent and a tool that both exist and
  -- belong to one tenant, if every link did so at first.
  pub serve_all-IsLinked :
      (qs : List CatalogRequest) (c : Catalog agents tools)
      → IsLinked agents tools c
      → IsLinked agents tools (serve_all qs c)
  serve_all-IsLinked [] c h = h
  serve_all-IsLinked (q ∷ qs) c h = serve_all-IsLinked qs (serve q c) (serve-IsLinked q c h)
