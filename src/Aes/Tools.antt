-- ===== src/Aes/Tools.antt =====
-- services/agent_execution_service/src/agent_execution_service/services/tools.py: the methods of
-- `ToolService` over the tools table. The unique constraint on (tenant_id, name) is checked by the
-- flush, as PostgreSQL does it; a violation of it or of the key rolls the transaction back.
use agent_exec_platform.Common.{
  ℕ, ◌+◌, Bool, true, not, ◌&&◌, Option, none, some, List, [], ◌∷◌, Text, text_eq, if◌then◌else◌,
}
use agent_exec_platform.Common.Outcome.{Outcome, ok, raise}
use agent_exec_platform.Database.Table.{Table}
use agent_exec_platform.JobSvc.Jobs.Values.{in_filter}
use agent_exec_platform.Aes.Models.{AppError, not_found, conflict}

pub record ToolRow : Type 0 where
  pub id : Text
  pub tenant_id : Text
  pub name : Text
  pub description : Option Text
  pub mutating : Bool
  pub version : ℕ
  pub created_at : ℕ
  pub updated_at : ℕ

abbrev pub tool_id : ToolRow → Text
tool_id r = r.id

-- The row that `create` adds.
unfoldable pub new_tool : Text → ℕ → Text → Text → Option Text → Bool → ToolRow
new_tool id now tenant name description mutating = record {
  id = id;
  tenant_id = tenant;
  name = name;
  description = description;
  mutating = mutating;
  version = 1;
  created_at = now;
  updated_at = now;
}

-- description or None
abbrev pub nonempty : Text → Option Text
nonempty [] = none
nonempty (c ∷ s) = some (c ∷ s)

-- The assignments of `update`.
unfoldable pub tool_values : ℕ → Text → Text → Bool → ToolRow → ToolRow
tool_values now name description mutating r = record r {
  name = name;
  description = nonempty description;
  mutating = mutating;
  version = r.version + 1;
  updated_at = now;
}

-- Another row of the tenant that has the name.
unfoldable pub clashes : ToolRow → ToolRow → Bool
clashes new r =
    text_eq r.tenant_id new.tenant_id && (text_eq r.name new.name && not (text_eq r.id new.id))

-- row is None or row.tenant_id != tenant_id
unfoldable pub own_tool : Text → Option ToolRow → Option ToolRow
own_tool tenant none = none
own_tool tenant (some r) = if text_eq r.tenant_id tenant then some r else none

module _ (t : Table ToolRow tool_id) where
  open t use {Db}

  -- _flush_or_conflict, given the rows that clash and the table that the flush makes
  abbrev pub flushed : List ToolRow → ToolRow → Db → Option Db → Outcome AppError ToolRow × Db
  flushed [] row db (some db') = (ok row, db')
  flushed _ row db _ = (raise conflict, db)

  -- create
  unfoldable pub create_tool :
      Text → ℕ → Text → Text → Option Text → Bool → Db → Outcome AppError ToolRow × Db
  unfolding new_tool clashes
  create_tool id now tenant name description mutating db =
      let row = new_tool id now tenant name description mutating in
      flushed (t.select (clashes row) db) row db (t.insert row db)

  -- get
  unfoldable pub get_tools : Text → List Text → Db → List ToolRow
  unfolding in_filter
  get_tools tenant ids db = t.select (λ r. text_eq r.tenant_id tenant && in_filter ids r.id) db

  -- The part of `update` after the row is found.
  abbrev pub change_tool : ToolRow → (ToolRow → ToolRow) → Db → Outcome AppError ToolRow × Db
  change_tool r values db =
      flushed (t.select (clashes (values r)) db) (values r) db
        (some (t.update_one r.id (λ q. true) values db).1)

  -- update
  unfoldable pub update_tool :
      Text → Text → ℕ → Text → Text → Bool → Db → Outcome AppError ToolRow × Db
  unfolding own_tool tool_values clashes
  update_tool tenant id now name description mutating db = elim (own_tool tenant (t.find id db)) [
    | none ↦ (raise (not_found id), db)
    | some r ↦ change_tool r (tool_values now name description mutating) db
  ]

  -- delete
  unfoldable pub delete_tool : Text → Text → Db → Outcome AppError (Unit {0}) × Db
  unfolding own_tool
  delete_tool tenant id db = elim (own_tool tenant (t.find id db)) [
    | none ↦ (raise (not_found id), db)
    | some r ↦ (ok tt, t.delete r.id db)
  ]
