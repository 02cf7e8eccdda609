-- ===== src/Aes/Names.antt =====
-- services/agent_execution_service/src/agent_execution_service/services/tools.py: a tool name stands
-- for one tool of a tenant.
use mathlib.Core.Path.{subst}
use mathlib.Core.Option.{some-injective}
use agent_exec_platform.Common.{
  ℕ, Bool, true, false, Option, none, some, List, [], ◌∷◌, Text, text_eq, ◌≡◌, refl, sym, ap, ◌∙◌,
  Option-cases, Bool-cases, inl, inr, arith, text_eq_iff, if◌then◌else◌,
}
use agent_exec_platform.Common.Outcome.{Outcome, ok, raise}
use agent_exec_platform.Database.Table.{Table, by_key, chosen, updated}
use agent_exec_platform.Aes.Models.{AppError, not_found}
use agent_exec_platform.Aes.Tools.{
  ToolRow, tool_id, new_tool, tool_values, clashes, own_tool, flushed, create_tool, change_tool,
  update_tool, delete_tool,
}

module _ (t : Table ToolRow tool_id) where
  open t use {Db}

  -- No two tools of one tenant have one name.
  abbrev pub IsUnique : Db → Type 0
  IsUnique db =
      (j k : Text) (r s : ToolRow)
      → t.find j db ≡ some r
      → t.find k db ≡ some s
      → r.tenant_id ≡ s.tenant_id
      → r.name ≡ s.name
      → j ≡ k

  -- A row that no other clashes with has a name of its own.
  clash_absurd :
      (db : Db) (row : ToolRow) (k : Text) (s : ToolRow)
      → t.select (clashes row) db ≡ []
      → t.find k db ≡ some s
      → text_eq row.id k ≡ false
      → s.tenant_id ≡ row.tenant_id
      → s.name ≡ row.name
      → ⊥
  unfolding clashes by_key
  clash_absurd db row k s free g other same named =
      let none_clashes : chosen (clashes row) (t.find k db) ≡ none =
        sym (t.by_key-select (clashes row) db k) ∙ ap (by_key tool_id k) free in
      ground (
        arith,
        t.find_key k db s g,
        text_eq_iff s.id row.id,
        text_eq_iff row.id k,
        text_eq_iff s.tenant_id row.tenant_id,
        text_eq_iff s.name row.name,
      )

  -- The table has a row where another had one, or none, and the row clashes with no other.
  stored-IsUnique :
      (db db' : Db) (row : ToolRow)
      → IsUnique db
      → t.select (clashes row) db ≡ []
      → ((k : Text) → t.find k db' ≡ (if text_eq row.id k then some row else t.find k db))
      → IsUnique db'
  unfolding clashes by_key
  stored-IsUnique db db' row unique free now j k r s f g same named =
      elim (Bool-cases (text_eq row.id j)) [
        | inl at ↦ elim (Bool-cases (text_eq row.id k)) [
          | inl also ↦ sym ((text_eq_iff row.id j).0 at) ∙ (text_eq_iff row.id k).0 also
          | inr other ↦
              let new : row ≡ r = some-injective row r (ground (arith, now j)) in
              absurd (
                clash_absurd db row k s free (ground (arith, now k)) other
                  (sym (ap (λ q. q.tenant_id) new ∙ same)) (sym (ap (λ q. q.name) new ∙ named)))
        ]
        | inr away ↦ elim (Bool-cases (text_eq row.id k)) [
          | inl at ↦
              let new : row ≡ s = some-injective row s (ground (arith, now k)) in
              absurd (
                clash_absurd db row j r free (ground (arith, now j)) away
                  (same ∙ sym (ap (λ q. q.tenant_id) new)) (named ∙ sym (ap (λ q. q.name) new)))
          | inr other ↦ unique j k r s (ground (arith, now j)) (ground (arith, now k)) same named
        ]
      ]

  -- The requests that change tools, each of a tenant.
  pub data ToolRequest : Type 0 where
    creating : Text → ℕ → Text → Text → Option Text → Bool → ToolRequest
    updating : Text → Text → ℕ → Text → Text → Bool → ToolRequest
    deleting : Text → Text → ToolRequest

  abbrev pub apply_request : ToolRequest → Db → Db
  apply_request (creating id now tenant name description mutating) db =
      (create_tool t id now tenant name description mutating db).1
  apply_request (updating tenant id now name description mutating) db =
      (update_tool t tenant id now name description mutating db).1
  apply_request (deleting tenant id) db = (delete_tool t tenant id db).1

  flushed-IsUnique :
      (clash : List ToolRow) (row : ToolRow) (db : Db) (o : Option Db)
      → IsUnique db
      → t.select (clashes row) db ≡ clash
      → ((db' : Db)
          → o ≡ some db'
          → (k : Text) → t.find k db' ≡ (if text_eq row.id k then some row else t.find k db))
      → IsUnique (flushed t clash row db o).1
  flushed-IsUnique [] row db none unique free now = unique
  flushed-IsUnique [] row db (some db') unique free now =
      stored-IsUnique db db' row unique free (now db' refl)
  flushed-IsUnique (c ∷ cs) row db none unique free now = unique
  flushed-IsUnique (c ∷ cs) row db (some db') unique free now = unique

  change_tool-IsUnique :
      (r : ToolRow) (values : ToolRow → ToolRow) (db : Db)
      → ((q : ToolRow) → (values q).id ≡ q.id)
      → t.find r.id db ≡ some r
      → IsUnique db
      → IsUnique (change_tool t r values db).1
  change_tool-IsUnique r values db fixes found unique =
      flushed-IsUnique (t.select (clashes (values r)) db) (values r) db
        (some (t.update_one r.id (λ q. true) values db).1) unique refl
        (λ db' e k.
          subst
            (λ d. t.find k d ≡ (if text_eq (values r).id k then some (values r) else t.find k db))
            (some-injective (t.update_one r.id (λ q. true) values db).1 db' e) (stored k))
    where
      stored :
          (k : Text)
          → t.find k (t.update_one r.id (λ q. true) values db).1
            ≡ (if text_eq (values r).id k then some (values r) else t.find k db)
      stored k =
          t.find-update_one r.id (λ q. true) values db k fixes
          ∙ elim (Bool-cases (text_eq r.id k)) [
            | inl at ↦ rw at (
                ap (updated (λ q. true) values)
                  (ap (λ j. t.find j db) (sym ((text_eq_iff r.id k).0 at)) ∙ found))
            | inr away ↦ rw away refl
          ]
          ∙ ap (λ i. if text_eq i k then some (values r) else t.find k db) (sym (fixes r))

  delete-IsUnique : (id : Text) (db : Db) → IsUnique db → IsUnique (t.delete id db)
  delete-IsUnique id db unique j k r s f g same named =
      unique j k r s (ground (arith, t.find-delete id db j)) (ground (arith, t.find-delete id db k))
        same named

  own_tool-found :
      (tenant id : Text) (db : Db) (r : ToolRow)
      → own_tool tenant (t.find id db) ≡ some r
      → t.find r.id db ≡ some r
  unfolding own_tool
  own_tool-found tenant id db r e =
      let found : t.find id db ≡ some r = go (t.find id db) e in
      subst (λ k. t.find k db ≡ some r) (sym (t.find_key id db r found)) found
    where
      go : (o : Option ToolRow) → own_tool tenant o ≡ some r → o ≡ some r
      go none h = ground arith
      go (some q) h = ground arith

  apply_request-IsUnique : (q : ToolRequest) (db : Db) → IsUnique db → IsUnique (apply_request q db)
  unfolding create_tool update_tool delete_tool new_tool tool_values own_tool
  apply_request-IsUnique (creating id now tenant name description mutating) db unique =
      let row = new_tool id now tenant name description mutating in
      flushed-IsUnique (t.select (clashes row) db) row db (t.insert row db) unique refl
        (λ db' e k. t.find-insert row db db' k e)
  apply_request-IsUnique (updating tenant id now name description mutating) db unique =
      elim (Option-cases (own_tool tenant (t.find id db))) [
        | inl e ↦ subst changed_by (sym e) unique
        | inr (r, e) ↦ subst changed_by (sym e) (
            change_tool-IsUnique r (tool_values now name description mutating) db (λ q. refl)
              (own_tool-found tenant id db r e) unique)
      ]
    where
      changed_by : Option ToolRow → Type 0
      changed_by o =
          IsUnique
            (elim o as (λ x. Outcome AppError ToolRow × Db) [
              | none ↦ (raise (not_found id), db)
              | some r ↦ change_tool t r (tool_values now name description mutating) db
            ]).1
  apply_request-IsUnique (deleting tenant id) db unique =
      elim (Option-cases (own_tool tenant (t.find id db))) [
        | inl e ↦ subst deleted_by (sym e) unique
        | inr (r, e) ↦ subst deleted_by (sym e) (delete-IsUnique r.id db unique)
      ]
    where
      deleted_by : Option ToolRow → Type 0
      deleted_by o =
          IsUnique
            (elim o as (λ x. Outcome AppError (Unit {0}) × Db) [
              | none ↦ (raise (not_found id), db)
              | some r ↦ (ok tt, t.delete r.id db)
            ]).1

  abbrev pub apply_requests : List ToolRequest → Db → Db
  apply_requests [] db = db
  apply_requests (q ∷ qs) db = apply_requests qs (apply_request q db)

  -- Whatever requests create, change and delete tools, of whatever tenants and in whatever order, no
  -- tenant ever has two tools of one name if it had none at first.
  pub apply_requests-IsUnique :
      (qs : List ToolRequest) (db : Db) → IsUnique db → IsUnique (apply_requests qs db)
  apply_requests-IsUnique [] db unique = unique
  apply_requests-IsUnique (q ∷ qs) db unique =
      apply_requests-IsUnique qs (apply_request q db) (apply_request-IsUnique q db unique)
