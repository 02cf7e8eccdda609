-- ===== src/McpSvc/Scoping.antt =====
-- services/mcp_svc/src/mcp_svc/handlers.py: which queries pass, and which rows they read.
use mathlib.Core.Path.{subst}
use agent_exec_platform.Common.{
  ◌≡◌, ◌≢◌, ◌↔◌, ◌⊎◌, ◌||◌, not, refl, sym, ap, ◌∙◌, inl, inr, Bool-cases, true, false, Option,
  none, some, List, [], ◌∷◌, Text, codes, text_eq, text_eq_iff, map, filter, contains, is_truthy,
  any, all, All, arith,
}
use agent_exec_platform.Common.Outcome.{Outcome, ok, raise}
use agent_exec_platform.McpSvc.Handlers.{
  ValueError, not_select, own_with, qualified_table, other_table, unknown_table, Parsers, TableRef,
  Statement, query_allowed_tables, scoped_table_name, scope_tables, is_no_table, names_allowed,
  check_statement, check_statements, tenant_scope_cte, validate_query_database_sql, rows_read,
  execute_scoped,
}

-- A reference to one of the two tables that a query may read, without a schema.
abbrev pub IsOwnTable : Parsers → TableRef → Type 0
IsOwnTable p r =
    (r.db ≡ []) × ((p.lower r.name ≡ codes "customers") ⊎ (p.lower r.name ≡ codes "invoices"))

-- A plain SELECT that reads them alone.
abbrev pub IsPlain : Parsers → Statement → Type 0
IsPlain p s =
    (s.is_select ≡ true) × (s.has_with ≡ false) × (s.tables ≢ []) × All (IsOwnTable p) s.tables

abbrev pub IsAllowed : Parsers → Text → Type 0
IsAllowed p query = (s : Statement) × (p.sql_parse query ≡ some (s ∷ [])) × IsPlain p s

is_own_iff :
    (p : Parsers) (r : TableRef)
    → IsOwnTable p r
      ↔ ((is_truthy r.db ≡ false) × (contains query_allowed_tables (p.lower r.name) ≡ true))
unfolding is_truthy contains query_allowed_tables
is_own_iff p r = ground (
  arith,
  text_eq_iff (codes "customers") (p.lower r.name),
  text_eq_iff (codes "invoices") (p.lower r.name),
)

are_own_iff :
    (p : Parsers) (rs : List TableRef)
    → All (IsOwnTable p) rs ↔ ((any (λ r. is_truthy r.db) rs ≡ false) × (names_allowed p rs ≡ true))
unfolding any all
are_own_iff p [] = ground arith
are_own_iff p (r ∷ rs) = ground (arith, is_own_iff p r, are_own_iff p rs)

is_no_table-false : (rs : List TableRef) → rs ≢ [] → is_no_table rs ≡ false
is_no_table-false [] h = absurd (h refl)
is_no_table-false (r ∷ rs) h = refl

is_no_table-given : (rs : List TableRef) → is_no_table rs ≡ false → rs ≢ []
is_no_table-given [] h = ground arith
is_no_table-given (r ∷ rs) h = λ e. cc

module _ {Row Result : Type 0} (p : Parsers) (tenant_of : Row → Text)
    (evaluate : Statement → List (List Row) → Option (List Result)) (tenant : Text)
    (db : Text → Text → List Row) where
  -- The rows of the tenant in the table of a reference.
  abbrev pub own_rows : TableRef → List Row
  own_rows r = filter (λ row. text_eq (tenant_of row) tenant) (db [] (p.lower r.name))

  -- What an outcome of the validation says of the query. A statement that passes is the one plain
  -- SELECT of the query with other table names, and is evaluated on the tenant's own rows of the
  -- tables that the query names; a query is refused only if it is not allowed, and no table lacks a
  -- scoped name.
  abbrev pub IsScoped : Text → Outcome ValueError Statement → Type 0
  IsScoped query (ok s) =
      (o : Statement) × (p.sql_parse query ≡ some (o ∷ []))
      × IsPlain p o
      × (s ≡ record o { tables = s.tables })
      × (execute_scoped tenant_of evaluate tenant db s ≡ evaluate s (map own_rows o.tables))
  IsScoped query (raise e) = (e ≢ unknown_table) × ¬ IsAllowed p query

  renames :
      (r : TableRef)
      → IsOwnTable p r
      → (name : Text) × (scoped_table_name (p.lower r.name) ≡ some name)
        × (rows_read tenant_of evaluate tenant db (record r { name = name }) ≡ own_rows r)
  unfolding rows_read scoped_table_name is_truthy tenant_scope_cte text_eq
  renames r (plain, inl e) = (codes "__tenant_customers", rw e refl, rw (plain, e) refl)
  renames r (plain, inr e) = (codes "__tenant_invoices", rw e refl, rw (plain, e) refl)

  scopes :
      (rs : List TableRef)
      → All (IsOwnTable p) rs
      → (scoped : List TableRef) × (scope_tables p rs ≡ ok scoped)
        × (map (rows_read tenant_of evaluate tenant db) scoped ≡ map own_rows rs)
  unfolding scope_tables
  scopes [] a = ([], refl, refl)
  scopes (r ∷ rs) (own, rest) =
      let (name, named, same) = renames r own in
      let (scoped, e, sames) = scopes rs rest in
      (
        record r { name = name } ∷ scoped,
        rw (named, e) refl,
        ap (λ rows. rows ∷ map (rows_read tenant_of evaluate tenant db) scoped) same
            ∙ ap (λ l. own_rows r ∷ l) sames,
      )

  passes :
      (o : Statement)
      → IsPlain p o
      → (s : Statement) × (check_statement p o ≡ ok s)
        × (s ≡ record o { tables = s.tables })
        × (execute_scoped tenant_of evaluate tenant db s ≡ evaluate s (map own_rows o.tables))
  unfolding execute_scoped
  passes o (select, free, some_table, own) =
      let (scoped, e, same) = scopes o.tables own in
      let (plain, allowed) = (are_own_iff p o.tables).0 own in
      let given : is_no_table o.tables ≡ false = is_no_table-false o.tables some_table in
      let s : Statement = record o { tables = scoped } in
      (s, rw (select, free, plain, given, allowed, e) refl, refl, ap (evaluate s) same)

  refuses :
      (o : Statement)
      → IsPlain p o
        ⊎ (¬ IsPlain p o × (e : ValueError) × (check_statement p o ≡ raise e) × (e ≢ unknown_table))
  refuses o = elim (Bool-cases o.is_select) [
    | inr other_kind ↦ inr (λ h. ground (arith, h.0), not_select, rw other_kind refl, λ h. cc)
    | inl select ↦ elim (Bool-cases o.has_with) [
      | inl its_own ↦ inr (λ h. ground (arith, h.1), own_with, rw (select, its_own) refl, λ h. cc)
      | inr free ↦ elim (Bool-cases (any (λ r. is_truthy r.db) o.tables)) [
        | inl foreign ↦ inr (
          λ h. ground (arith, (are_own_iff p o.tables).0 h.3),
          qualified_table,
          rw (select, free, foreign) refl,
          λ h. cc,
        )
        | inr plain ↦ elim (Bool-cases (is_no_table o.tables || not (names_allowed p o.tables))) [
          | inl other ↦ inr (
            λ h. ground (arith, (are_own_iff p o.tables).0 h.3, is_no_table-false o.tables h.2),
            other_table,
            rw (select, free, plain, other) refl,
            λ h. cc,
          )
          | inr fine ↦ inl (
            select,
            free,
            is_no_table-given o.tables (ground arith),
            (are_own_iff p o.tables).1 (plain, ground arith),
          )
        ]
      ]
    ]
  ]

  check_statement-IsScoped :
      (query : Text) (o : Statement)
      → p.sql_parse query ≡ some (o ∷ [])
      → IsScoped query (check_statement p o)
  check_statement-IsScoped query o parsed = elim (refuses o) [
    | inl plain ↦
        let (s, e, same, read) = passes o plain in
        subst (IsScoped query) (sym e) (o, parsed, plain, same, read)
    | inr (not_plain, error, e, known) ↦ subst (IsScoped query) (sym e) (
      known,
      λ (o', parsed', plain').
          not_plain (subst (IsPlain p) (alone o o' (sym parsed ∙ parsed')) plain'),
    )
  ]
    where
      alone : (o o' : Statement) → some (o ∷ []) ≡ some (o' ∷ []) → o' ≡ o
      alone o o' h = cc

  -- A query passes exactly if it is one plain SELECT that reads `customers` and `invoices` alone,
  -- without a schema and without a WITH of its own. The statement that passes is that SELECT with
  -- other table names, and beneath the CTEs it is evaluated on the rows that the tenant has in the
  -- tables that the query names, and on no other. No table that passes the checks lacks a scoped
  -- name.
  pub validate_query_database_sql-IsScoped :
      (query : Text) → IsScoped query (validate_query_database_sql p query)
  unfolding validate_query_database_sql
  validate_query_database_sql-IsScoped query = go (p.sql_parse query) refl
    where
      go :
          (l : Option (List Statement))
          → p.sql_parse query ≡ l
          → IsScoped query (check_statements p l)
      go none e = (λ h. cc, λ (o, parsed, plain). cc)
      go (some []) e = (λ h. cc, λ (o, parsed, plain). cc)
      go (some (o ∷ [])) e = check_statement-IsScoped query o e
      go (some (a ∷ b ∷ l)) e = (λ h. cc, λ (o, parsed, plain). cc)
