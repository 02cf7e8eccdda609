-- ===== src/McpSvc/Tests.antt =====
-- Calls of the tool server, and the uses of its theorems.
use agent_exec_platform.Common.{
  map, is_space, ℕ, suc, ◌<◌, Bool, true, false, ◌&&◌, Option, none, some, List, [], ◌∷◌, Text,
  codes, text_eq, length, take, strip, is_truthy, All, ◌≡◌, ◌↔◌, ◌⊎◌, refl,
}
use agent_exec_platform.Common.Outcome.{ok, raise}
use agent_exec_platform.McpSvc.Handlers.{
  Parsers, Url, Statement, blocked_host, assert_url_is_public, validate_query_database_sql,
  query_rows, query_max_rows, run_query_database, execute_scoped,
}
use agent_exec_platform.McpSvc.Server.{ToolRow, Handler, on_call_tool, tools_of_tenant}
use agent_exec_platform.McpSvc.Scoping.{IsScoped, validate_query_database_sql-IsScoped}
use agent_exec_platform.McpSvc.Bounds.{
  IsPublicHost, assert_url_is_public-IsPublicHost, run_query_database-capped, on_call_tool-own,
}

abbrev invoices_query : Statement
invoices_query = record {
  is_select = true;
  has_with = false;
  tables = record { db = []; name = codes "invoices" } ∷ [];
}

-- Parsers that read one URL and one query, whatever they get.
abbrev reading : Text → Statement → Parsers
reading host statement = record {
  lower = λ s. s;
  urlsplit = λ url. some (record { scheme = codes "http"; hostname = some host });
  ip_address = λ host. none;
  sql_parse = λ query. some (statement ∷ []);
}

blocks_localhost :
    assert_url_is_public (reading (codes "localhost") invoices_query) [] ≡ raise blocked_host
unfolding assert_url_is_public text_eq
blocks_localhost = refl

passes_example_org : assert_url_is_public (reading (codes "a.org") invoices_query) [] ≡ ok tt
unfolding assert_url_is_public text_eq
passes_example_org = refl

assert_url_is_public-IsPublicHost_example :
    (u : Url) × (host : Text) × (some
        (record { scheme = codes "http"; hostname = some (codes "a.org") })
      ≡ some u)
    × ((u.scheme ≡ codes "http") ⊎ (u.scheme ≡ codes "https"))
    × (u.hostname ≡ some host)
    × IsPublicHost (reading (codes "a.org") invoices_query) host
assert_url_is_public-IsPublicHost_example =
    (assert_url_is_public-IsPublicHost (reading (codes "a.org") invoices_query) []).0
      passes_example_org

abbrev one_row : List ℕ
one_row = 7 ∷ []

abbrev scoped_query : Statement
scoped_query = record invoices_query {
  tables = record { db = []; name = codes "__tenant_invoices" } ∷ [];
}

accepts_invoices :
    validate_query_database_sql (reading [] invoices_query) (codes "q") ≡ ok scoped_query
unfolding validate_query_database_sql text_eq
accepts_invoices = refl

-- Rows with a tenant and a number; a statement gives the numbers of the rows that it reads.
abbrev two_tenants : Text → Text → List (Text × ℕ)
two_tenants schema table = (codes "acme", 7) ∷ (codes "evil", 8) ∷ []

abbrev numbers : Statement → List (List (Text × ℕ)) → Option (List (List ℕ))
numbers s tables = some (map (map (λ row. row.1)) tables)

-- Beneath the CTEs the scoped query sees the rows of the tenant, and the query as it was all rows.
reads_own :
    execute_scoped (λ row. row.0) numbers (codes "acme") two_tenants scoped_query
    ≡ some ((7 ∷ []) ∷ [])
unfolding execute_scoped text_eq
reads_own = refl

reads_all :
    execute_scoped (λ row. row.0) numbers (codes "acme") two_tenants invoices_query
    ≡ some ((7 ∷ 8 ∷ []) ∷ [])
unfolding execute_scoped text_eq
reads_all = refl

validate_query_database_sql-IsScoped_example :
    IsScoped
      (reading [] invoices_query)
      (λ row. row.0)
      numbers
      (codes "acme")
      two_tenants
      (codes "q")
      (validate_query_database_sql (reading [] invoices_query) (codes "q"))
validate_query_database_sql-IsScoped_example =
    validate_query_database_sql-IsScoped (reading [] invoices_query) (λ row. row.0) numbers
      (codes "acme") two_tenants (codes "q")

strips_query : strip (codes "q") ≡ codes "q"
unfolding strip is_space
strips_query = refl

run_query_database-capped_example :
    (truncated : Bool) × (kept : List ℕ) × (run_query_database
        (reading [] invoices_query)
        (λ s. some one_row)
        (codes "q")
      ≡ ok (query_rows kept (length kept) truncated))
    × (kept ≡ take query_max_rows one_row)
    × ((truncated ≡ true) ↔ (query_max_rows < length one_row))
unfolding strip is_space is_truthy validate_query_database_sql text_eq
run_query_database-capped_example =
    run_query_database-capped (reading [] invoices_query) (λ s. some one_row) (codes "q")
      scoped_query one_row refl refl refl

abbrev counting : Text → Option (Handler ℕ Bool)
counting name =
    some (record { description = []; input_schema = true; run = λ a tenant n. (ok [], suc n) })

abbrev catalog : List ToolRow
catalog =
    record { id = codes "1"; tenant_id = codes "acme"; name = codes "read"; description = none }
    ∷ []

runs_read : (on_call_tool counting false catalog (codes "acme") (codes "read") true 0).1 ≡ 1
unfolding on_call_tool text_eq
runs_read = refl

on_call_tool-own_example :
    (on_call_tool counting false catalog (codes "evil") (codes "read") true 0
      ≡ on_call_tool counting false
          (tools_of_tenant (codes "evil") catalog)
          (codes "evil")
          (codes "read")
          true
          0)
    × (All
          (λ r. (text_eq r.tenant_id (codes "evil") && text_eq r.name (codes "read")) ≡ false)
          catalog
        → (on_call_tool counting false catalog (codes "evil") (codes "read") true 0).1 ≡ 0)
on_call_tool-own_example =
    on_call_tool-own counting false catalog (codes "evil") (codes "read") true 0
