-- ===== src/McpSvc/Handlers.antt =====
-- services/mcp_svc/src/mcp_svc/handlers.py: what the two handlers check before they act. The parsers
-- of URLs, addresses and SQL, the network and the SQL server are parameters.
use agent_exec_platform.Common.{
  map, filter, ℕ, ◌+◌, Bool, true, false, not, ◌||◌, Option, none, some, List, [], ◌∷◌, Text, codes,
  text_eq, contains, is_truthy, strip, ends_with, length, ltb, any, all, take, if◌then◌else◌,
}
use agent_exec_platform.Common.Outcome.{Outcome, ok, raise, ◌>>=◌}

-- What `urlsplit` gives of a URL: the scheme and the host name.
pub record Url : Type 0 where
  pub scheme : Text
  pub hostname : Option Text

-- The tests that `ipaddress` has for an address.
pub record Address : Type 0 where
  pub is_private : Bool
  pub is_loopback : Bool
  pub is_link_local : Bool
  pub is_reserved : Bool
  pub is_multicast : Bool
  pub is_unspecified : Bool

-- A table reference of a statement: its schema, which is empty where none is given, and its name.
pub record TableRef : Type 0 where
  pub db : Text
  pub name : Text

-- What `sqlglot` gives of a statement: whether it is a plain SELECT, whether it holds a WITH, and its
-- table references in the order that `find_all` has.
pub record Statement : Type 0 where
  pub is_select : Bool
  pub has_with : Bool
  pub tables : List TableRef

-- A ValueError, with the place that raises it, or the KeyError of `_SCOPED_TABLE_NAME`.
pub data ValueError : Type 0 where
  bad_url bad_scheme no_host blocked_host missing_argument bad_sql many_statements : ValueError
  not_select own_with qualified_table other_table unknown_table : ValueError

-- str.lower and the parsers; a parser is `none` where it raises
pub record Parsers : Type 0 where
  pub lower : Text → Text
  pub urlsplit : Text → Option Url
  pub ip_address : Text → Option Address
  pub sql_parse : Text → Option (List Statement)

unfoldable pub allowed_schemes : List Text
allowed_schemes = codes "http" ∷ codes "https" ∷ []

unfoldable pub blocked_hostnames : List Text
blocked_hostnames = codes "localhost" ∷ codes "metadata" ∷ codes "metadata.google.internal" ∷ []

unfoldable pub is_internal : Address → Bool
is_internal a =
    a.is_private
    || (a.is_loopback
        || (a.is_link_local || (a.is_reserved || (a.is_multicast || a.is_unspecified))))

abbrev pub check_address : Option Address → Outcome ValueError (Unit {0})
check_address none = ok tt
check_address (some a) = if is_internal a then raise blocked_host else ok tt

abbrev pub is_blocked_name : Text → Bool
is_blocked_name h = contains blocked_hostnames h || ends_with (codes ".localhost") h

abbrev pub check_host : Parsers → Option Text → Outcome ValueError (Unit {0})
check_host p none = raise no_host
check_host p (some host) =
    if not (is_truthy host)
    then raise no_host
    else if is_blocked_name (p.lower host)
    then raise blocked_host
    else check_address (p.ip_address host)

abbrev pub check_url : Parsers → Option Url → Outcome ValueError (Unit {0})
check_url p none = raise bad_url
check_url p (some u) =
    if not (contains allowed_schemes (p.lower u.scheme))
    then raise bad_scheme
    else check_host p u.hostname

-- _assert_url_is_public
unfoldable pub assert_url_is_public : Parsers → Text → Outcome ValueError (Unit {0})
unfolding allowed_schemes blocked_hostnames is_internal contains ends_with is_truthy
assert_url_is_public p url = check_url p (p.urlsplit url)

unfoldable pub query_allowed_tables : List Text
query_allowed_tables = codes "customers" ∷ codes "invoices" ∷ []

abbrev pub query_max_rows : ℕ
query_max_rows = 100

-- _SCOPED_TABLE_NAME.get(name)
unfoldable pub scoped_table_name : Text → Option Text
unfolding text_eq
scoped_table_name name =
    if text_eq name (codes "customers")
    then some (codes "__tenant_customers")
    else if text_eq name (codes "invoices")
    then some (codes "__tenant_invoices")
    else none

abbrev pub renamed : TableRef → Option Text → Outcome ValueError TableRef
renamed r none = raise unknown_table
renamed r (some name) = ok (record r { name = name })

-- The loop that rewrites the table references.
unfoldable pub scope_tables : Parsers → List TableRef → Outcome ValueError (List TableRef)
unfolding scoped_table_name
scope_tables p [] = ok []
scope_tables p (r ∷ rs) =
    let rest = scope_tables p rs in
    renamed r (scoped_table_name (p.lower r.name)) >>= (λ r'. rest >>= (λ rs'. ok (r' ∷ rs')))

abbrev pub is_no_table : List TableRef → Bool
is_no_table [] = true
is_no_table (r ∷ rs) = false

abbrev pub names_allowed : Parsers → List TableRef → Bool
names_allowed p rs = all (λ r. contains query_allowed_tables (p.lower r.name)) rs

abbrev pub check_statement : Parsers → Statement → Outcome ValueError Statement
check_statement p s =
    if not s.is_select
    then raise not_select
    else if s.has_with
    then raise own_with
    else if any (λ r. is_truthy r.db) s.tables
    then raise qualified_table
    else if is_no_table s.tables || not (names_allowed p s.tables)
    then raise other_table
    else scope_tables p s.tables >>= (λ tables. ok (record s { tables = tables }))

abbrev pub check_statements : Parsers → Option (List Statement) → Outcome ValueError Statement
check_statements p none = raise bad_sql
check_statements p (some (s ∷ [])) = check_statement p s
check_statements p (some _) = raise many_statements

-- _validate_query_database_sql
unfoldable pub validate_query_database_sql : Parsers → Text → Outcome ValueError Statement
unfolding any all is_truthy contains query_allowed_tables scope_tables
validate_query_database_sql p query = check_statements p (p.sql_parse query)

-- The reply of `query_database`: the error of the query, or the rows, their count and whether more
-- were there.
pub data QueryReply (Row : Type 0) : Type 0 where
  query_error : QueryReply Row
  query_rows : List Row → ℕ → Bool → QueryReply Row

abbrev pub capped : {Row : Type 0} → Option (List Row) → QueryReply Row
capped none = query_error
capped (some rows) =
    let kept = take query_max_rows rows in
    query_rows kept (length kept) (ltb query_max_rows (length rows))

abbrev pub fetched : {Row : Type 0} → Option (List Row) → Option (List Row)
fetched none = none
fetched (some rows) = some (take (query_max_rows + 1) rows)

abbrev pub run_checked :
    {Row : Type 0}
    → (Statement → Option (List Row))
    → Outcome ValueError Statement
    → Outcome ValueError (QueryReply Row)
run_checked execute (raise unknown_table) = raise unknown_table
run_checked execute (raise e) = ok query_error
run_checked execute (ok s) = ok (capped (fetched (execute s)))

-- _TENANT_SCOPE_CTE: each name that it binds, and the table of which it selects the tenant's rows.
unfoldable pub tenant_scope_cte : List (Text × Text)
tenant_scope_cte =
    (codes "__tenant_customers", codes "customers")
    ∷ (codes "__tenant_invoices", codes "invoices")
    ∷ []

-- A statement on the SQL server, where `db` has the rows of each table of each schema.
module _ {Row Result : Type 0} (tenant_of : Row → Text)
    (evaluate : Statement → List (List Row) → Option (List Result)) (tenant : Text)
    (db : Text → Text → List Row) where
  -- SELECT * FROM table WHERE tenant_id = :tenant_id
  abbrev pub tenant_rows : Text → List Row
  tenant_rows table = filter (λ row. text_eq (tenant_of row) tenant) (db [] table)

  -- The rows that a name without a schema stands for beneath the CTEs: those of the CTE of the name,
  -- else those of the table.
  unfoldable pub bound_rows : List (Text × Text) → Text → List Row
  unfolding text_eq filter
  bound_rows [] name = db [] name
  bound_rows ((scoped, table) ∷ ctes) name =
      let rest = bound_rows ctes name in if text_eq scoped name then tenant_rows table else rest

  unfoldable pub rows_read : TableRef → List Row
  unfolding bound_rows tenant_scope_cte is_truthy
  rows_read r = if is_truthy r.db then db r.db r.name else bound_rows tenant_scope_cte r.name

  -- session.execute(text(_TENANT_SCOPE_CTE + statement)). The server's evaluation of a SELECT is a
  -- parameter: it is given the rows of the statement's table references, so a function of the server
  -- that reads tables on its own is left out.
  unfoldable pub execute_scoped : Statement → Option (List Result)
  unfolding rows_read
  execute_scoped s = evaluate s (map rows_read s.tables)

-- _run_query_database, on the `query` argument. `execute` runs a statement beneath the tenant's CTE,
-- as `execute_scoped` does; it gives all the rows, of which `fetchmany` takes the first ones, or none for an SQL error.
unfoldable pub run_query_database :
    {Row : Type 0}
    → Parsers
    → (Statement → Option (List Row))
    → Text
    → Outcome ValueError (QueryReply Row)
unfolding validate_query_database_sql strip take
run_query_database p execute query =
    if not (is_truthy (strip query))
    then raise missing_argument
    else run_checked execute (validate_query_database_sql p (strip query))

-- _run_http_request up to the request, which `send` makes: it gets the method and the URL.
unfoldable pub run_http_request :
    {Reply : Type 0}
    → (upper : Text → Text) → Parsers
    → (Text → Text → Reply)
    → Text
    → Text
    → Outcome ValueError Reply
unfolding assert_url_is_public is_truthy
run_http_request upper p send method url =
    if not (is_truthy (upper method)) || not (is_truthy url)
    then raise missing_argument
    else elim (assert_url_is_public p url) [
      | raise e ↦ raise e
      | ok u ↦ ok (send (upper method) url)
    ]
