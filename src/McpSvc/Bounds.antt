-- ===== src/McpSvc/Bounds.antt =====
-- services/mcp_svc/src/mcp_svc/handlers.py and server.py: what a tool call can reach.
use Prim.Native.Nat.{zero, suc}
use mathlib.Core.Option.{some-injective}
use mathlib.Core.Path.{subst}
use agent_exec_platform.Common.{
  suc, ℕ, ◌+◌, ◌<◌, min, Bool, true, false, ◌&&◌, Option, none, some, List, [], ◌∷◌, Text, codes,
  text_eq, contains, is_truthy, length, take, ltb, All, ◌≡◌, refl, sym, ap, ◌↔◌, ◌⊎◌, arith, strip,
  ◌≢◌, ends_with, text_eq_iff,
}
use agent_exec_platform.Common.Outcome.{ok}
use agent_exec_platform.McpSvc.Handlers.{
  check_address, check_url, check_host, Url, blocked_hostnames, Parsers, Address, Statement,
  assert_url_is_public, allowed_schemes, is_blocked_name, is_internal, validate_query_database_sql,
  query_rows, query_max_rows, run_query_database,
}
use agent_exec_platform.McpSvc.Server.{
  ToolRow, Handler, error_result, get_tool_by_name, tools_of_tenant, on_call_tool, dispatch,
}

-- An address that is reachable from the outside: it is none of the six special kinds.
abbrev pub IsPublicAddress : Address → Type 0
IsPublicAddress a =
    (a.is_private ≡ false)
    × (a.is_loopback ≡ false)
    × (a.is_link_local ≡ false)
    × (a.is_reserved ≡ false)
    × (a.is_multicast ≡ false)
    × (a.is_unspecified ≡ false)

-- A lowered name that is not one of the machine itself or of a cloud's metadata service.
abbrev pub IsPublicName : Text → Type 0
IsPublicName name =
    (name ≢ codes "localhost")
    × (name ≢ codes "metadata")
    × (name ≢ codes "metadata.google.internal")
    × (ends_with (codes ".localhost") name ≡ false)

-- A host that a request may go to.
abbrev pub IsPublicHost : Parsers → Text → Type 0
IsPublicHost p host =
    (host ≢ [])
    × IsPublicName (p.lower host)
    × ((a : Address) → p.ip_address host ≡ some a → IsPublicAddress a)

is_internal_iff : (a : Address) → (is_internal a ≡ false) ↔ IsPublicAddress a
unfolding is_internal
is_internal_iff a = ground arith

is_blocked_name_iff : (name : Text) → (is_blocked_name name ≡ false) ↔ IsPublicName name
unfolding blocked_hostnames contains
is_blocked_name_iff name = ground (
  arith,
  text_eq_iff (codes "localhost") name,
  text_eq_iff (codes "metadata") name,
  text_eq_iff (codes "metadata.google.internal") name,
)

allowed_schemes_iff :
    (scheme : Text)
    → (contains allowed_schemes scheme ≡ true)
      ↔ ((scheme ≡ codes "http") ⊎ (scheme ≡ codes "https"))
unfolding allowed_schemes contains
allowed_schemes_iff scheme =
    ground (arith, text_eq_iff (codes "http") scheme, text_eq_iff (codes "https") scheme)

check_address-IsPublicAddress :
    (o : Option Address)
    → (check_address o ≡ ok tt) ↔ ((a : Address) → o ≡ some a → IsPublicAddress a)
check_address-IsPublicAddress none = ground arith
check_address-IsPublicAddress (some b) = (
  λ h a e. subst IsPublicAddress (some-injective b a e) ((is_internal_iff b).0 (ground arith)),
  λ h. ground (arith, (is_internal_iff b).1 (h b refl)),
)

check_host-IsPublicHost :
    (p : Parsers) (h : Option Text)
    → (check_host p h ≡ ok tt) ↔ ((host : Text) × (h ≡ some host) × IsPublicHost p host)
unfolding is_truthy
check_host-IsPublicHost p none = (λ h. ground arith, λ (host, e, rest). ground arith)
check_host-IsPublicHost p (some []) =
    (λ h. ground arith, λ (host, e, given). absurd (given.0 (sym (some-injective [] host e))))
check_host-IsPublicHost p (some (c ∷ s)) =
    let name = is_blocked_name_iff (p.lower (c ∷ s)) in
    let literal = check_address-IsPublicAddress (p.ip_address (c ∷ s)) in
    (
      λ h. (c ∷ s, refl, ((λ e. cc), name.0 (ground arith), literal.0 (ground arith))),
      λ (host, e, at). back host (some-injective (c ∷ s) host e) at,
    )
  where
    back : (host : Text) → c ∷ s ≡ host → IsPublicHost p host → check_host p (some (c ∷ s)) ≡ ok tt
    back host e at =
        let (_, public, outside) = subst (IsPublicHost p) (sym e) at in
        ground (
          arith,
          (is_blocked_name_iff (p.lower (c ∷ s))).1 public,
          (check_address-IsPublicAddress (p.ip_address (c ∷ s))).1 outside,
        )

-- The request handler lets a URL pass exactly if it can be split, its scheme is http or https, and its
-- host is given, is neither localhost, a name beneath it nor a metadata service, and is no literal of a
-- private, loopback, link-local, reserved, multicast or unspecified address.
pub assert_url_is_public-IsPublicHost :
    (p : Parsers) (url : Text)
    → (assert_url_is_public p url ≡ ok tt) ↔ (
        (u : Url) × (host : Text) × (p.urlsplit url ≡ some u)
        × ((p.lower u.scheme ≡ codes "http") ⊎ (p.lower u.scheme ≡ codes "https"))
        × (u.hostname ≡ some host)
        × IsPublicHost p host)
unfolding assert_url_is_public
assert_url_is_public-IsPublicHost p url = go (p.urlsplit url)
  where
    go :
        (o : Option Url)
        → (check_url p o ≡ ok tt) ↔ (
            (u : Url) × (host : Text) × (o ≡ some u)
            × ((p.lower u.scheme ≡ codes "http") ⊎ (p.lower u.scheme ≡ codes "https"))
            × (u.hostname ≡ some host)
            × IsPublicHost p host)
    go none = (λ h. ground arith, λ (u, host, e, scheme, at, public). ground arith)
    go (some v) =
        let schemes = allowed_schemes_iff (p.lower v.scheme) in
        (
          λ h.
              let (host, at, public) = (check_host-IsPublicHost p v.hostname).0 (ground arith) in
              (v, host, refl, schemes.0 (ground arith), at, public),
          λ (u, host, e, scheme, at, rest). back u host (some-injective v u e) scheme at rest,
        )
      where
        back :
            (u : Url) (host : Text)
            → v ≡ u
            → ((p.lower u.scheme ≡ codes "http") ⊎ (p.lower u.scheme ≡ codes "https"))
            → u.hostname ≡ some host
            → IsPublicHost p host
            → check_url p (some v) ≡ ok tt
        back u host e scheme at public =
            let passes = (check_host-IsPublicHost p u.hostname).1 (host, at, public) in
            let allowed = (allowed_schemes_iff (p.lower u.scheme)).1 scheme in
            subst (λ x. check_url p (some x) ≡ ok tt) (sym e) (ground (arith, passes, allowed))

module _ {World Json : Type 0} (get_handler : Text → Option (Handler World Json))
    (no_schema : Json) where
  get_tool_by_name-own :
      (tenant name : Text) (rows : List ToolRow)
      → get_tool_by_name tenant name (tools_of_tenant tenant rows)
        ≡ get_tool_by_name tenant name rows
  unfolding get_tool_by_name tools_of_tenant
  get_tool_by_name-own tenant name [] = refl
  get_tool_by_name-own tenant name (r ∷ rows) =
      ground (arith, get_tool_by_name-own tenant name rows)

  get_tool_by_name-none :
      (tenant name : Text) (rows : List ToolRow)
      → All (λ r. (text_eq r.tenant_id tenant && text_eq r.name name) ≡ false) rows
      → get_tool_by_name tenant name rows ≡ none
  unfolding get_tool_by_name
  get_tool_by_name-none tenant name [] a = refl
  get_tool_by_name-none tenant name (r ∷ rows) a =
      ground (arith, get_tool_by_name-none tenant name rows)

  -- What a call does depends on the rows of the caller's tenant alone, and a tool that the tenant
  -- does not have in its catalog is not run: the world stays as it is.
  pub on_call_tool-own :
      (rows : List ToolRow) (tenant name : Text) (arguments : Json) (w : World)
      → (on_call_tool get_handler no_schema rows tenant name arguments w
          ≡ on_call_tool get_handler no_schema
              (tools_of_tenant tenant rows)
              tenant
              name
              arguments
              w)
        × (All (λ r. (text_eq r.tenant_id tenant && text_eq r.name name) ≡ false) rows
            → (on_call_tool get_handler no_schema rows tenant name arguments w).1 ≡ w)
  unfolding on_call_tool
  on_call_tool-own rows tenant name arguments w = (
    ap
        (λ (o : Option ToolRow). elim o [
          | none ↦ (error_result (codes "not found in the catalog"), w)
          | some tool ↦ dispatch get_handler no_schema (get_handler name) arguments tenant w
        ])
        (sym (get_tool_by_name-own tenant name rows)),
    λ a. rw (get_tool_by_name-none tenant name rows a, on_call_tool) refl,
  )

take-take : {A : Type 0} (n : ℕ) (xs : List A) → take n (take (suc n) xs) ≡ take n xs
unfolding take
take-take zero xs = refl
take-take (suc n) [] = refl
take-take (suc n) (x ∷ xs) = ap (λ l. x ∷ l) (take-take n xs)

length-take : {A : Type 0} (n : ℕ) (xs : List A) → length (take n xs) ≡ min n (length xs)
unfolding take
length-take zero xs = ground arith
length-take (suc n) [] = ground arith
length-take (suc n) (x ∷ xs) = ground (arith, length-take n xs)

-- A query that is accepted and runs answers with the first hundred rows at most and says truthfully
-- whether the statement has more.
pub run_query_database-capped :
    {Row : Type 0} (p : Parsers) (execute : Statement → Option (List Row)) (query : Text)
    (s : Statement) (rows : List Row)
    → is_truthy (strip query) ≡ true
    → validate_query_database_sql p (strip query) ≡ ok s
    → execute s ≡ some rows
    → (truncated : Bool) × (kept : List Row) × (run_query_database p execute query
        ≡ ok (query_rows kept (length kept) truncated))
      × (kept ≡ take query_max_rows rows)
      × ((truncated ≡ true) ↔ (query_max_rows < length rows))
unfolding run_query_database
run_query_database-capped p execute query s rows given valid runs = (
  ltb query_max_rows (length (take (query_max_rows + 1) rows)),
  take query_max_rows (take (query_max_rows + 1) rows),
  rw (given, valid, runs) refl,
  take-take query_max_rows rows,
  ground (arith, length-take (query_max_rows + 1) rows),
)
