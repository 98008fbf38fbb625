-- ===== src/ApiKey/Scope.antt =====
-- backend/middleware/apikey.go: `ApplyScopeFilters`, which narrows a query to what a key may see.
use logmara.Prelude.{
  ◌+◌, String, str_eq, List, [], ◌∷◌, ◌++◌, length, map, Option, none, some, if◌then◌else◌, is_nil,
}
use logmara.Query.Sql.{sql, Clause, Arg, plain, placeholders, join}

pub record ScopeFilters : Type 0 where
  pub hostnames : List String
  pub severities : List String
  pub match_mode : String

-- The conditions and the arguments as they are collected.
pub record Scope : Type 0 where
  pub conds : List Clause
  pub args : List Arg

-- `<column> IN ($n, …)` for the values, if there are any; the numbers go on behind the arguments.
unfoldable pub scope_in : String → List String → Scope → Scope
scope_in column [] s = s
scope_in column (v ∷ vs) s = record {
  conds =
      s.conds
      ++ (sql column ∷ sql " IN (" ∷ []
          ++ placeholders "," (length s.args + 1) (v ∷ vs)
          ++ sql ")" ∷ [])
        ∷ [];
  args = s.args ++ map plain (v ∷ vs);
}

unfoldable pub scope_of : ScopeFilters → List Arg → Scope
scope_of f args =
    scope_in "severity" f.severities
      (scope_in "host_address" f.hostnames (record { conds = []; args = args }))

abbrev pub joiner : ScopeFilters → String
joiner f = if str_eq f.match_mode "or" then " OR " else " AND "

-- The query with the joined conditions.
unfoldable pub narrow : String → Clause → List Clause → Clause
narrow sep query [] = query
narrow sep query (c ∷ cs) =
    (if is_nil query then [] else query ++ sql " AND " ∷ [])
    ++ sql "(" ∷ []
    ++ join sep (c ∷ cs)
    ++ sql ")" ∷ []

unfoldable pub apply_scope_filters : Option ScopeFilters → Clause → List Arg → Clause × List Arg
apply_scope_filters none query args = (query, args)
apply_scope_filters (some f) query args =
    let s = scope_of f args in (narrow (joiner f) query s.conds, s.args)
