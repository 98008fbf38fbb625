-- ===== src/ApiKey/Numbered.antt =====
-- backend/middleware/apikey.go: the placeholders that `ApplyScopeFilters` adds to a query.
use logmara.Prelude.{
  ◌+◌, ◌≡◌, refl, sym, ap, ap₂, ◌∙◌, String, List, [], ◌∷◌, ◌++◌, length, length-append, length-map,
  map, some, append-nil, arith,
}
use logmara.Query.Sql.{sql, Clause, Arg, plain, placeholders, join}
use logmara.Query.Numbering.{
  numbers, all_numbers, count_from, numbers-append, count_from-append, numbers-placeholders,
  join-numbers, all_numbers-append,
}
use logmara.ApiKey.Scope.{
  ScopeFilters, Scope, scope_in, scope_of, joiner, narrow, apply_scope_filters,
}

-- What a step adds: the numbers behind those of the arguments, and the values.
abbrev pub Adds : List String → Scope → Scope → Type 0
Adds vs s s' =
    (all_numbers s'.conds ≡ all_numbers s.conds ++ count_from (length s.args + 1) (length vs))
    × (s'.args ≡ s.args ++ map plain vs)

scope_in-Adds : (column : String) (vs : List String) (s : Scope) → Adds vs s (scope_in column vs s)
unfolding scope_in
scope_in-Adds column [] s = (sym (append-nil _), sym (append-nil _))
scope_in-Adds column (v ∷ vs) s = (
  all_numbers-append s.conds _
      ∙ ap (λ r. all_numbers s.conds ++ r)
          (numbers-append (placeholders "," (length s.args + 1) (v ∷ vs)) (sql ")" ∷ [])
            ∙ append-nil _
            ∙ numbers-placeholders "," (length s.args + 1) (v ∷ vs)),
  refl,
)

next_number :
    (args : List Arg) (vs : List String) (args' : List Arg)
    → args' ≡ args ++ map plain vs
    → length args' + 1 ≡ length args + 1 + length vs
next_number args vs args' e =
    let same = ap length e ∙ length-append args (map plain vs) in
    let mapped = length-map plain vs in omega arith

scope_of-numbers :
    (f : ScopeFilters) (args : List Arg)
    → (all_numbers (scope_of f args).conds
        ≡ count_from (length args + 1) (length f.hostnames + length f.severities))
      × ((scope_of f args).args ≡ args ++ map plain f.hostnames ++ map plain f.severities)
unfolding scope_of
scope_of-numbers f args =
    let s0 : Scope = record { conds = []; args = args } in
    let s1 = scope_in "host_address" f.hostnames s0 in
    let (n1, a1) = scope_in-Adds "host_address" f.hostnames s0 in
    let (n2, a2) = scope_in-Adds "severity" f.severities s1 in
    (
      n2
          ∙ ap₂ (λ r n. r ++ count_from n (length f.severities)) n1
              (next_number args f.hostnames s1.args a1)
          ∙ sym (count_from-append (length args + 1) (length f.hostnames) (length f.severities)),
      a2 ∙ ap (λ r. r ++ map plain f.severities) a1,
    )

plain-numbers : (c : Clause) (t : String) → numbers (c ++ sql t ∷ []) ≡ numbers c
plain-numbers c t = numbers-append c (sql t ∷ []) ∙ append-nil (numbers c)

wrapped-numbers :
    (query j : Clause)
    → numbers (query ++ sql " AND " ∷ [] ++ sql "(" ∷ [] ++ j ++ sql ")" ∷ [])
      ≡ numbers query ++ numbers j
wrapped-numbers query j =
    plain-numbers (query ++ sql " AND " ∷ [] ++ sql "(" ∷ [] ++ j) ")"
    ∙ numbers-append (query ++ sql " AND " ∷ [] ++ sql "(" ∷ []) j
    ∙ ap (λ r. r ++ numbers j)
        (plain-numbers (query ++ sql " AND " ∷ []) "(" ∙ plain-numbers query " AND ")

narrow-numbers :
    (sep : String) (query : Clause) (cs : List Clause)
    → numbers (narrow sep query cs) ≡ numbers query ++ all_numbers cs
unfolding narrow
narrow-numbers sep query [] = sym (append-nil _)
narrow-numbers sep [] (c ∷ cs) =
    numbers-append (join sep (c ∷ cs)) (sql ")" ∷ []) ∙ append-nil _ ∙ join-numbers sep (c ∷ cs)
narrow-numbers sep (p ∷ query) (c ∷ cs) =
    wrapped-numbers (p ∷ query) (join sep (c ∷ cs))
    ∙ ap (λ r. numbers (p ∷ query) ++ r) (join-numbers sep (c ∷ cs))

-- The query gets the numbers that follow those of the arguments it had, one for each host name and
-- then for each severity of the scope, and the arguments get these values in the same order.
pub apply_scope_filters-numbers :
    (f : ScopeFilters) (query : Clause) (args : List Arg)
    → let r = apply_scope_filters (some f) query args in
      (numbers r.0
        ≡ numbers query ++ count_from (length args + 1) (length f.hostnames + length f.severities))
      × (r.1 ≡ args ++ map plain f.hostnames ++ map plain f.severities)
unfolding apply_scope_filters
apply_scope_filters-numbers f query args =
    let (n, a) = scope_of-numbers f args in
    (narrow-numbers (joiner f) query (scope_of f args).conds ∙ ap (λ r. numbers query ++ r) n, a)
