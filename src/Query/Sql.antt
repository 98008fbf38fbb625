-- ===== src/Query/Sql.antt =====
-- backend/handler/querybuilder.go: the slices `clauses` and `args` with the counter `idx`, and the
-- two ways in which a statement appends to them.
use logmara.Prelude.{ℕ, suc, ◌+◌, String, List, [], ◌∷◌, ◌++◌, length, map, Text}

-- A part of a clause as `fmt.Sprintf` writes it: `arg n` is the text `$n`, and `key t` is
-- `parsed_fields->>'` followed by `t` and a quote.
pub data Piece : Type 0 where
  sql : String → Piece
  key : Text → Piece
  arg : ℕ → Piece

abbrev pub Clause : Type 0
Clause = List Piece

-- A value bound to a placeholder: a string with the text that the code puts round it (the `%` of
-- an ILIKE pattern), or an array.
pub data Arg : Type 0 where
  str : String → String → String → Arg
  array : List String → Arg

pub record Builder : Type 0 where
  pub clauses : List Clause
  pub args : List Arg
  pub idx : ℕ

abbrev pub start : Builder
start = record { clauses = []; args = []; idx = 1 }

abbrev pub plain : String → Arg
plain v = str "" v ""

-- A clause with one placeholder: append the clause, append the value, `idx++`.
unfoldable pub bind_one : (ℕ → Clause) → Arg → Builder → Builder
bind_one clause a b = record {
  clauses = b.clauses ++ clause b.idx ∷ [];
  args = b.args ++ a ∷ [];
  idx = b.idx + 1;
}

-- A clause with no placeholder.
unfoldable pub fixed : Clause → Builder → Builder
fixed clause b = record b { clauses = b.clauses ++ clause ∷ [] }

-- The pieces of `$idx, $idx+1, …`, one for each value, with a separator between.
unfoldable pub placeholders : String → ℕ → List String → Clause
placeholders sep n [] = []
placeholders sep n (v ∷ []) = arg n ∷ []
placeholders sep n (v ∷ w ∷ vs) = arg n ∷ sql sep ∷ placeholders sep (suc n) (w ∷ vs)

-- The loop that makes the placeholders of an IN list, followed by the append of the clause.
unfoldable pub bind_list : Clause → String → String → List String → Builder → Builder
unfolding placeholders
bind_list before sep after vs b = record {
  clauses = b.clauses ++ (before ++ placeholders sep b.idx vs ++ sql after ∷ []) ∷ [];
  args = b.args ++ map plain vs;
  idx = b.idx + length vs;
}

-- `strings.Join(clauses, sep)`.
unfoldable pub join : String → List Clause → Clause
join sep [] = []
join sep (c ∷ []) = c
join sep (c ∷ d ∷ cs) = c ++ sql sep ∷ join sep (d ∷ cs)

unfoldable pub build_where_sql : List Clause → Clause
unfolding join
build_where_sql [] = []
build_where_sql (c ∷ cs) = sql "WHERE " ∷ join " AND " (c ∷ cs)
