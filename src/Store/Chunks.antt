-- ===== src/Store/Chunks.antt =====
-- backend/tailer/tailer.go: what the statement of `insertChunk` inserts.
use logmara.Prelude.{
  get_elem?-append, ℕ, suc, ◌+◌, ◌-◌, ◌*◌, ◌≤◌, ◌≡◌, refl, sym, ◌∙◌, ap, false, Option, some, List,
  [], ◌∷◌, ◌++◌, append_assoc, length, length-append, map, ltb, Text, arith,
}
use logmara.Worker.Row.{LogRow}
use logmara.Store.Insert.{
  Value, row_args, insert_columns, max_insert_rows, columns, row_placeholders, chunk_args,
  bound_row, bound_rows, statement_rows,
}

-- The placeholders behind the first `base + c` arguments stand for the next ones.
bound_columns :
    (pre xs rest : List Value) (base c : ℕ)
    → length pre ≡ base + c
    → bound_row (pre ++ (xs ++ rest)) (columns base (suc c) (length xs)) ≡ some xs
bound_columns pre [] rest base c h = refl
bound_columns pre (x ∷ xs) rest base c h =
    let here : base + suc c - 1 ≡ length pre = omega arith in
    let first = get_elem?-append pre (xs ++ rest) x in
    let moved = append_assoc pre (x ∷ []) (xs ++ rest) in
    let more =
      bound_columns (pre ++ (x ∷ [])) xs rest base (suc c)
        (length-append pre (x ∷ []) ∙ omega arith) in
    rw
      (
        here,
        first,
        ap (λ args. bound_row args (columns base (suc (suc c)) (length xs))) (sym moved) ∙ more,
      )
      refl

rows_bound :
    (row : LogRow → List Value) (pre : List Value) (i : ℕ) (rs : List LogRow)
    → ((r : LogRow) → length (row r) ≡ insert_columns)
    → length pre ≡ i * insert_columns
    → bound_rows (pre ++ chunk_args row rs) (row_placeholders i rs) ≡ some (map row rs)
unfolding chunk_args row_placeholders
rows_bound row pre i [] wide h = refl
rows_bound row pre i (r ∷ rs) wide h =
    let rest = chunk_args row rs in
    let first = bound_columns pre (row r) rest (i * insert_columns) 0 (h ∙ omega arith) in
    let size : length (pre ++ row r) ≡ suc i * insert_columns =
      omega (arith, length-append pre (row r), wide r, h) in
    let more = rows_bound row (pre ++ row r) (suc i) rs wide size in
    let moved = append_assoc pre (row r) rest in
    let first_row : bound_row (pre ++ (row r ++ rest))
          (columns (i * insert_columns) 1 insert_columns)
        ≡ some (row r) =
      ap (λ k. bound_row (pre ++ (row r ++ rest)) (columns (i * insert_columns) 1 k)) (sym (wide r))
      ∙ first in
    let more_rows : bound_rows (pre ++ (row r ++ rest)) (row_placeholders (suc i) rs)
        ≡ some (map row rs) =
      ap (λ args. bound_rows args (row_placeholders (suc i) rs)) (sym moved) ∙ more in
    rw (first_row, more_rows) refl

args-length :
    (row : LogRow → List Value) (rs : List LogRow)
    → ((r : LogRow) → length (row r) ≡ insert_columns)
    → length (chunk_args row rs) ≡ length rs * insert_columns
unfolding chunk_args
args-length row [] wide = refl
args-length row (r ∷ rs) wide =
    omega (arith, length-append (row r) (chunk_args row rs), wide r, args-length row rs wide)

-- For a chunk of at most 5000 rows, the statement is within the number of placeholders that Postgres
-- allows, and it inserts the rows in order, each with its own values in the columns' order: the
-- placeholders of every row stand for the arguments of that row.
pub statement_rows-row_args :
    (stamp : Text → Option ℕ) (now : ℕ) (rs : List LogRow)
    → length rs ≤ max_insert_rows
    → statement_rows (row_placeholders 0 rs) (chunk_args (row_args stamp now) rs)
      ≡ some (map (row_args stamp now) rs)
unfolding statement_rows
statement_rows-row_args stamp now rs small =
    let row = row_args stamp now in
    let size = args-length row rs (λ r. refl) in
    let allowed : ltb 65535 (length (chunk_args row rs)) ≡ false = ground (arith, size) in
    rw allowed (rows_bound row [] 0 rs (λ r. refl) refl)
