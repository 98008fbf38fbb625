-- ===== src/Store/Stored.antt =====
-- backend/tailer/tailer.go: what `flushBatch` stores of a batch, against its abstract specification.
use logmara.Prelude.{
  true-false, ℕ, zero, suc, ◌≤◌, ◌≡◌, ◌≢◌, refl, sym, ◌∙◌, ap, ◌⊎◌, inl, inr, Bool, true, false,
  Option, some, List, [], ◌∷◌, ◌++◌, append_assoc, append-nil, length, length-append, length-map,
  length-take, length-drop, take-append-drop, take, drop, map, Text, Reply, answered, failed_before,
  failed_after, arith, subst,
}
use logmara.Worker.Row.{LogRow}
use logmara.Store.Insert.{
  Value, row_args, max_insert_rows, Db, add_rows, exec, insert_chunk, counted, insert_each,
  insert_rows_individually, ChunkAnswers, or_each, store_chunk, store_chunks,
}
use logmara.Store.Chunks.{statement_rows-row_args}

-- The abstract view of storing a batch: every row is kept or skipped, in order.
pub data Kept (row : LogRow → List Value) : List LogRow → List (List Value) → Type 0 where
  no_rows : Kept row [] []
  keep :
      {r : LogRow} {rs : List LogRow} {new : List (List Value)}
      → Kept row rs new
      → Kept row (r ∷ rs) (row r ∷ new)
  skip :
      {r : LogRow} {rs : List LogRow} {new : List (List Value)}
      → Kept row rs new
      → Kept row (r ∷ rs) new

module _ {row : LogRow → List Value} where
  Kept-append :
      {rs ss : List LogRow} {new more : List (List Value)}
      → Kept row rs new
      → Kept row ss more
      → Kept row (rs ++ ss) (new ++ more)
  Kept-append no_rows h = h
  Kept-append (keep k) h = keep (Kept-append k h)
  Kept-append (skip k) h = skip (Kept-append k h)

  Kept-all : (rs : List LogRow) → Kept row rs (map row rs)
  Kept-all [] = no_rows
  Kept-all (r ∷ rs) = keep (Kept-all rs)

  Kept-none : (rs : List LogRow) → Kept row rs []
  Kept-none [] = no_rows
  Kept-none (r ∷ rs) = skip (Kept-none rs)

  pub Kept-short :
      {rs : List LogRow} {new : List (List Value)} → Kept row rs new → length new ≤ length rs
  Kept-short no_rows = omega arith
  Kept-short (keep k) = omega (arith, Kept-short k)
  Kept-short (skip k) = omega (arith, Kept-short k)

  pub Kept-full :
      {rs : List LogRow} {new : List (List Value)}
      → Kept row rs new
      → length new ≡ length rs
      → new ≡ map row rs
  Kept-full no_rows h = refl
  Kept-full (keep {r = r} k) h = ap (λ x. row r ∷ x) (Kept-full k (omega arith))
  Kept-full (skip k) h = absurd (omega (arith, Kept-short k))

not_answered : failed_before ≡ answered → ⊥
not_answered h = absurd (cc)

-- Some of the rows are added to the table and counted; all, under the condition.
abbrev pub Stores : (LogRow → List Value) → Type 0 → List LogRow → Db → ℕ × Db → Type 0
Stores row Well rs db (n, after) =
    (new : List (List Value)) × (after.rows ≡ db.rows ++ new)
    × Kept row rs new
    × (n ≡ length new)
    × (after.rate ≡ db.rate)
    × (Well → length new ≡ length rs)

-- No call does its work and returns an error.
abbrev pub OnTime : ChunkAnswers → Type 0
OnTime a = (a.bulk ≢ failed_after) × ((i : ℕ) → a.each i ≢ failed_after)

-- The bulk insert is done, or every row by itself.
abbrev pub Well : ChunkAnswers → Type 0
Well a = (a.bulk ≡ answered) ⊎ ((a.prepared ≡ true) × ((i : ℕ) → a.each i ≡ answered))

abbrev after_exec : (Db → ℕ × Db) → Option ℕ × Db → ℕ × Db
after_exec rest (done, after) = let (n, end) = rest after in (counted done n, end)

each_next :
    (row : LogRow → List Value) (r : LogRow) (rs : List LogRow) (W : Type 0) (db : Db) (a : Reply)
    (rest : Db → ℕ × Db)
    → a ≢ failed_after
    → (W → a ≡ answered)
    → ((d : Db) → Stores row W rs d (rest d))
    → Stores row W (r ∷ rs) db (after_exec rest (exec a (some (row r ∷ [])) db))
each_next row r rs W db answered rest late well ih =
    let (new, same, kept, count, rate, all) = ih (add_rows (row r ∷ []) db) in
    (
      row r ∷ new,
      same ∙ append_assoc db.rows (row r ∷ []) new,
      keep kept,
      omega (arith, count),
      rate,
      λ w. ap suc (all w),
    )
each_next row r rs W db failed_before rest late well ih =
    let (new, same, kept, count, rate, all) = ih db in
    (new, same, skip kept, count, rate, λ w. absurd (not_answered (well w)))
each_next row r rs W db failed_after rest late well ih = absurd (late refl)

each_Stores :
    (reply : ℕ → Reply) (row : LogRow → List Value) (i : ℕ) (rs : List LogRow) (db : Db)
    → ((j : ℕ) → reply j ≢ failed_after)
    → Stores row ((j : ℕ) → reply j ≡ answered) rs db (insert_each reply row i rs db)
unfolding insert_each
each_Stores reply row i [] db late = ([], sym (append-nil db.rows), no_rows, refl, refl, λ w. refl)
each_Stores reply row i (r ∷ rs) db late =
    each_next row r rs ((j : ℕ) → reply j ≡ answered) db (reply i)
      (insert_each reply row (suc i) rs) (late i) (λ w. w i)
      (λ d. each_Stores reply row (suc i) rs d late)

each_prepared :
    (row : LogRow → List Value) (rs : List LogRow) (W : Type 0) (db : Db) (prepared : Bool)
    (each : ℕ → Reply)
    → ((j : ℕ) → each j ≢ failed_after)
    → (W → (prepared ≡ true) × ((j : ℕ) → each j ≡ answered))
    → Stores row W rs db (insert_rows_individually prepared each row rs db)
unfolding insert_rows_individually
each_prepared row rs W db false each late well = (
  [],
  sym (append-nil db.rows),
  Kept-none rs,
  refl,
  refl,
  λ w. absurd (true-false (sym (well w).0)),
)
each_prepared row rs W db true each late well =
    let (new, same, kept, count, rate, all) = each_Stores each row 0 rs db late in
    (new, same, kept, count, rate, λ w. all (well w).1)

bulk_done :
    (row : LogRow → List Value) (rs : List LogRow) (W : Type 0) (db : Db) (bulk : Reply)
    (each : Db → ℕ × Db)
    → bulk ≢ failed_after
    → ((bulk ≢ answered) → Stores row W rs db (each db))
    → Stores row W rs db (or_each each (exec bulk (some (map row rs)) db))
bulk_done row rs W db answered each late rest =
    (map row rs, refl, Kept-all rs, refl, refl, λ w. length-map row rs)
bulk_done row rs W db failed_before each late rest = rest not_answered
bulk_done row rs W db failed_after each late rest = absurd (late refl)

abbrev OneByOne : ChunkAnswers → Type 0
OneByOne a = (a.prepared ≡ true) × ((i : ℕ) → a.each i ≡ answered)

else_each : (a : ChunkAnswers) → a.bulk ≢ answered → Well a → OneByOne a
else_each a other (inl bulk) = absurd (other bulk)
else_each a other (inr each) = each

chunk_Stores :
    (stamp : Text → Option ℕ) (now : ℕ) (rs : List LogRow) (db : Db) (a : ChunkAnswers)
    → length rs ≤ max_insert_rows
    → OnTime a
    → Stores (row_args stamp now) (Well a) rs db (store_chunk a (row_args stamp now) rs db)
unfolding store_chunk insert_chunk
chunk_Stores stamp now rs db a small (late, late_each) =
    let row = row_args stamp now in
    rw (statement_rows-row_args stamp now rs small) (
      bulk_done row rs (Well a) db a.bulk (insert_rows_individually a.prepared a.each row rs) late
        (λ other. each_prepared row rs (Well a) db a.prepared a.each late_each (else_each a other)))

pub chunks_Stores :
    (stamp : Text → Option ℕ) (now fuel i : ℕ) (rs : List LogRow) (db : Db)
    (answers : ℕ → ChunkAnswers)
    → length rs ≤ fuel
    → ((j : ℕ) → OnTime (answers j))
    → Stores
        (row_args stamp now)
        ((j : ℕ) → Well (answers j))
        rs
        db
        (store_chunks answers (row_args stamp now) fuel i rs db)
unfolding store_chunks
chunks_Stores stamp now zero i [] db answers enough late =
    ([], sym (append-nil db.rows), no_rows, refl, refl, λ w. refl)
chunks_Stores stamp now zero i (r ∷ rs) db answers enough late = absurd (omega arith)
chunks_Stores stamp now (suc fuel) i [] db answers enough late =
    ([], sym (append-nil db.rows), no_rows, refl, refl, λ w. refl)
chunks_Stores stamp now (suc fuel) i (r ∷ rs) db answers enough late =
    let row = row_args stamp now in
    let first = take max_insert_rows (r ∷ rs) in
    let left = drop max_insert_rows (r ∷ rs) in
    let first_size = length-take max_insert_rows (r ∷ rs) in
    let left_size = length-drop max_insert_rows (r ∷ rs) in
    let after = (store_chunk (answers i) row first db).1 in
    let (new, same, kept, count, rate, all) =
      chunk_Stores stamp now first db (answers i) (omega arith) (late i) in
    let (more, same_more, kept_more, count_more, rate_more, all_more) =
      chunks_Stores stamp now fuel (suc i) left after answers (omega arith) late in
    (
      new ++ more,
      same_more ∙ ap (λ x. x ++ more) same ∙ append_assoc db.rows new more,
      subst (λ x. Kept row x (new ++ more)) (take-append-drop max_insert_rows (r ∷ rs))
          (Kept-append kept kept_more),
      omega (arith, length-append new more),
      rate_more ∙ rate,
      λ w. omega (arith, length-append new more, all (w i), all_more w),
    )
