-- ===== src/Store/Batch.antt =====
-- backend/tailer/tailer.go: `flushBatch` as a whole, and as the worker of worker.go uses it.
use logmara.Prelude.{
  ℕ, zero, suc, ◌+◌, ◌≡◌, refl, ◌∙◌, false, Option, List, [], ◌∷◌, ◌++◌, length, map, drop, ltb,
  if_splits, Text, failed_before, arith,
}
use logmara.Parser.Cache.{RegexpLib}
use logmara.Parser.Engine.{Parser}
use logmara.Worker.Row.{LogRow, JsonLib}
use logmara.Worker.Loop.{Answers, ack, inserted, evaluated, reported, Worker, flush}
use logmara.Store.Insert.{
  Value, row_args, max_insert_rows, Db, insert_chunk, insert_rows_individually, ChunkAnswers,
  store_chunk, store_chunks, incr_rate, flush_batch,
}
use logmara.Store.Stored.{Kept, Kept-full, OnTime, Well, chunks_Stores}

incr_rate-rate : (n : ℕ) (db : Db) → (incr_rate (n, db)).rate ≡ db.rate + n
incr_rate-rate n db =
    if_splits (λ (r : Db). r.rate ≡ db.rate + n) (ltb 0 n) (λ e. refl) (λ e. ground arith)

incr_rate-rows : (n : ℕ) (db : Db) → (incr_rate (n, db)).rows ≡ db.rows
incr_rate-rows n db = if_splits (λ (r : Db). r.rows ≡ db.rows) (ltb 0 n) (λ e. refl) (λ e. refl)

-- If no call does its work and then returns an error, a batch of any size is stored as its abstract
-- specification says: every row is kept or skipped, the kept ones are added to the table in order,
-- once each and with their own values, and the counter goes up by their number. If for every chunk of
-- the batch the bulk insert is answered, or every single insert of it, all rows are kept.
pub flush_batch-Kept :
    (stamp : Text → Option ℕ) (now : ℕ) (rs : List LogRow) (db : Db) (answers : ℕ → ChunkAnswers)
    → ((j : ℕ) → OnTime (answers j))
    → (let after = (flush_batch answers (row_args stamp now) rs db).1 in
        (new : List (List Value)) × Kept (row_args stamp now) rs new
        × (after.rows ≡ db.rows ++ new)
        × (after.rate ≡ db.rate + length new)
        × (((j : ℕ) → Well (answers j)) → new ≡ map (row_args stamp now) rs))
unfolding flush_batch
flush_batch-Kept stamp now rs db answers late =
    let row = row_args stamp now in
    let (n, end) = store_chunks answers row (length rs) 0 rs db in
    let (new, same, kept, count, rate, all) =
      chunks_Stores stamp now (length rs) 0 rs db answers (omega arith) late in
    (
      new,
      kept,
      incr_rate-rows n end ∙ same,
      omega (arith, incr_rate-rate n end, count, rate),
      λ w. Kept-full kept (all w),
    )

-- No statement gets to the database.
abbrev pub Unreachable : ChunkAnswers → Type 0
Unreachable a = (a.bulk ≡ failed_before) × (a.prepared ≡ false)

Unreachable-chunks :
    (row : LogRow → List Value) (fuel i : ℕ) (rs : List LogRow) (db : Db)
    (answers : ℕ → ChunkAnswers)
    → ((j : ℕ) → Unreachable (answers j))
    → store_chunks answers row fuel i rs db ≡ (0, db)
unfolding store_chunks store_chunk insert_chunk insert_rows_individually
Unreachable-chunks row zero i rs db answers h = refl
Unreachable-chunks row (suc fuel) i [] db answers h = refl
Unreachable-chunks row (suc fuel) i (r ∷ rs) db answers h =
    let (bulk, prepared) = h i in
    rw
      (
        bulk,
        prepared,
        Unreachable-chunks row fuel (suc i) (drop max_insert_rows (r ∷ rs)) db answers h,
      )
      refl

module _ (lib : RegexpLib) (json : JsonLib) (parsers : List Parser) where
  -- The bug: if the database cannot be reached while a worker flushes its batch, nothing is stored, but
  -- `flushBatch` returns no error, and so the worker reports all entries of the batch as flushed and
  -- acks their deliveries: the rows are lost.
  pub unstored_batch_acked :
      (stamp : Text → Option ℕ) (now : ℕ) (db : Db) (answers : ℕ → ChunkAnswers) (a : Answers)
      (w : Worker lib json parsers)
      → ((j : ℕ) → Unreachable (answers j))
      → a.paused_at_flush ≡ false
      → a.insert_ok ≡ (flush_batch answers (row_args stamp now) w.entries db).0
      → ((flush_batch answers (row_args stamp now) w.entries db).1.rows ≡ db.rows)
        × ((flush lib json parsers a w).effects
            ≡ w.effects
              ++ (inserted w.entries
                  ∷ evaluated w.entries
                  ∷ reported w.queue_entries
                  ∷ map (λ d. ack d.tag) w.batch_deliveries))
  unfolding flush_batch flush
  unstored_batch_acked stamp now db answers a w lost running ok =
      let row = row_args stamp now in
      (
        rw (Unreachable-chunks row (length w.entries) 0 w.entries db answers lost) refl,
        rw (running, ok) refl,
      )
