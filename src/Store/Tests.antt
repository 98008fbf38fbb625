-- ===== src/Store/Tests.antt =====
-- Runs of the flush of a batch.
use logmara.Prelude.{
  ℕ, zero, suc, ◌+◌, ◌≡◌, refl, true, false, Option, none, some, List, [], ◌∷◌, ◌++◌, length, map,
  Text, Reply, answered, failed_before, arith,
}
use logmara.Parser.Sample.{sample_lib}
use logmara.Worker.Row.{LogRow, JsonLib, corrupt}
use logmara.Worker.Loop.{Answers, ack, inserted, evaluated, reported, Worker, flush}
use logmara.Store.Insert.{
  Value, row_args, row_placeholders, chunk_args, statement_rows, Db, insert_chunk, insert_each,
  insert_rows_individually, ChunkAnswers, store_chunk, store_chunks, flush_batch,
}
use logmara.Store.Chunks.{statement_rows-row_args}
use logmara.Store.Stored.{Kept, Well}
use logmara.Store.Batch.{flush_batch-Kept, unstored_batch_acked}

abbrev row_of : Text → LogRow
row_of t = record {
  timestamp = [];
  hostname = t;
  from_host_ip = [];
  app_name = [];
  process_id = [];
  msg_id = [];
  severity = [];
  facility = [];
  message = t;
  raw_message = [];
  via_relay = [];
  parsed_fields = none;
  matched_parsers = [];
}

abbrev no_stamp : Text → Option ℕ
no_stamp t = none

abbrev two_rows : List LogRow
two_rows = row_of (97 ∷ []) ∷ row_of (98 ∷ []) ∷ []

abbrev no_rows_yet : Db
no_rows_yet = record { rows = []; rate = 0 }

placeholders_test :
    row_placeholders 0 two_rows
    ≡ (1 ∷ 2 ∷ 3 ∷ 4 ∷ 5 ∷ 6 ∷ 7 ∷ 8 ∷ 9 ∷ 10 ∷ 11 ∷ 12 ∷ 13 ∷ [])
      ∷ (14 ∷ 15 ∷ 16 ∷ 17 ∷ 18 ∷ 19 ∷ 20 ∷ 21 ∷ 22 ∷ 23 ∷ 24 ∷ 25 ∷ 26 ∷ [])
      ∷ []
unfolding row_placeholders
placeholders_test = refl

statement_rows-row_args_example :
    statement_rows (row_placeholders 0 two_rows) (chunk_args (row_args no_stamp 7) two_rows)
    ≡ some (map (row_args no_stamp 7) two_rows)
statement_rows-row_args_example = statement_rows-row_args no_stamp 7 two_rows (omega arith)

-- The bulk insert fails, and of the single inserts the second one.
abbrev first_only : ℕ → Reply
first_only zero = answered
first_only (suc i) = failed_before

abbrev half_well : ℕ → ChunkAnswers
half_well i = record { bulk = failed_before; prepared = true; each = first_only }

first_only-OnTime : (i : ℕ) → first_only i ≡ Reply.failed_after → ⊥
first_only-OnTime zero h = absurd (cc)
first_only-OnTime (suc i) h = absurd (cc)

bulk-OnTime : failed_before ≡ Reply.failed_after → ⊥
bulk-OnTime h = absurd (cc)

flush_batch_test :
    (flush_batch half_well (row_args no_stamp 7) two_rows no_rows_yet).1
    ≡ record { rows = row_args no_stamp 7 (row_of (97 ∷ [])) ∷ []; rate = 1 }
unfolding flush_batch store_chunks store_chunk insert_chunk statement_rows row_placeholders
    chunk_args insert_rows_individually insert_each
flush_batch_test = refl

flush_batch-Kept_example :
    (let after = (flush_batch half_well (row_args no_stamp 7) two_rows no_rows_yet).1 in
      (new : List (List Value)) × Kept (row_args no_stamp 7) two_rows new
      × (after.rows ≡ [] ++ new)
      × (after.rate ≡ 0 + length new)
      × (((j : ℕ) → Well (half_well j)) → new ≡ map (row_args no_stamp 7) two_rows))
flush_batch-Kept_example =
    flush_batch-Kept no_stamp 7 two_rows no_rows_yet half_well
      (λ j. (bulk-OnTime, first_only-OnTime))

abbrev database_down : ℕ → ChunkAnswers
database_down i = record { bulk = failed_before; prepared = false; each = λ j. failed_before }

abbrev no_json : JsonLib
no_json = record { envelope = λ t. corrupt none; line = λ t. none; unexpected_end = λ t. false }

abbrev full_worker : Worker sample_lib no_json []
full_worker = record {
  entries = two_rows;
  queue_entries =
      record { number = 1; next_pos = 2; line = 97 ∷ [] }
      ∷ record { number = 2; next_pos = 4; line = 98 ∷ [] }
      ∷ [];
  batch_deliveries = record { tag = 5; body = [] } ∷ record { tag = 6; body = [] } ∷ [];
  pending = 2;
  last_flush = 0;
  msgs_processed = 0;
  parse_errors = 0;
  db_inserts = 0;
  cache = [];
  effects = [];
}

abbrev running : Answers
running = record {
  paused = false;
  paused_at_flush = false;
  now_text = [];
  now = 500000000;
  insert_ok = true;
}

flush_batch-no_error :
    true ≡ (flush_batch database_down (row_args no_stamp 7) two_rows no_rows_yet).0
unfolding flush_batch
flush_batch-no_error = refl

unstored_batch_acked_example :
    ((flush_batch database_down (row_args no_stamp 7) two_rows no_rows_yet).1.rows ≡ [])
    × ((flush sample_lib no_json [] running full_worker).effects
        ≡ []
          ++ (inserted two_rows
              ∷ evaluated two_rows
              ∷ reported full_worker.queue_entries
              ∷ ack 5
              ∷ ack 6
              ∷ []))
unstored_batch_acked_example =
    unstored_batch_acked sample_lib no_json [] no_stamp 7 no_rows_yet database_down running
      full_worker (λ j. (refl, refl)) refl flush_batch-no_error
