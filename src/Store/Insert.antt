-- ===== src/Store/Insert.antt =====
-- backend/tailer/tailer.go: `flushBatch`, `insertChunk`, `insertRowsIndividually` and `rowArgs`. The
-- database runs an INSERT as Postgres documents it: a placeholder stands for the argument with its
-- number, a statement has at most 65535 of them, and it is done wholly or not at all.
use logmara.Prelude.{
  ℕ, zero, suc, ◌+◌, ◌-◌, ◌*◌, Bool, true, Option, none, some, String, List, [], ◌∷◌, ◌++◌, length,
  take, drop, get_elem?, is_nil, if◌then◌else◌, ltb, Text, Assoc, Reply, answered, failed_after,
}
use logmara.Worker.Row.{LogRow}

-- A value for a column.
pub data Value : Type 0 where
  null : Value
  time : ℕ → Value
  text_value : Text → Value
  fields_value : Assoc Text → Value
  names_value : List String → Value

abbrev pub timestamp_formats : List String
timestamp_formats =
    "2006-01-02T15:04:05Z07:00" ∷ "2006-01-02T15:04:05.999999999Z07:00" ∷ "2006-01-02T15:04:05"
    ∷ "2006-01-02 15:04:05" ∷ "Jan  2 15:04:05" ∷ "Jan  2 03:04:05" ∷ "Mon Jan _2 15:04:05 MST 2006"
    ∷ []

abbrev pub first_some : Option ℕ → Option ℕ → Option ℕ
first_some (some t) rest = some t
first_some none rest = rest

abbrev pub parse_with : (String → Text → Option ℕ) → List String → Text → Option ℕ
parse_with parse [] s = none
parse_with parse (f ∷ fs) s = first_some (parse f s) (parse_with parse fs s)

-- `parse` is `time.Parse`.
unfoldable pub parse_timestamp : (String → Text → Option ℕ) → Text → Option ℕ
parse_timestamp parse s = parse_with parse timestamp_formats s

abbrev pub null_str : Text → Value
null_str s = if is_nil s then null else text_value s

abbrev pub time_or : ℕ → Option ℕ → Value
time_or now none = time now
time_or now (some t) = time t

abbrev pub fields_or : Option (Assoc Text) → Value
fields_or none = fields_value []
fields_or (some fs) = fields_value fs

-- What a row of the batch is stored as; a time that cannot be read is replaced by the present one.
abbrev pub row_args : (Text → Option ℕ) → ℕ → LogRow → List Value
row_args stamp now r =
    time_or now (stamp r.timestamp)
    ∷ text_value r.hostname
    ∷ null_str r.from_host_ip
    ∷ null_str r.app_name
    ∷ null_str r.process_id
    ∷ null_str r.msg_id
    ∷ text_value r.severity
    ∷ null_str r.facility
    ∷ text_value r.message
    ∷ null_str r.raw_message
    ∷ fields_or r.parsed_fields
    ∷ names_value r.matched_parsers
    ∷ null_str r.via_relay
    ∷ []

abbrev pub insert_columns : ℕ
insert_columns = 13

abbrev pub max_insert_rows : ℕ
max_insert_rows = 5000

-- `base + c`, `base + c + 1`, …
abbrev pub columns : ℕ → ℕ → ℕ → List ℕ
columns base c zero = []
columns base c (suc k) = (base + c) ∷ columns base (suc c) k

-- The placeholders of the rows, from row `i` on.
unfoldable pub row_placeholders : ℕ → List LogRow → List (List ℕ)
row_placeholders i [] = []
row_placeholders i (r ∷ rs) =
    columns (i * insert_columns) 1 insert_columns ∷ row_placeholders (suc i) rs

unfoldable pub chunk_args : (LogRow → List Value) → List LogRow → List Value
chunk_args row [] = []
chunk_args row (r ∷ rs) = row r ++ chunk_args row rs

-- The database: the rows of the table. `rate` is the counter of ingested rows.
pub record Db : Type 0 where
  pub rows : List (List Value)
  pub rate : ℕ

abbrev pub add_rows : List (List Value) → Db → Db
add_rows new db = record db { rows = db.rows ++ new }

-- The values that some placeholders stand for.
abbrev pub and_value {ℓ} : {A : Type ℓ} → Option A → Option (List A) → Option (List A)
and_value (some v) (some vs) = some (v ∷ vs)
and_value _ _ = none

abbrev pub bound_row : List Value → List ℕ → Option (List Value)
bound_row args [] = some []
bound_row args (n ∷ ns) = and_value (get_elem? args (n - 1)) (bound_row args ns)

abbrev pub bound_rows : List Value → List (List ℕ) → Option (List (List Value))
bound_rows args [] = some []
bound_rows args (g ∷ gs) = and_value (bound_row args g) (bound_rows args gs)

unfoldable pub statement_rows : List (List ℕ) → List Value → Option (List (List Value))
statement_rows groups args = if ltb 65535 (length args) then none else bound_rows args groups

-- The count of rows that `Exec` returns, or nothing on an error, and the table behind it.
abbrev pub exec : Reply → Option (List (List Value)) → Db → Option ℕ × Db
exec answered (some new) db = (some (length new), add_rows new db)
exec failed_after (some new) db = (none, add_rows new db)
exec _ _ db = (none, db)

unfoldable pub insert_chunk : Reply → (LogRow → List Value) → List LogRow → Db → Option ℕ × Db
unfolding statement_rows row_placeholders chunk_args
insert_chunk reply row rs db =
    exec reply (statement_rows (row_placeholders 0 rs) (chunk_args row rs)) db

abbrev pub counted : Option ℕ → ℕ → ℕ
counted none n = n
counted (some k) n = n + k

-- The rows one by one, each with the answer to its statement.
unfoldable pub insert_each : (ℕ → Reply) → (LogRow → List Value) → ℕ → List LogRow → Db → ℕ × Db
insert_each reply row i [] db = (0, db)
insert_each reply row i (r ∷ rs) db =
    let (done, after) = exec (reply i) (some (row r ∷ [])) db in
    let (n, end) = insert_each reply row (suc i) rs after in (counted done n, end)

unfoldable pub insert_rows_individually :
    Bool → (ℕ → Reply) → (LogRow → List Value) → List LogRow → Db → ℕ × Db
unfolding insert_each
insert_rows_individually prepared reply row rs db =
    let done = insert_each reply row 0 rs db in if prepared then done else (0, db)

-- What the calls return for one chunk.
pub record ChunkAnswers : Type 0 where
  pub bulk : Reply
  pub prepared : Bool
  pub each : ℕ → Reply

abbrev pub or_each : (Db → ℕ × Db) → Option ℕ × Db → ℕ × Db
or_each each (some n, db) = (n, db)
or_each each (none, db) = each db

unfoldable pub store_chunk : ChunkAnswers → (LogRow → List Value) → List LogRow → Db → ℕ × Db
store_chunk a row rs db =
    or_each (insert_rows_individually a.prepared a.each row rs) (insert_chunk a.bulk row rs db)

-- The loop over the chunks, on fuel: a chunk takes at least one row.
unfoldable pub store_chunks :
    (ℕ → ChunkAnswers) → (LogRow → List Value) → ℕ → ℕ → List LogRow → Db → ℕ × Db
store_chunks answers row zero i rs db = (0, db)
store_chunks answers row (suc fuel) i [] db = (0, db)
store_chunks answers row (suc fuel) i (r ∷ rs) db =
    let (n, after) = store_chunk (answers i) row (take max_insert_rows (r ∷ rs)) db in
    let (m, end) = store_chunks answers row fuel (suc i) (drop max_insert_rows (r ∷ rs)) after in
    (n + m, end)

-- `rate.Incr`.
abbrev pub incr_rate : ℕ × Db → Db
incr_rate (n, db) = if ltb 0 n then record db { rate = db.rate + n } else db

-- Whether no error is returned, and the database.
unfoldable pub flush_batch :
    (ℕ → ChunkAnswers) → (LogRow → List Value) → List LogRow → Db → Bool × Db
unfolding store_chunks
flush_batch answers row rs db = (true, incr_rate (store_chunks answers row (length rs) 0 rs db))
