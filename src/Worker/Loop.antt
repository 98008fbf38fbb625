-- ===== src/Worker/Loop.antt =====
-- backend/tailer/worker.go: the consume loop of `worker.run`, one event of its `select` at a time.
-- What a worker does to the outside is a list of effects, in order.
use logmara.Prelude.{
  ℕ, ◌+◌, ◌-◌, leb, Bool, ◌&&◌, ◌||◌, Option, none, some, List, [], ◌∷◌, ◌++◌, map, length,
  if◌then◌else◌, is_nil, Text, codes, has_prefix, ltb,
}
use logmara.Parser.Cache.{RegexpLib, Cache}
use logmara.Parser.Engine.{Parser}
use logmara.Flush.Tracker.{QueueEntry}
use logmara.Worker.Row.{
  LogRow, Envelope, whole, corrupt, JsonLib, sanitize, sanitize_row, malformed_row, fix_misparse,
  parse_row,
}

pub record Delivery : Type 0 where
  pub tag : ℕ
  pub body : Text

-- `Ack`, `Nack` with requeue, `ReportFlushed`, `flushBatch`, and the calls of the alert engine.
pub data Effect : Type 0 where
  ack nack : ℕ → Effect
  reported : List QueueEntry → Effect
  inserted insert_failed evaluated : List LogRow → Effect
  malformed_seen : Text → Effect

abbrev pub batch_size : ℕ
batch_size = 5000

-- 500 milliseconds.
abbrev pub batch_interval : ℕ
batch_interval = 500000000

-- What the calls return while a delivery is handled: the pause flag at receipt and at the flush,
-- the time, formatted and in nanoseconds, and whether the insert succeeds.
pub record Answers : Type 0 where
  pub paused : Bool
  pub paused_at_flush : Bool
  pub now_text : Text
  pub now : ℕ
  pub insert_ok : Bool

pub data Event : Type 0 where
  pause_check : Bool → Event
  channel_closed : ℕ → Event
  delivered : Delivery → Answers → Event

-- What the decoding of a line gives: nothing to store, or a row, and whether the line is malformed.
pub data Reading : Type 0 where
  discard : Reading
  row : LogRow → Reading
  malformed : LogRow → Text → Reading

-- The lines between `line := qe.Line` and the sanitizing.
abbrev pub reading_of : JsonLib → Text → Text → Option LogRow → Reading
reading_of json now line (some r) = row r
reading_of json now line none =
    if has_prefix line (codes "{")
    then malformed (malformed_row json now line) (sanitize line)
    else discard

unfoldable pub read_line : JsonLib → Text → Text → Reading
read_line json now line = if is_nil line then discard else reading_of json now line (json.line line)

module _ (lib : RegexpLib) (json : JsonLib) (parsers : List Parser) where
  -- The local slices, `pending`, `lastFlush`, the metrics, the engine's cache, and the effects.
  pub record Worker : Type 0 where
    pub entries : List LogRow
    pub queue_entries : List QueueEntry
    pub batch_deliveries : List Delivery
    pub pending : ℕ
    pub last_flush : ℕ
    pub msgs_processed : ℕ
    pub parse_errors : ℕ
    pub db_inserts : ℕ
    pub cache : Cache lib
    pub effects : List Effect

  abbrev pub emit : List Effect → Worker → Worker
  emit es w = record w { effects = w.effects ++ es }

  -- The slices are set to nil and `pending` to 0.
  abbrev pub clear : Worker → Worker
  clear w = record w { entries = []; queue_entries = []; batch_deliveries = []; pending = 0 }

  abbrev pub nack_batch : Worker → Worker
  nack_batch w = emit (map (λ d. nack d.tag) w.batch_deliveries) w

  -- A tick of `pauseCheckTicker`.
  unfoldable pub on_pause_check : Bool → Worker → Worker
  on_pause_check paused w =
      if paused && ltb 0 (length w.batch_deliveries) then clear (nack_batch w) else w

  -- The channel is closed; the slices and `lastFlush` are made anew when the worker consumes again.
  unfoldable pub on_closed : ℕ → Worker → Worker
  on_closed now w = record (clear (nack_batch w)) { last_flush = now }

  abbrev pub recovered : Option (ℕ × ℕ) → List Effect
  recovered none = []
  recovered (some (n, p)) =
      if ltb 0 n then reported (record { number = n; next_pos = p; line = [] } ∷ []) ∷ [] else []

  unfoldable pub on_corrupt : Delivery → Option (ℕ × ℕ) → Worker → Worker
  on_corrupt d partial w = record (emit (recovered partial ++ ack d.tag ∷ []) w) {
    parse_errors = w.parse_errors + 1;
    msgs_processed = w.msgs_processed + 1;
  }

  -- A line with nothing to store counts as flushed.
  unfoldable pub skip_line : Delivery → QueueEntry → Worker → Worker
  skip_line d qe w = record (emit (reported (qe ∷ []) ∷ ack d.tag ∷ []) w) {
    msgs_processed = w.msgs_processed + 1;
  }

  -- The flush of the batch.
  unfoldable pub flush : Answers → Worker → Worker
  flush a w =
      if a.paused_at_flush
      then clear (nack_batch w)
      else (if a.insert_ok
          then record (clear (
              emit
                (inserted w.entries
                  ∷ evaluated w.entries
                  ∷ reported w.queue_entries
                  ∷ map (λ d. ack d.tag) w.batch_deliveries)
                w)) {
                  db_inserts = w.db_inserts + length w.entries;
                  msgs_processed = w.msgs_processed + length w.entries;
                  last_flush = a.now;
                }
          else record (clear (nack_batch (emit (insert_failed w.entries ∷ []) w))) {
            last_flush = a.now;
          })

  unfoldable pub append_row : Delivery → QueueEntry → LogRow → Worker → Worker
  append_row d qe r w = record w {
    entries = w.entries ++ r ∷ [];
    queue_entries = w.queue_entries ++ qe ∷ [];
    batch_deliveries = w.batch_deliveries ++ d ∷ [];
    pending = length (w.entries ++ r ∷ []);
  }

  unfoldable pub flush_if_due : Answers → Worker → Worker
  flush_if_due a w =
      if leb batch_size (length w.entries) || leb batch_interval (a.now - w.last_flush)
      then flush a w
      else w

  -- A row: sanitized, skipped without a host name, repaired, parsed, appended.
  unfoldable pub store_row : Delivery → Answers → QueueEntry → LogRow → Worker → Worker
  store_row d a qe r w =
      let clean = sanitize_row r in
      if is_nil clean.hostname
      then skip_line d qe w
      else (let (parsed, cache) = parse_row lib parsers (fix_misparse clean) w.cache in
          flush_if_due a (append_row d qe parsed (record w { cache = cache })))

  abbrev pub on_reading : Delivery → Answers → QueueEntry → Reading → Worker → Worker
  on_reading d a qe discard w = skip_line d qe w
  on_reading d a qe (row r) w = store_row d a qe r w
  on_reading d a qe (malformed r snippet) w =
      store_row d a qe r
        (record (emit (malformed_seen snippet ∷ []) w) { parse_errors = w.parse_errors + 1 })

  abbrev pub on_envelope : Delivery → Answers → Envelope → Worker → Worker
  on_envelope d a (corrupt partial) w = on_corrupt d partial w
  on_envelope d a (whole qe) w = on_reading d a qe (read_line json a.now_text qe.line) w

  -- A delivery.
  unfoldable pub on_delivery : Delivery → Answers → Worker → Worker
  on_delivery d a w =
      if a.paused then emit (nack d.tag ∷ []) w else on_envelope d a (json.envelope d.body) w

  unfoldable pub worker_step : Event → Worker → Worker
  worker_step (pause_check paused) w = on_pause_check paused w
  worker_step (channel_closed now) w = on_closed now w
  worker_step (delivered d a) w = on_delivery d a w

  unfoldable pub run_worker : List Event → Worker → Worker
  run_worker [] w = w
  run_worker (e ∷ es) w = run_worker es (worker_step e w)
