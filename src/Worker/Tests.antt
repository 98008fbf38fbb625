-- ===== src/Worker/Tests.antt =====
-- Runs of a worker, with lines that are their own host name and message.
use logmara.Prelude.{
  ℕ, ◌+◌, ◌==◌, ◌≡◌, refl, Bool, true, false, Option, none, some, List, [], ◌∷◌, Text, codes, arith,
  if◌then◌else◌,
}
use logmara.Parser.Sample.{sample_lib}
use logmara.Parser.Engine.{parse, match}
use logmara.Worker.Row.{
  LogRow, Envelope, whole, corrupt, JsonLib, sanitize, malformed_row, fix_misparse, parse_row,
  looks_truncated_at_source,
}
use logmara.Worker.Loop.{
  Delivery, ack, nack, reported, inserted, evaluated, malformed_seen, Answers, Event, pause_check,
  delivered, read_line, Worker, on_pause_check, on_corrupt, skip_line, flush, append_row,
  flush_if_due, store_row, on_delivery, worker_step, run_worker,
}
use logmara.Worker.Settled.{settled, waiting, received, run_worker-total}
use logmara.Worker.Balance.{IsBalanced, run_worker-IsBalanced}

abbrev row_of : Text → LogRow
row_of t = record {
  timestamp = [];
  hostname = t;
  from_host_ip = [];
  app_name = [];
  process_id = [];
  msg_id = [];
  severity = [];
  facility = [];
  message = t;
  raw_message = [];
  via_relay = [];
  parsed_fields = none;
  matched_parsers = [];
}

abbrev decode : Text → Option LogRow
decode [] = none
decode (c ∷ t) = if c == b'{' then none else some (row_of (c ∷ t))

-- A body is a number and the line.
abbrev open_body : Text → Envelope
open_body [] = corrupt none
open_body (n ∷ t) =
    if n == 0 then corrupt (some (9, 90)) else whole (record { number = n; next_pos = n; line = t })

abbrev json : JsonLib
json = record { envelope = open_body; line = decode; unexpected_end = λ t. false }

abbrev Host : Type 0
Host = Worker sample_lib json []

abbrev idle : Host
idle = record {
  entries = [];
  queue_entries = [];
  batch_deliveries = [];
  pending = 0;
  last_flush = 0;
  msgs_processed = 0;
  parse_errors = 0;
  db_inserts = 0;
  cache = [];
  effects = [];
}

abbrev answers : Bool → Bool → ℕ → Answers
answers paused insert_ok now = record {
  paused = paused;
  paused_at_flush = false;
  now_text = [];
  now = now;
  insert_ok = insert_ok;
}

abbrev delivery : ℕ → Text → Delivery
delivery tag body = record { tag = tag; body = body }

-- A row waits; a malformed line joins it and both are flushed, for the time is over.
abbrev day : List Event
day =
    delivered (delivery 1 (1 ∷ codes "a")) (answers false true 5)
    ∷ delivered (delivery 2 (2 ∷ [])) (answers false true 6)
    ∷ delivered (delivery 3 (0 ∷ [])) (answers false true 7)
    ∷ delivered (delivery 4 (3 ∷ codes "b")) (answers true true 8)
    ∷ delivered (delivery 5 (4 ∷ codes "c")) (answers false true 500000000)
    ∷ []

idle-IsBalanced : IsBalanced sample_lib json [] idle
idle-IsBalanced = record { rows = refl; reports = refl; tags = refl; short = omega arith }

run_worker-total_example :
    settled 5 (run_worker sample_lib json [] day idle).effects
      + waiting 5 (run_worker sample_lib json [] day idle).batch_deliveries
    ≡ 0 + 0 + received 5 day
run_worker-total_example = run_worker-total sample_lib json [] 5 day idle

run_worker-IsBalanced_example :
    IsBalanced sample_lib json [] (run_worker sample_lib json [] day idle)
run_worker-IsBalanced_example = run_worker-IsBalanced sample_lib json [] day idle idle-IsBalanced

day_test :
    (run_worker sample_lib json [] day idle).effects
    ≡ reported (record { number = 2; next_pos = 2; line = [] } ∷ [])
      ∷ ack 2
      ∷ reported (record { number = 9; next_pos = 90; line = [] } ∷ [])
      ∷ ack 3
      ∷ nack 4
      ∷ inserted (row_of (codes "a") ∷ row_of (codes "c") ∷ [])
      ∷ evaluated (row_of (codes "a") ∷ row_of (codes "c") ∷ [])
      ∷ reported (
          record { number = 1; next_pos = 1; line = codes "a" }
          ∷ record { number = 4; next_pos = 4; line = codes "c" }
          ∷ [])
      ∷ ack 1
      ∷ ack 5
      ∷ []
unfolding run_worker worker_step on_delivery on_corrupt skip_line read_line store_row sanitize
    fix_misparse parse_row parse match append_row flush_if_due flush
day_test = refl

-- A line that is no JSON but looks like it is stored as such, and a pause gives it back.
malformed_test :
    (run_worker sample_lib json []
      (delivered (delivery 1 (1 ∷ codes "{a")) (answers false true 5) ∷ pause_check true ∷ [])
      idle).effects
    ≡ malformed_seen (codes "{a") ∷ nack 1 ∷ []
unfolding run_worker worker_step on_delivery read_line store_row sanitize malformed_row
    looks_truncated_at_source fix_misparse parse_row parse match append_row flush_if_due
    on_pause_check
malformed_test = refl
