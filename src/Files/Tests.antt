-- ===== src/Files/Tests.antt =====
-- Runs on a small log file.
use logmara.Prelude.{
  ℕ, zero, suc, ◌<◌, ◌≡◌, refl, true, false, Option, none, some, [], ◌∷◌, ◌++◌, get_elem?, take,
  answered, failed_before, ltb, ◌||◌, ◌-◌, if◌then◌else◌, drop, All, Text, arith,
}
use logmara.Query.Paging.{pos}
use logmara.Flush.Reader.{Answers, ReaderState, read_pass}
use logmara.Flush.Covers.{Lines, entries, Covers}
use logmara.Files.Splitter.{scan_file, scan_tokens, split_with, index_byte}
use logmara.Files.Lines.{joined}
use logmara.Files.Pass.{tokens, EndsAt, read_pass-reads}
use logmara.Files.Backseek.{validate_position, Validated, validate_position-Validated}
use logmara.Files.Compact.{
  Disk, CompactAnswers, CompactResult, compact_file, compact_file-result, write_temp, swap_files,
  drop_trailing_incomplete_line, ends_line, last_index,
}
use logmara.Control.Flag.{Replicas, pause, resume, set_paused, publish}
use logmara.Files.Cycle.{
  CycleState, CycleAnswers, compact_cycle, should_compact, enough_flushed, wait_for_drain,
  compaction, purge_tailer_queue, purge_queue, reset_tracker, flushed_pos_of,
}
use logmara.Files.CycleResult.{CycleResult, grown}
use logmara.Files.Reread.{reader_of, IsDueAndFlushed, flushed_file_read_again}
use logmara.Files.Position.{Saved, SaveAnswers, save_position, load_position, load_tailer_position}
use logmara.Files.Resume.{
  too_new, scan_next, drop_return, no_rows, last_row, fallback_with, load_start_position,
  db_fallback_position, reset_if_rotated,
}
use logmara.Files.Start.{Origin, load_start_position-save_position, load_start_position-Origin}
use logmara.Files.Fallback.{NoneNewer, fallback_overshoots}

-- Two lines, an empty one between them, and the beginning of a third.
abbrev log_text : Text
log_text = 97 ∷ 98 ∷ 10 ∷ 10 ∷ 99 ∷ 10 ∷ 120 ∷ []

abbrev open_line : Text
open_line = 97 ∷ 10 ∷ 98 ∷ []

scan_file_test :
    scan_file log_text
    ≡ record { text = 97 ∷ 98 ∷ []; last_advance = 3 }
      ∷ record { text = []; last_advance = 1 }
      ∷ record { text = 99 ∷ []; last_advance = 2 }
      ∷ []
unfolding scan_file scan_tokens split_with index_byte
scan_file_test = refl

abbrev all_well : Answers
all_well = record { paused = false; paused_in_check = false; marshalled = true; publish_ok = true }

abbrev at_start : ReaderState
at_start = record {
  file_pos = 0;
  cur_file_pos = 0;
  published = 0;
  publish_retries = 0;
  counter = 4;
  queued = [];
}

abbrev log_lines : Lines
log_lines =
    (record { text = 97 ∷ 98 ∷ []; last_advance = 3 }, all_well)
    ∷ (record { text = []; last_advance = 1 }, all_well)
    ∷ (record { text = 99 ∷ []; last_advance = 2 }, all_well)
    ∷ []

log_lines-scanned : tokens log_lines ≡ scan_file (drop 0 log_text)
unfolding scan_file scan_tokens split_with index_byte
log_lines-scanned = refl

read_pass-reads_example :
    (k : ℕ) × (Covers log_lines 0 at_start (read_pass log_lines at_start) k
      × (take (read_pass log_lines at_start).1.file_pos log_text
          ≡ take 0 log_text ++ joined (tokens (take k log_lines)))
      × All (EndsAt log_text) (entries 4 0 (take k log_lines)))
read_pass-reads_example =
    read_pass-reads log_text at_start log_lines log_lines-scanned (refl, (refl, (refl, tt)))

abbrev read_log : ℕ → Option ℕ
read_log = get_elem? log_text

reads_two : (i : ℕ) → i < 2 → (b : ℕ) × (read_log i ≡ some b)
reads_two zero h = (97, refl)
reads_two (suc zero) h = (98, refl)
reads_two (suc (suc i)) h = absurd (omega arith)

validate_position-Validated_example : Validated read_log 2 (validate_position true read_log 2)
validate_position-Validated_example = validate_position-Validated read_log 2 reads_two

abbrev calls_succeed : CompactAnswers
calls_succeed = record {
  stat_ok = true;
  seek_ok = true;
  read_ok = true;
  create_ok = true;
  write_ok = true;
  sync_ok = true;
  close_ok = true;
  rename_ok = true;
  open_ok = true;
  appended = 121 ∷ [];
}

abbrev small_disk : Disk
small_disk = record { log = log_text; temp = none; reopened = 0 }

compact_file_test : (compact_file calls_succeed true 4 small_disk).1.log ≡ 99 ∷ 10 ∷ []
unfolding compact_file write_temp swap_files drop_trailing_incomplete_line ends_line last_index
compact_file_test = refl

compact_file-result_example :
    CompactResult 4 small_disk (121 ∷ []) (compact_file calls_succeed true 4 small_disk)
compact_file-result_example = compact_file-result calls_succeed true 4 small_disk

abbrev not_paused : Replicas
not_paused = record { stored = none; cached = λ i. false; messages = λ i. [] }

-- A reader that read all, and whose lines are all stored, half an hour after the last compaction.
abbrev drained_reader : CycleState
drained_reader = record {
  file_pos = 7;
  last_compaction = 0;
  saved = some 7;
  replica = 0;
  ingestion = not_paused;
  queue = [];
  counter = 2;
  flushed_pos = 7;
  disk = small_disk;
}

abbrev half_hour_later : CycleAnswers
half_hour_later = record {
  flushed = answered;
  file_size = 7;
  now = 1800000000001;
  finished = 1800000000002;
  pause_set = answered;
  pause_sent = answered;
  resume_set = answered;
  resume_sent = answered;
  drained = true;
  purged = record { has_pipeline = true; purge = answered; del = answered };
  compact = calls_succeed;
}

half_hour-due : should_compact half_hour_later drained_reader ≡ true
unfolding should_compact
half_hour-due = refl

-- The calls of Redis behind the drain fail.
abbrev redis_gone : CycleAnswers
redis_gone = record half_hour_later {
  resume_set = failed_before;
  purged = record { has_pipeline = true; purge = answered; del = failed_before };
}

redis_gone_test :
    (let after = (compact_cycle redis_gone true drained_reader).1 in
      (after.ingestion.stored ≡ some "1") × (after.flushed_pos ≡ 7) × (after.counter ≡ 0))
unfolding compact_cycle compaction purge_tailer_queue purge_queue reset_tracker should_compact
    enough_flushed flushed_pos_of compact_file pause resume set_paused publish
redis_gone_test = (refl, refl, refl)

drained_reader-IsDueAndFlushed : IsDueAndFlushed half_hour_later drained_reader
drained_reader-IsDueAndFlushed = record {
  due = half_hour-due;
  flushed_read = refl;
  drained = refl;
  stat_ok = refl;
  size = refl;
  all_flushed = refl;
  four = omega arith;
}

-- The log with what was appended to it.
abbrev grown_lines : Lines
grown_lines =
    (record { text = 97 ∷ 98 ∷ []; last_advance = 3 }, all_well)
    ∷ (record { text = []; last_advance = 1 }, all_well)
    ∷ (record { text = 99 ∷ []; last_advance = 2 }, all_well)
    ∷ []

grown_lines-scanned : tokens grown_lines ≡ scan_file (grown half_hour_later drained_reader)
unfolding scan_file scan_tokens split_with index_byte
grown_lines-scanned = refl

flushed_file_read_again_example :
    (let after = (compact_cycle half_hour_later true drained_reader).1 in
      (after.disk.log ≡ grown half_hour_later drained_reader)
      × (tokens grown_lines ≡ scan_file (drop after.file_pos after.disk.log))
      × ((read_pass grown_lines (reader_of after)).1.queued
          ≡ after.queue ++ entries after.counter 0 grown_lines))
flushed_file_read_again_example =
    flushed_file_read_again half_hour_later true drained_reader grown_lines
      drained_reader-IsDueAndFlushed grown_lines-scanned
      ((refl, refl, refl, refl), ((refl, refl, refl, refl), ((refl, refl, refl, refl), tt)))

drain_test :
    (wait_for_drain (
        record { done = false; pending = 2; too_late = false; slept = true }
        ∷ record { done = false; pending = 0; too_late = false; slept = true }
        ∷ [])
      ≡ some true)
    × (wait_for_drain (record { done = false; pending = 2; too_late = true; slept = true } ∷ [])
        ≡ some false)
unfolding wait_for_drain
drain_test = (refl, refl)

-- A digest that keeps the last byte.
abbrev last_byte : Text → Text
last_byte [] = []
last_byte (c ∷ []) = c ∷ []
last_byte (c ∷ (d ∷ t)) = last_byte (d ∷ t)

abbrev no_stamp : Text → Option ℕ
no_stamp t = none

abbrev with_redis : SaveAnswers
with_redis = record { write_ok = true; rename_ok = true; has_client = true; set_ok = true }

abbrev nothing_saved : Saved
nothing_saved = record { pos_file = none; redis = none }

load_start_position-save_position_example :
    load_start_position last_byte no_stamp true
      (some no_rows)
      (some (log_text ++ (121 ∷ [])))
      (save_position last_byte with_redis (some log_text) 6 nothing_saved)
    ≡ pos 6
load_start_position-save_position_example =
    load_start_position-save_position last_byte no_stamp with_redis (some no_rows) log_text
      (121 ∷ []) 6 nothing_saved (omega arith) (omega arith) refl refl (λ h. refl)

load_start_position-Origin_example :
    (let saved = save_position last_byte with_redis (some log_text) 6 nothing_saved in
      Origin last_byte
        (some open_line)
        (load_tailer_position true saved.redis)
        (load_position saved.pos_file)
        (fallback_with no_stamp (some open_line) (some no_rows))
        (load_start_position last_byte no_stamp true (some no_rows) (some open_line) saved))
load_start_position-Origin_example =
    load_start_position-Origin last_byte no_stamp true (some no_rows) (some open_line)
      (save_position last_byte with_redis (some log_text) 6 nothing_saved)

-- Two lines that begin with a digit, their time, and the second is not complete.
abbrev stamped_log : Text
stamped_log = 51 ∷ 97 ∷ 10 ∷ 53 ∷ 98 ∷ []

abbrev digit_stamp : Text → Option ℕ
digit_stamp [] = none
digit_stamp (c ∷ t) = if ltb c 48 || ltb 57 c then none else some (c - 48)

stamped_log-open : ends_line stamped_log ≡ false
unfolding ends_line
stamped_log-open = refl

stamped_log-NoneNewer : NoneNewer (too_new digit_stamp 5) 6 stamped_log
unfolding NoneNewer scan_next index_byte drop_return
stamped_log-NoneNewer = (refl, (refl, tt))

newer_line_test : too_new digit_stamp 5 (54 ∷ []) ≡ true
newer_line_test = refl

fallback_overshoots_example :
    (db_fallback_position digit_stamp (last_row 5) (some stamped_log) ≡ 6)
    × (reset_if_rotated 5 (pos (db_fallback_position digit_stamp (last_row 5) (some stamped_log)))
        ≡ pos 0)
fallback_overshoots_example =
    fallback_overshoots digit_stamp 5 stamped_log stamped_log-NoneNewer
      (refl, (refl, (refl, (refl, (refl, tt))))) stamped_log-open (omega arith) (omega arith)
