-- ===== src/Flush/Reader.antt =====
-- The publishing loop of backend/tailer/reader.go (`runReader`, from the scanner to the label
-- `reconnect`). What the world answers at each line (the pause flag, the broker, the encoder) is
-- given as a list with one entry per scanned line.
use logmara.Prelude.{
  ℕ, ◌+◌, ◌%◌, ◌==◌, Bool, ◌&&◌, List, [], ◌∷◌, ◌++◌, Text, if◌then◌else◌, is_nil,
}
use logmara.Flush.Tracker.{QueueEntry, next_seq}

-- One line as the scanner returns it: its text, and the bytes it takes in the file (`lastAdvance`).
pub record ScannedLine : Type 0 where
  pub text : Text
  pub last_advance : ℕ

-- What the calls of one round return: `IsPaused` at the top and in the check of every hundred
-- lines, `json.Marshal` and `Publish`.
pub record Answers : Type 0 where
  pub paused : Bool
  pub paused_in_check : Bool
  pub marshalled : Bool
  pub publish_ok : Bool

-- The variables of the loop, the counter of the flush tracker, and what the queue was given.
pub record ReaderState : Type 0 where
  pub file_pos : ℕ
  pub cur_file_pos : ℕ
  pub published : ℕ
  pub publish_retries : ℕ
  pub counter : ℕ
  pub queued : List QueueEntry

-- How the scan ended: the lines are over, a pause, or a failed publish (`goto reconnect`).
pub data ScanEnd : Type 0 where
  lines_over broken_off publish_failed : ScanEnd

abbrev pub skip_bytes : ReaderState → ℕ → ReaderState
skip_bytes s n = record s { cur_file_pos = s.cur_file_pos + n }

-- A number is minted for the line, and the line is counted.
abbrev pub mint : ReaderState → ReaderState
mint s = record s { published = s.published + 1; counter = (next_seq s.counter).1 }

abbrev pub entry_of : ReaderState → Text → QueueEntry
entry_of s t = record { number = (next_seq s.counter).0; next_pos = s.cur_file_pos; line = t }

-- `Publish` succeeded: the retry counter is reset and `filePos` moves past the line.
abbrev pub sent : ReaderState → QueueEntry → ReaderState
sent s e = record s {
  file_pos = s.cur_file_pos;
  publish_retries = 0;
  queued = s.queued ++ (e ∷ []);
}

abbrev pub retrying : ReaderState → ReaderState
retrying s = record s { publish_retries = s.publish_retries + 1 }

-- What the loop does with one line.
pub data Step : Type 0 where
  go_on : ReaderState → Step
  stop : ScanEnd → ReaderState → Step

-- The broker's and the encoder's answers for a line with its number minted.
unfoldable pub publish_line : Answers → QueueEntry → ReaderState → Step
publish_line a e s =
    if a.marshalled
    then (if a.publish_ok then go_on (sent s e) else stop publish_failed (retrying s))
    else go_on s

-- A line that is not empty: the check of every hundred lines, then the publication.
unfoldable pub scan_text : Answers → Text → ReaderState → Step
scan_text a t s =
    if (s.published % 100 == 0) && a.paused_in_check
    then stop broken_off s
    else publish_line a (entry_of s t) (mint s)

-- One round of the loop.
unfoldable pub scan_line : Answers → ScannedLine → ReaderState → Step
scan_line a l s =
    if a.paused
    then stop broken_off s
    else (if is_nil l.text
        then go_on (skip_bytes s l.last_advance)
        else scan_text a l.text (skip_bytes s l.last_advance))

-- `curFilePos := filePos` and `published := 0`.
unfoldable pub scan_start : ReaderState → ReaderState
scan_start s = record s { cur_file_pos = s.file_pos; published = 0 }

abbrev pub after_step : (ReaderState → ScanEnd × ReaderState) → Step → ScanEnd × ReaderState
after_step rest (go_on s) = rest s
after_step rest (stop end s) = (end, s)

-- The loop over the lines, each with its answers.
unfoldable pub scan : List (ScannedLine × Answers) → ReaderState → ScanEnd × ReaderState
scan [] s = (lines_over, s)
scan ((l, a) ∷ ls) s = after_step (scan ls) (scan_line a l s)

-- One pass over the file from `filePos`.
unfoldable pub read_pass : List (ScannedLine × Answers) → ReaderState → ScanEnd × ReaderState
read_pass ls s = scan ls (scan_start s)
