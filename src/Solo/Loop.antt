-- ===== src/Solo/Loop.antt =====
-- backend/tailer/tailer.go: `runIngestionLoop`, from the scanner to the end of a round. The lines are
-- those of the scanner, each with what the calls return while it is handled. `flushBatch` returns no
-- error (Store.Insert), so the batch is always evaluated.
use logmara.Prelude.{
  ℕ, ◌+◌, ◌-◌, Bool, true, false, ◌&&◌, ◌||◌, not, Option, none, some, List, [], ◌∷◌, ◌++◌, length,
  is_nil, if◌then◌else◌, leb, Text, codes, has_prefix,
}
use logmara.Parser.Cache.{RegexpLib, Cache}
use logmara.Parser.Engine.{Parser}
use logmara.Flush.Reader.{ScannedLine}
use logmara.Worker.Row.{
  LogRow, JsonLib, sanitize, sanitize_row, malformed_row, fix_misparse, parse_row,
}
use logmara.Worker.Loop.{batch_size, batch_interval}

-- The pause flag at the line and at the flush, the time, formatted and in nanoseconds.
pub record LineAnswers : Type 0 where
  pub paused : Bool
  pub paused_at_flush : Bool
  pub now_text : Text
  pub now : ℕ

-- `flushBatch` and `EvaluateBatch` of some rows, `savePosition`, `EvaluateMalformedJSON`.
pub data SoloEffect : Type 0 where
  flushed : List LogRow → SoloEffect
  saved : ℕ → SoloEffect
  malformed_line : Text → SoloEffect

module _ (lib : RegexpLib) (json : JsonLib) (parsers : List Parser) where
  -- The variables of the loop, the engine's cache, and the effects.
  pub record SoloState : Type 0 where
    pub file_pos : ℕ
    pub flushed_pos : ℕ
    pub cur_file_pos : ℕ
    pub scanned : Bool
    pub entries : List LogRow
    pub last_flush : ℕ
    pub cache : Cache lib
    pub effects : List SoloEffect

  -- What the loop does after a line: the next one, or `break`.
  pub data SoloStep : Type 0 where
    next_line broken_off : SoloState → SoloStep

  abbrev pub pass_over : ℕ → SoloState → SoloState
  pass_over n s = record s { cur_file_pos = s.cur_file_pos + n }

  abbrev pub note : SoloEffect → SoloState → SoloState
  note e s = record s { effects = s.effects ++ e ∷ [] }

  -- The flush of the batch, which is left out in a pause; the position is moved and saved, and the
  -- batch emptied, in any case.
  unfoldable pub flush_entries : Bool → SoloState → SoloState
  flush_entries paused s =
      let done = if paused then s else note (flushed s.entries) s in
      record (note (saved s.cur_file_pos) done) { flushed_pos = s.cur_file_pos; entries = [] }

  unfoldable pub add_entry : LineAnswers → LogRow → SoloState → SoloState
  unfolding flush_entries
  add_entry a r s =
      let batch = record s { entries = s.entries ++ r ∷ [] } in
      if leb batch_size (length batch.entries) || leb batch_interval (a.now - s.last_flush)
      then record (flush_entries a.paused_at_flush batch) { last_flush = a.now }
      else batch

  -- A row: sanitized, skipped without a host name, repaired, parsed, added.
  unfoldable pub take_row : LineAnswers → LogRow → SoloState → SoloState
  unfolding add_entry
  take_row a r s =
      let clean = sanitize_row r in
      let (parsed, cache) = parse_row lib parsers (fix_misparse clean) s.cache in
      let added = add_entry a parsed (record s { cache = cache }) in
      if is_nil clean.hostname then s else added

  -- A line that is no JSON and does not begin with a brace breaks the loop.
  abbrev pub on_decoded : LineAnswers → Text → Option LogRow → SoloState → SoloStep
  on_decoded a line (some r) s = next_line (take_row a r s)
  on_decoded a line none s =
      let kept =
        take_row a (malformed_row json a.now_text line) (note (malformed_line (sanitize line)) s) in
      if has_prefix line (codes "{") then next_line kept else broken_off s

  unfoldable pub solo_line : LineAnswers → ScannedLine → SoloState → SoloStep
  solo_line a l s =
      let moved = pass_over l.last_advance s in
      let decoded = on_decoded a l.text (json.line l.text) (record moved { scanned = true }) in
      if a.paused then broken_off moved else (if is_nil l.text then next_line moved else decoded)

  abbrev pub after_line_step : (SoloState → SoloState) → SoloStep → SoloState
  after_line_step rest (next_line s) = rest s
  after_line_step rest (broken_off s) = s

  unfoldable pub solo_scan : List (ScannedLine × LineAnswers) → SoloState → SoloState
  unfolding solo_line
  solo_scan [] s = s
  solo_scan ((l, a) ∷ ls) s = after_line_step (solo_scan ls) (solo_line a l s)

  -- Behind the scan; `paused` is what the flag is then. The rows wait for the next round in a pause.
  unfoldable pub end_round : Bool → SoloState → SoloState
  unfolding flush_entries
  end_round paused s =
      let moved = record s { file_pos = if s.scanned then s.cur_file_pos else s.file_pos } in
      if not (is_nil s.entries) && not paused then flush_entries false moved else moved

  unfoldable pub start_round : SoloState → SoloState
  start_round s = record s { cur_file_pos = s.file_pos; scanned = false }

  -- One round over the lines from the position on.
  unfoldable pub solo_round : List (ScannedLine × LineAnswers) → Bool → SoloState → SoloState
  unfolding solo_scan end_round start_round
  solo_round ls paused s = end_round paused (solo_scan ls (start_round s))
