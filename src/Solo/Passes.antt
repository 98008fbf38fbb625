-- ===== src/Solo/Passes.antt =====
-- backend/tailer/tailer.go: what a round of `runIngestionLoop` stores, without a pause.
use logmara.Prelude.{
  true-false, ℕ, ◌+◌, ◌≡◌, refl, sym, ◌∙◌, ap, Bool, true, false, ◌&&◌, ◌||◌, not, Option, none,
  some, List, [], ◌∷◌, ◌++◌, append_assoc, append-nil, is_nil, if◌then◌else◌, if_splits, Text,
  codes, has_prefix, arith,
}
use logmara.Parser.Cache.{RegexpLib, Cache}
use logmara.Parser.Engine.{Parser}
use logmara.Flush.Reader.{ScannedLine}
use logmara.Worker.Row.{LogRow, JsonLib, sanitize, malformed_row}
use logmara.Solo.Loop.{
  LineAnswers, malformed_line, next_line, broken_off, pass_over, note, flush_entries, on_decoded,
  solo_line, after_line_step, solo_scan, end_round, start_round, solo_round,
}
use logmara.Solo.Rows.{
  Round, Solo, Step, bytes_of, flush_total, flushed_rows, flushed_rows-append, line_rows, nil_eq,
  or_assoc, raw_row, row_result, rows_of, take_Adds, total,
}

module _ (lib : RegexpLib) (json : JsonLib) (parsers : List Parser) where
  -- A line that does not break the loop, outside of a pause.
  abbrev pub IsCalm : ScannedLine × LineAnswers → Type 0
  IsCalm (l, a) =
      (a.paused ≡ false)
      × (a.paused_at_flush ≡ false)
      × (is_nil l.text ≡ false → json.line l.text ≡ none → has_prefix l.text (codes "{") ≡ true)

  abbrev pub AllCalm : Round → Type 0
  AllCalm [] = Unit
  AllCalm (x ∷ ls) = IsCalm x × AllCalm ls

  abbrev pub NextIs :
      Solo lib json parsers → ℕ → Bool → List LogRow × Cache lib → Step lib json parsers → Type 0
  NextIs s n some_text rows (next_line s1) =
      (total lib json parsers s1 ≡ total lib json parsers s ++ rows.0)
      × (s1.cache ≡ rows.1)
      × (s1.cur_file_pos ≡ s.cur_file_pos + n)
      × (s1.file_pos ≡ s.file_pos)
      × (s1.scanned ≡ (s.scanned || some_text))
  NextIs s n some_text rows (broken_off s1) = ⊥

  note_malformed :
      (t : Text) (s : Solo lib json parsers)
      → total lib json parsers (note lib json parsers (malformed_line t) s)
        ≡ total lib json parsers s
  note_malformed t s =
      ap (λ x. x ++ s.entries)
        (flushed_rows-append s.effects (malformed_line t ∷ [])
          ∙ append-nil (flushed_rows s.effects))

  decoded_NextIs :
      (a : LineAnswers) (l : ScannedLine) (s : Solo lib json parsers) (o : Option LogRow)
      → a.paused_at_flush ≡ false
      → (o ≡ none → has_prefix l.text (codes "{") ≡ true)
      → NextIs s l.last_advance true
          (row_result lib json parsers s.cache (raw_row lib json parsers a.now_text l.text o))
          (on_decoded lib json parsers a l.text o
            (record (pass_over lib json parsers l.last_advance s) { scanned = true }))
  decoded_NextIs a l s (some r) calm brace =
      let moved = record (pass_over lib json parsers l.last_advance s) { scanned = true } in
      let (rows, c, cur, pos, seen) = take_Adds lib json parsers a r moved calm in
      (rows, c, cur, pos, seen ∙ ground arith)
  decoded_NextIs a l s none calm brace =
      let moved = record (pass_over lib json parsers l.last_advance s) { scanned = true } in
      let noted = note lib json parsers (malformed_line (sanitize l.text)) moved in
      let new = (row_result lib json parsers s.cache (malformed_row json a.now_text l.text)).0 in
      let (rows, c, cur, pos, seen) =
        take_Adds lib json parsers a (malformed_row json a.now_text l.text) noted calm in
      rw (brace refl) (
        rows ∙ ap (λ x. x ++ new) (note_malformed (sanitize l.text) moved),
        c,
        cur,
        pos,
        seen ∙ ground arith,
      )

  text_NextIs :
      (l : ScannedLine) (a : LineAnswers) (s : Solo lib json parsers) (empty : Bool)
      → a.paused_at_flush ≡ false
      → (empty ≡ false → json.line l.text ≡ none → has_prefix l.text (codes "{") ≡ true)
      → NextIs s l.last_advance
          (not empty)
          (if empty
            then ([], s.cache)
            else row_result lib json parsers s.cache
                (raw_row lib json parsers a.now_text l.text (json.line l.text)))
          (if empty
            then next_line (pass_over lib json parsers l.last_advance s)
            else on_decoded lib json parsers a l.text
                (json.line l.text)
                (record (pass_over lib json parsers l.last_advance s) { scanned = true }))
  text_NextIs l a s true calm h =
      (sym (append-nil (total lib json parsers s)), refl, refl, refl, ground arith)
  text_NextIs l a s false calm h = decoded_NextIs a l s (json.line l.text) calm (h refl)

  pub line_NextIs :
      (l : ScannedLine) (a : LineAnswers) (s : Solo lib json parsers)
      → IsCalm (l, a)
      → NextIs s l.last_advance
          (not (is_nil l.text))
          (line_rows lib json parsers s.cache l a)
          (solo_line lib json parsers a l s)
  unfolding solo_line
  line_NextIs l a s (running, calm, brace) =
      if_splits
        (NextIs s l.last_advance (not (is_nil l.text)) (line_rows lib json parsers s.cache l a))
        a.paused (λ e. absurd (true-false (sym e ∙ running)))
        (λ e. text_NextIs l a s (is_nil l.text) calm brace)

  abbrev pub some_text : Round → Bool
  some_text [] = false
  some_text ((l, a) ∷ ls) = not (is_nil l.text) || some_text ls

  -- What a scan leaves.
  abbrev pub Scanned : Solo lib json parsers → Round → Solo lib json parsers → Type 0
  Scanned s ls end =
      (total lib json parsers end ≡ total lib json parsers s ++ rows_of lib json parsers s.cache ls)
      × (end.cur_file_pos ≡ s.cur_file_pos + bytes_of ls)
      × (end.file_pos ≡ s.file_pos)
      × (end.scanned ≡ (s.scanned || some_text ls))

  after_NextIs :
      (s : Solo lib json parsers) (l : ScannedLine) (a : LineAnswers) (ls : Round)
      (rest : Solo lib json parsers → Solo lib json parsers) (st : Step lib json parsers)
      → NextIs s l.last_advance (not (is_nil l.text)) (line_rows lib json parsers s.cache l a) st
      → ((s1 : Solo lib json parsers) → Scanned s1 ls (rest s1))
      → Scanned s ((l, a) ∷ ls) (after_line_step lib json parsers rest st)
  after_NextIs s l a ls rest (next_line s1) (rows, c, cur, pos, seen) ih =
      let (more_rows, more_cur, more_pos, more_seen) = ih s1 in
      (
        more_rows
            ∙ ap (λ x. x ++ rows_of lib json parsers s1.cache ls) rows
            ∙ append_assoc (total lib json parsers s) (line_rows lib json parsers s.cache l a).0
                (rows_of lib json parsers s1.cache ls)
            ∙ ap
                (λ k.
                  total lib json parsers s
                  ++ ((line_rows lib json parsers s.cache l a).0 ++ rows_of lib json parsers k ls))
                c,
        omega arith,
        more_pos ∙ pos,
        rw (more_seen, seen) (or_assoc s.scanned (not (is_nil l.text)) (some_text ls)),
      )
  after_NextIs s l a ls rest (broken_off s1) h ih = absurd h

  pub scan_Scanned :
      (ls : Round) (s : Solo lib json parsers)
      → AllCalm ls
      → Scanned s ls (solo_scan lib json parsers ls s)
  unfolding solo_scan
  scan_Scanned [] s calm =
      (sym (append-nil (total lib json parsers s)), omega arith, refl, ground arith)
  scan_Scanned ((l, a) ∷ ls) s (first, calm) =
      after_NextIs s l a ls (solo_scan lib json parsers ls) (solo_line lib json parsers a l s)
        (line_NextIs l a s first) (λ s1. scan_Scanned ls s1 calm)

  pub ended :
      (s : Solo lib json parsers)
      → (let end =
            if not (is_nil s.entries) && true then flush_entries lib json parsers false s else s in
          (flushed_rows end.effects ≡ total lib json parsers s)
          × (end.entries ≡ [])
          × (end.file_pos ≡ s.file_pos))
  unfolding flush_entries
  ended s =
      if_splits
        (λ (end : Solo lib json parsers).
          (flushed_rows end.effects ≡ total lib json parsers s)
          × (end.entries ≡ [])
          × (end.file_pos ≡ s.file_pos))
        (not (is_nil s.entries) && true)
        (λ e. (sym (append-nil _) ∙ flush_total lib json parsers s, refl, refl))
        (λ e.
          let none_left = nil_eq s.entries e in
          (
            sym (append-nil (flushed_rows s.effects))
                ∙ ap (λ x. flushed_rows s.effects ++ x) (sym none_left),
            none_left,
            refl,
          ))

  -- If no pause begins, and every line that is not empty is JSON or begins with a brace, a round gives
  -- `flushBatch` the rows that waited and then those of its lines, in order and once each, so that no
  -- row waits behind it. The position moves behind the lines, and stays if all of them are empty.
  pub solo_round-stores :
      (ls : Round) (s : Solo lib json parsers)
      → AllCalm ls
      → (let end = solo_round lib json parsers ls false s in
          (flushed_rows end.effects
            ≡ total lib json parsers s ++ rows_of lib json parsers s.cache ls)
          × (end.entries ≡ [])
          × (end.file_pos ≡ (if some_text ls then s.file_pos + bytes_of ls else s.file_pos)))
  unfolding solo_round end_round start_round
  solo_round-stores ls s calm =
      let begun = record s { cur_file_pos = s.file_pos; scanned = false } in
      let scanned = solo_scan lib json parsers ls begun in
      let (rows, cur, pos, seen) = scan_Scanned ls begun calm in
      let moved = record scanned {
        file_pos = if scanned.scanned then scanned.cur_file_pos else scanned.file_pos;
      } in
      let (stored, none_left, same) = ended moved in
      (stored ∙ rows, none_left, same ∙ rw (seen, cur, pos) refl)
