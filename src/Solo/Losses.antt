-- ===== src/Solo/Losses.antt =====
-- backend/tailer/tailer.go: the line at which `runIngestionLoop` breaks a round off.
use logmara.Prelude.{
  ℕ, ◌+◌, ◌≡◌, refl, ◌∙◌, ap, ◌⊎◌, inl, inr, Bool, true, false, ◌&&◌, not, none, if◌then◌else◌,
  subst, sym, List, [], ◌∷◌, ◌++◌, is_nil, codes, has_prefix,
}
use logmara.Parser.Cache.{RegexpLib, Cache}
use logmara.Parser.Engine.{Parser}
use logmara.Flush.Reader.{ScannedLine}
use logmara.Worker.Row.{LogRow, JsonLib}
use logmara.Solo.Loop.{
  flush_entries, LineAnswers, next_line, broken_off, solo_line, after_line_step, solo_scan,
  end_round, start_round, solo_round,
}
use logmara.Solo.Rows.{Round, bytes_of, Solo, Step, flush_total, line_rows, rows_of, total}
use logmara.Solo.Passes.{AllCalm, some_text, NextIs, line_NextIs, scan_Scanned}

module _ (lib : RegexpLib) (json : JsonLib) (parsers : List Parser) where
  -- A pause is noticed at the line, or the line is one that the code takes for a partial write.
  abbrev pub Breaks : ScannedLine → LineAnswers → Type 0
  Breaks l a =
      (a.paused ≡ true)
      ⊎ ((a.paused ≡ false)
          × (is_nil l.text ≡ false)
          × (json.line l.text ≡ none)
          × (has_prefix l.text (codes "{") ≡ false))

  -- The loop ends behind the line, and no row is taken.
  abbrev BrokenOff : Solo lib json parsers → ℕ → Step lib json parsers → Type 0
  BrokenOff s n (next_line s1) = ⊥
  BrokenOff s n (broken_off s1) =
      (total lib json parsers s1 ≡ total lib json parsers s)
      × (s1.cur_file_pos ≡ s.cur_file_pos + n)
      × (s.scanned ≡ true → s1.scanned ≡ true)

  line_BrokenOff :
      (l : ScannedLine) (a : LineAnswers) (s : Solo lib json parsers)
      → Breaks l a
      → BrokenOff s l.last_advance (solo_line lib json parsers a l s)
  unfolding solo_line
  line_BrokenOff l a s (inl paused) = rw paused (refl, refl, λ h. h)
  line_BrokenOff l a s (inr (running, text, bad, no_brace)) =
      rw (running, text, bad, no_brace) (refl, refl, λ h. refl)

  after_break :
      (s : Solo lib json parsers) (n : ℕ) (st : Step lib json parsers)
      → BrokenOff s n st
      → (let end = after_line_step lib json parsers (λ r. r) st in
          (total lib json parsers end ≡ total lib json parsers s)
          × (end.cur_file_pos ≡ s.cur_file_pos + n)
          × (s.scanned ≡ true → end.scanned ≡ true))
  after_break s n (next_line s1) h = absurd h
  after_break s n (broken_off s1) h = h

  next_append :
      (s : Solo lib json parsers) (n : ℕ) (b : Bool) (rows : List LogRow × Cache lib)
      (st : Step lib json parsers) (first whole : Solo lib json parsers → Solo lib json parsers)
      (rest : Solo lib json parsers → Solo lib json parsers)
      → NextIs lib json parsers s n b rows st
      → ((s1 : Solo lib json parsers) → whole s1 ≡ rest (first s1))
      → after_line_step lib json parsers whole st ≡ rest (after_line_step lib json parsers first st)
  next_append s n b rows (next_line s1) first whole rest h ih = ih s1
  next_append s n b rows (broken_off s1) first whole rest h ih = absurd h

  scan-append :
      (ls more : Round) (s : Solo lib json parsers)
      → AllCalm lib json parsers ls
      → solo_scan lib json parsers (ls ++ more) s
        ≡ solo_scan lib json parsers more (solo_scan lib json parsers ls s)
  unfolding solo_scan
  scan-append [] more s calm = refl
  scan-append ((l, a) ∷ ls) more s (first, calm) =
      next_append s l.last_advance (not (is_nil l.text)) (line_rows lib json parsers s.cache l a)
        (solo_line lib json parsers a l s) (solo_scan lib json parsers ls)
        (solo_scan lib json parsers (ls ++ more)) (solo_scan lib json parsers more)
        (line_NextIs lib json parsers l a s first) (λ s1. scan-append ls more s1 calm)

  -- The last flush of a round moves rows, and neither drops one nor moves the position.
  end_total :
      (flush : Bool) (s : Solo lib json parsers)
      → (let end = if flush then flush_entries lib json parsers false s else s in
          (total lib json parsers end ≡ total lib json parsers s) × (end.file_pos ≡ s.file_pos))
  unfolding flush_entries
  end_total true s = (flush_total lib json parsers s, refl)
  end_total false s = (refl, refl)

  end_round-total :
      (paused : Bool) (s : Solo lib json parsers)
      → s.scanned ≡ true
      → (total lib json parsers (end_round lib json parsers paused s) ≡ total lib json parsers s)
        × ((end_round lib json parsers paused s).file_pos ≡ s.cur_file_pos)
  unfolding end_round
  end_round-total paused s seen =
      let moved = record s { file_pos = if s.scanned then s.cur_file_pos else s.file_pos } in
      let (kept, there) = end_total (not (is_nil s.entries) && not paused) moved in
      (kept, there ∙ ap (λ b. if b then s.cur_file_pos else s.file_pos) seen)

  -- The bug: if a round breaks off at a line (a pause is noticed there, or the line is no JSON and
  -- does not begin with a brace), the position moves behind that line all the same, although only the
  -- rows of the lines before it are stored or wait: it is not read again, and lost. This is so whether
  -- or not ingestion is paused at the end of the round. (Before it is some line that is not empty, and
  -- the lines before it do not break the round.)
  pub broken_off_line_lost :
      (ls : Round) (l : ScannedLine) (a : LineAnswers) (paused : Bool) (s : Solo lib json parsers)
      → AllCalm lib json parsers ls
      → some_text lib json parsers ls ≡ true
      → Breaks l a
      → (let end = solo_round lib json parsers (ls ++ (l, a) ∷ []) paused s in
          (end.file_pos ≡ s.file_pos + bytes_of ls + l.last_advance)
          × (total lib json parsers end
              ≡ total lib json parsers s ++ rows_of lib json parsers s.cache ls))
  unfolding solo_round start_round solo_scan
  broken_off_line_lost ls l a paused s calm text breaks =
      let begun = record s { cur_file_pos = s.file_pos; scanned = false } in
      let before = solo_scan lib json parsers ls begun in
      let (rows, cur, pos, seen) = scan_Scanned lib json parsers ls begun calm in
      let step = solo_line lib json parsers a l before in
      let (same, moved, still) =
        after_break before l.last_advance step (line_BrokenOff l a before breaks) in
      let whole = scan-append ls ((l, a) ∷ []) begun calm in
      let last = after_line_step lib json parsers (λ r. r) step in
      let (kept, there) = end_round-total paused last (still (seen ∙ text)) in
      let Lost : Solo lib json parsers → Type 0 = (λ end.
        (end.file_pos ≡ s.file_pos + bytes_of ls + l.last_advance)
        × (total lib json parsers end
            ≡ total lib json parsers s ++ rows_of lib json parsers s.cache ls)) in
      subst (λ z. Lost (end_round lib json parsers paused z)) (sym whole)
        (there ∙ moved ∙ ap (λ n. n + l.last_advance) cur, kept ∙ same ∙ rows)
