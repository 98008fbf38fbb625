-- ===== src/Solo/Rows.antt =====
-- backend/tailer/tailer.go: the rows of a line, and what becomes of them in the batch.
use logmara.Prelude.{
  ℕ, ◌+◌, ◌-◌, ◌≡◌, refl, sym, ◌∙◌, ap, Bool, true, false, ◌&&◌, ◌||◌, not, Option, none, some,
  List, [], ◌∷◌, ◌++◌, append_assoc, append-nil, length, is_nil, if◌then◌else◌, if_holds, leb, Text,
  arith,
}
use logmara.Parser.Cache.{RegexpLib, Cache}
use logmara.Parser.Engine.{Parser}
use logmara.Flush.Reader.{ScannedLine}
use logmara.Worker.Row.{LogRow, JsonLib, sanitize_row, malformed_row, fix_misparse, parse_row}
use logmara.Worker.Loop.{batch_size, batch_interval}
use logmara.Solo.Loop.{
  LineAnswers, SoloEffect, flushed, saved, malformed_line, SoloState, SoloStep, flush_entries,
  add_entry, take_row,
}

-- The rows given to `flushBatch`, in order.
abbrev pub flushed_rows : List SoloEffect → List LogRow
flushed_rows [] = []
flushed_rows (flushed rs ∷ es) = rs ++ flushed_rows es
flushed_rows (saved p ∷ es) = flushed_rows es
flushed_rows (malformed_line t ∷ es) = flushed_rows es

pub flushed_rows-append :
    (es fs : List SoloEffect) → flushed_rows (es ++ fs) ≡ flushed_rows es ++ flushed_rows fs
flushed_rows-append [] fs = refl
flushed_rows-append (flushed rs ∷ es) fs =
    ap (λ x. rs ++ x) (flushed_rows-append es fs)
    ∙ sym (append_assoc rs (flushed_rows es) (flushed_rows fs))
flushed_rows-append (saved p ∷ es) fs = flushed_rows-append es fs
flushed_rows-append (malformed_line t ∷ es) fs = flushed_rows-append es fs

abbrev pub Round : Type 0
Round = List (ScannedLine × LineAnswers)

abbrev pub bytes_of : Round → ℕ
bytes_of [] = 0
bytes_of ((l, a) ∷ ls) = l.last_advance + bytes_of ls

pub nil_eq : (rs : List LogRow) → (not (is_nil rs) && true) ≡ false → rs ≡ []
nil_eq [] h = refl
nil_eq (r ∷ rs) h = absurd (cc)

pub or_assoc : (a b c : Bool) → ((a || b) || c) ≡ (a || (b || c))
or_assoc a b c = ground arith

module _ (lib : RegexpLib) (json : JsonLib) (parsers : List Parser) where
  abbrev pub Solo : Type 0
  Solo = SoloState lib json parsers

  abbrev pub Step : Type 0
  Step = SoloStep lib json parsers

  -- The row that a decoded line is stored as, if it is.
  abbrev pub row_result : Cache lib → LogRow → List LogRow × Cache lib
  row_result c r =
      let clean = sanitize_row r in
      let (parsed, c1) = parse_row lib parsers (fix_misparse clean) c in
      if is_nil clean.hostname then ([], c) else (parsed ∷ [], c1)

  abbrev pub raw_row : Text → Text → Option LogRow → LogRow
  raw_row now line (some r) = r
  raw_row now line none = malformed_row json now line

  abbrev pub line_rows : Cache lib → ScannedLine → LineAnswers → List LogRow × Cache lib
  line_rows c l a =
      let rows = row_result c (raw_row a.now_text l.text (json.line l.text)) in
      if is_nil l.text then ([], c) else rows

  -- The rows of some lines.
  abbrev pub rows_of : Cache lib → Round → List LogRow
  rows_of c [] = []
  rows_of c ((l, a) ∷ ls) = (line_rows c l a).0 ++ rows_of (line_rows c l a).1 ls

  -- The rows that are stored or wait.
  abbrev pub total : Solo → List LogRow
  total s = flushed_rows s.effects ++ s.entries

  pub flush_total : (s : Solo) → total (flush_entries lib json parsers false s) ≡ total s
  unfolding flush_entries
  flush_total s =
      let es = s.effects ++ flushed s.entries ∷ [] in
      append-nil (flushed_rows (es ++ saved s.cur_file_pos ∷ []))
      ∙ flushed_rows-append es (saved s.cur_file_pos ∷ [])
      ∙ append-nil (flushed_rows es)
      ∙ flushed_rows-append s.effects (flushed s.entries ∷ [])
      ∙ ap (λ x. flushed_rows s.effects ++ x) (append-nil s.entries)

  -- A change that adds some rows, sets the cache, and leaves the positions.
  abbrev pub Adds : Solo → List LogRow × Cache lib → Solo → Type 0
  Adds s (rows, c) s1 =
      (total s1 ≡ total s ++ rows)
      × (s1.cache ≡ c)
      × (s1.cur_file_pos ≡ s.cur_file_pos)
      × (s1.file_pos ≡ s.file_pos)
      × (s1.scanned ≡ s.scanned)

  pub Adds-if :
      (test : Bool) (s : Solo) (x y : List LogRow × Cache lib) (s1 s2 : Solo)
      → Adds s x s1
      → Adds s y s2
      → Adds s (if test then x else y) (if test then s1 else s2)
  Adds-if true s x y s1 s2 h k = h
  Adds-if false s x y s1 s2 h k = k

  pub add_Adds :
      (a : LineAnswers) (r : LogRow) (s : Solo)
      → a.paused_at_flush ≡ false
      → Adds s (r ∷ [], s.cache) (add_entry lib json parsers a r s)
  unfolding add_entry flush_entries
  add_Adds a r s calm =
      let batch = record s { entries = s.entries ++ r ∷ [] } in
      let more : total batch ≡ total s ++ r ∷ [] =
        sym (append_assoc (flushed_rows s.effects) s.entries (r ∷ [])) in
      if_holds (Adds s (r ∷ [], s.cache))
        (leb batch_size (length batch.entries) || leb batch_interval (a.now - s.last_flush))
        (rw calm (flush_total batch ∙ more, refl, refl, refl, refl)) (more, refl, refl, refl, refl)

  pub take_Adds :
      (a : LineAnswers) (r : LogRow) (s : Solo)
      → a.paused_at_flush ≡ false
      → Adds s (row_result s.cache r) (take_row lib json parsers a r s)
  unfolding take_row
  take_Adds a r s calm =
      let clean = sanitize_row r in
      let (parsed, c1) = parse_row lib parsers (fix_misparse clean) s.cache in
      Adds-if (is_nil clean.hostname) s ([], s.cache) (parsed ∷ [], c1) s
        (add_entry lib json parsers a parsed (record s { cache = c1 }))
        (sym (append-nil (total s)), refl, refl, refl, refl)
        (add_Adds a parsed (record s { cache = c1 }) calm)
