-- ===== src/Files/Pass.antt =====
-- backend/tailer/reader.go with tailer.go: a pass of the reader over a file, whose lines are those
-- that the scanner makes of it from the reader's position on.
use logmara.Prelude.{
  take_front, drop_front, take_plus, drop_plus, ℕ, zero, suc, ◌+◌, ◌≡◌, refl, sym, ◌∙◌, ap, ◌⊎◌,
  inl, inr, Bool, true, false, List, [], ◌∷◌, ◌++◌, append_assoc, append-nil, length, take, drop,
  length-append, if◌then◌else◌, if_splits, is_nil, ◌==◌, All, Text, arith,
}
use logmara.Flush.Tracker.{QueueEntry}
use logmara.Flush.Reader.{ScannedLine, ReaderState, read_pass}
use logmara.Flush.Covers.{Lines, entries, bytes, Encodes, Covers, read_pass-Covers}
use logmara.Files.Splitter.{max_line_size, scan_file}
use logmara.Files.Lines.{line_bytes, joined, IsLine, scan_file-Splits}

abbrev pub tokens : Lines → List ScannedLine
tokens [] = []
tokens ((l, a) ∷ ls) = l ∷ tokens ls

line_bytes-length :
    (limit : ℕ) (l : ScannedLine) → IsLine limit l → length (line_bytes l) ≡ l.last_advance
unfolding line_bytes
line_bytes-length limit l (clean, inl ended) =
    let differ : (l.last_advance == length l.text) ≡ false = ground arith in
    rw differ (length-append l.text (b'\n' ∷ []) ∙ omega arith)
line_bytes-length limit l (clean, inr (cut_off, full)) =
    let same : (l.last_advance == length l.text) ≡ true = ground arith in rw same (omega arith)

-- The bytes of a file up to some position end with the line of the entry, and perhaps a newline.
abbrev pub EndsAt : Text → QueueEntry → Type 0
EndsAt file e =
    (front : Text) × ((take e.next_pos file ≡ front ++ e.line)
      ⊎ (take e.next_pos file ≡ front ++ (e.line ++ (b'\n' ∷ []))))

-- Some lines stand in the file from position `p` on.
abbrev Stand : Text → ℕ → Lines → Type 0
Stand file p ls =
    (take (p + bytes ls) file ≡ take p file ++ joined (tokens ls))
    × ((c : ℕ) → All (EndsAt file) (entries c p ls))

line_EndsAt :
    (file front : Text) (l : ScannedLine) (e : QueueEntry)
    → e.line ≡ l.text
    → take e.next_pos file ≡ front ++ line_bytes l
    → EndsAt file e
unfolding line_bytes
line_EndsAt file front l e same h = (front, line_end (l.last_advance == length l.text) h)
  where
    line_end :
        (full : Bool)
        → take e.next_pos file ≡ front ++ (if full then l.text else l.text ++ (b'\n' ∷ []))
        → (take e.next_pos file ≡ front ++ e.line)
          ⊎ (take e.next_pos file ≡ front ++ (e.line ++ (b'\n' ∷ [])))
    line_end true k = inl (rw same k)
    line_end false k = inr (rw same k)

stand :
    (limit : ℕ) (file : Text) (p : ℕ) (ls : Lines) (rest : Text)
    → All (IsLine limit) (tokens ls)
    → joined (tokens ls) ++ rest ≡ drop p file
    → Stand file p ls
unfolding joined
stand limit file p [] rest lines h =
    let here : p + 0 ≡ p = omega arith in
    (ap (λ n. take n file) here ∙ sym (append-nil (take p file)), λ c. tt)
stand limit file p ((l, a) ∷ ls) rest (line, lines) h =
    let n = l.last_advance in
    let size : length (line_bytes l) ≡ n = line_bytes-length limit l line in
    let more = joined (tokens ls) ++ rest in
    let left : line_bytes l ++ more ≡ drop p file =
      sym (append_assoc (line_bytes l) (joined (tokens ls)) rest) ∙ h in
    let first : take n (drop p file) ≡ line_bytes l =
      rw (sym left) (take_front n (line_bytes l) more size) in
    let behind : drop n (drop p file) ≡ more =
      rw (sym left) (drop_front n (line_bytes l) more size) in
    let start : take (p + n) file ≡ take p file ++ line_bytes l =
      take_plus p n file ∙ ap (λ r. take p file ++ r) first in
    let (whole, ends) = stand limit file (p + n) ls rest lines (sym behind ∙ drop_plus p n file) in
    let sum : p + (n + bytes ls) ≡ (p + n) + bytes ls = omega arith in
    (
      ap (λ m. take m file) sum
          ∙ whole
          ∙ ap (λ r. r ++ joined (tokens ls)) start
          ∙ append_assoc (take p file) (line_bytes l) (joined (tokens ls)),
      λ c.
          if_splits (All (EndsAt file)) (is_nil l.text) (λ e. ends c)
            (λ e. (
              line_EndsAt file (take p file) l
                  (record { number = c + 1; next_pos = p + n; line = l.text }) refl start,
              ends (c + 1),
            )),
    )

-- The first lines of a split text, with what is behind them.
first_lines :
    (limit k : ℕ) (ls : Lines) (rest : Text)
    → All (IsLine limit) (tokens ls)
    → (end : Text) × (All (IsLine limit) (tokens (take k ls))
        × (joined (tokens (take k ls)) ++ end ≡ joined (tokens ls) ++ rest))
unfolding joined
first_lines limit zero ls rest lines = (joined (tokens ls) ++ rest, (tt, refl))
first_lines limit (suc k) [] rest lines = (rest, (tt, refl))
first_lines limit (suc k) ((l, a) ∷ ls) rest (line, lines) =
    let (end, (front, same)) = first_lines limit k ls rest lines in
    (
      end,
      (
        (line, front),
        append_assoc (line_bytes l) (joined (tokens (take k ls))) end
            ∙ ap (λ r. line_bytes l ++ r) same
            ∙ sym (append_assoc (line_bytes l) (joined (tokens ls)) rest),
      ),
    )

-- A pass of the reader over a file, whose lines are those that the scanner makes of the file from
-- the reader's position on, ends behind some number `k` of these lines, if every line is encoded:
-- it queues the entries of these lines that are not empty, in order; the bytes of the file from the
-- old position to the new one are these lines, so none is left out and none is read in part; and
-- the position of each new entry is the one behind its line in the file.
pub read_pass-reads :
    (file : Text) (s : ReaderState) (ls : Lines)
    → tokens ls ≡ scan_file (drop s.file_pos file)
    → Encodes ls
    → (k : ℕ) × (Covers ls s.file_pos s (read_pass ls s) k
        × (take (read_pass ls s).1.file_pos file
            ≡ take s.file_pos file ++ joined (tokens (take k ls)))
        × All (EndsAt file) (entries s.counter s.file_pos (take k ls)))
read_pass-reads file s ls same encodes =
    let (k, covers) = read_pass-Covers ls s encodes in
    let (rest, (lines, whole, clean, short)) = scan_file-Splits (drop s.file_pos file) in
    let (end, (front, split)) = first_lines max_line_size k ls rest (rw same lines) in
    let (read, ends) =
      stand max_line_size file s.file_pos (take k ls) end front (split ∙ rw same whole) in
    (k, (covers, rw covers.1 read, ends s.counter))
