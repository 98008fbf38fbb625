-- ===== src/Files/Lines.antt =====
-- backend/tailer/tailer.go: the lines that the scanner makes of a file are the file.
use logmara.Prelude.{
  take_all, ℕ, zero, suc, ◌+◌, ◌<◌, ◌≤◌, ◌≡◌, refl, sym, ◌∙◌, ap, ◌⊎◌, inl, inr, true, false,
  Option, none, some, List, [], ◌∷◌, ◌++◌, append_assoc, length, take, drop, length-take,
  length-drop, take-append-drop, if◌then◌else◌, if_splits, leb, ◌==◌, ==_iff, leb→le, All, Text,
  arith,
}
use logmara.Flush.Reader.{ScannedLine}
use logmara.Files.Splitter.{
  next_index, index_byte, max_line_size, cut, split_with, token_then, scan_tokens, scan_file,
}

abbrev pub NoNewline : Text → Type 0
NoNewline t = index_byte b'\n' t ≡ none

-- The bytes that a line takes in the file.
unfoldable pub line_bytes : ScannedLine → Text
line_bytes l = if l.last_advance == length l.text then l.text else l.text ++ (b'\n' ∷ [])

unfoldable pub joined : List ScannedLine → Text
joined [] = []
joined (l ∷ ls) = line_bytes l ++ joined ls

-- A line without a newline, that ended at one or was cut at the limit.
abbrev pub IsLine : ℕ → ScannedLine → Type 0
IsLine limit l =
    NoNewline l.text
    × ((l.last_advance ≡ length l.text + 1) ⊎ ((l.last_advance ≡ limit) × (length l.text ≡ limit)))

-- Where the byte is found in the first `limit` bytes.
abbrev pub Found : ℕ → ℕ → Text → Option ℕ → Type 0
Found b limit t none = Unit
Found b limit t (some i) =
    (take i t ++ (b ∷ drop (suc i) t) ≡ t)
    × (take i (take limit t) ≡ take i t)
    × (index_byte b (take i t) ≡ none)
    × (i < length t)

Found-next :
    (b c limit : ℕ) (t : Text) (o : Option ℕ)
    → (c == b) ≡ false
    → Found b limit t o
    → Found b (suc limit) (c ∷ t) (next_index o)
unfolding index_byte
Found-next b c limit t none e ih = tt
Found-next b c limit t (some i) e (whole, same, before, short) =
    (ap (λ r. c ∷ r) whole, ap (λ r. c ∷ r) same, rw (e, before) refl, omega arith)

pub found : (b limit : ℕ) (t : Text) → Found b limit t (index_byte b (take limit t))
unfolding index_byte
found b zero t = tt
found b (suc limit) [] = tt
found b (suc limit) (c ∷ t) =
    if_splits (Found b (suc limit) (c ∷ t)) (c == b)
      (λ e. (ap (λ n. n ∷ t) (sym ((==_iff c b).0 e)), refl, refl, omega arith))
      (λ e. Found-next b c limit t (index_byte b (take limit t)) e (found b limit t))

-- What one call of `split` makes of the text that is left.
abbrev TokenPiece : ℕ → Text → Option (ℕ × Text) → Type 0
TokenPiece limit t none = NoNewline t × (length t < limit)
TokenPiece limit t (some (n, token)) =
    let l : ScannedLine = record { text = token; last_advance = n } in
    IsLine limit l × (line_bytes l ++ drop n t ≡ t) × (0 < n) × (n ≤ length t)

line_piece :
    (limit i : ℕ) (t : Text)
    → Found b'\n' limit t (some i)
    → TokenPiece limit t (some (i + 1, take i (take limit t)))
unfolding line_bytes
line_piece limit i t (whole, same, before, short) =
    let size : length (take i t) ≡ i = omega (arith, length-take i t) in
    let differ : ((i + 1) == length (take i t)) ≡ false = ground arith in
    let one : i + 1 ≡ suc i = omega arith in
    let next : take i t ++ (b'\n' ∷ drop (i + 1) t) ≡ take i t ++ (b'\n' ∷ drop (suc i) t) =
      ap (λ n. take i t ++ (b'\n' ∷ drop n t)) one in
    rw same (
      (before, inl (omega arith)),
      rw differ (append_assoc (take i t) (b'\n' ∷ []) (drop (i + 1) t) ∙ next ∙ whole),
      omega arith,
      omega arith,
    )

rest_piece :
    (limit : ℕ) (t : Text)
    → index_byte b'\n' (take limit t) ≡ none
    → 0 < limit
    → TokenPiece limit t (
        if leb limit (length (take limit t)) then some (limit, take limit (take limit t)) else none)
unfolding line_bytes
rest_piece limit t h pos =
    let size = length-take limit t in
    if_splits (TokenPiece limit t) (leb limit (length (take limit t)))
      (λ e.
        let full = leb→le limit (length (take limit t)) e in
        let all_of : take limit (take limit t) ≡ take limit t =
          take_all limit (take limit t) (omega arith) in
        let same_size : (limit == length (take limit t)) ≡ true = ground arith in
        rw all_of
          ((h, inr (refl, omega arith)), rw same_size (take-append-drop limit t), pos, omega arith))
      (λ e.
        let short : length t < limit = ground (arith) in
        (rw (sym (take_all limit t (omega arith))) h, short))

piece :
    (limit : ℕ) (t : Text) (o : Option ℕ)
    → index_byte b'\n' (take limit t) ≡ o
    → 0 < limit
    → Found b'\n' limit t o
    → TokenPiece limit t (cut limit (take limit t) o)
piece limit t none h pos f = rest_piece limit t h pos
piece limit t (some i) h pos f = line_piece limit i t f

-- All lines are lines, and their bytes with a rest behind them are the text. The rest is the last
-- line, which is not complete: it has no newline and is shorter than the limit.
abbrev pub Splits : ℕ → Text → List ScannedLine → Type 0
Splits limit t ls =
    (rest : Text) × (All (IsLine limit) ls
      × (joined ls ++ rest ≡ t)
      × NoNewline rest
      × (length rest < limit))

then_lines :
    (limit : ℕ) (t : Text) (o : Option (ℕ × Text)) (rest : Text → List ScannedLine)
    → TokenPiece limit t o
    → ((n : ℕ) → 0 < n → n ≤ length t → Splits limit (drop n t) (rest (drop n t)))
    → Splits limit t (token_then rest t o)
unfolding joined
then_lines limit t none rest (none_left, short) ih = (t, (tt, refl, none_left, short))
then_lines limit t (some (n, token)) rest (line, whole, pos, short) ih =
    let (end, (lines, bytes, clean, small)) = ih n pos short in
    let first = line_bytes (record { text = token; last_advance = n }) in
    (
      end,
      (
        (line, lines),
        append_assoc first (joined (rest (drop n t))) end ∙ ap (λ r. first ++ r) bytes ∙ whole,
        clean,
        small,
      ),
    )

scan_tokens_lem :
    (limit fuel : ℕ) (t : Text)
    → 0 < limit
    → length t < fuel
    → Splits limit t (scan_tokens limit fuel t)
unfolding scan_tokens split_with
scan_tokens_lem limit zero t pos h = absurd (omega arith)
scan_tokens_lem limit (suc fuel) t pos h =
    then_lines limit t (split_with limit (take limit t)) (scan_tokens limit fuel)
      (piece limit t (index_byte b'\n' (take limit t)) refl pos (found b'\n' limit t))
      (λ n p q. scan_tokens_lem limit fuel (drop n t) pos (omega (arith, length-drop n t)))

-- The lines that the scanner makes of a file are lines: none has a newline, and each ended at one
-- or was cut at `maxLineSize` bytes. The bytes that they take are the file without the last line, if
-- that is not complete: what is left behind them has no newline and is shorter than `maxLineSize`.
pub scan_file-Splits : (t : Text) → Splits max_line_size t (scan_file t)
unfolding scan_file
scan_file-Splits t = scan_tokens_lem max_line_size (suc (length t)) t (omega arith) (omega arith)
