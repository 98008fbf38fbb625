-- ===== src/Files/Splitter.antt =====
-- backend/tailer/tailer.go: `lineSplitter.split`, and Go's bufio.Scanner with it. The scanner's
-- buffer has room for `maxLineSize` bytes, and it stops when `split` takes nothing of what is left.
use logmara.Prelude.{
  ℕ, zero, suc, ◌+◌, ◌*◌, ◌==◌, leb, Option, none, some, List, [], ◌∷◌, length, take, drop,
  if◌then◌else◌, Text,
}
use logmara.Flush.Reader.{ScannedLine}

abbrev pub next_index : Option ℕ → Option ℕ
next_index none = none
next_index (some i) = some (suc i)

-- `bytes.IndexByte`.
unfoldable pub index_byte : ℕ → Text → Option ℕ
index_byte b [] = none
index_byte b (c ∷ t) = if c == b then some 0 else next_index (index_byte b t)

abbrev pub max_line_size : ℕ
max_line_size = 10 * 1024 * 1024

abbrev pub cut : ℕ → Text → Option ℕ → Option (ℕ × Text)
cut limit t (some i) = some (i + 1, take i t)
cut limit t none = if leb limit (length t) then some (limit, take limit t) else none

-- `split` with a limit: the bytes taken and the token, or nothing. `lastAdvance` is the former.
unfoldable pub split_with : ℕ → Text → Option (ℕ × Text)
split_with limit t = cut limit t (index_byte b'\n' t)

unfoldable pub split_line : Text → Option (ℕ × Text)
unfolding split_with
split_line t = split_with max_line_size t

abbrev pub token_then : (Text → List ScannedLine) → Text → Option (ℕ × Text) → List ScannedLine
token_then rest t none = []
token_then rest t (some (n, token)) = record { text = token; last_advance = n } ∷ rest (drop n t)

-- The tokens of a text, on fuel: a token takes at least one byte.
unfoldable pub scan_tokens : ℕ → ℕ → Text → List ScannedLine
scan_tokens limit zero t = []
scan_tokens limit (suc fuel) t =
    token_then (scan_tokens limit fuel) t (split_with limit (take limit t))

unfoldable pub scan_file : Text → List ScannedLine
scan_file t = scan_tokens max_line_size (suc (length t)) t
