-- ===== src/Files/Resume.antt =====
-- backend/tailer/reader.go: `loadStartPositionFromReader` and `dbFallbackPosition`.
use logmara.Prelude.{
  ℕ, zero, suc, ◌+◌, ◌*◌, Bool, true, false, ◌&&◌, ◌||◌, Option, none, some, [], ◌∷◌, length, take,
  drop, is_nil, if◌then◌else◌, ltb, leb, ◌==◌, Text, text_beq,
}
use logmara.Query.Paging.{ℤ, pos, negsuc}
use logmara.Files.Splitter.{index_byte}
use logmara.Files.Position.{position_fingerprint, Saved, load_position, load_tailer_position}

-- A token of `bufio.ScanLines`: a carriage return at the end of a line is dropped.
unfoldable pub drop_return : Text → Text
drop_return [] = []
drop_return (c ∷ t) = let rest = drop_return t in if (c == 13) && is_nil t then [] else c ∷ rest

abbrev pub fallback_buffer : ℕ
fallback_buffer = 1024 * 1024

-- What is scanned next, and what is left; at the end of the file the rest is a token too. A text
-- with no newline in the buffer's size stops the scan.
abbrev pub next_token : Text → Option ℕ → Option (Text × Text)
next_token t (some i) = some (drop_return (take i t), drop (suc i) t)
next_token t none =
    if is_nil t || leb fallback_buffer (length t) then none else some (drop_return t, [])

unfoldable pub scan_next : Text → Option (Text × Text)
scan_next t = next_token t (index_byte b'\n' (take fallback_buffer t))

-- `stamp` reads the timestamp of a line (`json.Unmarshal`, then `parseTimestamp`), and `none` is an
-- error of either. A line that is later than the last one in the database ends the loop.
abbrev pub too_new : (Text → Option ℕ) → ℕ → Text → Bool
too_new stamp last_ts line = elim (stamp line) [ none ↦ false | some ts ↦ ltb last_ts ts ]

abbrev pub after_line : (ℕ → Text → ℕ) → (Text → Bool) → ℕ → Option (Text × Text) → ℕ
after_line rest newer n none = n
after_line rest newer n (some (line, left)) =
    if newer line then n else rest (n + (length line + 1)) left

-- The loop, on fuel: a token takes at least one byte.
unfoldable pub fallback_scan : (Text → Bool) → ℕ → ℕ → Text → ℕ
fallback_scan newer zero n t = n
fallback_scan newer (suc fuel) n t = after_line (fallback_scan newer fuel) newer n (scan_next t)

-- The answer of the database: an error, no row, or the time of the last row.
pub data LastRow : Type 0 where
  query_failed no_rows : LastRow
  last_row : ℕ → LastRow

abbrev pub fallback_on : (Text → Bool) → Option Text → ℕ
fallback_on newer none = 0
fallback_on newer (some t) = fallback_scan newer (suc (length t)) 0 t

unfoldable pub db_fallback_position : (Text → Option ℕ) → LastRow → Option Text → ℕ
db_fallback_position stamp query_failed file = 0
db_fallback_position stamp no_rows file = 0
db_fallback_position stamp (last_row ts) file = fallback_on (too_new stamp ts) file

abbrev pub le_size : ℤ → ℕ → Bool
le_size (pos n) size = leb n size
le_size (negsuc n) size = true

abbrev pub same_fingerprint : Text → Option Text → Bool
same_fingerprint fp none = false
same_fingerprint fp (some now) = text_beq now fp

-- A loaded position, if it is not behind the end of the file and the bytes before it are the same.
unfoldable pub still_valid : (Text → Text) → Option Text → Option (ℤ × Text) → Option ℤ
still_valid digest file none = none
still_valid digest none (some (p, fp)) = none
still_valid digest (some t) (some (p, fp)) =
    if le_size p (length t) && same_fingerprint fp (position_fingerprint digest (some t) p)
    then some p
    else none

unfoldable pub fallback_with : (Text → Option ℕ) → Option Text → Option LastRow → ℕ
unfolding db_fallback_position
fallback_with stamp file none = 0
fallback_with stamp file (some answer) = db_fallback_position stamp answer file

abbrev pub or_else : Option ℤ → ℤ → ℤ
or_else (some p) other = p
or_else none other = other

-- The position that both results of `loadStartPositionFromReader` have; `db` is `none` where the
-- program has no database.
unfoldable pub load_start_position :
    (Text → Text) → (Text → Option ℕ) → Bool → Option LastRow → Option Text → Saved → ℤ
load_start_position digest stamp has_client db file s =
    or_else (still_valid digest file (load_tailer_position has_client s.redis)) (
      or_else (still_valid digest file (load_position s.pos_file))
        (pos (fallback_with stamp file db)))

-- The check against the size of the file that the reader opens: a position behind its end is taken
-- for one in a file that was rotated.
unfoldable pub reset_if_rotated : ℕ → ℤ → ℤ
reset_if_rotated size (negsuc n) = negsuc n
reset_if_rotated size (pos n) = if ltb size n then pos 0 else pos n
