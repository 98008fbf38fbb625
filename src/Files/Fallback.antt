-- ===== src/Files/Fallback.antt =====
-- backend/tailer/reader.go: where `dbFallbackPosition` ends.
use logmara.Prelude.{
  ℕ, zero, suc, ◌+◌, ◌<◌, ◌≡◌, subst, if◌then◌else◌, refl, ◌∙◌, ap, Bool, true, false, ◌||◌, Option,
  none, some, [], ◌∷◌, ◌++◌, length, take, drop, length-take, length-drop, is_nil, ltb, leb, ◌==◌,
  All, Text, arith,
}
use logmara.Query.Paging.{pos}
use logmara.Files.Splitter.{index_byte}
use logmara.Files.Lines.{Found, found}
use logmara.Files.Compact.{ends_line}
use logmara.Files.Resume.{
  drop_return, fallback_buffer, next_token, scan_next, after_line, fallback_scan, too_new, last_row,
  db_fallback_position, reset_if_rotated,
}

abbrev NoReturn : Text → Type 0
NoReturn t = All (λ c. (c == 13) ≡ false) t

drop_return-NoReturn : (t : Text) → NoReturn t → drop_return t ≡ t
unfolding drop_return
drop_return-NoReturn [] h = refl
drop_return-NoReturn (c ∷ t) (h, more) = rw h (ap (λ r. c ∷ r) (drop_return-NoReturn t more))

NoReturn-take : (n : ℕ) (t : Text) → NoReturn t → NoReturn (take n t)
NoReturn-take zero t h = tt
NoReturn-take (suc n) [] h = tt
NoReturn-take (suc n) (c ∷ t) (h, more) = (h, NoReturn-take n t more)

NoReturn-drop : (n : ℕ) (t : Text) → NoReturn t → NoReturn (drop n t)
NoReturn-drop zero t h = h
NoReturn-drop (suc n) [] h = tt
NoReturn-drop (suc n) (c ∷ t) (h, more) = NoReturn-drop n t more

-- A text that does not end at a newline, from the byte behind one on.
open_end-drop :
    (i : ℕ) (t : Text)
    → ends_line t ≡ false
    → i < length t
    → take i t ++ (b'\n' ∷ drop (suc i) t) ≡ t
    → (ends_line (drop (suc i) t) ≡ false) × (0 < length (drop (suc i) t))
unfolding ends_line
open_end-drop zero [] h short whole = absurd (omega arith)
open_end-drop (suc i) [] h short whole = absurd (omega arith)
open_end-drop zero (c ∷ []) h short whole =
    let newline : c ≡ b'\n' = cc in absurd (ground (arith, newline, h))
open_end-drop zero (c ∷ (d ∷ t)) h short whole = (h, omega arith)
open_end-drop (suc i) (c ∷ []) h short whole = absurd (omega arith)
open_end-drop (suc i) (c ∷ (d ∷ t)) h short whole = open_end-drop i (d ∷ t) h (omega arith) cc

ends_none : (newer : Text → Bool) (fuel n : ℕ) → fallback_scan newer fuel n [] ≡ n
unfolding fallback_scan scan_next index_byte
ends_none newer zero n = refl
ends_none newer (suc fuel) n = refl

-- The token fulfils the test, and so does the rest.
abbrev pub FirstAndRest : (Text → Type 0) → (Text → Bool) → Option (Text × Text) → Type 0
FirstAndRest rest newer none = Unit
FirstAndRest rest newer (some (line, left)) = (newer line ≡ false) × rest left

-- None of the first lines of the text, as the scanner finds them, is newer: so many of them as the
-- fuel says.
unfoldable pub NoneNewer : (Text → Bool) → ℕ → Text → Type 0
NoneNewer newer zero t = Unit
NoneNewer newer (suc fuel) t = FirstAndRest (NoneNewer newer fuel) newer (scan_next t)

-- No line is newer, none has a carriage return, and the last one is not complete.
abbrev Open : (Text → Bool) → ℕ → Text → Type 0
Open newer fuel t =
    NoneNewer newer fuel t
    × NoReturn t
    × (ends_line t ≡ false)
    × (0 < length t)
    × (length t < fallback_buffer)

not_nil : (t : Text) → 0 < length t → (c : ℕ) × (rest : Text) × (t ≡ c ∷ rest)
not_nil [] h = absurd (omega arith)
not_nil (c ∷ t) h = (c, t, refl)

token_step :
    (newer : Text → Bool) (fuel n : ℕ) (t : Text) (o : Option ℕ)
    → FirstAndRest (NoneNewer newer fuel) newer (next_token t o)
    → NoReturn t
    → ends_line t ≡ false
    → 0 < length t
    → length t < fallback_buffer
    → Found b'\n' fallback_buffer t o
    → ((m : ℕ) (s : Text)
        → Open newer fuel s
        → length s < length t
        → fallback_scan newer fuel m s ≡ m + length s + 1)
    → after_line (fallback_scan newer fuel) newer n (next_token t o) ≡ n + length t + 1
token_step newer fuel n t none old clean no_end some_byte small f ih =
    let (c, rest, cons) = not_nil t some_byte in
    let test : (is_nil t || leb fallback_buffer (length t)) ≡ false = ground (arith, cons) in
    let first : newer (drop_return t) ≡ false =
      (subst
        (λ b.
          FirstAndRest (NoneNewer newer fuel) newer (if b then none else some (drop_return t, [])))
        test old).0 in
    rw (test, first, drop_return-NoReturn t clean, ends_none newer fuel (n + (length t + 1)))
      (omega arith)
token_step newer fuel n t (some i) (first, old) clean no_end some_byte small
      (whole, same, before, short) ih =
    let rest = drop (suc i) t in
    let (open_rest, left) = open_end-drop i t no_end short whole in
    let size = length-drop (suc i) t in
    let line = length-take i t in
    rw (first, drop_return-NoReturn (take i t) (NoReturn-take i t clean))
      (ih (n + (length (take i t) + 1)) rest
          (old, NoReturn-drop (suc i) t clean, open_rest, left, omega arith) (omega arith)
        ∙ omega arith)

scan_step :
    (newer : Text → Bool) (fuel n : ℕ) (t : Text)
    → Open newer fuel t
    → length t < fuel
    → fallback_scan newer fuel n t ≡ n + length t + 1
unfolding fallback_scan scan_next NoneNewer
scan_step newer zero n t h k = absurd (omega arith)
scan_step newer (suc fuel) n t (old, clean, no_end, some_byte, small) k =
    token_step newer fuel n t (index_byte b'\n' (take fallback_buffer t)) old clean no_end some_byte
      small (found b'\n' fallback_buffer t)
      (λ m s o short. scan_step newer fuel m s o (omega arith))

-- The bug: if the log ends with a line that is not complete, and no line of it is later than the last
-- row of the database (or has no timestamp), the position of the fallback is one behind the end of the
-- file, so that the reader takes the file for a rotated one and starts again at 0. (The file is
-- shorter than the scanner's buffer here, and has no carriage return.)
pub fallback_overshoots :
    (stamp : Text → Option ℕ) (ts : ℕ) (t : Text)
    → NoneNewer (too_new stamp ts) (suc (length t)) t
    → All (λ c. (c == 13) ≡ false) t
    → ends_line t ≡ false
    → 0 < length t
    → length t < fallback_buffer
    → (db_fallback_position stamp (last_row ts) (some t) ≡ length t + 1)
      × (reset_if_rotated (length t) (pos (db_fallback_position stamp (last_row ts) (some t)))
          ≡ pos 0)
unfolding db_fallback_position reset_if_rotated
fallback_overshoots stamp ts t old clean no_end some_byte small =
    let newer = too_new stamp ts in
    let last : fallback_scan newer (suc (length t)) 0 t ≡ length t + 1 =
      scan_step newer (suc (length t)) 0 t (old, clean, no_end, some_byte, small) (omega arith)
      ∙ omega arith in
    let behind : ltb (length t) (length t + 1) ≡ true = ground arith in
    (last, rw (last, behind) refl)
