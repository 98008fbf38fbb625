-- ===== src/Files/Compact.antt =====
-- backend/tailer/tailer.go: `compactFile` and `dropTrailingIncompleteLine`.
use logmara.Prelude.{
  ℕ, suc, ◌+◌, ◌≤◌, ◌≡◌, refl, ◌⊎◌, inl, inr, Bool, true, false, Option, none, some, [], ◌∷◌, ◌++◌,
  append-nil, length, take, drop, take-append-drop, is_nil, if◌then◌else◌, if_holds, if_splits, leb,
  leb→le, ◌==◌, Text,
}
use logmara.Files.Splitter.{index_byte}
use logmara.Files.Lines.{NoNewline}

abbrev pub or_here : Bool → Option ℕ → Option ℕ
or_here here (some i) = some (suc i)
or_here here none = if here then some 0 else none

-- `bytes.LastIndexByte`.
unfoldable pub last_index : ℕ → Text → Option ℕ
last_index b [] = none
last_index b (c ∷ t) = or_here (c == b) (last_index b t)

-- `data[len(data)-1] == '\n'`.
unfoldable pub ends_line : Text → Bool
ends_line [] = false
ends_line (c ∷ []) = c == b'\n'
ends_line (c ∷ (d ∷ t)) = ends_line (d ∷ t)

abbrev pub up_to : Option ℕ → Text → Text
up_to none t = []
up_to (some i) t = take (suc i) t

unfoldable pub drop_trailing_incomplete_line : Text → Text
drop_trailing_incomplete_line t =
    if is_nil t then t else if ends_line t then t else up_to (last_index b'\n' t) t

-- The log file, the temporary file beside it, and how often rsyslog was asked to reopen the log.
pub record Disk : Type 0 where
  pub log : Text
  pub temp : Option Text
  pub reopened : ℕ

-- What the calls of one run return. `appended` is what rsyslog writes before the file is read.
pub record CompactAnswers : Type 0 where
  pub stat_ok : Bool
  pub seek_ok : Bool
  pub read_ok : Bool
  pub create_ok : Bool
  pub write_ok : Bool
  pub sync_ok : Bool
  pub close_ok : Bool
  pub rename_ok : Bool
  pub open_ok : Bool
  pub appended : Text

pub data CompactError : Type 0 where
  stat_failed seek_failed read_failed create_failed write_failed sync_failed : CompactError
  close_failed rename_failed reopen_failed : CompactError

-- The file that is returned: the one that was given, or the new one, or an error.
pub data Compacted : Type 0 where
  same_file new_file : Compacted
  compact_error : CompactError → Compacted

abbrev pub without_temp : Disk → Disk
without_temp d = record d { temp = none }

abbrev pub replaced : Bool → Text → Disk → Disk
replaced asks t d = record {
  log = t;
  temp = none;
  reopened = if asks then d.reopened + 1 else d.reopened;
}

-- From `os.Rename` on; `asks` is whether there is a `reopenLogFile` callback.
unfoldable pub swap_files : CompactAnswers → Bool → Text → Disk → Compacted × Disk
swap_files a asks t d =
    if a.rename_ok
    then (if a.open_ok
        then (new_file, replaced asks t d)
        else (compact_error reopen_failed, replaced false t d))
    else (compact_error rename_failed, without_temp d)

-- The temporary file is written. A failed call leaves none behind.
unfoldable pub write_temp : CompactAnswers → Bool → Text → Disk → Compacted × Disk
unfolding swap_files
write_temp a asks t d =
    let next = swap_files a asks t (record d { temp = some t }) in
    if a.create_ok
    then (if a.write_ok
        then (if a.sync_ok
            then (if a.close_ok then next else (compact_error close_failed, without_temp d))
            else (compact_error sync_failed, without_temp d))
        else (compact_error write_failed, without_temp d))
    else (compact_error create_failed, d)

abbrev pub append_log : Text → Disk → Disk
append_log t d = record d { log = d.log ++ t }

unfoldable pub compact_file : CompactAnswers → Bool → ℕ → Disk → Compacted × Disk
unfolding write_temp drop_trailing_incomplete_line
compact_file a asks flushed_pos d =
    let now = append_log a.appended d in
    let next = write_temp a asks (drop_trailing_incomplete_line (drop flushed_pos now.log)) now in
    if a.stat_ok
    then (if leb (length d.log) flushed_pos
        then (same_file, now)
        else (if a.seek_ok
            then (if a.read_ok then next else (compact_error read_failed, now))
            else (compact_error seek_failed, now)))
    else (compact_error stat_failed, now)

-- A text without its last line, if that is not complete.
abbrev pub Trimmed : Text → Text → Type 0
Trimmed t r = ((rest : Text) × (r ++ rest ≡ t) × NoNewline rest) × ((r ≡ []) ⊎ (ends_line r ≡ true))

abbrev Last : Text → Option ℕ → Type 0
Last t none = NoNewline t
Last t (some i) = NoNewline (drop (suc i) t) × (ends_line (take (suc i) t) ≡ true)

ends_line-cons : (c : ℕ) (t : Text) → ends_line t ≡ true → ends_line (c ∷ t) ≡ true
unfolding ends_line
ends_line-cons c [] h = absurd (cc)
ends_line-cons c (d ∷ t) h = h

last_next : (c : ℕ) (t : Text) (o : Option ℕ) → Last t o → Last (c ∷ t) (or_here (c == b'\n') o)
unfolding ends_line index_byte
last_next c t none clean =
    if_splits (Last (c ∷ t)) (c == b'\n') (λ e. (clean, e)) (λ e. rw (e, clean) refl)
last_next c t (some i) (clean, ends) = (clean, ends_line-cons c (take (suc i) t) ends)

last : (t : Text) → Last t (last_index b'\n' t)
unfolding last_index index_byte
last [] = refl
last (c ∷ t) = last_next c t (last_index b'\n' t) (last t)

up_to-Trimmed : (t : Text) (o : Option ℕ) → Last t o → Trimmed t (up_to o t)
up_to-Trimmed t none clean = ((t, refl, clean), inl refl)
up_to-Trimmed t (some i) (clean, ends) =
    ((drop (suc i) t, take-append-drop (suc i) t, clean), inr ends)

pub drop_trailing-Trimmed : (t : Text) → Trimmed t (drop_trailing_incomplete_line t)
unfolding drop_trailing_incomplete_line index_byte
drop_trailing-Trimmed [] = (([], refl, refl), inl refl)
drop_trailing-Trimmed (c ∷ t) =
    if_splits (Trimmed (c ∷ t)) (ends_line (c ∷ t)) (λ e. (([], append-nil (c ∷ t), refl), inr e))
      (λ e. up_to-Trimmed (c ∷ t) (last_index b'\n' (c ∷ t)) (last (c ∷ t)))

-- What a run does, for each outcome, to the log with the bytes that were appended to it.
abbrev pub Outcome : ℕ → ℕ → Text → Compacted → Text → Type 0
Outcome size flushed_pos before same_file after = (size ≤ flushed_pos) × (after ≡ before)
Outcome size flushed_pos before new_file after = Trimmed (drop flushed_pos before) after
Outcome size flushed_pos before (compact_error reopen_failed) after =
    Trimmed (drop flushed_pos before) after
Outcome size flushed_pos before (compact_error e) after = after ≡ before

abbrev pub CompactResult : ℕ → Disk → Text → Compacted × Disk → Type 0
CompactResult flushed_pos d appended (outcome, after) =
    Outcome (length d.log) flushed_pos (d.log ++ appended) outcome after.log
    × ((after.temp ≡ none) ⊎ (after.temp ≡ d.temp))

write_result :
    (a : CompactAnswers) (asks : Bool) (flushed_pos : ℕ) (d : Disk) (t : Text)
    → Trimmed (drop flushed_pos (d.log ++ a.appended)) t
    → CompactResult flushed_pos d a.appended (write_temp a asks t (append_log a.appended d))
unfolding write_temp swap_files
write_result a asks flushed_pos d t trimmed =
    let Good : Compacted × Disk → Type 0 = CompactResult flushed_pos d a.appended in
    if_holds Good a.create_ok
      (if_holds Good a.write_ok
        (if_holds Good a.sync_ok
          (if_holds Good a.close_ok
            (if_holds Good a.rename_ok
              (if_holds Good a.open_ok (trimmed, inl refl) (trimmed, inl refl)) (refl, inl refl))
            (refl, inl refl))
          (refl, inl refl))
        (refl, inl refl))
      (refl, inr refl)

-- On every branch of `compactFile`: it does nothing if the flushed position is at or behind the end
-- of the file; on an error before the rename is done the log is what it was, with what rsyslog
-- appended; and from the rename on (success, or the new file does not open) the log is the bytes
-- behind the flushed position without a last line that is not complete: these bytes are the new log
-- and a rest with no newline, and the new log is empty or ends with a newline. The temporary file is
-- gone or is the one that was there before.
pub compact_file-result :
    (a : CompactAnswers) (asks : Bool) (flushed_pos : ℕ) (d : Disk)
    → CompactResult flushed_pos d a.appended (compact_file a asks flushed_pos d)
unfolding compact_file
compact_file-result a asks flushed_pos d =
    let Good : Compacted × Disk → Type 0 = CompactResult flushed_pos d a.appended in
    let tail = drop flushed_pos (d.log ++ a.appended) in
    if_holds Good a.stat_ok
      (if_splits Good (leb (length d.log) flushed_pos)
        (λ e. ((leb→le (length d.log) flushed_pos e, refl), inr refl))
        (λ e.
          if_holds Good a.seek_ok
            (if_holds Good a.read_ok
              (write_result a asks flushed_pos d (drop_trailing_incomplete_line tail)
                (drop_trailing-Trimmed tail))
              (refl, inr refl))
            (refl, inr refl)))
      (refl, inr refl)
