-- ===== src/Files/Start.antt =====
-- backend/tailer/reader.go: where `loadStartPositionFromReader` starts.
use logmara.Prelude.{
  ℕ, ◌≤◌, ◌≡◌, refl, ap, ◌⊎◌, inl, inr, Bool, true, ◌&&◌, Option, none, some, ◌++◌, Bool-cases,
  length, length-append, if_splits, leb, Text, text_beq→eq, arith,
}
use logmara.Query.Paging.{ℤ, pos, max_int}
use logmara.Files.Position.{
  position_fingerprint, Saved, SaveAnswers, save_tailer_position, save_position, load_position,
  load_tailer_position,
}
use logmara.Files.Resume.{
  LastRow, le_size, same_fingerprint, still_valid, fallback_with, or_else, load_start_position,
}
use logmara.Files.Restore.{load-printed, beq_refl, fingerprint_grown, fingerprint_some}

saved_valid :
    (digest : Text → Text) (t more fp : Text) (n : ℕ)
    → n ≤ length t
    → position_fingerprint digest (some t) (pos n) ≡ some fp
    → still_valid digest (some (t ++ more)) (some (pos n, fp)) ≡ some (pos n)
unfolding still_valid
saved_valid digest t more fp n h known =
    let fits : leb n (length (t ++ more)) ≡ true = ground (arith, length-append t more) in
    rw (fits, fingerprint_grown digest t more n h, known, beq_refl fp) refl

-- If position `n` within the log file, below 2^63, is saved, with the calls of the file system
-- answered, and those of Redis where there is a client, then a start with the same client finds
-- it again, whatever was appended to the file since.
pub load_start_position-save_position :
    (digest : Text → Text) (stamp : Text → Option ℕ) (a : SaveAnswers) (db : Option LastRow)
    (t more : Text) (n : ℕ) (s : Saved)
    → n ≤ length t
    → n ≤ max_int
    → a.write_ok ≡ true
    → a.rename_ok ≡ true
    → (a.has_client ≡ true → a.set_ok ≡ true)
    → load_start_position digest stamp a.has_client db
        (some (t ++ more))
        (save_position digest a (some t) n s)
      ≡ pos n
unfolding load_start_position save_position save_tailer_position load_tailer_position still_valid
load_start_position-save_position digest stamp a db t more n s inside small write rename set =
    let (fp, known, kept) = fingerprint_some digest t n inside in
    elim (Bool-cases a.has_client) [
      | inl client ↦
          rw (known, write, rename, client, set client, saved_valid digest t more fp n inside known)
            refl
      | inr alone ↦
          rw
            (
              known,
              write,
              rename,
              alone,
              load-printed n fp small kept,
              saved_valid digest t more fp n inside known,
            )
            refl
    ]

-- A loaded position that the file confirms.
abbrev pub Trusted : (Text → Text) → Option Text → Option (ℤ × Text) → ℤ → Type 0
Trusted digest file loaded p =
    (t : Text) × (fp : Text) × (file ≡ some t)
    × (loaded ≡ some (p, fp))
    × (le_size p (length t) ≡ true)
    × (position_fingerprint digest (some t) p ≡ some fp)

abbrev Checked : (Text → Text) → Option Text → Option (ℤ × Text) → Option ℤ → Type 0
Checked digest file loaded none = Unit
Checked digest file loaded (some p) = Trusted digest file loaded p

both : (a b : Bool) → (a && b) ≡ true → (a ≡ true) × (b ≡ true)
both a b h = (ground arith, ground arith)

same_lem : (fp : Text) (o : Option Text) → same_fingerprint fp o ≡ true → o ≡ some fp
same_lem fp none h = absurd (cc)
same_lem fp (some now) h = ap (λ x. some x) (text_beq→eq now fp h)

still_valid-Checked :
    (digest : Text → Text) (file : Option Text) (loaded : Option (ℤ × Text))
    → Checked digest file loaded (still_valid digest file loaded)
unfolding still_valid
still_valid-Checked digest none none = tt
still_valid-Checked digest (some t) none = tt
still_valid-Checked digest none (some (p, fp)) = tt
still_valid-Checked digest (some t) (some (p, fp)) =
    if_splits (Checked digest (some t) (some (p, fp)))
      (le_size p (length t) && same_fingerprint fp (position_fingerprint digest (some t) p))
      (λ e.
        let same = position_fingerprint digest (some t) p in
        let (fits, match) = both (le_size p (length t)) (same_fingerprint fp same) e in
        (t, fp, refl, refl, fits, same_lem fp same match))
      (λ e. tt)

abbrev pub Origin :
    (Text → Text) → Option Text → Option (ℤ × Text) → Option (ℤ × Text) → ℕ → ℤ → Type 0
Origin digest file in_redis in_file fallback p =
    Trusted digest file in_redis p ⊎ (Trusted digest file in_file p ⊎ (p ≡ pos fallback))

origin :
    (digest : Text → Text) (file : Option Text) (in_redis in_file : Option (ℤ × Text))
    (fallback : ℕ) (first second : Option ℤ)
    → Checked digest file in_redis first
    → Checked digest file in_file second
    → Origin digest file in_redis in_file fallback (or_else first (or_else second (pos fallback)))
origin digest file in_redis in_file fallback (some p) second h k = inl h
origin digest file in_redis in_file fallback none (some p) h k = inr (inl k)
origin digest file in_redis in_file fallback none none h k = inr (inr refl)

-- The start position is the one in Redis, the one in the position file, or that of the fallback on
-- the database. One of the first two is taken only if the log file opens, the position is not behind
-- its end, and the bytes before the position have the saved fingerprint.
pub load_start_position-Origin :
    (digest : Text → Text) (stamp : Text → Option ℕ) (has_client : Bool) (db : Option LastRow)
    (file : Option Text) (s : Saved)
    → Origin digest file
        (load_tailer_position has_client s.redis)
        (load_position s.pos_file)
        (fallback_with stamp file db)
        (load_start_position digest stamp has_client db file s)
unfolding load_start_position
load_start_position-Origin digest stamp has_client db file s =
    let in_redis = load_tailer_position has_client s.redis in
    let in_file = load_position s.pos_file in
    origin digest file in_redis in_file (fallback_with stamp file db)
      (still_valid digest file in_redis) (still_valid digest file in_file)
      (still_valid-Checked digest file in_redis) (still_valid-Checked digest file in_file)
