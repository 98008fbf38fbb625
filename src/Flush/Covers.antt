-- ===== src/Flush/Covers.antt =====
-- backend/tailer/reader.go: what a pass over the file publishes.
use logmara.Prelude.{
  ℕ, suc, ◌+◌, ◌%◌, ◌==◌, ◌≡◌, refl, sym, ◌∙◌, ◌⊎◌, inl, inr, List, [], ◌∷◌, ◌++◌, arith, true,
  false, ◌&&◌, if◌then◌else◌, if_splits, is_nil, take, length, append-nil, append_assoc,
}
use logmara.Flush.Tracker.{QueueEntry, next_seq}
use logmara.Flush.Reader.{
  ScannedLine, Answers, ReaderState, ScanEnd, lines_over, broken_off, publish_failed, skip_bytes,
  mint, entry_of, sent, Step, publish_line, scan_text, scan_line, after_step, scan, read_pass,
  scan_start,
}

abbrev pub Lines : Type 0
Lines = List (ScannedLine × Answers)

-- The entries of some lines, from a number and a position on: one for each line that is not empty.
abbrev pub entries : ℕ → ℕ → Lines → List QueueEntry
entries c p [] = []
entries c p ((l, a) ∷ ls) =
    let q = p + l.last_advance in
    let skipped = entries c q ls in
    let later = entries (c + 1) q ls in
    if is_nil l.text
    then skipped
    else record { number = c + 1; next_pos = q; line = l.text } ∷ later

abbrev pub bytes : Lines → ℕ
bytes [] = 0
bytes ((l, a) ∷ ls) = l.last_advance + bytes ls

abbrev pub Encodes : Lines → Type 0
Encodes [] = Unit
Encodes ((l, a) ∷ ls) = (a.marshalled ≡ true) × Encodes ls

abbrev pub wasted : ScanEnd → ℕ
wasted publish_failed = 1
wasted broken_off = 0
wasted lines_over = 0

-- The first `k` lines, from position `p`, are in the queue, and the position is behind them.
abbrev pub Covers : Lines → ℕ → ReaderState → ScanEnd × ReaderState → ℕ → Type 0
Covers ls p s (end, s') k =
    let new = entries s.counter p (take k ls) in
    (s'.queued ≡ s.queued ++ new)
    × (s'.file_pos ≡ p + bytes (take k ls))
    × (s'.counter ≡ s.counter + length new + wasted end)

-- Nothing is published, and the position stays.
abbrev pub Nothing : ReaderState → ScanEnd × ReaderState → Type 0
Nothing s (end, s') =
    (s'.queued ≡ s.queued) × (s'.file_pos ≡ s.file_pos) × (s'.counter ≡ s.counter + wasted end)

abbrev pub ScanResult : Lines → ReaderState → ScanEnd × ReaderState → Type 0
ScanResult ls s r = ((k : ℕ) × Covers ls s.cur_file_pos s r k) ⊎ Nothing s r

after_empty :
    (l : ScannedLine) (a : Answers) (ls : Lines) (s : ReaderState) (r : ScanEnd × ReaderState)
    → is_nil l.text ≡ true
    → ScanResult ls (skip_bytes s l.last_advance) r
    → ScanResult ((l, a) ∷ ls) s r
after_empty l a ls s (end, s') e (inr same) = inr same
after_empty l a ls s (end, s') e (inl (k, (queue, pos, counter))) =
    inl (suc k, (rw e queue, omega arith, rw e counter))

after_sent :
    (l : ScannedLine) (a : Answers) (ls : Lines) (s : ReaderState) (r : ScanEnd × ReaderState)
    → is_nil l.text ≡ false
    → (let s1 = skip_bytes s l.last_advance in
        ScanResult ls (sent (mint s1) (entry_of s1 l.text)) r)
    → ScanResult ((l, a) ∷ ls) s r
unfolding next_seq
after_sent l a ls s (end, s') e (inr (queue, pos, counter)) =
    inl (1, (rw e queue, omega arith, rw e (omega arith)))
after_sent l a ls s (end, s') e (inl (k, (queue, pos, counter))) = inl (
  suc k,
  (
    rw e (queue ∙ append_assoc s.queued (entry_of (skip_bytes s l.last_advance) l.text ∷ []) _),
    omega arith,
    rw e (omega arith),
  ),
)

scan_step :
    (l : ScannedLine) (a : Answers) (ls : Lines) (s : ReaderState)
    → a.marshalled ≡ true
    → ((s1 : ReaderState) → ScanResult ls s1 (scan ls s1))
    → ScanResult ((l, a) ∷ ls) s (after_step (scan ls) (scan_line a l s))
unfolding scan_line scan_text publish_line next_seq
scan_step l a ls s m rest =
    let Good : Step → Type 0 = (λ st. ScanResult ((l, a) ∷ ls) s (after_step (scan ls) st)) in
    let s1 = skip_bytes s l.last_advance in
    let s3 = sent (mint s1) (entry_of s1 l.text) in
    if_splits Good a.paused (λ e. inr (refl, refl, omega arith))
      (λ e.
        if_splits Good (is_nil l.text) (λ e1. after_empty l a ls s (scan ls s1) e1 (rest s1))
          (λ e1.
            if_splits Good ((s.published % 100 == 0) && a.paused_in_check)
              (λ e2. inr (refl, refl, omega arith))
              (λ e2.
                if_splits Good a.marshalled
                  (λ e3.
                    if_splits Good a.publish_ok
                      (λ e4. after_sent l a ls s (scan ls s3) e1 (rest s3))
                      (λ e4. inr (refl, refl, refl)))
                  (λ e3. absurd (cc)))))

scan_lem : (ls : Lines) (s : ReaderState) → Encodes ls → ScanResult ls s (scan ls s)
unfolding scan
scan_lem [] s m = inr (refl, refl, omega arith)
scan_lem ((l, a) ∷ ls) s m = scan_step l a ls s m.0 (λ s1. scan_lem ls s1 m.1)

-- If every line is encoded, a pass leaves the following, for some number `k` of first lines: the
-- queue got the entries of the lines among these that are not empty, in order and with consecutive
-- numbers, each with the position behind its line; the file position is behind line `k`; and the
-- counter went on by the number of these entries, and by one more if a publication failed.
pub read_pass-Covers :
    (ls : Lines) (s : ReaderState)
    → Encodes ls
    → (k : ℕ) × Covers ls s.file_pos s (read_pass ls s) k
unfolding read_pass scan_start
read_pass-Covers ls s m = elim (scan_lem ls (scan_start s) m) [
  | inl found ↦ found
  | inr (queue, pos, counter) ↦ (0, (queue ∙ sym (append-nil s.queued), omega arith, omega arith))
]
