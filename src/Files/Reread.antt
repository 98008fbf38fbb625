-- ===== src/Files/Reread.antt =====
-- backend/tailer/reader.go: the pass of the reader behind a compaction that left the file as it is.
use logmara.Prelude.{
  ℕ, ◌≤◌, ◌≡◌, refl, sym, ◌∙◌, ap, drop, Bool, true, false, ◌&&◌, ◌||◌, [], ◌∷◌, ◌++◌, length,
  append-nil, append_assoc, is_nil, if_splits, ltb, leb, ◌-◌, ◌/◌, ◌==◌, ◌%◌, answered, arith,
}
use logmara.Flush.Tracker.{next_seq}
use logmara.Flush.Reader.{
  ReaderState, Step, skip_bytes, mint, entry_of, sent, publish_line, scan_text, scan_line,
  after_step, scan, scan_start, read_pass,
}
use logmara.Flush.Covers.{Lines, entries}
use logmara.Files.Splitter.{scan_file}
use logmara.Files.Pass.{tokens}
use logmara.Files.Compact.{compact_file}
use logmara.Files.Cycle.{
  CycleState, CycleAnswers, flushed_pos_of, should_compact, enough_flushed, compaction,
  compact_cycle,
}
use logmara.Files.CycleResult.{grown}

-- No pause is noticed, and every line is encoded and published.
abbrev pub AllPublished : Lines → Type 0
AllPublished [] = Unit
AllPublished ((l, a) ∷ ls) =
    ((a.paused ≡ false)
      × (a.paused_in_check ≡ false)
      × (a.marshalled ≡ true)
      × (a.publish_ok ≡ true))
    × AllPublished ls

scan-queues :
    (ls : Lines) (s : ReaderState)
    → AllPublished ls
    → (scan ls s).1.queued ≡ s.queued ++ entries s.counter s.cur_file_pos ls
unfolding scan scan_line scan_text publish_line next_seq
scan-queues [] s h = sym (append-nil s.queued)
scan-queues ((l, a) ∷ ls) s ((running, unpaused, encoded, published), more) =
    let skipped = skip_bytes s l.last_advance in
    let queued = sent (mint skipped) (entry_of skipped l.text) in
    let Good : Step → Type 0 = (λ st.
      (after_step (scan ls) st).1.queued
      ≡ s.queued ++ entries s.counter s.cur_file_pos ((l, a) ∷ ls)) in
    if_splits Good a.paused (λ e. absurd (cc))
      (λ e.
        if_splits Good (is_nil l.text) (λ e1. rw e1 (scan-queues ls skipped more))
          (λ e1.
            if_splits Good ((s.published % 100 == 0) && a.paused_in_check)
              (λ e2. absurd (ground (arith, unpaused)))
              (λ e2.
                if_splits Good a.marshalled
                  (λ e3.
                    if_splits Good a.publish_ok
                      (λ e4. rw e1 (
                        scan-queues ls queued more
                        ∙ append_assoc s.queued (entry_of skipped l.text ∷ []) _))
                      (λ e4. absurd (cc)))
                  (λ e3. absurd (cc)))))

-- The reader behind a cycle.
abbrev pub reader_of : CycleState → ReaderState
reader_of s = record {
  file_pos = s.file_pos;
  cur_file_pos = s.file_pos;
  published = 0;
  publish_retries = 0;
  counter = s.counter;
  queued = s.queue;
}

quarter : (n : ℕ) → 4 ≤ n → (ltb 0 n && ltb 0 n && (ltb n n || ltb (n - n) (n / 4))) ≡ true
quarter n h = ground arith

-- The whole file is flushed, and a compaction of it is due and can be tried.
pub record IsDueAndFlushed (a : CycleAnswers) (s : CycleState) : Type 0 where
  pub due : should_compact a s ≡ true
  pub flushed_read : a.flushed ≡ answered
  pub drained : a.drained ≡ true
  pub stat_ok : a.compact.stat_ok ≡ true
  pub size : a.file_size ≡ length s.disk.log
  pub all_flushed : a.file_size ≡ s.flushed_pos
  pub four : 4 ≤ a.file_size

starts_over :
    (a : CycleAnswers) (asks : Bool) (s : CycleState)
    → IsDueAndFlushed a s
    → ((compact_cycle a asks s).1.file_pos ≡ 0) × ((compact_cycle a asks s).1.disk.log ≡ grown a s)
unfolding compact_cycle compaction compact_file flushed_pos_of
starts_over a asks s h =
    let enough : enough_flushed a.file_size s.flushed_pos ≡ true =
      unfold enough_flushed in rw (sym h.all_flushed) (quarter a.file_size h.four) in
    let all_flushed = h.all_flushed in
    let size = h.size in
    let whole : leb (length s.disk.log) s.flushed_pos ≡ true = ground arith in
    rw (h.due, h.flushed_read, enough, h.drained, h.stat_ok, whole) (refl, refl)

-- The bug: if the whole file is flushed when a compaction is due, `compactFile` leaves the file as it
-- is, but the reader starts again at position 0 of it. A pass behind that, in which no pause is noticed
-- and every line is encoded and published, queues an entry for every line of the file that is not
-- empty, also for those that are flushed.
pub flushed_file_read_again :
    (a : CycleAnswers) (asks : Bool) (s : CycleState) (ls : Lines)
    → IsDueAndFlushed a s
    → tokens ls ≡ scan_file (grown a s)
    → AllPublished ls
    → (let after = (compact_cycle a asks s).1 in
        (after.disk.log ≡ grown a s)
        × (tokens ls ≡ scan_file (drop after.file_pos after.disk.log))
        × ((read_pass ls (reader_of after)).1.queued ≡ after.queue ++ entries after.counter 0 ls))
unfolding read_pass scan_start
flushed_file_read_again a asks s ls h lines published =
    let after = (compact_cycle a asks s).1 in
    let (start, log) = starts_over a asks s h in
    (
      log,
      lines ∙ sym (ap (λ t. scan_file t) (ap (λ n. drop n after.disk.log) start ∙ log)),
      scan-queues ls (scan_start (reader_of after)) published
          ∙ ap (λ p. after.queue ++ entries after.counter p ls) start,
    )
