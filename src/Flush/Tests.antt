-- ===== src/Flush/Tests.antt =====
-- Runs of the flush tracker and of the publishing loop, on a hash that is a function.
use logmara.Prelude.{
  answered, failed_before, failed_after, ℕ, ◌<◌, ◌≡◌, refl, ◌⊎◌, ◌↔◌, inl, inr, Option, none, some,
  List, [], ◌∷◌, arith, true, false,
}
use logmara.Flush.Tracker.{
  QueueEntry, store_reported, advance, script, report_flushed, get_flushed_pos,
  get_flushed_pos_reply, report_flushed_reply, next_seq,
}
use logmara.Flush.Contiguous.{Reports, Present, IsExact}
use logmara.Flush.Progress.{After, stored, report_flushed-IsExact}
use logmara.Flush.Reader.{
  ScannedLine, Answers, ReaderState, publish_failed, scan_line, scan_text, publish_line, scan,
  read_pass, scan_start,
}
use logmara.Flush.Covers.{Lines}
use logmara.Flush.Gaps.{read_passes, failed_publish_freezes}
use logmara.Flush.Memory.{Memory, memory}

abbrev first : QueueEntry
first = record { number = 1; next_pos = 10; line = 97 ∷ [] }

abbrev second : QueueEntry
second = record { number = 2; next_pos = 20; line = 98 ∷ [] }

abbrev fresh : Memory
fresh f = none

fresh-IsExact : IsExact memory fresh
fresh-IsExact = record { filled = λ n pos le. absurd (omega arith); ends = refl }

abbrev position : Option ((ℕ × ℕ) × Memory) → Option (ℕ × ℕ)
position none = none
position (some (r, h)) = some r

abbrev report_next : List QueueEntry → Option ((ℕ × ℕ) × Memory) → Option ((ℕ × ℕ) × Memory)
report_next es none = none
report_next es (some (r, h)) = report_flushed memory 5 es h

-- A number that is reported early waits for those before it.
out_of_order_test :
    (position (report_flushed memory 5 (second ∷ []) fresh) ≡ some (0, 0))
    × (position (report_next (first ∷ []) (report_flushed memory 5 (second ∷ []) fresh))
        ≡ some (2, 20))
unfolding report_flushed script advance store_reported
out_of_order_test = (refl, refl)

-- A report whose script ran, but whose answer was lost, is an error, and is in the hash all the same.
abbrev values : Option (Option (ℕ × ℕ) × Memory) → Option (ℕ × ℕ)
values none = none
values (some (v, h)) = v

abbrev left_in : Option (Option (ℕ × ℕ) × Memory) → Memory
left_in none = fresh
left_in (some (v, h)) = h

lost_answer_test :
    (let r = report_flushed_reply memory failed_after 5 (first ∷ []) fresh in
      (values r ≡ none)
      × (get_flushed_pos_reply memory answered (left_in r) ≡ (1, 10))
      × (get_flushed_pos_reply memory failed_before (left_in r) ≡ (0, 0)))
unfolding report_flushed_reply get_flushed_pos_reply get_flushed_pos script advance store_reported
lost_answer_test = (refl, refl, refl)

not_three : Reports 3 (second ∷ first ∷ []) → ⊥
not_three r = elim r [ inl e ↦ omega arith | inr (inl e) ↦ omega arith | inr (inr x) ↦ absurd x ]

abbrev two_reports :
    (r : ℕ × ℕ) × (h : Memory) × (report_flushed memory 5 (second ∷ first ∷ []) fresh ≡ some (r, h))
    × After memory (second ∷ first ∷ []) fresh r h
two_reports =
    report_flushed-IsExact memory 5 second (first ∷ []) fresh 3 fresh-IsExact (omega arith)
      (omega arith) refl not_three

report_flushed-IsExact_example :
    (r : ℕ × ℕ) × (h : Memory) × (report_flushed memory 5 (second ∷ first ∷ []) fresh ≡ some (r, h))
    × After memory (second ∷ first ∷ []) fresh r h
report_flushed-IsExact_example =
    report_flushed-IsExact memory 5 second (first ∷ []) fresh 3 fresh-IsExact (omega arith)
      (omega arith) refl not_three

not_three_again : Reports 3 (first ∷ second ∷ first ∷ []) → ⊥
not_three_again r = elim r [
  | inl e ↦ omega arith
  | inr (inl e) ↦ omega arith
  | inr (inr (inl e)) ↦ omega arith
  | inr (inr (inr x)) ↦ absurd x
]

abbrev three_reports :
    (r : ℕ × ℕ) × (h : Memory) × (report_flushed memory 5 (first ∷ second ∷ first ∷ []) fresh
      ≡ some (r, h))
    × After memory (first ∷ second ∷ first ∷ []) fresh r h
three_reports =
    report_flushed-IsExact memory 5 first (second ∷ first ∷ []) fresh 3 fresh-IsExact (omega arith)
      (omega arith) refl not_three_again

iff_join : {A B C D : Type 0} → A ↔ B → B ↔ C → D ↔ C → A ↔ D
iff_join f g h = (λ a. h.1 (g.0 (f.0 a)), λ d. f.1 (g.1 (h.0 d)))

abbrev Early : ℕ → Type 0
Early n = Reports n (second ∷ first ∷ []) ⊎ Present memory n fresh

abbrev Repeated : ℕ → Type 0
Repeated n = Reports n (first ∷ second ∷ first ∷ []) ⊎ Present memory n fresh

same_reports : (n : ℕ) → Early n ↔ Repeated n
same_reports n = (
  λ x. elim x [ inl r ↦ inl (inr r) | inr p ↦ inr p ],
  λ x. elim x [ inl (inl e) ↦ inl (inr (inl e)) | inl (inr r) ↦ inl r | inr p ↦ inr p ],
)

abbrev quiet : Answers
quiet = record { paused = false; paused_in_check = false; marshalled = true; publish_ok = true }

abbrev broker_down : Answers
broker_down = record quiet { publish_ok = false }

abbrev line_of : ℕ → ScannedLine
line_of c = record { text = c ∷ []; last_advance = 2 }

abbrev first_pass : Lines
first_pass =
    (line_of 97, quiet)
    ∷ (record { text = []; last_advance = 1 }, quiet)
    ∷ (line_of 98, broker_down)
    ∷ (line_of 99, quiet)
    ∷ []

abbrev second_pass : Lines
second_pass = (line_of 98, quiet) ∷ (line_of 99, quiet) ∷ []

abbrev at_start : ReaderState
at_start = record {
  file_pos = 0;
  cur_file_pos = 0;
  published = 0;
  publish_retries = 0;
  counter = 0;
  queued = [];
}

pass_test :
    ((read_pass first_pass at_start).0 ≡ publish_failed)
    × ((read_pass first_pass at_start).1.file_pos ≡ 2)
    × ((read_passes (second_pass ∷ []) (read_pass first_pass at_start).1).queued
        ≡ record { number = 1; next_pos = 2; line = 97 ∷ [] }
          ∷ record { number = 3; next_pos = 4; line = 98 ∷ [] }
          ∷ record { number = 4; next_pos = 6; line = 99 ∷ [] }
          ∷ [])
unfolding read_pass scan_start scan scan_line scan_text publish_line next_seq
pass_test = (refl, refl, refl)

abbrev queue_rest : List QueueEntry
queue_rest =
    record { number = 3; next_pos = 4; line = 98 ∷ [] }
    ∷ record { number = 4; next_pos = 6; line = 99 ∷ [] }
    ∷ []

abbrev queue_head : QueueEntry
queue_head = record { number = 1; next_pos = 2; line = 97 ∷ [] }

queue_lem :
    (read_passes (second_pass ∷ []) (read_pass first_pass at_start).1).queued
    ≡ queue_head ∷ queue_rest
unfolding read_pass scan_start scan scan_line scan_text publish_line next_seq
queue_lem = refl

ends_failed : (read_pass first_pass at_start).0 ≡ publish_failed
unfolding read_pass scan_start scan scan_line scan_text publish_line next_seq
ends_failed = refl

not_two : Reports 2 (queue_head ∷ queue_rest) → ⊥
not_two r = elim r [
  | inl e ↦ omega arith
  | inr (inl e) ↦ omega arith
  | inr (inr (inl e)) ↦ omega arith
  | inr (inr (inr x)) ↦ absurd x
]

-- Everything that was published is reported.
abbrev all_reported :
    (r : ℕ × ℕ) × (h : Memory) × (report_flushed memory 5 (queue_head ∷ queue_rest) fresh
      ≡ some (r, h))
    × After memory (queue_head ∷ queue_rest) fresh r h
all_reported =
    report_flushed-IsExact memory 5 queue_head queue_rest fresh 2 fresh-IsExact (omega arith)
      (omega arith) refl not_two

only_queued :
    (n : ℕ)
    → Present memory n all_reported.1
    → Reports n (read_passes (second_pass ∷ []) (read_pass first_pass at_start).1).queued
only_queued n p =
    rw queue_lem (elim ((all_reported.3.3 n).0 p) [ inl r ↦ r | inr (q, e) ↦ absurd (cc) ])

failed_publish_freezes_example :
    stored memory all_reported.1 < (read_pass first_pass at_start).1.counter
failed_publish_freezes_example =
    failed_publish_freezes memory first_pass (second_pass ∷ []) at_start all_reported.1
      (refl, (refl, (refl, (refl, tt)))) ((refl, (refl, tt)), tt) (λ n r. absurd r) ends_failed
      all_reported.3.1 (λ n p. only_queued n p)
