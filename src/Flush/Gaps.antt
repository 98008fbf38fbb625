-- ===== src/Flush/Gaps.antt =====
-- backend/tailer/reader.go: the number that a failed publication leaves unused.
use logmara.Prelude.{
  ℕ, ◌+◌, ◌≤◌, ◌<◌, ◌≡◌, ap, ◌⊎◌, inl, inr, List, [], ◌∷◌, ◌++◌, arith, if_holds, subst,
  Option-cases, is_nil, take, length,
}
use logmara.Flush.Hash.{seq, RedisHash}
use logmara.Flush.Contiguous.{Reports, Present, IsExact}
use logmara.Flush.Progress.{stored, stored-Absent}
use logmara.Flush.Tracker.{QueueEntry}
use logmara.Flush.Covers.{Lines, entries, Encodes, wasted, read_pass-Covers}
use logmara.Flush.Reader.{ReaderState, publish_failed, read_pass}

-- Passes one after the other.
abbrev pub read_passes : List Lines → ReaderState → ReaderState
read_passes [] s = s
read_passes (ls ∷ lss) s = read_passes lss (read_pass ls s).1

abbrev pub EncodesAll : List Lines → Type 0
EncodesAll [] = Unit
EncodesAll (ls ∷ lss) = Encodes ls × EncodesAll lss

Reports-append :
    (n : ℕ) (es fs : List QueueEntry) → Reports n (es ++ fs) → Reports n es ⊎ Reports n fs
Reports-append n [] fs r = inr r
Reports-append n (e ∷ es) fs (inl eq) = inl (inl eq)
Reports-append n (e ∷ es) fs (inr r) = elim (Reports-append n es fs r) [
  | inl a ↦ inl (inr a)
  | inr b ↦ inr b
]

-- The numbers of the entries lie above the counter.
Reports-entries :
    (n c p : ℕ) (ls : Lines)
    → Reports n (entries c p ls)
    → (c < n) × (n ≤ c + length (entries c p ls))
Reports-entries n c p [] = λ r. absurd r
Reports-entries n c p ((l, a) ∷ ls) =
    let q = p + l.last_advance in
    if_holds (λ es. Reports n es → (c < n) × (n ≤ c + length es)) (is_nil l.text)
      (λ r. Reports-entries n c q ls r)
      (λ r. elim r [
        | inl eq ↦ (omega arith, omega arith)
        | inr later ↦
            let bounds = Reports-entries n (c + 1) q ls later in (omega arith, omega arith)
      ])

-- A number that was minted and is in no entry.
abbrev pub Lost : ℕ → ReaderState → Type 0
Lost n s = (Reports n s.queued → ⊥) × (n ≤ s.counter)

Lost-pass :
    (n : ℕ) (ls : Lines) (s : ReaderState) → Encodes ls → Lost n s → Lost n (read_pass ls s).1
Lost-pass n ls s m (unqueued, minted) =
    let (k, (queue, pos, counter)) = read_pass-Covers ls s m in
    (
      λ r. elim (Reports-append n s.queued _ (subst (λ es. Reports n es) queue r)) [
        | inl old ↦ unqueued old
        | inr new ↦
            let bounds = Reports-entries n s.counter s.file_pos (take k ls) new in omega arith
      ],
      omega arith,
    )

Lost-passes :
    (n : ℕ) (lss : List Lines) (s : ReaderState)
    → EncodesAll lss
    → Lost n s
    → Lost n (read_passes lss s)
Lost-passes n [] s m lost = lost
Lost-passes n (ls ∷ lss) s m lost =
    Lost-passes n lss (read_pass ls s).1 m.1 (Lost-pass n ls s m.0 lost)

failed-Lost :
    (ls : Lines) (s : ReaderState)
    → Encodes ls
    → ((n : ℕ) → Reports n s.queued → n ≤ s.counter)
    → (read_pass ls s).0 ≡ publish_failed
    → (0 < (read_pass ls s).1.counter) × Lost (read_pass ls s).1.counter (read_pass ls s).1
failed-Lost ls s m bounded failed =
    let (k, (queue, pos, counter)) = read_pass-Covers ls s m in
    let n = (read_pass ls s).1.counter in
    let one = ap wasted failed in
    (
      omega arith,
      (
        λ r. elim (Reports-append n s.queued _ (subst (λ es. Reports n es) queue r)) [
          | inl old ↦ let bound = bounded n old in omega arith
          | inr new ↦
              let bounds = Reports-entries n s.counter s.file_pos (take k ls) new in omega arith
        ],
        omega arith,
      ),
    )

-- If a pass ends with a failed publication, then after it and any further passes, in a hash that is
-- exact and holds only numbers of queued entries, the flushed number is below the one minted for
-- the failed publication: however many lines are published and reported later, it never gets there.
pub failed_publish_freezes :
    (redis : RedisHash) (ls : Lines) (lss : List Lines) (s : ReaderState) (h : redis.Hash)
    → Encodes ls
    → EncodesAll lss
    → ((n : ℕ) → Reports n s.queued → n ≤ s.counter)
    → (read_pass ls s).0 ≡ publish_failed
    → IsExact redis h
    → ((n : ℕ) → Present redis n h → Reports n (read_passes lss (read_pass ls s).1).queued)
    → stored redis h < (read_pass ls s).1.counter
failed_publish_freezes redis ls lss s h m ms bounded failed exact held =
    let n = (read_pass ls s).1.counter in
    let (pos, now) = failed-Lost ls s m bounded failed in
    let lost = Lost-passes n lss (read_pass ls s).1 ms now in
    stored-Absent redis h n exact pos (elim (Option-cases (redis.hget (seq n) h)) [
      | inl e ↦ e
      | inr p ↦ absurd (lost.0 (held n p))
    ])
