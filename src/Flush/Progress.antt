-- ===== src/Flush/Progress.antt =====
-- backend/sharedstate/flushtracker.go: what a report leaves in the hash, and that the flushed
-- number depends on nothing but the set of the reported numbers.
use logmara.Prelude.{
  ℕ, suc, ◌+◌, ◌≤◌, ◌<◌, ◌≡◌, sym, ap, ◌∙◌, ◌⊎◌, inl, inr, ◌↔◌, some, List, ◌∷◌, arith, subst,
  Option-cases,
}
use logmara.Flush.Hash.{flushed_seq, flushed_pos, seq, RedisHash}
use logmara.Flush.Tracker.{
  QueueEntry, or_zero, store_reported, persist, persist?, script, report_flushed, get_flushed_pos,
}
use logmara.Flush.Contiguous.{
  Reports, Present, Absent, IsExact, advance_lem, store_reported-Present,
}

up_to_or_above : (n s : ℕ) → (n ≤ s) ⊎ (s < n)
up_to_or_above n s = omega arith

module _ (redis : RedisHash) where
  open redis use {Hash, empty, hget, hset, hsetnx, hget-hset_self, hget-hset_ne}

  -- The number stored as flushed.
  abbrev pub stored : Hash → ℕ
  stored h = or_zero (hget flushed_seq h)

  persist-number :
      (n : ℕ) (h : Hash) (r : ℕ × ℕ) → hget (seq n) (persist redis h r).1 ≡ hget (seq n) h
  persist-number n h (s, p) =
      hget-hset_ne flushed_pos (seq n) p (hset flushed_seq s h) (λ e. cc)
      ∙ hget-hset_ne flushed_seq (seq n) s h (λ e. cc)

  persist-stored : (h : Hash) (r : ℕ × ℕ) → stored (persist redis h r).1 ≡ r.0
  persist-stored h (s, p) = ap or_zero (
      hget-hset_ne flushed_pos flushed_seq p (hset flushed_seq s h) (λ e. cc)
      ∙ hget-hset_self flushed_seq s h)

  -- The state after a report: the stored number is the one returned, the hash is exact again, the
  -- number has not gone back, and the present numbers are those before and those reported.
  abbrev pub After : List QueueEntry → Hash → ℕ × ℕ → Hash → Type 0
  After es h r h' =
      (stored h' ≡ r.0)
      × IsExact redis h'
      × (stored h ≤ stored h')
      × ((n : ℕ) → Present redis n h' ↔ (Reports n es ⊎ Present redis n h))

  filled_after :
      (h h1 : Hash) (s s' : ℕ)
      → ((n : ℕ) → 0 < n → n ≤ s → Present redis n h)
      → ((n : ℕ) → Present redis n h → Present redis n h1)
      → ((n : ℕ) → s < n → n ≤ s' → Present redis n h1)
      → (n : ℕ) → 0 < n
      → n ≤ s'
      → Present redis n h1
  filled_after h h1 s s' before kept run n pos le = elim (up_to_or_above n s) [
    | inl low ↦ kept n (before n pos low)
    | inr high ↦ run n high le
  ]

  -- Persisting an end of the loop makes the hash exact.
  persist-IsExact :
      (h1 : Hash) (s' p' : ℕ)
      → ((n : ℕ) → 0 < n → n ≤ s' → Present redis n h1)
      → Absent redis (suc s') h1
      → IsExact redis (persist redis h1 (s', p')).1
  persist-IsExact h1 s' p' run end =
      let now = persist-stored h1 (s', p') in
      record {
        filled = λ n pos le.
            let (q, eq) = run n pos (subst (λ m. n ≤ m) now le) in
            (q, persist-number n h1 (s', p') ∙ eq);
        ends =
            subst (λ m. Absent redis (suc m) (persist redis h1 (s', p')).1) (sym now)
              (persist-number (suc s') h1 (s', p') ∙ end);
      }

  persist-Present :
      (n : ℕ) (h1 : Hash) (r : ℕ × ℕ) (A : Type 0)
      → Present redis n h1 ↔ A
      → Present redis n (persist redis h1 r).1 ↔ A
  persist-Present n h1 r A both = (
    λ p. both.0 (p.0, sym (persist-number n h1 r) ∙ p.1),
    λ a. ((both.1 a).0, persist-number n h1 r ∙ (both.1 a).1),
  )

  script_lem :
      (fuel : ℕ) (es : List QueueEntry) (h : Hash) (gap : ℕ)
      → IsExact redis h
      → stored h < gap
      → gap ≤ stored h + fuel
      → Absent redis gap (store_reported redis es h)
      → (r : ℕ × ℕ) × (h' : Hash) × (script redis fuel es h ≡ some (r, h')) × After es h r h'
  unfolding script
  script_lem fuel es h gap exact lt fits absent =
      let h1 = store_reported redis es h in
      let (s', p', eq, le, below, run, end) =
        advance_lem redis fuel h1 (stored h) (or_zero (hget flushed_pos h)) gap lt fits absent in
      let now = persist-stored h1 (s', p') in
      (
        (s', p'),
        (persist redis h1 (s', p')).1,
        ap (persist? redis h1) eq,
        (
          now,
          persist-IsExact h1 s' p'
              (filled_after h h1 (stored h) s' exact.filled
                (λ n p. (store_reported-Present redis es n h).1 (inr p)) run)
              end,
          subst (λ m. stored h ≤ m) (sym now) le,
          λ n.
              persist-Present n h1 (s', p') (Reports n es ⊎ Present redis n h)
                (store_reported-Present redis es n h),
        ),
      )

  Absent-store_reported :
      (n : ℕ) (es : List QueueEntry) (h : Hash)
      → Absent redis n h
      → (Reports n es → ⊥)
      → Absent redis n (store_reported redis es h)
  Absent-store_reported n es h none_yet unreported =
      elim (Option-cases (hget (seq n) (store_reported redis es h))) [
        | inl e ↦ e
        | inr p ↦ elim ((store_reported-Present redis es n h).0 p) [
          | inl r ↦ absurd (unreported r)
          | inr (q, e) ↦ absurd (cc)
        ]
      ]

  -- If the hash is exact and some number above the stored one, within the loop's fuel, is neither
  -- present nor reported, `ReportFlushed` of a batch returns: the number that it returns is the one
  -- stored, the numbers 1 to it are present and the next one is absent, it is not below the number
  -- before, and the present numbers are those present before and those of the batch.
  pub report_flushed-IsExact :
      (fuel : ℕ) (e : QueueEntry) (es : List QueueEntry) (h : Hash) (gap : ℕ)
      → IsExact redis h
      → stored h < gap
      → gap ≤ stored h + fuel
      → Absent redis gap h
      → (Reports gap (e ∷ es) → ⊥)
      → (r : ℕ × ℕ) × (h' : Hash) × (report_flushed redis fuel (e ∷ es) h ≡ some (r, h'))
        × After (e ∷ es) h r h'
  unfolding report_flushed
  report_flushed-IsExact fuel e es h gap exact lt fits absent unreported =
      script_lem fuel (e ∷ es) h gap exact lt fits
        (Absent-store_reported gap (e ∷ es) h absent unreported)

  not_above :
      (h h' : Hash)
      → IsExact redis h
      → IsExact redis h'
      → ((n : ℕ) → Present redis n h → Present redis n h')
      → stored h ≤ stored h'
  not_above h h' exact exact' kept = elim (up_to_or_above (stored h) (stored h')) [
    | inl le ↦ le
    | inr above ↦
        let (q, e) = kept (suc (stored h')) (exact.filled (suc (stored h')) (omega arith) above) in
        let e' = exact'.ends in absurd (cc)
  ]

  -- Two exact hashes in which the same numbers are present store the same flushed number: it does
  -- not depend on the order of the reports, on how they were batched or on repeated ones.
  pub flushed_number_determined :
      (h h' : Hash)
      → IsExact redis h
      → IsExact redis h'
      → ((n : ℕ) → Present redis n h ↔ Present redis n h')
      → (get_flushed_pos redis h).0 ≡ (get_flushed_pos redis h').0
  unfolding get_flushed_pos
  flushed_number_determined h h' exact exact' same =
      let le = not_above h h' exact exact' (λ n. (same n).0) in
      let ge = not_above h' h exact' exact (λ n. (same n).1) in omega arith

  -- The flushed number of an exact hash stays below every number that is absent.
  pub stored-Absent :
      (h : Hash) (gap : ℕ) → IsExact redis h → 0 < gap → Absent redis gap h → stored h < gap
  stored-Absent h gap exact pos absent = elim (up_to_or_above gap (stored h)) [
    | inr below ↦ below
    | inl le ↦ let (q, e) = exact.filled gap pos le in absurd (cc)
  ]
