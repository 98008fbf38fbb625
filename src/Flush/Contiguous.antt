-- ===== src/Flush/Contiguous.antt =====
-- backend/sharedstate/flushtracker.go: the tracker follows the end of the gapless prefix of what
-- was reported, whatever the order of the reports.
use logmara.Prelude.{
  ℕ, zero, suc, ◌+◌, ◌≤◌, ◌<◌, ◌≡◌, ◌≢◌, refl, sym, ap, ◌∙◌, ◌⊎◌, ◌↔◌, Bool-cases, ◌==◌, ==_iff,
  false, inl, inr, Option, none, some, List, [], ◌∷◌, arith, Option-cases, subst,
}
use logmara.Flush.Hash.{Field, flushed_seq, flushed_pos, seq, RedisHash}
use logmara.Flush.Tracker.{QueueEntry, or_zero, or_next, store_reported, advance}

-- A number is among the entries of the reports.
abbrev pub Reports : ℕ → List QueueEntry → Type 0
Reports n [] = ⊥
Reports n (e ∷ es) = (e.number ≡ n) ⊎ Reports n es

regroup : {A B C : Type 0} → A ⊎ C → (A ⊎ B) ⊎ C
regroup (inl a) = inl (inl a)
regroup (inr c) = inr c

not_equal : (k n : ℕ) → (k == n) ≡ false → k ≢ n
not_equal k n e = ground arith

pub equal_or_above : (a b : ℕ) → a ≤ b → (a ≡ b) ⊎ (a < b)
equal_or_above a b le = omega arith

module _ (redis : RedisHash) where
  open redis use {
    Hash, empty, hget, hset, hsetnx, hget-hset_self, hget-hset_ne, hget-hsetnx_new, hget-hsetnx_old,
    hget-hsetnx_ne,
  }

  abbrev pub Present : ℕ → Hash → Type 0
  Present n h = (p : ℕ) × (hget (seq n) h ≡ some p)

  abbrev pub Absent : ℕ → Hash → Type 0
  Absent n h = hget (seq n) h ≡ none

  -- The stored number ends a gapless run from 1, and the next number is absent.
  pub record IsExact (h : Hash) : Type 0 where
    pub filled : (n : ℕ) → 0 < n → n ≤ or_zero (hget flushed_seq h) → Present n h
    pub ends : Absent (suc (or_zero (hget flushed_seq h))) h

  -- Where the loop stops, from number `s`.
  abbrev pub StopsAt : Hash → ℕ → ℕ → Option (ℕ × ℕ) → Type 0
  StopsAt h s gap r =
      (s' : ℕ) × (p' : ℕ) × (r ≡ some (s', p'))
      × (s ≤ s')
      × (s' < gap)
      × ((n : ℕ) → s < n → n ≤ s' → Present n h)
      × Absent (suc s') h

  at_step :
      (h : Hash) (s n q : ℕ)
      → hget (seq (suc s)) h ≡ some q
      → s < n
      → (suc s < n → Present n h)
      → Present n h
  at_step h s n q e lt later = elim (equal_or_above (suc s) n (omega arith)) [
    | inl eq ↦ subst (λ m. Present m h) eq (q, e)
    | inr more ↦ later more
  ]

  below_gap :
      (h : Hash) (s gap q : ℕ)
      → hget (seq (suc s)) h ≡ some q
      → s < gap
      → Absent gap h
      → suc s < gap
  below_gap h s gap q e lt absent = elim (equal_or_above (suc s) gap (omega arith)) [
    | inl eq ↦ absurd (cc)
    | inr more ↦ more
  ]

  advance_step :
      (h : Hash) (s p gap : ℕ) (next : ℕ → Option (ℕ × ℕ)) (r : Option ℕ)
      → hget (seq (suc s)) h ≡ r
      → s < gap
      → Absent gap h
      → (suc s < gap → (q : ℕ) → StopsAt h (suc s) gap (next q))
      → StopsAt h s gap (or_next (some (s, p)) next r)
  advance_step h s p gap next none e lt absent rest =
      (s, p, refl, omega arith, lt, λ n a b. absurd omega arith, e)
  advance_step h s p gap next (some q) e lt absent rest =
      let (s', p', r, le, below, run, end) = rest (below_gap h s gap q e lt absent) q in
      (s', p', r, omega arith, below, λ n a b. at_step h s n q e a (λ m. run n m b), end)

  -- The loop ends at the first absent number, with every number passed on the way present.
  pub advance_lem :
      (fuel : ℕ) (h : Hash) (s p gap : ℕ)
      → s < gap
      → gap ≤ s + fuel
      → Absent gap h
      → StopsAt h s gap (advance redis fuel h s p)
  unfolding advance
  advance_lem zero h s p gap lt fits absent = absurd (omega arith)
  advance_lem (suc fuel) h s p gap lt fits absent =
      advance_step h s p gap (advance redis fuel h (suc s)) (hget (seq (suc s)) h) refl lt absent
        (λ more q. advance_lem fuel h (suc s) q gap more (omega arith) absent)

  abbrev number_of : Field → ℕ
  number_of (seq n) = n
  number_of flushed_seq = 0
  number_of flushed_pos = 0

  seq_ne : (k n : ℕ) → k ≢ n → seq k ≢ seq n
  seq_ne k n ne e = ne (ap number_of e)

  set_some : (k v : ℕ) (h : Hash) → Present k (hsetnx (seq k) v h)
  set_some k v h = elim (Option-cases (hget (seq k) h)) [
    | inl e ↦ (v, hget-hsetnx_new (seq k) v h e)
    | inr (q, e) ↦ (q, hget-hsetnx_old (seq k) v q h e)
  ]

  -- What storing the reports does to one number.
  hsetnx-Present : (k n v : ℕ) (h : Hash) → Present n (hsetnx (seq k) v h) ↔ ((k ≡ n) ⊎ Present n h)
  hsetnx-Present k n v h = elim (Bool-cases (k == n)) [
    | inl e ↦
        let eq = (==_iff k n).0 e in
        (λ p. inl eq, λ p. subst (λ m. Present m (hsetnx (seq k) v h)) eq (set_some k v h))
    | inr e ↦
        let ne = not_equal k n e in
        let same = hget-hsetnx_ne (seq k) (seq n) v h (seq_ne k n ne) in
        (
          λ p. inr (p.0, sym same ∙ p.1),
          λ p. elim p [ inl eq ↦ absurd (ne eq) | inr (q, eq) ↦ (q, same ∙ eq) ],
        )
  ]

  -- The numbers present after the reports are those before and those reported.
  pub store_reported-Present :
      (es : List QueueEntry) (n : ℕ) (h : Hash)
      → Present n (store_reported redis es h) ↔ (Reports n es ⊎ Present n h)
  unfolding store_reported
  store_reported-Present [] n h = (λ p. inr p, λ p. elim p [ inl b ↦ absurd b | inr q ↦ q ])
  store_reported-Present (e ∷ es) n h =
      let later = store_reported-Present es n (hsetnx (seq e.number) e.next_pos h) in
      let first = hsetnx-Present e.number n e.next_pos h in
      (
        λ p. elim (later.0 p) [ inl r ↦ inl (inr r) | inr q ↦ regroup (first.0 q) ],
        λ p. later.1 (elim p [
          | inl (inl eq) ↦ inr (first.1 (inl eq))
          | inl (inr r) ↦ inl r
          | inr q ↦ inr (first.1 (inr q))
        ]),
      )

  -- The stored number and position are no report's.
  pub store_reported-other :
      (f : Field) (es : List QueueEntry) (h : Hash)
      → ((n : ℕ) → seq n ≢ f)
      → hget f (store_reported redis es h) ≡ hget f h
  unfolding store_reported
  store_reported-other f [] h ne = refl
  store_reported-other f (e ∷ es) h ne =
      store_reported-other f es (hsetnx (seq e.number) e.next_pos h) ne
      ∙ hget-hsetnx_ne (seq e.number) f e.next_pos h (ne e.number)
