-- ===== src/ApiKey/Window.antt =====
-- backend/sharedstate/ratelimiter.go: the bound that the sliding window keeps.
use logmara.Prelude.{
  ℕ, suc, ◌+◌, ◌≤◌, ◌≡◌, refl, ap, ◌∙◌, leb, Bool, true, false, List, [], ◌∷◌, length, filter,
  if◌then◌else◌, if_splits, if_holds, arith, Bool-cases, inl, inr, Reply, answered, failed_before,
  failed_after,
}
use logmara.ApiKey.Sliding.{in_window, sliding_window_script, redis_allow}

abbrev pub logged : Bool → ℕ → List ℕ → List ℕ
logged allowed now log = if allowed then now ∷ log else log

abbrev pub failing : Reply → Bool
failing answered = false
failing failed_before = true
failing failed_after = true

-- The times of the requests that were let through, the sorted set, and the times of those whose call
-- of Redis failed, each with the newest first.
pub record Served : Type 0 where
  pub let_through : List ℕ
  pub hits : List ℕ
  pub failed : List ℕ

abbrev pub request : ℕ → ℕ → ℕ × Reply → Served → Served
request window limit (now, r) c =
    let a = redis_allow r now window limit c.hits in
    record {
      let_through = logged a.0 now c.let_through;
      hits = a.1;
      failed = logged (failing r) now c.failed;
    }

-- Requests of one key at these times, with the end of their calls.
abbrev pub requests : ℕ → ℕ → List (ℕ × Reply) → Served → Served
requests window limit [] c = c
requests window limit (q ∷ qs) c = requests window limit qs (request window limit q c)

-- The times do not go back, and end before the last.
abbrev pub Ordered : ℕ → List (ℕ × Reply) → ℕ → Type 0
Ordered first [] last = first ≤ last
Ordered first ((now, r) ∷ qs) last = (first ≤ now) × Ordered now qs last

abbrev pub recent : ℕ → ℕ → List ℕ → List ℕ
recent window t hits = filter (in_window t window) hits

abbrev more : Bool → ℕ → ℕ
more b n = if b then suc n else n

one_more : (b : Bool) (limit k n : ℕ) → leb limit k ≡ false → n ≤ k → n ≤ limit → more b n ≤ limit
one_more true limit k n e le within = ground arith
one_more false limit k n e le within = within

more_both : (b : Bool) (l h f : ℕ) → l ≤ h + f → more b l ≤ more b h + f
more_both true l h f le = omega arith
more_both false l h f le = le

more_failed : (b : Bool) (l h f : ℕ) → l ≤ h + f → more b l ≤ h + more b f
more_failed true l h f le = omega arith
more_failed false l h f le = le

more_grows : (b : Bool) (n : ℕ) → n ≤ more b n
more_grows true n = omega arith
more_grows false n = omega arith

cons_if :
    (b : Bool) (s : ℕ) {xs ys : List ℕ}
    → xs ≡ ys
    → (if b then s ∷ xs else xs) ≡ (if b then s ∷ ys else ys)
cons_if b s e = ap (λ r. if b then s ∷ r else r) e

in_window_after :
    (now t window score : ℕ)
    → now ≤ t
    → in_window now window score ≡ false
    → in_window t window score ≡ false
in_window_after now t window score le h = ground arith

recent-recent :
    (window now t : ℕ) (hits : List ℕ)
    → now ≤ t
    → recent window t (recent window now hits) ≡ recent window t hits
recent-recent window now t [] le = refl
recent-recent window now t (s ∷ hits) le =
    let ih = recent-recent window now t hits le in
    elim (Bool-cases (in_window now window s)) [
      | inl e ↦ rw e (cons_if (in_window t window s) s ih)
      | inr e ↦ rw (e, in_window_after now t window s le e) ih
    ]

recent_shrinks :
    (window now t : ℕ) (hits : List ℕ)
    → now ≤ t
    → length (recent window t hits) ≤ length (recent window now hits)
recent_shrinks window now t [] le = omega arith
recent_shrinks window now t (s ∷ hits) le =
    let ih = recent_shrinks window now t hits le in
    elim (Bool-cases (in_window now window s)) [
      | inl e ↦ rw e (
          if_holds (λ (xs : List ℕ). length xs ≤ suc (length (recent window now hits)))
            (in_window t window s) (omega arith) (omega arith))
      | inr e ↦ rw (e, in_window_after now t window s le e) ih
    ]

abbrev count : ℕ → ℕ → List ℕ → ℕ
count window t hits = length (recent window t hits)

count-cons :
    (window t now : ℕ) (hits : List ℕ)
    → count window t (now ∷ hits) ≡ more (in_window t window now) (count window t hits)
count-cons window t now hits =
    if_splits (λ (xs : List ℕ). length xs ≡ more (in_window t window now) (count window t hits))
      (in_window t window now) (λ e. rw e refl) (λ e. rw e refl)

-- From a time on, the set is within the limit, and of the requests let through no more are recent than
-- the set and the failed calls have.
abbrev pub Within : ℕ → ℕ → ℕ → Served → Type 0
Within window limit last c =
    (t : ℕ)
    → last ≤ t
    → (count window t c.hits ≤ limit)
      × (count window t c.let_through ≤ count window t c.hits + count window t c.failed)

script-count :
    (window limit now t : ℕ) (hits : List ℕ)
    → now ≤ t
    → count window t hits ≤ limit
    → (let r = sliding_window_script now window limit hits in
        (count window t r.1 ≤ limit)
        × (r.0 ≡ false → count window t r.1 ≡ count window t hits)
        × (r.0 ≡ true → count window t r.1 ≡ more (in_window t window now) (count window t hits))
        × (count window t hits ≤ count window t r.1))
unfolding sliding_window_script
script-count window limit now t hits le within =
    let kept = recent window now hits in
    let same : count window t kept ≡ count window t hits =
      ap (λ (xs : List ℕ). length xs) (recent-recent window now t hits le) in
    let b = in_window t window now in
    let grown = count-cons window t now kept ∙ ap (more b) same in
    if_splits
      (λ (r : Bool × List ℕ).
        (count window t r.1 ≤ limit)
        × (r.0 ≡ false → count window t r.1 ≡ count window t hits)
        × (r.0 ≡ true → count window t r.1 ≡ more b (count window t hits))
        × (count window t hits ≤ count window t r.1))
      (leb limit (length kept)) (λ e. (omega arith, λ h. same, λ h. absurd (cc), omega arith))
      (λ e.
        let shrunk = recent_shrinks window now t hits le in
        let bound = one_more b limit (length kept) (count window t hits) e shrunk within in
        let larger = more_grows b (count window t hits) in
        (omega arith, λ h. absurd (cc), λ h. grown, omega arith))

logged-count :
    (window t now : ℕ) (b : Bool) (log : List ℕ)
    → (b ≡ true
        → count window t (logged b now log) ≡ more (in_window t window now) (count window t log))
      × (b ≡ false → count window t (logged b now log) ≡ count window t log)
logged-count window t now true log = (λ h. count-cons window t now log, λ h. absurd (cc))
logged-count window t now false log = (λ h. absurd (cc), λ h. refl)

request-Within :
    (window limit last now : ℕ) (r : Reply) (c : Served)
    → last ≤ now
    → Within window limit last c
    → Within window limit now (request window limit (now, r) c)
unfolding redis_allow
request-Within window limit last now answered c later inv t le =
    let (within, covered) = inv t (omega arith) in
    let a = sliding_window_script now window limit c.hits in
    let (bound, kept, grown, larger) = script-count window limit now t c.hits le within in
    let (longer, as_long) = logged-count window t now a.0 c.let_through in
    let b = in_window t window now in
    let both =
      more_both b (count window t c.let_through) (count window t c.hits) (count window t c.failed)
        covered in
    (
      bound,
      elim (Bool-cases a.0) [
        | inl e ↦ let e1 = grown e in let e2 = longer e in omega arith
        | inr e ↦ let e1 = kept e in let e2 = as_long e in omega arith
      ],
    )
request-Within window limit last now failed_before c later inv t le =
    let (within, covered) = inv t (omega arith) in
    let b = in_window t window now in
    let e1 = count-cons window t now c.let_through in
    let e2 = count-cons window t now c.failed in
    let one =
      more_failed b (count window t c.let_through) (count window t c.hits) (count window t c.failed)
        covered in
    (within, omega arith)
request-Within window limit last now failed_after c later inv t le =
    let (within, covered) = inv t (omega arith) in
    let (bound, kept, grown, larger) = script-count window limit now t c.hits le within in
    let b = in_window t window now in
    let e1 = count-cons window t now c.let_through in
    let e2 = count-cons window t now c.failed in
    let one =
      more_failed b (count window t c.let_through) (count window t c.hits) (count window t c.failed)
        covered in
    (bound, omega arith)

requests-keep :
    (window limit first last : ℕ) (qs : List (ℕ × Reply)) (c : Served)
    → Ordered first qs last
    → Within window limit first c
    → Within window limit last (requests window limit qs c)
requests-keep window limit first last [] c ordered inv = λ t le. inv t (omega arith)
requests-keep window limit first last ((now, r) ∷ qs) c ordered inv =
    requests-keep window limit now last qs (request window limit (now, r) c) ordered.1
      (request-Within window limit first now r c ordered.0 inv)

abbrev pub none_served : Served
none_served = record { let_through = []; hits = []; failed = [] }

-- Of the requests of one key at times that do not go back, starting with no hits, no more than the
-- limit and the number of those whose call of Redis failed are let through, within any window that
-- ends at the last one or later: so no more than the limit, if all calls in the window were answered.
pub requests-IsBounded :
    (window limit first last : ℕ) (qs : List (ℕ × Reply)) (t : ℕ)
    → Ordered first qs last
    → last ≤ t
    → (let c = requests window limit qs none_served in
        length (recent window t c.let_through) ≤ limit + length (recent window t c.failed))
requests-IsBounded window limit first last qs t ordered le =
    let (within, covered) =
      requests-keep window limit first last qs none_served ordered
        (λ u lu. (omega arith, omega arith)) t le in
    omega arith
