-- ===== src/Login/Sweeps.antt =====
-- backend/main.go: what the tick of `saveLoop` deletes.
use logmara.Prelude.{
  ℕ, ◌*◌, ◌<◌, ◌≡◌, refl, ◌≢◌, ◌∙◌, sym, ◌⊎◌, inl, inr, ◌||◌, Bool, Bool-cases, true, true-false,
  false, lookup-insert, Option, none, some, [], ◌∷◌, if_splits, leb, ltb, String, str_eq, Assoc,
  lookup, arith,
}
use logmara.Login.Bucket.{
  TokenBucket, LoginLimiter, full_tokens, refill_bucket, take_token, on_bucket, allow_login,
  without_full, sweep,
}
use logmara.Login.Bounds.{Attempts, one_fits}

-- The limiter behind some attempts.
abbrev pub after_attempts : Attempts → LoginLimiter → LoginLimiter
after_attempts [] rl = rl
after_attempts ((ip, now) ∷ es) rl = after_attempts es (allow_login now ip rl).1

-- Whether an attempt came from the address.
abbrev pub tried : String → Attempts → Bool
tried ip [] = false
tried ip ((from, now) ∷ es) = str_eq from ip || tried ip es

-- The address has a bucket, and it is not full.
abbrev HasUsed : String → ℕ → Assoc TokenBucket → Type 0
HasUsed ip full table = (b : TokenBucket) × (lookup ip table ≡ some b) × (b.tokens < full)

-- Whatever a bucket held, behind an attempt it is not full.
on_bucket-tokens :
    (limit window now : ℕ) (o : Option TokenBucket)
    → 0 < limit
    → 0 < window
    → (on_bucket limit window now o).1.tokens < limit * window
unfolding refill_bucket take_token
on_bucket-tokens limit window now none pos wide = omega (arith, one_fits limit window pos)
on_bucket-tokens limit window now (some b) pos wide =
    let fits = one_fits limit window pos in
    if_splits (λ (r : Bool × TokenBucket). r.1.tokens < limit * window)
      (ltb (refill_bucket limit window now b).tokens window) (λ e. ground (arith, fits))
      (λ e. ground (arith, fits))

attempt-HasUsed :
    (ip from : String) (now : ℕ) (rl : LoginLimiter)
    → 0 < rl.limit
    → 0 < rl.window
    → (str_eq from ip ≡ true) ⊎ HasUsed ip (full_tokens rl) rl.buckets
    → HasUsed ip (full_tokens rl) (allow_login now from rl).1.buckets
unfolding allow_login
attempt-HasUsed ip from now rl pos wide h =
    let b = (on_bucket rl.limit rl.window now (lookup from rl.buckets)).1 in
    let used = on_bucket-tokens rl.limit rl.window now (lookup from rl.buckets) pos wide in
    let found = lookup-insert from ip b rl.buckets in
    elim (Bool-cases (str_eq from ip)) [
      | inl e ↦ (b, found ∙ rw e refl, used)
      | inr e ↦ elim h [
        | inl same ↦ absurd (true-false (sym same ∙ e))
        | inr (old, there, low) ↦ (old, found ∙ rw e there, low)
      ]
    ]

attempts-HasUsed :
    (ip : String) (es : Attempts) (rl : LoginLimiter)
    → 0 < rl.limit
    → 0 < rl.window
    → (tried ip es ≡ true) ⊎ HasUsed ip (full_tokens rl) rl.buckets
    → HasUsed ip (full_tokens (after_attempts es rl)) (after_attempts es rl).buckets
unfolding allow_login
attempts-HasUsed ip [] rl pos wide (inl h) = absurd (true-false (sym h))
attempts-HasUsed ip [] rl pos wide (inr used) = used
attempts-HasUsed ip ((from, now) ∷ es) rl pos wide h =
    attempts-HasUsed ip es (allow_login now from rl).1 pos wide
      (elim (Bool-cases (str_eq from ip)) [
        | inl e ↦ inr (attempt-HasUsed ip from now rl pos wide (inl e))
        | inr e ↦ elim h [
          | inl later ↦ inl (sym (rw e refl) ∙ later)
          | inr used ↦ inr (attempt-HasUsed ip from now rl pos wide (inr used))
        ]
      ])

used_kept :
    (ip : String) (full : ℕ) (table : Assoc TokenBucket)
    → HasUsed ip full table
    → lookup ip (without_full full table) ≡ lookup ip table
unfolding lookup
used_kept ip full [] used = refl
used_kept ip full ((name, b) ∷ rest) (c, there, low) = elim (Bool-cases (str_eq name ip)) [
  | inl e ↦
      let same : some b ≡ some c = sym (rw e refl) ∙ there in
      let not_full : leb full b.tokens ≡ false = ground (arith, same, low) in
      rw not_full (rw e refl)
  | inr e ↦
      let ih = used_kept ip full rest (c, sym (rw e refl) ∙ there, low) in
      if_splits (λ (t : Assoc TokenBucket). lookup ip t ≡ lookup ip ((name, b) ∷ rest))
        (leb full b.tokens) (λ full_one. ih ∙ sym (rw e refl)) (λ kept. rw e ih)
]

some-none : {b : TokenBucket} → some b ≡ none → ⊥
some-none h = absurd (cc)

-- The bug: the tick deletes the buckets that are full, but a bucket is refilled only by an attempt,
-- which takes a token of it or finds none. So whatever table the limiter starts with (an empty one, or
-- one that was loaded), and whatever attempts were made on it, from any addresses and however long
-- ago: every address that made one has a bucket, and the tick leaves it as it is.
pub sweep_keeps_tried :
    (ip : String) (es : Attempts) (rl : LoginLimiter)
    → 0 < rl.limit
    → 0 < rl.window
    → tried ip es ≡ true
    → (let end = after_attempts es rl in
        (lookup ip (sweep end).buckets ≡ lookup ip end.buckets)
        × (lookup ip (sweep end).buckets ≢ none))
unfolding sweep
sweep_keeps_tried ip es rl pos wide h =
    let end = after_attempts es rl in
    let used = attempts-HasUsed ip es rl pos wide (inl h) in
    let kept = used_kept ip (full_tokens end) end.buckets used in
    (kept, λ gone. some-none (sym used.1 ∙ sym kept ∙ gone))
