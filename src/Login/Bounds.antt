-- ===== src/Login/Bounds.antt =====
-- backend/main.go: how many login attempts `rateLimiter` lets through.
use logmara.Prelude.{
  ℕ, zero, suc, ◌+◌, ◌-◌, ◌*◌, ◌≤◌, ◌<◌, ◌≡◌, ◌∙◌, ap, inl, inr, Bool, true, false, Bool-cases,
  Option, none, some, List, [], ◌∷◌, if◌then◌else◌, if_splits, ltb, String, str_eq, lookup,
  lookup-insert, arith, eq_iff, eq_refl, subst,
}
use native.Mathlib.Nat.{add-mul, suc-mul}
use logmara.Login.Bucket.{
  TokenBucket, LoginLimiter, refill_bucket, take_token, on_bucket, allow_login,
}

-- Attempts, each with its address and its time, in the order of time from `t` on.
abbrev pub Attempts : Type 0
Attempts = List (String × ℕ)

abbrev pub IsOrdered : ℕ → Attempts → Type 0
IsOrdered t [] = Unit
IsOrdered t ((ip, now) ∷ es) = (t ≤ now) × IsOrdered now es

abbrev pub last_time : ℕ → Attempts → ℕ
last_time t [] = t
last_time t ((ip, now) ∷ es) = last_time now es

abbrev pub counted_for : String → String → Bool → ℕ
counted_for asked ip ok = if str_eq ip asked then (if ok then 1 else 0) else 0

-- How many attempts of an address pass.
abbrev pub passes : String → Attempts → LoginLimiter → ℕ
passes asked [] rl = 0
passes asked ((ip, now) ∷ es) rl =
    counted_for asked ip (allow_login now ip rl).0 + passes asked es (allow_login now ip rl).1

-- What a bucket can give until some time.
abbrev budget : ℕ → ℕ → ℕ → ℕ → Option TokenBucket → ℕ
budget limit window t end none = limit * window + (end - t) * limit
budget limit window t end (some b) = b.tokens + (end - b.last_refill) * limit

abbrev IsPast : ℕ → Option TokenBucket → Type 0
IsPast t none = Unit
IsPast t (some b) = b.last_refill ≤ t

gap :
    (a n end limit : ℕ) → a ≤ n → n ≤ end → (end - a) * limit ≡ (n - a) * limit + (end - n) * limit
gap a n end limit h k =
    let parts : end - a ≡ (n - a) + (end - n) = omega arith in
    ap (λ x. x * limit) parts ∙ add-mul (n - a) (end - n) limit

pub one_fits : (limit window : ℕ) → 0 < limit → window ≤ limit * window
one_fits zero window h = absurd (omega arith)
one_fits (suc k) window h = omega (arith, suc-mul k window)

abbrev units : ℕ → Bool → ℕ
units window ok = if ok then window else 0

abbrev Spends : ℕ → ℕ → ℕ → ℕ → ℕ → Option TokenBucket → Bool × TokenBucket → Type 0
Spends limit window t now end o (ok, b) =
    (units window ok + budget limit window now end (some b) ≤ budget limit window t end o)
    × (b.last_refill ≤ now)

on_bucket-Spends :
    (limit window t now end : ℕ) (o : Option TokenBucket)
    → 0 < limit
    → t ≤ now
    → now ≤ end
    → IsPast t o
    → Spends limit window t now end o (on_bucket limit window now o)
unfolding refill_bucket take_token
on_bucket-Spends limit window t now end none pos low high past =
    (omega (arith, one_fits limit window pos, gap t now end limit low high), omega arith)
on_bucket-Spends limit window t now end (some b) pos low high past =
    let whole = gap b.last_refill now end limit (omega arith) high in
    let refilled = refill_bucket limit window now b in
    if_splits (Spends limit window t now end (some b)) (ltb refilled.tokens window)
      (λ e. (omega (arith, whole), omega arith)) (λ e. (ground (arith, whole), omega arith))

last_time-late : (t : ℕ) (es : Attempts) → IsOrdered t es → t ≤ last_time t es
last_time-late t [] h = omega arith
last_time-late t ((ip, now) ∷ es) (low, more) = omega (arith, last_time-late now es more)

IsPast-later : (t now : ℕ) (o : Option TokenBucket) → t ≤ now → IsPast t o → IsPast now o
IsPast-later t now none low past = tt
IsPast-later t now (some b) low past = omega arith

budget-later :
    (limit window t now end : ℕ) (o : Option TokenBucket)
    → t ≤ now
    → now ≤ end
    → budget limit window now end o ≤ budget limit window t end o
budget-later limit window t now end none low high = omega (arith, gap t now end limit low high)
budget-later limit window t now end (some b) low high = omega arith

abbrev Bounded : String → Attempts → LoginLimiter → ℕ → Type 0
Bounded asked es rl t =
    passes asked es rl * rl.window
    ≤ budget rl.limit rl.window t (last_time t es) (lookup asked rl.buckets)

add_units :
    (ok : Bool) (rest window : ℕ)
    → ((if ok then 1 else 0) + rest) * window ≡ units window ok + rest * window
add_units true rest window = add-mul 1 rest window ∙ omega arith
add_units false rest window = omega arith

spent :
    (limit window t now end rest : ℕ) (o : Option TokenBucket) (r : Bool × TokenBucket)
    → Spends limit window t now end o r
    → rest * window ≤ budget limit window now end (some r.1)
    → ((if r.0 then 1 else 0) + rest) * window ≤ budget limit window t end o
spent limit window t now end rest o (ok, b) (spends, past) h =
    omega (arith, add_units ok rest window)

-- An attempt of the address itself, and one of another address.
attempt_self :
    (ip : String) (now t end : ℕ) (rl : LoginLimiter)
    → 0 < rl.limit
    → t ≤ now
    → now ≤ end
    → IsPast t (lookup ip rl.buckets)
    → IsPast now (lookup ip (allow_login now ip rl).1.buckets)
      × ((rest : ℕ)
          → rest * rl.window
            ≤ budget rl.limit rl.window now end (lookup ip (allow_login now ip rl).1.buckets)
          → (counted_for ip ip (allow_login now ip rl).0 + rest) * rl.window
            ≤ budget rl.limit rl.window t end (lookup ip rl.buckets))
unfolding allow_login
attempt_self ip now t end rl pos low high past =
    let o = lookup ip rl.buckets in
    let r = on_bucket rl.limit rl.window now o in
    let found = lookup-insert ip ip r.1 rl.buckets in
    let spends = on_bucket-Spends rl.limit rl.window t now end o pos low high past in
    let here : str_eq ip ip ≡ true = eq_refl ip in
    rw (found, here) (spends.1, λ rest h. spent rl.limit rl.window t now end rest o r spends h)

attempt_other :
    (asked ip : String) (now t end : ℕ) (rl : LoginLimiter)
    → str_eq ip asked ≡ false
    → t ≤ now
    → now ≤ end
    → IsPast t (lookup asked rl.buckets)
    → IsPast now (lookup asked (allow_login now ip rl).1.buckets)
      × ((rest : ℕ)
          → rest * rl.window
            ≤ budget rl.limit rl.window now end (lookup asked (allow_login now ip rl).1.buckets)
          → (counted_for asked ip (allow_login now ip rl).0 + rest) * rl.window
            ≤ budget rl.limit rl.window t end (lookup asked rl.buckets))
unfolding allow_login
attempt_other asked ip now t end rl other low high past =
    let o = lookup asked rl.buckets in
    let r = on_bucket rl.limit rl.window now (lookup ip rl.buckets) in
    let found = lookup-insert ip asked r.1 rl.buckets in
    let later = budget-later rl.limit rl.window t now end o low high in
    rw (found, other)
      (
        IsPast-later t now o low past,
        λ rest h. omega (arith, later, add_units false rest rl.window),
      )

abbrev Attempted : String → String → ℕ → ℕ → ℕ → LoginLimiter → Type 0
Attempted asked ip now t end rl =
    IsPast t (lookup asked rl.buckets)
    → IsPast now (lookup asked (allow_login now ip rl).1.buckets)
      × ((rest : ℕ)
          → rest * rl.window
            ≤ budget rl.limit rl.window now end (lookup asked (allow_login now ip rl).1.buckets)
          → (counted_for asked ip (allow_login now ip rl).0 + rest) * rl.window
            ≤ budget rl.limit rl.window t end (lookup asked rl.buckets))

attempted :
    (asked ip : String) (now t end : ℕ) (rl : LoginLimiter)
    → 0 < rl.limit
    → t ≤ now
    → now ≤ end
    → Attempted asked ip now t end rl
attempted asked ip now t end rl pos low high = elim (Bool-cases (str_eq ip asked)) [
  | inl e ↦
      subst (λ x. Attempted x ip now t end rl) ((eq_iff ip asked).0 e)
        (attempt_self ip now t end rl pos low high)
  | inr e ↦ attempt_other asked ip now t end rl e low high
]

budget_run :
    (asked : String) (es : Attempts) (rl : LoginLimiter) (t : ℕ)
    → 0 < rl.limit
    → IsOrdered t es
    → IsPast t (lookup asked rl.buckets)
    → Bounded asked es rl t
unfolding allow_login
budget_run asked [] rl t pos order past = omega arith
budget_run asked ((ip, now) ∷ es) rl t pos (low, more) past =
    let next = (allow_login now ip rl).1 in
    let (later, spends) =
      attempted asked ip now t (last_time now es) rl pos low (last_time-late now es more) past in
    spends (passes asked es next) (budget_run asked es next now pos more later)

-- From an address without a bucket, at most `limit` attempts pass at once, and in all at most `limit`
-- and those that the time since then refills: their number times the window is at most the limit times
-- the sum of the window and the time. Attempts from other addresses, in between, make no difference.
pub passes-bounded :
    (asked : String) (es : Attempts) (rl : LoginLimiter) (t : ℕ)
    → 0 < rl.limit
    → IsOrdered t es
    → lookup asked rl.buckets ≡ none
    → passes asked es rl * rl.window ≤ rl.limit * rl.window + (last_time t es - t) * rl.limit
passes-bounded asked es rl t pos order unknown =
    let past : IsPast t (lookup asked rl.buckets) = rw unknown tt in
    subst (λ o. passes asked es rl * rl.window ≤ budget rl.limit rl.window t (last_time t es) o)
      unknown (budget_run asked es rl t pos order past)
