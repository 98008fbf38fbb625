-- ===== src/ApiKey/Demand.antt =====
-- backend/middleware/apikey.go: what the limiter in memory lets through, and that keys do not
-- disturb each other.
use logmara.Prelude.{
  ℕ, zero, suc, ◌+◌, ◌-◌, ◌*◌, ◌≡◌, ◌==◌, min, refl, ap, ap₂, ◌∙◌, ltb, Bool, false, some, List, [],
  ◌∷◌, if◌then◌else◌, if_splits, arith, Reply,
}
use logmara.ApiKey.Limiters.{
  RateLimiter, refill, allow, KeyLimiter, memory_limiter, redis_limiter, Limiters, find_limiter,
  put_limiter, or_create, get_rate_limiter, key_allow, limit_request,
}

abbrev pub one_if : Bool → ℕ
one_if b = if b then 1 else 0

-- Requests one after the other: how many pass, and the bucket after them.
abbrev pub demand : ℕ → RateLimiter → ℕ × RateLimiter
demand zero rl = (0, rl)
demand (suc d) rl = let (ok, rl1) = allow rl in let (n, rl2) = demand d rl1 in (one_if ok + n, rl2)

-- The same number of requests in each of some seconds, with a refill after each.
abbrev pub seconds : ℕ → ℕ → RateLimiter → ℕ × RateLimiter
seconds zero d rl = (0, rl)
seconds (suc k) d rl =
    let (n, rl1) = demand d rl in let (m, rl2) = seconds k d (refill rl1) in (n + m, rl2)

one_more_time : (k m : ℕ) → m + k * m ≡ suc k * m
one_more_time k m = ground arith

-- One request and those after it.
allow_then :
    (d : ℕ) (rl : RateLimiter) (n : RateLimiter → ℕ)
    → ((rl1 : RateLimiter) → n rl1 ≡ min d rl1.tokens)
    → (one_if (allow rl).0 + n (allow rl).1 ≡ min (suc d) rl.tokens)
      × ((allow rl).1.max_token ≡ rl.max_token)
unfolding allow
allow_then d rl n later =
    if_splits
      (λ (r : Bool × RateLimiter).
        (one_if r.0 + n r.1 ≡ min (suc d) rl.tokens) × (r.1.max_token ≡ rl.max_token))
      (ltb 0 rl.tokens)
      (λ e. let ih = later (record rl { tokens = rl.tokens - 1 }) in (ground arith, refl))
      (λ e. let ih = later rl in (ground arith, refl))

demand-lem : (d : ℕ) (rl : RateLimiter) → (demand d rl).0 ≡ min d rl.tokens
demand-lem zero rl = omega arith
demand-lem (suc d) rl = (allow_then d rl (λ rl1. (demand d rl1).0) (demand-lem d)).0

demand-max_token : (d : ℕ) (rl : RateLimiter) → (demand d rl).1.max_token ≡ rl.max_token
demand-max_token zero rl = refl
demand-max_token (suc d) rl =
    demand-max_token d (allow rl).1 ∙ (allow_then d rl (λ rl1. min d rl1.tokens) (λ rl1. refl)).1

-- A full limiter with maximum `max`, under `d` requests in each of `k` seconds, lets `k` times the
-- smaller of `d` and `max` pass: with `d` at least `max`, a minute lets 60 times `max` pass.
pub seconds-lem :
    (k d : ℕ) (rl : RateLimiter)
    → rl.tokens ≡ rl.max_token
    → (seconds k d rl).0 ≡ k * min d rl.max_token
unfolding refill
seconds-lem zero d rl full = omega arith
seconds-lem (suc k) d rl full =
    let first = demand-lem d rl in
    let max = demand-max_token d rl in
    let rest = seconds-lem k d (refill (demand d rl).1) refl in
    ap₂ (λ n m. n + m) (first ∙ ap (λ t. min d t) full) (rest ∙ ap (λ t. k * min d t) max)
    ∙ one_more_time k (min d rl.max_token)

-- A different key's entry.
put_limiter-other :
    (i j : ℕ) (rl : KeyLimiter) (table : List (ℕ × KeyLimiter))
    → (i == j) ≡ false
    → find_limiter j (put_limiter i rl table) ≡ find_limiter j table
unfolding find_limiter put_limiter
put_limiter-other i j rl [] ne = rw ne refl
put_limiter-other i j rl ((k, old) ∷ rest) ne =
    let ih = put_limiter-other i j rl rest ne in ground (arith, ih)

key_allow-other :
    (r : Reply) (now i j : ℕ) (rl : KeyLimiter) (s : Limiters)
    → (i == j) ≡ false
    → (find_limiter j (key_allow r now i rl s).1.rate_limiters ≡ find_limiter j s.rate_limiters)
      × ((key_allow r now i rl s).1.redis_hits j ≡ s.redis_hits j)
unfolding key_allow
key_allow-other r now i j (memory_limiter rl) s ne =
    (put_limiter-other i j (memory_limiter (allow rl).1) s.rate_limiters ne, refl)
key_allow-other r now i j (redis_limiter limit) s ne = (refl, rw ne refl)

-- A request with one key leaves the limiter and the shared hits of every other key as they are.
pub limit_request-other :
    (r : Reply) (now i j limit : ℕ) (s : Limiters)
    → (i == j) ≡ false
    → (find_limiter j (limit_request r now i limit s).1.rate_limiters
        ≡ find_limiter j s.rate_limiters)
      × ((limit_request r now i limit s).1.redis_hits j ≡ s.redis_hits j)
unfolding limit_request get_rate_limiter
limit_request-other r now i j limit s ne =
    let rl = or_create s i limit (find_limiter i s.rate_limiters) in
    let s1 = record s { rate_limiters = put_limiter i rl s.rate_limiters } in
    let (entry, hits) = key_allow-other r now i j rl s1 ne in
    (entry ∙ put_limiter-other i j rl s.rate_limiters ne, hits)

-- For a key that has a limiter, the limit that is read with a request makes no difference.
pub limit_request-known :
    (r : Reply) (now id limit other : ℕ) (s : Limiters) (rl : KeyLimiter)
    → find_limiter id s.rate_limiters ≡ some rl
    → limit_request r now id limit s ≡ limit_request r now id other s
unfolding limit_request get_rate_limiter
limit_request-known r now id limit other s rl found = rw found refl
