-- ===== src/Login/Bucket.antt =====
-- backend/main.go: `rateLimiter`, a token bucket for every address. The code counts tokens as floating
-- point numbers; here they are exact, in units of which a token has as many as the window has
-- nanoseconds, so that a nanosecond refills `limit` units. The limit is at least 1.
use logmara.Prelude.{
  ℕ, ◌+◌, ◌-◌, ◌*◌, ◌/◌, min, Bool, true, false, Option, none, some, [], ◌∷◌, if◌then◌else◌, leb,
  ltb, String, Assoc, lookup, insert,
}

pub record TokenBucket : Type 0 where
  pub tokens : ℕ
  pub last_refill : ℕ

pub record LoginLimiter : Type 0 where
  pub buckets : Assoc TokenBucket
  pub limit : ℕ
  pub window : ℕ

abbrev pub full_tokens : LoginLimiter → ℕ
full_tokens rl = rl.limit * rl.window

unfoldable pub refill_bucket : ℕ → ℕ → ℕ → TokenBucket → TokenBucket
refill_bucket limit window now b = record {
  tokens = min (b.tokens + (now - b.last_refill) * limit) (limit * window);
  last_refill = now;
}

-- A refilled bucket gives a token if it has one.
unfoldable pub take_token : ℕ → TokenBucket → Bool × TokenBucket
take_token window b =
    if ltb b.tokens window then (false, b) else (true, record b { tokens = b.tokens - window })

abbrev pub first_bucket : ℕ → ℕ → ℕ → TokenBucket
first_bucket limit window now = record { tokens = limit * window - window; last_refill = now }

abbrev pub on_bucket : ℕ → ℕ → ℕ → Option TokenBucket → Bool × TokenBucket
on_bucket limit window now none = (true, first_bucket limit window now)
on_bucket limit window now (some b) = take_token window (refill_bucket limit window now b)

unfoldable pub allow_login : ℕ → String → LoginLimiter → Bool × LoginLimiter
allow_login now ip rl =
    let (ok, b) = on_bucket rl.limit rl.window now (lookup ip rl.buckets) in
    (ok, record rl { buckets = insert ip b rl.buckets })

-- The tick of `saveLoop`: the full buckets are deleted.
abbrev pub without_full : ℕ → Assoc TokenBucket → Assoc TokenBucket
without_full full [] = []
without_full full ((ip, b) ∷ rest) =
    let kept = without_full full rest in if leb full b.tokens then kept else (ip, b) ∷ kept

unfoldable pub sweep : LoginLimiter → LoginLimiter
sweep rl = record rl { buckets = without_full (full_tokens rl) rl.buckets }

abbrev pub second : ℕ
second = 1000000000

-- A saved entry has its tokens and the time in seconds.
abbrev pub persisted : Assoc TokenBucket → Assoc TokenBucket
persisted [] = []
persisted ((ip, b) ∷ rest) =
    (ip, record b { last_refill = b.last_refill / second }) ∷ persisted rest

unfoldable pub save_state : LoginLimiter → Assoc TokenBucket
save_state rl = persisted rl.buckets

-- What is made of a saved entry: nothing, if it is older than the window.
unfoldable pub load_entry : ℕ → ℕ → ℕ → TokenBucket → Option TokenBucket
load_entry limit window now e =
    let age = now - e.last_refill * second in
    if ltb window age
    then none
    else some (record { tokens = min (e.tokens + age * limit) (limit * window); last_refill = now })

abbrev pub add_loaded : String → Option TokenBucket → Assoc TokenBucket → Assoc TokenBucket
add_loaded ip none rest = rest
add_loaded ip (some b) rest = (ip, b) ∷ rest

abbrev pub load_entries : ℕ → ℕ → ℕ → Assoc TokenBucket → Assoc TokenBucket
load_entries limit window now [] = []
load_entries limit window now ((ip, e) ∷ rest) =
    add_loaded ip (load_entry limit window now e) (load_entries limit window now rest)

unfoldable pub load_state : ℕ → Assoc TokenBucket → LoginLimiter → LoginLimiter
load_state now entries rl = record rl { buckets = load_entries rl.limit rl.window now entries }

-- `rateLimitMiddleware`: the status of a refusal, or the request goes on.
unfoldable pub rate_limit_middleware : ℕ → String → LoginLimiter → Option ℕ × LoginLimiter
unfolding allow_login
rate_limit_middleware now ip rl =
    let (ok, next) = allow_login now ip rl in (if ok then none else some 429, next)
