-- ===== src/ApiKey/Limiters.antt =====
-- backend/middleware/apikey.go: the limiter of each key, in memory or shared over Redis.
use logmara.Prelude.{
  ℕ, ◌-◌, ◌==◌, ltb, Bool, true, false, Option, none, some, List, [], ◌∷◌, if◌then◌else◌, Reply,
}
use logmara.ApiKey.Sliding.{redis_allow}

pub record RateLimiter : Type 0 where
  pub tokens : ℕ
  pub max_token : ℕ

unfoldable pub new_rate_limiter : ℕ → RateLimiter
new_rate_limiter max = record { tokens = max; max_token = max }

-- A tick of the goroutine `refill`, once a second.
unfoldable pub refill : RateLimiter → RateLimiter
refill rl = record rl { tokens = rl.max_token }

unfoldable pub allow : RateLimiter → Bool × RateLimiter
allow rl = if ltb 0 rl.tokens then (true, record rl { tokens = rl.tokens - 1 }) else (false, rl)

-- `memoryKeyLimiter`, and `redisKeyLimiter` with its limit; its window is a minute.
pub data KeyLimiter : Type 0 where
  memory_limiter : RateLimiter → KeyLimiter
  redis_limiter : ℕ → KeyLimiter

abbrev pub minute_ms : ℕ
minute_ms = 60000

-- The map `rateLimiters`, whether `sharedRateClient` is set, and the sorted sets in Redis.
pub record Limiters : Type 0 where
  pub rate_limiters : List (ℕ × KeyLimiter)
  pub shared : Bool
  pub redis_hits : ℕ → List ℕ

unfoldable pub find_limiter : ℕ → List (ℕ × KeyLimiter) → Option KeyLimiter
find_limiter id [] = none
find_limiter id ((k, rl) ∷ rest) = if k == id then some rl else find_limiter id rest

-- `rateLimiters[keyID] = rl`.
unfoldable pub put_limiter : ℕ → KeyLimiter → List (ℕ × KeyLimiter) → List (ℕ × KeyLimiter)
put_limiter id new [] = (id, new) ∷ []
put_limiter id new ((k, rl) ∷ rest) =
    if k == id then (k, new) ∷ rest else (k, rl) ∷ put_limiter id new rest

unfoldable pub drop_limiter : ℕ → List (ℕ × KeyLimiter) → List (ℕ × KeyLimiter)
drop_limiter id [] = []
drop_limiter id ((k, rl) ∷ rest) =
    if k == id then drop_limiter id rest else (k, rl) ∷ drop_limiter id rest

abbrev pub or_create : Limiters → ℕ → ℕ → Option KeyLimiter → KeyLimiter
or_create s id limit (some rl) = rl
or_create s id limit none =
    if s.shared then redis_limiter limit else memory_limiter (new_rate_limiter limit)

-- `getRateLimiter`: the entry, made if there is none. The limit of a key that has one is ignored.
unfoldable pub get_rate_limiter : ℕ → ℕ → Limiters → KeyLimiter × Limiters
get_rate_limiter id limit s =
    let rl = or_create s id limit (find_limiter id s.rate_limiters) in
    (rl, record s { rate_limiters = put_limiter id rl s.rate_limiters })

-- `RemoveRateLimiter`.
unfoldable pub remove_rate_limiter : ℕ → Limiters → Limiters
remove_rate_limiter id s = record s { rate_limiters = drop_limiter id s.rate_limiters }

-- `SetSharedRateClient`.
unfoldable pub set_shared_rate_client : Bool → Limiters → Limiters
set_shared_rate_client set s = record s { shared = set }

abbrev pub hits_put : ℕ → List ℕ → (ℕ → List ℕ) → ℕ → List ℕ
hits_put id hits table j = if id == j then hits else table j

-- `allow` of a key's limiter: the bucket in the map, or the sorted set in Redis, changes.
unfoldable pub key_allow : Reply → ℕ → ℕ → KeyLimiter → Limiters → Bool × Limiters
key_allow r now id (memory_limiter rl) s =
    let (ok, rl') = allow rl in
    (ok, record s { rate_limiters = put_limiter id (memory_limiter rl') s.rate_limiters })
key_allow r now id (redis_limiter limit) s =
    let (ok, hits) = redis_allow r now minute_ms limit (s.redis_hits id) in
    (ok, record s { redis_hits = hits_put id hits s.redis_hits })

-- The two calls of `APIKeyAuth`.
unfoldable pub limit_request : Reply → ℕ → ℕ → ℕ → Limiters → Bool × Limiters
limit_request r now id limit s =
    let (rl, s1) = get_rate_limiter id limit s in key_allow r now id rl s1
