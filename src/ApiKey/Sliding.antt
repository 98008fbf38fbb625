-- ===== src/ApiKey/Sliding.antt =====
-- backend/sharedstate/ratelimiter.go: the sliding window in Redis. The sorted set is the list of its
-- scores, the newest first; it expires only when all its scores are out of the window.
use logmara.Prelude.{
  ℕ, ◌+◌, ltb, leb, Bool, true, false, List, ◌∷◌, length, filter, if◌then◌else◌, Reply, answered,
  failed_before, failed_after,
}

-- A score above `now_ms - window_ms`, which stays.
abbrev pub in_window : ℕ → ℕ → ℕ → Bool
in_window now window score = ltb now (score + window)

-- `slidingWindowScript`: the answer 1 is `true`.
unfoldable pub sliding_window_script : ℕ → ℕ → ℕ → List ℕ → Bool × List ℕ
sliding_window_script now window limit hits =
    let kept = filter (in_window now window) hits in
    if leb limit (length kept) then (false, kept) else (true, now ∷ kept)

abbrev pub or_open : Reply → Bool × List ℕ → List ℕ → Bool × List ℕ
or_open answered r before = r
or_open failed_before r before = (true, before)
or_open failed_after (allowed, after) before = (true, after)

-- `RedisRateLimiter.Allow`: an error lets the request pass.
unfoldable pub redis_allow : Reply → ℕ → ℕ → ℕ → List ℕ → Bool × List ℕ
redis_allow r now window limit hits = or_open r (sliding_window_script now window limit hits) hits
