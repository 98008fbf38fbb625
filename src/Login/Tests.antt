-- ===== src/Login/Tests.antt =====
-- Runs of a limiter that allows two attempts in ten nanoseconds.
use logmara.Prelude.{◌+◌, ◌-◌, ◌*◌, ◌≤◌, ◌≡◌, ◌≢◌, none, refl, some, [], ◌∷◌, lookup, insert, arith}
use logmara.Login.Bucket.{
  LoginLimiter, refill_bucket, take_token, allow_login, sweep, save_state, load_state, load_entry,
  rate_limit_middleware,
}
use logmara.Login.Bounds.{Attempts, passes, passes-bounded}
use logmara.Login.Sweeps.{after_attempts, sweep_keeps_tried}

abbrev two_in_ten : LoginLimiter
two_in_ten = record { buckets = []; limit = 2; window = 10 }

abbrev burst : Attempts
burst = ("a", 1) ∷ ("a", 2) ∷ ("b", 2) ∷ ("a", 2) ∷ ("a", 9) ∷ []

burst_test : passes "a" burst two_in_ten ≡ 3
unfolding allow_login refill_bucket take_token lookup insert
burst_test = refl

middleware_test :
    (rate_limit_middleware 2 "a" (after_attempts (("a", 1) ∷ ("a", 1) ∷ []) two_in_ten)).0
    ≡ some 429
unfolding rate_limit_middleware allow_login refill_bucket take_token lookup insert
middleware_test = refl

-- A bucket that is saved and loaded: the time is cut to seconds, and the tokens of the cut second come
-- on top.
restart_test :
    load_state 3500000000
      (save_state (record {
        buckets = ("a", record { tokens = 0; last_refill = 2900000000 }) ∷ [];
        limit = 1;
        window = 60000000000;
      }))
      (record { buckets = []; limit = 1; window = 60000000000 })
    ≡ record {
      buckets = ("a", record { tokens = 1500000000; last_refill = 3500000000 }) ∷ [];
      limit = 1;
      window = 60000000000;
    }
unfolding load_state save_state load_entry
restart_test = refl

passes-bounded_example : passes "a" burst two_in_ten * 10 ≤ 2 * 10 + (9 - 1) * 2
unfolding lookup
passes-bounded_example =
    passes-bounded "a" burst two_in_ten 1 (omega arith)
      (omega arith, (omega arith, (omega arith, (omega arith, (omega arith, tt))))) refl

sweep_keeps_tried_example :
    (let end = after_attempts burst two_in_ten in
      (lookup "b" (sweep end).buckets ≡ lookup "b" end.buckets)
      × (lookup "b" (sweep end).buckets ≢ none))
sweep_keeps_tried_example = sweep_keeps_tried "b" burst two_in_ten (omega arith) (omega arith) refl
