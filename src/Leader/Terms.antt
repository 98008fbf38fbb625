-- ===== src/Leader/Terms.antt =====
-- backend/sharedstate/leader.go: `RunLeadership`. When an instance leads, how long it puts up with
-- failures, and the order of the callbacks.
use logmara.Prelude.{
  ℕ, ◌+◌, ◌<◌, ◌≡◌, ◌≢◌, leb, Bool, true, false, if_splits, refl, inl, inr, ◌⊎◌, arith, answered,
}
use logmara.Leader.Lock.{RedisKey}
use logmara.Leader.Loop.{
  LeadershipOpts, Leadership, step_down, count_failure, on_renewed, World, if_acquired, if_renewed,
  on_tick,
}
use logmara.Leader.Holding.{Holds, acquire-Holds, RenewTells, renew-RenewTells}

below_limit : (m n : ℕ) → leb m n ≡ false → n < m
below_limit m n e = ground arith

module _ (redis : RedisKey) where
  open redis use {Db, get}

  -- What a tick leaves: leading, it holds the key, or it led before, the renewal failed, and the
  -- failures counted are below the limit.
  abbrev pub LeadsRightly : LeadershipOpts → World → ℕ → Leadership → Leadership × Db → Type 0
  LeadsRightly o w id s (s', db') =
      s'.is_leader ≡ true
      → Holds redis id db'
        ⊎ ((s.is_leader ≡ true)
            × (w.renewal_reply ≢ answered)
            × (s'.transient_fails < o.max_transient_fails))

  acquired-LeadsRightly :
      (o : LeadershipOpts) (w : World) (id : ℕ) (s : Leadership) (r : Bool × Db)
      → s.is_leader ≡ false
      → (r.0 ≡ true → Holds redis id r.1)
      → LeadsRightly o w id s (if_acquired redis o r s)
  acquired-LeadsRightly o w id s (true, db) f holds = λ t. inl (holds refl)
  acquired-LeadsRightly o w id s (false, db) f holds = λ t. absurd (cc)

  renewed-LeadsRightly :
      (o : LeadershipOpts) (w : World) (id : ℕ) (s : Leadership) (db : Db) (r : (Bool × Bool) × Db)
      → s.is_leader ≡ true
      → RenewTells redis id w.renewal_reply db r
      → LeadsRightly o w id s (if_renewed redis o r s)
  unfolding on_renewed step_down count_failure
  renewed-LeadsRightly o w id s db ((true, lost), db') e tells = λ t. inl (tells.0 refl).1
  renewed-LeadsRightly o w id s db ((false, true), db') e tells = λ t. absurd (cc)
  renewed-LeadsRightly o w id s db ((false, false), db') e tells =
      if_splits (λ s'. LeadsRightly o w id s (s', db'))
        (leb o.max_transient_fails (s.transient_fails + 1)) (λ over. λ t. absurd (cc))
        (λ under. λ t.
          inr
            (e, tells.2 refl refl, below_limit o.max_transient_fails (s.transient_fails + 1) under))

  -- After a tick, an instance that leads holds the key, or it led before, its renewal was not
  -- answered, and its count of failures is below the limit.
  pub on_tick-LeadsRightly :
      (o : LeadershipOpts) (w : World) (id : ℕ) (s : Leadership) (db : Db)
      → LeadsRightly o w id s (on_tick redis o w id (s, db))
  unfolding on_tick
  on_tick-LeadsRightly o w id s db =
      if_splits (LeadsRightly o w id s) s.is_leader
        (λ e. renewed-LeadsRightly o w id s db _ e (renew-RenewTells redis w.renewal_reply id db))
        (λ e. acquired-LeadsRightly o w id s _ e (acquire-Holds redis w.attempts id db))
