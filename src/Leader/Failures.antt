-- ===== src/Leader/Failures.antt =====
-- backend/sharedstate/leader.go: `RunLeadership` when renewals are lost or fail, and the order of its
-- callbacks.
use logmara.Prelude.{
  ℕ, ◌+◌, ◌<◌, ◌≤◌, ◌≡◌, ◌≢◌, leb, true, false, if_splits, refl, ap, ◌∙◌, List, [], ◌∷◌, ◌++◌,
  arith, le→leb, length, Reply, answered, failed_before, failed_after,
}
use logmara.Leader.Lock.{RedisKey, acquire, renew, is_holder, renew_script}
use logmara.Leader.Loop.{
  LeadershipOpts, Leadership, step_down, become_leader, count_failure, on_renewed, World, on_tick,
  run_ticks,
}

not_below : (m n : ℕ) → n < m → leb m n ≡ false
not_below m n e = ground arith

abbrev pub Fails : Reply → Type 0
Fails r = r ≢ answered

module _ (redis : RedisKey) where
  open redis use {Db, get}

  renew-lost :
      (id : ℕ) (db : Db)
      → is_holder id (get db) ≡ false
      → (renew redis answered id db).0 ≡ (false, true)
  unfolding renew renew_script
  renew-lost id db e = rw e refl

  renew-failed : (r : Reply) (id : ℕ) (db : Db) → Fails r → (renew redis r id db).0 ≡ (false, false)
  unfolding renew
  renew-failed answered id db fails = absurd (fails refl)
  renew-failed failed_before id db fails = refl
  renew-failed failed_after id db fails = refl

  renewed_tick :
      (o : LeadershipOpts) (w : World) (id : ℕ) (s : Leadership) (db : Db)
      → s.is_leader ≡ true
      → (on_tick redis o w id (s, db)).0 ≡ on_renewed o (renew redis w.renewal_reply id db).0 s
  unfolding on_tick
  renewed_tick o w id s db leads =
      if_splits
        (λ (r : Leadership × Db). r.0 ≡ on_renewed o (renew redis w.renewal_reply id db).0 s)
        s.is_leader (λ e. refl) (λ e. absurd (cc))

  -- A leading instance whose renewal is answered, while the key is not its own, stops leading in
  -- that tick.
  pub lost_steps_down :
      (o : LeadershipOpts) (w : World) (id : ℕ) (s : Leadership) (db : Db)
      → s.is_leader ≡ true
      → w.renewal_reply ≡ answered
      → is_holder id (get db) ≡ false
      → (on_tick redis o w id (s, db)).0 ≡ step_down o s
  unfolding on_renewed
  lost_steps_down o w id s db leads reply not_ours =
      renewed_tick o w id s db leads
      ∙ ap (λ r. on_renewed o r s)
          (ap (λ r. (renew redis r id db).0) reply ∙ renew-lost id db not_ours)

  failed_tick :
      (o : LeadershipOpts) (w : World) (id : ℕ) (s : Leadership) (db : Db)
      → s.is_leader ≡ true
      → Fails w.renewal_reply
      → (on_tick redis o w id (s, db)).0 ≡ count_failure o s
  unfolding on_renewed
  failed_tick o w id s db leads fails =
      renewed_tick o w id s db leads
      ∙ ap (λ r. on_renewed o r s) (renew-failed w.renewal_reply id db fails)

  count_below :
      (o : LeadershipOpts) (s : Leadership)
      → s.transient_fails + 1 < o.max_transient_fails
      → count_failure o s ≡ record s { transient_fails = s.transient_fails + 1 }
  unfolding count_failure
  count_below o s lt = rw (not_below o.max_transient_fails (s.transient_fails + 1) lt) refl

  count_at_limit :
      (o : LeadershipOpts) (s : Leadership)
      → o.max_transient_fails ≤ s.transient_fails + 1
      → count_failure o s ≡ step_down o (record s { transient_fails = s.transient_fails + 1 })
  unfolding count_failure
  count_at_limit o s le = rw (le→leb o.max_transient_fails (s.transient_fails + 1) le) refl

  abbrev pub Ticks : Type 0
  Ticks = List (World × (Db → Db))

  abbrev pub AllFail : Ticks → Type 0
  AllFail [] = Unit
  AllFail ((w, others) ∷ ws) = Fails w.renewal_reply × AllFail ws

  abbrev pub with_fails : ℕ → Leadership → Leadership
  with_fails n s = record s { transient_fails = n }

  tolerated :
      (o : LeadershipOpts) (ws : Ticks) (id : ℕ) (s : Leadership) (db : Db)
      → s.is_leader ≡ true
      → AllFail ws
      → s.transient_fails + length ws < o.max_transient_fails
      → (run_ticks redis o ws id (s, db)).0 ≡ with_fails (s.transient_fails + length ws) s
  unfolding run_ticks
  tolerated o [] id s db leads fails lt = ap (λ n. with_fails n s) (omega arith)
  tolerated o ((w, others) ∷ ws) id s db leads (fail, fails) lt =
      let tick = failed_tick o w id s (others db) leads fail ∙ count_below o s (omega arith) in
      let next = (on_tick redis o w id (s, others db)).1 in
      ap (λ s'. (run_ticks redis o ws id (s', next)).0) tick
      ∙ tolerated o ws id (with_fails (s.transient_fails + 1) s) next leads fails (omega arith)
      ∙ ap (λ n. with_fails n s) (omega arith)

  run_ticks-append :
      (o : LeadershipOpts) (ws vs : Ticks) (id : ℕ) (c : Leadership × Db)
      → run_ticks redis o (ws ++ vs) id c ≡ run_ticks redis o vs id (run_ticks redis o ws id c)
  unfolding run_ticks
  run_ticks-append o [] vs id c = refl
  run_ticks-append o ((w, others) ∷ ws) vs id (s, db) =
      run_ticks-append o ws vs id (on_tick redis o w id (s, others db))

  -- A leading instance with `n` failures counted goes on leading through failing renewals while
  -- these stay below the limit, and makes no callback; the failing renewal that reaches the limit
  -- makes it step down.
  pub failing_ticks :
      (o : LeadershipOpts) (ws : Ticks) (w : World) (others : Db → Db) (id : ℕ) (s : Leadership)
      (db : Db)
      → s.is_leader ≡ true
      → AllFail ws
      → Fails w.renewal_reply
      → s.transient_fails + length ws + 1 ≡ o.max_transient_fails
      → ((run_ticks redis o ws id (s, db)).0 ≡ with_fails (s.transient_fails + length ws) s)
        × ((run_ticks redis o (ws ++ ((w, others) ∷ [])) id (s, db)).0
            ≡ step_down o (with_fails o.max_transient_fails s))
  unfolding run_ticks
  failing_ticks o ws w others id s db leads fails fail limit =
      let before = tolerated o ws id s db leads fails (omega arith) in
      let c = run_ticks redis o ws id (s, db) in
      let s1 = with_fails (s.transient_fails + length ws) s in
      (
        before,
        ap (λ r. r.0) (run_ticks-append o ws ((w, others) ∷ []) id (s, db))
            ∙ ap (λ s'. (on_tick redis o w id (s', others c.1)).0) before
            ∙ failed_tick o w id s1 (others c.1) leads fail
            ∙ count_at_limit o s1 (omega arith)
            ∙ ap (λ n. step_down o (with_fails n s)) limit,
      )

  leads_again :
      (o : LeadershipOpts) (w : World) (id : ℕ) (s : Leadership) (db : Db)
      → s.is_leader ≡ false
      → (acquire redis w.attempts id db).0 ≡ true
      → (on_tick redis o w id (s, db)).0 ≡ become_leader o s
  unfolding on_tick
  leads_again o w id s db not_leading acquired =
      if_splits (λ (r : Leadership × Db). r.0 ≡ become_leader o s) s.is_leader (λ e. absurd (cc))
        (λ e. rw acquired refl)

  -- An instance that stepped down with its count of failures at the limit and leads again steps
  -- down at the first failing renewal of the new term, whatever the limit is.
  pub first_failure_steps_down :
      (o : LeadershipOpts) (w w' : World) (id : ℕ) (s : Leadership) (db db' : Db)
      → s.is_leader ≡ false
      → o.max_transient_fails ≤ s.transient_fails
      → (acquire redis w.attempts id db).0 ≡ true
      → Fails w'.renewal_reply
      → let s1 = (on_tick redis o w id (s, db)).0 in
        (s1.is_leader ≡ true) × ((on_tick redis o w' id (s1, db')).0.is_leader ≡ false)
  unfolding become_leader step_down
  first_failure_steps_down o w w' id s db db' not_leading stale acquired fail =
      let again = leads_again o w id s db not_leading acquired in
      (
        ap (λ s'. s'.is_leader) again,
        ap (λ s'. (on_tick redis o w' id (s', db')).0.is_leader) again
            ∙ ap (λ s'. s'.is_leader)
                (failed_tick o w' id (become_leader o s) db' refl fail
                  ∙ count_at_limit o (become_leader o s) (omega arith)),
      )
