-- ===== src/Leader/Loop.antt =====
-- backend/sharedstate/leader.go: `RunLeadership`, a step for each tick, and the end of its context.
use logmara.Prelude.{ℕ, ◌+◌, leb, Bool, true, false, List, [], ◌∷◌, ◌++◌, if◌then◌else◌, Reply}
use logmara.Leader.Lock.{RedisKey, Attempt, acquire, renew, release}

-- `LeadershipOpts`; of the two callbacks, whether they are set.
pub record LeadershipOpts : Type 0 where
  pub tick : ℕ
  pub max_transient_fails : ℕ
  pub on_become_leader : Bool
  pub on_step_down : Bool

pub data Call : Type 0 where
  became_leader stepped_down : Call

-- `leaderCancel != nil`, `transientFails`, and the callbacks made so far.
pub record Leadership : Type 0 where
  pub is_leader : Bool
  pub transient_fails : ℕ
  pub calls : List Call

-- The first lines of `RunLeadership`: thirty seconds and two failures by default.
unfoldable pub with_defaults : LeadershipOpts → LeadershipOpts
with_defaults o = record o {
  tick = if leb o.tick 0 then 30000000000 else o.tick;
  max_transient_fails = if leb o.max_transient_fails 0 then 2 else o.max_transient_fails;
}

abbrev pub call_if : Bool → Call → List Call → List Call
call_if b c cs = if b then cs ++ (c ∷ []) else cs

unfoldable pub step_down : LeadershipOpts → Leadership → Leadership
step_down o s = record s { is_leader = false; calls = call_if o.on_step_down stepped_down s.calls }

unfoldable pub become_leader : LeadershipOpts → Leadership → Leadership
become_leader o s = record s {
  is_leader = true;
  calls = call_if o.on_become_leader became_leader s.calls;
}

-- A transient failure of `Renew`.
unfoldable pub count_failure : LeadershipOpts → Leadership → Leadership
count_failure o s =
    let failed = record s { transient_fails = s.transient_fails + 1 } in
    if leb o.max_transient_fails failed.transient_fails then step_down o failed else failed

-- The `switch` on what `Renew` returned.
unfoldable pub on_renewed : LeadershipOpts → Bool × Bool → Leadership → Leadership
on_renewed o (ok, lost) s =
    if ok
    then record s { transient_fails = 0 }
    else (if lost then step_down o s else count_failure o s)

-- What the world does in one tick: the attempts of `Acquire`, and the call of `Renew`.
pub record World : Type 0 where
  pub attempts : ℕ → Attempt
  pub renewal_reply : Reply

module _ (redis : RedisKey) where
  open redis use {Db}

  abbrev pub if_acquired : LeadershipOpts → Bool × Db → Leadership → Leadership × Db
  if_acquired o (ok, db) s = (if ok then become_leader o s else s, db)

  abbrev pub if_renewed : LeadershipOpts → (Bool × Bool) × Db → Leadership → Leadership × Db
  if_renewed o (r, db) s = (on_renewed o r s, db)

  unfoldable pub on_tick : LeadershipOpts → World → ℕ → Leadership × Db → Leadership × Db
  on_tick o w id (s, db) =
      if s.is_leader
      then if_renewed o (renew redis w.renewal_reply id db) s
      else if_acquired o (acquire redis w.attempts id db) s

  -- The context is done.
  unfoldable pub on_done : LeadershipOpts → Reply → ℕ → Leadership × Db → Leadership × Db
  on_done o r id (s, db) = (step_down o s, if s.is_leader then release redis r id db else db)

  -- Before a tick, others may have changed the key.
  unfoldable pub run_ticks :
      LeadershipOpts → List (World × (Db → Db)) → ℕ → Leadership × Db → Leadership × Db
  run_ticks o [] id c = c
  run_ticks o ((w, others) ∷ ws) id (s, db) = run_ticks o ws id (on_tick o w id (s, others db))

  -- The state before the loop.
  abbrev pub start : Leadership
  start = record { is_leader = false; transient_fails = 0; calls = [] }

  -- `RunLeadership`: a first `Acquire`, ticks, and the end of the context.
  unfoldable pub run_leadership :
      LeadershipOpts → (ℕ → Attempt) → List (World × (Db → Db)) → Reply → ℕ → Db → Leadership × Db
  run_leadership opts first ws last id db =
      let o = with_defaults opts in
      on_done o last id (run_ticks o ws id (if_acquired o (acquire redis first id db) start))
