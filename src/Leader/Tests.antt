-- ===== src/Leader/Tests.antt =====
-- Runs of the election, on a key that is a value.
use logmara.Prelude.{
  ℕ, ◌≡◌, ◌≢◌, ◌==◌, Bool, true, false, Option, none, some, refl, List, [], ◌∷◌, ◌++◌,
  if◌then◌else◌, Reply, answered, failed_before, failed_after,
}
use logmara.Leader.Lock.{
  RedisKey, Attempt, acquire_from, acquire, renew_script, release_script, renew, release,
}
use logmara.Leader.Loop.{
  LeadershipOpts, Call, became_leader, stepped_down, Leadership, with_defaults, step_down,
  become_leader, count_failure, on_renewed, World, on_tick, on_done, run_ticks, run_leadership,
}
use logmara.Leader.Terms.{LeadsRightly, on_tick-LeadsRightly}
use logmara.Leader.Failures.{failing_ticks, with_fails}
use logmara.Leader.Callbacks.{Alternates, run_leadership-calls}

abbrev set_absent : ℕ → Option ℕ → Bool × Option ℕ
set_absent v none = (true, some v)
set_absent v (some w) = (false, some w)

set_absent-none :
    (v : ℕ) (db : Option ℕ)
    → db ≡ none
    → ((set_absent v db).0 ≡ true) × ((set_absent v db).1 ≡ some v)
set_absent-none v none e = (refl, refl)
set_absent-none v (some w) e = absurd (cc)

set_absent-some :
    (v w : ℕ) (db : Option ℕ)
    → db ≡ some w
    → ((set_absent v db).0 ≡ false) × ((set_absent v db).1 ≡ some w)
set_absent-some v w none e = absurd (cc)
set_absent-some v w (some u) e = (refl, e)

abbrev cell : RedisKey
cell = record {
  Db = Option ℕ;
  get = λ db. db;
  set_nx = set_absent;
  pexpire = λ db. db;
  del = λ db. none;
  set_nx-absent = set_absent-none;
  set_nx-present = set_absent-some;
  get-pexpire = λ db. refl;
  get-del = λ db. refl;
}

abbrev attempts_of : Reply → Reply → ℕ → Attempt
attempts_of a b n = record { reply = if n == 0 then a else b; cancelled = false }

abbrev tick_of : Reply → World
tick_of r = record { attempts = attempts_of answered answered; renewal_reply = r }

abbrev opts : LeadershipOpts
opts = record { tick = 0; max_transient_fails = 2; on_become_leader = true; on_step_down = true }

abbrev leading : Leadership
leading = record { is_leader = true; transient_fails = 0; calls = [] }

abbrev after_term : Leadership
after_term = record { is_leader = false; transient_fails = 2; calls = [] }

-- An instance that never leads makes one call, `OnStepDown`.
never_leads_test :
    (run_leadership cell opts (attempts_of answered answered) [] answered 1 (some 2)).0.calls
    ≡ stepped_down ∷ []
unfolding run_leadership with_defaults on_done step_down run_ticks acquire acquire_from
never_leads_test = refl

-- A term ends after two failures, and the key is free again later.
two_terms_test :
    (run_leadership cell opts
      (attempts_of answered answered)
      ((tick_of failed_before, λ db. db)
        ∷ (tick_of failed_after, λ db. none)
        ∷ (tick_of answered, λ db. none)
        ∷ [])
      answered
      1
      none)
    ≡ (
      record {
        is_leader = false;
        transient_fails = 2;
        calls = became_leader ∷ stepped_down ∷ became_leader ∷ stepped_down ∷ [];
      },
      none,
    )
unfolding run_leadership with_defaults on_done step_down run_ticks acquire acquire_from on_tick
    renew renew_script on_renewed count_failure become_leader release release_script
two_terms_test = refl

on_tick-LeadsRightly_example :
    LeadsRightly cell opts
      (tick_of failed_before)
      1
      leading
      (on_tick cell opts (tick_of failed_before) 1 (leading, some 1))
on_tick-LeadsRightly_example =
    on_tick-LeadsRightly cell opts (tick_of failed_before) 1 leading (some 1)

not_answered : failed_before ≢ answered
not_answered e = cc

failing_ticks_example :
    ((run_ticks cell opts ((tick_of failed_before, λ db. db) ∷ []) 1 (leading, some 1)).0
      ≡ with_fails cell 1 leading)
    × ((run_ticks cell opts
          ((tick_of failed_before, λ db. db) ∷ (tick_of failed_before, λ db. db) ∷ [])
          1
          (leading, some 1)).0
        ≡ step_down opts (with_fails cell 2 leading))
failing_ticks_example =
    failing_ticks cell opts ((tick_of failed_before, λ db. db) ∷ []) (tick_of failed_before)
      (λ db. db) 1 leading (some 1) refl (not_answered, tt) not_answered refl

run_leadership-calls_example :
    (cs : List Call) × (leads : Bool) × ((run_leadership cell opts
        (attempts_of answered answered)
        ((tick_of answered, λ db. some 2) ∷ [])
        answered
        1
        none).0.calls
      ≡ cs ++ (stepped_down ∷ []))
    × Alternates false cs leads
run_leadership-calls_example =
    run_leadership-calls cell opts (attempts_of answered answered)
      ((tick_of answered, λ db. some 2) ∷ []) answered 1 none (refl, refl)
