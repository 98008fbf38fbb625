-- ===== src/Leader/Callbacks.antt =====
-- backend/sharedstate/leader.go: the order of the callbacks of `RunLeadership`.
use logmara.Prelude.{
  ℕ, ◌+◌, ◌≡◌, leb, Bool, true, false, if◌then◌else◌, if_splits, refl, sym, ap, ◌∙◌, subst, List,
  [], ◌∷◌, ◌++◌, append_assoc, append-nil, Reply,
}
use logmara.Leader.Lock.{RedisKey, Attempt, acquire, renew}
use logmara.Leader.Loop.{
  LeadershipOpts, Call, became_leader, stepped_down, Leadership, with_defaults, step_down,
  become_leader, count_failure, on_renewed, World, on_tick, on_done, run_ticks, start,
  run_leadership,
}

-- The calls alternate, from an instance that leads or not to one that leads or not.
abbrev pub Alternates : Bool → List Call → Bool → Type 0
Alternates before [] after = before ≡ after
Alternates false (became_leader ∷ cs) after = Alternates true cs after
Alternates true (stepped_down ∷ cs) after = Alternates false cs after
Alternates false (stepped_down ∷ cs) after = ⊥
Alternates true (became_leader ∷ cs) after = ⊥

Alternates-append :
    (a b c : Bool) (xs ys : List Call)
    → Alternates a xs b
    → Alternates b ys c
    → Alternates a (xs ++ ys) c
Alternates-append a b c [] ys e h = subst (λ x. Alternates x ys c) (sym e) h
Alternates-append false b c (became_leader ∷ xs) ys e h = Alternates-append true b c xs ys e h
Alternates-append true b c (stepped_down ∷ xs) ys e h = Alternates-append false b c xs ys e h
Alternates-append false b c (stepped_down ∷ xs) ys e h = absurd e
Alternates-append true b c (became_leader ∷ xs) ys e h = absurd e

-- Both callbacks are set.
abbrev pub BothSet : LeadershipOpts → Type 0
BothSet o = (o.on_become_leader ≡ true) × (o.on_step_down ≡ true)

-- The calls between two states.
abbrev pub CallsFrom : Leadership → Leadership → Type 0
CallsFrom s s' =
    (cs : List Call) × (s'.calls ≡ s.calls ++ cs) × Alternates s.is_leader cs s'.is_leader

no_calls : (s s' : Leadership) → s'.calls ≡ s.calls → s.is_leader ≡ s'.is_leader → CallsFrom s s'
no_calls s s' c l = ([], c ∙ sym (append-nil s.calls), l)

step_down-CallsFrom :
    (o : LeadershipOpts) (s s1 : Leadership)
    → BothSet o
    → s.is_leader ≡ true
    → s1.calls ≡ s.calls
    → CallsFrom s (step_down o s1)
unfolding step_down
step_down-CallsFrom o s s1 set leads same = (
  stepped_down ∷ [],
  rw (set.1, same) refl,
  subst (λ b. Alternates b (stepped_down ∷ []) false) (sym leads) refl,
)

on_renewed-CallsFrom :
    (o : LeadershipOpts) (r : Bool × Bool) (s : Leadership)
    → BothSet o
    → s.is_leader ≡ true
    → CallsFrom s (on_renewed o r s)
unfolding on_renewed count_failure
on_renewed-CallsFrom o (true, lost) s set leads =
    no_calls s (record s { transient_fails = 0 }) refl refl
on_renewed-CallsFrom o (false, true) s set leads = step_down-CallsFrom o s s set leads refl
on_renewed-CallsFrom o (false, false) s set leads =
    if_splits (CallsFrom s) (leb o.max_transient_fails (s.transient_fails + 1))
      (λ e. step_down-CallsFrom o s _ set leads refl)
      (λ e. no_calls s (record s { transient_fails = s.transient_fails + 1 }) refl refl)

acquired-CallsFrom :
    (o : LeadershipOpts) (ok : Bool) (s : Leadership)
    → BothSet o
    → s.is_leader ≡ false
    → CallsFrom s (if ok then become_leader o s else s)
unfolding become_leader
acquired-CallsFrom o false s set out = no_calls s s refl refl
acquired-CallsFrom o true s set out = (
  became_leader ∷ [],
  rw set.0 refl,
  subst (λ b. Alternates b (became_leader ∷ []) true) (sym out) refl,
)

join_calls : (s t u : Leadership) → CallsFrom s t → CallsFrom t u → CallsFrom s u
join_calls s t u (xs, e, a) (ys, f, b) = (
  xs ++ ys,
  f ∙ ap (λ cs. cs ++ ys) e ∙ append_assoc s.calls xs ys,
  Alternates-append s.is_leader t.is_leader u.is_leader xs ys a b,
)

step_down-calls :
    (o : LeadershipOpts) (s : Leadership)
    → o.on_step_down ≡ true
    → (step_down o s).calls ≡ s.calls ++ (stepped_down ∷ [])
unfolding step_down
step_down-calls o s set = rw set refl

module _ (redis : RedisKey) where
  open redis use {Db}

  on_tick-CallsFrom :
      (o : LeadershipOpts) (w : World) (id : ℕ) (s : Leadership) (db : Db)
      → BothSet o
      → CallsFrom s (on_tick redis o w id (s, db)).0
  unfolding on_tick
  on_tick-CallsFrom o w id s db set =
      if_splits (λ (r : Leadership × Db). CallsFrom s r.0) s.is_leader
        (λ e. on_renewed-CallsFrom o (renew redis w.renewal_reply id db).0 s set e)
        (λ e. acquired-CallsFrom o (acquire redis w.attempts id db).0 s set e)

  run_ticks-CallsFrom :
      (o : LeadershipOpts) (ws : List (World × (Db → Db))) (id : ℕ) (s : Leadership) (db : Db)
      → BothSet o
      → CallsFrom s (run_ticks redis o ws id (s, db)).0
  unfolding run_ticks
  run_ticks-CallsFrom o [] id s db set = no_calls s s refl refl
  run_ticks-CallsFrom o ((w, others) ∷ ws) id s db set =
      let (s1, db1) = on_tick redis o w id (s, others db) in
      join_calls s s1 (run_ticks redis o ws id (s1, db1)).0
        (on_tick-CallsFrom o w id s (others db) set) (run_ticks-CallsFrom o ws id s1 db1 set)

  -- With both callbacks set, the calls of a run of `RunLeadership` are calls that alternate, first
  -- `OnBecomeLeader`, and then one more `OnStepDown`, whether the instance leads at the end or not.
  pub run_leadership-calls :
      (opts : LeadershipOpts) (first : ℕ → Attempt) (ws : List (World × (Db → Db))) (last : Reply)
      (id : ℕ) (db : Db)
      → BothSet opts
      → (cs : List Call) × (leads : Bool) × ((run_leadership redis opts first ws last id db).0.calls
          ≡ cs ++ (stepped_down ∷ []))
        × Alternates false cs leads
  unfolding run_leadership with_defaults on_done
  run_leadership-calls opts first ws last id db set =
      let o = with_defaults opts in
      let begin = start redis in
      let (ok, db1) = acquire redis first id db in
      let s1 = (if ok then become_leader o begin else begin) in
      let s2 = (run_ticks redis o ws id (s1, db1)).0 in
      let (cs, e, a) =
        join_calls begin s1 s2 (acquired-CallsFrom o ok begin set refl)
          (run_ticks-CallsFrom o ws id s1 db1 set) in
      (cs, s2.is_leader, step_down-calls o s2 set.1 ∙ ap (λ c. c ++ (stepped_down ∷ [])) e, a)
