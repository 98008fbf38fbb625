-- ===== src/Alerts/Batches.antt =====
-- backend/alertengine/engine.go: what an evaluation sends. Rules have different ids, and each is
-- decided on the counter that it had when the evaluation began.
use logmara.Prelude.{
  ℕ, ◌≡◌, refl, sym, ap, ◌∙◌, Bool, true, false, not, ◌&&◌, List, [], ◌∷◌, ◌++◌, Option, length,
  if◌then◌else◌, String, str_eq, Text, filter, map, lookup, append-nil, append_assoc, All,
  Bool-cases, inl, inr, lookup-insert,
}
use logmara.Parser.Cache.{RegexpLib}
use logmara.Alerts.Conditions.{Rule, Entry, entry_matches}
use logmara.Alerts.Counter.{Counter, Store, Ask, current, count_up, should_fire}
use logmara.Alerts.Batch.{
  Notice, matched_entry, threshold_reached, audit_action, malformed_json, World, fire, ask_store,
  threshold_of, threshold_ask, single_ask, last_of, fire_each, on_matched, each_rule,
  threshold_rule, evaluate_batch, audit_rule, evaluate_audit_log, snippet_of, malformed_rule,
  evaluate_malformed_json,
}

-- A step for one rule: it sends what `spec` says of the rule's counter, marks the rule once for
-- each notice, and leaves the counters of other keys alone.
record IsLocal (r : Rule) (spec : Option Counter → List Notice) (step : World → World)
    : Type 0 where
  sends : (w : World) → (step w).sent ≡ w.sent ++ spec (lookup r.id w.store)
  marks : (w : World) → (step w).marked ≡ w.marked ++ map (λ n. r.id) (spec (lookup r.id w.store))
  others :
      (w : World) (j : String) → str_eq r.id j ≡ false → lookup j (step w).store ≡ lookup j w.store

abbrev pub Distinct : List Rule → Type 0
Distinct [] = Unit
Distinct (r ∷ rs) = All (λ q. str_eq r.id q.id ≡ false) rs × Distinct rs

-- All notices, each rule on its counter in the store given.
abbrev pub all_notices : (Rule → Option Counter → List Notice) → List Rule → Store → List Notice
all_notices spec [] s = []
all_notices spec (r ∷ rs) s = spec r (lookup r.id s) ++ all_notices spec rs s

module _ (spec : Rule → Option Counter → List Notice) (step : Rule → World → World)
    (local_steps : (r : Rule) → IsLocal r (spec r) (step r)) where
  all_notices-step :
      (r : Rule) (rs : List Rule) (w : World)
      → All (λ q. str_eq r.id q.id ≡ false) rs
      → all_notices spec rs (step r w).store ≡ all_notices spec rs w.store
  all_notices-step r [] w h = refl
  all_notices-step r (q ∷ rs) w h =
      rw ((local_steps r).others w q.id h.0, all_notices-step r rs w h.1)

  each_rule-sends :
      (rs : List Rule) (w : World)
      → Distinct rs
      → (each_rule step rs w).sent ≡ w.sent ++ all_notices spec rs w.store
  unfolding each_rule
  each_rule-sends [] w d = sym (append-nil w.sent)
  each_rule-sends (r ∷ rs) w d =
      each_rule-sends rs (step r w) d.1
      ∙ rw ((local_steps r).sends w, all_notices-step r rs w d.0)
          (append_assoc w.sent (spec r (lookup r.id w.store)) (all_notices spec rs w.store))

-- Whether the store lets a rule fire, from the counter of its key.
abbrev pub fires : Ask → ℕ → Option Counter → Bool
fires a now o = (count_up (current o now a.window) a now).0

abbrev pub when : Bool → Notice → List Notice
when b n = if b then n ∷ [] else []

ask_store-IsLocal :
    (r : Rule) (a : Ask) (now : ℕ) (n : Notice)
    → IsLocal r (λ o. when (fires a now o) n) (ask_store r a now n)
unfolding ask_store fire should_fire
ask_store-IsLocal r a now n = record {
  sends = λ w. elim (Bool-cases (fires a now (lookup r.id w.store))) [
    | inl e ↦ rw e
    | inr e ↦ rw (e, append-nil)
  ];
  marks = λ w. elim (Bool-cases (fires a now (lookup r.id w.store))) [
    | inl e ↦ rw e
    | inr e ↦ rw (e, append-nil)
  ];
  others = λ w j ne. elim (Bool-cases (fires a now (lookup r.id w.store))) [
    | inl e ↦ rw e (rw (lookup-insert r.id j _ w.store, ne))
    | inr e ↦ rw e (rw (lookup-insert r.id j _ w.store, ne))
  ];
}

-- A step that sends fixed notices and asks nothing.
abbrev Sends : Rule → List Notice → World → World → Type 0
Sends r ns w w' =
    (w'.sent ≡ w.sent ++ ns) × (w'.marked ≡ w.marked ++ map (λ n. r.id) ns) × (w'.store ≡ w.store)

fire_each-Sends :
    (r : Rule) (es : List Entry) (w : World)
    → Sends r (map (matched_entry r) es) w (fire_each r es w)
unfolding fire_each fire
fire_each-Sends r [] w = (sym (append-nil w.sent), sym (append-nil w.marked), refl)
fire_each-Sends r (e ∷ es) w =
    let (sent, marked, store) = fire_each-Sends r es (fire r (matched_entry r e) w) in
    (
      sent ∙ append_assoc w.sent (matched_entry r e ∷ []) (map (matched_entry r) es),
      marked ∙ append_assoc w.marked (r.id ∷ []) (map (λ n. r.id) (map (matched_entry r) es)),
      store,
    )

fixed-IsLocal :
    (r : Rule) (ns : List Notice) (step : World → World)
    → ((w : World) → Sends r ns w (step w))
    → IsLocal r (λ o. ns) step
fixed-IsLocal r ns step h = record {
  sends = λ w. (h w).0;
  marks = λ w. (h w).1;
  others = λ w j ne. ap (lookup j) (h w).2;
}

-- The notices of a threshold rule for the entries that match it.
abbrev pub matched_notices : Rule → ℕ → List Entry → Option Counter → List Notice
matched_notices r now [] o = []
matched_notices r now (e ∷ es) o =
    if r.fire_on_every_match
    then map (matched_entry r) (e ∷ es)
    else when (fires (threshold_ask r (length (e ∷ es))) now o)
        (threshold_reached r (length (e ∷ es)) (threshold_of r) (last_of e es))

nothing-IsLocal : (r : Rule) → IsLocal r (λ o. []) (λ w. w)
nothing-IsLocal r =
    fixed-IsLocal r [] (λ w. w) (λ w. (sym (append-nil w.sent), sym (append-nil w.marked), refl))

IsLocal-if :
    (r : Rule) (b : Bool) (s t : Option Counter → List Notice) (f g : World → World)
    → IsLocal r s f
    → IsLocal r t g
    → IsLocal r (λ o. if b then s o else t o) (λ w. if b then f w else g w)
IsLocal-if r true s t f g hf hg = hf
IsLocal-if r false s t f g hf hg = hg

on_matched-IsLocal :
    (r : Rule) (now : ℕ) (es : List Entry)
    → IsLocal r (matched_notices r now es) (on_matched r now es)
unfolding on_matched
on_matched-IsLocal r now [] = nothing-IsLocal r
on_matched-IsLocal r now (e ∷ es) =
    IsLocal-if r r.fire_on_every_match _ _ _ _ (fixed-IsLocal r _ _ (fire_each-Sends r (e ∷ es)))
      (ask_store-IsLocal r (threshold_ask r (length (e ∷ es))) now _)

module _ (lib : RegexpLib) where
  abbrev pub threshold_notices : (String → ℕ) → List Entry → Rule → Option Counter → List Notice
  threshold_notices at es r = matched_notices r (at r.id) (filter (entry_matches lib r) es)

  threshold_rule-IsLocal :
      (at : String → ℕ) (es : List Entry) (r : Rule)
      → IsLocal r (threshold_notices at es r) (threshold_rule lib at es r)
  unfolding threshold_rule
  threshold_rule-IsLocal at es r = on_matched-IsLocal r (at r.id) _

  -- For rules with different ids, the notices that a batch sends are, rule by rule: one for each
  -- matching entry, in order, if the rule fires on every match; else one with the number of
  -- matching entries and the last of them, if there are any and the rule's counter, as it stood
  -- before the batch, lets it fire. With notifications off nothing changes.
  pub evaluate_batch-sends :
      (rs : List Rule) (at : String → ℕ) (e : Entry) (es : List Entry) (w : World)
      → Distinct rs
      → ((evaluate_batch lib true rs at (e ∷ es) w).sent
          ≡ w.sent ++ all_notices (threshold_notices at (e ∷ es)) rs w.store)
        × (evaluate_batch lib false rs at (e ∷ es) w ≡ w)
  unfolding evaluate_batch
  evaluate_batch-sends rs at e es w d =
      (each_rule-sends _ _ (threshold_rule-IsLocal at (e ∷ es)) rs w d, refl)

abbrev pub audit_notices : String → (String → ℕ) → Rule → Option Counter → List Notice
audit_notices action at r o =
    if not (str_eq r.audit_action_filter "") && not (str_eq r.audit_action_filter action)
    then []
    else when (fires (single_ask r) (at r.id) o) (audit_action r action)

audit_rule-IsLocal :
    (action : String) (at : String → ℕ) (r : Rule)
    → IsLocal r (audit_notices action at r) (audit_rule action at r)
unfolding audit_rule
audit_rule-IsLocal action at r =
    IsLocal-if r _ _ _ _ _ (nothing-IsLocal r) (ask_store-IsLocal r (single_ask r) (at r.id) _)

-- For rules with different ids, an audit action notifies once for each rule that has no filter or
-- this action as its filter and whose counter lets it fire.
pub evaluate_audit_log-sends :
    (rs : List Rule) (at : String → ℕ) (action : String) (w : World)
    → Distinct rs
    → (evaluate_audit_log true rs at action w).sent
      ≡ w.sent ++ all_notices (audit_notices action at) rs w.store
unfolding evaluate_audit_log
evaluate_audit_log-sends rs at action w d =
    each_rule-sends _ _ (audit_rule-IsLocal action at) rs w d

abbrev pub malformed_notices : Text → (String → ℕ) → Rule → Option Counter → List Notice
malformed_notices line at r o =
    let n = malformed_json r (snippet_of line) in
    if r.fire_on_every_match then n ∷ [] else when (fires (single_ask r) (at r.id) o) n

malformed_rule-IsLocal :
    (line : Text) (at : String → ℕ) (r : Rule)
    → IsLocal r (malformed_notices line at r) (malformed_rule (snippet_of line) at r)
unfolding malformed_rule fire
malformed_rule-IsLocal line at r =
    IsLocal-if r r.fire_on_every_match _ _ _ _
      (fixed-IsLocal r (malformed_json r (snippet_of line) ∷ []) _ (λ w. (refl, refl, refl)))
      (ask_store-IsLocal r (single_ask r) (at r.id) _)

-- For rules with different ids, a malformed line notifies once for each rule that fires on every
-- match, whatever its counter, and for each other rule whose counter lets it fire.
pub evaluate_malformed_json-sends :
    (rs : List Rule) (at : String → ℕ) (line : Text) (w : World)
    → Distinct rs
    → (evaluate_malformed_json true rs at line w).sent
      ≡ w.sent ++ all_notices (malformed_notices line at) rs w.store
unfolding evaluate_malformed_json
evaluate_malformed_json-sends rs at line w d =
    each_rule-sends _ _ (malformed_rule-IsLocal line at) rs w d
