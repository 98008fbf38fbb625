-- ===== src/Alerts/Batch.antt =====
-- backend/alertengine/engine.go: `EvaluateBatch`, `EvaluateAuditLog` and `EvaluateMalformedJSON`.
-- A notice is what is handed to the dispatcher: the rule and what the title and the message of the
-- payload are made of.
use logmara.Prelude.{
  ℕ, ◌*◌, Bool, not, ◌&&◌, List, [], ◌∷◌, ◌++◌, length, ltb, ◌==◌, if◌then◌else◌, String, str_eq,
  Text, codes, filter, take,
}
use logmara.Parser.Cache.{RegexpLib}
use logmara.Alerts.Conditions.{Rule, Entry, entry_matches}
use logmara.Alerts.Counter.{Store, Ask, should_fire}

pub data Notice : Type 0 where
  matched_entry : Rule → Entry → Notice
  threshold_reached : Rule → ℕ → ℕ → Entry → Notice
  audit_action : Rule → String → Notice
  malformed_json : Rule → Text → Notice

-- The counters, the ids handed to `MarkAlertFired`, and the notices, each in the order of the calls.
pub record World : Type 0 where
  pub store : Store
  pub marked : List String
  pub sent : List Notice

unfoldable pub fire : Rule → Notice → World → World
fire r n w = record w { marked = w.marked ++ r.id ∷ []; sent = w.sent ++ n ∷ [] }

abbrev pub minute : ℕ
minute = 60 * 1000000000

-- The store answers `shouldFire` for a rule at the time `now`, and its answer is acted on.
unfoldable pub ask_store : Rule → Ask → ℕ → Notice → World → World
ask_store r a now n w =
    let (fired, s) = should_fire r.id a now w.store in
    let w' = record w { store = s } in if fired then fire r n w' else w'

-- A threshold that is not positive counts as 1.
abbrev pub threshold_of : Rule → ℕ
threshold_of r = if r.threshold == 0 then 1 else r.threshold

abbrev pub threshold_ask : Rule → ℕ → Ask
threshold_ask r matched = record {
  delta = matched;
  threshold = threshold_of r;
  window = r.window_minutes * minute;
  cooldown = r.cooldown_minutes * minute;
}

abbrev pub single_ask : Rule → Ask
single_ask r = record {
  delta = 1;
  threshold = 1;
  window = minute;
  cooldown = r.cooldown_minutes * minute;
}

-- `matchedEntries[len(matchedEntries)-1]`.
unfoldable pub last_of : Entry → List Entry → Entry
last_of e [] = e
last_of e (f ∷ es) = last_of f es

unfoldable pub fire_each : Rule → List Entry → World → World
fire_each r [] w = w
fire_each r (e ∷ es) w = fire_each r es (fire r (matched_entry r e) w)

-- What is done with the entries that match a rule.
unfoldable pub on_matched : Rule → ℕ → List Entry → World → World
on_matched r now [] w = w
on_matched r now (e ∷ es) w =
    if r.fire_on_every_match
    then fire_each r (e ∷ es) w
    else ask_store r (threshold_ask r (length (e ∷ es))) now
        (threshold_reached r (length (e ∷ es)) (threshold_of r) (last_of e es)) w

-- The loop over the cached rules of a type.
unfoldable pub each_rule : (Rule → World → World) → List Rule → World → World
each_rule step [] w = w
each_rule step (r ∷ rs) w = each_rule step rs (step r w)

module _ (lib : RegexpLib) where
  -- The body of the loop of `EvaluateBatch`; `at` is the time at which the store is asked.
  unfoldable pub threshold_rule : (String → ℕ) → List Entry → Rule → World → World
  threshold_rule at es r w = on_matched r (at r.id) (filter (entry_matches lib r) es) w

  unfoldable pub evaluate_batch : Bool → List Rule → (String → ℕ) → List Entry → World → World
  evaluate_batch enabled rs at [] w = w
  evaluate_batch enabled rs at (e ∷ es) w =
      if enabled then each_rule (threshold_rule at (e ∷ es)) rs w else w

-- The body of the loop of `EvaluateAuditLog`.
unfoldable pub audit_rule : String → (String → ℕ) → Rule → World → World
audit_rule action at r w =
    if not (str_eq r.audit_action_filter "") && not (str_eq r.audit_action_filter action)
    then w
    else ask_store r (single_ask r) (at r.id) (audit_action r action) w

unfoldable pub evaluate_audit_log : Bool → List Rule → (String → ℕ) → String → World → World
evaluate_audit_log enabled rs at action w =
    if enabled then each_rule (audit_rule action at) rs w else w

abbrev pub max_snippet : ℕ
max_snippet = 500

unfoldable pub snippet_of : Text → Text
snippet_of line =
    if ltb max_snippet (length line) then take max_snippet line ++ codes "..." else line

-- The body of the loop of `EvaluateMalformedJSON`.
unfoldable pub malformed_rule : Text → (String → ℕ) → Rule → World → World
malformed_rule snippet at r w =
    let n = malformed_json r snippet in
    if r.fire_on_every_match then fire r n w else ask_store r (single_ask r) (at r.id) n w

unfoldable pub evaluate_malformed_json : Bool → List Rule → (String → ℕ) → Text → World → World
evaluate_malformed_json enabled rs at line w =
    if enabled then each_rule (malformed_rule (snippet_of line) at) rs w else w
