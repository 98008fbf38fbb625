-- ===== src/Alerts/Conditions.antt =====
-- backend/alertengine/engine.go and fields.go: the filters of a rule and the entries that pass
-- them, and how a matched entry is described.
use logmara.Prelude.{
  ℕ, ◌≡◌, refl, Bool, true, false, ◌&&◌, ◌||◌, not, List, [], ◌∷◌, Option, none, some, arith,
  String, str_eq, leb, if◌then◌else◌, Text, codes, text_beq, contains, lower, Assoc, lookup, any,
  all, is_nil,
}
use logmara.Parser.Cache.{RegexpLib}
use logmara.Alerts.Pattern.{match_pattern}

abbrev pub severity_rank : List (Text × ℕ)
severity_rank =
    (codes "emerg", 0)
    ∷ (codes "emergency", 0)
    ∷ (codes "alert", 1)
    ∷ (codes "crit", 2)
    ∷ (codes "critical", 2)
    ∷ (codes "err", 3)
    ∷ (codes "error", 3)
    ∷ (codes "warning", 4)
    ∷ (codes "warn", 4)
    ∷ (codes "notice", 5)
    ∷ (codes "info", 6)
    ∷ (codes "debug", 7)
    ∷ []

unfoldable pub find_rank : Text → List (Text × ℕ) → Option ℕ
find_rank s [] = none
find_rank s ((name, r) ∷ ranks) = if text_beq name s then some r else find_rank s ranks

-- `severityRank[strings.ToLower(s)]` with its `ok`.
unfoldable pub rank : Text → Option ℕ
rank s = find_rank (lower s) severity_rank

abbrev pub ranks_meet : Option ℕ → Option ℕ → Bool
ranks_meet (some er) (some mr) = leb er mr
ranks_meet _ _ = true

unfoldable pub meets_severity : Text → Text → Bool
meets_severity entry minimum =
    if is_nil minimum then true else ranks_meet (rank entry) (rank minimum)

pub data NotifySeverity : Type 0 where
  critical error warning info : NotifySeverity

-- The switch on the rank; a missing key reads as the rank 0.
abbrev pub bucket : ℕ → NotifySeverity
bucket r =
    if leb r 2 then critical else if leb r 3 then error else if leb r 4 then warning else info

abbrev pub rank_or_zero : Option ℕ → ℕ
rank_or_zero none = 0
rank_or_zero (some r) = r

unfoldable pub notify_severity : Text → NotifySeverity
notify_severity s = bucket (rank_or_zero (rank s))

unfoldable pub match_device : List String → String → Bool
match_device [] ip = true
match_device (d ∷ ds) ip = any (λ x. str_eq x ip) (d ∷ ds)

unfoldable pub match_parsers : List String → List String → Bool
match_parsers [] matched = true
match_parsers (p ∷ ps) matched = any (λ want. any (λ got. str_eq want got) matched) (p ∷ ps)

pub record FieldCondition : Type 0 where
  pub field_name : String
  pub operator : String
  pub value : Text

pub record Rule : Type 0 where
  pub id : String
  pub severity : Text
  pub device_ips : List String
  pub parser_names : List String
  pub field_conditions : List FieldCondition
  pub field_conditions_logic : String
  pub message_pattern : Text
  pub threshold : ℕ
  pub window_minutes : ℕ
  pub cooldown_minutes : ℕ
  pub fire_on_every_match : Bool
  pub audit_action_filter : String

-- `parsed_fields` is what `decodeParsedFields` returns for the entry, nil being the empty map.
pub record Entry : Type 0 where
  pub severity : Text
  pub from_host_ip : String
  pub hostname : String
  pub matched_parsers : List String
  pub message : Text
  pub parsed_fields : Assoc Text

module _ (lib : RegexpLib) where
  abbrev pub regex_matches : Option lib.Compiled → Text → Bool
  regex_matches none v = false
  regex_matches (some re) v = lib.match_string re v

  unfoldable pub evaluate_field_condition : FieldCondition → Text → Bool
  evaluate_field_condition c v =
      if str_eq c.operator "contains"
      then contains (lower v) (lower c.value)
      else if str_eq c.operator "not_equals"
      then not (text_beq v c.value)
      else if str_eq c.operator "regex"
      then regex_matches (lib.compile c.value) v
      else text_beq v c.value

  abbrev pub holds_for : FieldCondition → Option Text → Bool
  holds_for c none = false
  holds_for c (some v) = evaluate_field_condition c v

  -- `val, ok := fields[cond.FieldName]`, and the condition on it.
  abbrev pub holds : Assoc Text → FieldCondition → Bool
  holds fields c = holds_for c (lookup c.field_name fields)

  unfoldable pub any_holds : List FieldCondition → Assoc Text → Bool
  any_holds [] fields = false
  any_holds (c ∷ cs) fields = if holds fields c then true else any_holds cs fields

  unfoldable pub all_hold : List FieldCondition → Assoc Text → Bool
  all_hold [] fields = true
  all_hold (c ∷ cs) fields = if not (holds fields c) then false else all_hold cs fields

  unfoldable pub match_field_conditions : List FieldCondition → Assoc Text → String → Bool
  match_field_conditions [] fields logic = true
  match_field_conditions (c ∷ cs) fields logic =
      if str_eq logic "or" then any_holds (c ∷ cs) fields else all_hold (c ∷ cs) fields

  -- The body of the inner loop of `EvaluateBatch`, its `continue`s in order.
  unfoldable pub entry_matches : Rule → Entry → Bool
  entry_matches r e =
      if not (meets_severity e.severity r.severity)
      then false
      else if not (match_device r.device_ips e.from_host_ip)
      then false
      else if not (match_parsers r.parser_names e.matched_parsers)
      then false
      else if not (match_pattern r.message_pattern e.message)
      then false
      else match_field_conditions r.field_conditions e.parsed_fields r.field_conditions_logic

  abbrev pub or_empty : Option Text → Text
  or_empty none = []
  or_empty (some v) = v

  -- The loop over the field conditions: `fields[name]` reads as "" where the field is absent.
  unfoldable pub describe_fields : String → Assoc Text → List FieldCondition → List FieldCondition
  describe_fields logic fields [] = []
  describe_fields logic fields (c ∷ cs) =
      if str_eq logic "or"
        && not (evaluate_field_condition c (or_empty (lookup c.field_name fields)))
      then describe_fields logic fields cs
      else c ∷ describe_fields logic fields cs

  -- `EvaluateBatch` lets an entry through exactly when every filter of the rule holds of it.
  pub entry_matches_all :
      (r : Rule) (e : Entry)
      → entry_matches r e ≡ (
          meets_severity e.severity r.severity
          && match_device r.device_ips e.from_host_ip
          && match_parsers r.parser_names e.matched_parsers
          && match_pattern r.message_pattern e.message
          && match_field_conditions r.field_conditions e.parsed_fields r.field_conditions_logic)
  unfolding entry_matches
  entry_matches_all r e = ground arith

  any_holds-any : (cs : List FieldCondition) (fs : Assoc Text) → any_holds cs fs ≡ any (holds fs) cs
  unfolding any_holds
  any_holds-any [] fs = refl
  any_holds-any (c ∷ cs) fs = ground (arith, any_holds-any cs fs)

  all_hold-all : (cs : List FieldCondition) (fs : Assoc Text) → all_hold cs fs ≡ all (holds fs) cs
  unfolding all_hold
  all_hold-all [] fs = refl
  all_hold-all (c ∷ cs) fs = ground (arith, all_hold-all cs fs)

  -- With no condition every entry passes; else, with the logic "or" one condition that holds is
  -- enough, and with any other logic all have to hold; a condition on an absent field never holds.
  pub match_field_conditions-lem :
      (cs : List FieldCondition) (fs : Assoc Text) (logic : String)
      → match_field_conditions cs fs logic
        ≡ (is_nil cs || (if str_eq logic "or" then any (holds fs) cs else all (holds fs) cs))
  unfolding match_field_conditions
  match_field_conditions-lem [] fs logic = refl
  match_field_conditions-lem (c ∷ cs) fs logic =
      rw (any_holds-any (c ∷ cs) fs, all_hold-all (c ∷ cs) fs)

-- A severity that is not in the table is notified as critical.
pub notify_severity_unknown : (s : Text) → rank s ≡ none → notify_severity s ≡ critical
unfolding notify_severity
notify_severity_unknown s h = rw h
