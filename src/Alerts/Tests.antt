-- ===== src/Alerts/Tests.antt =====
-- Alert engine: the theorems at concrete rules and entries, and runs.
use logmara.Prelude.{
  ℕ, ◌+◌, ◌*◌, ◌≤◌, ◌≡◌, refl, String, true, false, [], ◌∷◌, some, none, codes, arith, lookup, ◌++◌,
  Assoc, str_eq, if◌then◌else◌,
}
use logmara.Regex.{compile, is_meta, body, match_string, run, accepts}
use logmara.Parser.Sample.{sample_lib}
use logmara.Alerts.Pattern.{match_pattern}
use logmara.Alerts.Conditions.{Rule, Entry, FieldCondition, rank, find_rank, match_device}
use logmara.Alerts.Counter.{Counter, current, count_up, should_fire}
use logmara.Alerts.Cooldown.{cooldown_lost}
use logmara.Alerts.Batch.{World, minute, single_ask, evaluate_batch}
use logmara.Alerts.Batches.{evaluate_batch-sends, all_notices, threshold_notices}
use logmara.Alerts.Silence.{Device, SilenceState, Watch, warning, state_key, check_device}
use logmara.Alerts.Escalation.{
  check_device-table, notices_for, CaughtUp, check_device-NoLower, IsRecorded, NoLower, state,
}

abbrev audit : Rule
audit = record {
  id = "7";
  severity = [];
  device_ips = [];
  parser_names = [];
  field_conditions = [];
  field_conditions_logic = "";
  message_pattern = [];
  threshold = 15;
  window_minutes = 1;
  cooldown_minutes = 60;
  fire_on_every_match = false;
  audit_action_filter = "";
}

folded : match_pattern (codes "fail*") (codes "FAILED") ≡ true
unfolding match_pattern compile is_meta body match_string run accepts
folded = refl

unknown_rank : rank (codes "verbose") ≡ none
unfolding rank find_rank
unknown_rank = refl

abbrev denied : FieldCondition
denied = record { field_name = "action"; operator = "equals"; value = codes "deny" }

first_fires : (should_fire "7" (single_ask audit) 1 []).0 ≡ true
unfolding should_fire count_up current lookup
first_fires = refl

-- An audit rule with a cooldown of an hour fires again after two minutes.
cooldown_lost_example :
    (should_fire "7" (single_ask audit) (2 * minute) (should_fire "7" (single_ask audit) 1 []).1).0
    ≡ true
unfolding current lookup
cooldown_lost_example =
    cooldown_lost "7" (single_ask audit) (single_ask audit) 1 (2 * minute) [] first_fires
      (omega arith) (omega arith)

no_counter : (c : Counter) → lookup "7" [] ≡ some c → c.window_ends ≤ 1 + minute
unfolding lookup
no_counter c h = cc

abbrev fresh : World
fresh = record { store = []; marked = []; sent = [] }

abbrev at_one : String → ℕ
at_one k = 1

abbrev entry : Entry
entry = record {
  severity = codes "err";
  from_host_ip = "10.0.0.1";
  hostname = "web-1";
  matched_parsers = [];
  message = codes "failed";
  parsed_fields = [];
}

evaluate_batch-sends_example :
    ((evaluate_batch sample_lib true (audit ∷ []) at_one (entry ∷ []) fresh).sent
      ≡ fresh.sent
        ++ all_notices (threshold_notices sample_lib at_one (entry ∷ [])) (audit ∷ []) fresh.store)
    × (evaluate_batch sample_lib false (audit ∷ []) at_one (entry ∷ []) fresh ≡ fresh)
evaluate_batch-sends_example =
    evaluate_batch-sends sample_lib (audit ∷ []) at_one entry [] fresh (tt, tt)

abbrev router : Device
router = record { hostname = "r"; from_host_ip = "10.0.0.9"; last_seen = 0 }

abbrev known : SilenceState
known = record { silent_since = 0; last_severity = warning }

abbrev table : Assoc SilenceState
table = (state_key audit router, known) ∷ []

abbrev watch : Watch
watch = record { store = []; table = table; marked = []; sent = [] }

check_device-table_example :
    (let end = check_device false audit (31 * minute) table router watch in
      (lookup "x" end.table ≡ (
        if str_eq (state_key audit router) "x"
        then state audit (31 * minute) table router
        else lookup "x" watch.table))
      × (end.sent ≡ watch.sent ++ notices_for audit (31 * minute) table router watch))
check_device-table_example =
    check_device-table audit (31 * minute) table router false "x" watch refl

recorded : IsRecorded audit (16 * minute) (state audit (31 * minute) table router)
unfolding lookup
recorded = omega arith

check_device-NoLower_example :
    (let after =
        lookup
          (state_key audit router)
          (check_device true audit (31 * minute) table router watch).table in
      IsRecorded audit (31 * minute) after
      × NoLower (state audit (31 * minute) table router) after
      × CaughtUp audit (31 * minute) router (state audit (31 * minute) table router) after)
unfolding lookup match_device
check_device-NoLower_example =
    check_device-NoLower true audit (16 * minute) (31 * minute) table router watch (omega arith)
      refl recorded
