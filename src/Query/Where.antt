-- ===== src/Query/Where.antt =====
-- backend/handler/querybuilder.go: `buildLogWhereClauses`, one step for each field of the options.
use logmara.Prelude.{String, Bool, List, [], ◌∷◌, str_eq, if◌then◌else◌}
use logmara.Query.Sql.{sql, arg, Arg, str, array, plain, Builder, start, bind_one, fixed, bind_list}
use logmara.Query.Operators.{FieldFilter, add_filters}

pub record LogFilterOptions : Type 0 where
  pub hostname : String
  pub from_host_ip : String
  pub severity : String
  pub app_name : String
  pub search : String
  pub from : String
  pub to : String
  pub devices : List String
  pub has_fields : Bool
  pub required_parsers : List String
  pub field_filters : List FieldFilter

-- `if value != "" { … }` with one placeholder between two texts.
unfoldable pub when_set : String → String → String → Arg → Builder → Builder
when_set value before after a b =
    if str_eq value "" then b else bind_one (λ n. sql before ∷ arg n ∷ sql after ∷ []) a b

unfoldable pub add_from_host : String → Builder → Builder
add_from_host ip b =
    if str_eq ip "__unknown__"
    then fixed (sql "(syslog_logs.fromhost_ip IS NULL OR syslog_logs.fromhost_ip = '')" ∷ []) b
    else when_set ip "COALESCE(syslog_logs.fromhost_ip, '') = " "" (plain ip) b

unfoldable pub add_devices : List String → Builder → Builder
add_devices [] b = b
add_devices (d ∷ ds) b =
    bind_list (sql "COALESCE(syslog_logs.fromhost_ip, '') IN (" ∷ []) ", " ")" (d ∷ ds) b

unfoldable pub add_has_fields : Bool → Builder → Builder
add_has_fields has b =
    if has
    then fixed (sql "matched_parsers IS NOT NULL AND array_length(matched_parsers, 1) > 0" ∷ []) b
    else b

unfoldable pub add_required_parsers : List String → Builder → Builder
add_required_parsers [] b = b
add_required_parsers (p ∷ ps) b =
    bind_one (λ n. sql "matched_parsers && " ∷ arg n ∷ sql "::text[]" ∷ []) (array (p ∷ ps)) b

-- The steps before the field filters.
unfoldable pub add_options : LogFilterOptions → Builder → Builder
add_options o b0 =
    let b1 = when_set o.hostname "hostname = " "" (plain o.hostname) b0 in
    let b2 = add_from_host o.from_host_ip b1 in
    let b3 = when_set o.severity "severity = " "" (plain o.severity) b2 in
    let b4 = when_set o.app_name "app_name ILIKE " "" (str "%" o.app_name "%") b3 in
    let b5 = when_set o.from "timestamp >= " "" (plain o.from) b4 in
    let b6 = when_set o.to "timestamp <= " "" (plain o.to) b5 in
    let b7 =
      when_set o.search "search_vector @@ websearch_to_tsquery('english', " ")" (plain o.search)
        b6 in
    let b8 = add_devices o.devices b7 in
    add_required_parsers o.required_parsers (add_has_fields o.has_fields b8)

unfoldable pub build_log_where_clauses : LogFilterOptions → Builder
build_log_where_clauses o = add_filters o.field_filters (add_options o start)
