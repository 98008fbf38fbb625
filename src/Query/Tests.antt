-- ===== src/Query/Tests.antt =====
-- Query builder: the theorems at concrete options, and runs.
use logmara.Prelude.{suc, ◌≡◌, refl, true, [], ◌∷◌, arith, some, length, codes, lookup}
use logmara.Query.Sql.{plain, build_where_sql, bind_one, bind_list, placeholders, fixed}
use logmara.Query.Operators.{
  add_filters, add_filter, is_accepted, is_static, valid_jsonb_key, is_key_byte, form_of,
  normalize_operator, field_col, double_quotes, apply_form,
}
use logmara.Query.Where.{
  LogFilterOptions, build_log_where_clauses, add_options, when_set, add_from_host, add_devices,
  add_has_fields, add_required_parsers,
}
use logmara.Query.Numbering.{numbers, count_from, build-placeholders}
use logmara.Query.Safety.{AllSafe, build-AllSafe}
use logmara.Query.Count.{Cached, Request, IsBacked, serve, serve-Answered, Answered}
use logmara.Query.Paging.{parse_pagination}

-- One field with an IN list, and one whose name would break out of the quotes.
abbrev sample : LogFilterOptions
sample = record {
  hostname = "web-1";
  from_host_ip = "";
  severity = "err";
  app_name = "";
  search = "";
  from = "";
  to = "";
  devices = "10.0.0.1" ∷ "10.0.0.2" ∷ [];
  has_fields = true;
  required_parsers = [];
  field_filters =
      record { field = "src_ip"; operator = "in"; values = "1" ∷ "2" ∷ [] }
      ∷ record { field = "x' OR '1'='1"; operator = "eq"; values = "1" ∷ [] }
      ∷ [];
}

build-placeholders_example :
    (numbers (build_where_sql (build_log_where_clauses sample).clauses)
      ≡ count_from 1 (length (build_log_where_clauses sample).args))
    × ((build_log_where_clauses sample).idx ≡ suc (length (build_log_where_clauses sample).args))
build-placeholders_example = build-placeholders sample

build-AllSafe_example : AllSafe (build_log_where_clauses sample)
build-AllSafe_example = build-AllSafe sample

sample_args :
    (build_log_where_clauses sample).args
    ≡ plain "web-1" ∷ plain "err" ∷ plain "10.0.0.1" ∷ plain "10.0.0.2" ∷ plain "1" ∷ plain "2" ∷ []
unfolding build_log_where_clauses add_options when_set add_from_host add_devices add_has_fields
    add_required_parsers add_filters add_filter is_accepted is_static valid_jsonb_key is_key_byte
    form_of normalize_operator field_col double_quotes apply_form bind_one bind_list fixed
    placeholders lookup
sample_args = refl

abbrev cold : Cached
cold = record { entries = []; log = [] }

abbrev request : Request
request = record {
  cache_key = "logs";
  looked = 5;
  fetch = record { answered = 7; outcome = some 42 };
}

cold-IsBacked : IsBacked cold
unfolding lookup
cold-IsBacked = record { sized = omega arith; backed = λ k e h. cc }

serve-Answered_example : Answered cold request (serve cold request).0
serve-Answered_example = serve-Answered cold request cold-IsBacked

clamped : parse_pagination (codes "5000") (codes "-3") 50 500 ≡ (50, 0)
unfolding parse_pagination
clamped = refl
