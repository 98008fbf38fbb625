-- ===== src/Query/Operators.antt =====
-- backend/handler/querybuilder.go: the dynamic field filters, one clause for each accepted filter.
use mathlib.Core.Option.{get_or}
use logmara.Prelude.{
  Assoc, lookup, ℕ, String, Bool, not, ◌&&◌, ◌||◌, List, [], ◌∷◌, any, all, is_nil, leb, ◌==◌,
  str_eq, if◌then◌else◌, Text, codes,
}
use logmara.Query.Sql.{Piece, sql, key, arg, str, Builder, bind_one, fixed, bind_list}

pub record FieldFilter : Type 0 where
  pub field : String
  pub operator : String
  pub values : List String

abbrev pub static_fields : List String
static_fields =
    "hostname" ∷ "fromhost_ip" ∷ "severity" ∷ "app_name" ∷ "facility" ∷ "process_id" ∷ "msg_id"
    ∷ "message" ∷ "raw_message" ∷ []

-- A byte of `[a-zA-Z0-9_]`.
unfoldable pub is_key_byte : ℕ → Bool
is_key_byte c =
    (leb b'a' c && leb c b'z')
    || (leb b'A' c && leb c b'Z')
    || (leb b'0' c && leb c b'9')
    || c == b'_'

-- `validJSONBKey`, the regular expression `^[a-zA-Z0-9_]+$`.
unfoldable pub valid_jsonb_key : Text → Bool
unfolding is_key_byte
valid_jsonb_key t = not (is_nil t) && all is_key_byte t

unfoldable pub is_static : String → Bool
is_static f = any (str_eq f) static_fields

-- `strings.ReplaceAll(field, "'", "''")`.
unfoldable pub double_quotes : Text → Text
double_quotes [] = []
double_quotes (c ∷ s) = if c == 39 then 39 ∷ 39 ∷ double_quotes s else c ∷ double_quotes s

unfoldable pub field_col : String → Piece
field_col f = if is_static f then sql f else key (double_quotes (codes f))

unfoldable pub normalize_operator : String → String
normalize_operator op =
    if str_eq op ""
    then "eq"
    else if str_eq op "not_in"
    then "notin"
    else if str_eq op "starts_with"
    then "startswith"
    else if str_eq op "ends_with"
    then "endswith"
    else op

-- What a case of the switch appends: a comparison with the first value, put between two texts; a
-- list of all values; or one of the two tests that take no value.
pub data Form : Type 0 where
  compare_with : String → String → String → Form
  one_of : String → Form
  is_empty is_not_empty : Form

-- The cases of the switch.
abbrev pub forms : Assoc Form
forms =
    ("eq", compare_with " = " "" "")
    ∷ ("neq", compare_with " <> " "" "")
    ∷ ("contains", compare_with " ILIKE " "%" "%")
    ∷ ("in", one_of " IN (")
    ∷ ("notin", one_of " NOT IN (")
    ∷ ("startswith", compare_with " ILIKE " "" "%")
    ∷ ("endswith", compare_with " ILIKE " "%" "")
    ∷ ("gt", compare_with " > " "" "")
    ∷ ("gte", compare_with " >= " "" "")
    ∷ ("lt", compare_with " < " "" "")
    ∷ ("lte", compare_with " <= " "" "")
    ∷ ("not_contains", compare_with " NOT ILIKE " "%" "%")
    ∷ ("regex", compare_with " ~ " "" "")
    ∷ ("is_empty", is_empty)
    ∷ ("is_not_empty", is_not_empty)
    ∷ []

-- The switch with its `default`.
unfoldable pub form_of : String → Form
form_of op = get_or (lookup op forms) (compare_with " = " "" "")

unfoldable pub apply_form : Form → Piece → List String → Builder → Builder
apply_form (compare_with op before after) col [] b = b
apply_form (compare_with op before after) col (v ∷ vs) b =
    bind_one (λ n. col ∷ sql op ∷ arg n ∷ []) (str before v after) b
apply_form (one_of op) col [] b = b
apply_form (one_of op) col (v ∷ vs) b = bind_list (col ∷ sql op ∷ []) ", " ")" (v ∷ vs) b
apply_form is_empty col vs b =
    fixed (sql "(" ∷ col ∷ sql " IS NULL OR " ∷ col ∷ sql " = '')" ∷ []) b
apply_form is_not_empty col vs b =
    fixed (sql "(" ∷ col ∷ sql " IS NOT NULL AND " ∷ col ∷ sql " != '')" ∷ []) b

unfoldable pub is_accepted : String → Bool
unfolding is_static valid_jsonb_key
is_accepted f = is_static f || valid_jsonb_key (codes f)

-- One round of the loop over `opts.FieldFilters`.
unfoldable pub add_filter : FieldFilter → Builder → Builder
add_filter ff b =
    if is_accepted ff.field
    then apply_form (form_of (normalize_operator ff.operator)) (field_col ff.field) ff.values b
    else b

unfoldable pub add_filters : List FieldFilter → Builder → Builder
add_filters [] b = b
add_filters (ff ∷ ffs) b = add_filters ffs (add_filter ff b)
