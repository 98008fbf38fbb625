-- ===== src/Query/Safety.antt =====
-- backend/handler/querybuilder.go: what text of the caller reaches the SQL text.
use mathlib.Core.Option.{get_or}
use logmara.Prelude.{
  Assoc, lookup, ℕ, suc, ◌≡◌, refl, String, Bool, true, false, ◌&&◌, ◌||◌, List, [], ◌∷◌, ◌++◌, any,
  all, is_nil, arith, str_eq, Bool-cases, if_holds, inl, inr, All, All-append, Text, codes,
}
use logmara.Query.Sql.{
  Piece, sql, key, arg, Clause, Arg, Builder, start, bind_one, fixed, placeholders, bind_list,
}
use logmara.Query.Operators.{
  FieldFilter, Form, compare_with, one_of, is_empty, is_not_empty, is_static, is_key_byte,
  valid_jsonb_key, double_quotes, field_col, apply_form, is_accepted, form_of, forms, add_filter,
  add_filters,
}
use logmara.Query.Where.{
  LogFilterOptions, when_set, add_from_host, add_devices, add_has_fields, add_required_parsers,
  add_options, build_log_where_clauses,
}

-- The texts that the code writes between columns and placeholders.
abbrev fixed_texts : List String
fixed_texts =
    "" ∷ ")" ∷ ", " ∷ "(" ∷ " = " ∷ " <> " ∷ " ILIKE " ∷ " NOT ILIKE " ∷ " IN (" ∷ " NOT IN ("
    ∷ " > " ∷ " >= " ∷ " < " ∷ " <= " ∷ " ~ " ∷ " IS NULL OR " ∷ " = '')" ∷ " IS NOT NULL AND "
    ∷ " != '')" ∷ "hostname = " ∷ "severity = " ∷ "app_name ILIKE " ∷ "timestamp >= "
    ∷ "timestamp <= " ∷ "search_vector @@ websearch_to_tsquery('english', "
    ∷ "COALESCE(syslog_logs.fromhost_ip, '') = " ∷ "COALESCE(syslog_logs.fromhost_ip, '') IN ("
    ∷ "(syslog_logs.fromhost_ip IS NULL OR syslog_logs.fromhost_ip = '')"
    ∷ "matched_parsers IS NOT NULL AND array_length(matched_parsers, 1) > 0" ∷ "matched_parsers && "
    ∷ "::text[]" ∷ []

pub is_known : String → Bool
is_known s = is_static s || any (str_eq s) fixed_texts

-- A piece is a text of the program, a placeholder, or a key of letters, digits and underscores.
abbrev pub IsSafe : Piece → Type 0
IsSafe (sql s) = is_known s ≡ true
IsSafe (key t) = (is_nil t ≡ false) × (all is_key_byte t ≡ true)
IsSafe (arg n) = Unit

abbrev pub AllSafe : Builder → Type 0
AllSafe b = All (All IsSafe) b.clauses

-- No byte of a key is a quote, so doubling the quotes changes nothing.
double_quotes-key : (t : Text) → all is_key_byte t ≡ true → double_quotes t ≡ t
unfolding double_quotes is_key_byte
double_quotes-key [] h = refl
double_quotes-key (c ∷ t) h = ground (arith, double_quotes-key t)

-- The column that is written for an accepted field.
field_col-IsSafe : (f : String) → is_accepted f ≡ true → IsSafe (field_col f)
unfolding field_col is_accepted valid_jsonb_key is_known
field_col-IsSafe f h = elim (Bool-cases (is_static f)) [
  | inl e ↦ rw (e, e) refl
  | inr e ↦ rw e (rw (double_quotes-key (codes f) (ground arith)) (ground arith))
]

abbrev known_form : Form → Bool
known_form (compare_with op before after) = is_known op
known_form (one_of op) = is_known op
known_form _ = true

abbrev known_forms : Assoc Form → Bool
known_forms [] = true
known_forms ((op, f) ∷ fs) = known_form f && known_forms fs

lookup-known :
    (op : String) (fs : Assoc Form) (d : Form)
    → known_forms fs ≡ true
    → known_form d ≡ true
    → known_form (get_or (lookup op fs) d) ≡ true
unfolding lookup
lookup-known op [] d h k = k
lookup-known op ((o, f) ∷ fs) d h k = ground (arith, lookup-known op fs d)

form_of-known : (op : String) → known_form (form_of op) ≡ true
unfolding form_of is_known is_static
form_of-known op = lookup-known op forms _ refl refl

append-AllSafe :
    (cs : List Clause) (c : Clause)
    → All (All IsSafe) cs
    → All IsSafe c
    → All (All IsSafe) (cs ++ c ∷ [])
append-AllSafe cs c h hc = All-append (All IsSafe) cs (c ∷ []) h (hc, tt)

placeholders-IsSafe :
    (sep : String) (n : ℕ) (vs : List String)
    → is_known sep ≡ true
    → All IsSafe (placeholders sep n vs)
unfolding placeholders
placeholders-IsSafe sep n [] h = tt
placeholders-IsSafe sep n (v ∷ []) h = (tt, tt)
placeholders-IsSafe sep n (v ∷ w ∷ vs) h = (tt, (h, placeholders-IsSafe sep (suc n) (w ∷ vs) h))

bind_one-AllSafe :
    (clause : ℕ → Clause) (a : Arg) (b : Builder)
    → ((n : ℕ) → All IsSafe (clause n))
    → AllSafe b
    → AllSafe (bind_one clause a b)
unfolding bind_one
bind_one-AllSafe clause a b hc h = append-AllSafe b.clauses (clause b.idx) h (hc b.idx)

fixed-AllSafe : (c : Clause) (b : Builder) → All IsSafe c → AllSafe b → AllSafe (fixed c b)
unfolding fixed
fixed-AllSafe c b hc h = append-AllSafe b.clauses c h hc

bind_list-AllSafe :
    (before : Clause) (vs : List String) (b : Builder)
    → All IsSafe before
    → AllSafe b
    → AllSafe (bind_list before ", " ")" vs b)
unfolding bind_list is_known is_static
bind_list-AllSafe before vs b hb h = append-AllSafe b.clauses _ h (
    All-append IsSafe (before ++ placeholders ", " b.idx vs) (sql ")" ∷ [])
      (All-append IsSafe before _ hb (placeholders-IsSafe ", " b.idx vs refl)) (refl, tt))

apply_form-AllSafe :
    (form : Form) (col : Piece) (vs : List String) (b : Builder)
    → known_form form ≡ true
    → IsSafe col
    → AllSafe b
    → AllSafe (apply_form form col vs b)
unfolding apply_form is_known is_static
apply_form-AllSafe (compare_with op before after) col [] b k c h = h
apply_form-AllSafe (compare_with op before after) col (v ∷ vs) b k c h =
    bind_one-AllSafe _ _ b (λ n. (c, (k, (tt, tt)))) h
apply_form-AllSafe (one_of op) col [] b k c h = h
apply_form-AllSafe (one_of op) col (v ∷ vs) b k c h =
    bind_list-AllSafe (col ∷ sql op ∷ []) (v ∷ vs) b (c, (k, tt)) h
apply_form-AllSafe is_empty col vs b k c h =
    fixed-AllSafe _ b (refl, (c, (refl, (c, (refl, tt))))) h
apply_form-AllSafe is_not_empty col vs b k c h =
    fixed-AllSafe _ b (refl, (c, (refl, (c, (refl, tt))))) h

add_filter-AllSafe : (ff : FieldFilter) (b : Builder) → AllSafe b → AllSafe (add_filter ff b)
unfolding add_filter
add_filter-AllSafe ff b h = elim (Bool-cases (is_accepted ff.field)) [
  | inl e ↦
      rw e (apply_form-AllSafe _ _ ff.values b (form_of-known _) (field_col-IsSafe ff.field e) h)
  | inr e ↦ rw e h
]

add_filters-AllSafe :
    (ffs : List FieldFilter) (b : Builder) → AllSafe b → AllSafe (add_filters ffs b)
unfolding add_filters
add_filters-AllSafe [] b h = h
add_filters-AllSafe (ff ∷ ffs) b h =
    add_filters-AllSafe ffs (add_filter ff b) (add_filter-AllSafe ff b h)

when_set-AllSafe :
    (value before after : String) (a : Arg) (b : Builder)
    → is_known before ≡ true
    → is_known after ≡ true
    → AllSafe b
    → AllSafe (when_set value before after a b)
unfolding when_set
when_set-AllSafe value before after a b k l h =
    if_holds AllSafe (str_eq value "") h (bind_one-AllSafe _ a b (λ n. (k, (tt, (l, tt)))) h)

add_from_host-AllSafe : (ip : String) (b : Builder) → AllSafe b → AllSafe (add_from_host ip b)
unfolding add_from_host is_known is_static
add_from_host-AllSafe ip b h =
    if_holds AllSafe (str_eq ip "__unknown__") (fixed-AllSafe _ b (refl, tt) h)
      (when_set-AllSafe ip _ _ _ b refl refl h)

add_devices-AllSafe : (ds : List String) (b : Builder) → AllSafe b → AllSafe (add_devices ds b)
unfolding add_devices is_known is_static
add_devices-AllSafe [] b h = h
add_devices-AllSafe (d ∷ ds) b h = bind_list-AllSafe _ (d ∷ ds) b (refl, tt) h

add_has_fields-AllSafe : (has : Bool) (b : Builder) → AllSafe b → AllSafe (add_has_fields has b)
unfolding add_has_fields is_known is_static
add_has_fields-AllSafe true b h = fixed-AllSafe _ b (refl, tt) h
add_has_fields-AllSafe false b h = h

add_required_parsers-AllSafe :
    (ps : List String) (b : Builder) → AllSafe b → AllSafe (add_required_parsers ps b)
unfolding add_required_parsers is_known is_static
add_required_parsers-AllSafe [] b h = h
add_required_parsers-AllSafe (p ∷ ps) b h = bind_one-AllSafe _ _ b (λ n. (refl, (tt, (refl, tt)))) h

add_options-AllSafe : (o : LogFilterOptions) (b : Builder) → AllSafe b → AllSafe (add_options o b)
unfolding add_options is_known is_static
add_options-AllSafe o b h = add_required_parsers-AllSafe o.required_parsers _ (
    add_has_fields-AllSafe o.has_fields _ (
      add_devices-AllSafe o.devices _ (
        when_set-AllSafe o.search _ _ _ _ refl refl (
          when_set-AllSafe o.to _ _ _ _ refl refl (
            when_set-AllSafe o.from _ _ _ _ refl refl (
              when_set-AllSafe o.app_name _ _ _ _ refl refl (
                when_set-AllSafe o.severity _ _ _ _ refl refl (
                  add_from_host-AllSafe o.from_host_ip _
                    (when_set-AllSafe o.hostname _ _ _ _ refl refl h)))))))))

-- For every set of options, each piece of each clause is a placeholder, a text from a fixed list
-- of the program (the names of the static columns among them), or a JSONB key that is not empty
-- and has only ASCII letters, digits and underscores; so no value and no quote of the caller
-- stands in the SQL text.
pub build-AllSafe : (o : LogFilterOptions) → AllSafe (build_log_where_clauses o)
unfolding build_log_where_clauses
build-AllSafe o = add_filters-AllSafe o.field_filters _ (add_options-AllSafe o start tt)
