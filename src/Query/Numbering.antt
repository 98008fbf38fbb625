-- ===== src/Query/Numbering.antt =====
-- backend/handler/querybuilder.go: the placeholders of the clauses against the arguments.
use logmara.Prelude.{
  ℕ, zero, suc, ◌+◌, ◌≡◌, refl, sym, ap, ◌∙◌, String, Bool, true, false, List, [], ◌∷◌, ◌++◌, map,
  append-nil, append_assoc, length, length-append, length-map, arith, str_eq, Bool-cases, inl, inr,
}
use native.Mathlib.Nat.{add-zero, add-suc, suc-add, zero-add}
use logmara.Query.Sql.{
  sql, key, arg, Clause, Arg, Builder, start, plain, bind_one, fixed, placeholders, bind_list, join,
  build_where_sql,
}
use logmara.Query.Operators.{
  FieldFilter, Form, compare_with, one_of, is_empty, is_not_empty, field_col, apply_form,
  is_accepted, is_static, add_filter, add_filters,
}
use logmara.Query.Where.{
  LogFilterOptions, when_set, add_from_host, add_devices, add_has_fields, add_required_parsers,
  add_options, build_log_where_clauses,
}

-- The numbers of the placeholders of a clause, from left to right.
abbrev pub numbers : Clause → List ℕ
numbers [] = []
numbers (sql s ∷ c) = numbers c
numbers (key t ∷ c) = numbers c
numbers (arg n ∷ c) = n ∷ numbers c

abbrev pub all_numbers : List Clause → List ℕ
all_numbers [] = []
all_numbers (c ∷ cs) = numbers c ++ all_numbers cs

-- `n, n + 1, …`, of the given length.
abbrev pub count_from : ℕ → ℕ → List ℕ
count_from n zero = []
count_from n (suc k) = n ∷ count_from (suc n) k

pub numbers-append : (c d : Clause) → numbers (c ++ d) ≡ numbers c ++ numbers d
numbers-append [] d = refl
numbers-append (sql s ∷ c) d = numbers-append c d
numbers-append (key t ∷ c) d = numbers-append c d
numbers-append (arg n ∷ c) d = ap (λ r. n ∷ r) (numbers-append c d)

pub all_numbers-append :
    (cs : List Clause) (c : Clause) → all_numbers (cs ++ c ∷ []) ≡ all_numbers cs ++ numbers c
all_numbers-append [] c = append-nil (numbers c)
all_numbers-append (d ∷ cs) c =
    rw (all_numbers-append cs c) (sym (append_assoc (numbers d) (all_numbers cs) (numbers c)))

one-add : (n : ℕ) → 1 + n ≡ suc n
one-add n = omega arith

pub count_from-append : (n k m : ℕ) → count_from n (k + m) ≡ count_from n k ++ count_from (n + k) m
count_from-append n zero m = rw (add-zero, zero-add)
count_from-append n (suc k) m =
    rw (suc-add k m) (rw (add-suc, ← suc-add) (ap (λ r. n ∷ r) (count_from-append (suc n) k m)))

-- What every step keeps.
pub record IsNumbered (b : Builder) : Type 0 where
  pub next : b.idx ≡ suc (length b.args)
  pub placed : all_numbers b.clauses ≡ count_from 1 (length b.args)

start-IsNumbered : IsNumbered start
start-IsNumbered = record { next = refl; placed = refl }

-- A step that appends one clause, with placeholders from `idx` on, and as many values.
append-IsNumbered :
    (b : Builder) (c : Clause) (new : List Arg) (i : ℕ)
    → IsNumbered b
    → numbers c ≡ count_from b.idx (length new)
    → i ≡ b.idx + length new
    → IsNumbered (record { clauses = b.clauses ++ c ∷ []; args = b.args ++ new; idx = i })
append-IsNumbered b c new i h e step = record {
  next = omega (arith, h.next, length-append {0} b.args new);
  placed =
      rw (all_numbers-append b.clauses c, h.placed, e, h.next, length-append b.args new)
        (sym (rw (count_from-append 1 (length b.args) (length new), one-add)));
}

bind_one-IsNumbered :
    (clause : ℕ → Clause) (a : Arg) (b : Builder)
    → ((n : ℕ) → numbers (clause n) ≡ n ∷ [])
    → IsNumbered b
    → IsNumbered (bind_one clause a b)
unfolding bind_one
bind_one-IsNumbered clause a b one h =
    append-IsNumbered b (clause b.idx) (a ∷ []) (b.idx + 1) h (one b.idx) refl

fixed-IsNumbered :
    (c : Clause) (b : Builder) → numbers c ≡ [] → IsNumbered b → IsNumbered (fixed c b)
unfolding fixed
fixed-IsNumbered c b none_there h = record {
  next = h.next;
  placed = rw (all_numbers-append b.clauses c, none_there, append-nil) h.placed;
}

pub numbers-placeholders :
    (sep : String) (n : ℕ) (vs : List String)
    → numbers (placeholders sep n vs) ≡ count_from n (length vs)
unfolding placeholders
numbers-placeholders sep n [] = refl
numbers-placeholders sep n (v ∷ []) = refl
numbers-placeholders sep n (v ∷ w ∷ vs) =
    ap (λ r. n ∷ r) (numbers-placeholders sep (suc n) (w ∷ vs))

bind_list-IsNumbered :
    (before : Clause) (sep after : String) (vs : List String) (b : Builder)
    → numbers before ≡ []
    → IsNumbered b
    → IsNumbered (bind_list before sep after vs b)
unfolding bind_list
bind_list-IsNumbered before sep after vs b none_before h =
    append-IsNumbered b _ (map plain vs) (b.idx + length vs) h
      (rw (numbers-append, numbers-append, none_before, append-nil, length-map)
        (numbers-placeholders sep b.idx vs))
      (rw length-map)

field_col-numbers : (f : String) (c : Clause) → numbers (field_col f ∷ c) ≡ numbers c
unfolding field_col
field_col-numbers f c = elim (Bool-cases (is_static f)) [ inl e ↦ rw e | inr e ↦ rw e ]

apply_form-IsNumbered :
    (form : Form) (f : String) (vs : List String) (b : Builder)
    → IsNumbered b
    → IsNumbered (apply_form form (field_col f) vs b)
unfolding apply_form
apply_form-IsNumbered (compare_with op before after) f [] b h = h
apply_form-IsNumbered (compare_with op before after) f (v ∷ vs) b h =
    bind_one-IsNumbered _ _ b (λ n. field_col-numbers f _) h
apply_form-IsNumbered (one_of op) f [] b h = h
apply_form-IsNumbered (one_of op) f (v ∷ vs) b h =
    bind_list-IsNumbered (field_col f ∷ sql op ∷ []) ", " ")" (v ∷ vs) b (field_col-numbers f _) h
apply_form-IsNumbered is_empty f vs b h =
    fixed-IsNumbered _ b (field_col-numbers f _ ∙ field_col-numbers f _) h
apply_form-IsNumbered is_not_empty f vs b h =
    fixed-IsNumbered _ b (field_col-numbers f _ ∙ field_col-numbers f _) h

add_filter-IsNumbered :
    (ff : FieldFilter) (b : Builder) → IsNumbered b → IsNumbered (add_filter ff b)
unfolding add_filter
add_filter-IsNumbered ff b h = elim (Bool-cases (is_accepted ff.field)) [
  | inl e ↦ rw e (apply_form-IsNumbered _ ff.field ff.values b h)
  | inr e ↦ rw e h
]

add_filters-IsNumbered :
    (ffs : List FieldFilter) (b : Builder) → IsNumbered b → IsNumbered (add_filters ffs b)
unfolding add_filters
add_filters-IsNumbered [] b h = h
add_filters-IsNumbered (ff ∷ ffs) b h =
    add_filters-IsNumbered ffs (add_filter ff b) (add_filter-IsNumbered ff b h)

when_set-IsNumbered :
    (value before after : String) (a : Arg) (b : Builder)
    → IsNumbered b
    → IsNumbered (when_set value before after a b)
unfolding when_set
when_set-IsNumbered value before after a b h = elim (Bool-cases (str_eq value "")) [
  | inl e ↦ rw e h
  | inr e ↦ rw e (bind_one-IsNumbered _ a b (λ n. refl) h)
]

add_from_host-IsNumbered :
    (ip : String) (b : Builder) → IsNumbered b → IsNumbered (add_from_host ip b)
unfolding add_from_host
add_from_host-IsNumbered ip b h = elim (Bool-cases (str_eq ip "__unknown__")) [
  | inl e ↦ rw e (fixed-IsNumbered _ b refl h)
  | inr e ↦ rw e (when_set-IsNumbered ip _ _ _ b h)
]

add_devices-IsNumbered :
    (ds : List String) (b : Builder) → IsNumbered b → IsNumbered (add_devices ds b)
unfolding add_devices
add_devices-IsNumbered [] b h = h
add_devices-IsNumbered (d ∷ ds) b h = bind_list-IsNumbered _ ", " ")" (d ∷ ds) b refl h

add_has_fields-IsNumbered :
    (has : Bool) (b : Builder) → IsNumbered b → IsNumbered (add_has_fields has b)
unfolding add_has_fields
add_has_fields-IsNumbered true b h = fixed-IsNumbered _ b refl h
add_has_fields-IsNumbered false b h = h

add_required_parsers-IsNumbered :
    (ps : List String) (b : Builder) → IsNumbered b → IsNumbered (add_required_parsers ps b)
unfolding add_required_parsers
add_required_parsers-IsNumbered [] b h = h
add_required_parsers-IsNumbered (p ∷ ps) b h = bind_one-IsNumbered _ _ b (λ n. refl) h

ruleset steps = (
  when_set-IsNumbered, add_from_host-IsNumbered, add_devices-IsNumbered, add_has_fields-IsNumbered,
  add_required_parsers-IsNumbered,
)

add_options-IsNumbered :
    (o : LogFilterOptions) (b : Builder) → IsNumbered b → IsNumbered (add_options o b)
unfolding add_options
add_options-IsNumbered o b h = search steps depth 14

build-IsNumbered : (o : LogFilterOptions) → IsNumbered (build_log_where_clauses o)
unfolding build_log_where_clauses
build-IsNumbered o =
    add_filters-IsNumbered o.field_filters _ (add_options-IsNumbered o start start-IsNumbered)

pub join-numbers : (sep : String) (cs : List Clause) → numbers (join sep cs) ≡ all_numbers cs
unfolding join
join-numbers sep [] = refl
join-numbers sep (c ∷ []) = sym (append-nil (numbers c))
join-numbers sep (c ∷ d ∷ cs) =
    rw (numbers-append c) (ap (λ r. numbers c ++ r) (join-numbers sep (d ∷ cs)))

build_where_sql-numbers : (cs : List Clause) → numbers (build_where_sql cs) ≡ all_numbers cs
unfolding build_where_sql
build_where_sql-numbers [] = refl
build_where_sql-numbers (c ∷ cs) = join-numbers " AND " (c ∷ cs)

-- For every set of options, the placeholders of the WHERE text read from left to right are
-- $1, $2, …, $n, where n is the number of bound arguments, and the index that is returned for the
-- caller's further placeholders is n + 1.
pub build-placeholders :
    (o : LogFilterOptions)
    → let b = build_log_where_clauses o in
      (numbers (build_where_sql b.clauses) ≡ count_from 1 (length b.args))
      × (b.idx ≡ suc (length b.args))
build-placeholders o = let h = build-IsNumbered o in (build_where_sql-numbers _ ∙ h.placed, h.next)
