-- ===== src/Parser/Reference.antt =====
-- backend/parser/engine.go: the engine against a description of it that keeps no cache.
use logmara.Prelude.{
  ◌≡◌, refl, sym, subst, ◌∙◌, Bool, true, false, List, [], ◌∷◌, ◌++◌, Option, none, some, String,
  str_eq, arith, if◌then◌else◌, Text, contains, is_nil, lookup, filter, map, append_assoc,
  append-nil, ◌&&◌, ◌↔◌,
}
use logmara.Regex
use logmara.Regex.Matching.{Matches, run_iff}
use logmara.Parser.Cache.{RegexpLib, Cache, IsValid, compile_cached-compile}
use logmara.Parser.Glob.{glob_to_regex, glob_regexp, items_of, compile-glob_to_regex}
use logmara.Parser.Engine.{
  Parser, Line, ParseResult, fields_of, or_nil, matched_by, match_glob, match_value, match_or_all,
  parser_matches, match_regex, match_one, match, submatches, extract, merge_all, result_of, parse,
}
use logmara.Parser.Merge.{or_else, or_else_assoc, lookup-merge_fields}

module _ (lib : RegexpLib) where
  -- Whether a line is in the scope of a parser.
  abbrev pub in_scope_of : String → Text → Line → Bool
  in_scope_of kind v l =
      if str_eq kind "hostname"
      then Regex.match_string (glob_regexp v) l.hostname
      else if str_eq kind "app_name"
      then (if is_nil l.app_name then false else Regex.match_string (glob_regexp v) l.app_name)
      else if str_eq kind "message"
      then contains l.message v
      else str_eq kind "all"

  abbrev pub scope : String → Option Text → Line → Bool
  scope kind none l = str_eq kind "all"
  scope kind (some []) l = str_eq kind "all"
  scope kind (some (c ∷ v)) l = in_scope_of kind (c ∷ v) l

  -- Whether a parser matches a line: the line is in its scope, and its expression compiles and
  -- matches the message.
  abbrev pub hits : Line → Parser → Bool
  hits l p = scope p.match_type p.match_value l && matched_by lib (lib.compile p.regex) l.message

  -- The value that one parser extracts for a field.
  abbrev pub value_in : Text → String → Parser → Option Text
  value_in message k p =
      lookup k (or_nil (fields_of p.fields (submatches lib (lib.compile p.regex) message)))

  abbrev pub first_value : Text → String → List Parser → Option Text
  first_value message k [] = none
  first_value message k (p ∷ ps) = or_else (value_in message k p) (first_value message k ps)

  abbrev pub names : List Parser → List String
  names = map (λ p. p.name)

  -- What one step with the cache has to do: give the answer that needs none, and keep it valid.
  abbrev pub Agrees {ℓ} : {A : Type ℓ} → A × Cache lib → A → Type ℓ
  Agrees (a, m) b = (a ≡ b) × IsValid lib m

  compiled_glob :
      (p s : Text)
      → matched_by lib (lib.compile (glob_to_regex p)) s ≡ Regex.match_string (glob_regexp p) s
  compiled_glob p s =
      let (c, e, same) = lib.agrees (glob_to_regex p) (glob_regexp p) (compile-glob_to_regex p) in
      rw e (same s)

  -- `matchGlob` answers true exactly on the values that the glob matches.
  pub match_glob_iff :
      (p s : Text) (m : Cache lib)
      → IsValid lib m
      → ((match_glob lib p s m).0 ≡ true) ↔ Matches (glob_regexp p) (items_of p) s
  unfolding match_glob Regex.match_string
  match_glob_iff p s m v =
      rw ((compile_cached-compile lib (glob_to_regex p) m v).0, compiled_glob p s)
        (run_iff (glob_regexp p) (items_of p) s)

  match_glob-Agrees :
      (p s : Text) (m : Cache lib)
      → IsValid lib m
      → Agrees (match_glob lib p s m) (Regex.match_string (glob_regexp p) s)
  unfolding match_glob
  match_glob-Agrees p s m v =
      let (e, v') = compile_cached-compile lib (glob_to_regex p) m v in
      (rw e (compiled_glob p s), v')

  match_value-Agrees :
      (kind : String) (p : Text) (l : Line) (m : Cache lib)
      → IsValid lib m
      → Agrees (match_value lib kind p l m) (in_scope_of kind p l)
  unfolding match_value
  match_value-Agrees kind p l m v =
      ground (arith, match_glob-Agrees p l.hostname m v, match_glob-Agrees p l.app_name m v)

  match_or_all-Agrees :
      (kind : String) (o : Option Text) (l : Line) (m : Cache lib)
      → IsValid lib m
      → Agrees (match_or_all lib kind o l m) (scope kind o l)
  unfolding match_or_all
  match_or_all-Agrees kind none l m v = (refl, v)
  match_or_all-Agrees kind (some []) l m v = (refl, v)
  match_or_all-Agrees kind (some (c ∷ p)) l m v = match_value-Agrees kind (c ∷ p) l m v

  match_regex-Agrees :
      (p : Parser) (l : Line) (b : Bool) (r : Bool × Cache lib)
      → Agrees r b
      → Agrees (match_regex lib p l r) (b && matched_by lib (lib.compile p.regex) l.message)
  match_regex-Agrees p l b (false, m) (e, v) = (ground arith, v)
  match_regex-Agrees p l b (true, m) (e, v) =
      let (d, v') = compile_cached-compile lib p.regex m v in (rw (← e, d), v')

  match_one-Agrees :
      (p : Parser) (l : Line) (m : Cache lib)
      → IsValid lib m
      → Agrees (match_one lib p l m) (hits l p)
  unfolding match_one parser_matches
  match_one-Agrees p l m v =
      match_regex-Agrees p l (scope p.match_type p.match_value l) _
        (match_or_all-Agrees p.match_type p.match_value l m v)

  -- `Match` returns the parsers that match the line, in the order in which they are loaded.
  pub match-Agrees :
      (ps : List Parser) (l : Line) (m : Cache lib)
      → IsValid lib m
      → Agrees (match lib ps l m) (filter (hits l) ps)
  unfolding match
  match-Agrees [] l m v = (refl, v)
  match-Agrees (p ∷ ps) l m v =
      let (e, v') = match_one-Agrees p l m v in
      let (e', v'') = match-Agrees ps l (match_one lib p l m).1 v' in (rw (e, e'), v'')

  extract-Agrees :
      (p : Parser) (message : Text) (m : Cache lib)
      → IsValid lib m
      → Agrees
          (extract lib p message m)
          (fields_of p.fields (submatches lib (lib.compile p.regex) message))
  unfolding extract
  extract-Agrees p message m v = let (e, v') = compile_cached-compile lib p.regex m v in (rw e, v')

  merge_all-lem :
      (ps : List Parser) (message : Text) (r : ParseResult) (m : Cache lib)
      → IsValid lib m
      → let (r', m') = merge_all lib ps message r m in
        (r'.parsers ≡ r.parsers ++ names ps)
        × ((k : String)
            → lookup k r'.fields ≡ or_else (lookup k r.fields) (first_value message k ps))
        × IsValid lib m'
  unfolding merge_all
  merge_all-lem [] message r m v = (sym (append-nil _), λ k. or_none (lookup k r.fields), v)
    where
      or_none : (o : Option Text) → o ≡ or_else o none
      or_none none = refl
      or_none (some t) = refl
  merge_all-lem (p ∷ ps) message r m v =
      let (e, v') = extract-Agrees p message m v in
      let (names_ok, fields_ok, v'') = merge_all-lem ps message _ (extract lib p message m).1 v' in
      (
        names_ok ∙ append_assoc r.parsers (p.name ∷ []) (names ps),
        λ k. fields_ok k ∙ rw (lookup-merge_fields k, e, or_else_assoc),
        v'',
      )

  -- A result against the parsers that match: none, or their names in order with, for each field,
  -- the value of the first of them that has one.
  abbrev pub Describes : Text → List Parser → Option ParseResult → Type 0
  Describes message [] r = (r ≡ none)
  Describes message (p ∷ ps) none = ⊥
  Describes message (p ∷ ps) (some r) =
      (r.parsers ≡ names (p ∷ ps))
      × ((k : String) → lookup k r.fields ≡ first_value message k (p ∷ ps))

  result_of-lem :
      (ps : List Parser) (message : Text) (m : Cache lib)
      → IsValid lib m
      → Describes message ps (result_of lib ps message m).0
        × IsValid lib (result_of lib ps message m).1
  result_of-lem [] message m v = (refl, v)
  result_of-lem (p ∷ ps) message m v =
      let none_yet : ParseResult = record { fields = []; parsers = [] } in
      let (names_ok, fields_ok, v') = merge_all-lem (p ∷ ps) message none_yet m v in
      ((names_ok, λ k. unfold lookup in fields_ok k), v')

  -- For any list of parsers, any line and any cache that holds what its patterns compile to: the
  -- parsers whose scope holds the line and whose expression matches the message are exactly those
  -- that `Parse` reports, in loading order; it returns nil exactly when there is none; each field
  -- has the value of the first reported parser that extracts it; and the cache stays valid.
  pub parse-Describes :
      (ps : List Parser) (l : Line) (m : Cache lib)
      → IsValid lib m
      → Describes l.message (filter (hits l) ps) (parse lib ps l m).0
        × IsValid lib (parse lib ps l m).1
  unfolding parse
  parse-Describes ps l m v =
      let (e, v') = match-Agrees ps l m v in
      let (d, v'') = result_of-lem (match lib ps l m).0 l.message (match lib ps l m).1 v' in
      (subst (λ hs. Describes l.message hs (parse lib ps l m).0) e d, v'')
