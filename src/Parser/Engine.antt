-- ===== src/Parser/Engine.antt =====
-- backend/parser/engine.go: `Match`, `parserMatches`, `matchGlob`, `Extract` and `Parse`, over the
-- list of loaded parsers and the cache of compiled expressions.
use logmara.Prelude.{
  Bool, true, false, List, [], ◌∷◌, ◌++◌, Option, none, some, String, str_eq, if◌then◌else◌, Text,
  contains, is_nil, Assoc, lookup, insert,
}
use logmara.Parser.Cache.{RegexpLib, Cache, compile_cached}
use logmara.Parser.Glob.{glob_to_regex}

pub record Parser : Type 0 where
  pub name : String
  pub match_type : String
  pub match_value : Option Text
  pub regex : Text
  pub fields : List String

pub record Line : Type 0 where
  pub hostname : Text
  pub app_name : Text
  pub message : Text

pub record ParseResult : Type 0 where
  pub fields : Assoc Text
  pub parsers : List String

-- `result[field.Name] = matches[i+1]` for each field that has a group.
unfoldable pub assign : List String → List Text → Assoc Text → Assoc Text
assign [] groups result = result
assign (f ∷ fs) [] result = result
assign (f ∷ fs) (g ∷ gs) result = assign fs gs (insert f g result)

unfoldable pub fields_of : List String → Option (List Text) → Option (Assoc Text)
fields_of fs none = none
fields_of fs (some []) = some []
fields_of fs (some (whole ∷ groups)) = some (assign fs groups [])

-- `if _, exists := merged[k]; !exists { merged[k] = v }`.
unfoldable pub add_missing : String → Text → Assoc Text → Assoc Text
add_missing k v merged = elim (lookup k merged) [ none ↦ insert k v merged | some old ↦ merged ]

unfoldable pub merge_fields : Assoc Text → Assoc Text → Assoc Text
merge_fields [] merged = merged
merge_fields ((k, v) ∷ fs) merged = merge_fields fs (add_missing k v merged)

-- `Extract` returns a nil map where there is nothing, and ranging over it does nothing.
abbrev pub or_nil : Option (Assoc Text) → Assoc Text
or_nil none = []
or_nil (some fs) = fs

module _ (lib : RegexpLib) where
  -- A match against a pattern that may not compile: then it does not match.
  abbrev pub matched_by : Option lib.Compiled → Text → Bool
  matched_by none s = false
  matched_by (some c) s = lib.match_string c s

  unfoldable pub match_glob : Text → Text → Cache lib → Bool × Cache lib
  match_glob pattern value m =
      let (re, m') = compile_cached lib (glob_to_regex pattern) m in (matched_by re value, m')

  -- The cases of `parserMatches` for a value that is set and not empty.
  unfoldable pub match_value : String → Text → Line → Cache lib → Bool × Cache lib
  match_value kind v l m =
      if str_eq kind "hostname"
      then match_glob v l.hostname m
      else if str_eq kind "app_name"
      then (if is_nil l.app_name then (false, m) else match_glob v l.app_name m)
      else if str_eq kind "message"
      then (contains l.message v, m)
      else (str_eq kind "all", m)

  -- Without a value only the type `all` matches.
  unfoldable pub match_or_all : String → Option Text → Line → Cache lib → Bool × Cache lib
  match_or_all kind none l m = (str_eq kind "all", m)
  match_or_all kind (some []) l m = (str_eq kind "all", m)
  match_or_all kind (some (c ∷ v)) l m = match_value kind (c ∷ v) l m

  unfoldable pub parser_matches : Parser → Line → Cache lib → Bool × Cache lib
  parser_matches p l m = match_or_all p.match_type p.match_value l m

  -- One round of the loop of `Match`: whether the parser is appended.
  abbrev pub match_regex : Parser → Line → Bool × Cache lib → Bool × Cache lib
  match_regex p l (false, m) = (false, m)
  match_regex p l (true, m) =
      let (re, m') = compile_cached lib p.regex m in (matched_by re l.message, m')

  unfoldable pub match_one : Parser → Line → Cache lib → Bool × Cache lib
  match_one p l m = match_regex p l (parser_matches p l m)

  unfoldable pub match : List Parser → Line → Cache lib → List Parser × Cache lib
  match [] l m = ([], m)
  match (p ∷ ps) l m =
      let (hit, m') = match_one p l m in
      let (rest, m'') = match ps l m' in (if hit then p ∷ rest else rest, m'')

  abbrev pub submatches : Option lib.Compiled → Text → Option (List Text)
  submatches none s = none
  submatches (some c) s = lib.find_submatch c s

  unfoldable pub extract : Parser → Text → Cache lib → Option (Assoc Text) × Cache lib
  extract p message m =
      let (re, m') = compile_cached lib p.regex m in
      (fields_of p.fields (submatches re message), m')

  -- The loop of `Parse` over the parsers that matched.
  unfoldable pub merge_all : List Parser → Text → ParseResult → Cache lib → ParseResult × Cache lib
  merge_all [] message r m = (r, m)
  merge_all (p ∷ ps) message r m =
      let (fs, m') = extract p message m in
      merge_all ps message
        (record { fields = merge_fields (or_nil fs) r.fields; parsers = r.parsers ++ p.name ∷ [] })
        m'

  abbrev pub result_of : List Parser → Text → Cache lib → Option ParseResult × Cache lib
  result_of [] message m = (none, m)
  result_of (p ∷ ps) message m =
      let (r, m') = merge_all (p ∷ ps) message (record { fields = []; parsers = [] }) m in
      (some r, m')

  unfoldable pub parse : List Parser → Line → Cache lib → Option ParseResult × Cache lib
  parse ps l m = let (hits, m') = match ps l m in result_of hits l.message m'
