-- ===== src/Parser/Tests.antt =====
-- Parser engine: the theorems at a concrete line, and runs.
use logmara.Prelude.{◌≡◌, refl, [], ◌∷◌, List, some, none, codes, filter, lookup, insert}
use logmara.Regex.{run, accepts, match_string, compile, body, is_meta}
use logmara.Parser.Cache.{Cache, IsValid, compile_cached, load}
use logmara.Parser.Glob.{glob_to_regex, write_runes, write_rune, is_escaped}
use logmara.Parser.Engine.{
  Parser, Line, match_glob, match_value, match_or_all, parser_matches, match_one, match, extract,
  merge_all, fields_of, assign, merge_fields, add_missing, parse,
}
use logmara.Parser.Reference.{hits, Describes, parse-Describes}
use logmara.Parser.Sample.{sample_lib}

abbrev dns : Parser
dns = record {
  name = "dns";
  match_type = "hostname";
  match_value = some (codes "ns-*");
  regex = codes "^query .*$";
  fields = "whole" ∷ [];
}

abbrev anything : Parser
anything = record {
  name = "anything";
  match_type = "all";
  match_value = none;
  regex = codes "^.*$";
  fields = "whole" ∷ [];
}

abbrev line : Line
line = record { hostname = codes "ns-1"; app_name = []; message = codes "query a" }

abbrev empty_cache : Cache sample_lib
empty_cache = []

abbrev loaded : List Parser
loaded = dns ∷ anything ∷ []

parse-Describes_example :
    Describes sample_lib line.message
      (filter (hits sample_lib line) loaded)
      (parse sample_lib loaded line empty_cache).0
    × IsValid sample_lib (parse sample_lib loaded line empty_cache).1
parse-Describes_example = parse-Describes sample_lib loaded line empty_cache tt

first_wins :
    (parse sample_lib loaded line empty_cache).0
    ≡ some (record { fields = ("whole", codes "query a") ∷ []; parsers = "dns" ∷ "anything" ∷ [] })
unfolding parse match match_one parser_matches match_or_all match_value match_glob compile_cached
    load glob_to_regex write_runes write_rune is_escaped compile body is_meta match_string run
    accepts extract merge_all fields_of assign merge_fields add_missing lookup insert
first_wins = refl
