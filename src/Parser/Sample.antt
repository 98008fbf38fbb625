-- ===== src/Parser/Sample.antt =====
-- A regular expression library for the tests: the syntax of `Regex`, with one group that is the
-- whole match.
use logmara.Prelude.{
  ◌≡◌, refl, List, [], ◌∷◌, Option, some, none, Text, Bool-cases, inl, inr, if◌then◌else◌,
}
use logmara.Regex
use logmara.Regex.{Regexp}
use logmara.Parser.Cache.{RegexpLib, is_some}

abbrev pub group_of : Regexp → Text → Option (List Text)
group_of r s = if Regex.match_string r s then some (s ∷ s ∷ []) else none

pub group_of-some : (r : Regexp) (s : Text) → Regex.match_string r s ≡ is_some (group_of r s)
group_of-some r s = elim (Bool-cases (Regex.match_string r s)) [ inl e ↦ rw e | inr e ↦ rw e ]

pub compiled_self :
    (t : Text) (r : Regexp)
    → Regex.compile t ≡ some r
    → (c : Regexp) × (Regex.compile t ≡ some c)
      × ((s : Text) → Regex.match_string c s ≡ Regex.match_string r s)
compiled_self t r e = (r, e, λ s. refl)

abbrev pub sample_lib : RegexpLib
sample_lib = record {
  Compiled = Regexp;
  compile = Regex.compile;
  match_string = Regex.match_string;
  find_submatch = group_of;
  match-find = group_of-some;
  agrees = compiled_self;
}
