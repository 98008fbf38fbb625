-- ===== src/Regex.antt =====
-- The regular expressions that the program itself writes (backend/parser/engine.go and
-- backend/alertengine/engine.go turn globs into them), in the part of Go's syntax that they use:
-- `^`, literals, escaped punctuation, `.`, `.*`, `$`, and the flags `(?is)`. A text is a list of
-- code points.
pub mod Matching
use logmara.Prelude.{
  ℕ, ◌+◌, ◌-◌, Bool, true, false, not, ◌&&◌, ◌||◌, List, [], ◌∷◌, ◌++◌, any, drop, Option, none,
  some, ◌==◌, if◌then◌else◌, Text, codes, has_prefix, lower_byte,
}

pub data Item : Type 0 where
  lit : ℕ → Item
  dot dot_star : Item

pub record Regexp : Type 0 where
  pub fold : Bool
  pub dot_all : Bool
  pub items : List Item

abbrev pub backslash : ℕ
backslash = 92

-- The characters that `regexp.QuoteMeta` escapes.
unfoldable pub is_meta : ℕ → Bool
is_meta c = any (λ m. c == m) (codes "\\.+*?()|[]{}^$")

abbrev pub prepend : Item → Option (List Item) → Option (List Item)
prepend i none = none
prepend i (some is) = some (i ∷ is)

-- What stands between `^` and the end, `$` included; `none` for what is not in this part of the
-- syntax.
unfoldable pub body : Text → Option (List Item)
body [] = none
body (c ∷ []) = if c == b'$' then some [] else none
body (c ∷ d ∷ s) =
    let after_two = body s in
    let after_one = body (d ∷ s) in
    if c == backslash
    then (if is_meta d then prepend (lit d) after_two else none)
    else if c == b'.'
    then (if d == b'*' then prepend dot_star after_two else prepend dot after_one)
    else if is_meta c
    then none
    else prepend (lit c) after_one

abbrev pub anchored : Text → Option (List Item)
anchored [] = none
anchored (c ∷ s) = if c == b'^' then body s else none

abbrev pub with_flags : Bool → Option (List Item) → Option Regexp
with_flags set none = none
with_flags set (some is) = some (record { fold = set; dot_all = set; items = is })

-- `regexp.Compile`.
unfoldable pub compile : Text → Option Regexp
compile t =
    if has_prefix t (codes "(?is)")
    then with_flags true (anchored (drop 5 t))
    else with_flags false (anchored t)

-- Whether an item that takes one character takes this one.
unfoldable pub accepts : Regexp → Item → ℕ → Bool
accepts r (lit l) c = if r.fold then lower_byte l == lower_byte c else l == c
accepts r dot c = r.dot_all || not (c == 10)
accepts r dot_star c = r.dot_all || not (c == 10)

-- `re.MatchString` for an expression between `^` and `$`.
unfoldable pub run : Regexp → List Item → Text → Bool
run r [] [] = true
run r [] (c ∷ s) = false
run r (lit l ∷ p) [] = false
run r (lit l ∷ p) (c ∷ s) = accepts r (lit l) c && run r p s
run r (dot ∷ p) [] = false
run r (dot ∷ p) (c ∷ s) = accepts r dot c && run r p s
run r (dot_star ∷ p) [] = run r p []
run r (dot_star ∷ p) (c ∷ s) = run r p (c ∷ s) || (accepts r dot_star c && run r (dot_star ∷ p) s)

unfoldable pub match_string : Regexp → Text → Bool
match_string r s = run r r.items s
