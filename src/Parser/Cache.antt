-- ===== src/Parser/Cache.antt =====
-- backend/parser/engine.go: `compileCached` over Go's `regexp` package, whose general engine is a
-- parameter.
use logmara.Prelude.{
  ◌≡◌, refl, Bool, true, false, List, [], ◌∷◌, Option, none, some, arith, if◌then◌else◌, Text,
  text_beq, text_beq→eq, Bool-cases, inl, inr,
}
use logmara.Regex
use logmara.Regex.{Regexp}

abbrev pub is_some {ℓ} : {A : Type ℓ} → Option A → Bool
is_some none = false
is_some (some a) = true

-- Go's `regexp` package: the submatches of a match start with the match itself, `MatchString`
-- tells whether there is a match, and on the syntax of `Regex` it behaves as `Regex` says.
pub record RegexpLib : Type 1 where
  pub Compiled : Type 0
  pub compile : Text → Option Compiled
  pub match_string : Compiled → Text → Bool
  pub find_submatch : Compiled → Text → Option (List Text)
  pub match-find : (c : Compiled) (s : Text) → match_string c s ≡ is_some (find_submatch c s)
  pub agrees :
      (t : Text) (r : Regexp)
      → Regex.compile t ≡ some r
      → (c : Compiled) × (compile t ≡ some c)
        × ((s : Text) → match_string c s ≡ Regex.match_string r s)

module _ (lib : RegexpLib) where
  -- `regexCache`: the compiled expressions by their pattern.
  abbrev pub Cache : Type 0
  Cache = List (Text × lib.Compiled)

  unfoldable pub load : Text → Cache → Option lib.Compiled
  load t [] = none
  load t ((u, c) ∷ m) = if text_beq u t then some c else load t m

  abbrev pub compile_miss : Text → Option lib.Compiled → Cache → Option lib.Compiled × Cache
  compile_miss t none m = (none, m)
  compile_miss t (some c) m = (some c, (t, c) ∷ m)

  abbrev pub compile_with : Text → Option lib.Compiled → Cache → Option lib.Compiled × Cache
  compile_with t (some c) m = (some c, m)
  compile_with t none m = compile_miss t (lib.compile t) m

  -- A hit answers from the cache; a miss compiles, and stores what compiled.
  unfoldable pub compile_cached : Text → Cache → Option lib.Compiled × Cache
  compile_cached t m = compile_with t (load t m) m

  -- Every entry is what its pattern compiles to.
  abbrev pub IsValid : Cache → Type 0
  IsValid [] = Unit
  IsValid ((t, c) ∷ m) = (lib.compile t ≡ some c) × IsValid m

  load-compile :
      (t : Text) (m : Cache) {c : lib.Compiled}
      → IsValid m
      → load t m ≡ some c
      → lib.compile t ≡ some c
  unfolding load
  load-compile t [] v h = cc
  load-compile t ((u, d) ∷ m) v h = elim (Bool-cases (text_beq u t)) [
    | inl same ↦ ground (arith, text_beq→eq u t same, v.0)
    | inr other ↦ load-compile t m v.1 (rw other at h)
  ]

  pub IsValid-cons :
      (t : Text) (o : Option lib.Compiled) (m : Cache)
      → lib.compile t ≡ o
      → IsValid m
      → ((compile_miss t o m).0 ≡ o) × IsValid (compile_miss t o m).1
  IsValid-cons t none m e v = (refl, v)
  IsValid-cons t (some c) m e v = (refl, (e, v))

  compile_with-lem :
      (t : Text) (o : Option lib.Compiled) (m : Cache)
      → load t m ≡ o
      → IsValid m
      → ((compile_with t o m).0 ≡ lib.compile t) × IsValid (compile_with t o m).1
  compile_with-lem t none m e v = IsValid-cons t (lib.compile t) m refl v
  compile_with-lem t (some c) m e v = (ground (arith, load-compile t m {c = c} v e), v)

  -- With a valid cache the answer is that of compiling afresh, whatever was asked before, and the
  -- cache stays valid.
  pub compile_cached-compile :
      (t : Text) (m : Cache)
      → IsValid m
      → ((compile_cached t m).0 ≡ lib.compile t) × IsValid (compile_cached t m).1
  unfolding compile_cached
  compile_cached-compile t m v = compile_with-lem t (load t m) m refl v
