-- ===== src/Parser/Glob.antt =====
-- backend/parser/engine.go: `globToRegex` writes a regular expression, and what it matches is what
-- the glob means: `*` any run of characters, `?` one character, none of them a newline.
use logmara.Prelude.{
  ℕ, ◌≡◌, refl, ◌∙◌, Bool, false, List, [], ◌∷◌, ◌++◌, some, arith, ◌==◌, if◌then◌else◌, Text,
  codes, map, Bool-cases, inl, inr, any, append_assoc, ◌||◌,
}
use logmara.Regex.{Item, lit, dot, dot_star, Regexp, backslash, is_meta, prepend, body, compile}

-- The characters that the loop escapes.
unfoldable pub is_escaped : ℕ → Bool
is_escaped r = any (λ m. r == m) (codes ".+()[]{}^$|\\")

-- What one round of the loop writes.
unfoldable pub write_rune : ℕ → Text
unfolding is_escaped
write_rune r =
    if r == b'*'
    then b'.' ∷ b'*' ∷ []
    else if r == b'?'
    then b'.' ∷ []
    else if is_escaped r
    then backslash ∷ r ∷ []
    else r ∷ []

unfoldable pub write_runes : Text → Text
write_runes [] = []
write_runes (r ∷ p) = write_rune r ++ write_runes p

unfoldable pub glob_to_regex : Text → Text
glob_to_regex p = b'^' ∷ (write_runes p ++ b'$' ∷ [])

-- What a character of the glob stands for.
abbrev pub item_of : ℕ → Item
item_of r = if r == b'*' then dot_star else if r == b'?' then dot else lit r

abbrev pub items_of : Text → List Item
items_of = map item_of

abbrev pub glob_regexp : Text → Regexp
glob_regexp p = record { fold = false; dot_all = false; items = items_of p }

-- The two lists of special characters differ only in `*` and `?`.
escape_table : (r : ℕ) → is_meta r ≡ ((r == b'*') || (r == b'?') || is_escaped r)
unfolding is_meta is_escaped
escape_table r = ground arith

not_meta : (r : ℕ) → is_meta r ≡ false → ((r == backslash) ≡ false) × ((r == b'.') ≡ false)
unfolding is_meta
not_meta r h = (ground arith, ground arith)

body-plain :
    (r c : ℕ) (t : Text) → is_meta r ≡ false → body (r ∷ c ∷ t) ≡ prepend (lit r) (body (c ∷ t))
unfolding body
body-plain r c t h = let (a, b) = not_meta r h in rw (a, b, h)

body-write_rune :
    (r c : ℕ) (t : Text)
    → (c == b'*') ≡ false
    → body (write_rune r ++ c ∷ t) ≡ prepend (item_of r) (body (c ∷ t))
unfolding body write_rune
body-write_rune r c t h = elim (Bool-cases (r == b'*')) [
  | inl star ↦ rw star
  | inr no_star ↦ elim (Bool-cases (r == b'?')) [
    | inl mark ↦ rw (no_star, mark, h)
    | inr no_mark ↦ elim (Bool-cases (is_escaped r)) [
      | inl esc ↦ rw (no_star, no_mark, esc, escape_table r, no_star, no_mark, esc)
      | inr plain ↦
          rw (no_star, no_mark, plain)
            (body-plain r c t (escape_table r ∙ rw (no_star, no_mark, plain)))
    ]
  ]
]

-- What the loop writes for a character does not start with `*`.
rune_head :
    (r : ℕ) (rest : Text)
    → (c : ℕ) × (t : Text) × (write_rune r ++ rest ≡ c ∷ t) × ((c == b'*') ≡ false)
unfolding write_rune
rune_head r rest = elim (Bool-cases (r == b'*')) [
  | inl star ↦ (b'.', b'*' ∷ rest, rw star, refl)
  | inr no_star ↦ elim (Bool-cases (r == b'?')) [
    | inl mark ↦ (b'.', rest, rw (no_star, mark), refl)
    | inr no_mark ↦ elim (Bool-cases (is_escaped r)) [
      | inl esc ↦ (backslash, r ∷ rest, rw (no_star, no_mark, esc), refl)
      | inr plain ↦ (r, rest, rw (no_star, no_mark, plain), no_star)
    ]
  ]
]

tail_shape :
    (p : Text) → (c : ℕ) × (t : Text) × (write_runes p ++ b'$' ∷ [] ≡ c ∷ t) × ((c == b'*') ≡ false)
unfolding write_runes
tail_shape [] = (b'$', [], refl, refl)
tail_shape (r ∷ p) = rw append_assoc (rune_head r (write_runes p ++ b'$' ∷ []))

body-write_runes : (p : Text) → body (write_runes p ++ b'$' ∷ []) ≡ some (items_of p)
unfolding write_runes body
body-write_runes [] = refl
body-write_runes (r ∷ p) =
    let (c, t, shape, no_star) = tail_shape p in
    rw (append_assoc (write_rune r) (write_runes p) (b'$' ∷ []), shape)
      (body-write_rune r c t no_star ∙ rw (← shape) (rw (body-write_runes p)))

-- `globToRegex` writes an expression that compiles, without flags, to the items of the glob.
pub compile-glob_to_regex : (p : Text) → compile (glob_to_regex p) ≡ some (glob_regexp p)
unfolding compile glob_to_regex
compile-glob_to_regex p = rw (body-write_runes p)
