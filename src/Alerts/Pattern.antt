-- ===== src/Alerts/Pattern.antt =====
-- backend/alertengine/engine.go: `matchPattern` and its `globToRegex`, with `strings.Split`,
-- `strings.Join` and `regexp.QuoteMeta`.
use logmara.Prelude.{
  ℕ, ◌≡◌, refl, ap, ◌∙◌, Bool, true, false, not, List, [], ◌∷◌, ◌++◌, Option, none, some, arith,
  ◌==◌, if◌then◌else◌, Text, codes, map, Bool-cases, inl, inr, ◌↔◌, contains, lower, is_nil,
  append_assoc,
}
use logmara.Regex.{
  Item, lit, dot_star, Regexp, backslash, is_meta, prepend, body, compile, match_string,
}
use logmara.Regex.Matching.{Matches, run_iff}

-- `regexp.QuoteMeta`.
unfoldable pub quote_meta : Text → Text
quote_meta [] = []
quote_meta (c ∷ s) = if is_meta c then backslash ∷ c ∷ quote_meta s else c ∷ quote_meta s

abbrev pub cons_first : ℕ → List Text → List Text
cons_first c [] = (c ∷ []) ∷ []
cons_first c (w ∷ ws) = (c ∷ w) ∷ ws

-- `strings.Split` at a separator of one character.
unfoldable pub split : ℕ → Text → List Text
split sep [] = [] ∷ []
split sep (c ∷ s) = if c == sep then [] ∷ split sep s else cons_first c (split sep s)

unfoldable pub join : Text → List Text → Text
join sep [] = []
join sep (w ∷ []) = w
join sep (w ∷ x ∷ ws) = w ++ sep ++ join sep (x ∷ ws)

abbrev pub star : ℕ
star = b'*'

unfoldable pub glob_text : Text → Text
unfolding quote_meta split join
glob_text pattern =
    codes "(?is)" ++ b'^' ∷ (join (codes ".*") (map quote_meta (split star pattern)) ++ b'$' ∷ [])

abbrev pub matched : Option Regexp → Text → Bool
matched none value = false
matched (some re) value = match_string re value

unfoldable pub match_pattern : Text → Text → Bool
unfolding glob_text
match_pattern pattern value =
    if is_nil pattern
    then true
    else if not (contains pattern (star ∷ []))
    then contains (lower value) (lower pattern)
    else matched (compile (glob_text pattern)) value

-- What a character of the pattern stands for.
abbrev pub item_of : ℕ → Item
item_of c = if c == star then dot_star else lit c

abbrev pub glob_regexp : Text → Regexp
glob_regexp p = record { fold = true; dot_all = true; items = map item_of p }

written : ℕ → Text
written c = if c == star then codes ".*" else if is_meta c then backslash ∷ c ∷ [] else c ∷ []

write_all : Text → Text
write_all [] = []
write_all (c ∷ s) = written c ++ write_all s

split_shape : (p : Text) → (w : Text) × (ws : List Text) × (split star p ≡ w ∷ ws)
unfolding split
split_shape [] = ([], [], refl)
split_shape (c ∷ s) =
    let (w, ws, e) = split_shape s in
    elim (Bool-cases (c == star)) [
      | inl cut ↦ ([], split star s, rw cut)
      | inr same ↦ (c ∷ w, ws, rw (same, e))
    ]

join-first : (sep x w : Text) (ws : List Text) → join sep ((x ++ w) ∷ ws) ≡ x ++ join sep (w ∷ ws)
unfolding join
join-first sep x w [] = refl
join-first sep x w (v ∷ ws) =
    rw (append_assoc x w sep, append_assoc x (w ++ sep) (join sep (v ∷ ws)))

quote_meta-cons :
    (c : ℕ) (w : Text) → (c == star) ≡ false → quote_meta (c ∷ w) ≡ written c ++ quote_meta w
unfolding quote_meta written
quote_meta-cons c w h = rw h (elim (Bool-cases (is_meta c)) [ inl e ↦ rw e | inr e ↦ rw e ])

written-star : (c : ℕ) → (c == star) ≡ true → written c ≡ codes ".*"
unfolding written
written-star c h = rw h

-- Cutting the pattern at its stars, quoting the parts and joining them is writing it character by
-- character.
join-quoted : (p : Text) → join (codes ".*") (map quote_meta (split star p)) ≡ write_all p
unfolding join split quote_meta write_all
join-quoted [] = refl
join-quoted (c ∷ s) =
    let (w, ws, e) = split_shape s in
    let ih = join-quoted s in
    elim (Bool-cases (c == star)) [
      | inl cut ↦ rw (cut, e, written-star c cut) (ap (λ r. codes ".*" ++ r) (rw e at ih))
      | inr same ↦
          rw (same, e, quote_meta-cons c w same)
            (join-first (codes ".*") (written c) (quote_meta w) (map quote_meta ws)
              ∙ ap (λ r. written c ++ r) (rw e at ih))
    ]

not_meta : (c : ℕ) → is_meta c ≡ false → ((c == backslash) ≡ false) × ((c == b'.') ≡ false)
unfolding is_meta
not_meta c h = (ground arith, ground arith)

body-written :
    (c d : ℕ) (t : Text)
    → (d == star) ≡ false
    → body (written c ++ d ∷ t) ≡ prepend (item_of c) (body (d ∷ t))
unfolding body written
body-written c d t h = elim (Bool-cases (c == star)) [
  | inl cut ↦ rw cut
  | inr same ↦ elim (Bool-cases (is_meta c)) [
    | inl esc ↦ rw (same, esc, esc)
    | inr plain ↦ let (a, b) = not_meta c plain in rw (same, plain, a, b, plain)
  ]
]

written_head :
    (c : ℕ) (rest : Text)
    → (d : ℕ) × (t : Text) × (written c ++ rest ≡ d ∷ t) × ((d == star) ≡ false)
unfolding written
written_head c rest = elim (Bool-cases (c == star)) [
  | inl cut ↦ (b'.', star ∷ rest, rw cut, refl)
  | inr same ↦ elim (Bool-cases (is_meta c)) [
    | inl esc ↦ (backslash, c ∷ rest, rw (same, esc), refl)
    | inr plain ↦ (c, rest, rw (same, plain), same)
  ]
]

tail_head :
    (p : Text) → (d : ℕ) × (t : Text) × (write_all p ++ b'$' ∷ [] ≡ d ∷ t) × ((d == star) ≡ false)
unfolding write_all
tail_head [] = (b'$', [], refl, refl)
tail_head (c ∷ s) = rw append_assoc (written_head c (write_all s ++ b'$' ∷ []))

body-write_all : (p : Text) → body (write_all p ++ b'$' ∷ []) ≡ some (map item_of p)
unfolding write_all body
body-write_all [] = refl
body-write_all (c ∷ s) =
    let (d, t, shape, no_star) = tail_head s in
    rw (append_assoc (written c) (write_all s) (b'$' ∷ []), shape)
      (body-written c d t no_star ∙ rw (← shape) (rw (body-write_all s)))

-- The expression that is written always compiles, with the flags `i` and `s`.
pub compile-glob_text : (p : Text) → compile (glob_text p) ≡ some (glob_regexp p)
unfolding compile glob_text
compile-glob_text p = rw (join-quoted p, body-write_all p)

-- An empty pattern matches every text; a pattern with a star matches exactly the texts that it
-- matches as a glob, where a star stands for any run of characters, newlines included, and letters
-- match in either case; any other pattern matches the texts that hold it, in either case.
pub match_pattern_iff :
    (p value : Text)
    → (is_nil p ≡ true → match_pattern p value ≡ true)
      × (is_nil p ≡ false
          → contains p (star ∷ []) ≡ true
          → (match_pattern p value ≡ true) ↔ Matches (glob_regexp p) (map item_of p) value)
      × (is_nil p ≡ false
          → contains p (star ∷ []) ≡ false
          → match_pattern p value ≡ contains (lower value) (lower p))
unfolding match_pattern match_string
match_pattern_iff p value = (
  λ e. rw e,
  λ e star_in. rw (e, star_in, compile-glob_text p) (run_iff (glob_regexp p) (map item_of p) value),
  λ e no_star. rw (e, no_star),
)
