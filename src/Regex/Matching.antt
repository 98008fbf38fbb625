-- ===== src/Regex/Matching.antt =====
-- What it means for a text to match, with no order of search in it, and `run` against that.
use logmara.Prelude.{
  ℕ, ◌≡◌, refl, ◌↔◌, Bool, true, false, ◌&&◌, ◌||◌, List, [], ◌∷◌, ◌⊎◌, inl, inr, arith, Text,
}
use logmara.Regex.{Item, lit, dot, dot_star, Regexp, accepts, run}

pub data Matches (r : Regexp) : List Item → Text → Type 0 where
  end : Matches r [] []
  take_lit :
      {l c : ℕ} {p : List Item} {s : Text}
      → accepts r (lit l) c ≡ true
      → Matches r p s
      → Matches r (lit l ∷ p) (c ∷ s)
  take_dot :
      {c : ℕ} {p : List Item} {s : Text}
      → accepts r dot c ≡ true
      → Matches r p s
      → Matches r (dot ∷ p) (c ∷ s)
  stop : {p : List Item} {s : Text} → Matches r p s → Matches r (dot_star ∷ p) s
  go_on :
      {c : ℕ} {p : List Item} {s : Text}
      → accepts r dot_star c ≡ true
      → Matches r (dot_star ∷ p) s
      → Matches r (dot_star ∷ p) (c ∷ s)

and_inv : (a b : Bool) → (a && b) ≡ true → (a ≡ true) × (b ≡ true)
and_inv a b h = ground arith

or_inv : (a b : Bool) → (a || b) ≡ true → (a ≡ true) ⊎ (b ≡ true)
or_inv true b h = inl refl
or_inv false b h = inr h

run→Matches : (r : Regexp) (p : List Item) (s : Text) → run r p s ≡ true → Matches r p s
unfolding run
run→Matches r [] [] h = end
run→Matches r [] (c ∷ s) h = cc
run→Matches r (lit l ∷ p) [] h = cc
run→Matches r (lit l ∷ p) (c ∷ s) h =
    let (a, b) = and_inv (accepts r (lit l) c) (run r p s) h in take_lit a (run→Matches r p s b)
run→Matches r (dot ∷ p) [] h = cc
run→Matches r (dot ∷ p) (c ∷ s) h =
    let (a, b) = and_inv (accepts r dot c) (run r p s) h in take_dot a (run→Matches r p s b)
run→Matches r (dot_star ∷ p) [] h = stop (run→Matches r p [] h)
run→Matches r (dot_star ∷ p) (c ∷ s) h = elim (or_inv (run r p (c ∷ s)) _ h) [
  | inl now ↦ stop (run→Matches r p (c ∷ s) now)
  | inr later ↦
      let (a, b) = and_inv (accepts r dot_star c) (run r (dot_star ∷ p) s) later in
      go_on a (run→Matches r (dot_star ∷ p) s b)
]

Matches→run : (r : Regexp) {p : List Item} {s : Text} → Matches r p s → run r p s ≡ true
unfolding run
Matches→run r end = refl
Matches→run r (take_lit a d) = ground (arith, Matches→run r d)
Matches→run r (take_dot a d) = ground (arith, Matches→run r d)
Matches→run r (stop {p = p} {s = []} d) = Matches→run r d
Matches→run r (stop {p = p} {s = c ∷ s} d) = ground (arith, Matches→run r d)
Matches→run r (go_on {p = p} {s = s} a d) = ground (arith, Matches→run r d)

-- The backtracking search answers true exactly on the texts that match.
pub run_iff : (r : Regexp) (p : List Item) (s : Text) → (run r p s ≡ true) ↔ Matches r p s
run_iff r p s = (run→Matches r p s, Matches→run r)
