-- ===== src/Prelude/Lists.antt =====
-- Lists measured and indexed by native numbers, under the library's names.
use Prim.Native.Nat.{ℕ, zero, suc, ◌+◌, ◌-◌, ◌≤◌, min}
use mathlib.Core.Path.{◌≡◌, refl, sym, ap, ◌∙◌}
use mathlib.Core.Bool.{Bool, true, false, ◌&&◌, ◌||◌}
use mathlib.Core.List.{List, [], ◌∷◌, ◌++◌, map}
use mathlib.Core.Option.{Option, none, some}
use native.Mathlib.Omega.{arith}
use logmara.Prelude.Tests.{if◌then◌else◌}

module _ {ℓ} {A : Type ℓ} where
  abbrev pub length : List A → ℕ
  length [] = 0
  length (x ∷ xs) = suc (length xs)

  abbrev pub is_nil : List A → Bool
  is_nil [] = true
  is_nil (x ∷ xs) = false

  abbrev pub get_elem? : List A → ℕ → Option A
  get_elem? [] i = none
  get_elem? (x ∷ xs) zero = some x
  get_elem? (x ∷ xs) (suc i) = get_elem? xs i

  abbrev pub take : ℕ → List A → List A
  take zero xs = []
  take (suc n) [] = []
  take (suc n) (x ∷ xs) = x ∷ take n xs

  abbrev pub drop : ℕ → List A → List A
  drop zero xs = xs
  drop (suc n) [] = []
  drop (suc n) (x ∷ xs) = drop n xs

  abbrev pub any : (A → Bool) → List A → Bool
  any p [] = false
  any p (x ∷ xs) = p x || any p xs

  abbrev pub all : (A → Bool) → List A → Bool
  all p [] = true
  all p (x ∷ xs) = p x && all p xs

  -- The elements for which the test holds, in order.
  abbrev pub filter : (A → Bool) → List A → List A
  filter p [] = []
  filter p (x ∷ xs) = if p x then x ∷ filter p xs else filter p xs

  -- A predicate by recursion computes to tuples, which the tactics read and build.
  abbrev pub All {κ} : (A → Type κ) → List A → Type κ
  All P [] = Unit
  All P (x ∷ xs) = P x × All P xs

  pub length-append : (xs ys : List A) → length (xs ++ ys) ≡ length xs + length ys
  length-append [] ys = omega arith
  length-append (x ∷ xs) ys = omega (arith, length-append xs ys)

  pub take-append-drop : (n : ℕ) (xs : List A) → take n xs ++ drop n xs ≡ xs
  take-append-drop zero xs = refl
  take-append-drop (suc n) [] = refl
  take-append-drop (suc n) (x ∷ xs) = ap (λ r. x ∷ r) (take-append-drop n xs)

  pub length-take : (n : ℕ) (xs : List A) → length (take n xs) ≡ min n (length xs)
  length-take zero xs = omega arith
  length-take (suc n) [] = omega arith
  length-take (suc n) (x ∷ xs) = omega (arith, length-take n xs)

  pub length-drop : (n : ℕ) (xs : List A) → length (drop n xs) ≡ length xs - n
  length-drop zero xs = omega arith
  length-drop (suc n) [] = omega arith
  length-drop (suc n) (x ∷ xs) = omega (arith, length-drop n xs)

  pub take_front : (n : ℕ) (xs ys : List A) → length xs ≡ n → take n (xs ++ ys) ≡ xs
  take_front zero [] ys h = refl
  take_front zero (x ∷ xs) ys h = absurd (omega arith)
  take_front (suc n) [] ys h = absurd (omega arith)
  take_front (suc n) (x ∷ xs) ys h = ap (λ r. x ∷ r) (take_front n xs ys (omega arith))

  pub drop_front : (n : ℕ) (xs ys : List A) → length xs ≡ n → drop n (xs ++ ys) ≡ ys
  drop_front zero [] ys h = refl
  drop_front zero (x ∷ xs) ys h = absurd (omega arith)
  drop_front (suc n) [] ys h = absurd (omega arith)
  drop_front (suc n) (x ∷ xs) ys h = drop_front n xs ys (omega arith)

  pub take_nil : (n : ℕ) → (let none_left : List A = [] in take n none_left ≡ none_left)
  take_nil zero = refl
  take_nil (suc n) = refl

  pub drop_nil : (n : ℕ) → (let none_left : List A = [] in drop n none_left ≡ none_left)
  drop_nil zero = refl
  drop_nil (suc n) = refl

  pub take_plus : (a b : ℕ) (t : List A) → take (a + b) t ≡ take a t ++ take b (drop a t)
  take_plus zero b t = let none_more : 0 + b ≡ b = omega arith in ap (λ n. take n t) none_more
  take_plus (suc a) b [] = take_nil (suc a + b) ∙ sym (take_nil b)
  take_plus (suc a) b (c ∷ t) =
      let next : suc a + b ≡ suc (a + b) = omega arith in
      ap (λ n. take n (c ∷ t)) next ∙ ap (λ r. c ∷ r) (take_plus a b t)

  pub drop_plus : (a b : ℕ) (t : List A) → drop b (drop a t) ≡ drop (a + b) t
  drop_plus zero b t = let none_more : b ≡ 0 + b = omega arith in ap (λ n. drop n t) none_more
  drop_plus (suc a) b [] = drop_nil b ∙ sym (drop_nil (suc a + b))
  drop_plus (suc a) b (c ∷ t) =
      let next : suc (a + b) ≡ suc a + b = omega arith in
      drop_plus a b t ∙ ap (λ n. drop n (c ∷ t)) next

  pub take_all : (n : ℕ) (t : List A) → length t ≤ n → take n t ≡ t
  take_all zero [] h = refl
  take_all (suc n) [] h = refl
  take_all zero (c ∷ t) h = absurd (omega arith)
  take_all (suc n) (c ∷ t) h = ap (λ r. c ∷ r) (take_all n t (omega arith))

  pub get_elem?-append :
      (front back : List A) (x : A) → get_elem? (front ++ x ∷ back) (length front) ≡ some x
  get_elem?-append [] back x = refl
  get_elem?-append (y ∷ front) back x = get_elem?-append front back x

pub length-map {ℓ κ} :
    {A : Type ℓ} {B : Type κ} (f : A → B) (xs : List A) → length (map f xs) ≡ length xs
length-map f [] = refl
length-map f (x ∷ xs) = ap suc (length-map f xs)

pub All-append {ℓ κ} :
    {A : Type ℓ} (P : A → Type κ) (front back : List A)
    → All P front
    → All P back
    → All P (front ++ back)
All-append P [] back none_first rest = rest
All-append P (a ∷ front) back (first, more) rest = (first, All-append P front back more rest)
