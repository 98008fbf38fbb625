-- ===== src/Parser/Merge.antt =====
-- backend/parser/engine.go: the maps that `Extract` and `Parse` build.
use logmara.Prelude.{
  ◌≡◌, refl, Bool, true, false, List, [], ◌∷◌, Option, none, some, String, str_eq, eq_iff, arith,
  if◌then◌else◌, Text, Assoc, lookup, insert, lookup-insert,
}
use logmara.Parser.Engine.{assign, add_missing, merge_fields}

-- `first`, or `second` where that has nothing.
abbrev pub or_else {ℓ} : {A : Type ℓ} → Option A → Option A → Option A
or_else (some a) o = some a
or_else none o = o

-- The value of the last field of that name that has a group.
abbrev pub last_group : String → List String → List Text → Option Text
last_group k [] gs = none
last_group k (f ∷ fs) [] = none
last_group k (f ∷ fs) (g ∷ gs) = or_else (last_group k fs gs) (if str_eq f k then some g else none)

pub or_else_assoc {ℓ} :
    {A : Type ℓ} (a b c : Option A) → or_else (or_else a b) c ≡ or_else a (or_else b c)
or_else_assoc none b c = refl
or_else_assoc (some a) b c = refl

or_else-if :
    (b : Bool) (g : Text) (o : Option Text)
    → (if b then some g else o) ≡ or_else (if b then some g else none) o
or_else-if true g o = refl
or_else-if false g o = refl

pub lookup-assign :
    (k : String) (fs : List String) (gs : List Text) (m : Assoc Text)
    → lookup k (assign fs gs m) ≡ or_else (last_group k fs gs) (lookup k m)
unfolding assign
lookup-assign k [] gs m = refl
lookup-assign k (f ∷ fs) [] m = refl
lookup-assign k (f ∷ fs) (g ∷ gs) m =
    rw (lookup-assign k fs gs (insert f g m), lookup-insert f k g m, or_else-if, or_else_assoc)

pub lookup-add_missing :
    (k j : String) (v : Text) (m : Assoc Text)
    → lookup k (add_missing j v m) ≡ or_else (lookup k m) (if str_eq j k then some v else none)
unfolding add_missing
lookup-add_missing k j v m = ground (arith, lookup-insert j k v m, eq_iff j k)

-- After merging, what was there stays, and a new key gets the value that the fields have for it.
pub lookup-merge_fields :
    (k : String) (fs m : Assoc Text)
    → lookup k (merge_fields fs m) ≡ or_else (lookup k m) (lookup k fs)
unfolding merge_fields lookup
lookup-merge_fields k [] m = ground arith
lookup-merge_fields k ((j, v) ∷ fs) m =
    ground (arith, lookup-merge_fields k fs (add_missing j v m), lookup-add_missing k j v m)
