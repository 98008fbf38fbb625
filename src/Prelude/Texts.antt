-- ===== src/Prelude/Texts.antt =====
-- Texts as lists of byte values, where the program walks them: `strings.Contains`,
-- `strings.ToLower` (on ASCII letters), `strings.HasPrefix`, `strings.Join`.
use Prim.Native.Nat.{ℕ, ◌+◌}
use Prim.Native.Char.{code}
use Prim.Native.String.{String}
use mathlib.Core.Bool.{Bool, true, false, ◌&&◌, ◌||◌}
use mathlib.Core.List.{List, [], ◌∷◌, map}
use mathlib.Core.Path.{◌≡◌, refl}
use native.Mathlib.Omega.{arith}
use logmara.Prelude.Tests.{leb, ◌==◌, if◌then◌else◌}

abbrev pub Text : Type 0
Text = List ℕ

abbrev pub codes : String → Text
codes String.[] = []
codes (String.◌∷◌ c s) = code c ∷ codes s

abbrev pub lower_byte : ℕ → ℕ
lower_byte c = if leb b'A' c && leb c b'Z' then c + 32 else c

abbrev pub lower : Text → Text
lower = map lower_byte

abbrev pub has_prefix : Text → Text → Bool
has_prefix s [] = true
has_prefix [] (p ∷ ps) = false
has_prefix (c ∷ s) (p ∷ ps) = (c == p) && has_prefix s ps

abbrev pub contains : Text → Text → Bool
contains [] p = has_prefix [] p
contains (c ∷ s) p = has_prefix (c ∷ s) p || contains s p

abbrev pub text_beq : Text → Text → Bool
text_beq [] [] = true
text_beq (c ∷ s) (d ∷ t) = (c == d) && text_beq s t
text_beq _ _ = false

pub text_beq→eq : (s t : Text) → text_beq s t ≡ true → s ≡ t
text_beq→eq [] [] h = refl
text_beq→eq [] (d ∷ t) h = cc
text_beq→eq (c ∷ s) [] h = cc
text_beq→eq (c ∷ s) (d ∷ t) h = ground (arith, text_beq→eq s t)
