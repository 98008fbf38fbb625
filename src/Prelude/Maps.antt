-- ===== src/Prelude/Maps.antt =====
-- Go's maps with text keys, as association lists with one entry for a key.
use Prim.Native.String.{String}
use mathlib.Core.Path.{◌≡◌, refl}
use mathlib.Core.List.{List, [], ◌∷◌}
use mathlib.Core.Option.{Option, none, some}
use native.Mathlib.Omega.{arith}
use text.Mathlib.TextEquality.{eq_iff}
use logmara.Prelude.Tests.{str_eq, if◌then◌else◌}

abbrev pub Assoc {ℓ} : Type ℓ → Type ℓ
Assoc V = List (String × V)

-- `v, ok := m[key]`
unfoldable pub lookup {ℓ} : {V : Type ℓ} → String → Assoc V → Option V
lookup key [] = none
lookup key ((name, value) ∷ rest) = if str_eq name key then some value else lookup key rest

-- `m[key] = value`
unfoldable pub insert {ℓ} : {V : Type ℓ} → String → V → Assoc V → Assoc V
insert key new [] = (key, new) ∷ []
insert key new ((name, value) ∷ rest) =
    if str_eq name key then (name, new) ∷ rest else (name, value) ∷ insert key new rest

-- `delete(m, key)`
unfoldable pub remove {ℓ} : {V : Type ℓ} → String → Assoc V → Assoc V
remove key [] = []
remove key ((name, value) ∷ rest) =
    if str_eq name key then remove key rest else (name, value) ∷ remove key rest

pub lookup-insert {ℓ} :
    {V : Type ℓ} (key asked : String) (new : V) (table : Assoc V)
    → lookup asked (insert key new table)
      ≡ (if str_eq key asked then some new else lookup asked table)
unfolding lookup insert
lookup-insert key asked new [] = refl
lookup-insert key asked new ((name, value) ∷ rest) =
    let ih = lookup-insert key asked new rest in
    ground (arith, ih, eq_iff name key, eq_iff name asked, eq_iff key asked)

pub lookup-remove {ℓ} :
    {V : Type ℓ} (key asked : String) (table : Assoc V)
    → lookup asked (remove key table) ≡ (if str_eq key asked then none else lookup asked table)
unfolding lookup remove
lookup-remove key asked [] = ground arith
lookup-remove key asked ((name, value) ∷ rest) =
    let ih = lookup-remove key asked rest in
    ground (arith, ih, eq_iff name key, eq_iff name asked, eq_iff key asked)
