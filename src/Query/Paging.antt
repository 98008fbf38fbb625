-- ===== src/Query/Paging.antt =====
-- backend/handler/querybuilder.go: `parsePaginationFromStrings`, with `strconv.Atoi`.
use logmara.Prelude.{
  ℕ, zero, suc, ◌+◌, ◌-◌, ◌*◌, ◌^◌, ◌≤◌, ◌<◌, Bool, true, false, ◌&&◌, ◌||◌, [], ◌∷◌, Option, none,
  some, arith, ltb, leb, ◌==◌, if◌then◌else◌, Text, is_nil, String, str_eq,
}

-- An `int`; `negsuc n` is -(n + 1).
pub data ℤ : Type 0 where
  pos : ℕ → ℤ
  negsuc : ℕ → ℤ

abbrev pub max_int : ℕ
max_int = 2 ^ 63 - 1

-- The value of a text of decimal digits; `none` at any other byte.
unfoldable pub digits : ℕ → Text → Option ℕ
digits n [] = some n
digits n (c ∷ s) =
    let rest = digits (n * 10 + (c - b'0')) s in if leb b'0' c && leb c b'9' then rest else none

abbrev pub negate : ℕ → ℤ
negate zero = pos zero
negate (suc n) = negsuc n

-- The value that `strconv.Atoi` returns, its error ignored: 0 for a text that is no number, and
-- the nearest `int` for a number out of range.
unfoldable pub unsigned : Bool → Text → ℤ
unfolding digits
unsigned minus s = if is_nil s then pos 0 else elim (digits 0 s) [
  | none ↦ pos 0
  | some n ↦
      if minus
      then negate (if leb n (max_int + 1) then n else max_int + 1)
      else pos (if leb n max_int then n else max_int)
]

unfoldable pub atoi : Text → ℤ
unfolding unsigned
atoi [] = pos 0
atoi (c ∷ s) =
    if c == b'-'
    then unsigned true s
    else if c == b'+'
    then unsigned false s
    else unsigned false (c ∷ s)

-- `limitInt <= 0 || limitInt > maxLimit`.
unfoldable pub clamp_limit : ℤ → ℕ → ℕ → ℕ
clamp_limit (negsuc n) default_limit max_limit = default_limit
clamp_limit (pos n) default_limit max_limit = if n == 0 || ltb max_limit n then default_limit else n

-- `offsetInt < 0`.
unfoldable pub clamp_offset : ℤ → ℕ
clamp_offset (negsuc n) = 0
clamp_offset (pos n) = n

unfoldable pub parse_pagination : Text → Text → ℕ → ℕ → ℕ × ℕ
unfolding atoi clamp_limit clamp_offset
parse_pagination limit offset default_limit max_limit =
    (clamp_limit (atoi limit) default_limit max_limit, clamp_offset (atoi offset))

-- `cursorSupported`.
unfoldable pub cursor_supported : String → Bool
cursor_supported sort =
    str_eq sort "" || str_eq sort "timestamp_desc" || str_eq sort "timestamp_asc"

clamp_limit_bounds :
    (z : ℤ) (d m : ℕ) → 0 < d → d ≤ m → (0 < clamp_limit z d m) × (clamp_limit z d m ≤ m)
unfolding clamp_limit
clamp_limit_bounds (negsuc n) d m h k = (h, k)
clamp_limit_bounds (pos n) d m h k = ground arith

unsigned-range : (minus : Bool) (s : Text) → clamp_offset (unsigned minus s) ≤ max_int
unfolding unsigned clamp_offset
unsigned-range minus s = ground arith

atoi-range : (s : Text) → clamp_offset (atoi s) ≤ max_int
unfolding atoi
atoi-range [] = unfold clamp_offset in omega arith
atoi-range (c ∷ s) =
    ground (arith, unsigned-range true s, unsigned-range false s, unsigned-range false (c ∷ s))

-- Whatever the two texts are, with a default between 1 and the maximum the limit is between 1 and
-- the maximum, and the offset is not negative and fits an `int`.
pub parse_pagination_bounds :
    (limit offset : Text) (d m : ℕ)
    → 0 < d
    → d ≤ m
    → let (l, o) = parse_pagination limit offset d m in (0 < l) × (l ≤ m) × (o ≤ max_int)
parse_pagination_bounds limit offset d m h k =
    let b = clamp_limit_bounds (atoi limit) d m h k in
    unfold parse_pagination in (b.0, b.1, atoi-range offset)
