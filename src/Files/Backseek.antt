-- ===== src/Files/Backseek.antt =====
-- backend/tailer/tailer.go: `safeBackseek`, and its use where the reader of reader.go and the loop of
-- tailer.go validate the position. `read` is `ReadAt` of one byte; `opened` is whether the file opens.
use logmara.Prelude.{
  ℕ, zero, suc, ◌+◌, ◌-◌, ◌*◌, ◌≤◌, ◌<◌, ◌≡◌, ◌≢◌, refl, sym, ◌∙◌, ap, ◌⊎◌, inl, inr, Bool, true,
  false, Option, none, some, if◌then◌else◌, if_splits, leb, leb→le, Bool-cases, ◌==◌, ==_iff, arith,
}

abbrev pub backseek_limit : ℕ
backseek_limit = 1024 * 1024

abbrev pub at_byte : Option ℕ → ℕ → ℕ × Bool → ℕ × Bool
at_byte none cur rest = (0, false)
at_byte (some b) cur rest = if b == b'\n' then (cur, false) else rest

-- The loop, from `cur` down.
unfoldable pub back : (ℕ → Option ℕ) → ℕ → ℕ → ℕ × Bool
back read pos zero = (0, false)
back read pos (suc c) =
    let rest = back read pos c in
    if leb (suc c + backseek_limit) pos then (0, true) else at_byte (read c) (suc c) rest

unfoldable pub safe_backseek : Bool → (ℕ → Option ℕ) → ℕ → ℕ × Bool
safe_backseek opened read pos = if opened then back read pos pos else (0, false)

-- `filePos` behind the check of the byte before it; `none` where that byte is a newline or cannot
-- be read, and the position stays.
abbrev pub sought : ℕ → ℕ × Bool → ℕ
sought pos (seek_pos, hit_limit) = if hit_limit then 0 else seek_pos

abbrev pub checked : Bool → (ℕ → Option ℕ) → ℕ → Option ℕ → ℕ
checked opened read c none = suc c
checked opened read c (some b) =
    if b == b'\n' then suc c else sought (suc c) (safe_backseek opened read c)

unfoldable pub validate_position : Bool → (ℕ → Option ℕ) → ℕ → ℕ
validate_position opened read zero = 0
validate_position opened read (suc c) = checked opened read c (read c)

-- A position at which a line begins.
abbrev pub IsLineStart : (ℕ → Option ℕ) → ℕ → Type 0
IsLineStart read p = (p ≡ 0) ⊎ ((c : ℕ) × (p ≡ suc c) × (read c ≡ some b'\n'))

-- No newline from a position to another.
abbrev pub NoneBetween : (ℕ → Option ℕ) → ℕ → ℕ → Type 0
NoneBetween read from to = (i : ℕ) → from ≤ i → i < to → read i ≢ some b'\n'

abbrev Reads : (ℕ → Option ℕ) → ℕ → Type 0
Reads read pos = (i : ℕ) → i < pos → (b : ℕ) × (read i ≡ some b)

-- What the scan down from `cur` finds.
abbrev Sought : (ℕ → Option ℕ) → ℕ → ℕ → ℕ × Bool → Type 0
Sought read pos cur (r, hit) =
    if hit
    then (r ≡ 0) × (backseek_limit ≤ pos) × NoneBetween read (pos - backseek_limit) cur
    else (r ≤ cur) × IsLineStart read r × NoneBetween read r cur

between_more :
    (read : ℕ → Option ℕ) (from c : ℕ)
    → read c ≢ some b'\n'
    → NoneBetween read from c
    → NoneBetween read from (suc c)
between_more read from c other none_before i low high same = elim (Bool-cases (i == c)) [
  | inl e ↦ other (ap read (sym ((==_iff i c).0 e)) ∙ same)
  | inr e ↦ none_before i low (ground arith) same
]

Sought-more :
    (read : ℕ → Option ℕ) (pos c : ℕ) (r : ℕ × Bool)
    → read c ≢ some b'\n'
    → Sought read pos c r
    → Sought read pos (suc c) r
Sought-more read pos c (r, true) other (zero_pos, far, between) =
    (zero_pos, far, between_more read (pos - backseek_limit) c other between)
Sought-more read pos c (r, false) other (low, start, between) =
    (omega arith, start, between_more read r c other between)

other_byte :
    (read : ℕ → Option ℕ) (c b : ℕ) → read c ≡ some b → (b == b'\n') ≡ false → read c ≢ some b'\n'
other_byte read c b h e same = ground (arith, sym h ∙ same)

at_byte_lem :
    (read : ℕ → Option ℕ) (pos c b : ℕ) (rest : ℕ × Bool)
    → read c ≡ some b
    → Sought read pos c rest
    → Sought read pos (suc c) (at_byte (some b) (suc c) rest)
at_byte_lem read pos c b rest h found =
    if_splits (Sought read pos (suc c)) (b == b'\n')
      (λ e. (
        omega arith,
        inr (c, refl, h ∙ ap (λ x. some x) ((==_iff b b'\n').0 e)),
        λ i low high. absurd (omega arith),
      ))
      (λ e. Sought-more read pos c rest (other_byte read c b h e) found)

back_lem :
    (read : ℕ → Option ℕ) (pos cur : ℕ)
    → cur ≤ pos
    → Reads read cur
    → Sought read pos cur (back read pos cur)
unfolding back
back_lem read pos zero low reads = (omega arith, inl refl, λ i low high. absurd (omega arith))
back_lem read pos (suc c) low reads =
    let (b, h) = reads c (omega arith) in
    let rest = back_lem read pos c (omega arith) (λ i k. reads i (omega arith)) in
    if_splits (Sought read pos (suc c)) (leb (suc c + backseek_limit) pos)
      (λ e.
        let far = leb→le (suc c + backseek_limit) pos e in
        (refl, omega arith, λ i low high. absurd (omega arith)))
      (λ e. rw h (at_byte_lem read pos c b (back read pos c) h rest))

-- A line start at or before a position, with no newline from there to the position, or the start of
-- the file where none is found within the limit.
abbrev pub Validated : (ℕ → Option ℕ) → ℕ → ℕ → Type 0
Validated read p q =
    IsLineStart read q
    × (q ≤ p)
    × (NoneBetween read q p
        ⊎ ((q ≡ 0) × (backseek_limit < p) × NoneBetween read (p - 1 - backseek_limit) p))

Validated-sought :
    (read : ℕ → Option ℕ) (c b : ℕ) (r : ℕ × Bool)
    → read c ≡ some b
    → (b == b'\n') ≡ false
    → Sought read c c r
    → Validated read (suc c) (sought (suc c) r)
Validated-sought read c b (r, true) h e (zero_pos, far, between) =
    let same : suc c - 1 - backseek_limit ≡ c - backseek_limit = omega arith in
    (
      inl refl,
      omega arith,
      inr (
        refl,
        omega arith,
        rw same (between_more read (c - backseek_limit) c (other_byte read c b h e) between),
      ),
    )
Validated-sought read c b (r, false) h e (low, start, between) =
    (start, omega arith, inl (between_more read r c (other_byte read c b h e) between))

-- If the log file opens and its bytes before position `p` are read, the validated position is the
-- start of a line at or before `p`. No newline stands between the two, so that the line read in part
-- is read again from its start and no other line is; or the position is 0, and the limit of one
-- megabyte before `p` has no newline.
pub validate_position-Validated :
    (read : ℕ → Option ℕ) (p : ℕ)
    → ((i : ℕ) → i < p → (b : ℕ) × (read i ≡ some b))
    → Validated read p (validate_position true read p)
unfolding validate_position safe_backseek
validate_position-Validated read zero reads =
    (inl refl, omega arith, inl (λ i low high. absurd (omega arith)))
validate_position-Validated read (suc c) reads =
    let (b, h) = reads c (omega arith) in
    rw h (
      if_splits (Validated read (suc c)) (b == b'\n')
        (λ e. (
          inr (c, refl, h ∙ ap (λ x. some x) ((==_iff b b'\n').0 e)),
          omega arith,
          inl (λ i low high. absurd (omega arith)),
        ))
        (λ e.
          Validated-sought read c b (back read c c) h e
            (back_lem read c c (omega arith) (λ i k. reads i (omega arith)))))
