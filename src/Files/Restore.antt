-- ===== src/Files/Restore.antt =====
-- backend/tailer/tailer.go, reader.go and backend/sharedstate/position.go: a position that was saved
-- is found again.
use logmara.Prelude.{
  ℕ, zero, suc, ◌+◌, ◌-◌, ◌*◌, ◌/◌, ◌%◌, ◌≤◌, ◌<◌, ◌≡◌, refl, ◌∙◌, ap, true, false, ◌&&◌, Option,
  none, some, [], ◌∷◌, ◌++◌, length, take, drop, is_nil, if◌then◌else◌, if_splits, ltb, leb, ◌==◌,
  All, All-append, Text, text_beq, length-append, arith,
}
use logmara.Query.Paging.{ℤ, pos, max_int, digits}
use logmara.Files.Splitter.{next_index, index_byte}
use logmara.Files.Position.{
  decimal, format_int, parse_int, is_space, trim_left, trim_right, trim_space, hex_digit,
  hex_encode, position_fingerprint, at_separator, split_raw, fingerprint_window, load_position,
}

abbrev IsDigit : ℕ → Type 0
IsDigit c = (b'0' ≤ c) × (c ≤ b'9')

abbrev pub then_digit : ℕ → Option ℕ → Option ℕ
then_digit d none = none
then_digit d (some m) = some (m * 10 + (d - b'0'))

digits-append :
    (m d : ℕ) (t : Text) → IsDigit d → digits m (t ++ (d ∷ [])) ≡ then_digit d (digits m t)
unfolding digits
digits-append m d [] h = ground arith
digits-append m d (c ∷ t) h =
    let ih = digits-append (m * 10 + (c - b'0')) d t h in
    if_splits
      (λ (o : Option ℕ).
        o
        ≡ then_digit d (if leb b'0' c && leb c b'9' then digits (m * 10 + (c - b'0')) t else none))
      (leb b'0' c && leb c b'9') (λ e. rw e ih) (λ e. rw e refl)

digits-decimal : (fuel n : ℕ) → n < fuel → digits 0 (decimal fuel n) ≡ some n
unfolding decimal digits
digits-decimal zero n h = absurd (omega arith)
digits-decimal (suc fuel) n h =
    if_splits (λ t. digits 0 t ≡ some n) (ltb n 10) (λ e. ground arith)
      (λ e.
        let ih = digits-decimal fuel (n / 10) (ground arith) in
        let last : n / 10 * 10 + (b'0' + n % 10 - b'0') ≡ n = omega arith in
        digits-append 0 (b'0' + n % 10) (decimal fuel (n / 10)) (omega arith, omega arith)
        ∙ ap (then_digit (b'0' + n % 10)) ih
        ∙ ap (λ m. some m) last)

decimal-IsDigit : (fuel n : ℕ) → All IsDigit (decimal fuel n)
unfolding decimal
decimal-IsDigit zero n = tt
decimal-IsDigit (suc fuel) n =
    if_splits (All IsDigit) (ltb n 10) (λ e. ((ground arith, ground arith), tt))
      (λ e.
        All-append IsDigit (decimal fuel (n / 10)) ((b'0' + n % 10) ∷ [])
          (decimal-IsDigit fuel (n / 10)) ((omega arith, omega arith), tt))

parse_int_lem :
    (n : ℕ) (t : Text)
    → All IsDigit t
    → digits 0 t ≡ some n
    → is_nil t ≡ false
    → n ≤ max_int
    → parse_int t ≡ some (pos n)
unfolding parse_int
parse_int_lem n [] all h some_digit small = absurd (cc)
parse_int_lem n (c ∷ t) ((low, high), more) h some_digit small =
    let no_minus : (c == b'-') ≡ false = ground arith in
    let no_plus : (c == b'+') ≡ false = ground arith in
    let fits : leb n max_int ≡ true = ground arith in rw (no_minus, no_plus, h, fits) refl

append_some : (t : Text) (d : ℕ) → is_nil (t ++ (d ∷ [])) ≡ false
append_some [] d = refl
append_some (c ∷ t) d = refl

decimal-some : (n fuel : ℕ) → is_nil (decimal (suc fuel) n) ≡ false
unfolding decimal
decimal-some n fuel =
    if_splits (λ (t : Text). is_nil t ≡ false) (ltb n 10) (λ e. refl)
      (λ e. append_some (decimal fuel (n / 10)) (b'0' + n % 10))

pub parse_int-format_int : (n : ℕ) → n ≤ max_int → parse_int (format_int n) ≡ some (pos n)
unfolding format_int
parse_int-format_int n small =
    parse_int_lem n (decimal (suc n) n) (decimal-IsDigit (suc n) n)
      (digits-decimal (suc n) n (omega arith)) (decimal-some n n) small

-- A byte that `TrimSpace` keeps.
abbrev pub Kept : ℕ → Type 0
Kept c = is_space c ≡ false

trim_left-Kept : (t : Text) → All Kept t → trim_left t ≡ t
unfolding trim_left
trim_left-Kept [] kept = refl
trim_left-Kept (c ∷ t) (kept, more) = rw kept refl

trim_right-Kept : (t : Text) → All Kept t → trim_right t ≡ t
unfolding trim_right
trim_right-Kept [] kept = refl
trim_right-Kept (c ∷ t) (kept, more) = rw kept (ap (λ r. c ∷ r) (trim_right-Kept t more))

trim_space-Kept : (t : Text) → All Kept t → trim_space t ≡ t
unfolding trim_space
trim_space-Kept t kept = ap trim_right (trim_left-Kept t kept) ∙ trim_right-Kept t kept

hex_digit-Kept : (d : ℕ) → Kept (hex_digit d)
unfolding hex_digit is_space
hex_digit-Kept d = ground arith

hex_encode-Kept : (t : Text) → All Kept (hex_encode t)
unfolding hex_encode
hex_encode-Kept [] = tt
hex_encode-Kept (c ∷ t) = (hex_digit-Kept (c / 16), (hex_digit-Kept (c % 16), hex_encode-Kept t))

digits-Kept : (t : Text) → All IsDigit t → All Kept t
unfolding is_space
digits-Kept [] all = tt
digits-Kept (c ∷ t) ((low, high), more) = (ground arith, digits-Kept t more)

colon_Kept : Kept b':'
unfolding is_space
colon_Kept = refl

-- The text before a separator and the text behind it are found again.
abbrev Parts : Text → Text → Option ℕ → Type 0
Parts front fp none = ⊥
Parts front fp (some i) =
    let raw = front ++ (b':' ∷ fp) in (take i raw ≡ front) × (drop (suc i) raw ≡ fp)

Parts-next :
    (c : ℕ) (front fp : Text) (o : Option ℕ)
    → Parts front fp o
    → Parts (c ∷ front) fp (next_index o)
Parts-next c front fp none h = h
Parts-next c front fp (some i) (before, behind) = (ap (λ r. c ∷ r) before, behind)

parts :
    (front fp : Text) → All IsDigit front → Parts front fp (index_byte b':' (front ++ (b':' ∷ fp)))
unfolding index_byte
parts [] fp all = (refl, refl)
parts (c ∷ front) fp ((low, high), more) =
    let other : (c == b':') ≡ false = ground arith in
    rw other (Parts-next c front fp (index_byte b':' (front ++ (b':' ∷ fp))) (parts front fp more))

at_separator-Parts :
    (front fp : Text) (p : ℤ) (o : Option ℕ)
    → Parts front fp o
    → parse_int front ≡ some p
    → at_separator (front ++ (b':' ∷ fp)) o ≡ some (p, fp)
at_separator-Parts front fp p none h parsed = absurd h
at_separator-Parts front fp p (some i) (before, behind) parsed = rw (before, behind, parsed) refl

-- A position that is printed with a fingerprint in hexadecimal digits is read back.
pub load-printed :
    (n : ℕ) (fp : Text)
    → n ≤ max_int
    → All Kept fp
    → load_position (some (format_int n ++ (b':' ∷ fp))) ≡ some (pos n, fp)
unfolding load_position format_int
load-printed n fp small kept =
    let front = decimal (suc n) n in
    let front_digits = decimal-IsDigit (suc n) n in
    let all_kept : All Kept (front ++ (b':' ∷ fp)) =
      All-append Kept front (b':' ∷ fp) (digits-Kept front front_digits) (colon_Kept, kept) in
    ap split_raw (trim_space-Kept (front ++ (b':' ∷ fp)) all_kept)
    ∙ at_separator-Parts front fp (pos n) (index_byte b':' (front ++ (b':' ∷ fp)))
        (parts front fp front_digits) (parse_int-format_int n small)

window :
    (start size : ℕ) (t more : Text)
    → start + size ≤ length t
    → take size (drop start (t ++ more)) ≡ take size (drop start t)
window zero zero t more h = refl
window zero (suc size) [] more h = absurd (omega arith)
window zero (suc size) (c ∷ t) more h = ap (λ r. c ∷ r) (window zero size t more (omega arith))
window (suc start) size [] more h = absurd (omega arith)
window (suc start) size (c ∷ t) more h = window start size t more (omega arith)

pub beq_refl : (t : Text) → text_beq t t ≡ true
beq_refl [] = refl
beq_refl (c ∷ t) = ground (arith, beq_refl t)

-- The fingerprint of a position within a file stays when the file grows.
pub fingerprint_grown :
    (digest : Text → Text) (t more : Text) (n : ℕ)
    → n ≤ length t
    → position_fingerprint digest (some (t ++ more)) (pos n)
      ≡ position_fingerprint digest (some t) (pos n)
unfolding position_fingerprint
fingerprint_grown digest t more zero h = refl
fingerprint_grown digest t more (suc n) h =
    let start = suc n - fingerprint_window in
    let now : leb (suc n) (length t) ≡ true = ground arith in
    let later : leb (suc n) (length (t ++ more)) ≡ true = ground (arith, length-append t more) in
    rw (now, later)
      (ap (λ w. some (hex_encode (digest w))) (window start (suc n - start) t more (omega arith)))

pub fingerprint_some :
    (digest : Text → Text) (t : Text) (n : ℕ)
    → n ≤ length t
    → (fp : Text) × (position_fingerprint digest (some t) (pos n) ≡ some fp) × All Kept fp
unfolding position_fingerprint
fingerprint_some digest t zero h = ([], refl, tt)
fingerprint_some digest t (suc n) h =
    let now : leb (suc n) (length t) ≡ true = ground arith in
    let start = suc n - fingerprint_window in
    let seen = digest (take (suc n - start) (drop start t)) in
    (hex_encode seen, rw now refl, hex_encode-Kept seen)
