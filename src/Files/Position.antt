-- ===== src/Files/Position.antt =====
-- The saved position: `positionFingerprint`, `savePosition` and `loadPosition` of
-- backend/tailer/tailer.go, and backend/sharedstate/position.go. Of Go's library: `FormatInt`,
-- `ParseInt`, `TrimSpace` (on ASCII), `IndexByte` and the encoding in hexadecimal digits.
use logmara.Prelude.{
  ℕ, zero, suc, ◌+◌, ◌-◌, ◌/◌, ◌%◌, Bool, true, false, ◌&&◌, ◌||◌, Option, none, some, [], ◌∷◌,
  ◌++◌, length, take, drop, is_nil, if◌then◌else◌, ltb, leb, ◌==◌, Text,
}
use logmara.Query.Paging.{ℤ, pos, negsuc, max_int, digits, negate}
use logmara.Files.Splitter.{index_byte}

-- The decimal digits of a number, on fuel: there are fewer digits than the number plus one.
unfoldable pub decimal : ℕ → ℕ → Text
decimal zero n = []
decimal (suc fuel) n =
    let rest = decimal fuel (n / 10) in
    let unit_digit = b'0' + n % 10 in
    if ltb n 10 then (b'0' + n) ∷ [] else rest ++ (unit_digit ∷ [])

unfoldable pub format_int : ℕ → Text
format_int n = decimal (suc n) n

abbrev pub in_range : Bool → Option ℕ → Option ℤ
in_range minus none = none
in_range minus (some n) =
    if minus
    then (if leb n (max_int + 1) then some (negate n) else none)
    else (if leb n max_int then some (pos n) else none)

abbrev pub parse_digits : Bool → Text → Option ℤ
parse_digits minus s = if is_nil s then none else in_range minus (digits 0 s)

-- `strconv.ParseInt(s, 10, 64)`; `none` is an error.
unfoldable pub parse_int : Text → Option ℤ
parse_int [] = none
parse_int (c ∷ s) =
    if c == b'-'
    then parse_digits true s
    else (if c == b'+' then parse_digits false s else parse_digits false (c ∷ s))

unfoldable pub is_space : ℕ → Bool
is_space c = (c == 32) || (leb 9 c && leb c 13)

unfoldable pub trim_left : Text → Text
trim_left [] = []
trim_left (c ∷ t) = let rest = trim_left t in if is_space c then rest else c ∷ t

unfoldable pub trim_right : Text → Text
trim_right [] = []
trim_right (c ∷ t) = let rest = trim_right t in if is_space c && is_nil rest then [] else c ∷ rest

unfoldable pub trim_space : Text → Text
trim_space t = trim_right (trim_left t)

unfoldable pub hex_digit : ℕ → ℕ
hex_digit d = if ltb d 10 then b'0' + d else 87 + d

-- `hex.EncodeToString`.
unfoldable pub hex_encode : Text → Text
hex_encode [] = []
hex_encode (c ∷ t) = hex_digit (c / 16) ∷ (hex_digit (c % 16) ∷ hex_encode t)

abbrev pub fingerprint_window : ℕ
fingerprint_window = 256

-- `digest` is SHA-256; a file that does not open is `none`. `none` as the result is `ok == false`.
abbrev pub fingerprint_of : (Text → Text) → ℕ → Option Text → Option Text
fingerprint_of digest n none = none
fingerprint_of digest n (some t) =
    let start = n - fingerprint_window in
    if leb n (length t) then some (hex_encode (digest (take (n - start) (drop start t)))) else none

unfoldable pub position_fingerprint : (Text → Text) → Option Text → ℤ → Option Text
position_fingerprint digest file (negsuc n) = some []
position_fingerprint digest file (pos zero) = some []
position_fingerprint digest file (pos (suc n)) = fingerprint_of digest (suc n) file

-- `tailerPosRecord`.
pub record TailerPosRecord : Type 0 where
  pub version : ℤ
  pub position : ℤ
  pub fingerprint : Text

-- Where positions are kept: the file, and the key in Redis (`none`: absent, or it cannot be read).
pub record Saved : Type 0 where
  pub pos_file : Option Text
  pub redis : Option TailerPosRecord

abbrev pub tailer_pos_version : ℕ
tailer_pos_version = 1

unfoldable pub save_tailer_position : Bool → ℕ → Text → Saved → Saved
save_tailer_position set_ok n fp s =
    if set_ok
    then record s {
      redis =
          some (record { version = pos tailer_pos_version; position = pos n; fingerprint = fp });
    }
    else s

-- What the calls of `savePosition` return, and whether there is a Redis client.
pub record SaveAnswers : Type 0 where
  pub write_ok : Bool
  pub rename_ok : Bool
  pub has_client : Bool
  pub set_ok : Bool

abbrev pub or_empty : Option Text → Text
or_empty none = []
or_empty (some t) = t

unfoldable pub save_position : (Text → Text) → SaveAnswers → Option Text → ℕ → Saved → Saved
unfolding format_int save_tailer_position position_fingerprint
save_position digest a file n s =
    let fp = or_empty (position_fingerprint digest file (pos n)) in
    let kept = record s { pos_file = some (format_int n ++ (b':' ∷ fp)) } in
    let shared = save_tailer_position a.set_ok n fp kept in
    if a.write_ok && a.rename_ok then (if a.has_client then shared else kept) else s

abbrev pub with_fingerprint : Text → Option ℤ → Option (ℤ × Text)
with_fingerprint fp none = none
with_fingerprint fp (some p) = some (p, fp)

abbrev pub at_separator : Text → Option ℕ → Option (ℤ × Text)
at_separator raw none = none
at_separator raw (some i) = with_fingerprint (drop (suc i) raw) (parse_int (take i raw))

abbrev pub split_raw : Text → Option (ℤ × Text)
split_raw raw = at_separator raw (index_byte b':' raw)

unfoldable pub load_position : Option Text → Option (ℤ × Text)
load_position none = none
load_position (some bytes) = split_raw (trim_space bytes)

abbrev pub checked_record : TailerPosRecord → ℤ → ℤ → Option (ℤ × Text)
checked_record r (pos v) (pos n) =
    if v == tailer_pos_version then some (pos n, r.fingerprint) else none
checked_record r (pos v) (negsuc n) = none
checked_record r (negsuc v) p = none

-- `has_client`: without one nothing is loaded.
unfoldable pub load_tailer_position : Bool → Option TailerPosRecord → Option (ℤ × Text)
load_tailer_position false key = none
load_tailer_position true none = none
load_tailer_position true (some r) = checked_record r r.version r.position

unfoldable pub reset_tailer_position : Bool → Saved → Saved
reset_tailer_position has_client s = if has_client then record s { redis = none } else s
