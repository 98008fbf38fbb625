-- ===== src/Session/Passwords.antt =====
-- backend/auth/auth.go: the rules for new passwords.
use logmara.Prelude.{
  ℕ, ◌≤◌, ◌≡◌, ◌↔◌, Bool, true, not, ◌&&◌, ◌||◌, Option, none, some, any, if◌then◌else◌, length,
  leb, ltb, String, Text, codes, text_beq, arith,
}
use logmara.Files.Position.{parse_int}
use logmara.Session.Keys.{positive_or}

abbrev pub min_password_length : ℕ
min_password_length = 12

-- `PasswordPolicy`; `MinLength` and `MaxLength` come from `envOrInt`, which returns positive numbers.
pub record PasswordPolicy : Type 0 where
  pub min_length : ℕ
  pub max_length : ℕ
  pub require_upper : Bool
  pub require_lower : Bool
  pub require_digit : Bool
  pub require_special : Bool
  pub history_count : ℕ

-- `setting` is `getSetting`: a name, and the value for a missing setting.
unfoldable pub env_or_int : Text → ℕ → ℕ
env_or_int val default = positive_or default (parse_int val)

unfoldable pub load_password_policy : (String → Text → Text) → PasswordPolicy
unfolding env_or_int
load_password_policy setting = record {
  min_length = env_or_int (setting "security_password_min_length" (codes "12")) min_password_length;
  max_length = env_or_int (setting "security_password_max_length" (codes "128")) 128;
  require_upper =
      text_beq (setting "security_password_require_upper" (codes "true")) (codes "true");
  require_lower =
      text_beq (setting "security_password_require_lower" (codes "true")) (codes "true");
  require_digit =
      text_beq (setting "security_password_require_digit" (codes "true")) (codes "true");
  require_special =
      text_beq (setting "security_password_require_special" (codes "true")) (codes "true");
  history_count = env_or_int (setting "security_password_history_count" (codes "12")) 12;
}

abbrev pub in_class : ℕ → ℕ → ℕ → Bool
in_class low high c = leb low c && leb c high

-- The regular expressions `[A-Z]`, `[a-z]`, `[0-9]` and `[^A-Za-z0-9]`, on the bytes of the text: a
-- character beyond ASCII matches the last one, and so does each of its bytes.
abbrev pub has_upper : Text → Bool
has_upper = any (in_class b'A' b'Z')

abbrev pub has_lower : Text → Bool
has_lower = any (in_class b'a' b'z')

abbrev pub has_digit : Text → Bool
has_digit = any (in_class b'0' b'9')

abbrev pub has_special : Text → Bool
has_special = any (λ c. not (in_class b'A' b'Z' c || in_class b'a' b'z' c || in_class b'0' b'9' c))

pub data PasswordError : Type 0 where
  too_short too_long : ℕ → PasswordError
  no_upper no_lower no_digit no_special : PasswordError

abbrev pub required_length : PasswordPolicy → ℕ
required_length p =
    if ltb p.min_length min_password_length then min_password_length else p.min_length

-- The first rule that is broken.
unfoldable pub validate_password_with_policy : PasswordPolicy → Text → Option PasswordError
validate_password_with_policy p password =
    if ltb (length password) (required_length p)
    then some (too_short (required_length p))
    else (if ltb p.max_length (length password)
        then some (too_long p.max_length)
        else (if p.require_upper && not (has_upper password)
            then some no_upper
            else (if p.require_lower && not (has_lower password)
                then some no_lower
                else (if p.require_digit && not (has_digit password)
                    then some no_digit
                    else (if p.require_special && not (has_special password)
                        then some no_special
                        else none)))))

unfoldable pub validate_password : Text → Option PasswordError
unfolding validate_password_with_policy
validate_password password =
    validate_password_with_policy
      (record {
        min_length = min_password_length;
        max_length = 128;
        require_upper = true;
        require_lower = true;
        require_digit = true;
        require_special = true;
        history_count = 0;
      })
      password

-- What the policy asks for.
abbrev pub Meets : PasswordPolicy → Text → Type 0
Meets p password =
    (min_password_length ≤ length password)
    × (p.min_length ≤ length password)
    × (length password ≤ p.max_length)
    × (p.require_upper ≡ true → has_upper password ≡ true)
    × (p.require_lower ≡ true → has_lower password ≡ true)
    × (p.require_digit ≡ true → has_digit password ≡ true)
    × (p.require_special ≡ true → has_special password ≡ true)

-- A password is accepted exactly if it has at least 12 bytes whatever the policy says, and its length
-- and its characters are as the policy asks.
pub validate_password_iff :
    (p : PasswordPolicy) (password : Text)
    → (validate_password_with_policy p password ≡ none) ↔ Meets p password
unfolding validate_password_with_policy
validate_password_iff p password = ground arith
