-- ===== src/Session/Tests.antt =====
-- Runs with a library whose tokens hold their key.
use logmara.Prelude.{
  ℕ, ◌+◌, ◌<◌, ◌≡◌, ◌≢◌, ◌↔◌, refl, ap, inl, inr, true, false, ◌&&◌, Option, none, some, [],
  Bool-cases, if◌then◌else◌, ltb, lt→ltb, Text, codes, text_beq, text_beq→eq, arith,
}
use logmara.Query.Paging.{pos, digits}
use logmara.Files.Position.{parse_int, trim_space, trim_left, trim_right, is_space}
use logmara.Files.Restore.{beq_refl}
use logmara.Session.Keys.{
  Claims, Method, rsa, hmac, other_method, JwtLib, Keys, generate_token, validate_token,
  validate_jwt, rotate_secret, clear_secondary_secret, rotation_grace_period,
}
use logmara.Session.Timeout.{grace_too_short}
use logmara.Session.Grace.{new_secret, key_step, IsPaired, validate_token-survives}
use logmara.Session.Guards.{
  Blacklist, answers, passed, refused, invalid_auth_format, jwt_required, token_text, Shown,
  jwt_required-Shown,
}
use logmara.Session.Passwords.{
  PasswordPolicy, validate_password_with_policy, validate_password, no_special, Meets,
  validate_password_iff,
}

pub record PlainToken : Type 0 where
  pub kind : Method
  pub secret : Text
  pub claims : Claims

abbrev opened : Text → PlainToken → ℕ → Option Claims
opened key t now = if text_beq key t.secret && ltb now t.claims.exp then some t.claims else none

abbrev by_kind : Method → Text → PlainToken → ℕ → Option Claims
by_kind rsa key t now = opened key t now
by_kind hmac key t now = opened key t now
by_kind other_method key t now = none

abbrev plain : Method → Text → Claims → PlainToken
plain kind secret claims = record { kind = kind; secret = secret; claims = claims }

opened-accepted :
    (k : Method) (s : Text) (c : Claims) (now : ℕ)
    → now < c.exp
    → opened s (plain k s c) now ≡ some c
opened-accepted k s c now live = rw (beq_refl s, lt→ltb now c.exp live) refl

opened-known :
    (k : Method) (t s : Text) (c d : Claims) (now : ℕ)
    → opened t (plain k s c) now ≡ some d
    → (t ≡ s) × (now < c.exp)
opened-known k t s c d now h = elim (Bool-cases (text_beq t s)) [
  | inl e ↦ (text_beq→eq t s e, ground (arith, h))
  | inr e ↦ absurd (ground (arith, h))
]

abbrev plain_lib : JwtLib
plain_lib = record {
  PrivateKey = Text;
  PublicKey = Text;
  Token = PlainToken;
  public_of = λ k. k;
  method = λ t. t.kind;
  sign_rsa = plain rsa;
  sign_hmac = plain hmac;
  verify_rsa = opened;
  verify_hmac = opened;
  method-rsa = λ k c. refl;
  method-hmac = λ s c. refl;
  rsa_accepted = opened-accepted rsa;
  hmac_accepted = opened-accepted hmac;
  rsa_known = opened-known rsa;
  hmac_known = opened-known hmac;
}

abbrev user : Claims
user = record {
  user_id = some 1;
  username = codes "ann";
  role = some (codes "admin");
  jti = codes "j1";
  exp = 7200000000000;
  remember = false;
}

abbrev old_keys : Keys plain_lib
old_keys = record {
  jwt_secret_primary = codes "old";
  jwt_secret_secondary = none;
  rsa_priv = none;
  rsa_pub = none;
  rsa_pub_secondary = none;
}

old_keys-IsPaired : IsPaired plain_lib old_keys
old_keys-IsPaired k h = absurd (cc)

validate_token-survives_example :
    validate_token plain_lib
      (key_step plain_lib (new_secret (codes "new")) old_keys)
      (generate_token plain_lib old_keys user)
      5
    ≡ some user
validate_token-survives_example =
    validate_token-survives plain_lib (new_secret (codes "new")) old_keys user 5 old_keys-IsPaired
      (omega arith)

two_hours : parse_int (trim_space (codes "120")) ≡ some (pos 120)
unfolding parse_int trim_space trim_left trim_right is_space digits
two_hours = refl

new_secret-differs : codes "new" ≢ codes "old"
new_secret-differs h = let e : true ≡ false = ap (text_beq (codes "new")) h in absurd (cc)

grace_too_short_example :
    (let now = 0 + rotation_grace_period (codes "120") in
      (now < 7200000000000)
      × (validate_token plain_lib
            (clear_secondary_secret plain_lib (rotate_secret plain_lib (codes "new") old_keys))
            (generate_token plain_lib old_keys user)
            now
          ≡ none))
grace_too_short_example =
    grace_too_short plain_lib (codes "120") 120 old_keys (codes "new") user 0 two_hours
      (omega arith) (omega arith) refl new_secret-differs refl

abbrev read_token : Text → PlainToken
read_token t = plain hmac t user

abbrev unlisted : Text → Blacklist
unlisted t = answers false

jwt_required_test :
    (jwt_required plain_lib read_token old_keys 5 true unlisted [] (codes "Bearer old")
      ≡ passed user)
    × (jwt_required plain_lib read_token old_keys 5 true unlisted [] (codes "Basic x")
        ≡ refused invalid_auth_format)
unfolding jwt_required token_text validate_token validate_jwt
jwt_required_test = (refl, refl)

jwt_required-Shown_example :
    Shown plain_lib read_token old_keys 5 true unlisted []
      (codes "Bearer old")
      (jwt_required plain_lib read_token old_keys 5 true unlisted [] (codes "Bearer old"))
jwt_required-Shown_example =
    jwt_required-Shown plain_lib read_token old_keys 5 true unlisted [] (codes "Bearer old")

validate_password_test : validate_password (codes "Abcdefghijk1") ≡ some no_special
unfolding validate_password
validate_password_test = refl

abbrev only_digits : PasswordPolicy
only_digits = record {
  min_length = 1;
  max_length = 128;
  require_upper = false;
  require_lower = false;
  require_digit = true;
  require_special = false;
  history_count = 0;
}

validate_password_iff_example :
    (validate_password_with_policy only_digits (codes "123456789012") ≡ none)
    ↔ Meets only_digits (codes "123456789012")
validate_password_iff_example = validate_password_iff only_digits (codes "123456789012")
