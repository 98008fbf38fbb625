-- ===== src/Session/Keys.antt =====
-- backend/auth/auth.go: the signing keys with their rotation, `GenerateToken` and `ValidateToken`, and
-- `rotationGracePeriod` of backend/main.go. The JWT library is a parameter.
use logmara.Prelude.{
  ℕ, ◌*◌, ◌%◌, ◌^◌, ◌<◌, ◌≡◌, Bool, true, false, ◌||◌, Option, none, some, if◌then◌else◌, leb, ltb,
  Text,
}
use logmara.Query.Paging.{ℤ, pos, negsuc}
use logmara.Files.Position.{parse_int, trim_space}

pub record Claims : Type 0 where
  pub user_id : Option ℕ
  pub username : Text
  pub role : Option Text
  pub jti : Text
  pub exp : ℕ
  pub remember : Bool

-- The header of a token: its family of signing methods.
pub data Method : Type 0 where
  rsa hmac other_method : Method

-- The library as it is documented: a token that was signed with a key is accepted with that key, and
-- with its public part, until it expires, and with no other key.
pub record JwtLib : Type 1 where
  pub PrivateKey : Type 0
  pub PublicKey : Type 0
  pub Token : Type 0
  pub public_of : PrivateKey → PublicKey
  pub method : Token → Method
  pub sign_rsa : PrivateKey → Claims → Token
  pub sign_hmac : Text → Claims → Token
  pub verify_rsa : PublicKey → Token → ℕ → Option Claims
  pub verify_hmac : Text → Token → ℕ → Option Claims
  pub method-rsa : (k : PrivateKey) (c : Claims) → method (sign_rsa k c) ≡ rsa
  pub method-hmac : (s : Text) (c : Claims) → method (sign_hmac s c) ≡ hmac
  pub rsa_accepted :
      (k : PrivateKey) (c : Claims) (now : ℕ)
      → now < c.exp
      → verify_rsa (public_of k) (sign_rsa k c) now ≡ some c
  pub hmac_accepted :
      (s : Text) (c : Claims) (now : ℕ) → now < c.exp → verify_hmac s (sign_hmac s c) now ≡ some c
  pub rsa_known :
      (p : PublicKey) (k : PrivateKey) (c d : Claims) (now : ℕ)
      → verify_rsa p (sign_rsa k c) now ≡ some d
      → (p ≡ public_of k) × (now < c.exp)
  pub hmac_known :
      (t s : Text) (c d : Claims) (now : ℕ)
      → verify_hmac t (sign_hmac s c) now ≡ some d
      → (t ≡ s) × (now < c.exp)

module _ (lib : JwtLib) where
  -- `Config`, as far as it concerns keys.
  pub record Keys : Type 0 where
    pub jwt_secret_primary : Text
    pub jwt_secret_secondary : Option Text
    pub rsa_priv : Option lib.PrivateKey
    pub rsa_pub : Option lib.PublicKey
    pub rsa_pub_secondary : Option lib.PublicKey

  abbrev pub signed : Option lib.PrivateKey → Text → Claims → lib.Token
  signed none secret c = lib.sign_hmac secret c
  signed (some k) secret c = lib.sign_rsa k c

  unfoldable pub generate_token : Keys → Claims → lib.Token
  generate_token ks c = signed ks.rsa_priv ks.jwt_secret_primary c

  abbrev pub with_key {ℓ} : {K : Type ℓ} → Option K → (K → Option Claims) → Option Claims
  with_key none verify = none
  with_key (some k) verify = verify k

  abbrev pub by_method : Method → lib.Token → Option lib.PublicKey → Option Text → ℕ → Option Claims
  by_method rsa t pub_key secret now = with_key pub_key (λ p. lib.verify_rsa p t now)
  by_method hmac t pub_key secret now = with_key secret (λ s. lib.verify_hmac s t now)
  by_method other_method t pub_key secret now = none

  unfoldable pub validate_jwt : lib.Token → Option lib.PublicKey → Option Text → ℕ → Option Claims
  validate_jwt t pub_key secret now = by_method (lib.method t) t pub_key secret now

  abbrev pub or_grace : Option Claims → Option Claims → Option Claims
  or_grace (some c) later = some c
  or_grace none later = later

  abbrev pub is_set {ℓ} : {K : Type ℓ} → Option K → Bool
  is_set none = false
  is_set (some k) = true

  unfoldable pub validate_token : Keys → lib.Token → ℕ → Option Claims
  unfolding validate_jwt
  validate_token ks t now =
      let grace = validate_jwt t ks.rsa_pub_secondary ks.jwt_secret_secondary now in
      or_grace (validate_jwt t ks.rsa_pub (some ks.jwt_secret_primary) now)
        (if is_set ks.rsa_pub_secondary || is_set ks.jwt_secret_secondary then grace else none)

  unfoldable pub rotate_secret : Text → Keys → Keys
  rotate_secret new ks = record ks {
    jwt_secret_primary = new;
    jwt_secret_secondary = some ks.jwt_secret_primary;
  }

  unfoldable pub clear_secondary_secret : Keys → Keys
  clear_secondary_secret ks = record ks { jwt_secret_secondary = none }

  abbrev pub kept_key : Option lib.PublicKey → Option lib.PublicKey → Option lib.PublicKey
  kept_key none old = old
  kept_key (some p) old = some p

  unfoldable pub rotate_rsa_key : lib.PrivateKey → Keys → Keys
  rotate_rsa_key k ks = record ks {
    rsa_priv = some k;
    rsa_pub = some (lib.public_of k);
    rsa_pub_secondary = kept_key ks.rsa_pub ks.rsa_pub_secondary;
  }

  unfoldable pub clear_secondary_rsa_key : Keys → Keys
  clear_secondary_rsa_key ks = record ks { rsa_pub_secondary = none }

-- `SESSION_TIMEOUT_MIN`, or 15 minutes.
abbrev pub positive_or : ℕ → Option ℤ → ℕ
positive_or default none = default
positive_or default (some (negsuc n)) = default
positive_or default (some (pos n)) = if ltb 0 n then n else default

abbrev pub minute : ℕ
minute = 60 * 1000000000

abbrev pub shortest_grace : ℕ
shortest_grace = 30 * minute

abbrev pub longest_grace : ℕ
longest_grace = 60 * minute

-- The clamp of a 64-bit duration, which is negative from 2 ^ 63 on.
abbrev pub clamp_grace : ℕ → ℕ
clamp_grace d =
    if leb (2 ^ 63) d
    then shortest_grace
    else (if ltb d shortest_grace
        then shortest_grace
        else (if ltb longest_grace d then longest_grace else d))

-- In nanoseconds, of the text of the variable.
unfoldable pub rotation_grace_period : Text → ℕ
rotation_grace_period env =
    clamp_grace (positive_or 15 (parse_int (trim_space env)) * 2 * minute % 2 ^ 64)
