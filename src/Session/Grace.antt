-- ===== src/Session/Grace.antt =====
-- backend/auth/auth.go: which tokens are accepted while keys are rotated.
use logmara.Prelude.{
  ℕ, ◌<◌, ◌≡◌, refl, ◌∙◌, ap, inl, inr, Bool, true, Option, none, some, Option-cases, if◌then◌else◌,
  Text, arith,
}
use logmara.Session.Keys.{
  Claims, JwtLib, Keys, generate_token, signed, with_key, validate_jwt, or_grace, validate_token,
  rotate_secret, clear_secondary_secret, rotate_rsa_key, clear_secondary_rsa_key,
}

module _ (lib : JwtLib) where
  -- A change of the keys.
  pub data KeyStep : Type 0 where
    new_secret : Text → KeyStep
    secret_grace_over : KeyStep
    new_rsa_key : lib.PrivateKey → KeyStep
    rsa_grace_over : KeyStep

  abbrev pub key_step : KeyStep → Keys lib → Keys lib
  key_step (new_secret s) ks = rotate_secret lib s ks
  key_step secret_grace_over ks = clear_secondary_secret lib ks
  key_step (new_rsa_key k) ks = rotate_rsa_key lib k ks
  key_step rsa_grace_over ks = clear_secondary_rsa_key lib ks

  -- The public key in use belongs to the private one.
  abbrev pub IsPaired : Keys lib → Type 0
  IsPaired ks = (k : lib.PrivateKey) → ks.rsa_priv ≡ some k → ks.rsa_pub ≡ some (lib.public_of k)

  pub hmac_jwt :
      (s : Text) (c : Claims) (p : Option lib.PublicKey) (secret : Option Text) (now : ℕ)
      → validate_jwt lib (lib.sign_hmac s c) p secret now
        ≡ with_key lib secret (λ t. lib.verify_hmac t (lib.sign_hmac s c) now)
  unfolding validate_jwt
  hmac_jwt s c p secret now = rw (lib.method-hmac s c) refl

  rsa_jwt :
      (k : lib.PrivateKey) (c : Claims) (p : Option lib.PublicKey) (secret : Option Text) (now : ℕ)
      → validate_jwt lib (lib.sign_rsa k c) p secret now
        ≡ with_key lib p (λ q. lib.verify_rsa q (lib.sign_rsa k c) now)
  unfolding validate_jwt
  rsa_jwt k c p secret now = rw (lib.method-rsa k c) refl

  -- What is accepted by one of two keys is the signed claims, if it was accepted by the second.
  grace_lem :
      (first second : Option Claims) (c : Claims) (b : Bool)
      → b ≡ true
      → ((d : Claims) → first ≡ some d → first ≡ some c)
      → second ≡ some c
      → or_grace lib first (if b then second else none) ≡ some c
  grace_lem none second c b on known h = rw on h
  grace_lem (some d) second c b on known h = known d refl

  hmac_same :
      (t s : Text) (c d : Claims) (now : ℕ)
      → lib.verify_hmac t (lib.sign_hmac s c) now ≡ some d
      → lib.verify_hmac t (lib.sign_hmac s c) now ≡ some c
  hmac_same t s c d now h =
      let (same, live) = lib.hmac_known t s c d now h in rw same (lib.hmac_accepted s c now live)

  primary_hmac :
      (ks : Keys lib) (c : Claims) (now : ℕ)
      → now < c.exp
      → validate_token lib ks (lib.sign_hmac ks.jwt_secret_primary c) now ≡ some c
  unfolding validate_token
  primary_hmac ks c now live =
      rw
        (
          hmac_jwt ks.jwt_secret_primary c ks.rsa_pub (some ks.jwt_secret_primary) now,
          lib.hmac_accepted ks.jwt_secret_primary c now live,
        )
        refl

  secondary_hmac :
      (ks : Keys lib) (s : Text) (c : Claims) (now : ℕ)
      → now < c.exp
      → ks.jwt_secret_secondary ≡ some s
      → validate_token lib ks (lib.sign_hmac s c) now ≡ some c
  unfolding validate_token
  secondary_hmac ks s c now live held =
      rw
        (
          hmac_jwt s c ks.rsa_pub (some ks.jwt_secret_primary) now,
          hmac_jwt s c ks.rsa_pub_secondary ks.jwt_secret_secondary now,
          held,
        )
        (grace_lem (lib.verify_hmac ks.jwt_secret_primary (lib.sign_hmac s c) now) _ c _
          (ground arith) (λ d h. hmac_same ks.jwt_secret_primary s c d now h)
          (lib.hmac_accepted s c now live))

  rsa_same :
      (p : lib.PublicKey) (k : lib.PrivateKey) (c d : Claims) (now : ℕ)
      → lib.verify_rsa p (lib.sign_rsa k c) now ≡ some d
      → lib.verify_rsa p (lib.sign_rsa k c) now ≡ some c
  rsa_same p k c d now h =
      let (same, live) = lib.rsa_known p k c d now h in rw same (lib.rsa_accepted k c now live)

  primary_rsa :
      (ks : Keys lib) (k : lib.PrivateKey) (c : Claims) (now : ℕ)
      → now < c.exp
      → ks.rsa_pub ≡ some (lib.public_of k)
      → validate_token lib ks (lib.sign_rsa k c) now ≡ some c
  unfolding validate_token
  primary_rsa ks k c now live held =
      rw
        (
          rsa_jwt k c ks.rsa_pub (some ks.jwt_secret_primary) now,
          held,
          lib.rsa_accepted k c now live,
        )
        refl

  first_rsa :
      (p : Option lib.PublicKey) (k : lib.PrivateKey) (c d : Claims) (now : ℕ)
      → with_key lib p (λ q. lib.verify_rsa q (lib.sign_rsa k c) now) ≡ some d
      → with_key lib p (λ q. lib.verify_rsa q (lib.sign_rsa k c) now) ≡ some c
  first_rsa none k c d now h = absurd (cc)
  first_rsa (some q) k c d now h = rsa_same q k c d now h

  secondary_rsa :
      (ks : Keys lib) (k : lib.PrivateKey) (c : Claims) (now : ℕ)
      → now < c.exp
      → ks.rsa_pub_secondary ≡ some (lib.public_of k)
      → validate_token lib ks (lib.sign_rsa k c) now ≡ some c
  unfolding validate_token
  secondary_rsa ks k c now live held =
      rw
        (
          rsa_jwt k c ks.rsa_pub (some ks.jwt_secret_primary) now,
          rsa_jwt k c ks.rsa_pub_secondary ks.jwt_secret_secondary now,
          held,
        )
        (grace_lem (with_key lib ks.rsa_pub (λ q. lib.verify_rsa q (lib.sign_rsa k c) now)) _ c _
          refl (λ d h. first_rsa ks.rsa_pub k c d now h) (lib.rsa_accepted k c now live))

  hmac_survives :
      (step : KeyStep) (ks : Keys lib) (c : Claims) (now : ℕ)
      → now < c.exp
      → validate_token lib (key_step step ks) (lib.sign_hmac ks.jwt_secret_primary c) now ≡ some c
  unfolding rotate_secret clear_secondary_secret rotate_rsa_key clear_secondary_rsa_key
  hmac_survives (new_secret s) ks c now live =
      secondary_hmac (rotate_secret lib s ks) ks.jwt_secret_primary c now live refl
  hmac_survives secret_grace_over ks c now live =
      primary_hmac (clear_secondary_secret lib ks) c now live
  hmac_survives (new_rsa_key k) ks c now live = primary_hmac (rotate_rsa_key lib k ks) c now live
  hmac_survives rsa_grace_over ks c now live =
      primary_hmac (clear_secondary_rsa_key lib ks) c now live

  rsa_survives :
      (step : KeyStep) (ks : Keys lib) (k : lib.PrivateKey) (c : Claims) (now : ℕ)
      → now < c.exp
      → ks.rsa_pub ≡ some (lib.public_of k)
      → validate_token lib (key_step step ks) (lib.sign_rsa k c) now ≡ some c
  unfolding rotate_secret clear_secondary_secret rotate_rsa_key clear_secondary_rsa_key
  rsa_survives (new_secret s) ks k c now live held =
      primary_rsa (rotate_secret lib s ks) k c now live held
  rsa_survives secret_grace_over ks k c now live held =
      primary_rsa (clear_secondary_secret lib ks) k c now live held
  rsa_survives (new_rsa_key k2) ks k c now live held =
      secondary_rsa (rotate_rsa_key lib k2 ks) k c now live (rw held refl)
  rsa_survives rsa_grace_over ks k c now live held =
      primary_rsa (clear_secondary_rsa_key lib ks) k c now live held

  -- A token that was made before a change of the keys (a rotation of either key, or the end of the
  -- grace period of an earlier one) is accepted behind it until it expires, with the claims that it
  -- was made with.
  pub validate_token-survives :
      (step : KeyStep) (ks : Keys lib) (c : Claims) (now : ℕ)
      → IsPaired ks
      → now < c.exp
      → validate_token lib (key_step step ks) (generate_token lib ks c) now ≡ some c
  unfolding generate_token
  validate_token-survives step ks c now paired live =
      let after = key_step step ks in
      elim (Option-cases ks.rsa_priv) [
        | inl h ↦
            ap (λ o. validate_token lib after (signed lib o ks.jwt_secret_primary c) now) h
            ∙ hmac_survives step ks c now live
        | inr (k, h) ↦
            ap (λ o. validate_token lib after (signed lib o ks.jwt_secret_primary c) now) h
            ∙ rsa_survives step ks k c now live (paired k h)
      ]
