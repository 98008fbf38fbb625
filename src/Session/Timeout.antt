-- ===== src/Session/Timeout.antt =====
-- backend/auth/auth.go and backend/main.go: the end of the grace period of a secret.
use logmara.Prelude.{
  ℕ, ◌+◌, ◌*◌, ◌%◌, ◌^◌, ◌≤◌, ◌<◌, ◌≡◌, ◌≢◌, ◌∙◌, ap, inl, inr, true, none, some, Option-cases, ltb,
  Text, arith,
}
use logmara.Query.Paging.{pos}
use logmara.Files.Position.{parse_int, trim_space}
use logmara.Session.Keys.{
  Claims, JwtLib, Keys, generate_token, signed, validate_token, rotate_secret,
  clear_secondary_secret, minute, clamp_grace, rotation_grace_period,
}
use logmara.Session.Grace.{hmac_jwt}

module _ (lib : JwtLib) where
  hmac_refused :
      (t s : Text) (c : Claims) (now : ℕ) → t ≢ s → lib.verify_hmac t (lib.sign_hmac s c) now ≡ none
  hmac_refused t s c now other = elim (Option-cases (lib.verify_hmac t (lib.sign_hmac s c) now)) [
    | inl h ↦ h
    | inr (d, h) ↦ absurd (other (lib.hmac_known t s c d now h).0)
  ]

  -- Behind the grace period a token that was made with the old secret is refused.
  pub validate_token-refuses :
      (ks : Keys lib) (new : Text) (c : Claims) (now : ℕ)
      → new ≢ ks.jwt_secret_primary
      → validate_token lib
          (clear_secondary_secret lib (rotate_secret lib new ks))
          (lib.sign_hmac ks.jwt_secret_primary c)
          now
        ≡ none
  unfolding validate_token clear_secondary_secret rotate_secret
  validate_token-refuses ks new c now other =
      let s = ks.jwt_secret_primary in
      rw
        (
          hmac_jwt lib s c ks.rsa_pub (some new) now,
          hmac_jwt lib s c ks.rsa_pub_secondary none now,
          hmac_refused new s c now other,
        )
        (ground arith)

clamp_long : (d : ℕ) → 60 * minute < d → d < 2 ^ 63 → clamp_grace d ≡ 60 * minute
clamp_long d long fits = ground arith

grace-lem :
    (env : Text) (m : ℕ)
    → parse_int (trim_space env) ≡ some (pos m)
    → 60 < m
    → m ≤ 76861433
    → rotation_grace_period env ≡ 60 * minute
unfolding rotation_grace_period
grace-lem env m set long fits =
    let some_minutes : ltb 0 m ≡ true = ground arith in
    let whole : m * 2 * minute % 2 ^ 64 ≡ m * 2 * minute = omega arith in
    rw (set, some_minutes, whole) (clamp_long (m * 2 * minute) (omega arith) (omega arith))

module _ (lib : JwtLib) where
  -- The bug: if `SESSION_TIMEOUT_MIN` is above 60, a token that is made with the secret when that is
  -- rotated is refused when the grace period is over, although it is not expired then.
  pub grace_too_short :
      (env : Text) (m : ℕ) (ks : Keys lib) (new : Text) (c : Claims) (made_at : ℕ)
      → parse_int (trim_space env) ≡ some (pos m)
      → 60 < m
      → m ≤ 76861433
      → ks.rsa_priv ≡ none
      → new ≢ ks.jwt_secret_primary
      → c.exp ≡ made_at + m * minute
      → (let now = made_at + rotation_grace_period env in
          (now < c.exp)
          × (validate_token lib
                (clear_secondary_secret lib (rotate_secret lib new ks))
                (generate_token lib ks c)
                now
              ≡ none))
  unfolding generate_token
  grace_too_short env m ks new c made_at set long fits hmac_only other expires =
      let grace = grace-lem env m set long fits in
      let after = clear_secondary_secret lib (rotate_secret lib new ks) in
      let now = made_at + rotation_grace_period env in
      (
        omega arith,
        ap (λ o. validate_token lib after (signed lib o ks.jwt_secret_primary c) now) hmac_only
            ∙ validate_token-refuses lib ks new c now other,
      )
