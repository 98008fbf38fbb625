-- ===== src/ApiKey/Guards.antt =====
-- backend/middleware/apikey.go: which requests `APIKeyAuth` lets pass, and what a refused one leaves.
use logmara.Prelude.{
  ◌≡◌, ◌≢◌, refl, sym, ltb, Bool, true, false, not, ◌&&◌, Option, none, some, is_nil, length, drop,
  Text, codes, has_prefix, if_splits,
}
use logmara.ApiKey.Limiters.{limit_request}
use logmara.ApiKey.Network.{NetLib, ip_allowed}
use logmara.ApiKey.Auth.{
  ApiKeyPermissions, KeyRow, Refusal, missing_header, invalid_format, invalid_key, inactive,
  expired, ip_not_allowed, invalid_permissions, rate_limited, KeyContext, Request, KeyState,
  Digests, Outcome, refused, passed, key_of_header, find_row, is_past, context_of, admit,
  with_permissions, check_row, with_row, key_lookup, api_key_auth,
}

abbrev pub Result : Type 0
Result = Outcome × KeyState

same_refusal : {v w : Refusal} → refused v ≡ refused w → v ≡ w
same_refusal h = cc

same_context : {c d : KeyContext} → passed c ≡ passed d → c ≡ d
same_context h = cc

unnegate : {b : Bool} → not b ≡ false → b ≡ true
unnegate {b = true} h = refl
unnegate {b = false} h = cc

-- An outcome that passes has a property; a refusal other than of the limiter leaves the state.
abbrev pub PassesOnly : (KeyContext → Type 0) → KeyState → Result → Type 0
PassesOnly P s r =
    ((c : KeyContext) → r.0 ≡ passed c → P c)
    × ((why : Refusal) → r.0 ≡ refused why → why ≢ rate_limited → r.1 ≡ s)

refusal : (P : KeyContext → Type 0) (s : KeyState) (why : Refusal) → PassesOnly P s (refused why, s)
refusal P s why = (λ c h. absurd (cc), λ w h ne. refl)

limiter_refusal :
    (P : KeyContext → Type 0) (s s' : KeyState) → PassesOnly P s (refused rate_limited, s')
limiter_refusal P s s' = (λ c h. absurd (cc), λ w h ne. absurd (ne (same_refusal (sym h))))

module _ (net : NetLib) (digests : Digests) (q : Request) where
  abbrev pub key_given : Text
  key_given = drop 7 q.authorization

  -- All conditions on a request: the header, the row and its checks, and the limiter's answer.
  pub record IsAdmitted (s : KeyState) (row : KeyRow) (perms : ApiKeyPermissions) : Type 0 where
    pub bearer :
        (ltb 7 (length q.authorization) && has_prefix q.authorization (codes "Bearer ")) ≡ true
    pub long : ltb (length key_given) 8 ≡ false
    pub found :
        find_row (digests.token_hash key_given) (digests.token_hash_legacy key_given) s.api_keys
        ≡ some row
    pub active : row.is_active ≡ true
    pub current : is_past q.now row.expires_at ≡ false
    pub allowed :
        (not (is_nil row.allowed_ips) && not (ip_allowed net q.client_ip row.allowed_ips)) ≡ false
    pub permitted : row.permissions ≡ some perms
    pub within :
        (limit_request q.limiter_reply q.now_ms row.id row.rate_limit_per_min s.limiters).0 ≡ true

  abbrev pub AdmittedAs : KeyState → KeyContext → Type 0
  AdmittedAs s c =
      (row : KeyRow) × (perms : ApiKeyPermissions) × IsAdmitted s row perms
      × (c ≡ context_of row perms key_given)

  admit-PassesOnly :
      (s : KeyState) (row : KeyRow) (perms : ApiKeyPermissions)
      → ((limit_request q.limiter_reply q.now_ms row.id row.rate_limit_per_min s.limiters).0 ≡ true
          → IsAdmitted s row perms)
      → PassesOnly (AdmittedAs s) s (admit q row key_given perms s)
  unfolding admit
  admit-PassesOnly s row perms others =
      let r = limit_request q.limiter_reply q.now_ms row.id row.rate_limit_per_min s.limiters in
      if_splits (PassesOnly (AdmittedAs s) s) r.0
        (λ e. (λ c h. (row, perms, others e, sym (same_context h)), λ w h ne. absurd (cc)))
        (λ e. limiter_refusal (AdmittedAs s) s (record s { limiters = r.1 }))

  permissions-PassesOnly :
      (s : KeyState) (row : KeyRow) (o : Option ApiKeyPermissions)
      → ((perms : ApiKeyPermissions)
          → o ≡ some perms
          → (limit_request q.limiter_reply q.now_ms row.id row.rate_limit_per_min s.limiters).0
            ≡ true
          → IsAdmitted s row perms)
      → PassesOnly (AdmittedAs s) s (with_permissions (λ perms. admit q row key_given perms s) s o)
  permissions-PassesOnly s row none others = refusal (AdmittedAs s) s invalid_permissions
  permissions-PassesOnly s row (some perms) others =
      admit-PassesOnly s row perms (others perms refl)

  check_row-PassesOnly :
      (s : KeyState) (row : KeyRow)
      → ltb 7 (length q.authorization) && has_prefix q.authorization (codes "Bearer ") ≡ true
      → ltb (length key_given) 8 ≡ false
      → find_row (digests.token_hash key_given) (digests.token_hash_legacy key_given) s.api_keys
        ≡ some row
      → PassesOnly (AdmittedAs s) s (check_row net digests q row key_given s)
  unfolding check_row
  check_row-PassesOnly s row b l f =
      if_splits (PassesOnly (AdmittedAs s) s) (not row.is_active)
        (λ e. refusal (AdmittedAs s) s inactive)
        (λ e1.
          if_splits (PassesOnly (AdmittedAs s) s) (is_past q.now row.expires_at)
            (λ e. refusal (AdmittedAs s) s expired)
            (λ e2.
              if_splits (PassesOnly (AdmittedAs s) s)
                (not (is_nil row.allowed_ips) && not (ip_allowed net q.client_ip row.allowed_ips))
                (λ e. refusal (AdmittedAs s) s ip_not_allowed)
                (λ e3. permissions-PassesOnly s row row.permissions (λ perms p w. record {
                  bearer = b;
                  long = l;
                  found = f;
                  active = unnegate e1;
                  current = e2;
                  allowed = e3;
                  permitted = p;
                  within = w;
                }))))

  row-PassesOnly :
      (s : KeyState) (o : Option KeyRow)
      → find_row (digests.token_hash key_given) (digests.token_hash_legacy key_given) s.api_keys ≡ o
      → ltb 7 (length q.authorization) && has_prefix q.authorization (codes "Bearer ") ≡ true
      → ltb (length key_given) 8 ≡ false
      → PassesOnly (AdmittedAs s) s (with_row net digests q key_given s o)
  row-PassesOnly s none f b l = refusal (AdmittedAs s) s invalid_key
  row-PassesOnly s (some row) f b l = check_row-PassesOnly s row b l f

  -- A request passes only if it fulfils all conditions, and with the context of its row; a refused
  -- one, unless the limiter refused it, leaves the table and the limiters as they were.
  pub api_key_auth-PassesOnly :
      (s : KeyState) → PassesOnly (AdmittedAs s) s (api_key_auth net digests q s)
  unfolding api_key_auth key_of_header key_lookup
  api_key_auth-PassesOnly s =
      if_splits (PassesOnly (AdmittedAs s) s) (is_nil q.authorization)
        (λ e. refusal (AdmittedAs s) s missing_header)
        (λ e1.
          if_splits (PassesOnly (AdmittedAs s) s)
            (not (ltb 7 (length q.authorization) && has_prefix q.authorization (codes "Bearer ")))
            (λ e. refusal (AdmittedAs s) s invalid_format)
            (λ e2.
              if_splits (PassesOnly (AdmittedAs s) s) (ltb (length key_given) 8)
                (λ e. refusal (AdmittedAs s) s invalid_key)
                (λ e3. row-PassesOnly s _ refl (unnegate e2) e3)))
