-- ===== src/ApiKey/Auth.antt =====
-- backend/middleware/apikey.go: `APIKeyAuth`, the checks of a request in their order, and
-- `CheckPermission`. The digests of a key, which are HMAC-SHA256 and SHA-256, are parameters.
use logmara.Prelude.{
  ℕ, ◌+◌, ltb, leb, String, str_eq, Bool, false, not, ◌&&◌, ◌||◌, Option, none, some, List, [], ◌∷◌,
  if◌then◌else◌, is_nil, length, drop, take, Text, codes, text_beq, has_prefix, Reply,
}
use logmara.ApiKey.Limiters.{Limiters, limit_request}
use logmara.ApiKey.Network.{NetLib, ip_allowed}
use logmara.ApiKey.Scope.{ScopeFilters}

pub record ApiKeyPermissions : Type 0 where
  pub export_json : Bool
  pub export_parsed : Bool
  pub view_stats : Bool

-- The column `scope_filters`: NULL, decoded, or malformed with what was decoded before the error.
pub data ScopeColumn : Type 0 where
  no_scope : ScopeColumn
  decoded malformed : ScopeFilters → ScopeColumn

-- A row of `api_keys`; `permissions` is `none` where the decoder returns an error.
pub record KeyRow : Type 0 where
  pub id : ℕ
  pub key_hash : Text
  pub is_active : Bool
  pub permissions : Option ApiKeyPermissions
  pub scope_filters : ScopeColumn
  pub rate_limit_per_min : ℕ
  pub expires_at : Option ℕ
  pub allowed_ips : List Text
  pub total_requests : ℕ

-- Why a request is aborted, with its status.
pub data Refusal : Type 0 where
  missing_header invalid_format invalid_key inactive expired : Refusal
  ip_not_allowed invalid_permissions rate_limited : Refusal

abbrev pub status : Refusal → ℕ
status ip_not_allowed = 403
status rate_limited = 429
status missing_header = 401
status invalid_format = 401
status invalid_key = 401
status inactive = 401
status expired = 401
status invalid_permissions = 401

-- What the handler finds in the context.
pub record KeyContext : Type 0 where
  pub api_key_permissions : ApiKeyPermissions
  pub scope_filters : Option ScopeFilters
  pub api_key_id : ℕ
  pub api_key_prefix : Text

-- A request, with what the limiter's call answers, and whether the database does the count.
pub record Request : Type 0 where
  pub authorization : Text
  pub client_ip : Text
  pub now : ℕ
  pub now_ms : ℕ
  pub limiter_reply : Reply
  pub update_ok : Bool

-- The table and the limiters.
pub record KeyState : Type 0 where
  pub api_keys : List KeyRow
  pub limiters : Limiters

pub record Digests : Type 0 where
  pub token_hash : Text → Text
  pub token_hash_legacy : Text → Text

pub data Outcome : Type 0 where
  refused : Refusal → Outcome
  passed : KeyContext → Outcome

-- The key of the header.
unfoldable pub key_of_header : Text → (Text → Outcome × KeyState) → KeyState → Outcome × KeyState
key_of_header header next s =
    if is_nil header
    then (refused missing_header, s)
    else (if not (ltb 7 (length header) && has_prefix header (codes "Bearer "))
        then (refused invalid_format, s)
        else (if ltb (length (drop 7 header)) 8
            then (refused invalid_key, s)
            else next (drop 7 header)))

-- `WHERE key_hash = $1 OR key_hash = $2`.
unfoldable pub find_row : Text → Text → List KeyRow → Option KeyRow
find_row hash legacy [] = none
find_row hash legacy (row ∷ rows) =
    let later = find_row hash legacy rows in
    if text_beq row.key_hash hash || text_beq row.key_hash legacy then some row else later

abbrev pub is_past : ℕ → Option ℕ → Bool
is_past now none = false
is_past now (some t) = ltb t now

abbrev pub scope_value : ScopeColumn → Option ScopeFilters
scope_value no_scope = none
scope_value (decoded f) = some f
scope_value (malformed f) = some f

-- `UPDATE api_keys SET total_requests = total_requests + 1 WHERE id = $1`.
unfoldable pub count_request : ℕ → List KeyRow → List KeyRow
count_request id [] = []
count_request id (row ∷ rows) =
    (if leb row.id id && leb id row.id
      then record row { total_requests = row.total_requests + 1 }
      else row)
    ∷ count_request id rows

abbrev pub context_of : KeyRow → ApiKeyPermissions → Text → KeyContext
context_of row perms api_key = record {
  api_key_permissions = perms;
  scope_filters = scope_value row.scope_filters;
  api_key_id = row.id;
  api_key_prefix = take 8 api_key;
}

-- The limiter, and what a request that passes leaves; the error of the count is ignored.
unfoldable pub admit : Request → KeyRow → Text → ApiKeyPermissions → KeyState → Outcome × KeyState
admit q row api_key perms s =
    let (ok, limiters) =
      limit_request q.limiter_reply q.now_ms row.id row.rate_limit_per_min s.limiters in
    if ok
    then (
      passed (context_of row perms api_key),
      record {
        api_keys = if q.update_ok then count_request row.id s.api_keys else s.api_keys;
        limiters = limiters;
      },
    )
    else (refused rate_limited, record s { limiters = limiters })

abbrev pub with_permissions :
    (ApiKeyPermissions → Outcome × KeyState)
    → KeyState
    → Option ApiKeyPermissions
    → Outcome × KeyState
with_permissions next s none = (refused invalid_permissions, s)
with_permissions next s (some perms) = next perms

module _ (net : NetLib) (digests : Digests) where
  -- The checks of a row.
  unfoldable pub check_row : Request → KeyRow → Text → KeyState → Outcome × KeyState
  check_row q row api_key s =
      if not row.is_active
      then (refused inactive, s)
      else (if is_past q.now row.expires_at
          then (refused expired, s)
          else (if not (is_nil row.allowed_ips) && not (ip_allowed net q.client_ip row.allowed_ips)
              then (refused ip_not_allowed, s)
              else with_permissions (λ perms. admit q row api_key perms s) s row.permissions))

  abbrev pub with_row : Request → Text → KeyState → Option KeyRow → Outcome × KeyState
  with_row q api_key s none = (refused invalid_key, s)
  with_row q api_key s (some row) = check_row q row api_key s

  unfoldable pub key_lookup : Request → KeyState → Text → Outcome × KeyState
  key_lookup q s api_key =
      with_row q api_key s
        (find_row (digests.token_hash api_key) (digests.token_hash_legacy api_key) s.api_keys)

  -- The handler.
  unfoldable pub api_key_auth : Request → KeyState → Outcome × KeyState
  api_key_auth q s = key_of_header q.authorization (key_lookup q s) s

-- The switch on the name of a permission.
abbrev pub permission_named : String → List (String × Bool) → Bool
permission_named name [] = false
permission_named name ((p, b) ∷ ps) = if str_eq name p then b else permission_named name ps

-- `CheckPermission`, of a context that has permissions or not.
unfoldable pub check_permission : Option KeyContext → String → Bool
check_permission none perm = false
check_permission (some c) perm =
    let p = c.api_key_permissions in
    permission_named perm (
      ("export_json", p.export_json)
      ∷ ("export_parsed", p.export_parsed)
      ∷ ("view_stats", p.view_stats)
      ∷ [])
