-- ===== src/ApiKey/Tests.antt =====
-- Runs of the checks and limiters of API keys.
use logmara.Prelude.{
  ◌≤◌, ◌≡◌, ◌==◌, refl, true, false, some, none, [], ◌∷◌, ◌++◌, length, map, arith, Text, codes,
  text_beq, if◌then◌else◌, answered, failed_before, Reply, ℕ, List, ◌+◌,
}
use logmara.Query.Sql.{sql, arg, plain}
use logmara.Query.Numbering.{numbers, count_from}
use logmara.ApiKey.Sliding.{redis_allow, sliding_window_script}
use logmara.ApiKey.Window.{requests, recent, none_served, requests-IsBounded}
use logmara.ApiKey.Limiters.{
  new_rate_limiter, allow, memory_limiter, Limiters, find_limiter, put_limiter, drop_limiter,
  get_rate_limiter, key_allow, limit_request, remove_rate_limiter,
}
use logmara.ApiKey.Network.{NetLib, ip_allowed, any_allows, entry_allows}
use logmara.ApiKey.Scope.{ScopeFilters, apply_scope_filters}
use logmara.ApiKey.Numbered.{apply_scope_filters-numbers}
use logmara.ApiKey.Auth.{
  ApiKeyPermissions, no_scope, KeyRow, expired, ip_not_allowed, rate_limited, invalid_key, Request,
  KeyState, Digests, refused, passed, find_row, count_request, context_of, admit, check_row,
  key_lookup, key_of_header, api_key_auth, check_permission,
}
use logmara.ApiKey.Burst.{IsValid, found, burst, own_context, copies, burst-api_key_auth}
use logmara.ApiKey.Guards.{PassesOnly, AdmittedAs, api_key_auth-PassesOnly}

-- Addresses are texts, and a range is the address before the slash.
abbrev before_slash : Text → Text
before_slash [] = []
before_slash (c ∷ t) = if c == 47 then [] else c ∷ before_slash t

abbrev texts : NetLib
texts = record {
  Ip = Text;
  IpNet = Text;
  parse_ip = λ t. some t;
  parse_cidr = λ t. some (before_slash t);
  net_contains = λ r t. text_beq r t;
  ip_equal = λ s t. text_beq s t;
}

abbrev digests : Digests
digests = record { token_hash = λ t. 104 ∷ t; token_hash_legacy = λ t. 108 ∷ t }

abbrev perms : ApiKeyPermissions
perms = record { export_json = true; export_parsed = false; view_stats = false }

abbrev row : KeyRow
row = record {
  id = 7;
  key_hash = codes "hsecret-key";
  is_active = true;
  permissions = some perms;
  scope_filters = no_scope;
  rate_limit_per_min = 1;
  expires_at = some 50;
  allowed_ips = codes " 10.0.0.5 " ∷ [];
  total_requests = 0;
}

abbrev no_limiters : Limiters
no_limiters = record { rate_limiters = []; shared = false; redis_hits = λ id. [] }

abbrev state : KeyState
state = record { api_keys = row ∷ []; limiters = no_limiters }

abbrev request : Request
request = record {
  authorization = codes "Bearer secret-key";
  client_ip = codes "10.0.0.5";
  now = 40;
  now_ms = 40000;
  limiter_reply = answered;
  update_ok = true;
}

-- The second request of the second is over the limit; a late one and one from elsewhere are refused.
auth_test :
    ((api_key_auth texts digests request (api_key_auth texts digests request state).1).0
      ≡ refused rate_limited)
    × ((api_key_auth texts digests (record request { now = 51 }) state).0 ≡ refused expired)
    × ((api_key_auth texts digests (record request { client_ip = codes "10.0.0.6" }) state).0
        ≡ refused ip_not_allowed)
    × ((api_key_auth texts digests
          (record request { authorization = codes "Bearer short" })
          state).0
        ≡ refused invalid_key)
unfolding api_key_auth key_of_header key_lookup find_row check_row admit count_request limit_request
    get_rate_limiter key_allow find_limiter put_limiter allow new_rate_limiter ip_allowed any_allows
    entry_allows
auth_test = (refl, refl, refl, refl)

row-IsValid : IsValid texts digests request row perms
unfolding ip_allowed any_allows entry_allows
row-IsValid = record {
  bearer = refl;
  long = refl;
  active = refl;
  current = refl;
  allowed = refl;
  permitted = refl;
  updated = refl;
}

row-found : found texts digests request row perms state ≡ some row
unfolding find_row
row-found = refl

row-new : find_limiter 7 [] ≡ none
unfolding find_limiter
row-new = refl

burst-api_key_auth_example :
    (let (first, s1) = burst texts digests request row perms 1 state in
      let (more, s2) = burst texts digests request row perms 3 s1 in
      (first ≡ passed (own_context texts digests request row perms) ∷ [])
      × (more ≡ copies 3 (refused rate_limited))
      × (found texts digests request row perms s2 ≡ some (record row { total_requests = 0 + 1 })))
burst-api_key_auth_example =
    burst-api_key_auth texts digests request row perms 3 state row-IsValid row-found row-new refl

api_key_auth-PassesOnly_example :
    PassesOnly
      (AdmittedAs texts digests request state)
      state
      (api_key_auth texts digests request state)
api_key_auth-PassesOnly_example = api_key_auth-PassesOnly texts digests request state

-- Two hits are allowed in a window of ten: the third waits until the first is out of it, but one whose
-- call fails is let through.
abbrev some_requests : List (ℕ × Reply)
some_requests =
    (1, answered)
    ∷ (5, answered)
    ∷ (6, answered)
    ∷ (7, failed_before)
    ∷ (11, answered)
    ∷ (12, answered)
    ∷ []

window_test : (requests 10 2 some_requests none_served).let_through ≡ 11 ∷ 7 ∷ 5 ∷ 1 ∷ []
unfolding redis_allow sliding_window_script
window_test = refl

requests-IsBounded_example :
    (let c = requests 10 2 some_requests none_served in
      length (recent 10 12 c.let_through) ≤ 2 + length (recent 10 12 c.failed))
requests-IsBounded_example =
    requests-IsBounded 10 2 1 12 some_requests 12
      (
        omega arith,
        (omega arith, (omega arith, (omega arith, (omega arith, (omega arith, omega arith))))),
      )
      (omega arith)

-- A removed limiter is made again with all its tokens.
removed_test :
    (limit_request answered 0 7 1
      (remove_rate_limiter 7 (limit_request answered 0 7 1 no_limiters).1)).0
    ≡ true
unfolding limit_request get_rate_limiter key_allow find_limiter put_limiter drop_limiter allow
    new_rate_limiter remove_rate_limiter
removed_test = refl

abbrev scope : ScopeFilters
scope = record { hostnames = "a" ∷ "b" ∷ []; severities = "err" ∷ []; match_mode = "or" }

apply_scope_filters-numbers_example :
    let r = apply_scope_filters (some scope) (sql "level = " ∷ arg 1 ∷ []) (plain "x" ∷ []) in
    (numbers r.0 ≡ 1 ∷ [] ++ count_from 2 3)
    × (r.1 ≡ plain "x" ∷ [] ++ map plain ("a" ∷ "b" ∷ []) ++ map plain ("err" ∷ []))
apply_scope_filters-numbers_example =
    apply_scope_filters-numbers scope (sql "level = " ∷ arg 1 ∷ []) (plain "x" ∷ [])

permission_test :
    (check_permission (some (context_of row perms [])) "export_json" ≡ true)
    × (check_permission (some (context_of row perms [])) "export_all" ≡ false)
unfolding check_permission
permission_test = (refl, refl)

abbrev one_limiter : Limiters
one_limiter = record no_limiters {
  rate_limiters = (7, memory_limiter (record { tokens = 0; max_token = 1 })) ∷ [];
}
