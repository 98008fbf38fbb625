-- ===== src/ApiKey/Burst.antt =====
-- backend/middleware/apikey.go: requests with one key between two refills of its bucket, without a
-- shared limiter.
use logmara.Prelude.{
  ℕ, zero, suc, ◌+◌, ◌-◌, ◌≡◌, refl, sym, ap, ◌∙◌, subst, ltb, Bool, true, false, not, ◌&&◌, Option,
  none, some, List, [], ◌∷◌, is_nil, length, drop, take, if◌then◌else◌, Text, codes, has_prefix,
  if_splits, arith,
}
use logmara.ApiKey.Limiters.{
  new_rate_limiter, memory_limiter, redis_limiter, find_limiter, or_create, limit_request,
}
use logmara.ApiKey.Network.{NetLib, ip_allowed}
use logmara.ApiKey.Auth.{
  ApiKeyPermissions, KeyRow, rate_limited, KeyContext, Request, KeyState, Digests, Outcome, refused,
  passed, key_of_header, count_request, find_row, is_past, scope_value, admit, with_permissions,
  check_row, key_lookup, api_key_auth,
}
use logmara.ApiKey.Counts.{limiter_of, limit_step, row_at, found_counted}

abbrev pub copies {ℓ} : {A : Type ℓ} → ℕ → A → List A
copies zero x = []
copies (suc n) x = x ∷ copies n x

module _ (net : NetLib) (digests : Digests) (q : Request) (row : KeyRow)
    (perms : ApiKeyPermissions) where
  abbrev pub key_sent : Text
  key_sent = drop 7 q.authorization

  -- Everything that the checks before the limiter ask of the header and of the row, and that the count
  -- of a request is done.
  pub record IsValid : Type 0 where
    pub bearer :
        (ltb 7 (length q.authorization) && has_prefix q.authorization (codes "Bearer ")) ≡ true
    pub long : ltb (length key_sent) 8 ≡ false
    pub active : row.is_active ≡ true
    pub current : is_past q.now row.expires_at ≡ false
    pub allowed :
        (not (is_nil row.allowed_ips) && not (ip_allowed net q.client_ip row.allowed_ips)) ≡ false
    pub permitted : row.permissions ≡ some perms
    pub updated : q.update_ok ≡ true

  -- What the handler is given.
  abbrev pub own_context : KeyContext
  own_context = record {
    api_key_permissions = perms;
    scope_filters = scope_value row.scope_filters;
    api_key_id = row.id;
    api_key_prefix = take 8 key_sent;
  }

  abbrev pub found : KeyState → Option KeyRow
  found s = find_row (digests.token_hash key_sent) (digests.token_hash_legacy key_sent) s.api_keys

  -- The key has counted so many requests, and its bucket has so many tokens.
  abbrev Holds : ℕ → ℕ → KeyState → Type 0
  Holds n t s =
      (found s ≡ some (row_at row n))
      × (limiter_of s.limiters row.id row.rate_limit_per_min
          ≡ memory_limiter (record { tokens = t; max_token = row.rate_limit_per_min }))

  not_empty : (t : Text) (b : Bool) → is_nil t ≡ true → (ltb 7 (length t) && b) ≡ true → ⊥
  not_empty [] b e h = cc
  not_empty (c ∷ t) b e h = cc

  reaches_limiter :
      (n : ℕ) (s : KeyState)
      → IsValid
      → found s ≡ some (row_at row n)
      → api_key_auth net digests q s ≡ admit q (row_at row n) key_sent perms s
  unfolding api_key_auth key_of_header key_lookup check_row
  reaches_limiter n s v here =
      let Good : Outcome × KeyState → Type 0 = (λ r. r ≡ admit q (row_at row n) key_sent perms s) in
      let bearer = v.bearer in
      let long = v.long in
      let active = v.active in
      let current = v.current in
      let allowed = v.allowed in
      if_splits Good (is_nil q.authorization) (λ e. absurd (not_empty q.authorization _ e bearer))
        (λ e1.
          if_splits Good
            (not (ltb 7 (length q.authorization) && has_prefix q.authorization (codes "Bearer ")))
            (λ e. absurd (cc))
            (λ e2.
              if_splits Good (ltb (length key_sent) 8) (λ e. absurd (cc))
                (λ e3. rw here (
                  if_splits Good (not row.is_active) (λ e. absurd (cc))
                    (λ e4.
                      if_splits Good (is_past q.now row.expires_at) (λ e. absurd (cc))
                        (λ e5.
                          if_splits Good
                            (not (is_nil row.allowed_ips)
                              && not (ip_allowed net q.client_ip row.allowed_ips))
                            (λ e. absurd (cc))
                            (λ e6.
                              ap
                                (λ o.
                                  with_permissions (λ p. admit q (row_at row n) key_sent p s) s o)
                                v.permitted)))))))

  -- One request: with a token it passes and is counted, without one it is refused.
  abbrev Served : ℕ → ℕ → Outcome × KeyState → Type 0
  Served n t r =
      if ltb 0 t
      then (r.0 ≡ passed own_context) × Holds (n + 1) (t - 1) r.1
      else (r.0 ≡ refused rate_limited) × Holds n (t - 1) r.1

  admit-Served :
      (n t : ℕ) (s : KeyState)
      → q.update_ok ≡ true
      → Holds n t s
      → Served n t (admit q (row_at row n) key_sent perms s)
  unfolding admit
  admit-Served n t s updated (here, bucket) =
      let a = limit_request q.limiter_reply q.now_ms row.id row.rate_limit_per_min s.limiters in
      let (asked, left) =
        limit_step q.limiter_reply q.now_ms row.id row.rate_limit_per_min t row.rate_limit_per_min
          s.limiters bucket in
      let hash = digests.token_hash key_sent in
      let legacy = digests.token_hash_legacy key_sent in
      let counted =
        ap (λ b. find_row hash legacy (if b then count_request row.id s.api_keys else s.api_keys))
          updated
        ∙ found_counted (digests.token_hash key_sent) (digests.token_hash_legacy key_sent)
            s.api_keys (row_at row n) here in
      if_splits (Served n t) a.0
        (λ e.
          let some_left : ltb 0 t ≡ true = sym asked ∙ e in rw some_left (refl, (counted, left)))
        (λ e. let none_left : ltb 0 t ≡ false = sym asked ∙ e in rw none_left (refl, (here, left)))

  request-Served :
      (n t : ℕ) (s : KeyState) → IsValid → Holds n t s → Served n t (api_key_auth net digests q s)
  request-Served n t s v h =
      subst (Served n t) (sym (reaches_limiter n s v h.0)) (admit-Served n t s v.updated h)

  passes_one :
      (n t : ℕ) (s : KeyState)
      → IsValid
      → Holds n (suc t) s
      → (let r = api_key_auth net digests q s in (r.0 ≡ passed own_context) × Holds (n + 1) t r.1)
  passes_one n t s v h =
      let r = api_key_auth net digests q s in
      let some_left : ltb 0 (suc t) ≡ true = ground arith in
      let one_less : suc t - 1 ≡ t = omega arith in
      let served =
        subst
          (λ b.
            if b
            then (r.0 ≡ passed own_context) × Holds (n + 1) (suc t - 1) r.1
            else (r.0 ≡ refused rate_limited) × Holds n (suc t - 1) r.1)
          some_left (request-Served n (suc t) s v h) in
      (served.0, subst (λ k. Holds (n + 1) k r.1) one_less served.1)

  -- So many requests, one after another.
  abbrev pub burst : ℕ → KeyState → List Outcome × KeyState
  burst zero s = ([], s)
  burst (suc n) s =
      let (o, s1) = api_key_auth net digests q s in let (os, s2) = burst n s1 in (o ∷ os, s2)

  both : {x y : Outcome} {xs ys : List Outcome} → x ≡ y → xs ≡ ys → (x ∷ xs) ≡ (y ∷ ys)
  both h k = cc

  with_tokens :
      (t n : ℕ) (s : KeyState)
      → IsValid
      → Holds n t s
      → ((burst t s).0 ≡ copies t (passed own_context)) × Holds (n + t) 0 (burst t s).1
  with_tokens zero n s v h = (refl, subst (λ k. Holds k 0 s) (omega arith) h)
  with_tokens (suc t) n s v h =
      let (first, after) = passes_one n t s v h in
      let s1 = (api_key_auth net digests q s).1 in
      let (rest, end) = with_tokens t (n + 1) s1 v after in
      (both first rest, subst (λ k. Holds k 0 (burst t s1).1) (omega arith) end)

  without_tokens :
      (m n : ℕ) (s : KeyState)
      → IsValid
      → Holds n 0 s
      → ((burst m s).0 ≡ copies m (refused rate_limited))
        × (found (burst m s).1 ≡ some (row_at row n))
  without_tokens zero n s v h = (refl, h.0)
  without_tokens (suc m) n s v h =
      let (first, after) = request-Served n 0 s v h in
      let (rest, end) = without_tokens m n (api_key_auth net digests q s).1 v after in
      (both first rest, end)

  -- A key that has no limiter yet, without a shared one, and a request that its row allows, where the
  -- database does the counts: between two
  -- refills, as many requests as the row's limit pass, each with the permissions, the scope, the number
  -- and the prefix of the key, and all that follow are refused as too many. The row, found by the
  -- same digest, has counted those that passed and no other.
  pub burst-api_key_auth :
      (m : ℕ) (s : KeyState)
      → IsValid
      → found s ≡ some row
      → find_limiter row.id s.limiters.rate_limiters ≡ none
      → s.limiters.shared ≡ false
      → (let limit = row.rate_limit_per_min in
          let (first, s1) = burst limit s in
          let (more, s2) = burst m s1 in
          (first ≡ copies limit (passed own_context))
          × (more ≡ copies m (refused rate_limited))
          × (found s2 ≡ some (record row { total_requests = row.total_requests + limit })))
  unfolding new_rate_limiter
  burst-api_key_auth m s v here new own =
      let limit = row.rate_limit_per_min in
      let bucket : limiter_of s.limiters row.id limit
          ≡ memory_limiter (record { tokens = limit; max_token = limit }) =
        ap (λ o. or_create s.limiters row.id limit o) new
        ∙ ap (λ b. if b then redis_limiter limit else memory_limiter (new_rate_limiter limit))
            own in
      let (passes, after) = with_tokens limit row.total_requests s v (here, bucket) in
      let (refuses, counted) =
        without_tokens m (row.total_requests + limit) (burst limit s).1 v after in
      (passes, refuses, counted)
