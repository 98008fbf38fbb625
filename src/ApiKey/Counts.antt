-- ===== src/ApiKey/Counts.antt =====
-- backend/middleware/apikey.go: what one call of a key's limiter, and the count of a request, leave.
use logmara.Prelude.{
  ℕ, ◌+◌, ◌-◌, ◌==◌, ◌≡◌, refl, sym, ap, ◌∙◌, subst, ltb, leb, Bool, ◌&&◌, ◌||◌, some, List, [],
  ◌∷◌, if◌then◌else◌, Text, text_beq, if_splits, Reply, arith, Bool-cases, inl, inr,
}
use logmara.ApiKey.Limiters.{
  RateLimiter, allow, KeyLimiter, memory_limiter, Limiters, find_limiter, put_limiter, or_create,
  get_rate_limiter, key_allow, limit_request,
}
use logmara.ApiKey.Auth.{KeyRow, find_row, count_request}

find-put :
    (id : ℕ) (rl : KeyLimiter) (rest : List (ℕ × KeyLimiter))
    → find_limiter id (put_limiter id rl rest) ≡ some rl
unfolding find_limiter put_limiter
find-put id rl [] = ground arith
find-put id rl ((k, old) ∷ rest) =
    if_splits (λ (l : List (ℕ × KeyLimiter)). find_limiter id l ≡ some rl) (k == id)
      (λ e. rw e refl) (λ e. rw e (find-put id rl rest))

-- What the limiter of the key is, made if there is none.
abbrev pub limiter_of : Limiters → ℕ → ℕ → KeyLimiter
limiter_of s id limit = or_create s id limit (find_limiter id s.rate_limiters)

allow_step :
    (t m : ℕ)
    → (let a = allow (record { tokens = t; max_token = m }) in
        (a.0 ≡ ltb 0 t) × (a.1 ≡ record { tokens = t - 1; max_token = m }))
unfolding allow
allow_step t m =
    if_splits
      (λ (a : Bool × RateLimiter).
        (a.0 ≡ ltb 0 t) × (a.1 ≡ record { tokens = t - 1; max_token = m }))
      (ltb 0 t) (λ e. (sym e, refl))
      (λ e.
        let none_left : t ≡ t - 1 = ground (arith, e) in
        (sym e, ap (λ n. record { tokens = n; max_token = m }) none_left))

-- A call takes a token of the bucket in the map, if it has one.
pub limit_step :
    (r : Reply) (now id limit t m : ℕ) (s : Limiters)
    → limiter_of s id limit ≡ memory_limiter (record { tokens = t; max_token = m })
    → (let a = limit_request r now id limit s in
        (a.0 ≡ ltb 0 t)
        × (limiter_of a.1 id limit ≡ memory_limiter (record { tokens = t - 1; max_token = m })))
unfolding limit_request get_rate_limiter key_allow
limit_step r now id limit t m s e =
    let (asked, left) = allow_step t m in
    let after = (allow (record { tokens = t; max_token = m })).1 in
    let entries =
      put_limiter id (memory_limiter (record { tokens = t; max_token = m })) s.rate_limiters in
    let s1 = record s { rate_limiters = put_limiter id (memory_limiter after) entries } in
    subst
      (λ rl.
        let a =
          key_allow r now id rl (record s { rate_limiters = put_limiter id rl s.rate_limiters }) in
        (a.0 ≡ ltb 0 t)
        × (limiter_of a.1 id limit ≡ memory_limiter (record { tokens = t - 1; max_token = m })))
      (sym e)
      (
        asked,
        ap (λ o. or_create s1 id limit o) (find-put id (memory_limiter after) entries)
            ∙ ap (λ b. memory_limiter b) left,
      )

-- The row with one request more.
abbrev pub row_at : KeyRow → ℕ → KeyRow
row_at row n = record row { total_requests = n }

same_row : {x y : KeyRow} → some x ≡ some y → x ≡ y
same_row h = cc

abbrev has_hash : Text → Text → KeyRow → Bool
has_hash hash legacy x = text_beq x.key_hash hash || text_beq x.key_hash legacy

pub found_counted :
    (hash legacy : Text) (rows : List KeyRow) (row : KeyRow)
    → find_row hash legacy rows ≡ some row
    → find_row hash legacy (count_request row.id rows) ≡ some (row_at row (row.total_requests + 1))
unfolding find_row count_request
found_counted hash legacy [] row e = absurd (cc)
found_counted hash legacy (x ∷ xs) row e =
    let rest = find_row hash legacy (count_request row.id xs) in
    let Good : KeyRow → Type 0 = (λ y.
      (if has_hash hash legacy y then some y else rest)
      ≡ some (row_at row (row.total_requests + 1))) in
    elim (Bool-cases (has_hash hash legacy x)) [
      | inl hit ↦
          let same : x ≡ row = same_row (sym (rw hit refl) ∙ e) in
          let ids : x.id ≡ row.id = ap (λ y. y.id) same in
          if_splits Good (leb x.id row.id && leb row.id x.id)
            (λ own. rw hit (ap (λ y. some (row_at y (y.total_requests + 1))) same))
            (λ other. absurd (ground (arith, other, ids)))
      | inr miss ↦
          let ih = found_counted hash legacy xs row (sym (rw miss refl) ∙ e) in
          if_splits Good (leb x.id row.id && leb row.id x.id) (λ own. rw miss ih)
            (λ other. rw miss ih)
    ]
