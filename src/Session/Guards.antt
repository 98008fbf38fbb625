-- ===== src/Session/Guards.antt =====
-- backend/auth/auth.go: the middleware `JWTRequired`, `RoleRequired` and `AdminRequired`.
use logmara.Prelude.{
  ℕ, ◌≡◌, ◌≢◌, refl, Bool, true, false, not, ◌&&◌, ◌||◌, Option, none, some, List, [], any,
  if◌then◌else◌, if_splits, is_nil, length, take, drop, ltb, Text, codes, text_beq, arith,
}
use logmara.Session.Keys.{Claims, JwtLib, Keys, validate_token}

pub data Refused : Type 0 where
  invalid_auth_format missing_authorization invalid_token token_revoked : Refused
  auth_required insufficient_permissions admin_required : Refused

-- What a middleware does: it goes on with the claims, or aborts; a role that is no text panics.
pub data Gate : Type 0 where
  passed : Claims → Gate
  refused : Refused → Gate
  panicked : Gate

abbrev pub http_status : Refused → ℕ
http_status invalid_auth_format = 400
http_status insufficient_permissions = 403
http_status admin_required = 403
http_status missing_authorization = 401
http_status invalid_token = 401
http_status token_revoked = 401
http_status auth_required = 401

-- The text of the token: of the cookie, or of the header behind "Bearer ", or nothing, where the
-- header has another form.
unfoldable pub token_text : Text → Text → Option Text
token_text cookie header =
    if not (is_nil cookie)
    then some cookie
    else (if is_nil header
        then some []
        else (if ltb (length header) 7 || not (text_beq (take 7 header) (codes "Bearer "))
            then none
            else some (drop 7 header)))

-- The answer of the database on the blacklist of token numbers: an error, or whether it is there.
pub data Blacklist : Type 0 where
  no_answer : Blacklist
  answers : Bool → Blacklist

abbrev pub is_revoked : Bool → Text → Blacklist → Bool
is_revoked has_pool jti no_answer = false
is_revoked has_pool jti (answers listed) = not (is_nil jti) && has_pool && listed

abbrev pub on_claims : Bool → (Text → Blacklist) → Option Claims → Gate
on_claims has_pool listed none = refused invalid_token
on_claims has_pool listed (some c) =
    if is_revoked has_pool c.jti (listed c.jti) then refused token_revoked else passed c

module _ (lib : JwtLib) where
  abbrev pub on_text :
      (Text → lib.Token) → Keys lib → ℕ → Bool → (Text → Blacklist) → Option Text → Gate
  on_text token ks now has_pool listed none = refused invalid_auth_format
  on_text token ks now has_pool listed (some t) =
      if is_nil t
      then refused missing_authorization
      else on_claims has_pool listed (validate_token lib ks (token t) now)

  -- `token` reads a token of its text.
  unfoldable pub jwt_required :
      (Text → lib.Token) → Keys lib → ℕ → Bool → (Text → Blacklist) → Text → Text → Gate
  unfolding token_text
  jwt_required token ks now has_pool listed cookie header =
      on_text token ks now has_pool listed (token_text cookie header)

-- The claims that an earlier middleware set, if one did.
abbrev pub on_role : (Text → Bool) → Refused → Claims → Option Text → Gate
on_role allowed reason c none = panicked
on_role allowed reason c (some role) = if allowed role then passed c else refused reason

abbrev pub with_claims : (Text → Bool) → Refused → Option Claims → Gate
with_claims allowed reason none = refused auth_required
with_claims allowed reason (some c) = on_role allowed reason c c.role

unfoldable pub role_required : List Text → Option Claims → Gate
role_required roles claims =
    with_claims (λ role. any (λ r. text_beq role r) roles) insufficient_permissions claims

unfoldable pub admin_required_gate : Option Claims → Gate
admin_required_gate claims =
    with_claims (λ role. text_beq role (codes "admin")) admin_required claims

module _ (lib : JwtLib) where
  -- What a request that passes has shown.
  abbrev pub Shown :
      (Text → lib.Token) → Keys lib → ℕ → Bool → (Text → Blacklist) → Text → Text → Gate → Type 0
  Shown token ks now has_pool listed cookie header (passed c) =
      (t : Text) × (token_text cookie header ≡ some t)
      × (is_nil t ≡ false)
      × (validate_token lib ks (token t) now ≡ some c)
      × (has_pool ≡ true → is_nil c.jti ≡ false → listed c.jti ≢ answers true)
  Shown token ks now has_pool listed cookie header (refused r) = Unit
  Shown token ks now has_pool listed cookie header panicked = ⊥

  not_revoked :
      (has_pool : Bool) (jti : Text) (b : Blacklist)
      → is_revoked has_pool jti b ≡ false
      → has_pool ≡ true
      → is_nil jti ≡ false
      → b ≢ answers true
  not_revoked has_pool jti no_answer h pool some_jti same = absurd (cc)
  not_revoked has_pool jti (answers true) h pool some_jti same = ground arith
  not_revoked has_pool jti (answers false) h pool some_jti same = absurd (cc)

  claims_Shown :
      (token : Text → lib.Token) (ks : Keys lib) (now : ℕ) (has_pool : Bool)
      (listed : Text → Blacklist) (cookie header t : Text) (o : Option Claims)
      → token_text cookie header ≡ some t
      → is_nil t ≡ false
      → validate_token lib ks (token t) now ≡ o
      → Shown token ks now has_pool listed cookie header (on_claims has_pool listed o)
  claims_Shown token ks now has_pool listed cookie header t none h k v = tt
  claims_Shown token ks now has_pool listed cookie header t (some c) h k v =
      if_splits (Shown token ks now has_pool listed cookie header)
        (is_revoked has_pool c.jti (listed c.jti)) (λ e. tt)
        (λ e.
          (t, h, k, v, λ pool some_jti. not_revoked has_pool c.jti (listed c.jti) e pool some_jti))

  text_Shown :
      (token : Text → lib.Token) (ks : Keys lib) (now : ℕ) (has_pool : Bool)
      (listed : Text → Blacklist) (cookie header : Text) (o : Option Text)
      → token_text cookie header ≡ o
      → Shown token ks now has_pool listed cookie header
          (on_text lib token ks now has_pool listed o)
  text_Shown token ks now has_pool listed cookie header none h = tt
  text_Shown token ks now has_pool listed cookie header (some t) h =
      if_splits (Shown token ks now has_pool listed cookie header) (is_nil t) (λ e. tt)
        (λ e. claims_Shown token ks now has_pool listed cookie header t _ h e refl)

  -- A request that passes `JWTRequired` has a token that is not empty, in the cookie or else in a
  -- header of the form "Bearer ", which `ValidateToken` accepts now with the claims that are set; and
  -- if there is a database and the token has a number, the database did not answer that it is
  -- revoked. (No answer lets the request pass.)
  pub jwt_required-Shown :
      (token : Text → lib.Token) (ks : Keys lib) (now : ℕ) (has_pool : Bool)
      (listed : Text → Blacklist) (cookie header : Text)
      → Shown token ks now has_pool listed cookie header
          (jwt_required lib token ks now has_pool listed cookie header)
  unfolding jwt_required
  jwt_required-Shown token ks now has_pool listed cookie header =
      text_Shown token ks now has_pool listed cookie header (token_text cookie header) refl
