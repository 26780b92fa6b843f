-- ===== src/Api/Auth/Sessions.antt =====
-- Who gets a session, and how long it opens the API.
use Prim.Native.String
use aigis_zero.Api.Auth.{
  LoginRequest, Claims, claims_of, response_of, is_valid, login, from_request_parts, protected, me,
  permissions_of_admin,
}
use aigis_zero.Api.Errors.{unauthorized}
use aigis_zero.Api.Settings.{Settings}
use aigis_zero.Prelude.{
  ℕ, ◌+◌, ◌^◌, ◌<◌, String, Bool, ◌&&◌, ◌||◌, [], ◌∷◌, some, Result, ok, err, pos, wrap_i64, ◌+ℤ◌,
  ◌≡◌, refl, ap, arith, ◌∙◌, if◌then◌else◌, str_eq, trim, lookup, strip_prefix-append,
}

-- Of a JWT library, `decode secret now token`: a signed token that has not expired decodes, with
-- the secret that signed it, to its claims.
abbrev pub Decodes :
    (Claims → String → Result String String) → (ℕ → String → String → Result String Claims) → Type 0
Decodes encode decode =
    (c : Claims) (secret token : String) (exp now : ℕ)
    → encode c secret ≡ ok token
    → c.exp ≡ pos exp
    → now < exp
    → decode now secret token ≡ ok c

-- The operator's name, with the password itself or one that the stored text is a hash of.
abbrev pub knows : (String → String → Bool) → Settings → LoginRequest → Bool
knows verify_password config req =
    str_eq req.username config.admin_default_user
    && (str_eq req.password config.admin_default_password
        || verify_password req.password config.admin_default_password)

wrap_small : (n : ℕ) → n < 2 ^ 63 → wrap_i64 (pos n) ≡ pos n
wrap_small n h = ground arith

module _ (verify_password : String → String → Bool)
    (encode : Claims → String → Result String String) where
  is_valid-knows :
      (config : Settings) (req : LoginRequest)
      → is_valid verify_password config req ≡ knows verify_password config req
  unfolding is_valid
  is_valid-knows config req = ground arith

  module _ (decode : ℕ → String → String → Result String Claims)
      (decode-encode : Decodes encode decode) where
    -- A login is answered just when the request has the operator's name and password, with a token
    -- that JWT signs; and sent back as a Bearer token before the session's lifetime is over, that
    -- token lets a handler run, as this operator.
    pub login-protected :
        (config : Settings) (req : LoginRequest) (token : String) (issued secs now : ℕ)
        → config.jwt_expiration_secs ≡ pos secs
        → issued + secs < 2 ^ 63
        → now < issued + secs
        → encode (claims_of config (pos issued) req) config.jwt_secret ≡ ok token
        → trim token ≡ token
        → (login verify_password encode config (pos issued) req ≡ (
            if knows verify_password config req
            then ok (response_of config req token)
            else err (unauthorized "Invalid username or password")))
          × (protected
                (decode now)
                config
                (("authorization", some (String.◌++◌ "Bearer " token)) ∷ [])
                me
              ≡ ok (record {
                username = req.username;
                role = "soc_admin";
                permissions = permissions_of_admin;
              }))
    unfolding login protected from_request_parts lookup
    login-protected config req token issued secs now lifetime range soon sent plain =
        let exp : (claims_of config (pos issued) req).exp ≡ pos (issued + secs) =
          ap (λ l. wrap_i64 (pos issued +ℤ l)) lifetime ∙ wrap_small (issued + secs) range in
        let read =
          decode-encode (claims_of config (pos issued) req) config.jwt_secret token (issued + secs)
            now sent exp soon in
        (
          rw (is_valid-knows config req, sent) refl,
          rw (strip_prefix-append "Bearer " token, plain, read) refl,
        )
