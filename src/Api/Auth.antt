-- ===== src/Api/Auth.antt =====
-- Operators' sessions: api-backend/src/services/auth_service.rs and middleware/auth.rs. Argon2's
-- check of a password against a hash, and the JWT library, are parameters, at the time of the call.
pub mod Sessions
mod Tests
use aigis_zero.Api.Errors.{AppError, unauthorized, internal_server_error}
use aigis_zero.Api.Settings.{Settings}
use Prim.Native.String
use aigis_zero.Prelude.{
  ℕ, String, Bool, true, false, List, [], ◌∷◌, Option, none, some, Result, ok, err, ℤ, ◌+ℤ◌,
  wrap_i64, if◌then◌else◌, str_eq, strip_prefix, trim, lookup,
}

pub record LoginRequest : Type 0 where
  pub username : String
  pub password : String

pub record UserInfo : Type 0 where
  pub username : String
  pub role : String
  pub permissions : List String

pub record LoginResponse : Type 0 where
  pub token : String
  pub token_type : String
  pub expires_in : ℤ
  pub user : UserInfo

pub record Claims : Type 0 where
  pub sub : String
  pub role : String
  pub exp : ℤ
  pub iat : ℤ

abbrev pub permissions_of_admin : List String
permissions_of_admin =
    "nodes:read" ∷ "nodes:isolate" ∷ "alerts:read" ∷ "alerts:write" ∷ "logs:read" ∷ []

-- The claims of a login at a time in seconds.
abbrev pub claims_of : Settings → ℤ → LoginRequest → Claims
claims_of config now req = record {
  sub = req.username;
  role = "soc_admin";
  exp = wrap_i64 (now +ℤ config.jwt_expiration_secs);
  iat = now;
}

abbrev pub response_of : Settings → LoginRequest → String → LoginResponse
response_of config req token = record {
  token = token;
  token_type = "Bearer";
  expires_in = config.jwt_expiration_secs;
  user = record { username = req.username; role = "soc_admin"; permissions = permissions_of_admin };
}

-- The check of the credentials.
unfoldable pub is_valid : (String → String → Bool) → Settings → LoginRequest → Bool
is_valid verify_password config req =
    if str_eq req.username config.admin_default_user
    then (if str_eq req.password config.admin_default_password
        then true
        else verify_password req.password config.admin_default_password)
    else false

module _ (verify_password : String → String → Bool)
    (encode : Claims → String → Result String String) where
  abbrev pub signed : Settings → LoginRequest → Result String String → Result AppError LoginResponse
  signed config req (ok token) = ok (response_of config req token)
  signed config req (err e) =
      err (internal_server_error (String.◌++◌ "Token generation failed: " e))

  -- `AuthService::login`
  unfoldable pub login : Settings → ℤ → LoginRequest → Result AppError LoginResponse
  login config now req =
      if is_valid verify_password config req
      then signed config req (encode (claims_of config now req) config.jwt_secret)
      else err (unauthorized "Invalid username or password")

-- The headers of a request: of each value what `to_str` gives.
abbrev pub Headers : Type 0
Headers = List (String × Option String)

module _ (decode : String → String → Result String Claims) where
  abbrev pub decoded : Result String Claims → Result AppError Claims
  decoded (ok claims) = ok claims
  decoded (err e) = err (unauthorized (String.◌++◌ "Invalid or expired token: " e))

  abbrev pub bearer : Settings → Option String → Result AppError Claims
  bearer config none = err (unauthorized "Invalid Authorization format, Bearer token expected")
  bearer config (some stripped) = decoded (decode config.jwt_secret (trim stripped))

  abbrev pub header : Settings → Option (Option String) → Result AppError Claims
  header config none = err (unauthorized "Missing Authorization header")
  header config (some none) = err (unauthorized "Missing Authorization header")
  header config (some (some h)) = bearer config (strip_prefix "Bearer " h)

  -- `AuthUser::from_request_parts`
  unfoldable pub from_request_parts : Settings → Headers → Result AppError Claims
  from_request_parts config headers = header config (lookup "authorization" headers)

  -- A handler that takes an `AuthUser`: it runs only for a request that is let in.
  abbrev pub after_auth {ℓ} :
      {A : Type ℓ} → Result AppError Claims → (Claims → Result AppError A) → Result AppError A
  after_auth (err e) handler = err e
  after_auth (ok claims) handler = handler claims

  unfoldable pub protected {ℓ} :
      {A : Type ℓ} → Settings → Headers → (Claims → Result AppError A) → Result AppError A
  protected config headers handler = after_auth (from_request_parts config headers) handler

-- The handler `me`
abbrev pub me : Claims → Result AppError UserInfo
me claims =
    ok (record { username = claims.sub; role = claims.role; permissions = permissions_of_admin })
