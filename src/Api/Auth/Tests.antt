-- ===== src/Api/Auth/Tests.antt =====
-- The sessions' theorem at the default operator.
use Prim.Native.String
use aigis_zero.Api.Auth.{
  LoginRequest, Claims, claims_of, response_of, is_valid, login, from_request_parts, protected, me,
  permissions_of_admin,
}
use aigis_zero.Api.Auth.Sessions.{Decodes, knows, login-protected}
use aigis_zero.Api.Errors.{unauthorized}
use aigis_zero.Api.Settings.{Settings, Parsers, load_from_env}
use aigis_zero.Prelude.{
  ℕ, String, Bool, true, false, [], ◌∷◌, Option, none, some, Result, ok, err, ℤ, pos, negsuc, ◌≡◌,
  refl, ap, ap₂, ◌∙◌, arith, if◌then◌else◌, str_eq, trim, trim_start_by, trim_end_by, Bool-cases,
  inl, inr, ◌==◌, ◌&&◌, &&-eq-true, eq_iff, ==_iff, ltb, sym,
}

program : Unit {0}
unfolding is_valid login from_request_parts protected load_from_env trim trim_start_by trim_end_by
program = tt

abbrev nothing_set : String → Option String
nothing_set name = none

-- Parsers that know the defaults.
abbrev parsers : Parsers
parsers = record { u16 = λ s. ok 8080; usize = λ s. some 16; i64 = λ s. some (pos 86400) }

abbrev config_of : Result String Settings → Settings
config_of (ok s) = s
config_of (err e) = record {
  host = "";
  port = 0;
  database_url_nodes = "";
  database_url_alerts = "";
  database_url_logs = "";
  db_pool_max_size = 0;
  kafka_brokers = "";
  kafka_consumer_group = "";
  fleet_grpc_url = "";
  jwt_secret = "";
  jwt_expiration_secs = pos 0;
  admin_default_user = "";
  admin_default_password = "";
}

-- The defaults, where the environment is empty.
abbrev config : Settings
unfolding load_from_env
config = config_of (load_from_env nothing_set parsers)

abbrev is_pos : ℕ → ℤ → Bool
is_pos n (pos m) = m == n
is_pos n (negsuc m) = false

is_pos-pos : (n : ℕ) (i : ℤ) → is_pos n i ≡ true → i ≡ pos n
is_pos-pos n (pos m) h = let e = (==_iff m n).0 h in ground arith
is_pos-pos n (negsuc m) h = cc

abbrev request : LoginRequest
request = record { username = "admin"; password = "admin" }

abbrev known : Claims
known = claims_of config (pos 1000) request

abbrev is_known : Claims → Bool
is_known c =
    str_eq c.sub "admin" && (str_eq c.role "soc_admin" && (is_pos 87400 c.exp && is_pos 1000 c.iat))

known_only : (c : Claims) → is_known c ≡ true → c ≡ known
unfolding config
known_only c h =
    let (sub, h') = &&-eq-true (str_eq c.sub "admin") _ h in
    let (role, h'') = &&-eq-true (str_eq c.role "soc_admin") _ h' in
    let (exp, iat) = &&-eq-true (is_pos 87400 c.exp) (is_pos 1000 c.iat) h'' in
    let sub' = (eq_iff c.sub "admin").0 sub in
    let role' = (eq_iff c.role "soc_admin").0 role in
    let exp' = is_pos-pos 87400 c.exp exp in
    let iat' = is_pos-pos 1000 c.iat iat in
    ap₂ (λ (a b : String × ℤ). record { sub = a.0; exp = a.1; role = b.0; iat = b.1 })
      (ap₂ (λ x y. (x, y)) sub' exp') (ap₂ (λ x y. (x, y)) role' iat')

-- A JWT library that signs these claims only.
abbrev encode : Claims → String → Result String String
encode c secret = if is_known c then ok "t" else err "unknown"

abbrev decode : ℕ → String → String → Result String Claims
decode now secret token = if ltb now 87400 then ok known else err "expired"

decode-encode : Decodes encode decode
unfolding config
decode-encode c secret token exp now h same soon = elim (Bool-cases (is_known c)) [
  | inr e ↦ let h' = rw e at h in cc
  | inl e ↦
      let c' = known_only c e in
      let exp' : pos exp ≡ pos 87400 = sym same ∙ ap (λ (x : Claims). x.exp) c' in
      let early : ltb now 87400 ≡ true = ground arith in rw early (ap (λ x. ok x) (sym c'))
]

abbrev hashes : String → String → Bool
hashes password hash = false

login-protected_example :
    (login hashes encode config (pos 1000) request ≡ (
      if knows hashes config request
      then ok (response_of config request "t")
      else err (unauthorized "Invalid username or password")))
    × (protected (decode 5000) config (("authorization", some (String.◌++◌ "Bearer " "t")) ∷ []) me
        ≡ ok
            (record { username = "admin"; role = "soc_admin"; permissions = permissions_of_admin }))
unfolding program config
login-protected_example =
    login-protected hashes encode decode decode-encode config request "t" 1000 86400 5000 refl
      (omega arith) (omega arith) refl refl
