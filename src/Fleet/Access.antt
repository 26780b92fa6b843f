-- ===== src/Fleet/Access.antt =====
-- Who is let in: the enrolment secret, and the token from its signing to its check.
use aigis_zero.Engine.Models.{Uuid}
use aigis_zero.Fleet.Database.{Db}
use aigis_zero.Fleet.Enrollment.{
  NodeRecord, NodeClaims, unauthenticated, sign_token, claims_at, token_ttl_secs, token_sign,
}
use aigis_zero.Fleet.Gateway.{
  MetadataMap, validate_token, Enrolling, Config, admits, provided_secret, register,
}
use Prim.Native.String
use aigis_zero.Prelude.{
  ℕ, ◌+◌, ◌-◌, ◌^◌, ◌<◌, String, List, [], ◌∷◌, some, Result, ok, err, ◌≡◌, ◌≢◌, refl, inl, inr,
  arith, ok-map_err, strip_prefix-append, lookup, str_eq, eq_iff, Bool-cases, Option-cases,
}

abbrev pub secret_of : String → Config → Config
secret_of expected config = record config { enrollment_secret = some expected }

-- With a secret that is not empty, a registration whose request does not carry that secret is
-- refused, and the tables stay as they are.
pub register-refused :
    (encode : NodeClaims → List ℕ → Result String String) (show : Uuid → String) (config : Config)
    (expected : String) (metadata : MetadataMap) (e : Enrolling) (r : NodeRecord) (db : Db)
    → expected ≢ ""
    → provided_secret metadata ≢ some expected
    → register encode show (secret_of expected config) metadata e r db
      ≡ (db, err (unauthenticated "invalid or missing enrollment secret"))
unfolding register admits
register-refused encode show config expected metadata e r db set other =
    elim (Bool-cases (str_eq expected "")) [
      | inl empty ↦ absurd (set ((eq_iff expected "").0 empty))
      | inr full ↦ elim (Option-cases (provided_secret metadata)) [
        | inl p ↦ rw (full, p) refl
        | inr (secret, p) ↦ elim (Bool-cases (str_eq secret expected)) [
          | inl q ↦ absurd (other (rw ((eq_iff secret expected).0 q) at p))
          | inr q ↦ rw (full, p, q) refl
        ]
      ]
    ]

-- Of a JWT library, `decode secret now token`: a signed token that has not expired decodes, with
-- the secret that signed it, to its claims.
abbrev pub Decodes :
    (NodeClaims → List ℕ → Result String String)
    → (List ℕ → ℕ → String → Result String NodeClaims)
    → Type 0
Decodes encode decode =
    (c : NodeClaims) (secret : List ℕ) (token : String) (now : ℕ)
    → encode c secret ≡ ok token
    → now < c.exp
    → decode secret now token ≡ ok c

module _ (encode : NodeClaims → List ℕ → Result String String)
    (decode : List ℕ → ℕ → String → Result String NodeClaims)
    (decode-encode : Decodes encode decode) where
  -- A token that was signed for a node at some time, and is sent back as a Bearer token to a server
  -- with the same secret less than 24 hours later, while the clock is below 2^64 - 1, is accepted
  -- with the node's id.
  pub validate_token-sign_token :
      (node_id token : String) (secret : List ℕ) (issued now : ℕ)
      → sign_token encode (some issued) node_id secret ≡ ok token
      → now < issued + token_ttl_secs
      → now < 2 ^ 64 - 1
      → validate_token
          (decode secret now)
          (("authorization", some (String.◌++◌ "Bearer " token)) ∷ [])
        ≡ ok (claims_at node_id issued)
  unfolding validate_token lookup sign_token
  validate_token-sign_token node_id token secret issued now signed soon low =
      let sent = ok-map_err token_sign (encode (claims_at node_id issued) secret) token signed in
      rw
        (
          strip_prefix-append "Bearer " token,
          decode-encode (claims_at node_id issued) secret token now sent (omega arith),
        )
        refl
