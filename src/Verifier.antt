-- ===== src/Verifier.antt =====
-- jwt/verifier.go and jwt/claims.go. The package go-jose, which parses tokens, checks signatures and
-- validates the registered claims, is not part of the repository: it is the interface `Jose`, with
-- no law that the code relies on. The proofs are in the module below.
pub mod Soundness
mod Tests
use vertex_sdk_go.Prelude.{
  ℕ, ◌*◌, Bool, List, [], ◌∷◌, Option, none, some, Result, ok, err, length, ◌==◌, if◌then◌else◌,
}
use vertex_sdk_go.Prelude.Int.{ℤ, positive_or}
use vertex_sdk_go.Prelude.Strings.{Bytes, bytes, str_eq}
use vertex_sdk_go.AuthContext.{Actor}
use vertex_sdk_go.Jwks.{JwksProvider, JwksError, Call, returned, Clock, key_by_id, second}

-- `Claims`; `R` is go-jose's type of the registered claims, of which the SDK reads the subject.
pub record Claims (R : Type 0) : Type 0 where
  pub registered : R
  pub subject : Bytes
  pub app_id : Bytes
  pub email : Bytes
  pub workspace_id : Bytes
  pub org_id : Bytes
  pub org_slug : Bytes
  pub org_role : Bytes
  pub roles : List Bytes
  pub amr : List Bytes
  pub acr : Bytes
  pub session_id : Bytes
  pub actor : Option Actor
  pub extra : List (Bytes × Bytes)

-- `jwt.Expected`
pub record Expected : Type 0 where
  pub issuer : Bytes
  pub time : ℕ
  pub any_audience : List Bytes

pub record Jose : Type 1 where
  pub Token : Type 0
  pub Key : Type 0
  pub Registered : Type 0
  pub key_id : Key → Bytes
  -- `jwt.ParseSigned`, for the allowed algorithms
  pub parse_signed : Bytes → List Bytes → Result Bytes Token
  -- the key IDs of the headers
  pub headers : Token → List Bytes
  -- `Claims` of a parsed token: the claims, if the signature is one of the key
  pub claims : Token → Key → Result Bytes (Claims Registered)
  -- `ValidateWithLeeway`; `none` is a nil error
  pub validate : Registered → Expected → ℕ → Option Bytes

pub data VerifyError : Type 0 where
  nil_jwks empty_issuer missing_header missing_kid : VerifyError
  parse_failed signature_failed invalid_claims : Bytes → VerifyError
  key_error : JwksError → VerifyError
  unfinished : VerifyError

pub record VerifierOptions : Type 0 where
  pub issuer : Bytes
  pub audience : Bytes
  pub signature_algs : List Bytes
  pub clock_skew_leeway : ℤ

-- `Verifier`, less the key provider, which is the state that `verify` hands on.
pub record Verifier : Type 0 where
  pub expected_issuer : Bytes
  pub expected_audience : Bytes
  pub allowed_algorithms : List Bytes
  pub leeway : ℕ

-- `NewVerifier`; `jwks` says whether a provider was given.
pub new_verifier : Bool → VerifierOptions → Result VerifyError Verifier
new_verifier jwks opts =
    if jwks
    then (if str_eq opts.issuer []
        then err empty_issuer
        else ok (record {
          expected_issuer = opts.issuer;
          expected_audience = opts.audience;
          allowed_algorithms =
              if length opts.signature_algs == 0
              then bytes "RS256" ∷ bytes "ES256" ∷ []
              else opts.signature_algs;
          leeway = positive_or (30 * second) opts.clock_skew_leeway;
        }))
    else err nil_jwks

module _ (j : Jose) where
  -- What `Verify` expects of the registered claims at a time.
  pub expected : Verifier → ℕ → Expected
  expected v now = record {
    issuer = v.expected_issuer;
    time = now;
    any_audience = if str_eq v.expected_audience [] then [] else v.expected_audience ∷ [];
  }

  -- `Verify` once the key is found
  check_claims : Verifier → ℕ → j.Token → j.Key → Result VerifyError (Claims j.Registered)
  unfolding expected
  check_claims v now parsed key = elim (j.claims parsed key) [
    | err e ↦ err (signature_failed e)
    | ok c ↦ elim (j.validate c.registered (expected v now) v.leeway) [
      | some e ↦ err (invalid_claims e)
      | none ↦ ok c
    ]
  ]

  -- the result of `KeyByID`, which has returned
  key_result : Call j.Key → Result VerifyError j.Key
  key_result (returned (ok k)) = ok k
  key_result (returned (err e)) = err (key_error e)
  key_result _ = err unfinished

  verify_with :
      Verifier → ℕ → j.Token → Result VerifyError j.Key → Result VerifyError (Claims j.Registered)
  unfolding check_claims
  verify_with v now parsed (err e) = err e
  verify_with v now parsed (ok key) = check_claims v now parsed key

  -- `Verify` once the token is parsed
  verify_parsed :
      Verifier
      → Clock
      → ℕ
      → Result Bytes (List j.Key)
      → JwksProvider j.Key
      → j.Token
      → List Bytes
      → Result VerifyError (Claims j.Registered) × JwksProvider j.Key
  unfolding verify_with key_result
  verify_parsed v t now answer p parsed [] = (err missing_header, p)
  verify_parsed v t now answer p parsed (kid ∷ _) =
      if str_eq kid []
      then (err missing_kid, p)
      else let (call, p') = key_by_id j.key_id t answer kid p in
        (verify_with v now parsed (key_result call), p')

  -- `Verify`; `t` has the times of `KeyByID`, and `answer` is what its request for keys comes to.
  pub verify :
      Verifier
      → Clock
      → ℕ
      → Result Bytes (List j.Key)
      → JwksProvider j.Key
      → Bytes
      → Result VerifyError (Claims j.Registered) × JwksProvider j.Key
  unfolding verify_parsed
  verify v t now answer p token = elim (j.parse_signed token v.allowed_algorithms) [
    | err e ↦ (err (parse_failed e), p)
    | ok parsed ↦ verify_parsed v t now answer p parsed (j.headers parsed)
  ]
