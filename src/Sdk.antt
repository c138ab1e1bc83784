-- ===== src/Sdk.antt =====
-- sdk.go: the profile of the current user through its cache, the discovery of the key set, and
-- `MustUser`. The operations that only hand on to the client are those of Http.Account.
mod Profile
mod Tests
use vertex_sdk_go.Prelude.{
  ℕ, Bool, true, false, List, [], ◌∷◌, ◌++◌, Option, none, some, Result, ok, err, leb,
  if◌then◌else◌,
}
use vertex_sdk_go.Prelude.Strings.{Bytes, bytes, str_eq}
use vertex_sdk_go.Cache.{Cache}
use vertex_sdk_go.Config.{SdkConfig}
use vertex_sdk_go.AuthContext.{User, Context, from_context, AuthzError, unauthenticated}
use vertex_sdk_go.CurrentUser.{normalize_bearer}
use vertex_sdk_go.Manifest.Client.{trim_slashes}
use vertex_sdk_go.Portal.{HttpRequest, HttpResponse, Body}
use vertex_sdk_go.Http.{
  HttpError, transport, failed, invalid_answer, Log, Did, Backoff, Server, endpoint,
}
use vertex_sdk_go.Http.Account.{
  UserProfile, AccountUpdateProfileRequest, Codec, get_account_profile, update_account_profile,
}

-- `MustUser`
unfoldable pub must_user : Option Context → Result AuthzError User
must_user ctx = elim (from_context ctx) [ none ↦ err unauthenticated | some u ↦ ok u ]

-- `sha256_hex` is the digest of crypto/sha256 in hexadecimal.
module _ (sha256_hex : Bytes → Bytes) where
  token_key : Bytes → Bytes
  token_key access_token = bytes "token:" ++ sha256_hex (normalize_bearer access_token)

  user_key : Option User → Bytes → Bytes
  unfolding token_key
  user_key none access_token = token_key access_token
  user_key (some u) access_token =
      if str_eq u.subject []
      then token_key access_token
      else bytes "user:" ++ (u.app_id ++ (bytes ":" ++ u.subject))

  -- `profileCacheKey`
  unfoldable pub profile_cache_key : Option Context → Bytes → Bytes
  unfolding user_key
  profile_cache_key ctx access_token = user_key (from_context ctx) access_token

-- What `GetMe` and `UpdateAccountProfile` read of the `SDK`: the cache and its lifetime. A cache
-- that is disabled is `none`.
pub record Sdk (S : Type 0) : Type 0 where
  pub profile_cache : Option S
  pub profile_cache_ttl : ℕ

module _ (c : Cache UserProfile) (sha256_hex : Bytes → Bytes) (b : Backoff) (v : Server)
    (cfg : SdkConfig) (k : Codec) where
  -- The entry under the key, unless the cache is bypassed
  cached_profile : Bool → ℕ → Bytes → c.State → Option UserProfile
  cached_profile true now key s = none
  cached_profile false now key s = c.get now key s

  keep_profile : ℕ → Bytes → c.State → Sdk c.State → Did UserProfile → Did UserProfile × Sdk c.State
  keep_profile now key s sdk (err e, l) = ((err e, l), sdk)
  keep_profile now key s sdk (ok p, l) = (
    (ok p, l),
    record sdk { profile_cache = some (c.set_with_ttl now sdk.profile_cache_ttl key p s) },
  )

  -- `SDK.GetMe`, which looks into the cache at one time and stores at another.
  pub get_me :
      Option Context → Bytes → Bool → ℕ → ℕ → Sdk c.State → Log → Did UserProfile × Sdk c.State
  get_me ctx access_token bypass now stored sdk l = elim sdk.profile_cache [
    | none ↦ (get_account_profile b v cfg k access_token l, sdk)
    | some s ↦
        let key = profile_cache_key sha256_hex ctx access_token in
        elim (cached_profile bypass now key s) [
          | some p ↦ ((ok p, l), sdk)
          | none ↦ keep_profile stored key s sdk (get_account_profile b v cfg k access_token l)
        ]
  ]

  -- `SDK.UpdateAccountProfile`
  pub update_me :
      Option Context
      → Bytes
      → AccountUpdateProfileRequest
      → Sdk c.State
      → Log
      → Did UserProfile × Sdk c.State
  update_me ctx access_token input sdk l = (
    update_account_profile b v cfg k access_token input l,
    elim sdk.profile_cache [
      | none ↦ sdk
      | some s ↦ record sdk {
        profile_cache = some (c.del (profile_cache_key sha256_hex ctx access_token) s);
      }
    ],
  )

-- `decode` is encoding/json's, and gives `jwks_uri`; `status` is the text of a status line.
module _ (decode : Body → Result Bytes Bytes) (status : HttpResponse → Bytes) where
  discovered : Result Bytes HttpResponse → Result HttpError Bytes
  discovered (err e) = err (transport e)
  discovered (ok r) =
      if leb 400 r.status
      then err (invalid_answer (bytes "openid discovery: " ++ status r))
      else elim (decode r.body) [
        | err e ↦ err (failed e)
        | ok uri ↦
            if str_eq uri []
            then err (invalid_answer (bytes "openid discovery: jwks_uri missing"))
            else ok uri
      ]

  discovery_sent : Server → Option Bytes → HttpRequest → Log → Did Bytes
  unfolding discovered
  discovery_sent v (some e) request l = (err (failed e), l)
  discovery_sent v none request l = (discovered (v.send l request), request ∷ l)

  -- `discoverJWKS`
  unfoldable pub discover_jwks : Server → SdkConfig → Log → Did Bytes
  unfolding discovery_sent
  discover_jwks v cfg l =
      let url = trim_slashes (endpoint cfg) ++ bytes "/.well-known/openid-configuration" in
      discovery_sent v (v.refused (bytes "GET") url)
        (record { method = bytes "GET"; url = url; headers = []; body = none }) l
