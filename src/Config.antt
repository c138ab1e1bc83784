-- ===== src/Config.antt =====
-- config.go: the configuration of the SDK and the defaults that it gets. Durations are in
-- nanoseconds.
pub mod Defaults
mod Tests
use vertex_sdk_go.Prelude.{
  ℕ, zero, suc, ◌*◌, Bool, Option, none, some, Result, ok, err, List, [], ◌∷◌, ◌≡◌, if◌then◌else◌,
}
use vertex_sdk_go.Prelude.Int.{ℤ, pos, negsuc}
use vertex_sdk_go.Prelude.Strings.{Bytes, str_eq}

pub data ResolveMode : Type 0 where
  resolve_on_demand resolve_full_sync : ResolveMode

pub data FailMode : Type 0 where
  fail_close fail_open : FailMode

pub record SdkConfig : Type 0 where
  pub endpoint : Bytes
  pub client_id : Bytes
  pub client_secret : Bytes
  pub audience : Bytes
  pub issuer : Bytes
  pub jwks_refresh : ℤ
  pub permission_cache_ttl : ℤ
  pub permission_cache_max : ℤ
  pub user_profile_cache_ttl : ℤ
  pub user_profile_cache_max : ℤ
  pub disable_user_profile_cache : Bool
  pub resolve_mode : ResolveMode
  pub fail_mode : FailMode
  pub http_timeout : ℤ
  pub max_retries : ℤ

pub data ConfigError : Type 0 where
  nil_config endpoint_required client_id_required client_secret_required : ConfigError

abbrev second : ℕ
second = 1_000_000_000

-- `if s == "" { s = fallback }`
or_text : Bytes → Bytes → Bytes
or_text fallback s = if str_eq s [] then fallback else s

-- `if v <= 0 { v = fallback }`
or_number : ℕ → ℤ → ℤ
or_number fallback (pos zero) = pos fallback
or_number fallback (pos (suc n)) = pos (suc n)
or_number fallback (negsuc n) = pos fallback

-- the assignments of `Validate`
unfoldable pub with_defaults : SdkConfig → SdkConfig
unfolding or_text or_number
with_defaults c = record {
  endpoint = c.endpoint;
  client_id = c.client_id;
  client_secret = c.client_secret;
  audience = or_text c.client_id c.audience;
  issuer = or_text c.endpoint c.issuer;
  jwks_refresh = or_number (3_600 * second) c.jwks_refresh;
  permission_cache_ttl = or_number (300 * second) c.permission_cache_ttl;
  permission_cache_max = or_number 10_000 c.permission_cache_max;
  user_profile_cache_ttl = or_number (60 * second) c.user_profile_cache_ttl;
  user_profile_cache_max = or_number 10_000 c.user_profile_cache_max;
  disable_user_profile_cache = c.disable_user_profile_cache;
  resolve_mode = c.resolve_mode;
  fail_mode = c.fail_mode;
  http_timeout = or_number (5 * second) c.http_timeout;
  max_retries = or_number 3 c.max_retries;
}

-- `Validate`: the configuration as it leaves it; `none` is a nil pointer.
unfoldable pub validate : Option SdkConfig → Result ConfigError SdkConfig
validate none = err nil_config
validate (some c) =
    if str_eq c.endpoint []
    then err endpoint_required
    else if str_eq c.client_id []
    then err client_id_required
    else if str_eq c.client_secret []
    then err client_secret_required
    else ok (with_defaults c)
