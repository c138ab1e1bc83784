-- ===== src/Config/Tests.antt =====
-- A configuration with defaults, and the theorems applied to it.
use vertex_sdk_go.Prelude.{◌≡◌, ◌↔◌, refl, false, [], some, ok}
use vertex_sdk_go.Prelude.Int.{pos, negsuc}
use vertex_sdk_go.Prelude.Strings.{bytes, str_eq}
use vertex_sdk_go.Config.{SdkConfig, resolve_on_demand, fail_close, with_defaults, validate}
use vertex_sdk_go.Config.Defaults.{IsCompleted, validate_iff}

abbrev given : SdkConfig
given = record {
  endpoint = bytes "https://id";
  client_id = bytes "blog";
  client_secret = bytes "secret";
  audience = [];
  issuer = bytes "https://issuer";
  jwks_refresh = pos 0;
  permission_cache_ttl = negsuc 0;
  permission_cache_max = pos 7;
  user_profile_cache_ttl = pos 0;
  user_profile_cache_max = pos 0;
  disable_user_profile_cache = false;
  resolve_mode = resolve_on_demand;
  fail_mode = fail_close;
  http_timeout = pos 1;
  max_retries = pos 0;
}

accepted : validate (some given) ≡ ok (with_defaults given)
unfolding validate str_eq
accepted = refl

validate_iff_example :
    (validate (some given) ≡ ok (with_defaults given)) ↔ IsCompleted given (with_defaults given)
validate_iff_example = validate_iff given (with_defaults given)
