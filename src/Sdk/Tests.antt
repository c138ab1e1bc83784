-- ===== src/Sdk/Tests.antt =====
-- The profile of a user at concrete inputs, and the theorem applied.
use vertex_sdk_go.Prelude.{◌≡◌, refl, false, [], none, some, ok, err}
use vertex_sdk_go.Prelude.Strings.{bytes, str_eq}
use vertex_sdk_go.Cache.Samples.{Table, table_cache}
use vertex_sdk_go.AuthContext.{User, Context, background, with_user, from_context, unauthenticated}
use vertex_sdk_go.Http.Samples.{patient, config, shaky, account_codec}
use vertex_sdk_go.Http.Account.{
  UserProfile, AccountUpdateProfileRequest, Codec, get_account_profile,
}
use vertex_sdk_go.Sdk.{must_user, Sdk, get_me, update_me}
use vertex_sdk_go.Sdk.Profile.{caller_of, get_me-update_me}

abbrev profile : UserProfile
profile = record {
  user_id = bytes "u1";
  application_id = bytes "blog";
  global_identity_id = none;
  email = none;
  email_verified = false;
  username = none;
  display_name = none;
  avatar_url = none;
  status = bytes "active";
  created_at = bytes "2024-01-01T00:00:00Z";
  updated_at = bytes "2024-01-01T00:00:00Z";
  current_organization = none;
}

abbrev codec : Codec
codec = record account_codec { decode_profile = λ body. ok profile }

-- Every caller has an entry.
abbrev warm : Sdk (Table UserProfile)
warm = record { profile_cache = some (λ key. some profile); profile_cache_ttl = 30 }

abbrev input : AccountUpdateProfileRequest
input = record { display_name = bytes "Ann"; avatar_url = [] }

abbrev app_user : User
app_user = record {
  subject = bytes "u1";
  app_id = bytes "blog";
  email = [];
  org_id = [];
  org_role = [];
  workspace_id = [];
  session_id = [];
  roles = [];
  permissions = [];
  amr = [];
  acr = [];
  actor = none;
  claims = [];
}

abbrev ctx : Context
ctx = with_user (some app_user) background

must_user_test :
    (must_user (some background) ≡ err unauthenticated) × (must_user (some ctx) ≡ ok app_user)
unfolding must_user from_context
must_user_test = (refl, refl)

-- The user of the context is the caller, whatever the token.
same_user :
    caller_of (from_context (some ctx)) (bytes "t")
    ≡ caller_of (from_context (some ctx)) (bytes "s")
unfolding caller_of from_context str_eq
same_user = refl

get_me-update_me_example :
    (get_me
      (table_cache UserProfile)
      (λ s. s)
      patient
      shaky
      config
      codec
      (some ctx)
      (bytes "s")
      false
      1
      2
      (update_me
        (table_cache UserProfile)
        (λ s. s)
        patient
        shaky
        config
        codec
        (some ctx)
        (bytes "t")
        input
        warm
        []).1
      []).0
    ≡ get_account_profile patient shaky config codec (bytes "s") []
get_me-update_me_example =
    get_me-update_me (table_cache UserProfile) (λ s. s) patient shaky config codec (some ctx)
      (some ctx) (bytes "t") (bytes "s") input false 1 2 warm [] [] same_user
