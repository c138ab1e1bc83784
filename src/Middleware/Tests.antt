-- ===== src/Middleware/Tests.antt =====
-- The middleware at concrete inputs, and the theorems applied to them.
use vertex_sdk_go.Prelude.{
  ℕ, ◌≡◌, ◌≢◌, ◌↔◌, refl, List, [], ◌∷◌, none, some, ok, err, All, Any, if◌then◌else◌,
}
use vertex_sdk_go.Prelude.Strings.{Bytes, bytes, str_eq}
use vertex_sdk_go.Prelude.Utf8.{trim_space}
use vertex_sdk_go.Permission.{PermissionKey}
use vertex_sdk_go.Permission.Matching.{IsGranted}
use vertex_sdk_go.AuthContext.{User, Context, background, with_user}
use vertex_sdk_go.Verifier.{Claims}
use vertex_sdk_go.Middleware.{
  AuthConfig, bearer_token, user_of, auth, require_perm, require_any_perm, require_all_perms,
  require_step_up, require_no_impersonation,
}
use vertex_sdk_go.Middleware.Guards.{
  Answer, refused, served, plain, ServedFor, ActsForItself, guards_iff,
}
use vertex_sdk_go.Middleware.Authentication.{IsAuthenticated, auth-require_perm_iff}

-- the cases of `TestBearerToken`
bearer_cases :
    (bearer_token (bytes "Bearer abc") ≡ bytes "abc")
    × (bearer_token (bytes "bearer abc") ≡ bytes "abc")
    × (bearer_token (bytes "BEARER   xyz  ") ≡ bytes "xyz")
    × (bearer_token [] ≡ [])
    × (bearer_token (bytes "Token abc") ≡ [])
    × (bearer_token (bytes "Bearer") ≡ [])
unfolding bearer_token str_eq trim_space
bearer_cases = (refl, refl, refl, refl, refl, refl)

abbrev sample : Claims Unit
sample = record {
  registered = tt;
  subject = bytes "u1";
  app_id = bytes "app";
  email = [];
  workspace_id = [];
  org_id = [];
  org_slug = [];
  org_role = [];
  roles = bytes "admin" ∷ [];
  amr = [];
  acr = bytes "mfa";
  session_id = [];
  actor = none;
  extra = [];
}

abbrev config : AuthConfig (Claims Unit) Answer
config = record {
  verify = λ token. if str_eq token (bytes "good") then ok sample else err (bytes "bad");
  resolver = λ client_id roles. ok (bytes "posts:*" ∷ []);
  client_id = [];
  responder = refused;
}

abbrev posts_read : PermissionKey
posts_read = record { resource = bytes "posts"; action = bytes "read" }

abbrev user : User
user = unfold user_of in user_of sample (bytes "posts:*" ∷ [])

abbrev request : Context
request = with_user (some user) background

config_refuses :
    (status : ℕ) (code message : Bytes) (ctx : Context) → refused status code message ≢ served ctx
config_refuses status code message ctx e = cc

no_token :
    auth config (λ ctx. served ctx) [] background
    ≡ refused 401 (bytes "UNAUTHORIZED") (bytes "missing bearer token")
unfolding auth bearer_token str_eq
no_token = refl

auth-require_perm_iff_example :
    (auth config (require_perm plain posts_read served) (bytes "Bearer good") background
      ≡ served request)
    ↔ ((claims : Claims Unit) × (perms : List Bytes) × IsAuthenticated config
          (bytes "Bearer good")
          claims
          perms
        × IsGranted perms posts_read
        × (request ≡ with_user (some (user_of claims perms)) background))
auth-require_perm_iff_example =
    auth-require_perm_iff config config_refuses posts_read (bytes "Bearer good") background request

guards_iff_example :
    ((require_perm plain posts_read served request ≡ served request)
      ↔ ServedFor (λ u. IsGranted u.permissions posts_read) request request)
    × ((require_any_perm plain (posts_read ∷ []) served request ≡ served request)
        ↔ ServedFor (λ u. Any (IsGranted u.permissions) (posts_read ∷ [])) request request)
    × ((require_all_perms plain (posts_read ∷ []) served request ≡ served request)
        ↔ ServedFor
            (λ u. (posts_read ∷ [] ≢ []) × All (IsGranted u.permissions) (posts_read ∷ []))
            request
            request)
    × ((require_step_up plain (bytes "mfa") served request ≡ served request)
        ↔ ServedFor (λ u. u.acr ≡ bytes "mfa") request request)
    × ((require_no_impersonation plain served request ≡ served request)
        ↔ ServedFor ActsForItself request request)
guards_iff_example = guards_iff posts_read (posts_read ∷ []) (bytes "mfa") request request
