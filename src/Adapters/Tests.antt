-- ===== src/Adapters/Tests.antt =====
-- The theorems on the adapters at concrete requests.
use vertex_sdk_go.Prelude.{◌≡◌, refl, [], ◌∷◌, none, some}
use vertex_sdk_go.Prelude.Strings.{bytes}
use vertex_sdk_go.Permission.{PermissionKey}
use vertex_sdk_go.AuthContext.{User, Context, background, with_user, from_context}
use vertex_sdk_go.Middleware.{
  require_perm, require_any_perm, require_all_perms, require_step_up, require_no_impersonation,
}
use vertex_sdk_go.Middleware.Guards.{refused, served, plain}
use vertex_sdk_go.Adapters.{
  adapter_require_perm, adapter_require_any_perm, adapter_require_all_perms,
  adapter_require_step_up, adapter_require_no_impersonation,
}
use vertex_sdk_go.Adapters.Agreement.{require_perm_agrees, forbidding, guards_agree_but_401}

abbrev posts_read : PermissionKey
posts_read = record { resource = bytes "posts"; action = bytes "read" }

abbrev user : User
user = record {
  subject = bytes "u1";
  app_id = [];
  email = [];
  org_id = [];
  org_role = [];
  workspace_id = [];
  session_id = [];
  roles = [];
  permissions = bytes "posts:read" ∷ [];
  amr = [];
  acr = [];
  actor = none;
  claims = [];
}

abbrev request : Context
request = with_user (some user) background

require_perm_agrees_example :
    adapter_require_perm refused served posts_read request
    ≡ require_perm plain posts_read served request
require_perm_agrees_example = require_perm_agrees refused served request posts_read

has_user : from_context (some request) ≡ some user
unfolding from_context
has_user = refl

guards_agree_but_401_example :
    (adapter_require_any_perm refused served (posts_read ∷ []) background
      ≡ require_any_perm
          (record {
            responder =
                forbidding refused served background
                  (bytes "FORBIDDEN")
                  (bytes "missing any of required permissions");
          })
          (posts_read ∷ [])
          served
          background)
    × (adapter_require_all_perms refused served (posts_read ∷ []) background
        ≡ require_all_perms
            (record {
              responder =
                  forbidding refused served background
                    (bytes "FORBIDDEN")
                    (bytes "missing required permissions");
            })
            (posts_read ∷ [])
            served
            background)
    × (adapter_require_step_up refused served (bytes "mfa") background
        ≡ require_step_up
            (record {
              responder =
                  forbidding refused served background
                    (bytes "STEP_UP_REQUIRED")
                    (bytes "acr mfa required");
            })
            (bytes "mfa")
            served
            background)
    × (adapter_require_no_impersonation refused served background
        ≡ require_no_impersonation
            (record {
              responder =
                  forbidding refused served background
                    (bytes "FORBIDDEN")
                    (bytes "impersonated sessions may not perform this action");
            })
            served
            background)
guards_agree_but_401_example =
    guards_agree_but_401 refused served background (posts_read ∷ []) (bytes "mfa")
