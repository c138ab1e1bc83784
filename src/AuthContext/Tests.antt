-- ===== src/AuthContext/Tests.antt =====
-- `MustPermission` at concrete contexts.
use vertex_sdk_go.Prelude.{◌≡◌, ◌↔◌, [], ◌∷◌, Option, none, some}
use vertex_sdk_go.Prelude.Strings.{bytes}
use vertex_sdk_go.Permission.{PermissionKey}
use vertex_sdk_go.AuthContext.{
  User, Context, background, with_user, with_other, from_context, must_permission,
}
use vertex_sdk_go.AuthContext.Access.{Answers, must_permission_iff}

abbrev editor : User
editor = record {
  subject = bytes "u1";
  app_id = [];
  email = [];
  org_id = [];
  org_role = [];
  workspace_id = [];
  session_id = [];
  roles = [];
  permissions = bytes "posts:*" ∷ [];
  amr = [];
  acr = [];
  actor = none;
  claims = [];
}

abbrev request : Option Context
request = some (with_other (with_user (some editor) background))

abbrev posts_read : PermissionKey
posts_read = record { resource = bytes "posts"; action = bytes "read" }

must_permission_iff_example :
    (must_permission request posts_read ≡ none) ↔ Answers (from_context request) posts_read none
must_permission_iff_example = must_permission_iff request posts_read none
