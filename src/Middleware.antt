-- ===== src/Middleware.antt =====
-- middleware/auth.go, middleware/bearer.go and middleware/require_perm.go: the handler that puts the
-- user into the request's context, and those that guard a handler. A response is of any type `R`,
-- made by an error responder or by the next handler; the request is its context and its
-- Authorization header. The proofs are in the modules below.
pub mod Guards
pub mod Authentication
mod Tests
use mathlib.Core.List.{foldl}
use vertex_sdk_go.Prelude.{
  ℕ, ◌+◌, Bool, true, false, not, ◌&&◌, ◌||◌, List, [], ◌∷◌, ◌++◌, Option, none, some, Result, ok,
  err, leb, ◌==◌, length, take, drop, map, if◌then◌else◌,
}
use vertex_sdk_go.Prelude.Strings.{Bytes, bytes, str_eq}
use vertex_sdk_go.Prelude.Utf8.{trim_space}
use vertex_sdk_go.Permission.{
  PermissionKey, authority, has_permission, has_any_permission, has_all_permissions,
}
use vertex_sdk_go.AuthContext.{User, Context, with_user, from_context, is_impersonating}
use vertex_sdk_go.Resolver.{ResolveClient}
use vertex_sdk_go.Verifier.{Claims}

-- `ErrorResponder`: a status, a code and a message
abbrev pub ErrorResponder : Type 0 → Type 0
ErrorResponder R = ℕ → Bytes → Bytes → R

abbrev pub Handler : Type 0 → Type 0
Handler R = Context → R

-- `strings.EqualFold` with an ASCII text whose letters no other character folds to
fold_byte : ℕ → ℕ
fold_byte b = if leb b'A' b && leb b b'Z' then b + 32 else b

unfoldable pub equal_fold : Bytes → Bytes → Bool
unfolding fold_byte
equal_fold s t = str_eq (map fold_byte s) (map fold_byte t)

abbrev bearer_prefix : Bytes
bearer_prefix = bytes "Bearer "

-- `BearerToken`; `h` is the Authorization header, empty if there is none
pub bearer_token : Bytes → Bytes
unfolding equal_fold
bearer_token h =
    if leb (length h) (length bearer_prefix)
      || not (equal_fold (take (length bearer_prefix) h) bearer_prefix)
    then []
    else trim_space (drop (length bearer_prefix) h)

-- `DefaultErrorResponder`: the JSON object that it writes, with its members
pub record ErrorResponse : Type 0 where
  pub status : ℕ
  pub content_type : Bytes
  pub members : List (Bytes × Bytes)

pub default_error_responder : ErrorResponder ErrorResponse
default_error_responder status code message = record {
  status = status;
  content_type = bytes "application/json; charset=utf-8";
  members = (bytes "code", code) ∷ (bytes "message", message) ∷ [];
}

-- `options` and `Option`: an option changes the options before it.
pub record Options (R : Type 0) : Type 0 where
  pub responder : ErrorResponder R

pub with_responder : {R : Type 0} → ErrorResponder R → Options R → Options R
with_responder r o = record { responder = r }

-- `applyOptions`; the default responder is an argument, since `R` is any type
pub apply_options : {R : Type 0} → ErrorResponder R → List (Options R → Options R) → Options R
apply_options default opts = foldl (λ o fn. fn o) (record { responder = default }) opts

-- `AuthConfig`: the verifier and the resolver are functions, as the request finds them.
pub record AuthConfig (C R : Type 0) : Type 0 where
  pub verify : Bytes → Result Bytes C
  pub resolver : ResolveClient
  pub client_id : Bytes
  pub responder : ErrorResponder R

-- The user that `Auth` makes of the claims and the permissions.
pub user_of : {G : Type 0} → Claims G → List Bytes → User
user_of claims perms = record {
  subject = claims.subject;
  app_id = claims.app_id;
  email = claims.email;
  org_id = claims.org_id;
  org_role = claims.org_role;
  workspace_id = claims.workspace_id;
  session_id = claims.session_id;
  roles = claims.roles;
  permissions = perms;
  amr = claims.amr;
  acr = claims.acr;
  actor = claims.actor;
  claims = claims.extra;
}

-- The client ID under which the roles are resolved.
pub resolve_client_id : {G : Type 0} → Bytes → Claims G → Bytes
resolve_client_id client_id claims =
    if str_eq client_id [] && not (str_eq claims.app_id []) then claims.app_id else client_id

module _ {R : Type 0} where
  -- `Auth`, with the Authorization header of the request
  pub auth : {G : Type 0} → AuthConfig (Claims G) R → Handler R → Bytes → Handler R
  unfolding user_of resolve_client_id
  auth cfg next header ctx =
      let token = bearer_token header in
      if str_eq token []
      then cfg.responder 401 (bytes "UNAUTHORIZED") (bytes "missing bearer token")
      else elim (cfg.verify token) [
        | err e ↦ cfg.responder 401 (bytes "UNAUTHORIZED") e
        | ok claims ↦ elim (cfg.resolver (resolve_client_id cfg.client_id claims) claims.roles) [
          | err e ↦ cfg.responder 403 (bytes "FORBIDDEN") e
          | ok perms ↦ next (with_user (some (user_of claims perms)) ctx)
        ]
      ]

  -- What the guards have in common: a test of the user, with the answer where it fails.
  unfoldable pub guard : (Options R) → (User → Bool) → Bytes → Bytes → Handler R → Handler R
  guard o test code message next ctx = elim (from_context (some ctx)) [
    | none ↦ o.responder 401 (bytes "UNAUTHORIZED") (bytes "not authenticated")
    | some u ↦ if not (test u) then o.responder 403 code message else next ctx
  ]

  unfoldable pub require_perm : Options R → PermissionKey → Handler R → Handler R
  unfolding guard
  require_perm o perm =
      guard o (λ u. has_permission perm u.permissions) (bytes "FORBIDDEN")
        (bytes "missing permission: " ++ authority perm)

  unfoldable pub require_any_perm : Options R → List PermissionKey → Handler R → Handler R
  unfolding guard
  require_any_perm o perms =
      guard o (λ u. has_any_permission perms u.permissions) (bytes "FORBIDDEN")
        (bytes "missing any of required permissions")

  unfoldable pub require_all_perms : Options R → List PermissionKey → Handler R → Handler R
  unfolding guard
  require_all_perms o perms =
      guard o (λ u. has_all_permissions perms u.permissions) (bytes "FORBIDDEN")
        (bytes "missing required permissions")

  unfoldable pub require_step_up : Options R → Bytes → Handler R → Handler R
  unfolding guard
  require_step_up o acr =
      guard o (λ u. str_eq u.acr acr) (bytes "STEP_UP_REQUIRED")
        (bytes "acr " ++ (acr ++ bytes " required"))

  unfoldable pub require_no_impersonation : Options R → Handler R → Handler R
  unfolding guard
  require_no_impersonation o =
      guard o (λ u. not (is_impersonating (some u))) (bytes "FORBIDDEN")
        (bytes "impersonated sessions may not perform this action")
