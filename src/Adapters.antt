-- ===== src/Adapters.antt =====
-- gin/middleware.go and echo/middleware.go: the guards as the adapters write them. A gin guard aborts
-- with a response or lets the chain go on; an echo guard calls the next handler. Both are functions
-- of the request's context, into any type `R` of responses. The guards of chi/middleware.go are
-- those of the package middleware.
pub mod Agreement
mod Tests
use vertex_sdk_go.Prelude.{
  ℕ, Bool, true, false, not, ◌||◌, List, [], ◌∷◌, ◌++◌, Option, none, some, if◌then◌else◌,
}
use vertex_sdk_go.Prelude.Strings.{Bytes, bytes, str_eq}
use vertex_sdk_go.Permission.{
  PermissionKey, authority, has_permission, has_any_permission, has_all_permissions,
}
use vertex_sdk_go.AuthContext.{User, Context, from_context, is_impersonating}
use vertex_sdk_go.Middleware.{ErrorResponder, Handler}

-- `respond` is `AbortWithStatusJSON` of gin or `JSON` of echo, on the payload of a code and a
-- message; `next` is the rest of the chain.
module _ {R : Type 0} (respond : ErrorResponder R) (next : Handler R) where
  pub adapter_require_perm : PermissionKey → Handler R
  adapter_require_perm perm ctx = elim (from_context (some ctx)) [
    | none ↦ respond 401 (bytes "UNAUTHORIZED") (bytes "not authenticated")
    | some u ↦
        if not (has_permission perm u.permissions)
        then respond 403 (bytes "FORBIDDEN") (bytes "missing permission: " ++ authority perm)
        else next ctx
  ]

  -- `if u == nil || !test(u) { … 403 … }`, as the other guards are written
  refuse_unless : (User → Bool) → Bytes → Bytes → Handler R
  refuse_unless test code message ctx = elim (from_context (some ctx)) [
    | none ↦ respond 403 code message
    | some u ↦ if not (test u) then respond 403 code message else next ctx
  ]

  pub adapter_require_any_perm : List PermissionKey → Handler R
  unfolding refuse_unless
  adapter_require_any_perm perms =
      refuse_unless (λ u. has_any_permission perms u.permissions) (bytes "FORBIDDEN")
        (bytes "missing any of required permissions")

  pub adapter_require_all_perms : List PermissionKey → Handler R
  unfolding refuse_unless
  adapter_require_all_perms perms =
      refuse_unless (λ u. has_all_permissions perms u.permissions) (bytes "FORBIDDEN")
        (bytes "missing required permissions")

  pub adapter_require_step_up : Bytes → Handler R
  unfolding refuse_unless
  adapter_require_step_up acr =
      refuse_unless (λ u. str_eq u.acr acr) (bytes "STEP_UP_REQUIRED")
        (bytes "acr " ++ (acr ++ bytes " required"))

  pub adapter_require_no_impersonation : Handler R
  unfolding refuse_unless
  adapter_require_no_impersonation =
      refuse_unless (λ u. not (is_impersonating (some u))) (bytes "FORBIDDEN")
        (bytes "impersonated sessions may not perform this action")

  -- The guards of echo/middleware.go are written as those of gin/middleware.go.
  pub echo_require_perm : PermissionKey → Handler R
  unfolding adapter_require_perm
  echo_require_perm = adapter_require_perm

  pub echo_require_any_perm : List PermissionKey → Handler R
  unfolding adapter_require_any_perm
  echo_require_any_perm = adapter_require_any_perm

  pub echo_require_all_perms : List PermissionKey → Handler R
  unfolding adapter_require_all_perms
  echo_require_all_perms = adapter_require_all_perms

  pub echo_require_step_up : Bytes → Handler R
  unfolding adapter_require_step_up
  echo_require_step_up = adapter_require_step_up

  pub echo_require_no_impersonation : Handler R
  unfolding adapter_require_no_impersonation
  echo_require_no_impersonation = adapter_require_no_impersonation
