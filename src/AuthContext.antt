-- ===== src/AuthContext.antt =====
-- authz/context.go: the authenticated user and the request context that carries it.
pub mod Access
mod Tests
use vertex_sdk_go.Prelude.{
  ◌≡◌, refl, ◌↔◌, Bool, true, false, not, ◌||◌, List, [], ◌∷◌, Option, none, some, arith,
  if◌then◌else◌,
}
use vertex_sdk_go.Prelude.Strings.{Bytes, bytes, str_eq}
use vertex_sdk_go.Permission.{PermissionKey, has_permission}

pub record Actor : Type 0 where
  pub subject : Bytes

-- The values of `claims` are kept as JSON text; nothing reads them.
pub record User : Type 0 where
  pub subject : Bytes
  pub app_id : Bytes
  pub email : Bytes
  pub org_id : Bytes
  pub org_role : Bytes
  pub workspace_id : Bytes
  pub session_id : Bytes
  pub roles : List Bytes
  pub permissions : List Bytes
  pub amr : List Bytes
  pub acr : Bytes
  pub actor : Option Actor
  pub claims : List (Bytes × Bytes)

-- A method of a nil `*User` is called on `none`.
unfoldable pub is_impersonating : Option User → Bool
is_impersonating none = false
is_impersonating (some u) = elim u.actor [ none ↦ false | some a ↦ not (str_eq a.subject []) ]

-- the loop of `HasMFA`
mfa_factor : List Bytes → Bool
mfa_factor [] = false
mfa_factor (a ∷ as_) =
    if str_eq a (bytes "mfa")
      || str_eq a (bytes "totp")
      || str_eq a (bytes "webauthn")
      || str_eq a (bytes "pwd+mfa")
    then true
    else mfa_factor as_

pub has_mfa : Option User → Bool
unfolding mfa_factor
has_mfa none = false
has_mfa (some u) = mfa_factor u.amr

pub user_has_permission : Option User → Bytes → Bytes → Bool
user_has_permission none resource action = false
user_has_permission (some u) resource action =
    has_permission (record { resource = resource; action = action }) u.permissions

-- A `context.Context` as far as the SDK reads it: a chain of values, each under the user's key or
-- under another.
pub data Context : Type 0 where
  background : Context
  with_user : Option User → Context → Context
  with_other : Context → Context

-- `ctx.Value(userCtxKey)`: the last value that was stored under the key
user_value : Context → Option User
user_value background = none
user_value (with_user u ctx) = u
user_value (with_other ctx) = user_value ctx

-- `FromContext`; a nil context is `none`.
unfoldable pub from_context : Option Context → Option User
unfolding user_value
from_context none = none
from_context (some ctx) = user_value ctx

pub data AuthzError : Type 0 where
  unauthenticated forbidden : AuthzError

-- `MustPermission` from its call of `FromContext` on; `none` is a nil error.
checked : Option User → PermissionKey → Option AuthzError
checked none perm = some unauthenticated
checked (some u) perm = if not (has_permission perm u.permissions) then some forbidden else none

pub must_permission : Option Context → PermissionKey → Option AuthzError
unfolding checked
must_permission ctx perm = checked (from_context ctx) perm
