-- ===== src/AuthContext/Access.antt =====
-- What `MustPermission` answers.
use vertex_sdk_go.Prelude.{◌≡◌, ◌↔◌, sym, Option, none, some, arith}
use vertex_sdk_go.Permission.{PermissionKey}
use vertex_sdk_go.Permission.Matching.{IsGranted, has_permission_iff}
use vertex_sdk_go.AuthContext.{
  User, Context, from_context, AuthzError, unauthenticated, forbidden, checked, must_permission,
}

-- What an error, or its absence, says of the user.
pub Answers : Option User → PermissionKey → Option AuthzError → Type 0
Answers none perm answer = answer ≡ some unauthenticated
Answers (some u) perm none = IsGranted u.permissions perm
Answers (some u) perm (some unauthenticated) = ⊥
Answers (some u) perm (some forbidden) = ¬ IsGranted u.permissions perm

checked_iff :
    (u : Option User) (perm : PermissionKey) (answer : Option AuthzError)
    → (checked u perm ≡ answer) ↔ Answers u perm answer
unfolding checked Answers
checked_iff none perm answer = (λ h. sym h, λ h. sym h)
checked_iff (some u) perm none = ground (arith, has_permission_iff perm u.permissions)
checked_iff (some u) perm (some unauthenticated) = ground arith
checked_iff (some u) perm (some forbidden) = ground (arith, has_permission_iff perm u.permissions)

-- `MustPermission` answers `ErrUnauthenticated` if the context has no user. If it has one, it answers
-- nil exactly if the user's permissions grant the wanted one, and else `ErrForbidden`.
pub must_permission_iff :
    (ctx : Option Context) (perm : PermissionKey) (answer : Option AuthzError)
    → (must_permission ctx perm ≡ answer) ↔ Answers (from_context ctx) perm answer
unfolding must_permission
must_permission_iff ctx = checked_iff (from_context ctx)
