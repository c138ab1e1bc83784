-- ===== src/Middleware/Guards.antt =====
-- Which requests the guards let through.
use mathlib.Core.Path.{subst}
use vertex_sdk_go.Prelude.{
  ℕ, ◌≡◌, ◌≢◌, ◌↔◌, inl, inr, Bool, true, not, List, [], some, arith, All, Any, Option-cases,
}
use vertex_sdk_go.Prelude.Strings.{Bytes, str_eq_iff}
use vertex_sdk_go.Permission.{PermissionKey}
use vertex_sdk_go.Permission.Matching.{
  IsGranted, has_permission_iff, has_any_permission_iff, has_all_permissions_iff,
}
use vertex_sdk_go.AuthContext.{Actor, User, Context, from_context, is_impersonating}
use vertex_sdk_go.Middleware.{
  Options, guard, require_perm, require_any_perm, require_all_perms, require_step_up,
  require_no_impersonation,
}

-- The answer of a handler: an error, or the context with which the guarded handler was called.
pub data Answer : Type 0 where
  refused : ℕ → Bytes → Bytes → Answer
  served : Context → Answer

abbrev pub plain : Options Answer
plain = record { responder = refused }

-- The guarded handler was called, with the request's own context, for a user of this kind.
abbrev pub ServedFor : (User → Type 0) → Context → Context → Type 0
ServedFor P ctx ctx' = (ctx' ≡ ctx) × ((u : User) × (from_context (some ctx) ≡ some u) × P u)

module _ (test : User → Bool) (code message : Bytes) (ctx ctx' : Context) where
  guard_iff :
      (P : User → Type 0)
      → ((u : User) → (test u ≡ true) ↔ P u)
      → (guard plain test code message served ctx ≡ served ctx') ↔ ServedFor P ctx ctx'
  unfolding guard
  guard_iff P iff = elim (Option-cases (from_context (some ctx))) [
    | inl e ↦ (λ h. absurd (ground arith), λ (same, (u, found, holds)). absurd (cc))
    | inr (u, e) ↦ (
      λ h. (ground arith, (u, e, (iff u).0 (ground arith))),
      λ (same, (v, found, holds)).
          let who : v ≡ u = cc in
          let p : test u ≡ true = (iff u).1 (subst P who holds) in ground arith,
    )
  ]

-- `RequirePerm` calls the guarded handler, with the request's own context, exactly if the context
-- has a user and one of the user's permissions covers the required one, which is concrete.
pub require_perm_iff :
    (perm : PermissionKey) (ctx ctx' : Context)
    → (require_perm plain perm served ctx ≡ served ctx')
      ↔ ServedFor (λ u. IsGranted u.permissions perm) ctx ctx'
unfolding require_perm
require_perm_iff perm ctx ctx' =
    guard_iff _ _ _ ctx ctx' _ (λ u. has_permission_iff perm u.permissions)

-- `RequireAnyPerm` calls the guarded handler exactly if the context has a user and one of the
-- required permissions is concrete and covered by one of the user's.
pub require_any_perm_iff :
    (perms : List PermissionKey) (ctx ctx' : Context)
    → (require_any_perm plain perms served ctx ≡ served ctx')
      ↔ ServedFor (λ u. Any (IsGranted u.permissions) perms) ctx ctx'
unfolding require_any_perm
require_any_perm_iff perms ctx ctx' =
    guard_iff _ _ _ ctx ctx' _ (λ u. has_any_permission_iff perms u.permissions)

-- `RequireAllPerms` calls the guarded handler exactly if the context has a user, some permission is
-- required, and each one is concrete and covered by one of the user's.
pub require_all_perms_iff :
    (perms : List PermissionKey) (ctx ctx' : Context)
    → (require_all_perms plain perms served ctx ≡ served ctx')
      ↔ ServedFor (λ u. (perms ≢ []) × All (IsGranted u.permissions) perms) ctx ctx'
unfolding require_all_perms
require_all_perms_iff perms ctx ctx' =
    guard_iff _ _ _ ctx ctx' _ (λ u. has_all_permissions_iff perms u.permissions)

-- `RequireStepUp` calls the guarded handler exactly if the context has a user with the required
-- authentication class.
pub require_step_up_iff :
    (acr : Bytes) (ctx ctx' : Context)
    → (require_step_up plain acr served ctx ≡ served ctx') ↔ ServedFor (λ u. u.acr ≡ acr) ctx ctx'
unfolding require_step_up
require_step_up_iff acr ctx ctx' = guard_iff _ _ _ ctx ctx' _ (λ u. str_eq_iff u.acr acr)

-- The user acts for itself: there is no actor, or one without a name.
abbrev pub ActsForItself : User → Type 0
ActsForItself u = (a : Actor) → u.actor ≡ some a → a.subject ≡ []

not_impersonating_iff : (u : User) → (not (is_impersonating (some u)) ≡ true) ↔ ActsForItself u
unfolding is_impersonating
not_impersonating_iff u = elim (Option-cases u.actor) [
  | inl e ↦ (λ h a f. absurd (cc), λ h. ground arith)
  | inr (a, e) ↦ (
    λ h b f. ground (arith, str_eq_iff b.subject []),
    λ h. ground (arith, str_eq_iff a.subject [], h a),
  )
]

-- `RequireNoImpersonation` calls the guarded handler exactly if the context has a user that acts for
-- itself.
pub require_no_impersonation_iff :
    (ctx ctx' : Context)
    → (require_no_impersonation plain served ctx ≡ served ctx') ↔ ServedFor ActsForItself ctx ctx'
unfolding require_no_impersonation
require_no_impersonation_iff ctx ctx' = guard_iff _ _ _ ctx ctx' _ not_impersonating_iff

-- Each guard calls the guarded handler, with the request's own context, exactly if the context has a user who
-- passes: `RequirePerm` one of whose permissions covers the required one; `RequireAnyPerm` for whom that
-- holds of some required one; `RequireAllPerms` of every one, and some permission is required;
-- `RequireStepUp` with the required authentication class; `RequireNoImpersonation` one who acts for itself.
pub guards_iff :
    (perm : PermissionKey) (perms : List PermissionKey) (acr : Bytes) (ctx ctx' : Context)
    → ((require_perm plain perm served ctx ≡ served ctx')
        ↔ ServedFor (λ u. IsGranted u.permissions perm) ctx ctx')
      × ((require_any_perm plain perms served ctx ≡ served ctx')
          ↔ ServedFor (λ u. Any (IsGranted u.permissions) perms) ctx ctx')
      × ((require_all_perms plain perms served ctx ≡ served ctx')
          ↔ ServedFor (λ u. (perms ≢ []) × All (IsGranted u.permissions) perms) ctx ctx')
      × ((require_step_up plain acr served ctx ≡ served ctx')
          ↔ ServedFor (λ u. u.acr ≡ acr) ctx ctx')
      × ((require_no_impersonation plain served ctx ≡ served ctx')
          ↔ ServedFor ActsForItself ctx ctx')
guards_iff perm perms acr ctx ctx' = (
  require_perm_iff perm ctx ctx',
  require_any_perm_iff perms ctx ctx',
  require_all_perms_iff perms ctx ctx',
  require_step_up_iff acr ctx ctx',
  require_no_impersonation_iff ctx ctx',
)
