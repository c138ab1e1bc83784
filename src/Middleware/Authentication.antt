-- ===== src/Middleware/Authentication.antt =====
-- What stands before a handler behind `Auth` and a guard, and the token of a header.
use mathlib.Core.Path.{subst}
use vertex_sdk_go.Prelude.{
  ℕ, ◌∙◌, ◌≡◌, ◌≢◌, ◌↔◌, refl, inl, inr, List, [], some, ok, arith, Result-cases, Bool-cases,
}
use vertex_sdk_go.Prelude.Strings.{Bytes, bytes, str_eq, str_eq_iff}
use vertex_sdk_go.Permission.{PermissionKey}
use vertex_sdk_go.Permission.Matching.{IsGranted}
use vertex_sdk_go.AuthContext.{Context, with_user, from_context}
use vertex_sdk_go.Verifier.{Claims}
use vertex_sdk_go.Middleware.{
  AuthConfig, Handler, bearer_token, user_of, resolve_client_id, auth, require_perm,
}
use vertex_sdk_go.Middleware.Guards.{Answer, served, plain, require_perm_iff}

module _ {G : Type 0} (cfg : AuthConfig (Claims G) Answer) where
  -- The request has a token, which the verifier accepts with the claims, and the resolver gives the
  -- permissions for the roles of the claims.
  pub record IsAuthenticated (header : Bytes) (claims : Claims G) (perms : List Bytes)
      : Type 0 where
    pub has_token : bearer_token header ≢ []
    pub verified : cfg.verify (bearer_token header) ≡ ok claims
    pub resolved : cfg.resolver (resolve_client_id cfg.client_id claims) claims.roles ≡ ok perms

  -- The answers of `Auth` itself are refusals, as those of its responder are.
  abbrev Refuses : Type 0
  Refuses =
      (status : ℕ) (code message : Bytes) (ctx : Context)
      → cfg.responder status code message ≢ served ctx

  module _ (refuses : Refuses) (next : Handler Answer) (header : Bytes) (ctx ctx' : Context) where
    auth-served :
        auth cfg next header ctx ≡ served ctx'
        → (claims : Claims G) × (perms : List Bytes) × IsAuthenticated header claims perms
          × (next (with_user (some (user_of claims perms)) ctx) ≡ served ctx')
    unfolding auth
    auth-served h = elim (Bool-cases (str_eq (bearer_token header) [])) [
      | inl e ↦ absurd (refuses _ _ _ ctx' (rw e at h))
      | inr e ↦ elim (Result-cases (cfg.verify (bearer_token header))) [
        | inr (er, f) ↦ absurd (refuses _ _ _ ctx' (rw (e, f) at h))
        | inl (claims, f) ↦
            elim (Result-cases
              (cfg.resolver (resolve_client_id cfg.client_id claims) claims.roles)) [
                | inr (er, g) ↦ absurd (refuses 403 (bytes "FORBIDDEN") er ctx' (ground arith))
                | inl (perms, g) ↦ (
                  claims,
                  perms,
                  record {
                    has_token = λ k. ground (arith, str_eq_iff (bearer_token header) []);
                    verified = f;
                    resolved = g;
                  },
                  ground arith,
                )
              ]
      ]
    ]

    auth_of_authenticated :
        (claims : Claims G) (perms : List Bytes)
        → IsAuthenticated header claims perms
        → auth cfg next header ctx ≡ next (with_user (some (user_of claims perms)) ctx)
    unfolding auth
    auth_of_authenticated claims perms a = ground (arith, str_eq_iff (bearer_token header) [])

  -- Behind `Auth` and `RequirePerm`, a handler is called exactly if the request has a token that the
  -- verifier accepts, the resolver gives permissions for the roles of its claims, and one of them
  -- covers the required permission. The handler's context then has the user of these claims and
  -- permissions. It supposes that the responder of `Auth` does not call the handler.
  pub auth-require_perm_iff :
      (refuses : Refuses) (perm : PermissionKey) (header : Bytes) (ctx ctx' : Context)
      → (auth cfg (require_perm plain perm served) header ctx ≡ served ctx') ↔ (
          (claims : Claims G) × (perms : List Bytes) × IsAuthenticated header claims perms
          × IsGranted perms perm
          × (ctx' ≡ with_user (some (user_of claims perms)) ctx))
  unfolding user_of from_context
  auth-require_perm_iff refuses perm header ctx ctx' = (
    λ h.
        let (claims, perms, a, g) =
          auth-served refuses (require_perm plain perm served) header ctx ctx' h in
        let (same, (u, found, granted)) = (require_perm_iff perm _ ctx').0 g in
        let who : u ≡ user_of claims perms = cc in
        (claims, perms, a, subst (λ v. IsGranted v.permissions perm) who granted, same),
    λ (claims, perms, a, granted, same).
        auth_of_authenticated refuses (require_perm plain perm served) header ctx ctx' claims perms
          a
        ∙ (require_perm_iff perm _ ctx').1 (same, (user_of claims perms, refl, granted)),
  )
