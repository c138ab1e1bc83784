-- ===== src/Adapters/Agreement.antt =====
-- The adapters' guards against those of the package middleware.
use vertex_sdk_go.Prelude.{
  ◌≡◌, refl, inl, inr, List, ◌++◌, some, arith, Option-cases, ◌==◌, if◌then◌else◌,
}
use vertex_sdk_go.Prelude.Strings.{Bytes, bytes}
use vertex_sdk_go.Permission.{PermissionKey}
use vertex_sdk_go.AuthContext.{Context, from_context}
use vertex_sdk_go.Middleware.{
  ErrorResponder, Handler, Options, guard, require_perm, require_any_perm, require_all_perms,
  require_step_up, require_no_impersonation,
}
use vertex_sdk_go.Adapters.{
  adapter_require_perm, refuse_unless, adapter_require_any_perm, adapter_require_all_perms,
  adapter_require_step_up, adapter_require_no_impersonation,
}

module _ {R : Type 0} (respond : ErrorResponder R) (next : Handler R) (ctx : Context) where
  -- The adapters' `RequirePerm` answers every request as that of the package middleware does.
  pub require_perm_agrees :
      (perm : PermissionKey)
      → adapter_require_perm respond next perm ctx
        ≡ require_perm (record { responder = respond }) perm next ctx
  unfolding adapter_require_perm require_perm
  require_perm_agrees perm = ground arith

  -- A responder that answers 403 with this code and message in place of 401.
  abbrev pub forbidding : Bytes → Bytes → ErrorResponder R
  forbidding code message status c m =
      if status == 401 then respond 403 code message else respond status c m

  -- Each of the other four guards of an adapter answers every request as the guard of the package
  -- middleware does with a responder that puts 403, with the guard's own code and message, in the
  -- place of 401.
  pub guards_agree_but_401 :
      (perms : List PermissionKey) (acr : Bytes)
      → let as_package : Bytes → Bytes → Options R =
          λ code message. record { responder = forbidding code message } in
        (adapter_require_any_perm respond next perms ctx
          ≡ require_any_perm
              (as_package (bytes "FORBIDDEN") (bytes "missing any of required permissions"))
              perms
              next
              ctx)
        × (adapter_require_all_perms respond next perms ctx
            ≡ require_all_perms
                (as_package (bytes "FORBIDDEN") (bytes "missing required permissions"))
                perms
                next
                ctx)
        × (adapter_require_step_up respond next acr ctx
            ≡ require_step_up
                (as_package (bytes "STEP_UP_REQUIRED") (bytes "acr " ++ (acr ++ bytes " required")))
                acr
                next
                ctx)
        × (adapter_require_no_impersonation respond next ctx
            ≡ require_no_impersonation
                (as_package
                  (bytes "FORBIDDEN")
                  (bytes "impersonated sessions may not perform this action"))
                next
                ctx)
  unfolding adapter_require_any_perm adapter_require_all_perms adapter_require_step_up
      adapter_require_no_impersonation require_any_perm require_all_perms require_step_up
      require_no_impersonation
  guards_agree_but_401 perms acr = elim (Option-cases (from_context (some ctx))) [
    | inl e ↦ (
      rw (e, refuse_unless, guard) refl,
      rw (e, refuse_unless, guard) refl,
      rw (e, refuse_unless, guard) refl,
      rw (e, refuse_unless, guard) refl,
    )
    | inr (u, e) ↦ (
      rw (e, refuse_unless, guard) refl,
      rw (e, refuse_unless, guard) refl,
      rw (e, refuse_unless, guard) refl,
      rw (e, refuse_unless, guard) refl,
    )
  ]
