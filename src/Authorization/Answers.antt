-- ===== src/Authorization/Answers.antt =====
-- What an operation on roles, permissions or assignments returns is what it asked for.
use mathlib.Core.Path.{subst}
use vertex_sdk_go.Prelude.{
  ◌≡◌, sym, ◌∙◌, true, not, List, ◌++◌, some, ok, ◌>>=◌, ◌>>◌, >>=-eq-ok, reject,
}
use vertex_sdk_go.Prelude.Strings.{Bytes, bytes, str_eq}
use vertex_sdk_go.Prelude.Shapes.{is_strong_etag}
use vertex_sdk_go.Portal.{Client, Wire, State, Instants}
use vertex_sdk_go.Portal.Request.{Answer}
use vertex_sdk_go.Portal.Request.Behaviour.{Succeeds, request_with_headers-Succeeds}
use vertex_sdk_go.Authorization.{
  invalid_response, authorization_path, if_match_header, strong_etag, validate_if_match, received,
}
use vertex_sdk_go.Authorization.Items.{
  Role, RoleWire, Permission, PermissionWire, RolePermissionSet, RolePermissionSetWire, role_value,
  permission_value, permission_set_value, validate_role_item, validate_permission_item,
  validate_set_for_role, UpdateRoleRequest, Codec,
}
use vertex_sdk_go.Authorization.Roles.{zero_role, role_of, role_for_id, update_role}
use vertex_sdk_go.Authorization.Permissions.{zero_permission, permission_of}
use vertex_sdk_go.Authorization.Bindings.{
  zero_set, permission_set_of, check_permission_ids, replace_role_permissions,
}
use vertex_sdk_go.Authorization.Returned.{
  checked_then-ok, with_result-ok, authorization_path-ok, strong_etag-ok, validate_if_match-ok,
  same_text,
}
use vertex_sdk_go.Authorization.Valid.{
  IsRole, validate_role_item-IsRole, IsPermission, validate_permission_item-IsPermission,
  IsPermissionSet, validate_set_for_role-IsPermissionSet,
}

abbrev pub IsStrong : Bytes → Type 0
IsStrong etag = is_strong_etag etag ≡ true

module _ (w : Wire) (c : Client) (k : Codec) where
  role_of-IsRole :
      (a : Answer RoleWire) (r : Role)
      → role_of w c k a ≡ ok r
      → IsRole k.parses_time r × IsStrong r.etag
  unfolding role_of
  role_of-IsRole a r h =
      let (v, h₁, h₂) = >>=-eq-ok (role_value (received zero_role a).0) _ h in
      let (etag, h₃, h₄) = >>=-eq-ok (strong_etag (received zero_role a).1) _ h₂ in
      let (u, h₅, h₆) =
        >>=-eq-ok (validate_role_item k.parses_time (record v { etag = etag })) _ h₄ in
      let first : Role = record v { etag = etag } in
      let same : first ≡ r = cc in
      (
        subst (IsRole k.parses_time) same (validate_role_item-IsRole k.parses_time first u h₅),
        subst (λ x. IsStrong x.etag) same (strong_etag-ok (received zero_role a).1 etag h₃),
      )

  role_for_id-IsRole :
      (id : Bytes) (a : Answer RoleWire) (r : Role)
      → role_for_id w c k id a ≡ ok r
      → IsRole k.parses_time r × IsStrong r.etag × (r.id ≡ id)
  unfolding role_for_id
  role_for_id-IsRole id a r h =
      let (v, h₁, h₂) = >>=-eq-ok (role_of w c k a) _ h in
      let (u, h₃, h₄) = >>=-eq-ok (reject (not (str_eq v.id id)) invalid_response) _ h₂ in
      let same : v ≡ r = cc in
      let (x, y) = role_of-IsRole a v h₁ in
      subst (λ q. IsRole k.parses_time q × IsStrong q.etag × (q.id ≡ id)) same
        (x, y, same_text v.id id u h₃)

  -- A role that UpdateRole returns has a canonical UUID, a key, a name, timestamps and a strong ETag; its ID
  -- is the one asked for; and the last request was a PATCH of that role with the token for roles:write and
  -- the caller's strong ETag as If-Match. In particular no ID with a capital letter succeeds.
  pub update_role-IsAnswer :
      (t : Instants) (id if_match : Bytes) (request : UpdateRoleRequest) (s s' : State) (r : Role)
      → update_role w c k t id request if_match s ≡ (ok r, s')
      → IsRole k.parses_time r
        × IsStrong r.etag
        × (r.id ≡ id)
        × IsStrong if_match
        × Succeeds w c
            (if_match_header if_match)
            t
            (bytes "PATCH")
            (bytes "/open/v1/roles/" ++ id)
            (bytes "roles:write")
            (some (k.marshal_update_role request))
            s
            s'
  unfolding update_role
  update_role-IsAnswer t id if_match request s s' r h =
      let (path, h₁, h₂) =
        checked_then-ok
          (validate_if_match if_match >> authorization_path (bytes "roles") (bytes "role") id) s _ r
          s' h in
      let (u, h₃, h₄) = >>=-eq-ok (validate_if_match if_match) _ h₁ in
      let (e, at) = authorization_path-ok (bytes "roles") (bytes "role") id path h₄ in
      let (a, h₅, h₆) = with_result-ok (role_for_id w c k id) _ r s' h₂ in
      let (x, y, z) = role_for_id-IsRole id a r h₆ in
      (
        x,
        y,
        z,
        validate_if_match-ok if_match u h₃,
        subst
            (λ p.
              Succeeds w c (if_match_header if_match) t (bytes "PATCH") p (bytes "roles:write")
                (some (k.marshal_update_role request)) s s')
            at
            (request_with_headers-Succeeds w c (some k.decode_role) (if_match_header if_match) a.0
              a.1 s' t (bytes "PATCH") path (bytes "roles:write")
              (some (k.marshal_update_role request)) s h₅),
      )

  permission_of-IsPermission :
      (a : Answer PermissionWire) (r : Permission)
      → permission_of w c k a ≡ ok r
      → IsPermission k.parses_time r × IsStrong r.etag
  unfolding permission_of
  permission_of-IsPermission a r h =
      let (v, h₁, h₂) = >>=-eq-ok (permission_value (received zero_permission a).0) _ h in
      let (etag, h₃, h₄) = >>=-eq-ok (strong_etag (received zero_permission a).1) _ h₂ in
      let (u, h₅, h₆) =
        >>=-eq-ok (validate_permission_item k.parses_time (record v { etag = etag })) _ h₄ in
      let first : Permission = record v { etag = etag } in
      let same : first ≡ r = cc in
      (
        subst (IsPermission k.parses_time) same
            (validate_permission_item-IsPermission k.parses_time first u h₅),
        subst (λ x. IsStrong x.etag) same (strong_etag-ok (received zero_permission a).1 etag h₃),
      )

  set_of-IsPermissionSet :
      (role_id : Bytes) (a : Answer RolePermissionSetWire) (r : RolePermissionSet)
      → permission_set_of w c k role_id a ≡ ok r
      → IsPermissionSet role_id r × IsStrong r.etag
  unfolding permission_set_of
  set_of-IsPermissionSet role_id a r h =
      let (v, h₁, h₂) = >>=-eq-ok (permission_set_value (received zero_set a).0) _ h in
      let (etag, h₃, h₄) = >>=-eq-ok (strong_etag (received zero_set a).1) _ h₂ in
      let (u, h₅, h₆) = >>=-eq-ok (validate_set_for_role role_id (record v { etag = etag })) _ h₄ in
      let first : RolePermissionSet = record v { etag = etag } in
      let same : first ≡ r = cc in
      (
        subst (IsPermissionSet role_id) same
            (validate_set_for_role-IsPermissionSet role_id first u h₅),
        subst (λ x. IsStrong x.etag) same (strong_etag-ok (received zero_set a).1 etag h₃),
      )

  -- What ReplaceRolePermissions returns is a set of canonical IDs for the role asked for, with a strong ETag,
  -- and the last request was a PUT of the caller's IDs to that role, with the caller's strong ETag as
  -- If-Match.
  pub replace_role_permissions-IsAnswer :
      (t : Instants) (role_id if_match : Bytes) (ids : List Bytes) (s s' : State)
      (r : RolePermissionSet)
      → replace_role_permissions w c k t role_id ids if_match s ≡ (ok r, s')
      → IsPermissionSet role_id r
        × IsStrong r.etag
        × IsStrong if_match
        × Succeeds w c
            (if_match_header if_match)
            t
            (bytes "PUT")
            ((bytes "/open/v1/roles/" ++ role_id) ++ bytes "/permissions")
            (bytes "role_permissions:write")
            (some (k.marshal_permission_ids ids))
            s
            s'
  unfolding replace_role_permissions
  replace_role_permissions-IsAnswer t role_id if_match ids s s' r h =
      let (path, h₁, h₂) =
        checked_then-ok
          (do
            validate_if_match if_match
            p ← authorization_path (bytes "roles") (bytes "role") role_id
            check_permission_ids ids
            ok p)
          s _ r s' h in
      let (u, h₃, h₄) = >>=-eq-ok (validate_if_match if_match) _ h₁ in
      let (p, h₅, h₆) =
        >>=-eq-ok (authorization_path (bytes "roles") (bytes "role") role_id) _ h₄ in
      let (v, h₇, h₈) = >>=-eq-ok (check_permission_ids ids) _ h₆ in
      let (e, at) = authorization_path-ok (bytes "roles") (bytes "role") role_id p h₅ in
      let (a, h₉, h₁₀) = with_result-ok (permission_set_of w c k role_id) _ r s' h₂ in
      let (x, y) = set_of-IsPermissionSet role_id a r h₁₀ in
      let same : p ≡ path = cc in
      (
        x,
        y,
        validate_if_match-ok if_match u h₃,
        subst
            (λ q.
              Succeeds w c (if_match_header if_match) t (bytes "PUT") (q ++ bytes "/permissions")
                (bytes "role_permissions:write") (some (k.marshal_permission_ids ids)) s s')
            (sym same ∙ at)
            (request_with_headers-Succeeds w c (some k.decode_permission_set)
              (if_match_header if_match) a.0 a.1 s' t (bytes "PUT") (path ++ bytes "/permissions")
              (bytes "role_permissions:write") (some (k.marshal_permission_ids ids)) s h₉),
      )
