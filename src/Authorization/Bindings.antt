-- ===== src/Authorization/Bindings.antt =====
-- authorization_management_client.go: the permissions of a role.
use vertex_sdk_go.Prelude.{
  List, [], ◌∷◌, ◌++◌, length, none, some, Result, ok, ◌>>=◌, ◌>>◌, or_error,
}
use vertex_sdk_go.Prelude.Strings.{Bytes, bytes}
use vertex_sdk_go.Portal.{PortalError, Client, Wire, Instants, State, Done}
use vertex_sdk_go.Portal.Request.{Answer, request_with_headers}
use vertex_sdk_go.Authorization.{
  PageOptions, PageOf, invalid_response, page_value, page_query, validate_page_options,
  authorization_id, authorization_path, if_match_header, strong_etag, validate_if_match,
  validate_page, received, each_checked, checked_then, with_result,
}
use vertex_sdk_go.Authorization.Roles.{zero_page}
use vertex_sdk_go.Authorization.Items.{
  RolePermissionBinding, RolePermissionSet, RolePermissionSetWire, BindingPage,
  permission_set_value, validate_binding_for_role, validate_set_for_role, Codec,
}

abbrev pub zero_set : RolePermissionSetWire
zero_set = record { role_id = []; permission_ids = none; version = none }

-- `authorizationID` of each permission, up to the first error
unfoldable pub check_permission_ids : List Bytes → Result PortalError (Unit {0})
unfolding authorization_id
check_permission_ids [] = ok tt
check_permission_ids (id ∷ ids) =
    authorization_id id (bytes "permission") >>= λ s. check_permission_ids ids

module _ (w : Wire) (c : Client) (k : Codec) where
  -- The page that `ListRolePermissions` returns.
  unfoldable pub binding_page :
      Bytes → Answer (PageOf RolePermissionBinding) → Result PortalError BindingPage
  binding_page role_id a =
      let (raw, headers) = received zero_page a in
      do
        content ← or_error raw.content invalid_response
        page ← page_value raw.page
        etag ← strong_etag headers
        validate_page (length content) page
        each_checked (validate_binding_for_role k.parses_time role_id) content
        ok (record { content = content; page = page; etag = etag })

  -- `ListRolePermissions`
  unfoldable pub list_role_permissions : Instants → Bytes → PageOptions → State → Done BindingPage
  list_role_permissions t role_id o s =
      checked_then
        (validate_page_options o >> authorization_path (bytes "roles") (bytes "role") role_id) s
        (λ path. with_result (binding_page role_id) (
          request_with_headers w c (some k.decode_bindings) [] t (bytes "GET")
            (path ++ (bytes "/permissions" ++ page_query o)) (bytes "role_permissions:read") none
            s))

  -- What `ReplaceRolePermissions` makes of the answer.
  unfoldable pub permission_set_of :
      Bytes → Answer RolePermissionSetWire → Result PortalError RolePermissionSet
  permission_set_of role_id a =
      let (raw, headers) = received zero_set a in
      do
        v ← permission_set_value raw
        etag ← strong_etag headers
        validate_set_for_role role_id (record v { etag = etag })
        ok (record v { etag = etag })

  -- `ReplaceRolePermissions`
  unfoldable pub replace_role_permissions :
      Instants → Bytes → List Bytes → Bytes → State → Done RolePermissionSet
  replace_role_permissions t role_id permission_ids if_match s =
      checked_then
        (do
          validate_if_match if_match
          path ← authorization_path (bytes "roles") (bytes "role") role_id
          check_permission_ids permission_ids
          ok path)
        s
        (λ path. with_result (permission_set_of role_id) (
          request_with_headers w c (some k.decode_permission_set) (if_match_header if_match) t
            (bytes "PUT") (path ++ bytes "/permissions") (bytes "role_permissions:write")
            (some (k.marshal_permission_ids permission_ids)) s))
