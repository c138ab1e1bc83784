-- ===== src/Authorization/Permissions.antt =====
-- authorization_management_client.go: the operations on permissions.
use vertex_sdk_go.Prelude.{
  not, [], ◌++◌, length, Option, none, some, Result, ok, ◌>>=◌, ◌>>◌, reject, or_error,
}
use vertex_sdk_go.Prelude.Strings.{Bytes, bytes, str_eq}
use vertex_sdk_go.Portal.{PortalError, Client, Wire, Instants, State, Done}
use vertex_sdk_go.Portal.Request.{Answer, request_with_headers, request_with_scope}
use vertex_sdk_go.Authorization.{
  PageOptions, PageOf, invalid_response, page_value, page_query, validate_page_options,
  authorization_path, idempotency_header, if_match_header, strong_etag, validate_if_match,
  validate_page, received, each_value, each_checked, checked_then, with_result, no_output,
}
use vertex_sdk_go.Authorization.Roles.{zero_page}
use vertex_sdk_go.Authorization.Items.{
  Permission, PermissionWire, Page, permission_value, validate_permission_grant,
  validate_permission_item, CreatePermissionRequest, UpdatePermissionRequest, Codec,
}

abbrev pub zero_permission : PermissionWire
zero_permission = record {
  id = [];
  resource = [];
  action = [];
  key = [];
  name = [];
  description = none;
  source = [];
  version = none;
  created_at = [];
  updated_at = [];
}

module _ (w : Wire) (c : Client) (k : Codec) where
  -- `value` and `permissionWithETag`
  unfoldable pub permission_of : Answer PermissionWire → Result PortalError Permission
  permission_of a =
      let (raw, headers) = received zero_permission a in
      do
        v ← permission_value raw
        etag ← strong_etag headers
        validate_permission_item k.parses_time (record v { etag = etag })
        ok (record v { etag = etag })

  -- `permissionWithETagForID`
  unfoldable pub permission_for_id : Bytes → Answer PermissionWire → Result PortalError Permission
  permission_for_id id a = do
    v ← permission_of a
    reject (not (str_eq v.id id)) invalid_response
    ok v

  -- The page that `ListPermissions` returns, with `validatePermissionPage`.
  unfoldable pub permission_page :
      Answer (PageOf PermissionWire) → Result PortalError (Page Permission)
  permission_page a =
      let (raw, headers) = received zero_page a in
      do
        items ← or_error raw.content invalid_response
        page ← page_value raw.page
        content ← each_value permission_value items
        validate_page (length content) page
        each_checked (validate_permission_item k.parses_time) content
        ok (record { content = content; page = page })

  -- `ListPermissions`
  unfoldable pub list_permissions : Instants → PageOptions → State → Done (Page Permission)
  list_permissions t o s = checked_then (validate_page_options o) s (λ u.
      with_result permission_page (
        request_with_scope w c (some k.decode_permissions) t (bytes "GET")
          (bytes "/open/v1/permissions" ++ page_query o) (bytes "permissions:read") none s))

  -- `GetPermission`
  unfoldable pub get_permission : Instants → Bytes → State → Done Permission
  get_permission t id s =
      checked_then (authorization_path (bytes "permissions") (bytes "permission") id) s (λ path.
        with_result (permission_for_id id) (
          request_with_headers w c (some k.decode_permission) [] t (bytes "GET") path
            (bytes "permissions:read") none s))

  -- `CreatePermission`
  unfoldable pub create_permission :
      Instants → CreatePermissionRequest → Option Bytes → State → Done Permission
  create_permission t request options s =
      checked_then (validate_permission_grant request.resource request.action) s (λ u.
        with_result permission_of (
          request_with_headers w c (some k.decode_permission) (idempotency_header options) t
            (bytes "POST") (bytes "/open/v1/permissions") (bytes "permissions:write")
            (some (k.marshal_create_permission request)) s))

  -- `UpdatePermission`
  unfoldable pub update_permission :
      Instants → Bytes → UpdatePermissionRequest → Bytes → State → Done Permission
  update_permission t id request if_match s =
      checked_then
        (validate_if_match if_match
          >> authorization_path (bytes "permissions") (bytes "permission") id)
        s
        (λ path. with_result (permission_for_id id) (
          request_with_headers w c (some k.decode_permission) (if_match_header if_match) t
            (bytes "PATCH") path (bytes "permissions:write")
            (some (k.marshal_update_permission request)) s))

  -- `DeletePermission`
  unfoldable pub delete_permission : Instants → Bytes → Bytes → State → Done (Unit {0})
  delete_permission t id if_match s =
      checked_then
        (validate_if_match if_match
          >> authorization_path (bytes "permissions") (bytes "permission") id)
        s
        (λ path.
          with_result (λ a. ok tt)
            (request_with_headers w c no_output (if_match_header if_match) t (bytes "DELETE") path
              (bytes "permissions:write") none s))
