-- ===== src/Authorization/Roles.antt =====
-- authorization_management_client.go: the operations on roles.
use vertex_sdk_go.Prelude.{
  not, [], ◌++◌, length, Option, none, some, Result, ok, ◌>>=◌, ◌>>◌, reject, or_error,
}
use vertex_sdk_go.Prelude.Strings.{Bytes, bytes, str_eq}
use vertex_sdk_go.Portal.{PortalError, Client, Wire, Instants, State, Done}
use vertex_sdk_go.Portal.Request.{Answer, request_with_headers, request_with_scope}
use vertex_sdk_go.Authorization.{
  PageOptions, PageOf, invalid_response, page_value, page_query, validate_page_options,
  authorization_path, idempotency_header, if_match_header, strong_etag, validate_if_match,
  validate_page, received, each_value, each_checked, checked_then, with_result, no_output,
}
use vertex_sdk_go.Authorization.Items.{
  Role, RoleWire, Page, role_value, validate_role_item, CreateRoleRequest, UpdateRoleRequest, Codec,
}

abbrev pub zero_role : RoleWire
zero_role = record {
  id = [];
  key = [];
  name = [];
  description = none;
  system = none;
  version = none;
  created_at = [];
  updated_at = [];
}

abbrev pub zero_page : {W : Type 0} → PageOf W
zero_page = record { content = none; page = none }

module _ (w : Wire) (c : Client) (k : Codec) where
  -- `value` and `roleWithETag`
  unfoldable pub role_of : Answer RoleWire → Result PortalError Role
  role_of a =
      let (raw, headers) = received zero_role a in
      do
        v ← role_value raw
        etag ← strong_etag headers
        validate_role_item k.parses_time (record v { etag = etag })
        ok (record v { etag = etag })

  -- `roleWithETagForID`
  unfoldable pub role_for_id : Bytes → Answer RoleWire → Result PortalError Role
  role_for_id id a = do v ← role_of a; reject (not (str_eq v.id id)) invalid_response; ok v

  -- The page that `ListRoles` returns.
  unfoldable pub role_page : Answer (PageOf RoleWire) → Result PortalError (Page Role)
  role_page a =
      let (raw, headers) = received zero_page a in
      do
        items ← or_error raw.content invalid_response
        page ← page_value raw.page
        content ← each_value role_value items
        validate_page (length content) page
        each_checked (validate_role_item k.parses_time) content
        ok (record { content = content; page = page })

  -- `ListRoles`
  unfoldable pub list_roles : Instants → PageOptions → State → Done (Page Role)
  list_roles t o s = checked_then (validate_page_options o) s (λ u. with_result role_page (
      request_with_scope w c (some k.decode_roles) t (bytes "GET")
        (bytes "/open/v1/roles" ++ page_query o) (bytes "roles:read") none s))

  -- `GetRole`
  unfoldable pub get_role : Instants → Bytes → State → Done Role
  get_role t id s = checked_then (authorization_path (bytes "roles") (bytes "role") id) s (λ path.
      with_result (role_for_id id) (
        request_with_headers w c (some k.decode_role) [] t (bytes "GET") path (bytes "roles:read")
          none s))

  -- `CreateRole`; `none` for options that are nil
  unfoldable pub create_role : Instants → CreateRoleRequest → Option Bytes → State → Done Role
  create_role t request options s = with_result role_of (
      request_with_headers w c (some k.decode_role) (idempotency_header options) t (bytes "POST")
        (bytes "/open/v1/roles") (bytes "roles:write") (some (k.marshal_create_role request)) s)

  -- `UpdateRole`
  unfoldable pub update_role : Instants → Bytes → UpdateRoleRequest → Bytes → State → Done Role
  update_role t id request if_match s =
      checked_then
        (validate_if_match if_match >> authorization_path (bytes "roles") (bytes "role") id) s
        (λ path. with_result (role_for_id id) (
          request_with_headers w c (some k.decode_role) (if_match_header if_match) t (bytes "PATCH")
            path (bytes "roles:write") (some (k.marshal_update_role request)) s))

  -- `DeleteRole`
  unfoldable pub delete_role : Instants → Bytes → Bytes → State → Done (Unit {0})
  delete_role t id if_match s =
      checked_then
        (validate_if_match if_match >> authorization_path (bytes "roles") (bytes "role") id) s
        (λ path.
          with_result (λ a. ok tt)
            (request_with_headers w c no_output (if_match_header if_match) t (bytes "DELETE") path
              (bytes "roles:write") none s))
