-- ===== src/Authorization/Assignments.antt =====
-- authorization_management_client.go: the roles of a user.
use vertex_sdk_go.Prelude.{
  not, ◌||◌, [], ◌++◌, length, Option, none, some, Result, ok, ◌>>=◌, ◌>>◌, reject, or_error,
}
use vertex_sdk_go.Prelude.Strings.{Bytes, bytes, str_eq}
use vertex_sdk_go.Portal.{PortalError, Client, Wire, Instants, State, Done}
use vertex_sdk_go.Portal.Request.{Answer, request_with_headers, request_with_scope}
use vertex_sdk_go.Authorization.{
  PageOptions, PageOf, invalid_response, page_value, page_query, validate_page_options,
  authorization_id, user_role_path, idempotency_header, if_match_header, strong_etag,
  validate_if_match, validate_page, received, each_value, each_checked, checked_then, with_result,
  no_output,
}
use vertex_sdk_go.Authorization.Roles.{zero_page}
use vertex_sdk_go.Authorization.Items.{
  UserRoleAssignment, UserRoleAssignmentWire, Page, assignment_value, validate_assignment_item,
  validate_assignment_for_user, CreateUserRoleRequest, UpdateUserRoleRequest, Codec,
}

abbrev pub zero_assignment : UserRoleAssignmentWire
zero_assignment = record {
  id = [];
  user_id = [];
  role_id = [];
  organization_id = none;
  condition_expression = none;
  condition_description = none;
  version = none;
  created_at = [];
  updated_at = [];
}

-- The path of one assignment of a user.
unfoldable pub assignment_path : Bytes → Bytes → Result PortalError Bytes
assignment_path user_id assignment_id = do
  path ← user_role_path user_id
  segment ← authorization_id assignment_id (bytes "assignment")
  ok (path ++ (bytes "/" ++ segment))

module _ (w : Wire) (c : Client) (k : Codec) where
  -- `value` and `assignmentWithETag`
  unfoldable pub assignment_of :
      Answer UserRoleAssignmentWire → Result PortalError UserRoleAssignment
  assignment_of a =
      let (raw, headers) = received zero_assignment a in
      do
        v ← assignment_value raw
        etag ← strong_etag headers
        validate_assignment_item k.parses_time (record v { etag = etag })
        ok (record v { etag = etag })

  -- `assignmentWithETagForCreate`
  unfoldable pub assignment_for_create :
      Bytes → Bytes → Answer UserRoleAssignmentWire → Result PortalError UserRoleAssignment
  assignment_for_create user_id role_id a = do
    v ← assignment_of a
    reject (not (str_eq v.user_id user_id) || not (str_eq v.role_id role_id)) invalid_response
    ok v

  -- `assignmentWithETagForUpdate`
  unfoldable pub assignment_for_update :
      Bytes → Bytes → Answer UserRoleAssignmentWire → Result PortalError UserRoleAssignment
  assignment_for_update user_id assignment_id a = do
    v ← assignment_of a
    reject (not (str_eq v.user_id user_id) || not (str_eq v.id assignment_id)) invalid_response
    ok v

  -- The page that `ListUserRoles` returns.
  unfoldable pub assignment_page :
      Bytes → Answer (PageOf UserRoleAssignmentWire) → Result PortalError (Page UserRoleAssignment)
  assignment_page user_id a =
      let (raw, headers) = received zero_page a in
      do
        items ← or_error raw.content invalid_response
        page ← page_value raw.page
        content ← each_value assignment_value items
        validate_page (length content) page
        each_checked (validate_assignment_for_user k.parses_time user_id) content
        ok (record { content = content; page = page })

  -- `ListUserRoles`
  unfoldable pub list_user_roles :
      Instants → Bytes → PageOptions → State → Done (Page UserRoleAssignment)
  list_user_roles t user_id o s =
      checked_then (validate_page_options o >> user_role_path user_id) s (λ path.
        with_result (assignment_page user_id) (
          request_with_scope w c (some k.decode_assignments) t (bytes "GET") (path ++ page_query o)
            (bytes "user_roles:read") none s))

  -- `CreateUserRole`
  unfoldable pub create_user_role :
      Instants → Bytes → CreateUserRoleRequest → Option Bytes → State → Done UserRoleAssignment
  create_user_role t user_id request options s =
      checked_then
        (do
          path ← user_role_path user_id
          segment ← authorization_id request.role_id (bytes "role")
          ok path)
        s
        (λ path. with_result (assignment_for_create user_id request.role_id) (
          request_with_headers w c (some k.decode_assignment) (idempotency_header options) t
            (bytes "POST") path (bytes "user_roles:write")
            (some (k.marshal_create_user_role request)) s))

  -- `UpdateUserRole`
  unfoldable pub update_user_role :
      Instants → Bytes → Bytes → UpdateUserRoleRequest → Bytes → State → Done UserRoleAssignment
  update_user_role t user_id assignment_id request if_match s =
      checked_then (validate_if_match if_match >> assignment_path user_id assignment_id) s (λ path.
        with_result (assignment_for_update user_id assignment_id) (
          request_with_headers w c (some k.decode_assignment) (if_match_header if_match) t
            (bytes "PATCH") path (bytes "user_roles:write")
            (some (k.marshal_update_user_role request)) s))

  -- `DeleteUserRole`
  unfoldable pub delete_user_role : Instants → Bytes → Bytes → Bytes → State → Done (Unit {0})
  delete_user_role t user_id assignment_id if_match s =
      checked_then (validate_if_match if_match >> assignment_path user_id assignment_id) s (λ path.
        with_result (λ a. ok tt)
          (request_with_headers w c no_output (if_match_header if_match) t (bytes "DELETE") path
            (bytes "user_roles:write") none s))
