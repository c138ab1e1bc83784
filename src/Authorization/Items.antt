-- ===== src/Authorization/Items.antt =====
-- authorization_management_client.go: roles, permissions, bindings and assignments, as they are decoded,
-- and their checks.
use vertex_sdk_go.Prelude.{
  ℕ, Bool, true, false, not, ◌&&◌, ◌||◌, List, [], ◌∷◌, ◌++◌, all, Option, none, some, Result, ok,
  err, ◌>>=◌, reject, or_error, leb, ◌==◌, if◌then◌else◌,
}
use vertex_sdk_go.Prelude.Int.{ℤ}
use vertex_sdk_go.Prelude.Strings.{Bytes, bytes, str_eq, class_match}
use vertex_sdk_go.Prelude.Utf8.{trim_space}
use vertex_sdk_go.Prelude.Formats.{is_digit}
use vertex_sdk_go.Prelude.Shapes.{is_canonical_uuid}
use vertex_sdk_go.Portal.{PortalError, portal_error}
use vertex_sdk_go.Portal.Request.{Decoder}
use vertex_sdk_go.Authorization.{PageMetadata, PageOf, invalid_response}

-- `Role`
pub record Role : Type 0 where
  pub id : Bytes
  pub key : Bytes
  pub name : Bytes
  pub description : Option Bytes
  pub system : Bool
  pub version : ℤ
  pub created_at : Bytes
  pub updated_at : Bytes
  pub etag : Bytes

-- `roleWire`
pub record RoleWire : Type 0 where
  pub id : Bytes
  pub key : Bytes
  pub name : Bytes
  pub description : Option Bytes
  pub system : Option Bool
  pub version : Option ℤ
  pub created_at : Bytes
  pub updated_at : Bytes

-- `Permission`
pub record Permission : Type 0 where
  pub id : Bytes
  pub resource : Bytes
  pub action : Bytes
  pub key : Bytes
  pub name : Bytes
  pub description : Option Bytes
  pub source : Bytes
  pub version : ℤ
  pub created_at : Bytes
  pub updated_at : Bytes
  pub etag : Bytes

-- `permissionWire`
pub record PermissionWire : Type 0 where
  pub id : Bytes
  pub resource : Bytes
  pub action : Bytes
  pub key : Bytes
  pub name : Bytes
  pub description : Option Bytes
  pub source : Bytes
  pub version : Option ℤ
  pub created_at : Bytes
  pub updated_at : Bytes

-- `RolePermissionBinding`
pub record RolePermissionBinding : Type 0 where
  pub role_id : Bytes
  pub permission_id : Bytes
  pub created_at : Bytes

-- `RolePermissionSet`; `none` for a list that is nil
pub record RolePermissionSet : Type 0 where
  pub role_id : Bytes
  pub permission_ids : Option (List Bytes)
  pub version : ℤ
  pub etag : Bytes

-- `rolePermissionSetWire`
pub record RolePermissionSetWire : Type 0 where
  pub role_id : Bytes
  pub permission_ids : Option (List Bytes)
  pub version : Option ℤ

-- `UserRoleAssignment`
pub record UserRoleAssignment : Type 0 where
  pub id : Bytes
  pub user_id : Bytes
  pub role_id : Bytes
  pub organization_id : Option Bytes
  pub condition_expression : Option Bytes
  pub condition_description : Option Bytes
  pub version : ℤ
  pub created_at : Bytes
  pub updated_at : Bytes
  pub etag : Bytes

-- `userRoleAssignmentWire`
pub record UserRoleAssignmentWire : Type 0 where
  pub id : Bytes
  pub user_id : Bytes
  pub role_id : Bytes
  pub organization_id : Option Bytes
  pub condition_expression : Option Bytes
  pub condition_description : Option Bytes
  pub version : Option ℤ
  pub created_at : Bytes
  pub updated_at : Bytes

-- A page of items: `RolePage`, `PermissionPage`, `UserRoleAssignmentPage`
pub record Page (V : Type 0) : Type 0 where
  pub content : List V
  pub page : PageMetadata

-- `RolePermissionBindingPage`
pub record BindingPage : Type 0 where
  pub content : List RolePermissionBinding
  pub page : PageMetadata
  pub etag : Bytes

-- `value` of `roleWire`
unfoldable pub role_value : RoleWire → Result PortalError Role
role_value v = do
  system ← or_error v.system invalid_response
  version ← or_error v.version invalid_response
  ok (record {
    id = v.id;
    key = v.key;
    name = v.name;
    description = v.description;
    system = system;
    version = version;
    created_at = v.created_at;
    updated_at = v.updated_at;
    etag = [];
  })

-- `value` of `permissionWire`
unfoldable pub permission_value : PermissionWire → Result PortalError Permission
permission_value v = do
  version ← or_error v.version invalid_response
  ok (record {
    id = v.id;
    resource = v.resource;
    action = v.action;
    key = v.key;
    name = v.name;
    description = v.description;
    source = v.source;
    version = version;
    created_at = v.created_at;
    updated_at = v.updated_at;
    etag = [];
  })

-- `value` of `rolePermissionSetWire`
unfoldable pub permission_set_value : RolePermissionSetWire → Result PortalError RolePermissionSet
permission_set_value v = do
  version ← or_error v.version invalid_response
  ok (record {
    role_id = v.role_id;
    permission_ids = v.permission_ids;
    version = version;
    etag = [];
  })

-- `value` of `userRoleAssignmentWire`
unfoldable pub assignment_value : UserRoleAssignmentWire → Result PortalError UserRoleAssignment
assignment_value v = do
  version ← or_error v.version invalid_response
  ok (record {
    id = v.id;
    user_id = v.user_id;
    role_id = v.role_id;
    organization_id = v.organization_id;
    condition_expression = v.condition_expression;
    condition_description = v.condition_description;
    version = version;
    created_at = v.created_at;
    updated_at = v.updated_at;
    etag = [];
  })

is_grant_byte : ℕ → Bool
unfolding is_digit
is_grant_byte b = leb b'a' b && leb b b'z' || is_digit b || b == b'_' || b == b'-'

-- `permissionGrantSegment`
is_grant_segment : Bytes → Bool
unfolding class_match is_grant_byte
is_grant_segment s = str_eq s (bytes "*") || class_match is_grant_byte 1 128 s

-- `validatePermissionGrant`
unfoldable pub validate_permission_grant : Bytes → Bytes → Result PortalError (Unit {0})
unfolding is_grant_segment
validate_permission_grant resource action =
    reject
      (not (is_grant_segment resource)
        || not (is_grant_segment action)
        || str_eq resource (bytes "*") && not (str_eq action (bytes "*")))
      (portal_error 0 (bytes "invalid_permission_key") [] [])

-- `strings.HasSuffix(value, "Z")`
ends_in_z : Bytes → Bool
ends_in_z [] = false
ends_in_z (b ∷ []) = b == b'Z'
ends_in_z (b ∷ s) = ends_in_z s

abbrev pub fails : Result PortalError (Unit {0}) → Bool
fails (ok u) = false
fails (err e) = true

unfoldable pub blank : Bytes → Bool
unfolding trim_space
blank s = str_eq (trim_space s) []

-- `v != nil && !pattern.MatchString(*v)`
unfoldable pub bad_optional_uuid : Option Bytes → Bool
bad_optional_uuid none = false
bad_optional_uuid (some s) = not (is_canonical_uuid s)

-- `parses_time` is `time.Parse` of RFC 3339 with nanoseconds, as far as it succeeds.
module _ (parses_time : Bytes → Bool) where
  -- `validAuthorizationTimestamp`
  unfoldable pub is_timestamp : Bytes → Bool
  unfolding ends_in_z
  is_timestamp value = if not (ends_in_z value) then false else parses_time value

  -- `validateRoleItem`
  unfoldable pub validate_role_item : Role → Result PortalError (Unit {0})
  unfolding blank
  validate_role_item v =
      reject
        (not (is_canonical_uuid v.id)
          || blank v.key
          || blank v.name
          || not (is_timestamp v.created_at)
          || not (is_timestamp v.updated_at))
        invalid_response

  -- `validatePermissionItem`
  unfoldable pub validate_permission_item : Permission → Result PortalError (Unit {0})
  unfolding blank
  validate_permission_item v =
      reject
        (not (is_canonical_uuid v.id)
          || fails (validate_permission_grant v.resource v.action)
          || not (str_eq v.key (v.resource ++ (bytes ":" ++ v.action)))
          || blank v.name
          || not (str_eq v.source (bytes "CODE")) && not (str_eq v.source (bytes "MANUAL"))
          || not (is_timestamp v.created_at)
          || not (is_timestamp v.updated_at))
        invalid_response

  -- `validateRolePermissionBindingItem`
  unfoldable pub validate_binding_item : RolePermissionBinding → Result PortalError (Unit {0})
  validate_binding_item v =
      reject
        (not (is_canonical_uuid v.role_id)
          || not (is_canonical_uuid v.permission_id)
          || not (is_timestamp v.created_at))
        invalid_response

  -- `validateRolePermissionBindingForRole`
  unfoldable pub validate_binding_for_role :
      Bytes → RolePermissionBinding → Result PortalError (Unit {0})
  unfolding validate_binding_item
  validate_binding_for_role role_id v =
      reject (fails (validate_binding_item v) || not (str_eq v.role_id role_id)) invalid_response

  -- `validateUserRoleAssignmentItem`
  unfoldable pub validate_assignment_item : UserRoleAssignment → Result PortalError (Unit {0})
  unfolding bad_optional_uuid
  validate_assignment_item v =
      reject
        (not (is_canonical_uuid v.id)
          || not (is_canonical_uuid v.user_id)
          || not (is_canonical_uuid v.role_id)
          || bad_optional_uuid v.organization_id
          || not (is_timestamp v.created_at)
          || not (is_timestamp v.updated_at))
        invalid_response

  -- `validateUserRoleAssignmentForUser`
  unfoldable pub validate_assignment_for_user :
      Bytes → UserRoleAssignment → Result PortalError (Unit {0})
  validate_assignment_for_user user_id v =
      reject (fails (validate_assignment_item v) || not (str_eq v.user_id user_id)) invalid_response

-- `validateRolePermissionSetItem`
unfoldable pub check_ids : Option (List Bytes) → Bool
check_ids none = false
check_ids (some ids) = all is_canonical_uuid ids

unfoldable pub validate_set_item : RolePermissionSet → Result PortalError (Unit {0})
unfolding check_ids
validate_set_item v =
    reject (not (is_canonical_uuid v.role_id) || not (check_ids v.permission_ids)) invalid_response

-- `validateRolePermissionSetForRole`
unfoldable pub validate_set_for_role : Bytes → RolePermissionSet → Result PortalError (Unit {0})
unfolding validate_set_item
validate_set_for_role role_id v =
    reject (fails (validate_set_item v) || not (str_eq v.role_id role_id)) invalid_response

-- The requests' bodies
pub record CreateRoleRequest : Type 0 where
  pub key : Bytes
  pub name : Bytes
  pub description : Option Bytes

pub record UpdateRoleRequest : Type 0 where
  pub key : Option Bytes
  pub name : Option Bytes
  pub description : Option Bytes

pub record CreatePermissionRequest : Type 0 where
  pub resource : Bytes
  pub action : Bytes
  pub name : Bytes
  pub description : Option Bytes

pub record UpdatePermissionRequest : Type 0 where
  pub name : Option Bytes
  pub description : Option Bytes

pub record UserRoleCondition : Type 0 where
  pub expression : Option Bytes
  pub description : Option Bytes

pub record CreateUserRoleRequest : Type 0 where
  pub role_id : Bytes
  pub condition : Option UserRoleCondition

pub record UpdateUserRoleRequest : Type 0 where
  pub condition : Option UserRoleCondition

-- encoding/json on the bodies of requests and answers, and `time.Parse`
pub record Codec : Type 0 where
  pub parses_time : Bytes → Bool
  pub decode_role : Decoder RoleWire
  pub decode_roles : Decoder (PageOf RoleWire)
  pub decode_permission : Decoder PermissionWire
  pub decode_permissions : Decoder (PageOf PermissionWire)
  pub decode_bindings : Decoder (PageOf RolePermissionBinding)
  pub decode_permission_set : Decoder RolePermissionSetWire
  pub decode_assignment : Decoder UserRoleAssignmentWire
  pub decode_assignments : Decoder (PageOf UserRoleAssignmentWire)
  pub marshal_create_role : CreateRoleRequest → Result Bytes Bytes
  pub marshal_update_role : UpdateRoleRequest → Result Bytes Bytes
  pub marshal_create_permission : CreatePermissionRequest → Result Bytes Bytes
  pub marshal_update_permission : UpdatePermissionRequest → Result Bytes Bytes
  pub marshal_permission_ids : List Bytes → Result Bytes Bytes
  pub marshal_create_user_role : CreateUserRoleRequest → Result Bytes Bytes
  pub marshal_update_user_role : UpdateUserRoleRequest → Result Bytes Bytes
