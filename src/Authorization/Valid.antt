-- ===== src/Authorization/Valid.antt =====
-- What the checks of the items mean.
use vertex_sdk_go.Prelude.{
  ◌≡◌, ◌≢◌, refl, Bool, true, false, not, ◌&&◌, ◌||◌, List, [], ◌++◌, All, Option, none, some,
  Result, ok, err, reject, reject-ok, all_iff, arith,
}
use vertex_sdk_go.Prelude.Strings.{Bytes, bytes, str_eq, str_eq_iff}
use vertex_sdk_go.Prelude.Utf8.{trim_space}
use vertex_sdk_go.Prelude.Shapes.{is_canonical_uuid}
use vertex_sdk_go.Portal.{PortalError}
use vertex_sdk_go.Authorization.{invalid_response}
use vertex_sdk_go.Authorization.Items.{
  Role, Permission, RolePermissionBinding, RolePermissionSet, UserRoleAssignment, blank, fails,
  bad_optional_uuid, check_ids, validate_permission_grant, is_timestamp, validate_role_item,
  validate_permission_item, validate_binding_item, validate_binding_for_role,
  validate_assignment_item, validate_assignment_for_user, validate_set_item, validate_set_for_role,
}

blank-false : (s : Bytes) → blank s ≡ false → trim_space s ≢ []
unfolding blank
blank-false s h e = let x = (str_eq_iff (trim_space s) []).1 e in cc

fails-false : (r : Result PortalError (Unit {0})) → fails r ≡ false → r ≡ ok tt
fails-false (ok u) h = refl
fails-false (err e) h = cc

abbrev pub IsUuid : Bytes → Type 0
IsUuid s = is_canonical_uuid s ≡ true

abbrev IsOptionalUuid : Option Bytes → Type 0
IsOptionalUuid none = Unit
IsOptionalUuid (some s) = IsUuid s

optional_uuid : (o : Option Bytes) → bad_optional_uuid o ≡ false → IsOptionalUuid o
unfolding bad_optional_uuid
optional_uuid none h = tt
optional_uuid (some s) h = ground arith

module _ (parses_time : Bytes → Bool) where
  abbrev pub IsTimestamp : Bytes → Type 0
  IsTimestamp s = is_timestamp parses_time s ≡ true

  -- A role as the SDK returns it.
  abbrev pub IsRole : Role → Type 0
  IsRole v =
      IsUuid v.id
      × (trim_space v.key ≢ [])
      × (trim_space v.name ≢ [])
      × IsTimestamp v.created_at
      × IsTimestamp v.updated_at

  pub validate_role_item-IsRole :
      (v : Role) (u : Unit {0}) → validate_role_item parses_time v ≡ ok u → IsRole v
  unfolding validate_role_item
  validate_role_item-IsRole v u h =
      let t =
        reject-ok
          (not (is_canonical_uuid v.id)
            || blank v.key
            || blank v.name
            || not (is_timestamp parses_time v.created_at)
            || not (is_timestamp parses_time v.updated_at))
          invalid_response h in
      (
        ground arith,
        blank-false v.key (ground arith),
        blank-false v.name (ground arith),
        ground arith,
        ground arith,
      )

  -- A permission as the SDK returns it.
  abbrev pub IsPermission : Permission → Type 0
  IsPermission v =
      IsUuid v.id
      × (validate_permission_grant v.resource v.action ≡ ok tt)
      × (v.key ≡ v.resource ++ (bytes ":" ++ v.action))
      × (trim_space v.name ≢ [])
      × IsTimestamp v.created_at
      × IsTimestamp v.updated_at

  pub validate_permission_item-IsPermission :
      (v : Permission) (u : Unit {0})
      → validate_permission_item parses_time v ≡ ok u
      → IsPermission v
  unfolding validate_permission_item
  validate_permission_item-IsPermission v u h =
      let t =
        reject-ok
          (not (is_canonical_uuid v.id)
            || fails (validate_permission_grant v.resource v.action)
            || not (str_eq v.key (v.resource ++ (bytes ":" ++ v.action)))
            || blank v.name
            || not (str_eq v.source (bytes "CODE")) && not (str_eq v.source (bytes "MANUAL"))
            || not (is_timestamp parses_time v.created_at)
            || not (is_timestamp parses_time v.updated_at))
          invalid_response h in
      let same : str_eq v.key (v.resource ++ (bytes ":" ++ v.action)) ≡ true = ground arith in
      (
        ground arith,
        fails-false (validate_permission_grant v.resource v.action) (ground arith),
        (str_eq_iff v.key (v.resource ++ (bytes ":" ++ v.action))).0 same,
        blank-false v.name (ground arith),
        ground arith,
        ground arith,
      )

  -- The binding of a permission to a role.
  abbrev pub IsBinding : Bytes → RolePermissionBinding → Type 0
  IsBinding role_id v = (v.role_id ≡ role_id) × IsUuid v.permission_id × IsTimestamp v.created_at

  pub validate_binding_for_role-IsBinding :
      (role_id : Bytes) (v : RolePermissionBinding)
      → validate_binding_for_role parses_time role_id v ≡ ok tt
      → IsBinding role_id v
  unfolding validate_binding_for_role validate_binding_item
  validate_binding_for_role-IsBinding role_id v h =
      let item : Bool =
        not (is_canonical_uuid v.role_id)
        || not (is_canonical_uuid v.permission_id)
        || not (is_timestamp parses_time v.created_at) in
      let t =
        reject-ok (fails (reject item invalid_response) || not (str_eq v.role_id role_id))
          invalid_response h in
      let same : str_eq v.role_id role_id ≡ true = ground arith in
      let passed : item ≡ false =
        reject-ok item invalid_response
          (fails-false (reject item invalid_response) (ground arith)) in
      ((str_eq_iff v.role_id role_id).0 same, ground arith, ground arith)

  -- An assignment as the SDK returns it.
  abbrev pub IsAssignment : UserRoleAssignment → Type 0
  IsAssignment v =
      IsUuid v.id
      × IsUuid v.user_id
      × IsUuid v.role_id
      × IsOptionalUuid v.organization_id
      × IsTimestamp v.created_at
      × IsTimestamp v.updated_at

  pub validate_assignment_item-IsAssignment :
      (v : UserRoleAssignment) (u : Unit {0})
      → validate_assignment_item parses_time v ≡ ok u
      → IsAssignment v
  unfolding validate_assignment_item
  validate_assignment_item-IsAssignment v u h =
      let t =
        reject-ok
          (not (is_canonical_uuid v.id)
            || not (is_canonical_uuid v.user_id)
            || not (is_canonical_uuid v.role_id)
            || bad_optional_uuid v.organization_id
            || not (is_timestamp parses_time v.created_at)
            || not (is_timestamp parses_time v.updated_at))
          invalid_response h in
      (
        ground arith,
        ground arith,
        ground arith,
        optional_uuid v.organization_id (ground arith),
        ground arith,
        ground arith,
      )

  pub validate_assignment_for_user-IsAssignment :
      (user_id : Bytes) (v : UserRoleAssignment)
      → validate_assignment_for_user parses_time user_id v ≡ ok tt
      → IsAssignment v × (v.user_id ≡ user_id)
  unfolding validate_assignment_for_user
  validate_assignment_for_user-IsAssignment user_id v h =
      let item = validate_assignment_item parses_time v in
      let t = reject-ok (fails item || not (str_eq v.user_id user_id)) invalid_response h in
      let same : str_eq v.user_id user_id ≡ true = ground arith in
      (
        validate_assignment_item-IsAssignment v tt (fails-false item (ground arith)),
        (str_eq_iff v.user_id user_id).0 same,
      )

ids-All :
    (o : Option (List Bytes))
    → check_ids o ≡ true
    → (ids : List Bytes) × (o ≡ some ids) × All IsUuid ids
unfolding check_ids
ids-All none h = cc
ids-All (some ids) h =
    (ids, refl, (all_iff IsUuid is_canonical_uuid (λ s. (λ e. e, λ e. e)) ids).0 h)

-- The set of a role's permissions as the SDK returns it.
abbrev pub IsPermissionSet : Bytes → RolePermissionSet → Type 0
IsPermissionSet role_id v =
    (v.role_id ≡ role_id)
    × IsUuid v.role_id
    × ((ids : List Bytes) × (v.permission_ids ≡ some ids) × All IsUuid ids)

pub validate_set_for_role-IsPermissionSet :
    (role_id : Bytes) (v : RolePermissionSet) (u : Unit {0})
    → validate_set_for_role role_id v ≡ ok u
    → IsPermissionSet role_id v
unfolding validate_set_for_role validate_set_item
validate_set_for_role-IsPermissionSet role_id v u h =
    let item : Bool = not (is_canonical_uuid v.role_id) || not (check_ids v.permission_ids) in
    let t =
      reject-ok (fails (reject item invalid_response) || not (str_eq v.role_id role_id))
        invalid_response h in
    let same : str_eq v.role_id role_id ≡ true = ground arith in
    let passed : item ≡ false =
      reject-ok item invalid_response (fails-false (reject item invalid_response) (ground arith)) in
    ((str_eq_iff v.role_id role_id).0 same, ground arith, ids-All v.permission_ids (ground arith))
