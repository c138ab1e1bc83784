-- ===== src/Authorization/Tests.antt =====
-- The operations on roles and assignments at concrete inputs, and the theorems applied to them.
use vertex_sdk_go.Prelude.{
  ◌≡◌, ◌↔◌, refl, true, false, arith, [], ◌∷◌, ◌++◌, length, All, none, some, ok, err, all, inr,
}
use vertex_sdk_go.Prelude.Int.{pos}
use vertex_sdk_go.Prelude.Strings.{Bytes, bytes, str_eq}
use vertex_sdk_go.Prelude.Utf8.{is_space, trim_space}
use vertex_sdk_go.Prelude.Formats.{path_escape, fields, to_upper, to_lower, decimal, is_digit}
use vertex_sdk_go.Prelude.Shapes.{fits, is_uuid, is_canonical_uuid, is_strong_etag}
use vertex_sdk_go.Middleware.{equal_fold}
use vertex_sdk_go.Portal.{is_scope, validate_scope, Wire, first_string, Done}
use vertex_sdk_go.Portal.Token.{fresh, token_request, get_machine_token}
use vertex_sdk_go.Portal.Request.{
  normalize_method, is_method, is_portal_path, portal_url, is_forbidden, validate_headers, encoded,
  resource_request, checked, request_with_headers, request_with_scope,
}
use vertex_sdk_go.Portal.Request.Behaviour.{Succeeds}
use vertex_sdk_go.Portal.Samples.{client, payload, start, empty}
use vertex_sdk_go.Authorization.{
  PageOptions, page_value, page_query, validate_page_options, authorization_id, authorization_path,
  user_role_path, if_match_header, strong_etag, validate_if_match, expected_pages, remaining,
  is_expected, validate_page,
}
use vertex_sdk_go.Authorization.Items.{
  Role, RolePermissionSet, UserRoleAssignment, Page, blank, bad_optional_uuid, check_ids,
  is_timestamp, role_value, permission_set_value, assignment_value, validate_role_item,
  validate_set_item, validate_set_for_role, validate_assignment_item, validate_assignment_for_user,
  UpdateRoleRequest, Codec,
}
use vertex_sdk_go.Authorization.Roles.{role_of, role_for_id, update_role}
use vertex_sdk_go.Authorization.Bindings.{
  check_permission_ids, permission_set_of, replace_role_permissions,
}
use vertex_sdk_go.Authorization.Assignments.{assignment_page, list_user_roles, update_user_role}
use vertex_sdk_go.Authorization.Pages.{IsPage, validate_page_iff}
use vertex_sdk_go.Authorization.Returned.{Refused}
use vertex_sdk_go.Authorization.Valid.{IsRole}
use vertex_sdk_go.Authorization.Answers.{IsStrong, update_role-IsAnswer}
use vertex_sdk_go.Authorization.Lists.{IsOf, list_user_roles-IsAnswer}
use vertex_sdk_go.Authorization.Refusals.{updating_assignment, change-Refused}

abbrev servers : Wire
servers = record {
  send = λ sent request. ok (record {
    status = 200;
    headers = λ name. bytes "\"3\"" ∷ [];
    body = record { content = bytes "{}"; read_error = none };
  });
  refused = λ method url. none;
  base64 = λ s. s;
  unmarshal = λ raw. payload;
  is_positive = λ n. true;
  lifetime = λ n skew. pos 30_000_000_000;
}

abbrev role_id : Bytes
role_id = bytes "0b0e1c7a-1111-4222-8333-444455556666"

abbrev user_id : Bytes
user_id = bytes "9b0e1c7a-1111-4222-8333-444455556666"

abbrev noon : Bytes
noon = bytes "2026-01-01T12:00:00Z"

abbrev etag : Bytes
etag = bytes "\"3\""

abbrev codec : Codec
codec = record {
  parses_time = λ s. true;
  decode_role = λ body. ok (record {
    id = role_id;
    key = bytes "editor";
    name = bytes "Editor";
    description = none;
    system = some false;
    version = some (pos 3);
    created_at = noon;
    updated_at = noon;
  });
  decode_roles = λ body. err (bytes "none");
  decode_permission = λ body. err (bytes "none");
  decode_permissions = λ body. err (bytes "none");
  decode_bindings = λ body. err (bytes "none");
  decode_permission_set = λ body.
      ok (record {
        role_id = role_id;
        permission_ids = some (user_id ∷ []);
        version = some (pos 3);
      });
  decode_assignment = λ body. err (bytes "none");
  decode_assignments = λ body. ok (record {
    content = some (
        record {
          id = role_id;
          user_id = user_id;
          role_id = role_id;
          organization_id = none;
          condition_expression = none;
          condition_description = none;
          version = some (pos 1);
          created_at = noon;
          updated_at = noon;
        }
        ∷ []);
    page = some (record {
      size = some (pos 2);
      number = some (pos 1);
      total_elements = some (pos 3);
      total_pages = some (pos 2);
    });
  });
  marshal_create_role = λ r. ok (bytes "{}");
  marshal_update_role = λ r. ok (bytes "{}");
  marshal_create_permission = λ r. ok (bytes "{}");
  marshal_update_permission = λ r. ok (bytes "{}");
  marshal_permission_ids = λ r. ok (bytes "[]");
  marshal_create_user_role = λ r. ok (bytes "{}");
  marshal_update_user_role = λ r. ok (bytes "{}");
}

abbrev change : UpdateRoleRequest
change = record { key = none; name = some (bytes "Editor"); description = none }

abbrev role : Role
role = record {
  id = role_id;
  key = bytes "editor";
  name = bytes "Editor";
  description = none;
  system = false;
  version = pos 3;
  created_at = noon;
  updated_at = noon;
  etag = etag;
}

abbrev updated : Done Role
updated = update_role servers client codec start role_id change etag empty

update-succeeds : updated.0 ≡ ok role
unfolding update_role validate_if_match authorization_path authorization_id is_uuid is_strong_etag
    path_escape role_for_id role_of role_value strong_etag validate_role_item blank is_timestamp
    is_canonical_uuid fits is_digit request_with_headers checked normalize_method is_method
    portal_url is_portal_path is_forbidden validate_headers encoded get_machine_token is_scope
    validate_scope fresh str_eq equal_fold fields trim_space first_string token_request is_space
    to_upper to_lower resource_request
update-succeeds = refl

update_eq : updated ≡ (ok role, updated.1)
update_eq = cc update-succeeds

update_role-IsAnswer_example :
    IsRole codec.parses_time role
    × IsStrong role.etag
    × (role.id ≡ role_id)
    × IsStrong etag
    × Succeeds servers client
        (if_match_header etag)
        start
        (bytes "PATCH")
        (bytes "/open/v1/roles/" ++ role_id)
        (bytes "roles:write")
        (some (codec.marshal_update_role change))
        empty
        updated.1
update_role-IsAnswer_example =
    update_role-IsAnswer servers client codec start role_id etag change empty updated.1 role
      update_eq

abbrev permission_set : RolePermissionSet
permission_set = record {
  role_id = role_id;
  permission_ids = some (user_id ∷ []);
  version = pos 3;
  etag = etag;
}

abbrev replaced : Done RolePermissionSet
replaced = replace_role_permissions servers client codec start role_id (user_id ∷ []) etag empty

replace-succeeds : replaced.0 ≡ ok permission_set
unfolding replace_role_permissions check_permission_ids validate_if_match authorization_path
    authorization_id is_uuid is_strong_etag path_escape permission_set_of permission_set_value
    strong_etag validate_set_for_role validate_set_item check_ids is_canonical_uuid fits is_digit
    request_with_headers checked normalize_method is_method portal_url is_portal_path is_forbidden
    validate_headers encoded get_machine_token is_scope validate_scope fresh str_eq equal_fold
    fields trim_space first_string token_request is_space to_upper to_lower resource_request
replace-succeeds = refl

replace_eq : replaced ≡ (ok permission_set, replaced.1)
replace_eq = cc replace-succeeds

abbrev options : PageOptions
options = record { page = some (pos 1); size = some (pos 2) }

abbrev user_page : Page UserRoleAssignment
user_page = record {
  content =
      record {
        id = role_id;
        user_id = user_id;
        role_id = role_id;
        organization_id = none;
        condition_expression = none;
        condition_description = none;
        version = pos 1;
        created_at = noon;
        updated_at = noon;
        etag = [];
      }
      ∷ [];
  page = record { size = pos 2; number = pos 1; total_elements = pos 3; total_pages = pos 2 };
}

abbrev listed : Done (Page UserRoleAssignment)
listed = list_user_roles servers client codec start user_id options empty

list-succeeds : listed.0 ≡ ok user_page
unfolding list_user_roles request_with_scope validate_page_options user_role_path authorization_id
    is_uuid path_escape page_query decimal assignment_page page_value assignment_value validate_page
    expected_pages is_expected remaining validate_assignment_for_user validate_assignment_item
    bad_optional_uuid is_timestamp is_canonical_uuid fits is_digit request_with_headers checked
    normalize_method is_method portal_url is_portal_path is_forbidden validate_headers encoded
    get_machine_token is_scope validate_scope fresh str_eq equal_fold fields trim_space first_string
    token_request is_space to_upper to_lower resource_request
list-succeeds = refl

list_eq : listed ≡ (ok user_page, listed.1)
list_eq = cc list-succeeds

list_user_roles-IsAnswer_example :
    IsPage (length user_page.content) user_page.page
    × All (IsOf codec.parses_time user_id) user_page.content
    × Succeeds servers client [] start
        (bytes "GET")
        ((bytes "/open/v1/users/" ++ (user_id ++ bytes "/roles")) ++ page_query options)
        (bytes "user_roles:read")
        none
        empty
        listed.1
list_user_roles-IsAnswer_example =
    list_user_roles-IsAnswer servers client codec start user_id options empty listed.1 user_page
      (omega arith) list_eq

validate_page_iff_example : (validate_page 1 user_page.page ≡ ok tt) ↔ IsPage 1 user_page.page
validate_page_iff_example = validate_page_iff 1 user_page.page (omega arith)

weak : is_strong_etag (bytes "W/\"3\"") ≡ false
unfolding is_strong_etag is_digit
weak = refl

bad_id : all is_uuid (user_id ∷ bytes "7" ∷ []) ≡ false
unfolding is_uuid
bad_id = refl

change-Refused_example : Refused empty (
    update_user_role servers client codec start user_id
      (bytes "7")
      (record { condition = none })
      etag
      empty)
change-Refused_example =
    change-Refused servers client codec start empty
      (updating_assignment user_id (bytes "7") (record { condition = none }) etag) (inr bad_id)
