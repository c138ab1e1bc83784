-- ===== src/Organization/Tests.antt =====
-- The operations on organizations at concrete inputs, and the theorems applied to them.
use vertex_sdk_go.Prelude.{◌≡◌, refl, false, [], ◌∷◌, Option, none, some, ok}
use vertex_sdk_go.Prelude.Int.{pos}
use vertex_sdk_go.Prelude.Strings.{Bytes, bytes, str_eq}
use vertex_sdk_go.Prelude.Utf8.{is_space, trim_space}
use vertex_sdk_go.Prelude.Formats.{
  query_escape, path_escape, fields, to_upper, to_lower, decimal, is_digit,
}
use vertex_sdk_go.Prelude.Shapes.{fits, is_uuid}
use vertex_sdk_go.Middleware.{equal_fold}
use vertex_sdk_go.Portal.{is_scope, validate_scope, first_string, Done}
use vertex_sdk_go.Portal.Token.{fresh, token_request, get_machine_token}
use vertex_sdk_go.Portal.Request.{
  normalize_method, is_method, is_portal_path, portal_url, is_forbidden, validate_headers, encoded,
  resource_request, checked, request_with_headers,
}
use vertex_sdk_go.Portal.Samples.{client, start, empty, servers}
use vertex_sdk_go.Authorization.{itoa}
use vertex_sdk_go.Authorization.Returned.{Refused}
use vertex_sdk_go.Organization.{
  Member, Codec, CreateInvitationRequest, UpdateOrganizationRequest, InvitationListOptions,
  MemberListOptions, id_segment, organization_path, member_path, organization_query, query_string,
}
use vertex_sdk_go.Organization.Operations.{
  zero_page, zero_organization, get_organization, update_organization, delete_organization,
}
use vertex_sdk_go.Organization.Members.{
  zero_invitation, zero_member, list_invitations, create_invitation, get_invitation,
  resend_invitation, cancel_invitation, list_members, get_member, update_member_role, remove_member,
}
use vertex_sdk_go.Organization.Sending.{malformed-Refused}

abbrev member : Member
member = record zero_member { user_id = bytes "ada"; role = bytes "ADMIN" }

abbrev codec : Codec
codec = record {
  decode_organization = λ body. ok zero_organization;
  decode_organizations = λ body. ok zero_page;
  decode_invitation = λ body. ok zero_invitation;
  decode_invitations = λ body. ok zero_page;
  decode_member = λ body. ok member;
  decode_members = λ body. ok zero_page;
  marshal_create = λ r. ok (bytes "{}");
  marshal_update = λ r. ok (bytes "{}");
  marshal_invitation = λ r. ok (bytes "{}");
  marshal_role = λ r. ok (bytes "{}");
}

abbrev organization : Bytes
organization = bytes "0b0e1c7a-1111-4222-8333-444455556666"

abbrev membership : Bytes
membership = bytes "9b0e1c7a-1111-4222-8333-444455556666"

abbrev etag : Option Bytes
etag = some (bytes "\"3\"")

abbrev changed : Done Member
changed =
    update_member_role servers client codec start organization membership (bytes "ADMIN") etag empty

change-succeeds : changed.0 ≡ ok member
unfolding update_member_role member_path organization_path id_segment is_uuid path_escape fits
    is_digit request_with_headers checked normalize_method is_method portal_url is_portal_path
    is_forbidden validate_headers encoded get_machine_token is_scope validate_scope fresh str_eq
    equal_fold fields trim_space first_string token_request is_space to_upper to_lower
    resource_request
change-succeeds = refl

change_eq : changed ≡ (ok member, changed.1)
change_eq = cc change-succeeds

abbrev bad : Bytes
bad = bytes "../roles"

not_uuid : is_uuid bad ≡ false
unfolding is_uuid fits is_digit
not_uuid = refl

abbrev change : UpdateOrganizationRequest
change = record { name = none; slug = none }

abbrev invitation : CreateInvitationRequest
invitation = record { email = bytes "ada@example.com"; role = none; send_email = none }

abbrev invitations : InvitationListOptions
invitations = record { status = none; page = none; size = none }

abbrev members : MemberListOptions
members = record { search = none; page = none; size = none }

malformed-Refused_example :
    Refused empty (get_organization servers client codec start bad empty)
    × Refused empty (update_organization servers client codec start bad change none empty)
    × Refused empty (delete_organization servers client codec start bad none empty)
    × Refused empty (list_invitations servers client codec start bad invitations empty)
    × Refused empty (create_invitation servers client codec start bad invitation none empty)
    × Refused empty (get_invitation servers client codec start bad membership empty)
    × Refused empty (resend_invitation servers client codec start bad membership empty)
    × Refused empty (cancel_invitation servers client codec start bad membership empty)
    × Refused empty (list_members servers client codec start bad members empty)
    × Refused empty (get_member servers client codec start bad membership empty)
    × Refused empty
        (update_member_role servers client codec start bad membership (bytes "ADMIN") none empty)
    × Refused empty (remove_member servers client codec start bad membership empty)
malformed-Refused_example =
    malformed-Refused servers client codec start bad membership (bytes "ADMIN") none change
      invitation invitations members empty not_uuid

written :
    organization_query (record {
      search = some (bytes "a&b");
      page = some (pos 0);
      size = none;
      sort = bytes "name" ∷ [];
      direction = bytes "ASC" ∷ [];
    })
    ≡ bytes "?direction=ASC&page=0&search=a%26b&sort=name"
unfolding organization_query query_string query_escape itoa decimal is_digit str_eq
written = refl
