-- ===== src/Organization/Members.antt =====
-- organization_management_client.go: the operations on invitations and members.
use vertex_sdk_go.Prelude.{[], ◌++◌, Option, none, some, ok}
use vertex_sdk_go.Prelude.Int.{pos}
use vertex_sdk_go.Prelude.Strings.{Bytes, bytes}
use vertex_sdk_go.Portal.{Client, Wire, Instants, State, Done}
use vertex_sdk_go.Portal.Request.{request_with_headers, request_with_scope}
use vertex_sdk_go.Authorization.{checked_then, with_result, no_output}
use vertex_sdk_go.Organization.{
  Page, Invitation, CreateInvitationRequest, InvitationListOptions, Member, MemberListOptions,
  Codec, organization_path, invitation_path, member_path, invitation_query, member_query,
  idempotency, if_match,
}
use vertex_sdk_go.Organization.Operations.{zero_page, filled}

abbrev pub zero_invitation : Invitation
zero_invitation = record {
  id = [];
  email = [];
  role = [];
  status = [];
  delivery_status = [];
  expires_at = [];
  created_at = [];
  updated_at = [];
}

abbrev pub zero_member : Member
zero_member = record {
  membership_id = [];
  user_id = [];
  email = [];
  display_name = [];
  role = [];
  joined_at = [];
  updated_at = [];
  version = pos 0;
}

module _ (w : Wire) (c : Client) (k : Codec) where
  -- `ListOrganizationInvitations`
  unfoldable pub list_invitations :
      Instants → Bytes → InvitationListOptions → State → Done (Page Invitation)
  list_invitations t id o s = checked_then (organization_path id) s (λ path.
      with_result (filled zero_page) (
        request_with_scope w c (some k.decode_invitations) t (bytes "GET")
          (path ++ (bytes "/invitations" ++ invitation_query o))
          (bytes "organization_invitations:read") none s))

  -- `CreateOrganizationInvitation`
  unfoldable pub create_invitation :
      Instants → Bytes → CreateInvitationRequest → Option Bytes → State → Done Invitation
  create_invitation t id request options s = checked_then (organization_path id) s (λ path.
      with_result (filled zero_invitation) (
        request_with_headers w c (some k.decode_invitation) (idempotency options) t (bytes "POST")
          (path ++ bytes "/invitations") (bytes "organization_invitations:write")
          (some (k.marshal_invitation request)) s))

  -- `GetOrganizationInvitation`
  unfoldable pub get_invitation : Instants → Bytes → Bytes → State → Done Invitation
  get_invitation t id invitation_id s = checked_then (invitation_path id invitation_id) s (λ path.
      with_result (filled zero_invitation) (
        request_with_scope w c (some k.decode_invitation) t (bytes "GET") path
          (bytes "organization_invitations:read") none s))

  -- `ResendOrganizationInvitation`
  unfoldable pub resend_invitation : Instants → Bytes → Bytes → State → Done Invitation
  resend_invitation t id invitation_id s =
      checked_then (invitation_path id invitation_id) s (λ path.
        with_result (filled zero_invitation) (
          request_with_scope w c (some k.decode_invitation) t (bytes "POST")
            (path ++ bytes "/resend") (bytes "organization_invitations:write") none s))

  -- `CancelOrganizationInvitation`
  unfoldable pub cancel_invitation : Instants → Bytes → Bytes → State → Done (Unit {0})
  cancel_invitation t id invitation_id s =
      checked_then (invitation_path id invitation_id) s (λ path.
        with_result (λ a. ok tt)
          (request_with_headers w c no_output [] t (bytes "DELETE") path
            (bytes "organization_invitations:write") none s))

  -- `ListOrganizationMembers`
  unfoldable pub list_members : Instants → Bytes → MemberListOptions → State → Done (Page Member)
  list_members t id o s = checked_then (organization_path id) s (λ path.
      with_result (filled zero_page) (
        request_with_scope w c (some k.decode_members) t (bytes "GET")
          (path ++ (bytes "/members" ++ member_query o)) (bytes "organization_members:read") none
          s))

  -- `GetOrganizationMember`
  unfoldable pub get_member : Instants → Bytes → Bytes → State → Done Member
  get_member t id membership_id s = checked_then (member_path id membership_id) s (λ path.
      with_result (filled zero_member) (
        request_with_scope w c (some k.decode_member) t (bytes "GET") path
          (bytes "organization_members:read") none s))

  -- `UpdateOrganizationMemberRole`
  unfoldable pub update_member_role :
      Instants → Bytes → Bytes → Bytes → Option Bytes → State → Done Member
  update_member_role t id membership_id role options s =
      checked_then (member_path id membership_id) s (λ path. with_result (filled zero_member) (
        request_with_headers w c (some k.decode_member) (if_match options) t (bytes "PATCH") path
          (bytes "organization_members:write") (some (k.marshal_role role)) s))

  -- `RemoveOrganizationMember`
  unfoldable pub remove_member : Instants → Bytes → Bytes → State → Done (Unit {0})
  remove_member t id membership_id s = checked_then (member_path id membership_id) s (λ path.
      with_result (λ a. ok tt)
        (request_with_headers w c no_output [] t (bytes "DELETE") path
          (bytes "organization_members:write") none s))
