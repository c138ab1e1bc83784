-- ===== src/Organization/Sending.antt =====
-- What the operations on organizations send, and what they refuse.
use mathlib.Core.Path.{subst}
use vertex_sdk_go.Prelude.{
  ◌≡◌, ◌≢◌, sym, ◌∙◌, inl, inr, true, false, ◌++◌, Option, some, ok, >>=-eq-ok, Bool-cases, arith,
}
use vertex_sdk_go.Prelude.Strings.{Bytes, bytes}
use vertex_sdk_go.Prelude.Formats.{path_escape}
use vertex_sdk_go.Prelude.Shapes.{is_uuid, path_escape-uuid}
use vertex_sdk_go.Portal.{Client, Wire, State, Instants}
use vertex_sdk_go.Portal.Request.Behaviour.{Succeeds, request_with_headers-Succeeds}
use vertex_sdk_go.Organization.{
  Member, CreateInvitationRequest, InvitationListOptions, MemberListOptions,
  UpdateOrganizationRequest, Codec, id_segment, organization_path, invitation_path, member_path,
  if_match,
}
use vertex_sdk_go.Organization.Operations.{
  filled, get_organization, update_organization, delete_organization,
}
use vertex_sdk_go.Organization.Members.{
  zero_member, list_invitations, create_invitation, get_invitation, resend_invitation,
  cancel_invitation, list_members, get_member, update_member_role, remove_member,
}
use vertex_sdk_go.Authorization.Returned.{
  checked_then-ok, with_result-ok, Refused, checked_then-Refused,
}

id_segment-ok :
    (value resource segment : Bytes)
    → id_segment value resource ≡ ok segment
    → (is_uuid value ≡ true) × (segment ≡ value)
unfolding id_segment
id_segment-ok value resource segment h = elim (Bool-cases (is_uuid value)) [
  | inl e ↦
      let same : path_escape value ≡ segment = ground arith in
      (e, sym same ∙ path_escape-uuid value e)
  | inr e ↦ absurd (ground arith)
]

organization_path-ok :
    (id path : Bytes)
    → organization_path id ≡ ok path
    → (is_uuid id ≡ true) × (path ≡ bytes "/open/v1/organizations/" ++ id)
unfolding organization_path
organization_path-ok id path h =
    let (segment, h₁, h₂) = >>=-eq-ok (id_segment id (bytes "organization")) _ h in
    let (e, same) = id_segment-ok id (bytes "organization") segment h₁ in (e, cc)

member_path-ok :
    (id membership_id path : Bytes)
    → member_path id membership_id ≡ ok path
    → (is_uuid id ≡ true)
      × (is_uuid membership_id ≡ true)
      × (path ≡ (bytes "/open/v1/organizations/" ++ id) ++ (bytes "/members/" ++ membership_id))
unfolding member_path
member_path-ok id membership_id path h =
    let (p, h₁, h₂) = >>=-eq-ok (organization_path id) _ h in
    let (segment, h₃, h₄) = >>=-eq-ok (id_segment membership_id (bytes "membership")) _ h₂ in
    let (e, at) = organization_path-ok id p h₁ in
    let (d, same) = id_segment-ok membership_id (bytes "membership") segment h₃ in
    let whole : p ++ (bytes "/members/" ++ segment) ≡ path = cc in (e, d, cc)

module _ (id other : Bytes) (bad : is_uuid id ≡ false) where
  not_organization : (path : Bytes) → organization_path id ≢ ok path
  not_organization path h = let (e, at) = organization_path-ok id path h in cc

  not_member : (path : Bytes) → member_path id other ≢ ok path
  not_member path h = let (e, d, at) = member_path-ok id other path h in cc

  not_invitation : (path : Bytes) → invitation_path id other ≢ ok path
  unfolding invitation_path
  not_invitation path h =
      let (p, h₁, h₂) = >>=-eq-ok (organization_path id) _ h in not_organization p h₁

-- Every operation on one organization, its invitations or its members fails without sending anything if the
-- organization's ID is not a UUID.
pub malformed-Refused :
    (w : Wire) (c : Client) (k : Codec) (t : Instants) (id other role : Bytes)
    (options : Option Bytes) (change : UpdateOrganizationRequest)
    (invitation : CreateInvitationRequest) (invitations : InvitationListOptions)
    (members : MemberListOptions) (s : State)
    → is_uuid id ≡ false
    → Refused s (get_organization w c k t id s)
      × Refused s (update_organization w c k t id change options s)
      × Refused s (delete_organization w c k t id options s)
      × Refused s (list_invitations w c k t id invitations s)
      × Refused s (create_invitation w c k t id invitation options s)
      × Refused s (get_invitation w c k t id other s)
      × Refused s (resend_invitation w c k t id other s)
      × Refused s (cancel_invitation w c k t id other s)
      × Refused s (list_members w c k t id members s)
      × Refused s (get_member w c k t id other s)
      × Refused s (update_member_role w c k t id other role options s)
      × Refused s (remove_member w c k t id other s)
unfolding get_organization update_organization delete_organization list_invitations
    create_invitation get_invitation resend_invitation cancel_invitation list_members get_member
    update_member_role remove_member
malformed-Refused w c k t id other role options change invitation invitations members s bad =
    let organization = not_organization id other bad in
    let invited = not_invitation id other bad in
    let member = not_member id other bad in
    (
      checked_then-Refused _ s _ organization,
      checked_then-Refused _ s _ organization,
      checked_then-Refused _ s _ organization,
      checked_then-Refused _ s _ organization,
      checked_then-Refused _ s _ organization,
      checked_then-Refused _ s _ invited,
      checked_then-Refused _ s _ invited,
      checked_then-Refused _ s _ invited,
      checked_then-Refused _ s _ organization,
      checked_then-Refused _ s _ member,
      checked_then-Refused _ s _ member,
      checked_then-Refused _ s _ member,
    )

-- A role of a member that was changed was changed by one PATCH of that member of that organization, both of
-- UUIDs, with the token for organization_members:write and the caller's ETag, if there is one, as If-Match.
pub update_member_role-Succeeds :
    (w : Wire) (c : Client) (k : Codec) (t : Instants) (id membership_id role : Bytes)
    (options : Option Bytes) (s s' : State) (m : Member)
    → update_member_role w c k t id membership_id role options s ≡ (ok m, s')
    → (is_uuid id ≡ true)
      × (is_uuid membership_id ≡ true)
      × Succeeds w c
          (if_match options)
          t
          (bytes "PATCH")
          ((bytes "/open/v1/organizations/" ++ id) ++ (bytes "/members/" ++ membership_id))
          (bytes "organization_members:write")
          (some (k.marshal_role role))
          s
          s'
unfolding update_member_role
update_member_role-Succeeds w c k t id membership_id role options s s' m h =
    let (path, h₁, h₂) = checked_then-ok (member_path id membership_id) s _ m s' h in
    let (e, d, at) = member_path-ok id membership_id path h₁ in
    let (a, h₃, h₄) = with_result-ok (filled zero_member) _ m s' h₂ in
    (
      e,
      d,
      subst
          (λ p.
            Succeeds w c (if_match options) t (bytes "PATCH") p (bytes "organization_members:write")
              (some (k.marshal_role role)) s s')
          at
          (request_with_headers-Succeeds w c (some k.decode_member) (if_match options) a.0 a.1 s' t
            (bytes "PATCH") path (bytes "organization_members:write") (some (k.marshal_role role)) s
            h₃),
    )
