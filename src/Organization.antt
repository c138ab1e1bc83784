-- ===== src/Organization.antt =====
-- organization_management_client.go: organizations, their invitations and members through the portal's API.
-- Here are their data, paths, queries and headers; the operations are in Organization.Operations.
pub mod Operations
pub mod Members
pub mod Sending
mod Tests
use vertex_sdk_go.Prelude.{
  Bool, true, false, not, List, [], ◌∷◌, ◌++◌, map, Option, none, some, Result, ok, err, ◌>>=◌,
  if◌then◌else◌,
}
use vertex_sdk_go.Prelude.Int.{ℤ, pos}
use vertex_sdk_go.Prelude.Strings.{Bytes, bytes, str_eq}
use vertex_sdk_go.Prelude.Formats.{path_escape, query_escape}
use vertex_sdk_go.Prelude.Shapes.{is_uuid}
use vertex_sdk_go.Portal.{PortalError, portal_error}
use vertex_sdk_go.Portal.Request.{Extra, Decoder}
use vertex_sdk_go.Authorization.{itoa}

-- `Organization`
pub record Organization : Type 0 where
  pub id : Bytes
  pub name : Bytes
  pub slug : Bytes
  pub version : ℤ
  pub created_at : Bytes
  pub updated_at : Bytes
  pub etag : Bytes

pub record CreateOrganizationRequest : Type 0 where
  pub name : Bytes
  pub slug : Bytes

pub record UpdateOrganizationRequest : Type 0 where
  pub name : Option Bytes
  pub slug : Option Bytes

-- `OrganizationListOptions`
pub record ListOptions : Type 0 where
  pub search : Option Bytes
  pub page : Option ℤ
  pub size : Option ℤ
  pub sort : List Bytes
  pub direction : List Bytes

-- `OrganizationPageMetadata`
pub record PageMetadata : Type 0 where
  pub size : ℤ
  pub number : ℤ
  pub total_elements : ℤ
  pub total_pages : ℤ

-- `OrganizationPage`, `OrganizationInvitationPage`, `OrganizationMemberPage`
pub record Page (V : Type 0) : Type 0 where
  pub content : List V
  pub page : PageMetadata

-- `OrganizationInvitation`
pub record Invitation : Type 0 where
  pub id : Bytes
  pub email : Bytes
  pub role : Bytes
  pub status : Bytes
  pub delivery_status : Bytes
  pub expires_at : Bytes
  pub created_at : Bytes
  pub updated_at : Bytes

pub record CreateInvitationRequest : Type 0 where
  pub email : Bytes
  pub role : Option Bytes
  pub send_email : Option Bool

-- `OrganizationInvitationListOptions`
pub record InvitationListOptions : Type 0 where
  pub status : Option Bytes
  pub page : Option ℤ
  pub size : Option ℤ

-- `OrganizationMember`
pub record Member : Type 0 where
  pub membership_id : Bytes
  pub user_id : Bytes
  pub email : Bytes
  pub display_name : Bytes
  pub role : Bytes
  pub joined_at : Bytes
  pub updated_at : Bytes
  pub version : ℤ

-- `OrganizationMemberListOptions`
pub record MemberListOptions : Type 0 where
  pub search : Option Bytes
  pub page : Option ℤ
  pub size : Option ℤ

-- encoding/json on the bodies of requests and answers
pub record Codec : Type 0 where
  pub decode_organization : Decoder Organization
  pub decode_organizations : Decoder (Page Organization)
  pub decode_invitation : Decoder Invitation
  pub decode_invitations : Decoder (Page Invitation)
  pub decode_member : Decoder Member
  pub decode_members : Decoder (Page Member)
  pub marshal_create : CreateOrganizationRequest → Result Bytes Bytes
  pub marshal_update : UpdateOrganizationRequest → Result Bytes Bytes
  pub marshal_invitation : CreateInvitationRequest → Result Bytes Bytes
  pub marshal_role : Bytes → Result Bytes Bytes

-- `organizationManagementIDSegment`
unfoldable pub id_segment : Bytes → Bytes → Result PortalError Bytes
id_segment value resource =
    if not (is_uuid value)
    then err (portal_error 0 (bytes "invalid_" ++ (resource ++ bytes "_id")) [] [])
    else ok (path_escape value)

-- `organizationPath`
unfoldable pub organization_path : Bytes → Result PortalError Bytes
unfolding id_segment
organization_path organization_id = do
  segment ← id_segment organization_id (bytes "organization")
  ok (bytes "/open/v1/organizations/" ++ segment)

-- `organizationInvitationPath`
unfoldable pub invitation_path : Bytes → Bytes → Result PortalError Bytes
invitation_path organization_id invitation_id = do
  path ← organization_path organization_id
  segment ← id_segment invitation_id (bytes "invitation")
  ok (path ++ (bytes "/invitations/" ++ segment))

-- `organizationMemberPath`
unfoldable pub member_path : Bytes → Bytes → Result PortalError Bytes
member_path organization_id membership_id = do
  path ← organization_path organization_id
  segment ← id_segment membership_id (bytes "membership")
  ok (path ++ (bytes "/members/" ++ segment))

-- A parameter with its value, and those of an option or a list; the names need no escape.
abbrev pub Parameter : Type 0
Parameter = Bytes × Bytes

abbrev optional : Bytes → Option Bytes → List Parameter
optional name none = []
optional name (some value) = (name, value) ∷ []

abbrev number : Option ℤ → Option Bytes
number none = none
number (some n) = some (itoa n)

abbrev each : Bytes → List Bytes → List Parameter
each name values = map (λ value. (name, value)) values

-- `url.Values.Encode`, for parameters in the order of their names
unfoldable pub encode : List Parameter → Bytes
encode [] = []
encode ((name, value) ∷ []) = name ++ (bytes "=" ++ query_escape value)
encode ((name, value) ∷ (p ∷ ps)) =
    name ++ (bytes "=" ++ (query_escape value ++ (bytes "&" ++ encode (p ∷ ps))))

-- `queryString`
unfoldable pub query_string : List Parameter → Bytes
unfolding encode
query_string values =
    let encoded = encode values in if str_eq encoded [] then [] else b'?' ∷ encoded

-- `organizationQuery`, in the order in which `Encode` writes
unfoldable pub organization_query : ListOptions → Bytes
organization_query o = query_string (
    each (bytes "direction") o.direction
    ++ (optional (bytes "page") (number o.page)
        ++ (optional (bytes "search") o.search
            ++ (optional (bytes "size") (number o.size) ++ each (bytes "sort") o.sort))))

-- `organizationInvitationQuery`
unfoldable pub invitation_query : InvitationListOptions → Bytes
invitation_query o = query_string (
    optional (bytes "page") (number o.page)
    ++ (optional (bytes "size") (number o.size) ++ optional (bytes "status") o.status))

-- `organizationMemberQuery`
unfoldable pub member_query : MemberListOptions → Bytes
member_query o = query_string (
    optional (bytes "page") (number o.page)
    ++ (optional (bytes "search") o.search ++ optional (bytes "size") (number o.size)))

abbrev optional_header : Bytes → Option Bytes → Extra
optional_header name none = []
optional_header name (some value) = if str_eq value [] then [] else (name, value ∷ []) ∷ []

-- `idempotencyHeader` and `ifMatchHeader`; `none` for options that are nil
abbrev pub idempotency : Option Bytes → Extra
idempotency = optional_header (bytes "Idempotency-Key")

abbrev pub if_match : Option Bytes → Extra
if_match = optional_header (bytes "If-Match")
