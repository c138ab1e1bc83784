-- ===== src/Http/Account.antt =====
-- client.go: the operations of a user's own account, and the key set of the issuer.
pub mod Tokens
use vertex_sdk_go.Prelude.{
  ℕ, Bool, true, false, not, List, [], ◌∷◌, ◌++◌, any, Option, none, some, Result, ok, err, ◌>>=◌,
  leb, if◌then◌else◌,
}
use vertex_sdk_go.Prelude.Int.{ℤ}
use vertex_sdk_go.Prelude.Strings.{Bytes, bytes, str_eq}
use vertex_sdk_go.Prelude.Utf8.{trim_space}
use vertex_sdk_go.Prelude.Formats.{path_escape, query_escape}
use vertex_sdk_go.Config.{SdkConfig}
use vertex_sdk_go.CurrentUser.{normalize_bearer}
use vertex_sdk_go.Portal.{HttpRequest, HttpResponse, Body}
use vertex_sdk_go.Http.{
  HttpError, transport, failed, invalid_argument, invalid_answer, unsigned, bearer, Log, Did,
  Backoff, Server, do_json_retry,
}

pub record AccountOrganization : Type 0 where
  pub organization_id : Bytes
  pub name : Bytes
  pub slug : Bytes
  pub role : Bytes
  pub joined_at : Bytes
  pub current : Bool

pub record UserProfile : Type 0 where
  pub user_id : Bytes
  pub application_id : Bytes
  pub global_identity_id : Option Bytes
  pub email : Option Bytes
  pub email_verified : Bool
  pub username : Option Bytes
  pub display_name : Option Bytes
  pub avatar_url : Option Bytes
  pub status : Bytes
  pub created_at : Bytes
  pub updated_at : Bytes
  pub current_organization : Option AccountOrganization

pub record AccountUpdateProfileRequest : Type 0 where
  pub display_name : Bytes
  pub avatar_url : Bytes

pub record AccountSecuritySummary : Type 0 where
  pub email_verified : Bool
  pub password_credential_present : Bool
  pub mfa_enrolled : Bool
  pub totp_enrolled : Bool
  pub webauthn_enrolled : Bool
  pub active_session_count : ℤ

pub record EmailVerificationResponse : Type 0 where
  pub message : Bytes
  pub retry_after_seconds : Option ℤ

pub record PasswordChangeRequest : Type 0 where
  pub current_password : Bytes
  pub new_password : Bytes

pub record SessionView : Type 0 where
  pub session_id : Bytes
  pub ip_address : Bytes
  pub user_agent : Bytes
  pub device_id : Bytes
  pub created_at : Bytes
  pub last_seen_at : Bytes
  pub current : Bool

pub record AccountPermissionSummary : Type 0 where
  pub application_id : Bytes
  pub organization_id : Bytes
  pub roles : List Bytes
  pub permissions : List Bytes

pub record PermissionCheckResponse : Type 0 where
  pub application_id : Bytes
  pub organization_id : Bytes
  pub permission : Bytes
  pub allowed : Bool
  pub roles : List Bytes

pub record OrganizationSwitchResponse : Type 0 where
  pub organization_id : Bytes
  pub continuation : Bytes
  pub token_refresh_required : Bool
  pub message : Bytes

pub record InvitationPreview : Type 0 where
  pub application_id : Bytes
  pub application_name : Bytes
  pub organization_id : Bytes
  pub organization_name : Bytes
  pub invitee_email : Bytes
  pub role : Bytes
  pub status : Bytes
  pub expires_at : Bytes

pub record InvitationAcceptResponse : Type 0 where
  pub status : Bytes
  pub continuation : Bytes
  pub application_id : Bytes
  pub organization_id : Bytes
  pub organization_name : Bytes
  pub role : Bytes
  pub accepted_at : Bytes

-- encoding/json; `marshal_map` is for the bodies that are maps of texts.
pub record Codec : Type 0 where
  pub marshal_map : List (Bytes × Bytes) → Result Bytes Bytes
  pub marshal_profile : AccountUpdateProfileRequest → Result Bytes Bytes
  pub marshal_password : PasswordChangeRequest → Result Bytes Bytes
  pub decode_profile : Body → Result Bytes UserProfile
  pub decode_security : Body → Result Bytes AccountSecuritySummary
  pub decode_verification : Body → Result Bytes EmailVerificationResponse
  pub decode_sessions : Body → Result Bytes (List SessionView)
  pub decode_organizations : Body → Result Bytes (List AccountOrganization)
  pub decode_organization : Body → Result Bytes (Option AccountOrganization)
  pub decode_switch : Body → Result Bytes OrganizationSwitchResponse
  pub decode_permissions : Body → Result Bytes AccountPermissionSummary
  pub decode_check : Body → Result Bytes PermissionCheckResponse
  pub decode_preview : Body → Result Bytes InvitationPreview
  pub decode_accept : Body → Result Bytes InvitationAcceptResponse

-- A nil `out`
abbrev ignored : Body → Result Bytes (Unit {0})
ignored body = ok tt

-- `if value == "" { return nil, errors.New(...) }`
unfoldable pub required : {A : Type 0} → Bytes → Bytes → Log → (Bytes → Did A) → Did A
required value message l go =
    if str_eq value [] then (err (invalid_argument message), l) else go value

-- The access token without its scheme, which is required
unfoldable pub with_token : {A : Type 0} → Bytes → Log → (Bytes → Did A) → Did A
unfolding required
with_token access_token =
    required (normalize_bearer access_token) (bytes "iam: access token is required")

abbrev optional_member : Bytes → Bytes → List (Bytes × Bytes)
optional_member name value = if str_eq value [] then [] else (name, value) ∷ []

module _ (b : Backoff) (v : Server) (c : SdkConfig) (k : Codec) where
  -- `GetAccountProfile`, and `GetMe` that calls it
  unfoldable pub get_account_profile : Bytes → Log → Did UserProfile
  get_account_profile access_token l = with_token access_token l (λ t.
      do_json_retry b v c (bearer t) (bytes "GET") (bytes "/api/v1/auth/me/profile") none
        k.decode_profile l)

  -- `UpdateAccountProfile`
  unfoldable pub update_account_profile :
      Bytes → AccountUpdateProfileRequest → Log → Did UserProfile
  update_account_profile access_token input l = with_token access_token l (λ t.
      do_json_retry b v c (bearer t) (bytes "PATCH") (bytes "/api/v1/auth/me/profile")
        (some (k.marshal_profile input)) k.decode_profile l)

  -- `GetAccountSecuritySummary`
  unfoldable pub get_security_summary : Bytes → Log → Did AccountSecuritySummary
  get_security_summary access_token l = with_token access_token l (λ t.
      do_json_retry b v c (bearer t) (bytes "GET") (bytes "/api/v1/auth/me/security") none
        k.decode_security l)

  -- `SendEmailVerification`
  unfoldable pub send_email_verification : Bytes → Log → Did EmailVerificationResponse
  send_email_verification email l =
      required (trim_space email) (bytes "iam: email is required") l (λ trimmed.
        do_json_retry b v c unsigned (bytes "POST") (bytes "/api/v1/auth/email/verification/send")
          (some (k.marshal_map ((bytes "email", email) ∷ (bytes "client_id", c.client_id) ∷ [])))
          k.decode_verification l)

  -- `VerifyEmail`
  unfoldable pub verify_email : Bytes → Log → Did EmailVerificationResponse
  verify_email token l =
      required (trim_space token) (bytes "iam: verification token is required") l (λ t.
        do_json_retry b v c unsigned (bytes "POST") (bytes "/api/v1/auth/email/verification/verify")
          (some (k.marshal_map ((bytes "token", t) ∷ []))) k.decode_verification l)

  -- `ChangePassword`
  unfoldable pub change_password : Bytes → PasswordChangeRequest → Log → Did (Unit {0})
  change_password access_token input l = with_token access_token l (λ t.
      do_json_retry b v c (bearer t) (bytes "POST") (bytes "/api/v1/auth/password/change")
        (some (k.marshal_password input)) ignored l)

  -- `RequestPasswordReset`
  unfoldable pub request_password_reset : Bytes → Bytes → Log → Did (Unit {0})
  request_password_reset email redirect_uri l =
      required (trim_space email) (bytes "iam: email is required") l (λ trimmed.
        do_json_retry b v c unsigned (bytes "POST") (bytes "/api/v1/auth/password/forgot")
          (some (
            k.marshal_map (
              (bytes "email", email)
              ∷ (bytes "client_id", c.client_id)
              ∷ (if str_eq (trim_space redirect_uri) []
                  then []
                  else (bytes "redirect_uri", redirect_uri) ∷ []))))
          ignored l)

  -- `ResetPassword`
  unfoldable pub reset_password : Bytes → Bytes → Log → Did (Unit {0})
  reset_password token new_password l =
      required (trim_space token) (bytes "iam: reset token is required") l (λ t.
        do_json_retry b v c unsigned (bytes "POST") (bytes "/api/v1/auth/password/reset")
          (some (k.marshal_map ((bytes "token", t) ∷ (bytes "newPassword", new_password) ∷ [])))
          ignored l)

  -- `ListAccountSessions`
  unfoldable pub list_sessions : Bytes → Log → Did (List SessionView)
  list_sessions access_token l = with_token access_token l (λ t.
      do_json_retry b v c (bearer t) (bytes "GET") (bytes "/api/v1/auth/sessions") none
        k.decode_sessions l)

  -- `RevokeAccountSession`
  unfoldable pub revoke_session : Bytes → Bytes → Log → Did (Unit {0})
  revoke_session access_token session_id l = with_token access_token l (λ t.
      required (trim_space session_id) (bytes "iam: session id is required") l (λ id.
        do_json_retry b v c (bearer t) (bytes "DELETE")
          (bytes "/api/v1/auth/sessions/" ++ path_escape id) none ignored l))

  -- `RevokeOtherAccountSessions`
  unfoldable pub revoke_other_sessions : Bytes → Log → Did (Unit {0})
  revoke_other_sessions access_token l = with_token access_token l (λ t.
      do_json_retry b v c (bearer t) (bytes "DELETE") (bytes "/api/v1/auth/sessions") none ignored
        l)

  -- `LogoutAccount`
  unfoldable pub logout : Bytes → Log → Did (Unit {0})
  logout access_token l = with_token access_token l (λ t.
      do_json_retry b v c (bearer t) (bytes "POST") (bytes "/api/v1/auth/logout") none ignored l)

  -- `ListAccountOrganizations`
  unfoldable pub list_organizations : Bytes → Log → Did (List AccountOrganization)
  list_organizations access_token l = with_token access_token l (λ t.
      do_json_retry b v c (bearer t) (bytes "GET") (bytes "/api/v1/auth/me/organizations") none
        k.decode_organizations l)

  -- `GetCurrentAccountOrganization`
  unfoldable pub get_current_organization : Bytes → Log → Did (Option AccountOrganization)
  get_current_organization access_token l = with_token access_token l (λ t.
      do_json_retry b v c (bearer t) (bytes "GET") (bytes "/api/v1/auth/me/organizations/current")
        none k.decode_organization l)

  -- `SwitchAccountOrganization`
  unfoldable pub switch_organization : Bytes → Bytes → Log → Did OrganizationSwitchResponse
  switch_organization access_token organization_id l = with_token access_token l (λ t.
      required (trim_space organization_id) (bytes "iam: organization id is required") l (λ trimmed.
        do_json_retry b v c (bearer t) (bytes "POST")
          (bytes "/api/v1/auth/me/organizations/current")
          (some (k.marshal_map ((bytes "organizationId", organization_id) ∷ []))) k.decode_switch
          l))

  abbrev pub has_organization : Bytes → Did (List AccountOrganization) → Did Bool
  has_organization id (err e, l) = (err e, l)
  has_organization id (ok orgs, l) = (ok (any (λ o. str_eq o.organization_id id) orgs), l)

  -- `HasAccountOrganizationMembership`
  unfoldable pub has_membership : Bytes → Bytes → Log → Did Bool
  has_membership access_token organization_id l =
      required (trim_space organization_id) (bytes "iam: organization id is required") l
        (λ id. has_organization id (list_organizations access_token l))

  -- `GetAccountPermissionSummary`
  unfoldable pub get_permission_summary : Bytes → Bytes → Log → Did AccountPermissionSummary
  get_permission_summary access_token organization_id l = with_token access_token l (λ t.
      do_json_retry b v c (bearer t) (bytes "GET")
        (bytes "/api/v1/auth/me/permissions"
          ++ (if str_eq (trim_space organization_id) []
              then []
              else bytes "?organizationId=" ++ query_escape (trim_space organization_id)))
        none k.decode_permissions l)

  -- `CheckAccountPermission`
  unfoldable pub check_permission : Bytes → Bytes → Bytes → Log → Did PermissionCheckResponse
  check_permission access_token permission organization_id l = with_token access_token l (λ t.
      required (trim_space permission) (bytes "iam: permission is required") l (λ p.
        do_json_retry b v c (bearer t) (bytes "POST") (bytes "/api/v1/auth/me/permissions:check")
          (some (
            k.marshal_map (
              (bytes "permission", p)
              ∷ optional_member (bytes "organizationId") (trim_space organization_id))))
          k.decode_check l))

  -- `PreviewOrganizationInvitation`
  unfoldable pub preview_invitation : Bytes → Log → Did InvitationPreview
  preview_invitation invitation_token l =
      required (trim_space invitation_token) (bytes "iam: invitation token is required") l (λ t.
        do_json_retry b v c unsigned (bytes "GET")
          (bytes "/api/v1/auth/organization-invitations/" ++ path_escape t) none k.decode_preview l)

  -- `AcceptOrganizationInvitation`
  unfoldable pub accept_invitation : Bytes → Bytes → Log → Did InvitationAcceptResponse
  accept_invitation invitation_token access_token l =
      required (trim_space invitation_token) (bytes "iam: invitation token is required") l (λ t.
        let token = normalize_bearer access_token in
        do_json_retry b v c (if str_eq token [] then unsigned else bearer token) (bytes "POST")
          (bytes "/api/v1/auth/organization-invitations/" ++ (path_escape t ++ bytes "/accept"))
          (some (k.marshal_map [])) k.decode_accept l)

-- `JWKS` from the response on; `status` is its line.
jwks_answer : (HttpResponse → Bytes) → Result Bytes HttpResponse → Result HttpError Bytes
jwks_answer status (err e) = err (transport e)
jwks_answer status (ok r) =
    if leb 400 r.status
    then err (invalid_answer (bytes "iam: jwks fetch failed: " ++ status r))
    else elim r.body.read_error [ some e ↦ err (transport e) | none ↦ ok r.body.content ]

jwks_sent : (HttpResponse → Bytes) → Server → Option Bytes → HttpRequest → Log → Did Bytes
unfolding jwks_answer
jwks_sent status v (some e) request l = (err (failed e), l)
jwks_sent status v none request l = (jwks_answer status (v.send l request), request ∷ l)

-- `JWKS`
unfoldable pub jwks : (HttpResponse → Bytes) → Server → Bytes → Log → Did Bytes
unfolding jwks_sent
jwks status v jwks_url l =
    jwks_sent status v (v.refused (bytes "GET") jwks_url)
      (record { method = bytes "GET"; url = jwks_url; headers = []; body = none }) l
