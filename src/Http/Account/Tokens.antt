-- ===== src/Http/Account/Tokens.antt =====
-- What the operations of an account do without an access token, and with one.
use vertex_sdk_go.Prelude.{◌≡◌, refl, true, [], err}
use vertex_sdk_go.Prelude.Strings.{Bytes, bytes, str_eq, str_eq_iff}
use vertex_sdk_go.Config.{SdkConfig}
use vertex_sdk_go.CurrentUser.{normalize_bearer}
use vertex_sdk_go.Http.{invalid_argument, Log, Did, Backoff, Server}
use vertex_sdk_go.Http.Account.{
  AccountUpdateProfileRequest, PasswordChangeRequest, Codec, with_token, get_account_profile,
  update_account_profile, get_security_summary, change_password, list_sessions, revoke_session,
  revoke_other_sessions, logout, list_organizations, get_current_organization, switch_organization,
  get_permission_summary, check_permission,
}

-- The operation fails for want of a token, and sends nothing.
abbrev pub NeedsToken : {A : Type 0} → Log → Did A → Type 0
NeedsToken l d = d ≡ (err (invalid_argument (bytes "iam: access token is required")), l)

without_token :
    {A : Type 0} (access_token : Bytes) (l : Log) (go : Bytes → Did A)
    → normalize_bearer access_token ≡ []
    → NeedsToken l (with_token access_token l go)
unfolding with_token
without_token access_token l go h =
    let empty : str_eq (normalize_bearer access_token) [] ≡ true =
      (str_eq_iff (normalize_bearer access_token) []).1 h in
    simp empty refl

-- Each operation of an account fails without sending anything if its access token is empty once the spaces and
-- the scheme are taken away.
pub operations-NeedsToken :
    (b : Backoff) (v : Server) (c : SdkConfig) (k : Codec) (access_token id : Bytes)
    (permission : Bytes) (profile : AccountUpdateProfileRequest) (password : PasswordChangeRequest)
    (l : Log)
    → normalize_bearer access_token ≡ []
    → NeedsToken l (get_account_profile b v c k access_token l)
      × NeedsToken l (update_account_profile b v c k access_token profile l)
      × NeedsToken l (get_security_summary b v c k access_token l)
      × NeedsToken l (change_password b v c k access_token password l)
      × NeedsToken l (list_sessions b v c k access_token l)
      × NeedsToken l (revoke_session b v c k access_token id l)
      × NeedsToken l (revoke_other_sessions b v c k access_token l)
      × NeedsToken l (logout b v c k access_token l)
      × NeedsToken l (list_organizations b v c k access_token l)
      × NeedsToken l (get_current_organization b v c k access_token l)
      × NeedsToken l (switch_organization b v c k access_token id l)
      × NeedsToken l (get_permission_summary b v c k access_token id l)
      × NeedsToken l (check_permission b v c k access_token permission id l)
unfolding get_account_profile update_account_profile get_security_summary change_password
    list_sessions revoke_session revoke_other_sessions logout list_organizations
    get_current_organization switch_organization get_permission_summary check_permission
operations-NeedsToken b v c k access_token id permission profile password l h = (
  without_token access_token l _ h,
  without_token access_token l _ h,
  without_token access_token l _ h,
  without_token access_token l _ h,
  without_token access_token l _ h,
  without_token access_token l _ h,
  without_token access_token l _ h,
  without_token access_token l _ h,
  without_token access_token l _ h,
  without_token access_token l _ h,
  without_token access_token l _ h,
  without_token access_token l _ h,
  without_token access_token l _ h,
)
