-- ===== src/CurrentUser.antt =====
-- current_user.go, with `normalizeBearer` of client.go: the view of the authenticated user that the server gives, and the checks that it
-- must pass. The decoding of JSON is encoding/json's: `members` is that of an object into its members
-- by name with their texts, `decode` that into the struct.
pub mod Checks
mod Tests
use vertex_sdk_go.Prelude.{
  ℕ, ◌+◌, Bool, true, false, not, ◌&&◌, ◌||◌, List, [], ◌∷◌, ◌++◌, Option, none, some, Result, ok,
  err, ◌>>=◌, ◌>>◌, length, take, drop, ltb, leb, ◌==◌, all, any, if◌then◌else◌,
}
use vertex_sdk_go.Prelude.Strings.{Bytes, bytes, str_eq}
use vertex_sdk_go.Prelude.Utf8.{trim_space}
use vertex_sdk_go.Middleware.{equal_fold}

pub record ImpersonationContext : Type 0 where
  pub actor_id : Bytes
  pub impersonation_id : Bytes

-- `auth_time` is the text of the time.
pub record AuthenticationContext : Type 0 where
  pub subject_type : Bytes
  pub application_id : Bytes
  pub client_id : Bytes
  pub session_id : Bytes
  pub workspace_id : Option Bytes
  pub workspace_selection_required : Bool
  pub organization_id : Option Bytes
  pub organization_slug : Option Bytes
  pub organization_role : Option Bytes
  pub auth_time : Option Bytes
  pub authentication_methods : Option (List Bytes)
  pub assurance_level : Option Bytes
  pub impersonation : Option ImpersonationContext

pub record CurrentUser : Type 0 where
  pub id : Bytes
  pub email : Option Bytes
  pub username : Option Bytes
  pub status : Bytes
  pub email_verified : Bool
  pub authentication_context : AuthenticationContext
  pub metadata : Option (List (Bytes × Bytes))

abbrev pub Members : Type 0
Members = Bytes → Option Bytes

pub record Decoding : Type 0 where
  pub members : Bytes → Option Members
  pub decode : Bytes → Option CurrentUser

pub data UserError : Type 0 where
  token_required context_ended transport_failed invalid_response invalid_view : UserError
  http_status : ℕ → UserError

-- `strings.TrimSpace(s) == ""`
abbrev pub blank : Bytes → Bool
blank s = str_eq (trim_space s) []

abbrev pub present : Option Bytes → Bool
present none = false
present (some s) = true

-- the function `required`
unfoldable pub required : Members → List Bytes → Bool
required m = all (λ k. present (m k))

abbrev is_text : Bytes → Option Bytes → Bool
is_text s none = false
is_text s (some t) = str_eq t s

-- `string(m[key]) == "null"`
abbrev is_null : Members → Bytes → Bool
is_null m key = is_text (bytes "null") (m key)

-- the text of a member, empty if there is none
abbrev text_of : Option Bytes → Bytes
text_of none = []
text_of (some t) = t

-- `s != nil && strings.TrimSpace(*s) == ""`
abbrev pub blank_if_set : Option Bytes → Bool
blank_if_set none = false
blank_if_set (some s) = blank s

abbrev root_keys : List Bytes
root_keys =
    bytes "id"
    ∷ bytes "email"
    ∷ bytes "username"
    ∷ bytes "status"
    ∷ bytes "emailVerified"
    ∷ bytes "authenticationContext"
    ∷ bytes "metadata"
    ∷ []

abbrev context_keys : List Bytes
context_keys =
    bytes "subjectType"
    ∷ bytes "applicationId"
    ∷ bytes "clientId"
    ∷ bytes "sessionId"
    ∷ bytes "workspaceId"
    ∷ bytes "workspaceSelectionRequired"
    ∷ bytes "organizationId"
    ∷ bytes "organizationSlug"
    ∷ bytes "organizationRole"
    ∷ bytes "authTime"
    ∷ bytes "authenticationMethods"
    ∷ bytes "assuranceLevel"
    ∷ bytes "impersonation"
    ∷ []

abbrev is_nil : {A : Type 0} → Option A → Bool
is_nil none = true
is_nil (some a) = false

abbrev blank_methods : Option (List Bytes) → Bool
blank_methods none = true
blank_methods (some ms) = any blank ms

abbrev blank_impersonation : Option ImpersonationContext → Bool
blank_impersonation none = false
blank_impersonation (some i) = blank i.actor_id || blank i.impersonation_id

-- the last five tests of `ParseCurrentUser`, whether one of them refuses the view
unfoldable pub refused_texts : CurrentUser → Bool
refused_texts out =
    let c = out.authentication_context in
    not (str_eq c.subject_type (bytes "USER"))
    || blank out.id
    || blank out.status
    || blank c.application_id
    || blank c.client_id
    || blank c.session_id
    || blank_methods c.authentication_methods

unfoldable pub refused_options : CurrentUser → Bool
refused_options out =
    let c = out.authentication_context in
    blank_if_set out.email
    || blank_if_set out.username
    || blank_if_set c.workspace_id
    || blank_if_set c.organization_id
    || blank_if_set c.organization_slug
    || blank_if_set c.organization_role
    || blank_if_set c.assurance_level

unfoldable pub refused_bindings : AuthenticationContext → Bool
refused_bindings c =
    c.workspace_selection_required && present c.workspace_id
    || is_nil c.organization_id && (present c.organization_slug || present c.organization_role)
    || blank_impersonation c.impersonation

refuse_if : Bool → Result UserError (Unit {0})
refuse_if true = err invalid_view
refuse_if false = ok tt

decoded : {A : Type 0} → Option A → Result UserError A
decoded none = err invalid_view
decoded (some a) = ok a

-- `ParseCurrentUser` from the tests of the texts on
accepted : CurrentUser → Result UserError CurrentUser
unfolding refuse_if
accepted out = do
  refuse_if (refused_texts out)
  refuse_if (refused_options out)
  refuse_if (refused_bindings out.authentication_context)
  ok out

with_context : CurrentUser → Members → Result UserError CurrentUser
unfolding accepted refuse_if
with_context out raw = do
  refuse_if (not (required raw context_keys) || is_null raw (bytes "workspaceSelectionRequired"))
  accepted out

refused_root : Members → CurrentUser → Bool
refused_root root out =
    not (required root root_keys) || is_null root (bytes "emailVerified") || is_nil out.metadata

with_root : Decoding → Members → CurrentUser → Result UserError CurrentUser
unfolding with_context refused_root refuse_if decoded
with_root j root out = do
  refuse_if (refused_root root out)
  raw ← decoded (j.members (text_of (root (bytes "authenticationContext"))))
  with_context out raw

-- `ParseCurrentUser`
unfoldable pub parse_current_user : Decoding → Bytes → Result UserError CurrentUser
unfolding decoded with_root
parse_current_user j text = do
  root ← decoded (j.members text)
  out ← decoded (j.decode text)
  with_root j root out

-- What the server's answer comes to: no response, with whether the context has ended, or a status and
-- a body; `none` is a body that cannot be read. At most one byte more than 1 MiB of it is read.
pub data Answer : Type 0 where
  no_response : Bool → Answer
  response : ℕ → Option Bytes → Answer

-- `normalizeBearer`
unfoldable pub normalize_bearer : Bytes → Bytes
normalize_bearer access_token =
    let token = trim_space access_token in
    if leb 7 (length token) && equal_fold (take 7 token) (bytes "Bearer ")
    then trim_space (drop 7 token)
    else token

body_view : Decoding → Option Bytes → Result UserError CurrentUser
body_view j none = err invalid_response
body_view j (some body) =
    if ltb 1_048_576 (length body) then err invalid_response else parse_current_user j body

answer_view : Decoding → Answer → Result UserError CurrentUser
unfolding body_view
answer_view j (no_response ended) = if ended then err context_ended else err transport_failed
answer_view j (response status body) =
    if ltb status 200 || leb 300 status then err (http_status status) else body_view j body

-- `GetCurrentUser`; `answer` is that of the server to the request with the token.
unfoldable pub get_current_user : Decoding → (Bytes → Answer) → Bytes → Result UserError CurrentUser
unfolding answer_view
get_current_user j answer access_token =
    let token = normalize_bearer access_token in
    if str_eq token [] then err token_required else answer_view j (answer token)
