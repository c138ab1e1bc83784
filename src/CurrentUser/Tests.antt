-- ===== src/CurrentUser/Tests.antt =====
-- A view at concrete inputs, with a decoder that finds every member, and the theorem applied to it.
use vertex_sdk_go.Prelude.{◌≡◌, refl, true, [], ◌∷◌, none, some, ok, err}
use vertex_sdk_go.Prelude.Strings.{Bytes, bytes, str_eq}
use vertex_sdk_go.Prelude.Utf8.{trim_space}
use vertex_sdk_go.Middleware.{equal_fold}
use vertex_sdk_go.CurrentUser.{
  CurrentUser, Decoding, Answer, response, token_required, required, refused_texts, refused_options,
  refused_bindings, parse_current_user, normalize_bearer, get_current_user,
}
use vertex_sdk_go.CurrentUser.Checks.{IsAnswered, get_current_user-IsAnswered}

abbrev user : CurrentUser
user = record {
  id = bytes "u1";
  email = some (bytes "u@example.com");
  username = none;
  status = bytes "ACTIVE";
  email_verified = true;
  authentication_context = record {
    subject_type = bytes "USER";
    application_id = bytes "app";
    client_id = bytes "web";
    session_id = bytes "s1";
    workspace_id = none;
    workspace_selection_required = true;
    organization_id = none;
    organization_slug = none;
    organization_role = none;
    auth_time = none;
    authentication_methods = some (bytes "pwd" ∷ []);
    assurance_level = none;
    impersonation = none;
  };
  metadata = some [];
}

abbrev decoding : Decoding
decoding = record {
  members = λ text. some (λ key. some (bytes "true"));
  decode = λ text. some user;
}

abbrev answer : Bytes → Answer
answer token = response 200 (some (bytes "{}"))

empty-refused : get_current_user decoding answer (bytes "  ") ≡ err token_required
unfolding get_current_user normalize_bearer trim_space equal_fold str_eq
empty-refused = refl

-- the scheme alone
scheme-token : normalize_bearer (bytes "Bearer  ") ≡ bytes "Bearer"
unfolding normalize_bearer trim_space equal_fold str_eq
scheme-token = refl

user-obtained : get_current_user decoding answer (bytes "bearer token") ≡ ok user
unfolding get_current_user normalize_bearer trim_space equal_fold str_eq parse_current_user required
    refused_texts refused_options refused_bindings
user-obtained = refl

get_current_user-IsAnswered_example : IsAnswered decoding answer (bytes "bearer token") user
get_current_user-IsAnswered_example =
    get_current_user-IsAnswered decoding answer (bytes "bearer token") user user-obtained
