-- ===== src/Http/Samples.antt =====
-- A way to repeat attempts that keeps what backoff promises, a configuration and a server, with the
-- formats of the account, for the tests.
use vertex_sdk_go.Prelude.{ℕ, zero, suc, ◌≡◌, refl, true, false, [], ◌∷◌, none, Result, ok, err}
use vertex_sdk_go.Prelude.Int.{pos}
use vertex_sdk_go.Prelude.Strings.{bytes}
use vertex_sdk_go.Config.{SdkConfig, resolve_on_demand, fail_close}
use vertex_sdk_go.Json.{open_object, close}
use vertex_sdk_go.Portal.{HttpResponse}
use vertex_sdk_go.Http.Account.{Codec}
use vertex_sdk_go.Http.{
  Log, Did, Failed, permanent, again, Attempt, Runs, success, no_more, gave_up, retried, Backoff,
  Server,
}

abbrev stop : {A : Type 0} → Result Failed A × Log → Did A
stop (ok a, l) = (ok a, l)
stop (err (permanent e), l) = (err e, l)
stop (err (again e), l) = (err e, l)

abbrev go_on : {A : Type 0} → Result Failed A × Log → (Log → Did A) → Did A
go_on (ok a, l) next = (ok a, l)
go_on (err (permanent e), l) next = (err e, l)
go_on (err (again e), l) next = next l

abbrev repeat : {A : Type 0} → ℕ → Attempt A → Log → Did A
repeat zero op l = stop (op l)
repeat (suc n) op l = go_on (op l) (repeat n op)

module _ {A : Type 0} (op : Attempt A) where
  stop-Runs : (l : Log) (d : Result Failed A × Log) → op l ≡ d → Runs op zero l (stop d)
  stop-Runs l (ok a, l') h = success a h
  stop-Runs l (err (permanent e), l') h = no_more e h
  stop-Runs l (err (again e), l') h = gave_up e h

  go_on-Runs :
      (n : ℕ) (l : Log) (d : Result Failed A × Log)
      → op l ≡ d
      → ((l' : Log) → Runs op n l' (repeat n op l'))
      → Runs op (suc n) l (go_on d (repeat n op))
  go_on-Runs n l (ok a, l') h next = success a h
  go_on-Runs n l (err (permanent e), l') h next = no_more e h
  go_on-Runs n l (err (again e), l') h next = retried e h (next l')

  pub repeat-Runs : (n : ℕ) (l : Log) → Runs op n l (repeat n op l)
  repeat-Runs zero l = stop-Runs l (op l) refl
  repeat-Runs (suc n) l = go_on-Runs n l (op l) refl (repeat-Runs n)

abbrev pub patient : Backoff
patient = record {
  retry = λ {A} n op l. repeat n op l;
  retry_runs = λ {A} n op l. repeat-Runs op n l;
}

abbrev pub config : SdkConfig
config = record {
  endpoint = bytes "https://iam/";
  client_id = bytes "blog";
  client_secret = bytes "secret";
  audience = bytes "blog";
  issuer = bytes "https://iam";
  jwks_refresh = pos 1;
  permission_cache_ttl = pos 1;
  permission_cache_max = pos 1;
  user_profile_cache_ttl = pos 1;
  user_profile_cache_max = pos 1;
  disable_user_profile_cache = false;
  resolve_mode = resolve_on_demand;
  fail_mode = fail_close;
  http_timeout = pos 1;
  max_retries = pos 2;
}

abbrev pub response : ℕ → HttpResponse
response status = record {
  status = status;
  headers = λ name. [];
  body = record { content = bytes "{}"; read_error = none };
}

-- Unavailable at first
abbrev first_answer : Log → HttpResponse
first_answer [] = response 503
first_answer (r ∷ rs) = response 200

abbrev pub shaky : Server
shaky = record {
  send = λ l r. ok (first_answer l);
  refused = λ method url. none;
  is_done = λ l. false;
  is_context_error = λ e. false;
  base64 = λ s. s;
  stream = λ s. record { tokens = open_object ∷ close ∷ []; ended = true };
}

-- Always the same status
abbrev pub steady : ℕ → Server
steady status = record shaky { send = λ l r. ok (response status) }

abbrev pub account_codec : Codec
account_codec = record {
  marshal_map = λ m. ok (bytes "{}");
  marshal_profile = λ p. ok (bytes "{}");
  marshal_password = λ p. ok (bytes "{}");
  decode_profile = λ body. err (bytes "none");
  decode_security = λ body. err (bytes "none");
  decode_verification = λ body. err (bytes "none");
  decode_sessions = λ body. err (bytes "none");
  decode_organizations = λ body. err (bytes "none");
  decode_organization = λ body. err (bytes "none");
  decode_switch = λ body. err (bytes "none");
  decode_permissions = λ body. err (bytes "none");
  decode_check = λ body. err (bytes "none");
  decode_preview = λ body. err (bytes "none");
  decode_accept = λ body. err (bytes "none");
}
