-- ===== src/Manifest/Client/Tests.antt =====
-- The client at concrete inputs, with servers that answer every request alike, and the theorems
-- applied to it.
use vertex_sdk_go.Prelude.{◌≡◌, refl, Bool, true, false, [], ◌∷◌, none, some, ok, err}
use vertex_sdk_go.Prelude.Int.{pos}
use vertex_sdk_go.Prelude.Strings.{Bytes, bytes, str_eq, class_match}
use vertex_sdk_go.Json.{open_object, close, decode_strict}
use vertex_sdk_go.Middleware.{equal_fold}
use vertex_sdk_go.Manifest.Text.{is_fingerprint}
use vertex_sdk_go.Manifest.Transport.{answered, execute, retryable}
use vertex_sdk_go.Manifest.Response.{
  ManifestResult, validate_manifest_result, check_items, check_drift, counts_match, same_identity,
}
use vertex_sdk_go.Manifest.{PermissionManifest, PreparedManifest}
use vertex_sdk_go.Manifest.Client.{Token, Client, Wire, Instants, fresh_command}
use vertex_sdk_go.Manifest.Client.Sending.{cached, lifetime, result_of, machine_token, send}
use vertex_sdk_go.Manifest.Client.Commands.{
  upsert_permission_manifest, StartupOptions, development_startup, continue_on_error, run_startup,
}
use vertex_sdk_go.Manifest.Client.Commands.Outcome.{
  Upserts, upsert-Upserts, IsHonest, run_startup-IsHonest,
}

abbrev client : Client
client = record {
  issuer_endpoint = bytes "https://id";
  portal_api_endpoint = bytes "https://portal";
  client_id = bytes "blog";
  client_secret = bytes "secret";
  token_skew = 30_000_000_000;
  max_retries = 2;
  max_retry_delay = 5_000_000_000;
  http_timeout = none;
  observer = true;
  token = none;
}

abbrev blog : PreparedManifest
blog = record {
  mode = bytes "validate";
  manifest_id = bytes "blog";
  revision = bytes "v1";
  fingerprint = bytes "0123456789abcdef0123456789abcdef0123456789abcdef0123456789abcdef";
  permissions = [];
}

abbrev servers : Wire
servers = record {
  network = λ r. record {
    reply = λ n. answered (record { status = 200; retry_after = []; body = bytes "{}" });
    cancelled = λ n. false;
  };
  refused_url = λ url. none;
  base64 = λ text. text;
  marshal = λ p. ok (bytes "{}");
  stream = λ body. record { tokens = open_object ∷ close ∷ []; ended = true };
  json_error_text = λ e. bytes "invalid JSON";
  decode_token = λ body. ok (record {
    access_token = bytes "token";
    token_type = bytes "Bearer";
    expires_in = pos 60;
    scope = bytes "permissions:sync";
  });
  decode_token_error = λ body. err (bytes "none");
  decode_error = λ body. err (bytes "none");
  decode_result = λ body. ok (record {
    mode = some blog.mode;
    manifest_id = some blog.manifest_id;
    revision = some blog.revision;
    fingerprint = some blog.fingerprint;
    applied = some false;
    results = some [];
    drift = some [];
    counts = some (record {
      created = some (pos 0);
      updated = some (pos 0);
      unchanged = some (pos 0);
      resurrected = some (pos 0);
      conflict = some (pos 0);
      drift = some (pos 0);
    });
  });
  result_error_text = λ e. bytes "invalid result";
}

abbrev result : ManifestResult
result = record {
  mode = blog.mode;
  manifest_id = blog.manifest_id;
  revision = blog.revision;
  fingerprint = blog.fingerprint;
  applied = false;
  results = [];
  drift = [];
  counts = record {
    created = pos 0;
    updated = pos 0;
    unchanged = pos 0;
    resurrected = pos 0;
    conflict = pos 0;
    drift = pos 0;
  };
}

abbrev instants : Instants
instants = record { token_test = 0; token_expiry = 1_000 }

abbrev token : Token
token = record { access_token = bytes "token"; expires_at = 30_000_001_000 }

abbrev path : Bytes
path = bytes "/sync"

token-obtained : (machine_token servers instants client fresh_command).result ≡ ok token
unfolding machine_token decode_strict execute cached lifetime str_eq equal_fold retryable
token-obtained = refl

sent : (send servers instants blog path [] client).result ≡ ok result
unfolding send machine_token execute cached lifetime result_of str_eq equal_fold decode_strict
    validate_manifest_result check_items check_drift counts_match same_identity is_fingerprint
    class_match retryable
sent = refl

abbrev empty_manifest : PermissionManifest
empty_manifest = record { manifest_id = bytes "blog"; revision = bytes "v1"; permissions = some [] }

abbrev all_normal : Bytes → Bool
all_normal text = true

abbrev digest : Bytes → Bytes
digest text = blog.fingerprint

upsert-Upserts_example :
    Upserts servers all_normal digest instants empty_manifest (bytes "deploy-1") client (
      upsert_permission_manifest servers all_normal digest instants empty_manifest
        (bytes "deploy-1")
        client)
upsert-Upserts_example =
    upsert-Upserts servers all_normal digest instants empty_manifest (bytes "deploy-1") client

abbrev options : StartupOptions
options = record {
  mode = development_startup;
  failure_policy = continue_on_error;
  idempotency_key = bytes "deploy-1";
  handler = true;
}

run_startup-IsHonest_example :
    IsHonest options
      (run_startup servers all_normal digest instants empty_manifest options (some client))
run_startup-IsHonest_example =
    run_startup-IsHonest servers all_normal digest instants empty_manifest options (some client)
