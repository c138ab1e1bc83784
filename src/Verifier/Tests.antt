-- ===== src/Verifier/Tests.antt =====
-- The verifier over a toy go-jose, whose tokens are their key ID, and the theorem applied.
use vertex_sdk_go.Prelude.{◌≡◌, refl, ◌↔◌, [], ◌∷◌, none, some, ok, err, if◌then◌else◌}
use vertex_sdk_go.Prelude.Strings.{Bytes, bytes, str_eq}
use vertex_sdk_go.Jwks.{JwksProvider, Clock, key_by_id, needs_refresh, find_key, lookup}
use vertex_sdk_go.Verifier.{Claims, Jose, missing_kid, Verifier, verify}
use vertex_sdk_go.Verifier.Soundness.{IsAccepted, verify_iff}

abbrev sample : Claims Bytes
sample = record {
  registered = bytes "iss";
  subject = bytes "u1";
  app_id = bytes "app";
  email = [];
  workspace_id = [];
  org_id = [];
  org_slug = [];
  org_role = [];
  roles = bytes "admin" ∷ [];
  amr = [];
  acr = [];
  session_id = [];
  actor = none;
  extra = [];
}

abbrev toy : Jose
toy = record {
  Token = Bytes;
  Key = Bytes;
  Registered = Bytes;
  key_id = λ k. k;
  parse_signed = λ token algs. ok token;
  headers = λ token. token ∷ [];
  claims = λ token key. ok sample;
  validate = λ r e leeway. if str_eq r e.issuer then none else some (bytes "issuer");
}

abbrev verifier : Verifier
verifier = record {
  expected_issuer = bytes "iss";
  expected_audience = bytes "app";
  allowed_algorithms = bytes "RS256" ∷ [];
  leeway = 30;
}

abbrev provider : JwksProvider Bytes
provider = record {
  jwks_url = bytes "u";
  refresh = 3_600;
  set = some (bytes "k1" ∷ []);
  last_fetch = 990;
  last_forced_refresh = 0;
  cooldown = 10;
}

abbrev clock : Clock
clock = record {
  first_lookup = 1_000;
  cooldown_test = 1_000;
  stored = 1_001;
  second_lookup = 1_001;
}

accepts : (verify toy verifier clock 1_000 (err (bytes "down")) provider (bytes "k1")).0 ≡ ok sample
unfolding verify key_by_id lookup needs_refresh find_key str_eq
accepts = refl

-- A token without a key ID is refused.
no_kid : (verify toy verifier clock 1_000 (err (bytes "down")) provider []).0 ≡ err missing_kid
unfolding verify str_eq
no_kid = refl

verify_iff_example :
    ((verify toy verifier clock 1_000 (err (bytes "down")) provider (bytes "k1")).0 ≡ ok sample)
    ↔ IsAccepted toy verifier clock 1_000 (err (bytes "down")) provider (bytes "k1") sample
verify_iff_example =
    verify_iff toy verifier clock 1_000 (err (bytes "down")) provider (bytes "k1") sample
