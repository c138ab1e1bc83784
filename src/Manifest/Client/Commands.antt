-- ===== src/Manifest/Client/Commands.antt =====
-- permission_manifest.go: the client's commands, and the startup that runs one of them.
pub mod Outcome
use vertex_sdk_go.Prelude.{
  ℕ, Bool, true, false, not, ◌&&◌, ◌||◌, List, [], ◌∷◌, Option, none, some, Result, ok, err, ◌==◌,
  if◌then◌else◌,
}
use vertex_sdk_go.Prelude.Int.{ℤ, pos}
use vertex_sdk_go.Prelude.Strings.{Bytes, bytes}
use vertex_sdk_go.Manifest.Text.{ManifestError, is_idempotency_key}
use vertex_sdk_go.Manifest.Transport.{
  Command, Failure, response_size_exceeded, command_timeout, transport_error, context_done, panic,
}
use vertex_sdk_go.Manifest.Response.{ManifestResult}
use vertex_sdk_go.Manifest.{
  PermissionManifest, PreparedManifest, mode_validate, mode_upsert, prepare,
}
use vertex_sdk_go.Manifest.Client.{
  Client, ClientError, invalid_manifest, invalid_idempotency_key, bad_request, no_answer, protocol,
  Wire, Instants, fresh_command,
}
use vertex_sdk_go.Manifest.Client.Sending.{Sent, send}

-- What an error is as a `PermissionManifestError`, if it is one: its status and its code.
unfoldable pub protocol_of : ClientError → Option (ℤ × Bytes)
protocol_of (invalid_manifest e) = none
protocol_of invalid_idempotency_key = none
protocol_of (bad_request e) = none
protocol_of (no_answer command_timeout) = some (pos 0, bytes "COMMAND_TIMEOUT")
protocol_of (no_answer (transport_error e)) = some (pos 0, bytes "TRANSPORT_ERROR")
protocol_of (no_answer (response_size_exceeded status)) =
    some (pos status, bytes "RESPONSE_SIZE_EXCEEDED")
protocol_of (no_answer context_done) = none
protocol_of (no_answer panic) = none
protocol_of (protocol e) = some (e.status, e.code)

-- `PermissionManifestObservation`, less its duration
pub record Observation : Type 0 where
  pub mode : Bytes
  pub outcome : Bytes
  pub status : ℤ

pub record Observed : Type 0 where
  pub result : Result ClientError ManifestResult
  pub client : Client
  pub command : Command
  pub observation : Option Observation

abbrev status_or_zero : Option (ℤ × Bytes) → ℤ
status_or_zero none = pos 0
status_or_zero (some e) = e.0

observation_of : Bytes → Result ClientError ManifestResult → Observation
observation_of mode (ok r) = record { mode = mode; outcome = bytes "SUCCESS"; status = pos 200 }
observation_of mode (err e) = record {
  mode = mode;
  outcome = bytes "ERROR";
  status = status_or_zero (protocol_of e);
}

-- A command that ends before it sends anything.
abbrev refuse : Client → ClientError → Observed
refuse c e = record { result = err e; client = c; command = fresh_command; observation = none }

-- `ClearPermissionManifestTokenCache`
pub clear_token_cache : Client → Client
clear_token_cache c = record c { token = none }

abbrev sync_path : Bytes
sync_path = bytes "/open/v1/permission-manifests:sync"

module _ (w : Wire) (is_nfc : Bytes → Bool) (sha256_hex : Bytes → Bytes) (t : Instants) where
  observe : PreparedManifest → Sent ManifestResult → Observed
  unfolding observation_of
  observe p s = record {
    result = s.result;
    client = s.client;
    command = s.command;
    observation = if s.client.observer then some (observation_of p.mode s.result) else none;
  }

  observed : PreparedManifest → Bytes → Bytes → Client → Observed
  unfolding observe
  observed p path idempotency_key c = observe p (send w t p path idempotency_key c)

  -- A command from the preparation of its manifest on.
  send_prepared : Result ManifestError PreparedManifest → Bytes → Client → Observed
  unfolding observed
  send_prepared (err e) idempotency_key c = refuse c (invalid_manifest e)
  send_prepared (ok p) idempotency_key c = observed p sync_path idempotency_key c

  pub validate_permission_manifest : PermissionManifest → Client → Observed
  unfolding send_prepared
  validate_permission_manifest m c = send_prepared (prepare is_nfc sha256_hex m mode_validate) [] c

  pub upsert_permission_manifest : PermissionManifest → Bytes → Client → Observed
  unfolding send_prepared
  upsert_permission_manifest m idempotency_key c =
      if not (is_idempotency_key idempotency_key)
      then refuse c invalid_idempotency_key
      else send_prepared (prepare is_nfc sha256_hex m mode_upsert) idempotency_key c

pub data StartupMode : Type 0 where
  disabled ci_validate deployment_upsert development_startup other_mode : StartupMode

pub data FailurePolicy : Type 0 where
  unset fail_fast continue_on_error other_policy : FailurePolicy

-- `handler` says whether `OnContinueError` is given.
pub record StartupOptions : Type 0 where
  pub mode : StartupMode
  pub failure_policy : FailurePolicy
  pub idempotency_key : Bytes
  pub handler : Bool

pub record ContinueEvent : Type 0 where
  pub mode : Bytes
  pub outcome : Bytes
  pub status : ℤ
  pub code : Bytes

pub data StartupError : Type 0 where
  policy_required handler_required client_required unknown_mode : StartupError
  command_failed : ClientError → StartupError

-- What `RunPermissionManifestStartup` returns, the event that it gives the handler, and the command
-- that it ran, if it ran one.
pub record Startup : Type 0 where
  pub network_attempted : Bool
  pub continued : Bool
  pub result : Option ManifestResult
  pub error : Option StartupError
  pub event : Option ContinueEvent
  pub command : Option Observed

abbrev stopped : StartupError → Startup
stopped e = record {
  network_attempted = false;
  continued = false;
  result = none;
  error = some e;
  event = none;
  command = none;
}

abbrev idle : Startup
idle = record {
  network_attempted = false;
  continued = false;
  result = none;
  error = none;
  event = none;
  command = none;
}

-- whether the options let the program go on after an error
unfoldable pub goes_on : StartupMode → FailurePolicy → Bool
goes_on development_startup continue_on_error = true
goes_on _ _ = false

event_of : Option (ℤ × Bytes) → ContinueEvent
event_of none = record {
  mode = bytes "DEVELOPMENT_STARTUP";
  outcome = bytes "CONTINUED";
  status = pos 0;
  code = bytes "UNEXPECTED_ERROR";
}
event_of (some e) = record {
  mode = bytes "DEVELOPMENT_STARTUP";
  outcome = bytes "CONTINUED";
  status = e.0;
  code = e.1;
}

-- `RunPermissionManifestStartup` from the command's result on
finish : Bool → Observed → Result ClientError ManifestResult → Startup
unfolding event_of
finish goes_on_ o (ok r) = record {
  network_attempted = true;
  continued = false;
  result = some r;
  error = none;
  event = none;
  command = some o;
}
finish true o (err e) = record {
  network_attempted = true;
  continued = true;
  result = none;
  error = none;
  event = some (event_of (protocol_of e));
  command = some o;
}
finish false o (err e) = record {
  network_attempted = true;
  continued = false;
  result = none;
  error = some (command_failed e);
  event = none;
  command = some o;
}

-- The two tests of a development startup's options.
refused_options : StartupMode → FailurePolicy → Bool → Option StartupError
refused_options development_startup unset handler = some policy_required
refused_options development_startup continue_on_error handler =
    if handler then none else some handler_required
refused_options _ _ handler = none

module _ (w : Wire) (is_nfc : Bytes → Bool) (sha256_hex : Bytes → Bytes) (t : Instants) where
  -- the `switch`
  run_mode : PermissionManifest → StartupOptions → StartupMode → Client → Startup
  unfolding finish
  run_mode m options disabled c = stopped unknown_mode
  run_mode m options other_mode c = stopped unknown_mode
  run_mode m options ci_validate c =
      let o = validate_permission_manifest w is_nfc sha256_hex t m c in finish false o o.result
  run_mode m options deployment_upsert c =
      let o = upsert_permission_manifest w is_nfc sha256_hex t m options.idempotency_key c in
      finish false o o.result
  run_mode m options development_startup c =
      let o = upsert_permission_manifest w is_nfc sha256_hex t m options.idempotency_key c in
      finish (goes_on development_startup options.failure_policy) o o.result

  abbrev run_client : PermissionManifest → StartupOptions → Option Client → Startup
  run_client m options none = stopped client_required
  run_client m options (some c) = run_mode m options options.mode c

  abbrev run_checked :
      PermissionManifest → StartupOptions → Option Client → Option StartupError → Startup
  run_checked m options c (some e) = stopped e
  run_checked m options c none = run_client m options c

  abbrev is_disabled : StartupMode → Bool
  is_disabled disabled = true
  is_disabled _ = false

  pub run_startup : PermissionManifest → StartupOptions → Option Client → Startup
  unfolding run_mode refused_options
  run_startup m options c =
      if is_disabled options.mode
      then idle
      else run_checked m options c
          (refused_options options.mode options.failure_policy options.handler)
