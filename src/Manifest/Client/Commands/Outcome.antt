-- ===== src/Manifest/Client/Commands/Outcome.antt =====
-- What the client's commands and the startup promise.
use vertex_sdk_go.Prelude.{
  ◌≡◌, ◌≢◌, refl, sym, ap, ◌∙◌, ◌⊎◌, inl, inr, Bool, true, false, Option, none, some, Result, ok,
  err, arith, Bool-cases,
}
use vertex_sdk_go.Prelude.Strings.{Bytes}
use vertex_sdk_go.Manifest.Text.{ManifestError, is_idempotency_key}
use vertex_sdk_go.Manifest.Response.{ManifestResult}
use vertex_sdk_go.Manifest.Response.Consistent.{IsConsistent}
use vertex_sdk_go.Manifest.{PermissionManifest, PreparedManifest, mode_upsert, prepare}
use vertex_sdk_go.Manifest.Client.{Client, ClientError, Wire, Instants, fresh_command}
use vertex_sdk_go.Manifest.Client.Sending.Budget.{IsWithin, fresh-IsWithin, send-IsWithin}
use vertex_sdk_go.Manifest.Client.Sending.Success.{send-IsConsistent}
use vertex_sdk_go.Manifest.Client.Commands.{
  Observed, refuse, sync_path, observe, observed, send_prepared, upsert_permission_manifest,
  StartupMode, disabled, ci_validate, deployment_upsert, development_startup, other_mode,
  FailurePolicy, unset, fail_fast, continue_on_error, other_policy, StartupOptions, ContinueEvent,
  StartupError, command_failed, Startup, stopped, goes_on, finish, refused_options, run_mode,
  run_client, run_checked, is_disabled, run_startup,
}

module _ (w : Wire) (is_nfc : Bytes → Bool) (sha256_hex : Bytes → Bytes) (t : Instants) where
  module _ (m : PermissionManifest) (key : Bytes) (c : Client) where
    -- An upsert either sends nothing and leaves the client alone, or sends the manifest that
    -- `PreparePermissionManifest` made of the given one, under a good key.
    pub record Upserts (o : Observed) : Type 0 where
      pub within : IsWithin c.max_retry_delay o.command
      pub quiet :
          ((prepared : PreparedManifest) → prepare is_nfc sha256_hex m mode_upsert ≢ ok prepared)
            ⊎ (is_idempotency_key key ≡ false)
          → (o.command ≡ fresh_command) × (o.client ≡ c)
      pub sound :
          (r : ManifestResult)
          → o.result ≡ ok r
          → (is_idempotency_key key ≡ true)
            × ((p : PreparedManifest) × (prepare is_nfc sha256_hex m mode_upsert ≡ ok p)
                × IsConsistent r p)

    refused-Upserts : (e : ClientError) → Upserts (refuse c e)
    refused-Upserts e = record {
      within = fresh-IsWithin c.max_retry_delay;
      quiet = λ h. (refl, refl);
      sound = λ r h. absurd (cc);
    }

    absent :
        {A : Type 0} (p : PreparedManifest) (r : Result ManifestError PreparedManifest)
        → r ≡ ok p
        → is_idempotency_key key ≡ true
        → ((q : PreparedManifest) → r ≢ ok q) ⊎ (is_idempotency_key key ≡ false)
        → A
    absent p r e good (inl h) = absurd (h p e)
    absent p r e good (inr h) = absurd (cc)

    prepared-Upserts :
        (r : Result ManifestError PreparedManifest)
        → prepare is_nfc sha256_hex m mode_upsert ≡ r
        → is_idempotency_key key ≡ true
        → Upserts (send_prepared w is_nfc sha256_hex t r key c)
    unfolding send_prepared observed observe
    prepared-Upserts (err e) same good = refused-Upserts _
    prepared-Upserts (ok p) same good = record {
      within = send-IsWithin w t p sync_path key c;
      quiet = absent p (prepare is_nfc sha256_hex m mode_upsert) same good;
      sound = λ r h. (good, (p, same, send-IsConsistent w p sync_path key r t c h));
    }

    -- `UpsertPermissionManifest` makes at most three requests in all. It makes none, and leaves the
    -- client as it was, where the manifest cannot be prepared or the key is malformed. A result that
    -- it returns answers the prepared manifest and is consistent.
    pub upsert-Upserts : Upserts (upsert_permission_manifest w is_nfc sha256_hex t m key c)
    unfolding upsert_permission_manifest
    upsert-Upserts = elim (Bool-cases (is_idempotency_key key)) [
      | inl e ↦ simp e (prepared-Upserts (prepare is_nfc sha256_hex m mode_upsert) refl e)
      | inr e ↦ simp e (refused-Upserts _)
    ]

-- What a startup may do, by its options.
pub record IsHonest (options : StartupOptions) (s : Startup) : Type 0 where
  pub swallowed :
      s.continued ≡ true
      → (options.mode ≡ development_startup)
        × (options.failure_policy ≡ continue_on_error)
        × (options.handler ≡ true)
        × ((e : ContinueEvent) × (s.event ≡ some e))
  pub reported :
      (o : Observed) (e : ClientError)
      → s.command ≡ some o
      → o.result ≡ err e
      → (s.error ≡ some (command_failed e)) ⊎ (s.continued ≡ true)
  pub succeeded :
      (o : Observed) (r : ManifestResult)
      → s.command ≡ some o
      → o.result ≡ ok r
      → (s.result ≡ some r) × (s.error ≡ none)
  pub idle : s.network_attempted ≡ false → s.command ≡ none

stopped-IsHonest : (options : StartupOptions) (e : StartupError) → IsHonest options (stopped e)
stopped-IsHonest options e = record {
  swallowed = λ h. absurd (cc);
  reported = λ o f h. absurd (cc);
  succeeded = λ o r h. absurd (cc);
  idle = λ h. refl;
}

same_result :
    (o p : Observed) (a b : Result ClientError ManifestResult)
    → some o ≡ some p
    → o.result ≡ a
    → p.result ≡ b
    → a ≡ b
same_result o p a b h same k =
    let who : o ≡ p = cc in sym same ∙ (ap (λ (x : Observed). x.result) who ∙ k)

finish-IsHonest :
    (options : StartupOptions) (on : Bool) (o : Observed) (r : Result ClientError ManifestResult)
    → o.result ≡ r
    → (on ≡ true
        → (options.mode ≡ development_startup)
          × (options.failure_policy ≡ continue_on_error)
          × (options.handler ≡ true))
    → IsHonest options (finish on o r)
unfolding finish
finish-IsHonest options on o (ok a) same allowed = record {
  swallowed = λ h. absurd (cc);
  reported = λ p e h k. absurd (cc (same_result o p (ok a) (err e) h same k));
  succeeded = λ p r h k. (cc (same_result o p (ok a) (ok r) h same k), refl);
  idle = λ h. absurd (cc);
}
finish-IsHonest options true o (err e) same allowed = record {
  swallowed = λ h. let (a, b, c) = allowed refl in (a, b, c, (_, refl));
  reported = λ p f h k. inr refl;
  succeeded = λ p r h k. absurd (cc (same_result o p (err e) (ok r) h same k));
  idle = λ h. absurd (cc);
}
finish-IsHonest options false o (err e) same allowed = record {
  swallowed = λ h. absurd (cc);
  reported = λ p f h k. inl (cc (same_result o p (err e) (err f) h same k));
  succeeded = λ p r h k. absurd (cc (same_result o p (err e) (ok r) h same k));
  idle = λ h. absurd (cc);
}

goes_on_allowed :
    (p : FailurePolicy) (handler : Bool)
    → refused_options development_startup p handler ≡ none
    → goes_on development_startup p ≡ true
    → (p ≡ continue_on_error) × (handler ≡ true)
unfolding goes_on refused_options
goes_on_allowed unset handler h k = cc
goes_on_allowed fail_fast handler h k = cc
goes_on_allowed continue_on_error handler h k = (refl, ground arith)
goes_on_allowed other_policy handler h k = cc

module _ (w : Wire) (is_nfc : Bytes → Bool) (sha256_hex : Bytes → Bytes) (t : Instants) where
  module _ (m : PermissionManifest) (options : StartupOptions) where
    run_mode-IsHonest :
        (mode : StartupMode) (c : Client)
        → options.mode ≡ mode
        → refused_options options.mode options.failure_policy options.handler ≡ none
        → IsHonest options (run_mode w is_nfc sha256_hex t m options mode c)
    unfolding run_mode
    run_mode-IsHonest disabled c e h = stopped-IsHonest options _
    run_mode-IsHonest other_mode c e h = stopped-IsHonest options _
    run_mode-IsHonest ci_validate c e h = finish-IsHonest options false _ _ refl (λ k. absurd (cc))
    run_mode-IsHonest deployment_upsert c e h =
        finish-IsHonest options false _ _ refl (λ k. absurd (cc))
    run_mode-IsHonest development_startup c e h =
        finish-IsHonest options (goes_on development_startup options.failure_policy) _ _ refl (λ k.
          let (a, b) =
            goes_on_allowed options.failure_policy options.handler
              (ap (λ x. refused_options x options.failure_policy options.handler) (sym e) ∙ h) k in
          (e, a, b))

    run_client-IsHonest :
        (c : Option Client)
        → refused_options options.mode options.failure_policy options.handler ≡ none
        → IsHonest options (run_client w is_nfc sha256_hex t m options c)
    run_client-IsHonest none h = stopped-IsHonest options _
    run_client-IsHonest (some c) h = run_mode-IsHonest options.mode c refl h

    run_checked-IsHonest :
        (c : Option Client) (e : Option StartupError)
        → refused_options options.mode options.failure_policy options.handler ≡ e
        → IsHonest options (run_checked w is_nfc sha256_hex t m options c e)
    run_checked-IsHonest c (some e) h = stopped-IsHonest options e
    run_checked-IsHonest c none h = run_client-IsHonest c h

    -- `RunPermissionManifestStartup` goes on after an error only in a development startup whose policy
    -- is to continue and that has a handler, which it tells. Every other error of a command it returns,
    -- and every result. Where it says that no network was attempted, it ran no command.
    pub run_startup-IsHonest :
        (c : Option Client) → IsHonest options (run_startup w is_nfc sha256_hex t m options c)
    unfolding run_startup
    run_startup-IsHonest c = elim (Bool-cases (is_disabled w is_nfc sha256_hex t options.mode)) [
      | inl e ↦ simp e (record {
        swallowed = λ h. absurd (cc);
        reported = λ o f h. absurd (cc);
        succeeded = λ o r h. absurd (cc);
        idle = λ h. refl;
      })
      | inr e ↦ simp e (run_checked-IsHonest c _ refl)
    ]
