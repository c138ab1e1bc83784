-- ===== src/Manifest/Client/Sending/Budget.antt =====
-- What a command of the client spends, what its success means, and the life of its token.
use mathlib.Core.Path.{subst}
use vertex_sdk_go.Prelude.{
  ℕ, ◌+◌, ◌≤◌, ◌≡◌, refl, sym, ◌∙◌, Option, none, some, Result, ok, err, All,
}
use vertex_sdk_go.Prelude.Strings.{Bytes}
use vertex_sdk_go.Manifest.Transport.{Network, Command, Run, execute}
use vertex_sdk_go.Manifest.Transport.Budget.{execute-Spends}
use vertex_sdk_go.Manifest.{PreparedManifest}
use vertex_sdk_go.Manifest.Client.{
  Token, Client, ClientError, TokenPayload, Wire, Instants, fresh_command,
}
use vertex_sdk_go.Manifest.Client.Sending.{
  cached, token_from, send_encoded, token_url, granted, token_of, token_request, token_answered,
  request_token, machine_token, manifest_answered, send_body, send_with, send,
}

-- A command within its budget of three attempts, whose waits are within the client's limit.
pub record IsWithin (limit : ℕ) (s : Command) : Type 0 where
  pub counted : s.sent + s.attempts ≡ 3
  pub waits : All (λ d. d ≤ limit) s.delays

pub fresh-IsWithin : (limit : ℕ) → IsWithin limit fresh_command
fresh-IsWithin limit = record { counted = refl; waits = tt }

execute-IsWithin :
    (net : Network) (retries limit : ℕ) (s : Command)
    → IsWithin limit s
    → IsWithin limit (execute net retries limit s).1
execute-IsWithin net retries limit s h =
    let spent = execute-Spends net retries limit s in
    record { counted = spent.counted ∙ h.counted; waits = spent.waits h.waits }

-- A step of a command that stays within the budget and keeps the client's limit.
record Keeps (limit : ℕ) (c : Client) (s : Command) : Type 0 where
  limit_kept : c.max_retry_delay ≡ limit
  within : IsWithin limit s

module _ (w : Wire) (t : Instants) (limit : ℕ) where
  granted-Keeps :
      (c : Client) (s : Command) (p : Result ClientError TokenPayload)
      → Keeps limit c s
      → Keeps limit (granted w t c s p).client (granted w t c s p).command
  unfolding granted
  granted-Keeps c s (err e) h = h
  granted-Keeps c s (ok p) h = record { limit_kept = h.limit_kept; within = h.within }

  token_answered-Keeps :
      (c : Client) (run : Run)
      → Keeps limit c run.1
      → Keeps limit (token_answered w t c run).client (token_answered w t c run).command
  unfolding token_answered
  token_answered-Keeps c (err e, s) h = h
  token_answered-Keeps c (ok r, s) h = granted-Keeps c s (token_of w r) h

  execute-Keeps :
      (net : Network) (c : Client) (s : Command)
      → Keeps limit c s
      → Keeps limit c (execute net c.max_retries c.max_retry_delay s).1
  execute-Keeps net c s h = record {
    limit_kept = h.limit_kept;
    within =
        subst (λ l. IsWithin l (execute net c.max_retries c.max_retry_delay s).1) h.limit_kept
          (execute-IsWithin net c.max_retries c.max_retry_delay s
            (subst (λ l. IsWithin l s) (sym h.limit_kept) h.within));
  }

  request_token-Keeps :
      (refused : Option Bytes) (c : Client) (s : Command)
      → Keeps limit c s
      → Keeps limit (request_token w refused t c s).client (request_token w refused t c s).command
  unfolding request_token
  request_token-Keeps (some e) c s h = h
  request_token-Keeps none c s h =
      let net = w.network (token_request w c) in
      token_answered-Keeps c (execute net c.max_retries c.max_retry_delay s)
        (execute-Keeps net c s h)

  token_from-Keeps :
      (k : Option Token) (c : Client) (s : Command)
      → Keeps limit c s
      → Keeps limit (token_from w k t c s).client (token_from w k t c s).command
  unfolding token_from
  token_from-Keeps (some k) c s h = h
  token_from-Keeps none c s h = request_token-Keeps (w.refused_url (token_url w c)) c s h

  module _ (p : PreparedManifest) (path idempotency_key : Bytes) where
    answered-IsWithin :
        (c : Client) (run : Run)
        → IsWithin limit run.1
        → IsWithin limit (manifest_answered w p c run).command
    unfolding manifest_answered
    answered-IsWithin c (err e, s) h = h
    answered-IsWithin c (ok r, s) h = h

    send_body-IsWithin :
        (refused : Option Bytes) (token : Token) (body : Bytes) (c : Client) (s : Command)
        → Keeps limit c s
        → IsWithin limit (send_body w refused p path idempotency_key token body c s).command
    unfolding send_body
    send_body-IsWithin (some e) token body c s h = h.within
    send_body-IsWithin none token body c s h =
        answered-IsWithin c _ ((execute-Keeps _ c s h).within)

    send_with-IsWithin :
        (m : Result ClientError Token) (c : Client) (s : Command)
        → Keeps limit c s
        → IsWithin limit (send_with w m p path idempotency_key c s).command
    unfolding send_with send_encoded
    send_with-IsWithin (err e) c s h = h.within
    send_with-IsWithin (ok token) c s h = go (w.marshal p)
      where
        go :
            (encoded : Result Bytes Bytes)
            → IsWithin limit (send_encoded w encoded p path idempotency_key token c s).command
        go (err e) = h.within
        go (ok body) = send_body-IsWithin _ token body c s h

-- A command of the client, its token request and its manifest request with all their retries, makes
-- at most three attempts in all, and none of its waits is longer than the client's limit.
pub send-IsWithin :
    (w : Wire) (t : Instants) (p : PreparedManifest) (path idempotency_key : Bytes) (c : Client)
    → IsWithin c.max_retry_delay (send w t p path idempotency_key c).command
unfolding send machine_token
send-IsWithin w t p path idempotency_key c =
    send_with-IsWithin w t c.max_retry_delay p path idempotency_key _ _ _ (
      token_from-Keeps w t c.max_retry_delay (cached t.token_test c.token) c fresh_command
        (record { limit_kept = refl; within = fresh-IsWithin c.max_retry_delay }))
