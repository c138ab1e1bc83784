-- ===== src/Manifest/Transport/Outcome.antt =====
-- What `execute` returns.
use mathlib.Core.Path.{subst}
use vertex_sdk_go.Prelude.{
  ℕ, zero, suc, ◌+◌, ◌≤◌, ◌≡◌, ◌≢◌, refl, ◌⊎◌, inl, inr, true, false, not, ◌||◌, Option, none, some,
  ok, err, arith, length, ltb, ◌==◌, Bool-cases,
}
use vertex_sdk_go.Prelude.Strings.{Bytes}
use vertex_sdk_go.Manifest.Transport.{
  Response, Reply, failed, unreadable, answered, Network, Command, Failure, command_timeout, panic,
  retryable, Run, wait_then, round, request, rounds_from, execute, one_mebibyte,
}

module _ (net : Network) (max_retries limit base : ℕ) where
  -- The response is the reply to the last request, it is not too long, and it ends the command: its
  -- status is not one to retry, or the budget is spent, or every retry is.
  pub record IsFinal (r : Response) (s : Command) : Type 0 where
    pub place : ℕ
    pub last_request : s.sent ≡ suc place
    pub replied : net.reply place ≡ answered r
    pub small : length r.body ≤ one_mebibyte
    pub ends : (retryable r.status ≡ false) ⊎ (s.attempts ≡ 0) ⊎ (s.sent ≡ base + max_retries + 1)

  pub record Ends (out : Run) : Type 0 where
    pub no_panic : out.0 ≢ err panic
    pub final : (r : Response) → out.0 ≡ ok r → IsFinal r out.1

  Ends-err : (e : Failure) (s : Command) → e ≢ panic → Ends (err e, s)
  Ends-err e s h = record { no_panic = λ k. h (cc); final = λ r k. absurd (cc) }

  Ends-ok : (a : Response) (s : Command) → IsFinal a s → Ends (ok a, s)
  Ends-ok a s f = record {
    no_panic = λ k. cc;
    final = λ r k. let same : a ≡ r = cc in subst (λ x. IsFinal x s) same f;
  }

  stops :
      (attempt : ℕ) (s : Command) (a : Response)
      → s.sent ≡ base + attempt + 1
      → (not (retryable a.status) || attempt == max_retries || s.attempts == 0) ≡ true
      → (retryable a.status ≡ false) ⊎ (s.attempts ≡ 0) ⊎ (s.sent ≡ base + max_retries + 1)
  stops attempt s a h k = ground arith

  wait_then-Ends :
      (next : Command → Run) (d : ℕ) (s : Command)
      → ((t : Command) → t.sent ≡ s.sent → Ends (next t))
      → Ends (wait_then net max_retries limit d next s)
  unfolding wait_then
  wait_then-Ends next d s sound = elim (Bool-cases (net.cancelled (length s.delays))) [
    | inl e ↦ simp e (Ends-err _ _ (λ k. cc))
    | inr e ↦ simp e (sound _ refl)
  ]

  round-Ends :
      (reply : Reply) (attempt place : ℕ) (last : Option Bytes)
      (next : Option Bytes → Command → Run) (s : Command)
      → net.reply place ≡ reply
      → s.sent ≡ suc place
      → s.sent ≡ base + attempt + 1
      → ((e : Option Bytes) (t : Command)
          → attempt ≢ max_retries
          → t.sent ≡ s.sent
          → Ends (next e t))
      → Ends (round net max_retries limit reply attempt last next s)
  unfolding round
  round-Ends (failed e) attempt place last next s r p b sound =
      elim (Bool-cases (attempt == max_retries || s.attempts == 0)) [
        | inl h ↦ simp h (Ends-err _ s (λ k. cc))
        | inr h ↦
            simp h (wait_then-Ends (next (some e)) _ s (λ t. sound (some e) t (λ k. ground arith)))
      ]
  round-Ends (unreadable e) attempt place last next s r p b sound =
      elim (Bool-cases (attempt == max_retries)) [
        | inl h ↦ simp h (Ends-err _ s (λ k. cc))
        | inr h ↦ simp h (sound (some e) s (λ k. ground arith) refl)
      ]
  round-Ends (answered a) attempt place last next s r p b sound =
      elim (Bool-cases (ltb one_mebibyte (length a.body))) [
        | inl h ↦ simp h (Ends-err _ s (λ k. cc))
        | inr h ↦
            elim (Bool-cases
              (not (retryable a.status) || attempt == max_retries || s.attempts == 0)) [
                | inl k ↦
                    simp (h, k)
                      (Ends-ok a s (record {
                        place = place;
                        last_request = p;
                        replied = r;
                        small = ground arith;
                        ends = stops attempt s a (omega arith) k;
                      }))
                | inr k ↦
                    simp (h, k)
                      (wait_then-Ends (next last) _ s (λ t. sound last t (λ j. ground arith)))
              ]
      ]

  rounds_from-Ends :
      (rounds attempt : ℕ) (last : Option Bytes) (s : Command)
      → rounds ≢ 0
      → attempt + rounds ≡ max_retries + 1
      → s.sent ≡ base + attempt
      → Ends (rounds_from net max_retries limit rounds attempt last s)
  unfolding rounds_from
  rounds_from-Ends zero attempt last s n e b = absurd (n refl)
  rounds_from-Ends (suc rounds) attempt last s n e b = elim (Bool-cases (s.attempts == 0)) [
    | inl h ↦ simp h (Ends-err command_timeout s (λ k. cc))
    | inr h ↦ simp h (
        round-Ends (net.reply s.sent) attempt s.sent last _ (request net max_retries limit s) refl
          (omega arith) (omega arith)
          (λ er t more same.
            rounds_from-Ends rounds (attempt + 1) er t (omega arith) (omega arith)
              (omega (arith, same))))
  ]

-- `execute` never calls a method of a nil error. A response that it returns is the reply to the last
-- request that it sent and has at most 1 MiB; its status is not one to retry, or the budget is
-- spent, or all the configured retries are.
pub execute-Ends :
    (net : Network) (max_retries limit : ℕ) (s : Command)
    → Ends net max_retries limit s.sent (execute net max_retries limit s)
unfolding execute
execute-Ends net max_retries limit s =
    rounds_from-Ends net max_retries limit s.sent (max_retries + 1) 0 none s (omega arith)
      (omega arith) (omega arith)
