-- ===== src/Manifest/Transport/Budget.antt =====
-- What `execute` spends of its command's budget, and how long it waits.
use vertex_sdk_go.Prelude.{
  ℕ, zero, suc, ◌+◌, ◌≤◌, ◌≡◌, refl, inl, inr, false, not, ◌||◌, ◌∷◌, Option, none, some, arith,
  length, ltb, ◌==◌, All, Bool-cases,
}
use vertex_sdk_go.Prelude.Strings.{Bytes}
use vertex_sdk_go.Manifest.Transport.{
  Reply, failed, unreadable, answered, Network, Command, retryable, backoff, min_duration,
  retry_delay, Run, wait_then, round, request, rounds_from, execute, one_mebibyte,
}

-- From one state of a command to a later one: each request took one attempt, at most so many were
-- sent, and every wait was within the limit.
pub record Spends (limit most : ℕ) (s s' : Command) : Type 0 where
  pub counted : s'.sent + s'.attempts ≡ s.sent + s.attempts
  pub no_refund : s'.attempts ≤ s.attempts
  pub bounded : s'.sent ≤ s.sent + most
  pub waits : All (λ d. d ≤ limit) s.delays → All (λ d. d ≤ limit) s'.delays

Spends-refl : (limit most : ℕ) (s : Command) → Spends limit most s s
Spends-refl limit most s = record {
  counted = refl;
  no_refund = omega arith;
  bounded = omega arith;
  waits = λ h. h;
}

nonzero : (n : ℕ) → (n == 0) ≡ false → 1 ≤ n
nonzero n h = ground arith

min_duration_le : (a b : ℕ) → min_duration a b ≤ b
min_duration_le a b = ground arith

-- A wait within the limit, and what comes after it.
Spends-wait :
    (limit most d : ℕ) (s s' : Command)
    → d ≤ limit
    → Spends limit most (record s { delays = d ∷ s.delays }) s'
    → Spends limit most s s'
Spends-wait limit most d s s' h k = record {
  counted = k.counted;
  no_refund = k.no_refund;
  bounded = k.bounded;
  waits = λ w. k.waits (h, w);
}

module _ (net : Network) (max_retries limit : ℕ) where
  module _ (most : ℕ) where
    wait_then-Spends :
        (next : Command → Run) (d : ℕ) (s : Command)
        → ((t : Command) → Spends limit most t (next t).1)
        → d ≤ limit
        → Spends limit most s (wait_then net max_retries limit d next s).1
    unfolding wait_then
    wait_then-Spends next d s sound h = elim (Bool-cases (net.cancelled (length s.delays))) [
      | inl e ↦ rw e (Spends-wait limit most d s _ h (Spends-refl limit most _))
      | inr e ↦ rw e (Spends-wait limit most d s _ h (sound _))
    ]

    round-Spends :
        (reply : Reply) (attempt : ℕ) (last : Option Bytes) (next : Option Bytes → Command → Run)
        (s : Command)
        → ((e : Option Bytes) (t : Command) → Spends limit most t (next e t).1)
        → Spends limit most s (round net max_retries limit reply attempt last next s).1
    unfolding round
    round-Spends (failed e) attempt last next s sound =
        elim (Bool-cases (attempt == max_retries || s.attempts == 0)) [
          | inl h ↦ simp h (Spends-refl limit most s)
          | inr h ↦ simp h (
              wait_then-Spends (next (some e)) _ s (sound (some e))
                (min_duration_le (backoff attempt) limit))
        ]
    round-Spends (unreadable e) attempt last next s sound =
        elim (Bool-cases (attempt == max_retries)) [
          | inl h ↦ simp h (Spends-refl limit most s)
          | inr h ↦ simp h (sound (some e) s)
        ]
    round-Spends (answered r) attempt last next s sound =
        elim (Bool-cases (ltb one_mebibyte (length r.body))) [
          | inl h ↦ simp h (Spends-refl limit most s)
          | inr h ↦
              elim (Bool-cases
                (not (retryable r.status) || attempt == max_retries || s.attempts == 0)) [
                  | inl k ↦ simp (h, k) (Spends-refl limit most s)
                  | inr k ↦
                      simp (h, k)
                        (wait_then-Spends (next last) _ s (sound last)
                          (min_duration_le (retry_delay attempt r) limit))
                ]
        ]

  Spends-request :
      (most : ℕ) (s s' : Command)
      → (s.attempts == 0) ≡ false
      → Spends limit most (request net max_retries limit s) s'
      → Spends limit (suc most) s s'
  Spends-request most s s' h k = record {
    counted = omega (arith, k.counted, nonzero s.attempts h);
    no_refund = omega (arith, k.no_refund);
    bounded = omega (arith, k.bounded);
    waits = k.waits;
  }

  rounds_from-Spends :
      (rounds attempt : ℕ) (last : Option Bytes) (s : Command)
      → Spends limit rounds s (rounds_from net max_retries limit rounds attempt last s).1
  unfolding rounds_from
  rounds_from-Spends zero attempt last s = Spends-refl limit 0 s
  rounds_from-Spends (suc rounds) attempt last s = elim (Bool-cases (s.attempts == 0)) [
    | inl h ↦ simp h (Spends-refl limit (suc rounds) s)
    | inr h ↦ simp h (
        Spends-request rounds s _ h (
          round-Spends rounds (net.reply s.sent) attempt last _ (request net max_retries limit s)
            (rounds_from-Spends rounds (attempt + 1))))
  ]

  -- A run of `execute` sends at most one request more than the retries of the configuration, takes
  -- one attempt off the budget for each request, so that it sends none that the budget does not
  -- hold, and never waits longer than the configured limit.
  pub execute-Spends :
      (s : Command) → Spends limit (max_retries + 1) s (execute net max_retries limit s).1
  unfolding execute
  execute-Spends = rounds_from-Spends (max_retries + 1) 0 none
