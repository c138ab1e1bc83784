-- ===== src/Jwks/Cooldown.antt =====
-- The forced refreshes of a provider that any number of calls share.
use vertex_sdk_go.Prelude.{
  ℕ, ◌+◌, ◌≤◌, ◌<◌, ◌≡◌, refl, false, inl, inr, Bool-cases, List, [], ◌∷◌, Result, ok, err, arith,
  ltb, ◌==◌, if◌then◌else◌,
}
use vertex_sdk_go.Prelude.Strings.{Bytes}
use vertex_sdk_go.Jwks.{
  JwksProvider, Call, looking, missed, fetching, looking_again, returned, since, step,
}

-- The provider, the calls by number, the time, and the times of the forced refreshes, the latest
-- first.
pub record World (K : Type 0) : Type 0 where
  pub now : ℕ
  pub provider : JwksProvider K
  pub calls : ℕ → Call K
  pub forced : List ℕ

-- The step is the one that decides on a forced refresh.
abbrev claims {ℓ} : {K : Type 0} {A : Type ℓ} → Call K → Call K → A → A → A
claims (missed _) (fetching _) yes_ no_ = yes_
claims _ _ yes_ no_ = no_

module _ {K : Type 0} (key_id : K → Bytes) where
  abbrev assign : (ℕ → Call K) → ℕ → Call K → ℕ → Call K
  assign calls i c j = if i == j then c else calls j

  -- One part of the call `i`, as `Jwks.step` has it.
  unfoldable pub run : World K → ℕ → Result Bytes (List K) → World K
  run w i answer =
      let r = step key_id w.now answer (w.calls i) w.provider in
      record {
        now = w.now;
        provider = r.1;
        calls = assign w.calls i r.0;
        forced = claims (w.calls i) r.0 (w.now ∷ w.forced) w.forced;
      }

  pub data Step (w : World K) : World K → Type 0 where
    tick : (t : ℕ) → w.now ≤ t → Step w (record w { now = t })
    begin : (i : ℕ) (kid : Bytes) → Step w (record w { calls = assign w.calls i (looking kid) })
    part : (i : ℕ) (answer : Result Bytes (List K)) → Step w (run w i answer)

  pub data Reach (w : World K) : World K → Type 0 where
    here : Reach w w
    next : {u v : World K} → Reach w u → Step u v → Reach w v

-- Each time is at least `gap` after the one before it.
abbrev pub IsSpaced : ℕ → List ℕ → Type 0
IsSpaced gap [] = Unit
IsSpaced gap (a ∷ []) = Unit
IsSpaced gap (a ∷ b ∷ ts) = (b + gap ≤ a) × IsSpaced gap (b ∷ ts)

abbrev Latest : ℕ → List ℕ → Type 0
Latest t [] = Unit
Latest t (a ∷ ts) = t ≡ a

record Inv {K : Type 0} (gap : ℕ) (w : World K) : Type 0 where
  cooldown : w.provider.cooldown ≡ gap
  latest : Latest w.provider.last_forced_refresh w.forced
  spaced : IsSpaced gap w.forced

IsSpaced-cons :
    (gap last now : ℕ) (ts : List ℕ)
    → last + gap ≤ now
    → Latest last ts
    → IsSpaced gap ts
    → IsSpaced gap (now ∷ ts)
IsSpaced-cons gap last now [] h l s = tt
IsSpaced-cons gap last now (a ∷ ts) h l s = (omega arith, s)

since_le : (now t gap : ℕ) → 0 < gap → ltb (since now t) gap ≡ false → t + gap ≤ now
unfolding since
since_le now t gap pos_ h = ground arith

module _ {K : Type 0} (key_id : K → Bytes) (gap : ℕ) (positive : 0 < gap) where
  -- One part of a call keeps the provider's cooldown, and moves the time of the last forced refresh
  -- only as it notes it.
  run-Inv :
      (now : ℕ) (answer : Result Bytes (List K)) (c : Call K) (p : JwksProvider K) (ts : List ℕ)
      → p.cooldown ≡ gap
      → Latest p.last_forced_refresh ts
      → IsSpaced gap ts
      → let r = step key_id now answer c p in
        let ts' = claims c r.0 (now ∷ ts) ts in
        (r.1.cooldown ≡ gap) × Latest r.1.last_forced_refresh ts' × IsSpaced gap ts'
  run-Inv now answer (looking kid) p ts h l s = unfold step in (h, l, s)
  run-Inv now answer (missed kid) p ts h l s =
      elim (Bool-cases (ltb (since now p.last_forced_refresh) p.cooldown)) [
        | inl e ↦ unfold step in rw e (h, l, s)
        | inr e ↦
            unfold step in
            rw e (
              h,
              refl,
              IsSpaced-cons gap p.last_forced_refresh now ts
                  (since_le now _ gap positive (rw h at e)) l s,
            )
      ]
  run-Inv now (ok keys) (fetching kid) p ts h l s = unfold step in (h, l, s)
  run-Inv now (err e) (fetching kid) p ts h l s = unfold step in (h, l, s)
  run-Inv now answer (looking_again kid) p ts h l s = unfold step in (h, l, s)
  run-Inv now answer (returned r) p ts h l s = unfold step in (h, l, s)

  Step-Inv : {v w : World K} → Step key_id v w → Inv gap v → Inv gap w
  unfolding run
  Step-Inv (tick t h) i = record { cooldown = i.cooldown; latest = i.latest; spaced = i.spaced }
  Step-Inv (begin n kid) i = record { cooldown = i.cooldown; latest = i.latest; spaced = i.spaced }
  Step-Inv {v} (part n answer) i =
      let (c, l, s) =
        run-Inv v.now answer (v.calls n) v.provider v.forced i.cooldown i.latest i.spaced in
      record { cooldown = c; latest = l; spaced = s }

  Reach-Inv : {v w : World K} → Inv gap v → Reach key_id v w → Inv gap w
  Reach-Inv i here = i
  Reach-Inv i (next r st) = Step-Inv st (Reach-Inv i r)

  -- However the calls of `KeyByID` on one provider interleave, two of its forced refreshes are at
  -- least the cooldown apart.
  pub forced_refreshes-IsSpaced :
      {v w : World K}
      → v.provider.cooldown ≡ gap
      → v.forced ≡ []
      → Reach key_id v w
      → IsSpaced gap w.forced
  forced_refreshes-IsSpaced {v} c none_yet r =
      (Reach-Inv (record { cooldown = c; latest = rw none_yet tt; spaced = rw none_yet tt })
        r).spaced
