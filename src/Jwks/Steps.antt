-- ===== src/Jwks/Steps.antt =====
-- What one call of `KeyByID` returns.
use vertex_sdk_go.Prelude.{
  ℕ, ◌≡◌, ◌≢◌, refl, sym, ap, ◌∙◌, ◌⊎◌, inl, inr, false, List, [], ◌∷◌, none, some, Result, ok, err,
  arith, ltb, ◌<◌, ◌≤◌, Option-cases, ◌↔◌,
}
use native.Mathlib.Decide.{dec_le}
use vertex_sdk_go.Prelude.Strings.{Bytes, str_eq_iff}
use vertex_sdk_go.Jwks.{
  JwksProvider, cooldown_active, since, missed, fetching, returned, find_key, needs_refresh, lookup,
  step, Clock, key_by_id, look_again,
}

not_ltb : (a b : ℕ) → b ≤ a → ltb a b ≡ false
not_ltb a b h = ground arith

module _ {K : Type 0} (key_id : K → Bytes) where
  find_key_lem :
      (kid : Bytes) (keys : List K) (k : K) → find_key key_id kid keys ≡ some k → key_id k ≡ kid
  unfolding find_key
  find_key_lem kid [] k h = cc
  find_key_lem kid (x ∷ xs) k h = ground (arith, str_eq_iff (key_id x) kid, find_key_lem kid xs k)

  lookup_lem :
      (now : ℕ) (p : JwksProvider K) (kid : Bytes) (k : K)
      → lookup key_id now p kid ≡ some k
      → key_id k ≡ kid
  unfolding lookup
  lookup_lem now p kid k h = elim (Option-cases p.set) [
    | inl e ↦ absurd (ground arith)
    | inr (keys, e) ↦ ground (arith, find_key_lem kid keys k)
  ]

  -- A set that was stored lately is searched.
  lookup_stored :
      (now : ℕ) (p : JwksProvider K) (kid : Bytes) (keys : List K)
      → p.set ≡ some keys
      → since now p.last_fetch ≤ p.refresh
      → lookup key_id now p kid ≡ find_key key_id kid keys
  unfolding lookup needs_refresh
  lookup_stored now p kid keys e h = ground arith

  module _ (t : Clock) (kid : Bytes) (p : JwksProvider K) where
    refreshed : List K → JwksProvider K
    refreshed keys = record p {
      last_forced_refresh = t.cooldown_test;
      set = some keys;
      last_fetch = t.stored;
    }

    hit :
        (answer : Result Bytes (List K)) (k : K)
        → lookup key_id t.first_lookup p kid ≡ some k
        → key_by_id key_id t answer kid p ≡ (returned (ok k), p)
    unfolding key_by_id
    hit answer k e = ground arith

    cooling :
        (answer : Result Bytes (List K))
        → lookup key_id t.first_lookup p kid ≡ none
        → since t.cooldown_test p.last_forced_refresh < p.cooldown
        → key_by_id key_id t answer kid p ≡ (returned (err (cooldown_active kid)), p)
    unfolding key_by_id
    cooling answer e h = ground arith

    refetched :
        (keys : List K)
        → lookup key_id t.first_lookup p kid ≡ none
        → p.cooldown ≤ since t.cooldown_test p.last_forced_refresh
        → key_by_id key_id t (ok keys) kid p
          ≡ (look_again key_id t.second_lookup (refreshed keys) kid, refreshed keys)
    unfolding key_by_id refreshed
    refetched keys e h = ground arith

    -- What a fetch with this answer finds.
    abbrev pub Fetched : Result Bytes (List K) → K → Type 0
    Fetched answer k = (keys : List K) × (answer ≡ ok keys) × (find_key key_id kid keys ≡ some k)

    miss_iff :
        (answer : Result Bytes (List K)) (k : K)
        → since t.second_lookup t.stored ≤ p.refresh
        → lookup key_id t.first_lookup p kid ≡ none
        → p.cooldown ≤ since t.cooldown_test p.last_forced_refresh
        → ((key_by_id key_id t answer kid p).0 ≡ returned (ok k)) ↔ Fetched answer k
    unfolding look_again refreshed
    miss_iff (err e) k prompt n h = (λ r. absurd (unfold key_by_id in ground arith), λ f. cc (f.1))
    miss_iff (ok keys) k prompt n h =
        let found = lookup_stored t.second_lookup (refreshed keys) kid keys refl prompt in
        (
          λ r. (keys, refl, ground (arith, refetched keys n h, found)),
          λ f. ground (arith, refetched keys n h, found, f.1, f.2),
        )

    -- Where no other call comes between and the answer is searched within the refresh interval,
    -- `KeyByID` returns a key exactly if the first lookup finds it, or the first lookup finds
    -- none, the cooldown since the last forced refresh is over, and the fetched set has the key.
    pub key_by_id_iff :
        (answer : Result Bytes (List K)) (k : K)
        → since t.second_lookup t.stored ≤ p.refresh
        → ((key_by_id key_id t answer kid p).0 ≡ returned (ok k)) ↔ (
            (lookup key_id t.first_lookup p kid ≡ some k)
            ⊎ ((lookup key_id t.first_lookup p kid ≡ none)
                × (p.cooldown ≤ since t.cooldown_test p.last_forced_refresh)
                × Fetched answer k))
    key_by_id_iff answer k prompt = elim (Option-cases (lookup key_id t.first_lookup p kid)) [
      | inr (k', e) ↦
          (λ r. inl (ground (arith, hit answer k' e)), λ d. ground (arith, hit answer k' e))
      | inl e ↦ elim (dec_le p.cooldown (since t.cooldown_test p.last_forced_refresh)) [
        | yes h ↦
            let iff = miss_iff answer k prompt e h in
            (λ r. inr (e, h, iff.0 r), elim [ inl x ↦ absurd (cc) | inr x ↦ iff.1 x.2 ])
        | no h ↦ (
          λ r. absurd (ground (arith, cooling answer e)),
          elim [ inl x ↦ absurd (cc) | inr x ↦ absurd (h x.1) ],
        )
      ]
    ]

  -- Every key that `KeyByID` returns has the key ID that was asked for.
  pub key_by_id-kid :
      (t : Clock) (answer : Result Bytes (List K)) (kid : Bytes) (p : JwksProvider K) (k : K)
      → (key_by_id key_id t answer kid p).0 ≡ returned (ok k)
      → key_id k ≡ kid
  unfolding key_by_id look_again refreshed
  key_by_id-kid t (err e) kid p k h = ground (arith, lookup_lem t.first_lookup p kid k)
  key_by_id-kid t (ok keys) kid p k h = ground (
    arith,
    lookup_lem t.first_lookup p kid k,
    lookup_lem t.second_lookup (refreshed t kid p keys) kid k,
  )

  claimed_lem :
      (now : ℕ) (answer : Result Bytes (List K)) (kid : Bytes) (p p' : JwksProvider K)
      → step key_id now answer (missed kid) p ≡ (fetching kid, p')
      → p' ≡ record p { last_forced_refresh = now }
  claimed_lem now answer kid p p' h = unfold step in ground arith

  not_refused :
      (t : Clock) (answer : Result Bytes (List K)) (kid : Bytes) (p : JwksProvider K)
      → lookup key_id t.first_lookup p kid ≡ none
      → p.cooldown ≤ since t.cooldown_test p.last_forced_refresh
      → (key_by_id key_id t answer kid p).0 ≢ returned (err (cooldown_active kid))
  unfolding key_by_id look_again
  not_refused t (err e) kid p n h r = ground arith
  not_refused t (ok keys) kid p n h r =
      elim (Option-cases (lookup key_id t.second_lookup (refreshed t kid p keys) kid)) [
        | inl e ↦ ground (arith, refetched t kid p keys n h)
        | inr (k, e) ↦ ground (arith, refetched t kid p keys n h)
      ]

  -- Once a call of `KeyByID` has claimed the fetch of the keys, and as long as the fetch has stored
  -- nothing, another call is refused, and leaves the provider as it is, exactly if it finds no key in
  -- a fresh set and tests the cooldown before the cooldown since the claim is over.
  pub refused_after_claim_iff :
      (now : ℕ) (first : Result Bytes (List K)) (kid : Bytes) (p p' : JwksProvider K) (t : Clock)
      (answer : Result Bytes (List K)) (other : Bytes)
      → step key_id now first (missed kid) p ≡ (fetching kid, p')
      → (key_by_id key_id t answer other p' ≡ (returned (err (cooldown_active other)), p'))
        ↔ ((lookup key_id t.first_lookup p other ≡ none) × (since t.cooldown_test now < p.cooldown))
  refused_after_claim_iff now first kid p p' t answer other claimed =
      let q = record p { last_forced_refresh = now } in
      let same : p' ≡ q = claimed_lem now first kid p p' claimed in
      let kept : lookup key_id t.first_lookup q other ≡ lookup key_id t.first_lookup p other =
        unfold lookup needs_refresh in refl in
      rw same (
        λ r. elim (Option-cases (lookup key_id t.first_lookup p other)) [
          | inr (k, e) ↦ absurd (
              let found = hit t other q answer k (kept ∙ e) in
              let x = ap (λ d. d.0) (sym r ∙ found) in cc)
          | inl e ↦ elim (dec_le p.cooldown (since t.cooldown_test now)) [
            | yes h ↦ absurd (not_refused t answer other q (kept ∙ e) h (ap (λ d. d.0) r))
            | no h ↦ (e, omega arith)
          ]
        ],
        λ d. cooling t other q answer (kept ∙ d.0) d.1,
      )
