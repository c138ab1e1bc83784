-- ===== src/Verifier/Soundness.antt =====
-- What a token that `Verify` accepts has passed.
use vertex_sdk_go.Prelude.{
  ℕ, ◌≡◌, ◌≢◌, ◌↔◌, ◌⊎◌, refl, sym, ap, ◌∙◌, inl, inr, List, [], ◌∷◌, none, Result, ok, err, arith,
  Result-cases, Bool-cases,
}
use vertex_sdk_go.Prelude.Strings.{Bytes, str_eq, str_eq_iff}
use vertex_sdk_go.Jwks.{
  JwksProvider, Call, returned, looking, missed, fetching, looking_again, Clock, key_by_id,
}
use vertex_sdk_go.Jwks.Steps.{key_by_id-kid}
use vertex_sdk_go.Verifier.{
  Claims, Expected, Jose, Verifier, expected, check_claims, key_result, verify_with, verify_parsed,
  verify,
}

-- What the registered claims are tested for: the issuer, the time, and the audience, if there is one.
pub record IsExpected (v : Verifier) (now : ℕ) (e : Expected) : Type 0 where
  pub has_issuer : e.issuer ≡ v.expected_issuer
  pub has_time : e.time ≡ now
  pub has_audience :
      ((v.expected_audience ≡ []) × (e.any_audience ≡ []))
      ⊎ ((v.expected_audience ≢ []) × (e.any_audience ≡ v.expected_audience ∷ []))

module _ (j : Jose) where
  expected-IsExpected : (v : Verifier) (now : ℕ) → IsExpected v now (expected j v now)
  unfolding expected
  expected-IsExpected v now = record {
    has_issuer = refl;
    has_time = refl;
    has_audience = elim (Bool-cases (str_eq v.expected_audience [])) [
      | inl e ↦ inl ((str_eq_iff v.expected_audience []).0 e, rw e refl)
      | inr e ↦ inr (λ h. ground (arith, str_eq_iff v.expected_audience []), rw e refl)
    ];
  }

  IsExpected-unique :
      (v : Verifier) (now : ℕ) (e : Expected) → IsExpected v now e → e ≡ expected j v now
  IsExpected-unique v now e h =
      let own = expected-IsExpected v now in
      let issuer : e.issuer ≡ (expected j v now).issuer = h.has_issuer ∙ sym own.has_issuer in
      let time : e.time ≡ (expected j v now).time = h.has_time ∙ sym own.has_time in
      let audience : e.any_audience ≡ (expected j v now).any_audience = elim h.has_audience [
        | inl a ↦ elim own.has_audience [ inl b ↦ a.1 ∙ sym b.1 | inr b ↦ absurd (b.0 a.0) ]
        | inr a ↦ elim own.has_audience [ inl b ↦ absurd (a.0 b.0) | inr b ↦ a.1 ∙ sym b.1 ]
      ] in
      cc

  -- The token is parsed with an allowed algorithm, its first header names a key, the key with that
  -- ID is one that `KeyByID` returned, the signature is that key's, and the claims are valid for
  -- the expected issuer and audience.
  pub record IsAccepted (v : Verifier) (t : Clock) (now : ℕ) (answer : Result Bytes (List j.Key))
      (p : JwksProvider j.Key) (token : Bytes) (c : Claims j.Registered) : Type 0 where
    pub parsed : j.Token
    pub kid : Bytes
    pub others : List Bytes
    pub key : j.Key
    pub parses : j.parse_signed token v.allowed_algorithms ≡ ok parsed
    pub first_header : j.headers parsed ≡ kid ∷ others
    pub kid_given : kid ≢ []
    pub key_found : (key_by_id j.key_id t answer kid p).0 ≡ returned (ok key)
    pub key_has_kid : j.key_id key ≡ kid
    pub signed : j.claims parsed key ≡ ok c
    pub expects : Expected
    pub is_expected : IsExpected v now expects
    pub valid : j.validate c.registered expects v.leeway ≡ none

  module _ (v : Verifier) (now : ℕ) (parsed : j.Token) (c : Claims j.Registered) where
    check_claims_lem :
        (key : j.Key)
        → (check_claims j v now parsed key ≡ ok c) ↔ (
            (j.claims parsed key ≡ ok c)
            × (j.validate c.registered (expected j v now) v.leeway ≡ none))
    unfolding check_claims expected
    check_claims_lem key = (λ h. (ground arith, ground arith), λ h. ground arith)

    verify_with_lem :
        (call : Call j.Key)
        → verify_with j v now parsed (key_result j call) ≡ ok c
        → (key : j.Key) × (call ≡ returned (ok key)) × (check_claims j v now parsed key ≡ ok c)
    unfolding verify_with key_result
    verify_with_lem (returned (ok key)) h = (key, refl, unfold check_claims in h)
    verify_with_lem (returned (err e)) h = absurd (cc)
    verify_with_lem (looking _) h = absurd (cc)
    verify_with_lem (missed _) h = absurd (cc)
    verify_with_lem (fetching _) h = absurd (cc)
    verify_with_lem (looking_again _) h = absurd (cc)

  module _ (v : Verifier) (t : Clock) (now : ℕ) (answer : Result Bytes (List j.Key))
      (p : JwksProvider j.Key) (token : Bytes) (c : Claims j.Registered) where
    IsAccepted-of_kid :
        (parsed : j.Token) (kid : Bytes) (others : List Bytes)
        → j.parse_signed token v.allowed_algorithms ≡ ok parsed
        → j.headers parsed ≡ kid ∷ others
        → (verify_parsed j v t now answer p parsed (kid ∷ others)).0 ≡ ok c
        → IsAccepted v t now answer p token c
    unfolding verify_parsed
    IsAccepted-of_kid parsed kid others e f h = elim (Bool-cases (str_eq kid [])) [
      | inl none_given ↦ absurd (ground arith)
      | inr given ↦
          let (key, found, checked) =
            verify_with_lem v now parsed c (key_by_id j.key_id t answer kid p).0 (rw given at h) in
          let (signed, valid) = (check_claims_lem v now parsed c key).0 checked in
          record {
            parsed = parsed;
            kid = kid;
            others = others;
            key = key;
            parses = e;
            first_header = f;
            kid_given = λ k. ground (arith, str_eq_iff kid []);
            key_found = found;
            key_has_kid = key_by_id-kid j.key_id t answer kid p key found;
            signed = signed;
            expects = expected j v now;
            is_expected = expected-IsExpected v now;
            valid = valid;
          }
    ]

    IsAccepted-of_parsed :
        (parsed : j.Token) (kids : List Bytes)
        → j.parse_signed token v.allowed_algorithms ≡ ok parsed
        → j.headers parsed ≡ kids
        → (verify_parsed j v t now answer p parsed kids).0 ≡ ok c
        → IsAccepted v t now answer p token c
    unfolding verify_parsed
    IsAccepted-of_parsed parsed [] e f h = absurd (cc)
    IsAccepted-of_parsed parsed (kid ∷ others) e f h = IsAccepted-of_kid parsed kid others e f h

    verify_of_accepted :
        IsAccepted v t now answer p token c → (verify j v t now answer p token).0 ≡ ok c
    unfolding verify verify_with key_result
    verify_of_accepted a =
        let same = IsExpected-unique v now a.expects a.is_expected in
        let valid : j.validate c.registered (expected j v now) v.leeway ≡ none =
          ap (λ e. j.validate c.registered e v.leeway) (sym same) ∙ a.valid in
        ground (arith, str_eq_iff a.kid [])

    -- `Verify` accepts a token with some claims exactly if the token is parsed with an allowed
    -- algorithm, its first header names a key, `KeyByID` returns a key and this has that ID, the
    -- claims are signed with the key, and they are valid for the expected issuer, the time, and the
    -- expected audience, if there is one.
    pub verify_iff :
        ((verify j v t now answer p token).0 ≡ ok c) ↔ IsAccepted v t now answer p token c
    verify_iff = (
      λ h. elim (Result-cases (j.parse_signed token v.allowed_algorithms)) [
        | inl (parsed, e) ↦
            IsAccepted-of_parsed parsed (j.headers parsed) e refl
              (unfold verify in rw (e, verify) at h)
        | inr (er, e) ↦ absurd (unfold verify in ground arith)
      ],
      verify_of_accepted,
    )
