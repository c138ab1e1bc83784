-- ===== src/Config/Defaults.antt =====
-- What `Validate` makes of a configuration.
use mathlib.Core.Path.{subst}
use vertex_sdk_go.Prelude.{
  ℕ, zero, suc, ◌≡◌, ◌≢◌, ◌↔◌, ◌∙◌, sym, ap, refl, ◌⊎◌, inl, inr, some, ok, [], arith,
}
use vertex_sdk_go.Prelude.Int.{ℤ, pos, negsuc}
use vertex_sdk_go.Prelude.Strings.{Bytes, str_eq_iff}
use vertex_sdk_go.Config.{SdkConfig, or_text, or_number, with_defaults, validate}

abbrev pub IsPositive : ℤ → Type 0
IsPositive v = (n : ℕ) × (v ≡ pos (suc n))

-- A number stays if it is positive, and is else the default.
abbrev pub OrDefault : ℕ → ℤ → ℤ → Type 0
OrDefault d v v' = (IsPositive v × (v' ≡ v)) ⊎ ((IsPositive v → ⊥) × (v' ≡ pos d))

-- A text stays if it is not empty, and is else the default.
abbrev pub OrText : Bytes → Bytes → Bytes → Type 0
OrText d s s' = ((s ≢ []) × (s' ≡ s)) ⊎ ((s ≡ []) × (s' ≡ d))

or_number-OrDefault : (d : ℕ) (v : ℤ) → OrDefault d v (or_number d v)
unfolding or_number
or_number-OrDefault d (pos zero) = inr (λ (n, e). absurd (ground arith), refl)
or_number-OrDefault d (pos (suc n)) = inl ((n, refl), refl)
or_number-OrDefault d (negsuc n) = inr (λ (m, e). absurd (cc), refl)

or_text-OrText : (d s : Bytes) → OrText d s (or_text d s)
unfolding or_text
or_text-OrText d s = ground (arith, str_eq_iff s [])

-- The required texts are there.
pub record IsComplete (c : SdkConfig) : Type 0 where
  pub endpoint : c.endpoint ≢ []
  pub client_id : c.client_id ≢ []
  pub client_secret : c.client_secret ≢ []

with_defaults-IsComplete : (c : SdkConfig) → IsComplete c → IsComplete (with_defaults c)
unfolding with_defaults
with_defaults-IsComplete c n = record {
  endpoint = n.endpoint;
  client_id = n.client_id;
  client_secret = n.client_secret;
}

IsComplete-of_validate :
    (c c' : SdkConfig) → validate (some c) ≡ ok c' → IsComplete c × (with_defaults c ≡ c')
unfolding validate
IsComplete-of_validate c c' h = (
  record {
    endpoint = ground (arith, str_eq_iff c.endpoint []);
    client_id = ground (arith, str_eq_iff c.client_id []);
    client_secret = ground (arith, str_eq_iff c.client_secret []);
  },
  ground arith,
)

validate_of_complete : (c : SdkConfig) → IsComplete c → validate (some c) ≡ ok (with_defaults c)
unfolding validate
validate_of_complete c n = ground (
  arith,
  str_eq_iff c.endpoint [],
  str_eq_iff c.client_id [],
  str_eq_iff c.client_secret [],
  n.endpoint,
  n.client_id,
  n.client_secret,
)

-- How a validated configuration comes from the given one.
pub record IsCompleted (c c' : SdkConfig) : Type 0 where
  pub complete : IsComplete c
  pub kept :
      (c'.endpoint ≡ c.endpoint)
      × (c'.client_id ≡ c.client_id)
      × (c'.client_secret ≡ c.client_secret)
      × (c'.disable_user_profile_cache ≡ c.disable_user_profile_cache)
      × (c'.resolve_mode ≡ c.resolve_mode)
      × (c'.fail_mode ≡ c.fail_mode)
  pub audience : OrText c.client_id c.audience c'.audience
  pub issuer : OrText c.endpoint c.issuer c'.issuer
  pub jwks_refresh : OrDefault 3_600_000_000_000 c.jwks_refresh c'.jwks_refresh
  pub permission_cache_ttl :
      OrDefault 300_000_000_000 c.permission_cache_ttl c'.permission_cache_ttl
  pub permission_cache_max : OrDefault 10_000 c.permission_cache_max c'.permission_cache_max
  pub user_profile_cache_ttl :
      OrDefault 60_000_000_000 c.user_profile_cache_ttl c'.user_profile_cache_ttl
  pub user_profile_cache_max : OrDefault 10_000 c.user_profile_cache_max c'.user_profile_cache_max
  pub http_timeout : OrDefault 5_000_000_000 c.http_timeout c'.http_timeout
  pub max_retries : OrDefault 3 c.max_retries c'.max_retries

with_defaults-IsCompleted : (c : SdkConfig) → IsComplete c → IsCompleted c (with_defaults c)
unfolding with_defaults
with_defaults-IsCompleted c n = record {
  complete = n;
  kept = (refl, refl, refl, refl, refl, refl);
  audience = or_text-OrText c.client_id c.audience;
  issuer = or_text-OrText c.endpoint c.issuer;
  jwks_refresh = or_number-OrDefault 3_600_000_000_000 c.jwks_refresh;
  permission_cache_ttl = or_number-OrDefault 300_000_000_000 c.permission_cache_ttl;
  permission_cache_max = or_number-OrDefault 10_000 c.permission_cache_max;
  user_profile_cache_ttl = or_number-OrDefault 60_000_000_000 c.user_profile_cache_ttl;
  user_profile_cache_max = or_number-OrDefault 10_000 c.user_profile_cache_max;
  http_timeout = or_number-OrDefault 5_000_000_000 c.http_timeout;
  max_retries = or_number-OrDefault 3 c.max_retries;
}

OrDefault-eq : (d : ℕ) (v v' : ℤ) → OrDefault d v v' → or_number d v ≡ v'
unfolding or_number
OrDefault-eq d (pos zero) v' (inl ((n, e), k)) = absurd (ground arith)
OrDefault-eq d (pos zero) v' (inr (n, k)) = sym k
OrDefault-eq d (pos (suc n)) v' (inl (p, k)) = sym k
OrDefault-eq d (pos (suc n)) v' (inr (f, k)) = absurd (f (n, refl))
OrDefault-eq d (negsuc n) v' (inl ((m, e), k)) = absurd (cc)
OrDefault-eq d (negsuc n) v' (inr (f, k)) = sym k

OrText-eq : (d s s' : Bytes) → OrText d s s' → or_text d s ≡ s'
unfolding or_text
OrText-eq d s s' h = ground (arith, str_eq_iff s [])

with_defaults-of_IsCompleted : (c c' : SdkConfig) → IsCompleted c c' → with_defaults c ≡ c'
unfolding with_defaults
with_defaults-of_IsCompleted c c' h = cc (
  h.kept.0,
  h.kept.1,
  h.kept.2,
  h.kept.3,
  h.kept.4,
  h.kept.5,
  OrText-eq c.client_id c.audience c'.audience h.audience,
  OrText-eq c.endpoint c.issuer c'.issuer h.issuer,
  OrDefault-eq 3_600_000_000_000 c.jwks_refresh c'.jwks_refresh h.jwks_refresh,
  OrDefault-eq 300_000_000_000 c.permission_cache_ttl c'.permission_cache_ttl
      h.permission_cache_ttl,
  OrDefault-eq 10_000 c.permission_cache_max c'.permission_cache_max h.permission_cache_max,
  OrDefault-eq 60_000_000_000 c.user_profile_cache_ttl c'.user_profile_cache_ttl
      h.user_profile_cache_ttl,
  OrDefault-eq 10_000 c.user_profile_cache_max c'.user_profile_cache_max h.user_profile_cache_max,
  OrDefault-eq 5_000_000_000 c.http_timeout c'.http_timeout h.http_timeout,
  OrDefault-eq 3 c.max_retries c'.max_retries h.max_retries,
)

-- `Validate` succeeds exactly if the endpoint, the client ID and the client secret are not empty. The
-- configuration keeps what is set, and has the default for an empty audience or issuer and for each
-- number that is not positive.
pub validate_iff : (c c' : SdkConfig) → (validate (some c) ≡ ok c') ↔ IsCompleted c c'
validate_iff c c' = (
  λ h.
      let (n, same) = IsComplete-of_validate c c' h in
      subst (IsCompleted c) same (with_defaults-IsCompleted c n),
  λ h. validate_of_complete c h.complete ∙ ap ok (with_defaults-of_IsCompleted c c' h),
)
