-- ===== src/Jwks/Tests.antt =====
-- The key provider at concrete inputs, and the theorems applied. A key is a pair of its ID and a
-- number.
use vertex_sdk_go.Prelude.{
  ℕ, ◌≤◌, ◌<◌, ◌≡◌, refl, ◌↔◌, ◌⊎◌, List, [], ◌∷◌, none, some, ok, err, arith,
}
use vertex_sdk_go.Prelude.Strings.{Bytes, bytes, str_eq}
use vertex_sdk_go.Jwks.{
  JwksProvider, cooldown_active, missed, fetching, returned, since, find_key, needs_refresh, lookup,
  step, Clock, key_by_id,
}
use vertex_sdk_go.Jwks.Steps.{Fetched, key_by_id_iff, refused_after_claim_iff}
use vertex_sdk_go.Jwks.Cooldown.{
  World, tick, part, here, next, run, IsSpaced, forced_refreshes-IsSpaced,
}

abbrev Key : Type 0
Key = Bytes × ℕ

abbrev key_id : Key → Bytes
key_id k = k.0

abbrev empty : JwksProvider Key
empty = record {
  jwks_url = bytes "u";
  refresh = 3_600;
  set = none;
  last_fetch = 0;
  last_forced_refresh = 0;
  cooldown = 10;
}

abbrev served : List Key
served = (bytes "k1", 7) ∷ []

abbrev clock : Clock
clock = record {
  first_lookup = 1_000;
  cooldown_test = 1_000;
  stored = 1_001;
  second_lookup = 1_001;
}

-- A key of the served set is found by a fetch.
first_call :
    (key_by_id key_id clock (ok served) (bytes "k1") empty).0 ≡ returned (ok (bytes "k1", 7))
unfolding key_by_id lookup needs_refresh find_key str_eq
first_call = refl

key_by_id_iff_example :
    ((key_by_id key_id clock (ok served) (bytes "k1") empty).0 ≡ returned (ok (bytes "k1", 7))) ↔ (
      (lookup key_id 1_000 empty (bytes "k1") ≡ some (bytes "k1", 7))
      ⊎ ((lookup key_id 1_000 empty (bytes "k1") ≡ none)
          × (10 ≤ since 1_000 0)
          × Fetched key_id clock (bytes "k1") empty (ok served) (bytes "k1", 7)))
key_by_id_iff_example =
    key_by_id_iff key_id clock (bytes "k1") empty (ok served) (bytes "k1", 7) short
  where
    short : since 1_001 1_001 ≤ 3_600
    short = unfold since in omega arith

claimed :
    step key_id 1_000 (ok served) (missed (bytes "k1")) empty
    ≡ (fetching (bytes "k1"), record empty { last_forced_refresh = 1_000 })
unfolding step since
claimed = refl

refused_after_claim_iff_example :
    let p' : JwksProvider Key = record empty { last_forced_refresh = 1_000 } in
    (key_by_id key_id clock (ok served) (bytes "k1") p'
      ≡ (returned (err (cooldown_active (bytes "k1"))), p'))
    ↔ ((lookup key_id 1_000 empty (bytes "k1") ≡ none) × (since 1_000 1_000 < 10))
refused_after_claim_iff_example =
    refused_after_claim_iff key_id 1_000 (ok served) (bytes "k1") empty
      (record empty { last_forced_refresh = 1_000 }) clock (ok served) (bytes "k1") claimed

abbrev idle : World Key
idle = record { now = 1_000; provider = empty; calls = λ i. missed (bytes "k1"); forced = [] }

-- One call forces a refresh, and twenty units later another does.
abbrev twice : World Key
twice = run key_id (record (run key_id idle 0 (err (bytes "down"))) { now = 1_020 }) 1 (ok served)

twice_forced : twice.forced ≡ 1_020 ∷ 1_000 ∷ []
unfolding run step since
twice_forced = refl

keeps_now : (run key_id idle 0 (err (bytes "down"))).now ≤ 1_020
unfolding run
keeps_now = omega arith

forced_refreshes-IsSpaced_example : IsSpaced 10 twice.forced
forced_refreshes-IsSpaced_example = forced_refreshes-IsSpaced key_id 10 (omega arith) refl refl (
    next (next (next here (part 0 (err (bytes "down")))) (tick 1_020 keeps_now))
      (part 1 (ok served)))
