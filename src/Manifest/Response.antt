-- ===== src/Manifest/Response.antt =====
-- permission_manifest.go: the server's result of a command and the checks that it must pass.
pub mod Consistent
use vertex_sdk_go.Prelude.{
  ℕ, ◌+◌, Bool, true, false, not, ◌&&◌, ◌||◌, List, [], ◌∷◌, Option, none, some, Result, ok, err,
  ◌>>=◌, ◌>>◌, length, ◌==◌, if◌then◌else◌,
}
use vertex_sdk_go.Prelude.Int.{ℤ, pos, negsuc}
use vertex_sdk_go.Prelude.Strings.{Bytes, bytes, str_eq, str_lt}
use vertex_sdk_go.Manifest.Text.{is_segment, is_fingerprint}
use vertex_sdk_go.Manifest.{PreparedManifest, mode_upsert}

pub record Item : Type 0 where
  pub key : Bytes
  pub operation : Bytes
  pub reason : Bytes

pub record Drift : Type 0 where
  pub key : Bytes
  pub kind : Bytes
  pub source : Bytes

pub record Counts : Type 0 where
  pub created : ℤ
  pub updated : ℤ
  pub unchanged : ℤ
  pub resurrected : ℤ
  pub conflict : ℤ
  pub drift : ℤ

pub record ManifestResult : Type 0 where
  pub mode : Bytes
  pub manifest_id : Bytes
  pub revision : Bytes
  pub fingerprint : Bytes
  pub applied : Bool
  pub results : List Item
  pub drift : List Drift
  pub counts : Counts

pub data ResultError : Type 0 where
  identity_mismatch invalid_item unknown_operation invalid_drift counts_mismatch : ResultError

-- `strings.Split` at colons
unfoldable pub join_head : ℕ → List Bytes → List Bytes
join_head b [] = []
join_head b (p ∷ ps) = (b ∷ p) ∷ ps

unfoldable pub split_colon : Bytes → List Bytes
unfolding join_head
split_colon [] = [] ∷ []
split_colon (b ∷ s) = let rest = split_colon s in if b == b':' then [] ∷ rest else join_head b rest

two_segments : List Bytes → Bool
two_segments (p ∷ q ∷ []) = is_segment p && is_segment q
two_segments _ = false

-- `validManifestKey`
unfoldable pub valid_manifest_key : Bytes → Bool
unfolding split_colon join_head two_segments
valid_manifest_key value = two_segments (split_colon value)

-- the map `reasons`
unfoldable pub known_reason : Bytes → Bool
known_reason r =
    str_eq r (bytes "DECLARATION_ACCEPTED")
    || str_eq r (bytes "MANUAL_COLLISION")
    || str_eq r (bytes "LEGACY_CODE_UNATTRIBUTED")
    || str_eq r (bytes "CODE_OWNER_COLLISION")

-- the map `driftKinds`
unfoldable pub known_drift : Bytes → Bool
known_drift k =
    str_eq k (bytes "MANUAL_COLLISION")
    || str_eq k (bytes "LEGACY_CODE_UNATTRIBUTED")
    || str_eq k (bytes "CODE_OWNER_COLLISION")
    || str_eq k (bytes "ABSENT_DECLARATION")

unfoldable pub known_source : Bytes → Bool
known_source s = str_eq s (bytes "CODE") || str_eq s (bytes "MANUAL")

-- the map `operations`
pub record Tally : Type 0 where
  pub create : ℕ
  pub update : ℕ
  pub unchanged : ℕ
  pub resurrect : ℕ
  pub conflict : ℕ

pub data Operation : Type 0 where
  create update unchanged resurrect conflict : Operation

unfoldable pub operation_of : Bytes → Option Operation
operation_of o =
    if str_eq o (bytes "CREATE")
    then some create
    else if str_eq o (bytes "UPDATE")
    then some update
    else if str_eq o (bytes "UNCHANGED")
    then some unchanged
    else if str_eq o (bytes "RESURRECT")
    then some resurrect
    else if str_eq o (bytes "CONFLICT")
    then some conflict
    else none

-- `operations[item.Operation]++`
unfoldable pub counted : Operation → Tally → Tally
counted create t = record t { create = t.create + 1 }
counted update t = record t { update = t.update + 1 }
counted unchanged t = record t { unchanged = t.unchanged + 1 }
counted resurrect t = record t { resurrect = t.resurrect + 1 }
counted conflict t = record t { conflict = t.conflict + 1 }

-- the loop over the result's items, from the last key and the counts so far
unfoldable pub check_items : Bytes → Tally → List Item → Result ResultError Tally
check_items last t [] = ok t
check_items last t (i ∷ is_) =
    if not (valid_manifest_key i.key) || not (str_lt last i.key) || not (known_reason i.reason)
    then err invalid_item
    else elim (operation_of i.operation) [
      | none ↦ err unknown_operation
      | some o ↦ check_items i.key (counted o t) is_
    ]

-- the loop over the drift
unfoldable pub check_drift : Bytes → List Drift → Result ResultError (Unit {0})
check_drift last [] = ok tt
check_drift last (d ∷ ds) =
    if not (valid_manifest_key d.key)
      || not (str_lt last d.key)
      || not (known_drift d.kind)
      || not (known_source d.source)
    then err invalid_drift
    else check_drift d.key ds

-- `count == n` for a count of the result
abbrev pub is_count : ℤ → ℕ → Bool
is_count (pos a) n = a == n
is_count (negsuc a) n = false

unfoldable pub counts_match : Counts → Tally → ℕ → Bool
counts_match c t drifts =
    is_count c.created t.create
    && is_count c.updated t.update
    && is_count c.unchanged t.unchanged
    && is_count c.resurrected t.resurrect
    && is_count c.conflict t.conflict
    && is_count c.drift drifts

abbrev bool_eq : Bool → Bool → Bool
bool_eq true b = b
bool_eq false b = not b

unfoldable pub same_identity : ManifestResult → PreparedManifest → Bool
same_identity r p =
    str_eq r.mode p.mode
    && str_eq r.manifest_id p.manifest_id
    && str_eq r.revision p.revision
    && str_eq r.fingerprint p.fingerprint
    && is_fingerprint r.fingerprint
    && bool_eq r.applied (str_eq p.mode mode_upsert)

abbrev pub no_operations : Tally
no_operations = record { create = 0; update = 0; unchanged = 0; resurrect = 0; conflict = 0 }

abbrev require : Bool → ResultError → Result ResultError (Unit {0})
require true e = ok tt
require false e = err e

-- `validateManifestResult`
unfoldable pub validate_manifest_result :
    ManifestResult → PreparedManifest → Result ResultError (Unit {0})
validate_manifest_result r p = do
  require (same_identity r p) identity_mismatch
  operations ← check_items [] no_operations r.results
  check_drift [] r.drift
  require (counts_match r.counts operations (length r.drift)) counts_mismatch
