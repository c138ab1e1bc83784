-- ===== src/Manifest/Response/Consistent.antt =====
-- What a result that passes the checks is known to say.
use vertex_sdk_go.Prelude.{
  ℕ, ◌+◌, ◌≡◌, ◌∙◌, sym, refl, ap, inl, inr, Bool, true, false, List, [], ◌∷◌, Option, none, some,
  Result, ok, ◌>>◌, >>=-eq-ok, arith, length, All, Option-cases,
}
use vertex_sdk_go.Prelude.Int.{ℤ, pos, negsuc}
use vertex_sdk_go.Prelude.Sort.{AllPairs, All-map}
use vertex_sdk_go.Prelude.Strings.{Bytes, str_eq, str_eq_iff, str_lt, str_lt-IsOrder}
use vertex_sdk_go.Manifest.{PreparedManifest, mode_upsert}
use vertex_sdk_go.Manifest.Response.{
  Item, Drift, Counts, ManifestResult, ResultError, Tally, Operation, create, update, unchanged,
  resurrect, conflict, operation_of, counted, known_reason, known_drift, known_source,
  valid_manifest_key, check_items, check_drift, bool_eq, is_count, counts_match, same_identity,
  no_operations, identity_mismatch, require, validate_manifest_result,
}

abbrev same_operation : Operation → Operation → ℕ
same_operation create create = 1
same_operation update update = 1
same_operation unchanged unchanged = 1
same_operation resurrect resurrect = 1
same_operation conflict conflict = 1
same_operation _ _ = 0

abbrev counts_as : Operation → Option Operation → ℕ
counts_as o none = 0
counts_as o (some o') = same_operation o o'

-- How many items name the operation.
unfoldable pub count : Operation → List Item → ℕ
count o [] = 0
count o (i ∷ is_) = counts_as o (operation_of i.operation) + count o is_

-- An item that the checks accept.
abbrev pub IsGoodItem : Item → Type 0
IsGoodItem i =
    (valid_manifest_key i.key ≡ true)
    × (known_reason i.reason ≡ true)
    × ((o : Operation) × (operation_of i.operation ≡ some o))

abbrev pub IsGoodDrift : Drift → Type 0
IsGoodDrift d =
    (valid_manifest_key d.key ≡ true) × (known_drift d.kind ≡ true) × (known_source d.source ≡ true)

-- The counts after the items, from those before.
record Adds (t t' : Tally) (items : List Item) : Type 0 where
  creates : t'.create ≡ t.create + count create items
  updates : t'.update ≡ t.update + count update items
  unchangeds : t'.unchanged ≡ t.unchanged + count unchanged items
  resurrects : t'.resurrect ≡ t.resurrect + count resurrect items
  conflicts : t'.conflict ≡ t.conflict + count conflict items

Adds-cons :
    (o : Operation) (t t' : Tally) (i : Item) (items : List Item)
    → operation_of i.operation ≡ some o
    → Adds (counted o t) t' items
    → Adds t t' (i ∷ items)
unfolding count counted
Adds-cons o t t' i items e a = ground arith

-- The keys rise strictly, from the given key on.
abbrev Above : Bytes → List Bytes → Type 0
Above last ks = All (λ k. str_lt last k ≡ true) ks

record ItemsFit (last : Bytes) (t t' : Tally) (items : List Item) : Type 0 where
  good : All IsGoodItem items
  above : All (λ (i : Item). str_lt last i.key ≡ true) items
  ascending : AllPairs (λ (i j : Item). str_lt i.key j.key ≡ true) items
  adds : Adds t t' items

check_items_lem :
    (last : Bytes) (t t' : Tally) (items : List Item)
    → check_items last t items ≡ ok t'
    → ItemsFit last t t' items
unfolding check_items count
check_items_lem last t t' [] h = record {
  good = tt;
  above = tt;
  ascending = tt;
  adds = ground arith;
}
check_items_lem last t t' (i ∷ items) h = elim (Option-cases (operation_of i.operation)) [
  | inl e ↦ absurd (ground arith)
  | inr (o, e) ↦
      let f = check_items_lem i.key (counted o t) t' items (ground arith) in
      let below : str_lt last i.key ≡ true = ground arith in
      record {
        good = ((ground arith, ground arith, (o, e)), f.good);
        above = (
          below,
          All-map _ _ items (λ j. str_lt-IsOrder.transitive last i.key j.key below) f.above,
        );
        ascending = (f.above, f.ascending);
        adds = Adds-cons o t t' i items e f.adds;
      }
]

record DriftFits (last : Bytes) (ds : List Drift) : Type 0 where
  good : All IsGoodDrift ds
  above : All (λ (d : Drift). str_lt last d.key ≡ true) ds
  ascending : AllPairs (λ (d e : Drift). str_lt d.key e.key ≡ true) ds

check_drift_lem : (last : Bytes) (ds : List Drift) → check_drift last ds ≡ ok tt → DriftFits last ds
unfolding check_drift
check_drift_lem last [] h = record { good = tt; above = tt; ascending = tt }
check_drift_lem last (d ∷ ds) h =
    let f = check_drift_lem d.key ds (ground arith) in
    let below : str_lt last d.key ≡ true = ground arith in
    record {
      good = ((ground arith, ground arith, ground arith), f.good);
      above =
          (below, All-map _ _ ds (λ e. str_lt-IsOrder.transitive last d.key e.key below) f.above);
      ascending = (f.above, f.ascending);
    }

-- The result answers the request, its items and its drift are well formed with strictly rising keys,
-- and its counts are those of its items and its drift.
pub record IsConsistent (r : ManifestResult) (p : PreparedManifest) : Type 0 where
  pub mode : r.mode ≡ p.mode
  pub manifest_id : r.manifest_id ≡ p.manifest_id
  pub revision : r.revision ≡ p.revision
  pub fingerprint : r.fingerprint ≡ p.fingerprint
  pub applied :
      (r.applied ≡ true → p.mode ≡ mode_upsert) × (p.mode ≡ mode_upsert → r.applied ≡ true)
  pub items : All IsGoodItem r.results
  pub items_ascending : AllPairs (λ (i j : Item). str_lt i.key j.key ≡ true) r.results
  pub drift : All IsGoodDrift r.drift
  pub drift_ascending : AllPairs (λ (d e : Drift). str_lt d.key e.key ≡ true) r.drift
  pub created : r.counts.created ≡ pos (count create r.results)
  pub updated : r.counts.updated ≡ pos (count update r.results)
  pub unchanged_count : r.counts.unchanged ≡ pos (count unchanged r.results)
  pub resurrected : r.counts.resurrected ≡ pos (count resurrect r.results)
  pub conflicts : r.counts.conflict ≡ pos (count conflict r.results)
  pub drifts : r.counts.drift ≡ pos (length r.drift)

require_ok :
    {A : Type 0} (b : Bool) (e : ResultError) (k : Result ResultError A) (a : A)
    → (require b e >> k) ≡ ok a
    → (b ≡ true) × (k ≡ ok a)
require_ok true e k a h = (refl, h)
require_ok false e k a h = cc

record Identifies (r : ManifestResult) (p : PreparedManifest) : Type 0 where
  mode : r.mode ≡ p.mode
  manifest_id : r.manifest_id ≡ p.manifest_id
  revision : r.revision ≡ p.revision
  fingerprint : r.fingerprint ≡ p.fingerprint
  applied : (r.applied ≡ true → p.mode ≡ mode_upsert) × (p.mode ≡ mode_upsert → r.applied ≡ true)

str_eq_eq : (a b : Bytes) → str_eq a b ≡ true → a ≡ b
str_eq_eq a b = (str_eq_iff a b).0

bool_eq_eq : (a b : Bool) → bool_eq a b ≡ true → a ≡ b
bool_eq_eq true true h = refl
bool_eq_eq true false h = cc
bool_eq_eq false true h = cc
bool_eq_eq false false h = refl

same_identity_lem :
    (r : ManifestResult) (p : PreparedManifest) → same_identity r p ≡ true → Identifies r p
unfolding same_identity
same_identity_lem r p h =
    let applied : r.applied ≡ str_eq p.mode mode_upsert = bool_eq_eq _ _ (ground arith) in
    let tested = str_eq_iff p.mode mode_upsert in
    record {
      mode = str_eq_eq _ _ (ground arith);
      manifest_id = str_eq_eq _ _ (ground arith);
      revision = str_eq_eq _ _ (ground arith);
      fingerprint = str_eq_eq _ _ (ground arith);
      applied = (λ yes. tested.0 (sym applied ∙ yes), λ upsert. applied ∙ tested.1 upsert);
    }

is_count_eq : (c : ℤ) (n m : ℕ) → is_count c n ≡ true → n ≡ 0 + m → c ≡ pos m
is_count_eq (pos a) n m h e = ap pos (ground arith)
is_count_eq (negsuc a) n m h e = cc

record Counted (c : Counts) (items : List Item) (drifts : ℕ) : Type 0 where
  created : c.created ≡ pos (count create items)
  updated : c.updated ≡ pos (count update items)
  unchanged_count : c.unchanged ≡ pos (count unchanged items)
  resurrected : c.resurrected ≡ pos (count resurrect items)
  conflicts : c.conflict ≡ pos (count conflict items)
  drift : c.drift ≡ pos drifts

counts_match_lem :
    (c : Counts) (t : Tally) (items : List Item) (drifts : ℕ)
    → Adds no_operations t items
    → counts_match c t drifts ≡ true
    → Counted c items drifts
unfolding counts_match
counts_match_lem c t items drifts a h = record {
  created = is_count_eq c.created t.create _ (ground arith) (a.creates);
  updated = is_count_eq c.updated t.update _ (ground arith) (a.updates);
  unchanged_count = is_count_eq c.unchanged t.unchanged _ (ground arith) (a.unchangeds);
  resurrected = is_count_eq c.resurrected t.resurrect _ (ground arith) (a.resurrects);
  conflicts = is_count_eq c.conflict t.conflict _ (ground arith) (a.conflicts);
  drift = is_count_eq c.drift drifts drifts (ground arith) (omega arith);
}

-- `validateManifestResult` lets a result pass only if it answers the request and is consistent.
pub validate_manifest_result-IsConsistent :
    (r : ManifestResult) (p : PreparedManifest)
    → validate_manifest_result r p ≡ ok tt
    → IsConsistent r p
unfolding validate_manifest_result
validate_manifest_result-IsConsistent r p h =
    let (same, h₁) = require_ok (same_identity r p) identity_mismatch _ tt h in
    let (t, checked, h₂) = >>=-eq-ok (check_items [] no_operations r.results) _ h₁ in
    let (u, drift_checked, h₃) = >>=-eq-ok (check_drift [] r.drift) _ h₂ in
    let f = check_items_lem [] no_operations t r.results checked in
    let g = check_drift_lem [] r.drift drift_checked in
    let match : counts_match r.counts t (length r.drift) ≡ true = ground arith in
    let identity = same_identity_lem r p same in
    let counted_ = counts_match_lem r.counts t r.results (length r.drift) f.adds match in
    record {
      mode = identity.mode;
      manifest_id = identity.manifest_id;
      revision = identity.revision;
      fingerprint = identity.fingerprint;
      applied = identity.applied;
      items = f.good;
      items_ascending = f.ascending;
      drift = g.good;
      drift_ascending = g.ascending;
      created = counted_.created;
      updated = counted_.updated;
      unchanged_count = counted_.unchanged_count;
      resurrected = counted_.resurrected;
      conflicts = counted_.conflicts;
      drifts = counted_.drift;
    }
