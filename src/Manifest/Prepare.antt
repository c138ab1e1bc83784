-- ===== src/Manifest/Prepare.antt =====
-- What `PreparePermissionManifest` accepts and returns.
use mathlib.Core.Path.{subst}
use mathlib.Core.List.{Permᴰ}
use mathlib.Core.List.Permᴰ
use vertex_sdk_go.Prelude.{
  ◌≤◌, ◌≡◌, ◌≢◌, ◌↔◌, refl, sym, ap, ◌∙◌, ◌⊎◌, inl, inr, Bool, true, false, not, ◌||◌, List, [],
  ◌∷◌, some, Result, ok, ◌>>◌, >>=-eq-ok, arith, length, ltb, All, Option-cases,
}
use vertex_sdk_go.Prelude.Sort.{
  sort, sort-perm, sort-IsSorted, sort-eq_of_perm, IsOrder, IsSorted, IsChain, Comparable, AllPairs,
  AllPairs-map, AllPairs-perm, All-map, All-perm,
}
use vertex_sdk_go.Prelude.Strings.{
  Bytes, str_eq, str_eq_iff, str_lt, str_lt-IsOrder, str_lt-Comparable, str_lt_total, str_lt_irrefl,
}
use vertex_sdk_go.Manifest.Canonical.{canonical_manifest}
use vertex_sdk_go.Manifest.Text.{
  Declaration, key, ManifestError, duplicate_key, bad_permissions, require, validate_declaration,
  is_manifest_id, is_revision,
}
use vertex_sdk_go.Manifest.{
  mode_validate, mode_upsert, PermissionManifest, PreparedManifest, key_lt, has_duplicate,
  validate_declarations, prepare_permissions, prepare,
}

-- No two declarations have the same key.
abbrev pub DistinctKeys : List Declaration → Type 0
DistinctKeys = AllPairs (λ a b. key a ≢ key b)

-- The keys rise strictly.
abbrev pub IsAscending : List Declaration → Type 0
IsAscending = AllPairs (λ a b. str_lt (key a) (key b) ≡ true)

key_lt-IsOrder : IsOrder key_lt
unfolding key_lt
key_lt-IsOrder = record {
  asym = λ a b. str_lt-IsOrder.asym (key a) (key b);
  transitive = λ a b c. str_lt-IsOrder.transitive (key a) (key b) (key c);
  neg_transitive = λ a b c. str_lt-IsOrder.neg_transitive (key a) (key b) (key c);
}

-- In a sorted list the test of neighbours sees every duplicate.
above_of_no_duplicate :
    (x : Declaration) (xs : List Declaration)
    → IsSorted key_lt (x ∷ xs)
    → has_duplicate (x ∷ xs) ≡ false
    → All (λ y. str_lt (key x) (key y) ≡ true) xs
unfolding key_lt has_duplicate
above_of_no_duplicate x [] s h = tt
above_of_no_duplicate x (y ∷ ys) ((n, ns), s) h =
    let below : str_lt (key x) (key y) ≡ true =
      ground (arith, str_eq_iff (key x) (key y), str_lt_total (key x) (key y)) in
    (
      below,
      All-map _ _ ys (λ z. str_lt-IsOrder.transitive (key x) (key y) (key z) below)
          (above_of_no_duplicate y ys s (ground arith)),
    )

IsAscending-of_no_duplicate :
    (xs : List Declaration) → IsSorted key_lt xs → has_duplicate xs ≡ false → IsAscending xs
unfolding has_duplicate
IsAscending-of_no_duplicate [] s h = tt
IsAscending-of_no_duplicate (x ∷ []) s h = (tt, tt)
IsAscending-of_no_duplicate (x ∷ y ∷ ys) s h =
    (above_of_no_duplicate x (y ∷ ys) s h, IsAscending-of_no_duplicate (y ∷ ys) s.1 (ground arith))

no_duplicate_of_DistinctKeys : (xs : List Declaration) → DistinctKeys xs → has_duplicate xs ≡ false
unfolding has_duplicate
no_duplicate_of_DistinctKeys [] h = refl
no_duplicate_of_DistinctKeys (x ∷ []) h = refl
no_duplicate_of_DistinctKeys (x ∷ y ∷ ys) ((n, ns), h) =
    ground (arith, str_eq_iff (key x) (key y), no_duplicate_of_DistinctKeys (y ∷ ys) h)

ne_of_lt : (s t : Bytes) → str_lt s t ≡ true → s ≢ t
ne_of_lt s t h e = cc (str_lt_irrefl t, ap (λ u. str_lt u t) e)

module _ (ds : List Declaration) where
  sorted-DistinctKeys : DistinctKeys ds → DistinctKeys (sort key_lt ds)
  sorted-DistinctKeys h =
      AllPairs-perm _ (λ a b n e. n (sym e)) (Permᴰ.symm (sort-perm key_lt ds)) h

  sorted-IsAscending : has_duplicate (sort key_lt ds) ≡ false → IsAscending (sort key_lt ds)
  sorted-IsAscending h = IsAscending-of_no_duplicate _ (sort-IsSorted key_lt key_lt-IsOrder ds) h

  DistinctKeys-of_sorted : has_duplicate (sort key_lt ds) ≡ false → DistinctKeys ds
  DistinctKeys-of_sorted h =
      AllPairs-perm _ (λ a b n e. n (sym e)) (sort-perm key_lt ds)
        (AllPairs-map _ _ _ (λ a b. ne_of_lt (key a) (key b)) (sorted-IsAscending h))

  DistinctKeys-IsChain : DistinctKeys ds → IsChain key_lt ds
  DistinctKeys-IsChain = AllPairs-map _ _ ds comparable
    where
      comparable : (a b : Declaration) → key a ≢ key b → Comparable key_lt a b
      comparable a b n = elim (str_lt-Comparable (key a) (key b)) [
        | inl h ↦ inl (unfold key_lt in h)
        | inr (inl h) ↦ inr (inl (unfold key_lt in h))
        | inr (inr e) ↦ absurd (n e)
      ]

Permᴰ-length {ℓ} : {A : Type ℓ} {xs ys : List A} → Permᴰ xs ys → length xs ≡ length ys
Permᴰ-length Permᴰ.nil = refl
Permᴰ-length (Permᴰ.cons e p) = omega (arith, Permᴰ-length p)
Permᴰ-length (Permᴰ.swap e f) = refl
Permᴰ-length (Permᴰ.trans p q) = Permᴰ-length p ∙ Permᴰ-length q

module _ (is_nfc : Bytes → Bool) where
  -- `validateManifestDeclaration` accepts the declaration.
  abbrev pub IsValidDeclaration : Declaration → Type 0
  IsValidDeclaration d = validate_declaration is_nfc d ≡ ok tt

  validate_declarations_iff :
      (ds : List Declaration)
      → (validate_declarations is_nfc ds ≡ ok tt) ↔ All IsValidDeclaration ds
  unfolding validate_declarations
  validate_declarations_iff [] = (λ h. tt, λ h. refl)
  validate_declarations_iff (d ∷ ds) = (
    λ h.
        let (u, e, f) = >>=-eq-ok (validate_declaration is_nfc d) _ h in
        (e, (validate_declarations_iff ds).0 f),
    λ (e, hs). rw e ((validate_declarations_iff ds).1 hs),
  )

  -- The declarations of a manifest can be sent: at most 1000, each valid, no key twice.
  pub record AreSendable (ds : List Declaration) : Type 0 where
    pub few : length ds ≤ 1_000
    pub valid : All IsValidDeclaration ds
    pub distinct : DistinctKeys ds

require_ok :
    {A : Type 0} (b : Bool) (e : ManifestError) (k : Result ManifestError A) (a : A)
    → (require b e >> k) ≡ ok a
    → (b ≡ true) × (k ≡ ok a)
require_ok true e k a h = (refl, h)
require_ok false e k a h = cc

module _ (is_nfc : Bytes → Bool) (sha256_hex : Bytes → Bytes) (m : PermissionManifest)
    (mode : Bytes) where
  -- What a manifest is turned into.
  pub prepared : List Declaration → PreparedManifest
  prepared ds = record {
    mode = mode;
    manifest_id = m.manifest_id;
    revision = m.revision;
    fingerprint = sha256_hex (canonical_manifest (sort key_lt ds));
    permissions = sort key_lt ds;
  }

  sendable_of_prepared :
      (ds : List Declaration) (p : PreparedManifest)
      → prepare_permissions is_nfc sha256_hex m mode (some ds) ≡ ok p
      → AreSendable is_nfc ds × (p ≡ prepared ds)
  unfolding prepare_permissions prepared
  sendable_of_prepared ds p h =
      let (few, h₁) = require_ok (not (ltb 1000 (length ds))) bad_permissions _ p h in
      let (u, valid, h₂) = >>=-eq-ok (validate_declarations is_nfc ds) _ h₁ in
      let (once, h₃) =
        require_ok (not (has_duplicate (sort key_lt ds))) duplicate_key (ok (prepared ds)) p h₂ in
      (
        record {
          few = ground arith;
          valid = (validate_declarations_iff is_nfc ds).0 valid;
          distinct = DistinctKeys-of_sorted ds (ground arith);
        },
        cc,
      )

  prepared_of_sendable :
      (ds : List Declaration)
      → AreSendable is_nfc ds
      → prepare_permissions is_nfc sha256_hex m mode (some ds) ≡ ok (prepared ds)
  unfolding prepare_permissions prepared
  prepared_of_sendable ds s = ground (
    arith,
    (validate_declarations_iff is_nfc ds).1 s.valid,
    no_duplicate_of_DistinctKeys _ (sorted-DistinctKeys ds s.distinct),
    s.few,
  )

  -- The mode is one of the two, and the manifest's ID and revision are well formed.
  pub record IsNamed : Type 0 where
    pub known_mode : (mode ≡ mode_validate) ⊎ (mode ≡ mode_upsert)
    pub good_id : is_manifest_id m.manifest_id ≡ true
    pub good_revision : is_revision m.revision ≡ true

  -- `PreparePermissionManifest` succeeds exactly if the mode is "validate" or "upsert", the ID and
  -- the revision are well formed, and the manifest has a list of at most 1000 valid declarations no
  -- two of which have the same key. It returns the declarations sorted by key, with the digest of
  -- their canonical text.
  pub prepare_iff :
      (p : PreparedManifest)
      → (prepare is_nfc sha256_hex m mode ≡ ok p) ↔ (
          IsNamed
          × ((ds : List Declaration) × (m.permissions ≡ some ds)
              × AreSendable is_nfc ds
              × (p ≡ prepared ds)))
  unfolding prepare
  prepare_iff p = (
    λ h.
        let (a, h₁) = require_ok (str_eq mode mode_validate || str_eq mode mode_upsert) _ _ p h in
        let (b, h₂) = require_ok (is_manifest_id m.manifest_id) _ _ p h₁ in
        let (c, h₃) = require_ok (is_revision m.revision) _ _ p h₂ in
        (
          record {
            known_mode = ground (arith, str_eq_iff mode mode_validate, str_eq_iff mode mode_upsert);
            good_id = b;
            good_revision = c;
          },
          elim (Option-cases m.permissions) [
            | inl e ↦ absurd (unfold prepare_permissions in ground arith)
            | inr (ds, e) ↦
                let (s, same) =
                  sendable_of_prepared ds p
                    (subst (λ o. prepare_permissions is_nfc sha256_hex m mode o ≡ ok p) e h₃) in
                (ds, e, s, same)
          ],
        ),
    λ (n, (ds, e, s, same)).
        let done = prepared_of_sendable ds s in
        ground (
          arith,
          str_eq_iff mode mode_validate,
          str_eq_iff mode mode_upsert,
          n.known_mode,
          n.good_id,
          n.good_revision,
        ),
  )

module _ (is_nfc : Bytes → Bool) (sha256_hex : Bytes → Bytes) (mode : Bytes) where
  -- A prepared manifest has the given declarations in some order, with strictly rising keys.
  pub prepare-IsAscending :
      (m : PermissionManifest) (ds : List Declaration) (p : PreparedManifest)
      → m.permissions ≡ some ds
      → prepare is_nfc sha256_hex m mode ≡ ok p
      → IsAscending p.permissions × Permᴰ p.permissions ds
  unfolding prepared
  prepare-IsAscending m ds p e h =
      let (n, (es, f, s, same)) = (prepare_iff is_nfc sha256_hex m mode p).0 h in
      let who : es ≡ ds = cc in
      rw (same, who)
        (
          sorted-IsAscending ds (
              no_duplicate_of_DistinctKeys _
                (sorted-DistinctKeys ds (subst (AreSendable is_nfc) who s).distinct)),
          sort-perm key_lt ds,
        )

  -- The order in which the declarations are given does not matter: where a manifest is prepared, the
  -- manifest with the same declarations in another order is prepared to the same result, the
  -- fingerprint included.
  pub prepare_perm :
      (m : PermissionManifest) (ds es : List Declaration) (p : PreparedManifest)
      → Permᴰ ds es
      → prepare is_nfc sha256_hex (record m { permissions = some ds }) mode ≡ ok p
      → prepare is_nfc sha256_hex (record m { permissions = some es }) mode ≡ ok p
  unfolding prepared
  prepare_perm m ds es p order h =
      let (n, (given, f, s, same)) =
        (prepare_iff is_nfc sha256_hex (record m { permissions = some ds }) mode p).0 h in
      let who : given ≡ ds = cc in
      let s' = subst (AreSendable is_nfc) who s in
      (prepare_iff is_nfc sha256_hex (record m { permissions = some es }) mode p).1 (
        record { known_mode = n.known_mode; good_id = n.good_id; good_revision = n.good_revision },
        (
          es,
          refl,
          record {
            few = omega (arith, Permᴰ-length order, s'.few);
            valid = All-perm _ order s'.valid;
            distinct = AllPairs-perm _ (λ a b k e. k (sym e)) order s'.distinct;
          },
          rw (
            same,
            who,
            sort-eq_of_perm key_lt key_lt-IsOrder order (DistinctKeys-IsChain ds s'.distinct),
          ),
        ),
      )
