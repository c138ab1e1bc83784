-- ===== src/Generator/Names.antt =====
-- What the entries that `Render` accepts are known to have.
use vertex_sdk_go.Prelude.{
  ℕ, ◌≡◌, ◌≢◌, sym, Bool, true, false, List, [], ◌∷◌, ok, ◌>>=◌, >>=-eq-ok, arith, All, map,
}
use vertex_sdk_go.Prelude.Sort.{sort, AllPairs, All-map}
use vertex_sdk_go.Prelude.Strings.{Bytes, str_eq_iff}
use vertex_sdk_go.Permission.{PermissionDefinition, key, is_concrete}
use vertex_sdk_go.Generator.{
  Entry, definition_lt, wire_key, known, const_name, entry_of, entries_from, render_entries,
}

-- The text is none of the list.
abbrev New : Bytes → List Bytes → Type 0
New s = All (λ t. s ≢ t)

known-New : (s : Bytes) (ts : List Bytes) → known s ts ≡ false → New s ts
unfolding known
known-New s [] h = tt
known-New s (t ∷ ts) h = (ground (arith, str_eq_iff s t), known-New s ts (ground arith))

module _ (to_upper : ℕ → ℕ) (is_nfc : Bytes → Bool) where
  abbrev name_of : PermissionDefinition → Bytes
  name_of d = const_name to_upper d.resource d.action

  record Fits (keys names : List Bytes) (ds : List PermissionDefinition) (es : List Entry)
      : Type 0 where
    entries : es ≡ map (entry_of to_upper) ds
    concrete : All (λ d. is_concrete (key d) ≡ true) ds
    keys_new : All (λ d. New (wire_key d) keys) ds
    keys_distinct : AllPairs (λ a b. wire_key a ≢ wire_key b) ds
    names_new : All (λ d. New (name_of d) names) ds
    names_distinct : AllPairs (λ a b. name_of a ≢ name_of b) ds

  entries_from-Fits :
      (keys names : List Bytes) (ds : List PermissionDefinition) (es : List Entry)
      → entries_from to_upper is_nfc keys names ds ≡ ok es
      → Fits keys names ds es
  unfolding entries_from
  entries_from-Fits keys names [] es h = record {
    entries = cc;
    concrete = tt;
    keys_new = tt;
    keys_distinct = tt;
    names_new = tt;
    names_distinct = tt;
  }
  entries_from-Fits keys names (d ∷ ds) es h =
      let rest = entries_from to_upper is_nfc (wire_key d ∷ keys) (name_of d ∷ names) ds in
      let chain : (rest >>= λ xs. ok (entry_of to_upper d ∷ xs)) ≡ ok es = ground arith in
      let (xs, e, same) = >>=-eq-ok rest (λ xs. ok (entry_of to_upper d ∷ xs)) chain in
      let f = entries_from-Fits (wire_key d ∷ keys) (name_of d ∷ names) ds xs e in
      record {
        entries = cc (same, f.entries);
        concrete = (ground arith, f.concrete);
        keys_new = (
          known-New (wire_key d) keys (ground arith),
          All-map _ _ ds (λ a (n : New (wire_key a) (wire_key d ∷ keys)). n.1) f.keys_new,
        );
        keys_distinct = (
          All-map _ _ ds (λ a (n : New (wire_key a) (wire_key d ∷ keys)) k. n.0 (sym k)) f.keys_new,
          f.keys_distinct,
        );
        names_new = (
          known-New (name_of d) names (ground arith),
          All-map _ _ ds (λ a (n : New (name_of a) (name_of d ∷ names)). n.1) f.names_new,
        );
        names_distinct = (
          All-map _ _ ds (λ a (n : New (name_of a) (name_of d ∷ names)) k. n.0 (sym k)) f.names_new,
          f.names_distinct,
        );
      }

  -- The entries are those of the sorted permissions, all of them concrete; no two have the same key, and
  -- no two the same constant.
  pub record IsRendered (permissions : List PermissionDefinition) (es : List Entry) : Type 0 where
    pub entries : es ≡ map (entry_of to_upper) (sort definition_lt permissions)
    pub concrete : All (λ d. is_concrete (key d) ≡ true) (sort definition_lt permissions)
    pub keys_distinct : AllPairs (λ a b. wire_key a ≢ wire_key b) (sort definition_lt permissions)
    pub names_distinct : AllPairs (λ a b. name_of a ≢ name_of b) (sort definition_lt permissions)

  -- Where `Render` fills its template, the package has a name, and the entries are the permissions in
  -- the order of their resources and actions. All are concrete, no two have the same key, and no two
  -- are given the same constant.
  pub render_entries-IsRendered :
      (package_name : Bytes) (permissions : List PermissionDefinition) (es : List Entry)
      → render_entries to_upper is_nfc package_name permissions ≡ ok es
      → (package_name ≢ []) × IsRendered permissions es
  unfolding render_entries
  render_entries-IsRendered package_name permissions es h =
      let f = entries_from-Fits [] [] (sort definition_lt permissions) es (ground arith) in
      (
        ground (arith, str_eq_iff package_name []),
        record {
          entries = f.entries;
          concrete = f.concrete;
          keys_distinct = f.keys_distinct;
          names_distinct = f.names_distinct;
        },
      )
