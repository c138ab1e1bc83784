-- ===== src/Http/Resolved.antt =====
-- What the server's answer to a resolution must be for the client to return it.
use mathlib.Core.Path.{subst}
use vertex_sdk_go.Prelude.{
  ℕ, suc, ◌≡◌, ◌≢◌, ◌⊎◌, inl, inr, refl, sym, ap, ◌∙◌, true, not, ◌&&◌, List, [], ◌∷◌, ◌++◌, All,
  Option, none, some, ok, err, >>=-eq-ok, reject, reject-ok, ◌==◌, ==_iff, &&_iff, Bool-cases,
  arith,
}
use vertex_sdk_go.Prelude.Sort.{AllPairs}
use vertex_sdk_go.Prelude.Strings.{Bytes, bytes, str_eq, str_eq_iff}
use vertex_sdk_go.Config.{SdkConfig}
use vertex_sdk_go.Json.{is_seen}
use vertex_sdk_go.Json.Duplicates.{New, seen_iff, older, newer}
use vertex_sdk_go.Permission.{is_segment}
use vertex_sdk_go.Manifest.Response.{split_colon}
use vertex_sdk_go.Http.{
  malformed_key, duplicate_key, signed, Log, Did, Backoff, Server, max_retries, strict_answer,
  do_json_strict_retry,
}
use vertex_sdk_go.Http.Permissions.{
  valid_parts, valid_key, keys_from, strict_keys, checked_keys, resolve_permissions, Codec,
}
use vertex_sdk_go.Http.Retries.{
  SendsAtMost, Responded, the_request, do_json_strict_retry-SendsAtMost,
  do_json_strict_retry-Responded, body_of,
}

-- The key of a permission: the full wildcard, or a resource with an action or with the wildcard.
abbrev pub IsKey : Bytes → Type 0
IsKey key =
    (key ≡ bytes "*:*")
    ⊎ ((resource : Bytes) × (action : Bytes) × (key ≡ resource ++ (bytes ":" ++ action))
        × (is_segment resource ≡ true)
        × ((action ≡ bytes "*") ⊎ (is_segment action ≡ true)))

-- The parts with colons between them
abbrev with_colons : List Bytes → Bytes
with_colons [] = []
with_colons (p ∷ []) = p
with_colons (p ∷ (q ∷ ps)) = p ++ (b':' ∷ with_colons (q ∷ ps))

first_part : (s : Bytes) → (p : Bytes) × (ps : List Bytes) × (split_colon s ≡ p ∷ ps)
unfolding split_colon
first_part [] = ([], [], refl)
first_part (b ∷ s) = elim (Bool-cases (b == b':')) [
  | inl e ↦ ([], split_colon s, simp e refl)
  | inr e ↦ let (p, ps, at) = first_part s in (b ∷ p, ps, simp (e, at) refl)
]

longer :
    (b : ℕ) (p : Bytes) (ps : List Bytes) → with_colons ((b ∷ p) ∷ ps) ≡ b ∷ with_colons (p ∷ ps)
longer b p [] = refl
longer b p (q ∷ ps) = refl

with_colons-split : (s : Bytes) → with_colons (split_colon s) ≡ s
unfolding split_colon
with_colons-split [] = refl
with_colons-split (b ∷ s) =
    let (p, ps, at) = first_part s in
    let rest : with_colons (p ∷ ps) ≡ s = sym (ap with_colons at) ∙ with_colons-split s in
    elim (Bool-cases (b == b':')) [
      | inl e ↦
          let colon : b ≡ b':' = (==_iff b b':').0 e in
          simp (e, at) (ap (λ x. b':' ∷ x) rest ∙ ap (λ x. x ∷ s) (sym colon))
      | inr e ↦ simp (e, at) (longer b p ps ∙ ap (λ x. b ∷ x) rest)
    ]

parts-IsKey :
    (key : Bytes) (ps : List Bytes) → split_colon key ≡ ps → valid_parts ps ≡ true → IsKey key
unfolding valid_parts
parts-IsKey key [] at h = cc
parts-IsKey key (p ∷ []) at h = cc
parts-IsKey key (p ∷ q ∷ []) at h =
    let whole : key ≡ p ++ (b':' ∷ q) = sym (with_colons-split key) ∙ ap with_colons at in
    elim (Bool-cases (str_eq p (bytes "*") && str_eq q (bytes "*"))) [
      | inl e ↦
          let (x, y) = (&&_iff (str_eq p (bytes "*")) (str_eq q (bytes "*"))).0 e in
          let p_star = (str_eq_iff p (bytes "*")).0 x in
          let q_star = (str_eq_iff q (bytes "*")).0 y in
          inl (whole ∙ ap (λ z. z ++ (b':' ∷ q)) p_star ∙ ap (λ z. bytes "*" ++ (b':' ∷ z)) q_star)
      | inr e ↦ inr (
        p,
        q,
        whole,
        ground arith,
        elim (Bool-cases (str_eq q (bytes "*"))) [
          | inl d ↦ inl ((str_eq_iff q (bytes "*")).0 d)
          | inr d ↦ inr (ground arith)
        ],
      )
    ]
parts-IsKey key (p ∷ q ∷ r ∷ ps) at h = cc

-- Valid keys, none of them twice or among those seen.
abbrev AreKeys : List Bytes → List Bytes → Type 0
AreKeys seen keys = All IsKey keys × AllPairs (λ a b. a ≢ b) keys × All (λ k. New k seen) keys

keys_from-AreKeys :
    (seen keys out : List Bytes) → keys_from seen keys ≡ ok out → (out ≡ keys) × AreKeys seen keys
unfolding keys_from valid_key
keys_from-AreKeys seen [] out h = (cc, (tt, tt, tt))
keys_from-AreKeys seen (key ∷ keys) out h =
    let (u, h₁, h₂) = >>=-eq-ok (reject (not (valid_key key)) (malformed_key key)) _ h in
    let (v, h₃, h₄) = >>=-eq-ok (reject (is_seen key seen) (duplicate_key key)) _ h₂ in
    let (rest, h₅, h₆) = >>=-eq-ok (keys_from (key ∷ seen) keys) _ h₄ in
    let (same, (valid, distinct, new)) = keys_from-AreKeys (key ∷ seen) keys rest h₅ in
    let fine = reject-ok (not (valid_key key)) (malformed_key key) h₁ in
    let unseen = reject-ok (is_seen key seen) (duplicate_key key) h₃ in
    (
      cc,
      (
        (parts-IsKey key (split_colon key) refl (ground arith), valid),
        (newer key seen keys new, distinct),
        ((seen_iff key seen).0 unseen, older key seen keys new),
      ),
    )

strict_keys-AreKeys :
    (o : Option (List Bytes)) (out : List Bytes)
    → strict_keys o ≡ ok out
    → (o ≡ some out) × AreKeys [] out
unfolding strict_keys
strict_keys-AreKeys none out h = cc
strict_keys-AreKeys (some keys) out h =
    let (same, are) = keys_from-AreKeys [] keys out h in
    (ap (λ x. some x) (sym same), subst (AreKeys []) (sym same) are)

module _ (b : Backoff) (v : Server) (c : SdkConfig) (k : Codec) where
  resolved-ok :
      (d : Did (Option (List Bytes))) (out : List Bytes)
      → (checked_keys b v c k d).0 ≡ ok out
      → (o : Option (List Bytes)) × (d.0 ≡ ok o) × (strict_keys o ≡ ok out)
  resolved-ok (err e, l) out h = cc
  resolved-ok (ok o, l) out h = (o, refl, h)

  -- The permissions that a resolution of some roles returns are exactly those in the response to its last
  -- request, which is below 400 and decoded strictly; each is a valid key, and no two are the same. The client
  -- sends that signed request at most once more than the configured retries, and nothing else.
  pub resolve_permissions-IsResolved :
      (client_id role : Bytes) (roles : List Bytes) (l : Log) (out : List Bytes)
      → (resolve_permissions b v c k client_id (role ∷ roles) l).0 ≡ ok out
      → let body = some (k.marshal_resolve client_id (role ∷ roles)) in
        let path = bytes "/open/v1/permissions:resolve" in
        let l' = (resolve_permissions b v c k client_id (role ∷ roles) l).1 in
        All IsKey out
        × AllPairs (λ x y. x ≢ y) out
        × SendsAtMost (suc (max_retries c)) (the_request v c (bytes "POST") path body signed) l l'
        × ((before : Log) × Responded v c signed
              (bytes "POST")
              path
              (strict_answer v k.decode_resolved)
              (body_of body)
              (some out)
              before
              l')
  unfolding resolve_permissions
  resolve_permissions-IsResolved client_id role roles l out h =
      let body = some (k.marshal_resolve client_id (role ∷ roles)) in
      let path = bytes "/open/v1/permissions:resolve" in
      let d = do_json_strict_retry b v c (bytes "POST") path body k.decode_resolved l in
      let (o, decoded, strict) = resolved-ok d out h in
      let (same, (valid, distinct, new)) = strict_keys-AreKeys o out strict in
      let (before, responded) =
        do_json_strict_retry-Responded b v c (bytes "POST") path body k.decode_resolved l o
          decoded in
      (
        valid,
        distinct,
        do_json_strict_retry-SendsAtMost b v c (bytes "POST") path body k.decode_resolved l,
        (
          before,
          subst
              (λ x.
                Responded v c signed (bytes "POST") path (strict_answer v k.decode_resolved)
                  (body_of body) x before d.1)
              same responded,
        ),
      )
