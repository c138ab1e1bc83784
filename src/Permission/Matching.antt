-- ===== src/Permission/Matching.antt =====
-- What `Matches` and the helpers over lists of granted strings decide.
use vertex_sdk_go.Prelude.{
  ◌≡◌, ◌≢◌, refl, ◌↔◌, ◌⊎◌, inl, inr, true, false, List, [], ◌∷◌, ◌++◌, ok, arith, All, Any, ap,
  ◌∙◌, sym, Result-cases, Bool-cases, all, length,
}
use vertex_sdk_go.Prelude.Strings.{Bytes, bytes, str_eq_iff, class_match}
use vertex_sdk_go.Permission.{
  PermissionKey, authority, is_segment, segment_char, is_concrete, parse_permission, matches,
  matches_key, key_eq, has_permission, has_all_permissions, has_any_permission, all_granted,
}
use vertex_sdk_go.Permission.Parsing.{IsWire, NoColon, parse_permission_iff}

abbrev pub full_wildcard : Bytes
full_wildcard = bytes "*:*"

-- "resource:*"
abbrev pub action_wildcard : Bytes → Bytes
action_wildcard resource = resource ++ bytes ":*"

-- The granted string covers the key: everything, every action of its resource, or the key itself.
abbrev pub Covers : PermissionKey → Bytes → Type 0
Covers k g = (g ≡ full_wildcard) ⊎ (g ≡ action_wildcard k.resource) ⊎ (g ≡ authority k)

is_segment-star : is_segment (bytes "*") ≡ false
unfolding is_segment segment_char class_match
is_segment-star = refl

segment_chars-plain : (s : Bytes) → all segment_char s ≡ true → NoColon s
unfolding segment_char
segment_chars-plain [] h = tt
segment_chars-plain (c ∷ s) h = (ground arith, segment_chars-plain s (ground arith))

is_segment-plain : (s : Bytes) → is_segment s ≡ true → (s ≢ []) × NoColon s
unfolding is_segment class_match
is_segment-plain s h = (λ e. ground (arith, ap length e), segment_chars-plain s (ground arith))

-- The same on parsed keys.
abbrev KeyCovers : PermissionKey → PermissionKey → Type 0
KeyCovers k g =
    (g ≡ record { resource = bytes "*"; action = bytes "*" })
    ⊎ (g ≡ record { resource = k.resource; action = bytes "*" })
    ⊎ (g ≡ k)

matches_key_iff :
    (k g : PermissionKey) → is_concrete k ≡ true → (matches_key k g ≡ true) ↔ KeyCovers k g
unfolding matches_key is_concrete key_eq
matches_key_iff k g c = ground (
  arith,
  is_segment-star,
  str_eq_iff g.resource (bytes "*"),
  str_eq_iff g.action (bytes "*"),
  str_eq_iff g.resource k.resource,
  str_eq_iff g.action k.action,
)

star-IsWire :
    (r : Bytes) → r ≢ [] → NoColon r → IsWire (record { resource = r; action = bytes "*" })
star-IsWire r h n = record {
  resource_nonempty = h;
  action_nonempty = λ e. cc;
  resource_plain = n;
  action_plain = (λ e. omega arith, tt);
}

concrete-IsWire : (k : PermissionKey) → is_concrete k ≡ true → IsWire k
unfolding is_concrete
concrete-IsWire k c =
    let (r, rp) = is_segment-plain k.resource (ground arith) in
    let (a, ap) = is_segment-plain k.action (ground arith) in
    record { resource_nonempty = r; action_nonempty = a; resource_plain = rp; action_plain = ap }

Covers-of_parse :
    (k gk : PermissionKey) (g : Bytes) → g ≡ authority gk → KeyCovers k gk → Covers k g
unfolding authority
Covers-of_parse k gk g e (inl w) = inl (e ∙ ap authority w)
Covers-of_parse k gk g e (inr (inl w)) = inr (inl (e ∙ ap authority w))
Covers-of_parse k gk g e (inr (inr w)) = inr (inr (e ∙ ap authority w))

parse_of_Covers :
    (k : PermissionKey) (g : Bytes)
    → is_concrete k ≡ true
    → Covers k g
    → (gk : PermissionKey) × (parse_permission g ≡ ok gk) × KeyCovers k gk
unfolding authority
parse_of_Covers k g c (inl e) = (
  record { resource = bytes "*"; action = bytes "*" },
  (parse_permission_iff g _).1 (e, star-IsWire _ (λ p. cc) (λ p. omega arith, tt)),
  inl refl,
)
parse_of_Covers k g c (inr (inl e)) =
    let w = concrete-IsWire k c in
    (
      record { resource = k.resource; action = bytes "*" },
      (parse_permission_iff g _).1 (e, star-IsWire _ w.resource_nonempty w.resource_plain),
      inr (inl refl),
    )
parse_of_Covers k g c (inr (inr e)) =
    (k, (parse_permission_iff g k).1 (e, concrete-IsWire k c), inr (inr refl))

matches-concrete : (k : PermissionKey) (g : Bytes) → matches k g ≡ true → is_concrete k ≡ true
unfolding matches
matches-concrete k g h = ground arith

matches_of_parse :
    (k gk : PermissionKey) (g : Bytes)
    → is_concrete k ≡ true
    → parse_permission g ≡ ok gk
    → matches k g ≡ matches_key k gk
unfolding matches
matches_of_parse k gk g c e = rw (c, e)

Covers-of_matches : (k : PermissionKey) (g : Bytes) → matches k g ≡ true → Covers k g
Covers-of_matches k g h = elim (Result-cases (parse_permission g)) [
  | inl (gk, e) ↦
      let c = matches-concrete k g h in
      Covers-of_parse k gk g ((parse_permission_iff g gk).0 e).0
        ((matches_key_iff k gk c).0 (sym (matches_of_parse k gk g c e) ∙ h))
  | inr (er, e) ↦ absurd (unfold matches in ground arith)
]

-- `Matches` holds exactly if the target is a concrete key and the granted string is "*:*", the
-- target's resource with ":*", or the text of the target.
pub matches_iff :
    (target : PermissionKey) (granted : Bytes)
    → (matches target granted ≡ true) ↔ ((is_concrete target ≡ true) × Covers target granted)
matches_iff k g = (
  λ h. (matches-concrete k g h, Covers-of_matches k g h),
  λ (c, h).
      let (gk, e, w) = parse_of_Covers k g c h in
      matches_of_parse k gk g c e ∙ (matches_key_iff k gk c).1 w,
)

segment-no_star : (s r t : Bytes) → is_segment s ≡ true → bytes "*" ++ t ≡ s ++ r → ⊥
unfolding is_segment class_match segment_char
segment-no_star [] r t h e = cc
segment-no_star (c ∷ s) r t h e = ground arith

concrete-no_star :
    (k : PermissionKey) (r t : Bytes) → is_concrete k ≡ true → bytes "*" ++ t ≡ k.resource ++ r → ⊥
unfolding is_concrete
concrete-no_star k r t c e = segment-no_star k.resource r t (ground arith) e

wildcard-not-Covers :
    (k : PermissionKey) (action : Bytes)
    → action ≢ bytes "*"
    → is_concrete k ≡ true
    → ¬ (Covers k (bytes "*:" ++ action))
unfolding authority
wildcard-not-Covers k a n c (inl e) = n (cc)
wildcard-not-Covers k a n c (inr (inl e)) = concrete-no_star k _ _ c e
wildcard-not-Covers k a n c (inr (inr e)) = concrete-no_star k _ _ c e

-- A granted "*:action" matches no target, unless its action is "*" too.
matches-resource_wildcard :
    (target : PermissionKey) (action : Bytes)
    → action ≢ bytes "*"
    → matches target (bytes "*:" ++ action) ≡ false
matches-resource_wildcard k a n = elim (Bool-cases (matches k (bytes "*:" ++ a))) [
  | inl h ↦
      let (c, w) = (matches_iff k (bytes "*:" ++ a)).0 h in absurd (wildcard-not-Covers k a n c w)
  | inr h ↦ h
]

-- The target is a concrete key and one of the granted strings covers it.
abbrev pub IsGranted : List Bytes → PermissionKey → Type 0
IsGranted granted target = (is_concrete target ≡ true) × Any (Covers target) granted

-- `HasPermission` holds exactly if the target is concrete and one of the granted strings covers it.
pub has_permission_iff :
    (target : PermissionKey) (granted : List Bytes)
    → (has_permission target granted ≡ true) ↔ IsGranted granted target
unfolding has_permission
has_permission_iff k [] = (λ h. cc, λ h. absurd h.1)
has_permission_iff k (g ∷ gs) = ground (arith, matches_iff k g, has_permission_iff k gs)

all_granted_iff :
    (targets : List PermissionKey) (granted : List Bytes)
    → (all_granted targets granted ≡ true) ↔ All (IsGranted granted) targets
unfolding all_granted
all_granted_iff [] gs = (λ h. tt, λ h. refl)
all_granted_iff (t ∷ ts) gs = ground (arith, has_permission_iff t gs, all_granted_iff ts gs)

-- `HasAllPermissions` holds exactly if there is a target and every target is concrete and covered
-- by one of the granted strings.
pub has_all_permissions_iff :
    (targets : List PermissionKey) (granted : List Bytes)
    → (has_all_permissions targets granted ≡ true)
      ↔ ((targets ≢ []) × All (IsGranted granted) targets)
unfolding has_all_permissions
has_all_permissions_iff [] gs = (λ h. absurd (ground arith), λ h. absurd (h.0 refl))
has_all_permissions_iff (t ∷ ts) gs = ground (arith, has_permission_iff t gs, all_granted_iff ts gs)

-- `HasAnyPermission` holds exactly if some target is concrete and covered by one of the granted
-- strings.
pub has_any_permission_iff :
    (targets : List PermissionKey) (granted : List Bytes)
    → (has_any_permission targets granted ≡ true) ↔ Any (IsGranted granted) targets
unfolding has_any_permission
has_any_permission_iff [] gs = (λ h. cc, λ h. absurd h)
has_any_permission_iff (t ∷ ts) gs =
    ground (arith, has_permission_iff t gs, has_any_permission_iff ts gs)
