-- ===== src/Permission/Parsing.antt =====
-- `ParsePermission` against the wire form: it accepts the text of a key whose parts are not empty
-- and hold no colon, and nothing else.
use vertex_sdk_go.Prelude.{
  ℕ, suc, ◌+◌, ◌-◌, ◌≡◌, refl, ap, ◌≢◌, ◌↔◌, [], ◌∷◌, ◌++◌, some, ok, err, arith, length, All, inl,
  inr, leb, ◌||◌, if◌then◌else◌, drop_separator, take-length, length-append, Bool-cases, ==_iff,
  ◌==◌,
}
use vertex_sdk_go.Prelude.Strings.{Bytes, count_byte, index_byte}
use vertex_sdk_go.Permission.{PermissionKey, authority, parse_permission}

-- The text holds no colon.
abbrev pub NoColon : Bytes → Type 0
NoColon = All (λ c. c ≢ b':')

-- A key whose text can be read back.
pub record IsWire (k : PermissionKey) : Type 0 where
  pub resource_nonempty : k.resource ≢ []
  pub action_nonempty : k.action ≢ []
  pub resource_plain : NoColon k.resource
  pub action_plain : NoColon k.action

count-plain : (s : Bytes) → NoColon s → count_byte b':' s ≡ 0
unfolding count_byte
count-plain [] h = refl
count-plain (c ∷ s) (p, h) = ground (arith, count-plain s h)

plain-count : (s : Bytes) → count_byte b':' s ≡ 0 → NoColon s
unfolding count_byte
plain-count [] h = tt
plain-count (c ∷ s) h = (ground arith, plain-count s (ground arith))

count-split : (a b : Bytes) → NoColon a → count_byte b':' (a ++ b':' ∷ b) ≡ suc (count_byte b':' b)
unfolding count_byte
count-split [] b h = ground arith
count-split (c ∷ a) b (p, h) = ground (arith, count-split a b h)

index-split : (a b : Bytes) → NoColon a → index_byte b':' (a ++ b':' ∷ b) ≡ some (length a)
unfolding index_byte
index-split [] b h = refl
index-split (c ∷ a) b (p, h) = ground (arith, index-split a b h)

-- A text in two parts, with a colon between them.
record Halves (s : Bytes) : Type 0 where
  left : Bytes
  right : Bytes
  joined : s ≡ left ++ b':' ∷ right
  left_plain : NoColon left
  right_plain : NoColon right

one_colon : (s : Bytes) → count_byte b':' s ≡ 1 → Halves s
unfolding count_byte
one_colon [] h = absurd (omega arith)
one_colon (c ∷ s) h = elim (Bool-cases (c == b':')) [
  | inl e ↦ record {
    left = [];
    right = s;
    joined = ap (λ (x : ℕ). x ∷ s) ((==_iff c b':').0 e);
    left_plain = tt;
    right_plain = plain-count s (ground arith);
  }
  | inr e ↦
      let r = one_colon s (ground arith) in
      record {
        left = c ∷ r.left;
        right = r.right;
        joined = ap (◌∷◌ c) r.joined;
        left_plain = (ground arith, r.left_plain);
        right_plain = r.right_plain;
      }
]

module _ (a b : Bytes) (ha : NoColon a) (hb : NoColon b) where
  count-halves : count_byte b':' (a ++ b':' ∷ b) ≡ 1
  count-halves = omega (arith, count-split a b ha, count-plain b hb)

  length-halves : length (a ++ b':' ∷ b) ≡ length a + suc (length b)
  length-halves = length-append a (b':' ∷ b)

  -- What the parser does with a text that has one colon.
  parse_halves : parse_permission (a ++ b':' ∷ b) ≡ (
      if leb (length a) 0 || length a == length (a ++ b':' ∷ b) - 1
      then err (record { raw = a ++ b':' ∷ b })
      else ok (record { resource = a; action = b }))
  unfolding parse_permission
  parse_halves =
      rw (count-halves, index-split a b ha, take-length a (b':' ∷ b), drop_separator a b':' b)

  parse_split :
      a ≢ [] → b ≢ [] → parse_permission (a ++ b':' ∷ b) ≡ ok (record { resource = a; action = b })
  parse_split na nb = rw parse_halves (ground (arith, length-halves))

  split_parse :
      (k : PermissionKey)
      → parse_permission (a ++ b':' ∷ b) ≡ ok k
      → (k ≡ record { resource = a; action = b }) × (a ≢ []) × (b ≢ [])
  split_parse k h = (
    ground (arith, parse_halves),
    λ e. ground (arith, parse_halves, ap length e),
    λ e. ground (arith, parse_halves, length-halves, ap length e),
  )

one_colon_of_parse :
    (s : Bytes) (k : PermissionKey) → parse_permission s ≡ ok k → count_byte b':' s ≡ 1
unfolding parse_permission
one_colon_of_parse s k h = ground arith

parse-IsWire :
    (a b : Bytes) (k : PermissionKey)
    → NoColon a
    → NoColon b
    → parse_permission (a ++ b':' ∷ b) ≡ ok k
    → (a ++ b':' ∷ b ≡ authority k) × IsWire k
unfolding authority
parse-IsWire a b k ha hb h =
    let (e, na, nb) = split_parse a b ha hb k h in
    rw e (
      refl,
      record {
        resource_nonempty = na;
        action_nonempty = nb;
        resource_plain = ha;
        action_plain = hb;
      },
    )

-- `ParsePermission` accepts exactly the wire forms: a text is read as the key `k` if and only if it
-- is the text of `k` and the parts of `k` are not empty and hold no colon.
pub parse_permission_iff :
    (s : Bytes) (k : PermissionKey) → (parse_permission s ≡ ok k) ↔ ((s ≡ authority k) × IsWire k)
parse_permission_iff s k = (
  λ h.
      let r = one_colon s (one_colon_of_parse s k h) in
      rw r.joined (parse-IsWire r.left r.right k r.left_plain r.right_plain (rw r.joined at h)),
  λ (e, w). rw e (
      unfold authority in
      parse_split k.resource k.action w.resource_plain w.action_plain w.resource_nonempty
        w.action_nonempty),
)
