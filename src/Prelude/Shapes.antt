-- ===== src/Prelude/Shapes.antt =====
-- Texts that regular expressions of one class for each place describe, as those of UUIDs, and of ETags.
use Prim.Native.Nat.{ℕ, zero, suc}
use mathlib.Core.Path.{◌≡◌, refl}
use mathlib.Core.Bool.{Bool, true, false, ◌&&◌, ◌||◌}
use mathlib.Core.List.{List, [], ◌∷◌, ◌++◌}
use native.Mathlib.Omega.{arith}
use vertex_sdk_go.Prelude.Tests.{◌==◌, leb, &&_iff}
use vertex_sdk_go.Prelude.Strings.{Bytes}
use vertex_sdk_go.Prelude.Formats.{is_digit, path_escape, is_unreserved}
use vertex_sdk_go.Prelude.Lists.{All, All-append}

abbrev pub Class : Type 0
Class = ℕ → Bool

-- A text with one byte of each class, and no others.
unfoldable pub fits : List Class → Bytes → Bool
fits [] [] = true
fits [] (b ∷ s) = false
fits (p ∷ ps) [] = false
fits (p ∷ ps) (b ∷ s) = p b && fits ps s

abbrev pub times : ℕ → Class → List Class
times zero p = []
times (suc n) p = p ∷ times n p

abbrev pub dash : Class
dash b = b == b'-'

abbrev pub lower_hex : Class
lower_hex b = is_digit b || leb b'a' b && leb b b'f'

abbrev pub any_hex : Class
any_hex b = lower_hex b || leb b'A' b && leb b b'F'

abbrev version : Class
version b = leb b'1' b && leb b b'8'

abbrev lower_variant : Class
lower_variant b = b == b'8' || b == b'9' || b == b'a' || b == b'b'

abbrev any_variant : Class
any_variant b = lower_variant b || b == b'A' || b == b'B'

-- The regular expression of a UUID, with its hexadecimal digits and its variant.
abbrev pub uuid_shape : Class → Class → List Class
uuid_shape hex variant =
    times 8 hex
    ++ dash ∷ times 4 hex
    ++ dash ∷ version ∷ times 3 hex
    ++ dash ∷ variant ∷ times 3 hex
    ++ dash ∷ times 12 hex

-- `organizationManagementUUID`
unfoldable pub is_uuid : Bytes → Bool
unfolding fits is_digit
is_uuid = fits (uuid_shape any_hex any_variant)

-- `canonicalAuthorizationUUID`
unfoldable pub is_canonical_uuid : Bytes → Bool
unfolding fits is_digit
is_canonical_uuid = fits (uuid_shape lower_hex lower_variant)

etag_tail : Bool → Bytes → Bool
unfolding is_digit
etag_tail some_digit [] = false
etag_tail some_digit (b ∷ []) = b == b'"' && some_digit
etag_tail some_digit (b ∷ s) = is_digit b && etag_tail true s

-- `strongETagPattern`
unfoldable pub is_strong_etag : Bytes → Bool
unfolding etag_tail
is_strong_etag [] = false
is_strong_etag (b ∷ s) = b == b'"' && etag_tail false s

path_escape-unreserved : (s : Bytes) → All (λ b. is_unreserved b ≡ true) s → path_escape s ≡ s
unfolding path_escape
path_escape-unreserved [] h = refl
path_escape-unreserved (b ∷ s) h = simp (h.0, path_escape-unreserved s h.1)

abbrev IsUnreserved : Class → Type 0
IsUnreserved p = (b : ℕ) → p b ≡ true → is_unreserved b ≡ true

fits-unreserved :
    (ps : List Class) (s : Bytes)
    → All IsUnreserved ps
    → fits ps s ≡ true
    → All (λ b. is_unreserved b ≡ true) s
unfolding fits
fits-unreserved [] [] a h = tt
fits-unreserved [] (b ∷ s) a h = absurd (cc)
fits-unreserved (p ∷ ps) [] a h = tt
fits-unreserved (p ∷ ps) (b ∷ s) a h =
    let (x, y) = (&&_iff (p b) (fits ps s)).0 h in (a.0 b x, fits-unreserved ps s a.1 y)

dash-IsUnreserved : IsUnreserved dash
unfolding is_unreserved is_digit
dash-IsUnreserved b h = ground arith

any_hex-IsUnreserved : IsUnreserved any_hex
unfolding is_unreserved is_digit
any_hex-IsUnreserved b h = ground arith

version-IsUnreserved : IsUnreserved version
unfolding is_unreserved is_digit
version-IsUnreserved b h = ground arith

any_variant-IsUnreserved : IsUnreserved any_variant
unfolding is_unreserved is_digit
any_variant-IsUnreserved b h = ground arith

hex-IsUnreserved : (n : ℕ) → All IsUnreserved (times n any_hex)
hex-IsUnreserved zero = tt
hex-IsUnreserved (suc n) = (any_hex-IsUnreserved, hex-IsUnreserved n)

behind_hex :
    (n : ℕ) (ps : List Class) → All IsUnreserved ps → All IsUnreserved (times n any_hex ++ ps)
behind_hex n ps h = All-append IsUnreserved (times n any_hex) ps (hex-IsUnreserved n) h

uuid_shape-IsUnreserved : All IsUnreserved (uuid_shape any_hex any_variant)
uuid_shape-IsUnreserved =
    let fifth = dash ∷ times 12 any_hex in
    let fourth = dash ∷ any_variant ∷ times 3 any_hex ++ fifth in
    let third = dash ∷ version ∷ times 3 any_hex ++ fourth in
    let second = dash ∷ times 4 any_hex ++ third in
    let d = dash-IsUnreserved in
    behind_hex 8 second (
      d,
      behind_hex 4 third (
        d,
        (
          version-IsUnreserved,
          behind_hex 3 fourth
              (d, (any_variant-IsUnreserved, behind_hex 3 fifth (d, hex-IsUnreserved 12))),
        ),
      ),
    )

-- A UUID is its own path segment.
pub path_escape-uuid : (s : Bytes) → is_uuid s ≡ true → path_escape s ≡ s
unfolding is_uuid
path_escape-uuid s h =
    path_escape-unreserved s
      (fits-unreserved (uuid_shape any_hex any_variant) s uuid_shape-IsUnreserved h)
