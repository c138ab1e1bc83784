-- ===== src/Permission.antt =====
-- authz/permission.go: permission keys, their wire form "resource:action", and the matching of a
-- required key against the granted strings. The proofs are in the modules below.
pub mod Parsing
pub mod Matching
mod Tests
use vertex_sdk_go.Prelude.{
  ℕ, ◌+◌, ◌-◌, Bool, true, false, not, ◌&&◌, ◌||◌, List, [], ◌∷◌, ◌++◌, none, some, Result, ok, err,
  length, take, drop, ltb, leb, ◌==◌, if◌then◌else◌,
}
use vertex_sdk_go.Prelude.Strings.{Bytes, bytes, str_eq, count_byte, index_byte, class_match}

-- `concretePermissionSegment`: the class `[a-z0-9_-]`, and the whole expression
unfoldable pub segment_char : ℕ → Bool
segment_char c = leb b'a' c && leb c b'z' || leb b'0' c && leb c b'9' || c == b'_' || c == b'-'

unfoldable pub is_segment : Bytes → Bool
is_segment = class_match segment_char 1 128

pub record PermissionKey : Type 0 where
  pub resource : Bytes
  pub action : Bytes

-- `Authority`, and `String` that calls it
unfoldable pub authority : PermissionKey → Bytes
authority k = k.resource ++ (bytes ":" ++ k.action)

pub is_zero : PermissionKey → Bool
is_zero k = str_eq k.resource [] && str_eq k.action []

unfoldable pub is_concrete : PermissionKey → Bool
is_concrete k = is_segment k.resource && is_segment k.action

pub record InvalidPermissionError : Type 0 where
  pub raw : Bytes

pub parse_permission : Bytes → Result InvalidPermissionError PermissionKey
parse_permission s =
    if not (count_byte b':' s == 1) then err (record { raw = s }) else elim (index_byte b':' s) [
      | none ↦ err (record { raw = s })
      | some idx ↦
          if leb idx 0 || idx == length s - 1
          then err (record { raw = s })
          else ok (record { resource = take idx s; action = drop (idx + 1) s })
    ]

pub record PermissionDefinition : Type 0 where
  pub resource : Bytes
  pub action : Bytes
  pub description : Bytes

unfoldable pub key : PermissionDefinition → PermissionKey
key d = record { resource = d.resource; action = d.action }

-- `gk == target`, field by field
key_eq : PermissionKey → PermissionKey → Bool
key_eq a b = str_eq a.resource b.resource && str_eq a.action b.action

-- `Matches` once the granted string is parsed
matches_key : PermissionKey → PermissionKey → Bool
matches_key target gk =
    if str_eq gk.resource (bytes "*")
    then str_eq gk.action (bytes "*")
    else if not (is_segment gk.resource)
    then false
    else if str_eq gk.action (bytes "*")
    then str_eq gk.resource target.resource
    else is_segment gk.action && key_eq gk target

pub matches : PermissionKey → Bytes → Bool
unfolding matches_key
matches target granted =
    if not (is_concrete target)
    then false
    else elim (parse_permission granted) [ err e ↦ false | ok gk ↦ matches_key target gk ]

pub has_permission : PermissionKey → List Bytes → Bool
has_permission target [] = false
has_permission target (g ∷ gs) = if matches target g then true else has_permission target gs

-- the loop of `HasAllPermissions`
all_granted : List PermissionKey → List Bytes → Bool
all_granted [] granted = true
all_granted (t ∷ ts) granted =
    if not (has_permission t granted) then false else all_granted ts granted

pub has_all_permissions : List PermissionKey → List Bytes → Bool
unfolding all_granted
has_all_permissions targets granted = all_granted targets granted && ltb 0 (length targets)

pub has_any_permission : List PermissionKey → List Bytes → Bool
has_any_permission [] granted = false
has_any_permission (t ∷ ts) granted =
    if has_permission t granted then true else has_any_permission ts granted
