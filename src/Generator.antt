-- ===== src/Generator.antt =====
-- cmd/iam-codegen/generator/generate.go: the names of the generated constants, and the checks that
-- `Render` makes before it fills its template. `to_upper` is `unicode.ToUpper`, `is_nfc` is
-- `norm.NFC.IsNormalString`.
pub mod Names
mod Tests
use vertex_sdk_go.Prelude.{
  ℕ, Bool, true, false, not, ◌&&◌, ◌||◌, List, [], ◌∷◌, ◌++◌, Result, ok, err, ◌>>=◌, leb, ◌==◌,
  any, if◌then◌else◌,
}
use vertex_sdk_go.Prelude.Sort.{sort}
use vertex_sdk_go.Prelude.Strings.{Bytes, bytes, str_eq, str_lt}
use vertex_sdk_go.Prelude.Utf8.{Piece, pieces, encode_rune, valid_string}
use vertex_sdk_go.Permission.{PermissionDefinition, key, is_concrete}

pub record Entry : Type 0 where
  pub const_name : Bytes
  pub resource : Bytes
  pub action : Bytes
  pub description : Bytes

pub data RenderError : Type 0 where
  empty_package : RenderError
  not_concrete not_nfc duplicate_key name_collision : Bytes → RenderError

is_separator : ℕ → Bool
is_separator r = r == b'-' || r == b'_' || r == b'.' || r == b' ' || r == b'/'

-- the order of `sort.Slice`
unfoldable pub definition_lt : PermissionDefinition → PermissionDefinition → Bool
definition_lt a b =
    if not (str_eq a.resource b.resource)
    then str_lt a.resource b.resource
    else str_lt a.action b.action

pub wire_key : PermissionDefinition → Bytes
wire_key d = d.resource ++ (bytes ":" ++ d.action)

-- `_, exists := m[s]` for the keys of a map
known : Bytes → List Bytes → Bool
known s = any (str_eq s)

starts_with_digit : Bytes → Bool
starts_with_digit [] = false
starts_with_digit (c ∷ s) = leb b'0' c && leb c b'9'

module _ (to_upper : ℕ → ℕ) where
  -- the loop of `pascal`
  pascal_from : Bool → List Piece → Bytes
  unfolding is_separator
  pascal_from upper [] = []
  pascal_from upper (p ∷ ps) =
      if is_separator p.rune
      then pascal_from true ps
      else if upper
      then encode_rune (to_upper p.rune) ++ pascal_from false ps
      else encode_rune p.rune ++ pascal_from false ps

  unfoldable pub pascal : Bytes → Bytes
  unfolding pascal_from
  pascal s = if str_eq s (bytes "*") then bytes "Wildcard" else pascal_from true (pieces s)

  -- `ConstName`
  unfoldable pub const_name : Bytes → Bytes → Bytes
  unfolding starts_with_digit
  const_name resource action =
      let name = pascal resource ++ pascal action in
      if str_eq name []
      then bytes "Permission"
      else if starts_with_digit name
      then bytes "P" ++ name
      else name

  pub entry_of : PermissionDefinition → Entry
  entry_of d = record {
    const_name = const_name d.resource d.action;
    resource = d.resource;
    action = d.action;
    description = d.description;
  }

  module _ (is_nfc : Bytes → Bool) where
    -- The loop of `Render`, from the keys and the names of the entries before.
    unfoldable pub entries_from :
        List Bytes → List Bytes → List PermissionDefinition → Result RenderError (List Entry)
    unfolding known wire_key entry_of
    entries_from keys names [] = ok []
    entries_from keys names (d ∷ ds) =
        let rest = entries_from (wire_key d ∷ keys) (const_name d.resource d.action ∷ names) ds in
        if not (is_concrete (key d))
        then err (not_concrete (wire_key d))
        else if not (valid_string d.description) || not (is_nfc d.description)
        then err (not_nfc (wire_key d))
        else if known (wire_key d) keys
        then err (duplicate_key (wire_key d))
        else if known (const_name d.resource d.action) names
        then err (name_collision (const_name d.resource d.action))
        else rest >>= λ es. ok (entry_of d ∷ es)

    -- `Render` up to the template: the entries that fill it
    unfoldable pub render_entries :
        Bytes → List PermissionDefinition → Result RenderError (List Entry)
    render_entries package_name permissions =
        if str_eq package_name []
        then err empty_package
        else entries_from [] [] (sort definition_lt permissions)
