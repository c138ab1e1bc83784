-- ===== src/Http/Permissions.antt =====
-- client.go: the permissions of roles and of an application, as the server resolves them.
use vertex_sdk_go.Prelude.{
  ℕ, ◌+◌, Bool, true, false, not, ◌&&◌, ◌||◌, List, [], ◌∷◌, ◌++◌, map, take, drop, Option, none,
  some, Result, ok, err, ◌>>=◌, ◌>>◌, reject, or_error,
}
use vertex_sdk_go.Prelude.Strings.{Bytes, bytes, str_eq, index_byte}
use vertex_sdk_go.Prelude.Utf8.{trim_space}
use vertex_sdk_go.Prelude.Formats.{path_escape}
use vertex_sdk_go.Prelude.Shapes.{Class, fits, times, dash, lower_hex}
use vertex_sdk_go.Json.{is_seen}
use vertex_sdk_go.Config.{SdkConfig}
use vertex_sdk_go.Permission.{is_segment}
use vertex_sdk_go.Manifest.Response.{split_colon}
use vertex_sdk_go.Http.{
  HttpError, invalid_answer, malformed_key, duplicate_key, duplicate_role, Log, Did, Backoff,
  Server, do_json_strict_retry,
}

-- The test `valid` of a key, on its parts
unfoldable pub valid_parts : List Bytes → Bool
valid_parts (p ∷ q ∷ []) =
    str_eq p (bytes "*") && str_eq q (bytes "*")
    || not (str_eq p (bytes "*")) && is_segment p && (str_eq q (bytes "*") || is_segment q)
valid_parts _ = false

unfoldable pub valid_key : Bytes → Bool
unfolding split_colon valid_parts
valid_key key = valid_parts (split_colon key)

-- The loop of `strictResolvedPermissionKeys`, from the keys seen so far
unfoldable pub keys_from : List Bytes → List Bytes → Result HttpError (List Bytes)
keys_from seen [] = ok []
keys_from seen (key ∷ keys) = do
  reject (not (valid_key key)) (malformed_key key)
  reject (is_seen key seen) (duplicate_key key)
  rest ← keys_from (key ∷ seen) keys
  ok (key ∷ rest)

-- `strictResolvedPermissionKeys`; `none` for a pointer that is nil
unfoldable pub strict_keys : Option (List Bytes) → Result HttpError (List Bytes)
strict_keys none = err (invalid_answer (bytes "permissions is required"))
strict_keys (some values) = keys_from [] values

-- `permissionSnapshotRoleWire`
pub record RoleWire : Type 0 where
  pub key : Option Bytes
  pub name : Option Bytes
  pub permissions : Option (List Bytes)

-- `permissionSnapshotWire`
pub record SnapshotWire : Type 0 where
  pub application_id : Option Bytes
  pub client_id : Option Bytes
  pub roles : Option (List RoleWire)

-- `PermissionDefinitionDTO` as it is made here
pub record Definition : Type 0 where
  pub resource : Bytes
  pub action : Bytes

snapshot_shape : List Class
snapshot_shape =
    times 8 lower_hex
    ++ dash ∷ times 4 lower_hex
    ++ dash ∷ times 4 lower_hex
    ++ dash ∷ times 4 lower_hex
    ++ dash ∷ times 12 lower_hex

-- `canonicalPermissionSnapshotUUID`
unfoldable pub is_snapshot_uuid : Bytes → Bool
unfolding fits snapshot_shape
is_snapshot_uuid = fits snapshot_shape

abbrev role_required : HttpError
role_required = invalid_answer (bytes "role key, name, and permissions are required")

-- The first test of a role: its key and its permissions
checked_role : RoleWire → Result HttpError (Bytes × Option (List Bytes))
checked_role r = do
  key ← or_error r.key role_required
  reject (not (is_segment key)) role_required
  name ← or_error r.name role_required
  reject (str_eq (trim_space name) []) role_required
  permissions ← or_error r.permissions role_required
  ok (key, some permissions)

-- The keys of a role that are new, and all that are known behind it
new_keys : List Bytes → List Bytes → List Bytes × List Bytes
new_keys [] known = ([], known)
new_keys (key ∷ keys) known = elim (is_seen key known) [
  | true ↦ new_keys keys known
  | false ↦ let (fresh, all) = new_keys keys (key ∷ known) in (key ∷ fresh, all)
]

-- The loop of `parsePermissionSnapshot`, from the keys of roles and permissions so far
unfoldable pub snapshot_keys :
    List Bytes → List Bytes → List RoleWire → Result HttpError (List Bytes)
unfolding checked_role new_keys
snapshot_keys roles known [] = ok []
snapshot_keys roles known (r ∷ rs) = do
  role ← checked_role r
  reject (is_seen role.0 roles) (duplicate_role role.0)
  keys ← strict_keys role.1
  rest ← snapshot_keys (role.0 ∷ roles) (new_keys keys known).1 rs
  ok ((new_keys keys known).0 ++ rest)

-- `strings.SplitN(key, ":", 2)`; a valid key has a colon.
cut_at : Bytes → Option ℕ → Definition
cut_at key none = record { resource = key; action = [] }
cut_at key (some i) = record { resource = take i key; action = drop (i + 1) key }

unfoldable pub definition_of : Bytes → Definition
unfolding index_byte cut_at
definition_of key = cut_at key (index_byte b':' key)

abbrev snapshot_required : HttpError
snapshot_required =
    invalid_answer (bytes "required applicationId, matching clientId, and roles are required")

-- `parsePermissionSnapshot`
unfoldable pub parse_snapshot : SnapshotWire → Bytes → Result HttpError (List Definition)
parse_snapshot s client_id = do
  application_id ← or_error s.application_id snapshot_required
  reject (not (is_snapshot_uuid application_id)) snapshot_required
  client ← or_error s.client_id snapshot_required
  reject (not (str_eq client client_id)) snapshot_required
  roles ← or_error s.roles snapshot_required
  keys ← snapshot_keys [] [] roles
  ok (map definition_of keys)

-- encoding/json on the request and the two answers
pub record Codec : Type 0 where
  pub marshal_resolve : Bytes → List Bytes → Result Bytes Bytes
  pub decode_resolved : Bytes → Result Bytes (Option (List Bytes))
  pub decode_snapshot : Bytes → Result Bytes SnapshotWire

module _ (b : Backoff) (v : Server) (c : SdkConfig) (k : Codec) where
  abbrev pub checked_keys : Did (Option (List Bytes)) → Did (List Bytes)
  checked_keys (r, l) = (r >>= strict_keys, l)

  -- `ResolvePermissions`
  unfoldable pub resolve_permissions : Bytes → List Bytes → Log → Did (List Bytes)
  resolve_permissions client_id [] l = (ok [], l)
  resolve_permissions client_id (role ∷ roles) l = checked_keys (
      do_json_strict_retry b v c (bytes "POST") (bytes "/open/v1/permissions:resolve")
        (some (k.marshal_resolve client_id (role ∷ roles))) k.decode_resolved l)

  abbrev pub parsed : Bytes → Did SnapshotWire → Did (List Definition)
  parsed client_id (r, l) = (r >>= λ s. parse_snapshot s client_id, l)

  -- `ListPermissions`
  unfoldable pub list_permissions : Bytes → Log → Did (List Definition)
  list_permissions client_id l = parsed client_id (
      do_json_strict_retry b v c (bytes "GET")
        (bytes "/open/v1/apps/" ++ (path_escape client_id ++ bytes "/permissions")) none
        k.decode_snapshot l)
