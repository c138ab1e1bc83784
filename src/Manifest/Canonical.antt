-- ===== src/Manifest/Canonical.antt =====
-- permission_manifest.go: the canonical JSON text of declarations (RFC 8785), whose digest is the
-- manifest's fingerprint.
use vertex_sdk_go.Prelude.{
  ℕ, ◌+◌, ◌/◌, ◌%◌, List, [], ◌∷◌, ◌++◌, Option, none, some, ltb, leb, ◌==◌, if◌then◌else◌,
}
use vertex_sdk_go.Prelude.Strings.{Bytes, bytes}
use vertex_sdk_go.Prelude.Utf8.{Piece, pieces, encode_rune}
use vertex_sdk_go.Manifest.Text.{Declaration}

hex_digit : ℕ → ℕ
hex_digit d = if ltb d 10 then b'0' + d else 87 + d

-- `fmt.Sprintf("%04x", r)` for a number of four digits at most
hex4 : ℕ → Bytes
unfolding hex_digit
hex4 r =
    hex_digit (r / 4096 % 16)
    ∷ hex_digit (r / 256 % 16)
    ∷ hex_digit (r / 16 % 16)
    ∷ hex_digit (r % 16)
    ∷ []

-- the `switch` of `appendJCSString`
unfoldable pub escape : ℕ → Bytes
unfolding hex4
escape r =
    if r == b'"'
    then bytes "\\\""
    else if r == 92
    then bytes "\\\\"
    else if r == 8
    then bytes "\\b"
    else if r == 12
    then bytes "\\f"
    else if r == 10
    then bytes "\\n"
    else if r == 13
    then bytes "\\r"
    else if r == 9
    then bytes "\\t"
    else if leb r 0x1f
    then bytes "\\u" ++ hex4 r
    else encode_rune r

unfoldable pub escape_all : List Piece → Bytes
escape_all [] = []
escape_all (p ∷ ps) = escape p.rune ++ escape_all ps

-- `appendJCSString`, on an empty builder
unfoldable pub jcs_string : Bytes → Bytes
unfolding escape_all
jcs_string value = bytes "\"" ++ (escape_all (pieces value) ++ bytes "\"")

unfoldable pub jcs_optional : Option Bytes → Bytes
jcs_optional none = bytes "null"
jcs_optional (some text) = jcs_string text

unfoldable pub canonical_declaration : Declaration → Bytes
canonical_declaration d =
    bytes "{\"action\":"
    ++ (jcs_string d.action
        ++ (bytes ",\"description\":"
            ++ (jcs_optional d.description
                ++ (bytes ",\"name\":"
                    ++ (jcs_string d.name
                        ++ (bytes ",\"resource\":" ++ (jcs_string d.resource ++ bytes "}")))))))

-- the loop of `canonicalManifest`, from the second declaration on
unfoldable pub canonical_rest : List Declaration → Bytes
canonical_rest [] = []
canonical_rest (d ∷ ds) = bytes "," ++ (canonical_declaration d ++ canonical_rest ds)

unfoldable pub canonical_list : List Declaration → Bytes
canonical_list [] = []
canonical_list (d ∷ ds) = canonical_declaration d ++ canonical_rest ds

unfoldable pub canonical_manifest : List Declaration → Bytes
canonical_manifest ds = bytes "{\"permissions\":[" ++ (canonical_list ds ++ bytes "]}")
