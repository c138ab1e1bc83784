-- ===== src/Prelude/Formats.antt =====
-- Texts as Go's standard library writes and splits them: decimal numbers, the escapes of net/url, and
-- `strings.Fields`, `strings.ToUpper` and `strings.ToLower`.
use Prim.Native.Nat.{ℕ, zero, suc, ◌+◌, ◌-◌, ◌/◌, ◌%◌}
use mathlib.Core.Bool.{Bool, true, false, ◌&&◌, ◌||◌}
use mathlib.Core.List.{List, [], ◌∷◌, ◌++◌}
use vertex_sdk_go.Prelude.Tests.{◌==◌, ltb, leb, if◌then◌else◌}
use vertex_sdk_go.Prelude.Strings.{Bytes}
use vertex_sdk_go.Prelude.Utf8.{Piece, pieces, is_space}

-- The digits of a number before others. A Go `int` has at most 19.
decimal_from : ℕ → ℕ → Bytes → Bytes
decimal_from zero n s = s
decimal_from (suc fuel) n s =
    let rest = decimal_from fuel (n / 10) ((b'0' + n % 10) ∷ s) in
    if ltb n 10 then (b'0' + n) ∷ s else rest

-- `strconv.Itoa` of an `int` that is not negative
unfoldable pub decimal : ℕ → Bytes
unfolding decimal_from
decimal n = decimal_from 20 n []

unfoldable pub is_digit : ℕ → Bool
is_digit c = leb b'0' c && leb c b'9'

unfoldable pub is_unreserved : ℕ → Bool
unfolding is_digit
is_unreserved c =
    is_digit c
    || leb b'A' c && leb c b'Z'
    || leb b'a' c && leb c b'z'
    || c == b'-'
    || c == b'_'
    || c == b'.'
    || c == b'~'

is_path_mark : ℕ → Bool
is_path_mark c = c == b'$' || c == b'&' || c == b'+' || c == b':' || c == b'=' || c == b'@'

hex_digit : ℕ → ℕ
hex_digit n = if ltb n 10 then b'0' + n else b'A' + (n - 10)

percent : ℕ → Bytes
unfolding hex_digit
percent c = b'%' ∷ hex_digit (c / 16) ∷ hex_digit (c % 16) ∷ []

-- `url.QueryEscape`
unfoldable pub query_escape : Bytes → Bytes
unfolding is_unreserved percent is_digit
query_escape [] = []
query_escape (c ∷ s) =
    (if is_unreserved c then c ∷ [] else if c == 0x20 then b'+' ∷ [] else percent c)
    ++ query_escape s

-- `url.PathEscape`
unfoldable pub path_escape : Bytes → Bytes
unfolding is_unreserved is_path_mark percent is_digit
path_escape [] = []
path_escape (c ∷ s) =
    (if is_unreserved c || is_path_mark c then c ∷ [] else percent c) ++ path_escape s

close_field : Bytes → List Bytes → List Bytes
close_field [] fields = fields
close_field (c ∷ s) fields = (c ∷ s) ∷ fields

fields_from : Bytes → List Piece → List Bytes
unfolding close_field is_space
fields_from field [] = close_field field []
fields_from field (p ∷ ps) = elim (is_space p.rune) [
  | true ↦ close_field field (fields_from [] ps)
  | false ↦ fields_from (field ++ p.raw) ps
]

-- `strings.Fields`
unfoldable pub fields : Bytes → List Bytes
unfolding fields_from pieces
fields s = fields_from [] (pieces s)

upper_piece : Piece → Bytes
upper_piece p =
    if leb b'a' p.rune && leb p.rune b'z'
    then (p.rune - 32) ∷ []
    else if p.rune == 0x17f
    then b'S' ∷ []
    else if p.rune == 0x131
    then b'I' ∷ []
    else p.raw

lower_piece : Piece → Bytes
lower_piece p =
    if leb b'A' p.rune && leb p.rune b'Z'
    then (p.rune + 32) ∷ []
    else if p.rune == 0x130
    then b'i' ∷ []
    else if p.rune == 0x212a
    then b'k' ∷ []
    else p.raw

concat_upper : List Piece → Bytes
unfolding upper_piece
concat_upper [] = []
concat_upper (p ∷ ps) = upper_piece p ++ concat_upper ps

concat_lower : List Piece → Bytes
unfolding lower_piece
concat_lower [] = []
concat_lower (p ∷ ps) = lower_piece p ++ concat_lower ps

-- `strings.ToUpper`, up to the letters whose capital is not ASCII: they stay, which no comparison with
-- an ASCII text notices.
unfoldable pub to_upper : Bytes → Bytes
unfolding concat_upper pieces
to_upper s = concat_upper (pieces s)

-- `strings.ToLower`, in the same way
unfoldable pub to_lower : Bytes → Bytes
unfolding concat_lower pieces
to_lower s = concat_lower (pieces s)
