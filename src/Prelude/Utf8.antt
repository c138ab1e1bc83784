-- ===== src/Prelude/Utf8.antt =====
-- UTF-8 as Go's package unicode/utf8 and its `range` loop over a string read and write it, and the
-- classes of characters from the packages unicode and strings.
use mathlib.Core.List.{reverse}
use vertex_sdk_go.Prelude.Tests.{ltb, leb, ◌==◌, if◌then◌else◌}
use vertex_sdk_go.Prelude.Lists.{take, all}
use vertex_sdk_go.Prelude.Strings.{Bytes}
use Prim.Native.Nat.{ℕ, zero, suc, ◌+◌, ◌-◌, ◌*◌, ◌/◌, ◌%◌}
use mathlib.Core.Bool.{Bool, true, false, ◌&&◌, ◌||◌}
use mathlib.Core.List.{List, [], ◌∷◌, ◌++◌}

abbrev pub rune_error : ℕ
rune_error = 0xfffd

abbrev within : ℕ → ℕ → ℕ → Bool
within lo hi b = leb lo b && leb b hi

-- a continuation byte
abbrev continues : ℕ → Bool
continues = within 0x80 0xbf

-- The second byte that a first byte of a three-byte form admits.
abbrev second_of_three : ℕ → ℕ → Bool
second_of_three a b = within (if a == 0xe0 then 0xa0 else 0x80) (if a == 0xed then 0x9f else 0xbf) b

abbrev second_of_four : ℕ → ℕ → Bool
second_of_four a b = within (if a == 0xf0 then 0x90 else 0x80) (if a == 0xf4 then 0x8f else 0xbf) b

-- A character, and the number of bytes that it takes.
pub record Decoded : Type 0 where
  pub rune : ℕ
  pub size : ℕ

abbrev invalid : Decoded
invalid = record { rune = rune_error; size = 1 }

abbrev two_bytes : ℕ → Bytes → Decoded
two_bytes a [] = invalid
two_bytes a (b ∷ s) =
    if continues b then record { rune = (a - 0xc0) * 64 + (b - 0x80); size = 2 } else invalid

abbrev three_bytes : ℕ → Bytes → Decoded
three_bytes a [] = invalid
three_bytes a (b ∷ []) = invalid
three_bytes a (b ∷ c ∷ s) =
    if second_of_three a b && continues c
    then record { rune = (a - 0xe0) * 4096 + (b - 0x80) * 64 + (c - 0x80); size = 3 }
    else invalid

abbrev four_bytes : ℕ → Bytes → Decoded
four_bytes a [] = invalid
four_bytes a (b ∷ []) = invalid
four_bytes a (b ∷ c ∷ []) = invalid
four_bytes a (b ∷ c ∷ d ∷ s) =
    if second_of_four a b && continues c && continues d
    then record {
      rune = (a - 0xf0) * 262144 + (b - 0x80) * 4096 + (c - 0x80) * 64 + (d - 0x80);
      size = 4;
    }
    else invalid

-- `utf8.DecodeRuneInString`, for a text that begins with the byte `a`
unfoldable pub decode_rune : ℕ → Bytes → Decoded
decode_rune a s =
    if ltb a 0x80
    then record { rune = a; size = 1 }
    else if within 0xc2 0xdf a
    then two_bytes a s
    else if within 0xe0 0xef a
    then three_bytes a s
    else if within 0xf0 0xf4 a
    then four_bytes a s
    else invalid

-- A character of a text with the bytes that it was read from.
pub record Piece : Type 0 where
  pub rune : ℕ
  pub raw : Bytes

-- `for _, r := range s`; `skip` bytes still belong to the character before.
unfoldable pub pieces_from : ℕ → Bytes → List Piece
pieces_from skip [] = []
pieces_from (suc skip) (a ∷ s) = pieces_from skip s
pieces_from zero (a ∷ s) =
    let d = decode_rune a s in
    record { rune = d.rune; raw = take d.size (a ∷ s) } ∷ pieces_from (d.size - 1) s

unfoldable pub pieces : Bytes → List Piece
unfolding pieces_from decode_rune
pieces = pieces_from 0

-- `utf8.ValidString`: no byte is read as an error of its own.
valid_piece : Piece → Bool
valid_piece p = elim p.raw [ [] ↦ false | b ∷ s ↦ elim s [ [] ↦ ltb b 0x80 | _ ↦ true ] ]

unfoldable pub valid_string : Bytes → Bool
unfolding pieces valid_piece
valid_string s = all valid_piece (pieces s)

-- `utf8.AppendRune`, which `strings.Builder.WriteRune` calls
unfoldable pub encode_rune : ℕ → Bytes
encode_rune r =
    if ltb r 0x80
    then r ∷ []
    else if ltb r 0x800
    then (0xc0 + r / 64) ∷ (0x80 + r % 64) ∷ []
    else if leb 0xd800 r && leb r 0xdfff || ltb 0x10ffff r
    then 0xef ∷ 0xbf ∷ 0xbd ∷ []
    else if ltb r 0x10000
    then (0xe0 + r / 4096) ∷ (0x80 + r / 64 % 64) ∷ (0x80 + r % 64) ∷ []
    else (0xf0 + r / 262144) ∷ (0x80 + r / 4096 % 64) ∷ (0x80 + r / 64 % 64) ∷ (0x80 + r % 64) ∷ []

-- `unicode.IsSpace`
unfoldable pub is_space : ℕ → Bool
is_space r =
    leb 9 r && leb r 13
    || r == 0x20
    || r == 0x85
    || r == 0xa0
    || r == 0x1680
    || leb 0x2000 r && leb r 0x200a
    || r == 0x2028
    || r == 0x2029
    || r == 0x202f
    || r == 0x205f
    || r == 0x3000

-- `unicode.IsControl`
unfoldable pub is_control : ℕ → Bool
is_control r = leb r 0x1f || leb 0x7f r && leb r 0x9f

unfoldable pub joined : List Piece → Bytes
joined [] = []
joined (p ∷ ps) = p.raw ++ joined ps

unfoldable pub trim_left : List Piece → List Piece
trim_left [] = []
trim_left (p ∷ ps) = if is_space p.rune then trim_left ps else p ∷ ps

-- `strings.TrimSpace`
unfoldable pub trim_space : Bytes → Bytes
unfolding pieces joined trim_left is_space
trim_space s = joined (reverse (trim_left (reverse (trim_left (pieces s)))))
