-- ===== src/Json.antt =====
-- permission_manifest.go: `rejectDuplicateJSONMembers` and `decodeStrictJSON`. The decoder is
-- encoding/json's; a text is here the list of tokens that `Decoder.Token` returns for it, and whether
-- it ends after them or has an error there.
pub mod Duplicates
mod Tests
use vertex_sdk_go.Prelude.{
  ℕ, zero, suc, ◌+◌, ◌*◌, Bool, true, false, ◌&&◌, List, [], ◌∷◌, Result, ok, err, ◌>>=◌, ◌>>◌,
  length, any, if◌then◌else◌,
}
use vertex_sdk_go.Prelude.Strings.{Bytes, bytes, str_eq}

-- `close` is '}' or ']': the decoder returns one only where it fits. `other` is a number, a truth value
-- or null.
pub data Token : Type 0 where
  open_object open_array close other : Token
  text : Bytes → Token

pub record Stream : Type 0 where
  pub tokens : List Token
  pub ended : Bool

pub data JsonError : Type 0 where
  unexpected_end unexpected_delimiter trailing_content : JsonError
  duplicate_member : Bytes → JsonError
  undecodable : Bytes → JsonError
  -- not in the source: the model's fuel, which suffices
  out_of_fuel : JsonError

-- `seen[key]`
unfoldable pub is_seen : Bytes → List Bytes → Bool
is_seen key = any (str_eq key)

-- The function `walk`, its loop over an object's members from the keys seen so far, and its loop over an
-- array's elements. The result is what is left of the tokens.
unfoldable mutual
  walk : ℕ → List Token → Result JsonError (List Token)
  walk zero ts = err out_of_fuel
  walk (suc n) [] = err unexpected_end
  walk (suc n) (open_object ∷ ts) = members n [] ts
  walk (suc n) (open_array ∷ ts) = elements n ts
  walk (suc n) (close ∷ ts) = err unexpected_delimiter
  walk (suc n) (other ∷ ts) = ok ts
  walk (suc n) (text s ∷ ts) = ok ts

  members : ℕ → List Bytes → List Token → Result JsonError (List Token)
  members zero seen ts = err out_of_fuel
  members (suc n) seen [] = err unexpected_end
  members (suc n) seen (close ∷ ts) = ok ts
  members (suc n) seen (text key ∷ ts) =
      let rest = (walk n ts >>= λ us. members n (key ∷ seen) us) in
      if is_seen key seen then err (duplicate_member key) else rest
  members (suc n) seen (open_object ∷ ts) = err (duplicate_member [])
  members (suc n) seen (open_array ∷ ts) = err (duplicate_member [])
  members (suc n) seen (other ∷ ts) = err (duplicate_member [])

  elements : ℕ → List Token → Result JsonError (List Token)
  elements zero ts = err out_of_fuel
  elements (suc n) [] = err unexpected_end
  elements (suc n) (close ∷ ts) = ok ts
  elements (suc n) (open_object ∷ ts) = walk n (open_object ∷ ts) >>= λ us. elements n us
  elements (suc n) (open_array ∷ ts) = walk n (open_array ∷ ts) >>= λ us. elements n us
  elements (suc n) (other ∷ ts) = walk n (other ∷ ts) >>= λ us. elements n us
  elements (suc n) (text s ∷ ts) = walk n (text s ∷ ts) >>= λ us. elements n us

-- `decoder.Decode(&struct{}{}) != io.EOF`
at_end : Bool → List Token → Result JsonError (Unit {0})
at_end ended [] = if ended then ok tt else err trailing_content
at_end ended (t ∷ ts) = err trailing_content

-- `rejectDuplicateJSONMembers`. No call takes more than two rounds of fuel for a token.
unfoldable pub reject_duplicates : Stream → Result JsonError (Unit {0})
unfolding walk at_end
reject_duplicates s = walk (2 * length s.tokens + 1) s.tokens >>= at_end s.ended

-- The end of `decodeStrictJSON`: `decode` is `Decoder.Decode` into the target, with unknown members
-- refused and nothing behind the value.
unfoldable decode_checked : {A : Type 0} → Result Bytes A → Result JsonError A
decode_checked (ok a) = ok a
decode_checked (err e) = err (undecodable e)

-- `decodeStrictJSON`
unfoldable pub decode_strict :
    {A : Type 0} → (Bytes → Stream) → (Bytes → Result Bytes A) → Bytes → Result JsonError A
unfolding reject_duplicates decode_checked
decode_strict stream decode body = do reject_duplicates (stream body); decode_checked (decode body)
