-- ===== src/Json/Tests.antt =====
-- The test of the members' names at concrete inputs.
use vertex_sdk_go.Prelude.{◌≡◌, ◌↔◌, refl, true, [], ◌∷◌, err, ok}
use vertex_sdk_go.Prelude.Strings.{bytes, str_eq}
use vertex_sdk_go.Json.{
  Stream, open_object, open_array, close, other, text, duplicate_member, trailing_content, is_seen,
  reject_duplicates,
}
use vertex_sdk_go.Json.Duplicates.{Json, print, IsDistinct, reject_duplicates_iff}

-- `{"a": 1, "b": [{"a": 2}]}`
abbrev nested : Stream
nested = record {
  tokens =
      open_object
      ∷ text (bytes "a")
      ∷ other
      ∷ text (bytes "b")
      ∷ open_array
      ∷ open_object
      ∷ text (bytes "a")
      ∷ other
      ∷ close
      ∷ close
      ∷ close
      ∷ [];
  ended = true;
}

nested_passes : reject_duplicates nested ≡ ok tt
unfolding reject_duplicates str_eq is_seen
nested_passes = refl

-- `[{"a": 1, "a": 2}]`
twice_refused :
    reject_duplicates (record {
      tokens =
          open_array
          ∷ open_object
          ∷ text (bytes "a")
          ∷ other
          ∷ text (bytes "a")
          ∷ other
          ∷ close
          ∷ close
          ∷ [];
      ended = true;
    })
    ≡ err (duplicate_member (bytes "a"))
unfolding reject_duplicates str_eq is_seen
twice_refused = refl

-- `{} {}`
trailing_refused :
    reject_duplicates
      (record { tokens = open_object ∷ close ∷ open_object ∷ close ∷ []; ended = true })
    ≡ err trailing_content
unfolding reject_duplicates str_eq is_seen
trailing_refused = refl

reject_duplicates_iff_example :
    (reject_duplicates nested ≡ ok tt)
    ↔ ((v : Json) × IsDistinct v × (nested.tokens ≡ print v []) × (nested.ended ≡ true))
reject_duplicates_iff_example = reject_duplicates_iff nested
