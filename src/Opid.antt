-- ===== src/Opid.antt =====
-- internal/opid/opid.go: the identifier of one operation.
pub mod Shape
mod Tests
use pv_migrate.Common.{
  ℕ, ◌||◌, ◌&&◌, not, Bool, true, false, List, [], ◌∷◌, Bytes, if◌then◌else◌, is_empty, Result, ok,
  err, ltb, leb, length, ◌==◌,
}

pub data IdError : Type 0 where
  no_id : IdError
  too_long : Bytes → IdError
  bad_shape : Bytes → IdError

-- `MaxLength`
abbrev pub max_length : ℕ
max_length = 24

-- `[a-z0-9]`
abbrev pub is_alphanumeric : ℕ → Bool
is_alphanumeric c = (leb b'a' c && leb c b'z') || (leb b'0' c && leb c b'9')

-- The expression `valid`, `^[a-z0-9]+(-[a-z0-9]+)*$`, as the automaton that it is: whether the rest
-- matches, at the start of a segment or inside one.
unfoldable pub matches_valid : Bool → Bytes → Bool
matches_valid inside [] = inside
matches_valid inside (c ∷ s) =
    let more = matches_valid true s in
    let next_segment = matches_valid false s in
    if is_alphanumeric c then more else if c == b'-' && inside then next_segment else false

-- `Validate`
unfoldable pub validate : Bytes → Result IdError (Unit {0})
unfolding matches_valid
validate id =
    if length id == 0
    then err no_id
    else if ltb max_length (length id)
    then err (too_long id)
    else if not (matches_valid false id)
    then err (bad_shape id)
    else ok tt
