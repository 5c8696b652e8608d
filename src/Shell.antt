-- ===== src/Shell.antt =====
-- internal/shell/quote.go: one shell word for any value, and the check that a value survives the
-- YAML block scalar that the command is interpolated into.
pub mod Utf8
pub mod Lexer
pub mod Words
pub mod Numerals
pub mod Plain
mod Tests
use pv_migrate.Common.{
  ℕ, ◌++◌, ◌||◌, ◌&&◌, Bool, true, false, List, [], ◌∷◌, Option, none, some, Bytes, codes, ltb, leb,
  ◌==◌, if◌then◌else◌, replace_byte, Result, ok, err, ◌>>=◌, ◌>>◌,
}
use pv_migrate.Shell.Utf8.{runes}

abbrev pub quote_mark : ℕ
quote_mark = b'\''

-- `'"'"'`: close the quotes, write a quote inside double quotes, open the quotes again.
abbrev pub quoted_mark : Bytes
quoted_mark = 39 ∷ 34 ∷ 39 ∷ 34 ∷ 39 ∷ []

-- `Quote`
unfoldable pub quote : Bytes → Bytes
unfolding replace_byte
quote [] = quote_mark ∷ quote_mark ∷ []
quote (c ∷ s) = quote_mark ∷ (replace_byte quote_mark quoted_mark (c ∷ s) ++ quote_mark ∷ [])

-- `notPlainYAML`
unfoldable pub not_plain_yaml : ℕ → Bool
not_plain_yaml c =
    if c == 9
    then false
    else if ltb c 0x20
    then true
    else if leb 0x7f c && leb c 0x9f
    then true
    else if c == 0x2028 || c == 0x2029
    then true
    else if c == 0xfffe || c == 0xffff
    then true
    else false

-- `strings.IndexFunc(value, notPlainYAML)` and the rune that stands there.
unfoldable pub first_unplain : List ℕ → Option ℕ
unfolding not_plain_yaml
first_unplain [] = none
first_unplain (r ∷ rs) = let rest = first_unplain rs in if not_plain_yaml r then some r else rest

pub data LineError : Type 0 where
  invalid_utf8 : Bytes → LineError
  bad_character : Bytes → ℕ → LineError

check_runes : Bytes → List ℕ → Result LineError (Unit {0})
unfolding first_unplain
check_runes name rs = elim (first_unplain rs) [ none ↦ ok tt | some r ↦ err (bad_character name r) ]

-- `CheckSingleLine`
unfoldable pub check_single_line : Bytes → Bytes → Result LineError (Unit {0})
unfolding check_runes runes
check_single_line name value = elim (runes value) [
  | none ↦ err (invalid_utf8 name)
  | some rs ↦ check_runes name rs
]

-- The loop over named fields that the command builders run before they build.
unfoldable pub check_fields : List (Bytes × Bytes) → Result LineError (Unit {0})
check_fields [] = ok tt
check_fields ((name, value) ∷ fields) = do check_single_line name value; check_fields fields
