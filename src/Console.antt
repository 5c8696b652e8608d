-- ===== src/Console.antt =====
-- Colours and the erased line of a terminal (internal/console/palette.go and erase.go).
pub mod Erase
mod Tests
use pv_migrate.Common.{
  ◌++◌, ℕ, ◌-◌, ℤ, pos, negsuc, min, Bool, true, false, ◌&&◌, ◌||◌, not, [], ◌∷◌, List, Option,
  none, some, Bytes, codes, is_empty, if◌then◌else◌, length, ltb,
}

pub record Palette : Type 0 where
  pub enabled : Bool

abbrev escape : Bytes
escape = 27 ∷ codes "["

abbrev reset : Bytes
reset = escape ++ codes "0m"

-- `wrap`
unfoldable pub wrap : Palette → Bytes → Bytes → Bytes
wrap p code s =
    if not p.enabled || is_empty s then s else escape ++ (code ++ (codes "m" ++ (s ++ reset)))

abbrev pub failure : Palette → Bytes → Bytes
failure p = wrap p (codes "1;31")

abbrev pub bad : Palette → Bytes → Bytes
bad p = wrap p (codes "31")

abbrev pub warn : Palette → Bytes → Bytes
warn p = wrap p (codes "33")

abbrev pub good : Palette → Bytes → Bytes
good p = wrap p (codes "32")

abbrev pub dim : Palette → Bytes → Bytes
dim p = wrap p (codes "2")

abbrev pub bold : Palette → Bytes → Bytes
bold p = wrap p (codes "1")

-- `ForTerminal`; `no_color` is the environment's.
unfoldable pub for_terminal : Bool → Bool → (no_color : Bytes) → Bool
for_terminal is_terminal structured_logs no_color =
    is_terminal && (not structured_logs && is_empty no_color)

abbrev pub erase_line : Bytes
erase_line = (13 ∷ 27 ∷ []) ++ codes "[2K"

-- What a writer answers: how many bytes it says it took, and its error.
pub record Written : Type 0 where
  pub count : ℤ
  pub error : Option Bytes

abbrev pub short_write : Bytes
short_write = codes "short write"

-- A count less the length of the erased line, at least zero. Subtraction on ℕ stops at zero as `max` does.
unfoldable pub less_erase_line : ℤ → ℕ
less_erase_line (pos n) = n - length erase_line
less_erase_line (negsuc n) = 0

-- `Write` of `eraseLineWriter`
unfoldable pub erase_line_write : (Bytes → Written) → Bytes → Written
unfolding less_erase_line
erase_line_write write record_bytes =
    let inner = write (erase_line ++ record_bytes) in
    let written = min (less_erase_line inner.count) (length record_bytes) in
    elim inner.error [
      | none ↦
          if ltb written (length record_bytes)
          then record { count = pos written; error = some short_write }
          else record { count = pos written; error = none }
      | some e ↦ record { count = pos written; error = some e }
    ]
