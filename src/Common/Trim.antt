-- ===== src/Common/Trim.antt =====
-- Go's `strings.TrimSpace`: the white space of Unicode, as UTF-8.
use Prim.Native.Nat.{ℕ, zero, suc}
use mathlib.Core.List.{List, [], ◌∷◌, map}
use mathlib.Core.Option.{Option, none, some}
use pv_migrate.Common.Lists.{length}
use pv_migrate.Common.Text.{Bytes, cut_prefix}
use pv_migrate.Common.Paths.{rev_onto}

abbrev spaces : List Bytes
spaces =
    (9 ∷ [])
    ∷ (10 ∷ [])
    ∷ (11 ∷ [])
    ∷ (12 ∷ [])
    ∷ (13 ∷ [])
    ∷ (32 ∷ [])
    ∷ (0xc2 ∷ 0x85 ∷ [])
    ∷ (0xc2 ∷ 0xa0 ∷ [])
    ∷ (0xe1 ∷ 0x9a ∷ 0x80 ∷ [])
    ∷ (0xe2 ∷ 0x80 ∷ 0x80 ∷ [])
    ∷ (0xe2 ∷ 0x80 ∷ 0x81 ∷ [])
    ∷ (0xe2 ∷ 0x80 ∷ 0x82 ∷ [])
    ∷ (0xe2 ∷ 0x80 ∷ 0x83 ∷ [])
    ∷ (0xe2 ∷ 0x80 ∷ 0x84 ∷ [])
    ∷ (0xe2 ∷ 0x80 ∷ 0x85 ∷ [])
    ∷ (0xe2 ∷ 0x80 ∷ 0x86 ∷ [])
    ∷ (0xe2 ∷ 0x80 ∷ 0x87 ∷ [])
    ∷ (0xe2 ∷ 0x80 ∷ 0x88 ∷ [])
    ∷ (0xe2 ∷ 0x80 ∷ 0x89 ∷ [])
    ∷ (0xe2 ∷ 0x80 ∷ 0x8a ∷ [])
    ∷ (0xe2 ∷ 0x80 ∷ 0xa8 ∷ [])
    ∷ (0xe2 ∷ 0x80 ∷ 0xa9 ∷ [])
    ∷ (0xe2 ∷ 0x80 ∷ 0xaf ∷ [])
    ∷ (0xe2 ∷ 0x81 ∷ 0x9f ∷ [])
    ∷ (0xe3 ∷ 0x80 ∷ 0x80 ∷ [])
    ∷ []

-- The text behind the first of the patterns that begins it.
skip_one : List Bytes → Bytes → Option Bytes
unfolding cut_prefix
skip_one [] s = none
skip_one (p ∷ ps) s = elim (cut_prefix s p) [ some rest ↦ some rest | none ↦ skip_one ps s ]

-- Each round takes at least a byte away, so the length of the text is enough fuel.
skip_all : ℕ → List Bytes → Bytes → Bytes
unfolding skip_one
skip_all zero ps s = s
skip_all (suc f) ps s = elim (skip_one ps s) [ none ↦ s | some rest ↦ skip_all f ps rest ]

abbrev reversed : Bytes → Bytes
reversed s = rev_onto s []

unfoldable pub trim_space : Bytes → Bytes
unfolding skip_all rev_onto
trim_space s =
    let left = skip_all (length s) spaces s in
    reversed (skip_all (length left) (map reversed spaces) (reversed left))
