-- ===== src/Shell/Utf8.antt =====
-- Go's `unicode/utf8`, as `ValidString` and the rune decoding of `IndexFunc` use it: a byte at a
-- time, with the accepted range of the next continuation byte.
use pv_migrate.Common.{
  ℕ, zero, suc, ◌+◌, ◌-◌, ◌*◌, List, [], ◌∷◌, ◌++◌, Option, none, some, Bytes, leb, ltb, ◌==◌,
  if◌then◌else◌, ◌&&◌,
}

pub data Decoder : Type 0 where
  start : Decoder
  -- bytes still to come after the next one, the range of the next one, the bits so far
  want : ℕ → ℕ → ℕ → ℕ → Decoder

-- The leading byte; 0xC0, 0xC1 and what lies above 0xF4 begin no rune.
unfoldable pub lead : ℕ → Option (Decoder × List ℕ)
lead b =
    if ltb b 0x80
    then some (start, b ∷ [])
    else if ltb b 0xc2
    then none
    else if leb b 0xdf
    then some (want 0 0x80 0xbf (b - 0xc0), [])
    else if b == 0xe0
    then some (want 1 0xa0 0xbf 0, [])
    else if b == 0xed
    then some (want 1 0x80 0x9f 13, [])
    else if leb b 0xef
    then some (want 1 0x80 0xbf (b - 0xe0), [])
    else if b == 0xf0
    then some (want 2 0x90 0xbf 0, [])
    else if leb b 0xf3
    then some (want 2 0x80 0xbf (b - 0xf0), [])
    else if b == 0xf4
    then some (want 2 0x80 0x8f 4, [])
    else none

unfoldable pub next_byte : Decoder → ℕ → Option (Decoder × List ℕ)
unfolding lead
next_byte start b = lead b
next_byte (want zero lo hi bits) b =
    if leb lo b && leb b hi then some (start, (bits * 64 + (b - 0x80)) ∷ []) else none
next_byte (want (suc n) lo hi bits) b =
    if leb lo b && leb b hi then some (want n 0x80 0xbf (bits * 64 + (b - 0x80)), []) else none

-- The runes that a byte completes, before those of the rest.
abbrev pub emit : Option (Decoder × List ℕ) → (Decoder → Option (List ℕ)) → Option (List ℕ)
emit none rest = none
emit (some (d, out)) rest = elim (rest d) [ none ↦ none | some rs ↦ some (out ++ rs) ]

unfoldable pub decode : Decoder → Bytes → Option (List ℕ)
unfolding next_byte
decode start [] = some []
decode (want n lo hi bits) [] = none
decode d (b ∷ s) = emit (next_byte d b) (λ d'. decode d' s)

-- The runes of a valid string, `none` for one that is not UTF-8.
unfoldable pub runes : Bytes → Option (List ℕ)
unfolding decode
runes s = decode start s
