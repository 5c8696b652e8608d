-- ===== src/Common/Text.antt =====
-- Go strings: sequences of bytes, with the functions of Go's `strings` package that the code calls.
use Prim.Native.Char.{code}
use Prim.Native.String.{String}
use Prim.Native.Nat.{ℕ, ◌+◌}
use mathlib.Core.Path.{◌≡◌, refl}
use mathlib.Core.Logic.{◌↔◌}
use mathlib.Core.Bool.{Bool, true, false, ◌&&◌, ◌||◌}
use mathlib.Core.Option.{Option, none, some}
use mathlib.Core.List.{List, [], ◌∷◌, ◌++◌}
use native.Mathlib.Omega.{arith}
use pv_migrate.Common.Tests.{leb, ◌==◌, if◌then◌else◌}

abbrev pub Bytes : Type 0
Bytes = List ℕ

-- The bytes of an ASCII literal.
abbrev pub codes : String → Bytes
codes String.[] = []
codes (String.◌∷◌ c s) = code c ∷ codes s

abbrev pub is_empty : Bytes → Bool
is_empty [] = true
is_empty (c ∷ s) = false

-- `s == t` on strings.
unfoldable pub str_eq : Bytes → Bytes → Bool
str_eq [] [] = true
str_eq [] (b ∷ t) = false
str_eq (a ∷ s) [] = false
str_eq (a ∷ s) (b ∷ t) = a == b && str_eq s t

pub str_eq_refl : (s : Bytes) → str_eq s s ≡ true
unfolding str_eq
str_eq_refl [] = refl
str_eq_refl (a ∷ s) = ground (arith, str_eq_refl s)

pub str_eq_sound : (s t : Bytes) → str_eq s t ≡ true → s ≡ t
unfolding str_eq
str_eq_sound [] [] h = refl
str_eq_sound [] (b ∷ t) h = cc
str_eq_sound (a ∷ s) [] h = cc
str_eq_sound (a ∷ s) (b ∷ t) h = ground (arith, str_eq_sound s t)

pub str_eq_iff : (s t : Bytes) → (str_eq s t ≡ true) ↔ (s ≡ t)
str_eq_iff s t = (str_eq_sound s t, λ e. (rw e (str_eq_refl t)))

-- `strings.CutPrefix`, with `none` for a prefix that is not there.
unfoldable pub cut_prefix : Bytes → Bytes → Option Bytes
cut_prefix s [] = some s
cut_prefix [] (p ∷ ps) = none
cut_prefix (c ∷ s) (p ∷ ps) = let rest = cut_prefix s ps in if c == p then rest else none

-- `strings.HasPrefix`.
unfoldable pub has_prefix : Bytes → Bytes → Bool
unfolding cut_prefix
has_prefix s p = elim (cut_prefix s p) [ none ↦ false | some _ ↦ true ]

-- `strings.HasSuffix`.
unfoldable pub has_suffix : Bytes → Bytes → Bool
unfolding str_eq
has_suffix [] p = str_eq [] p
has_suffix (c ∷ s) p = str_eq (c ∷ s) p || has_suffix s p

-- `strings.Contains`.
unfoldable pub contains : Bytes → Bytes → Bool
unfolding has_prefix
contains [] p = has_prefix [] p
contains (c ∷ s) p = has_prefix (c ∷ s) p || contains s p

-- `strings.Cut` at a separator: the text before and after its first place.
unfoldable pub cut : Bytes → Bytes → Option (Bytes × Bytes)
unfolding cut_prefix
cut [] sep = elim (cut_prefix [] sep) [ none ↦ none | some rest ↦ some ([], rest) ]
cut (c ∷ s) sep = elim (cut_prefix (c ∷ s) sep) [
  | some rest ↦ some ([], rest)
  | none ↦ elim (cut s sep) [ none ↦ none | some (before, after) ↦ some (c ∷ before, after) ]
]

abbrev lower_ascii : ℕ → ℕ
lower_ascii c = if leb b'A' c && leb c b'Z' then c + 32 else c

-- `strings.ToLower` on the letters whose lower case is ASCII: `A` to `Z`, U+0130 and U+212A. The other letters
-- stay as they are, which no comparison with an ASCII text tells apart.
unfoldable pub to_lower : Bytes → Bytes
to_lower [] = []
to_lower (a ∷ []) = lower_ascii a ∷ []
to_lower (a ∷ b ∷ []) = elim (a == 0xc4 && b == 0xb0) [
  | true ↦ b'i' ∷ []
  | false ↦ lower_ascii a ∷ lower_ascii b ∷ []
]
to_lower (a ∷ b ∷ c ∷ s) = elim (a == 0xc4 && b == 0xb0) [
  | true ↦ b'i' ∷ to_lower (c ∷ s)
  | false ↦ elim (a == 0xe2 && (b == 0x84 && c == 0xaa)) [
    | true ↦ b'k' ∷ to_lower s
    | false ↦ lower_ascii a ∷ to_lower (b ∷ c ∷ s)
  ]
]

-- `strings.Join`.
unfoldable pub join : Bytes → List Bytes → Bytes
join sep [] = []
join sep (p ∷ []) = p
join sep (p ∷ q ∷ ps) = p ++ (sep ++ join sep (q ∷ ps))

-- `strings.ReplaceAll` for a pattern of one byte.
unfoldable pub replace_byte : ℕ → Bytes → Bytes → Bytes
replace_byte p new [] = []
replace_byte p new (c ∷ s) = (if c == p then new else c ∷ []) ++ replace_byte p new s

-- A prefix is there exactly when the text is the prefix and what `cut_prefix` returns.
pub cut_prefix_sound : (s p rest : Bytes) → cut_prefix s p ≡ some rest → s ≡ p ++ rest
unfolding cut_prefix
cut_prefix_sound s [] rest h = ground arith
cut_prefix_sound [] (p ∷ ps) rest h = cc
cut_prefix_sound (c ∷ s) (p ∷ ps) rest h = ground (arith, cut_prefix_sound s ps rest)

pub cut_prefix-append : (p rest : Bytes) → cut_prefix (p ++ rest) p ≡ some rest
unfolding cut_prefix
cut_prefix-append [] rest = refl
cut_prefix-append (c ∷ p) rest = ground (arith, cut_prefix-append p rest)

pub has_prefix-append : (p rest : Bytes) → has_prefix (p ++ rest) p ≡ true
unfolding has_prefix
has_prefix-append p rest = ground (arith, cut_prefix-append p rest)

pub str_eq-longer : (s : Bytes) (c : ℕ) (t : Bytes) → str_eq (s ++ c ∷ t) s ≡ false
unfolding str_eq
str_eq-longer [] c t = refl
str_eq-longer (d ∷ s) c t = ground (arith, str_eq-longer s c t)

pub is_empty_iff : (s : Bytes) → (is_empty s ≡ true) ↔ (s ≡ [])
is_empty_iff [] = ground arith
is_empty_iff (c ∷ s) = ground arith
