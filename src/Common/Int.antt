-- ===== src/Common/Int.antt =====
-- Go's `int` as an integer, and `strconv.Itoa`.
use Prim.Native.Nat.{ℕ, zero, suc, ◌+◌, ◌-◌, ◌*◌, ◌/◌, ◌%◌, ◌≤◌, ◌<◌}
use mathlib.Core.Path.{◌≡◌, refl}
use mathlib.Core.Logic.{inl, inr}
use mathlib.Core.Bool.{Bool}
use mathlib.Core.List.{[], ◌∷◌}
use native.Mathlib.Omega.{arith}
use pv_migrate.Common.Tests.{ltb, ◌==◌, if◌then◌else◌, Bool-cases}
use pv_migrate.Common.Lists.{All}
use pv_migrate.Common.Text.{Bytes}

-- `negsuc n` is -(n + 1).
pub data ℤ : Type 0 where
  pos : ℕ → ℤ
  negsuc : ℕ → ℤ

abbrev pub pos_part : ℤ → ℕ
pos_part (pos n) = n
pos_part (negsuc n) = 0

abbrev pub neg_part : ℤ → ℕ
neg_part (pos n) = 0
neg_part (negsuc n) = suc n

abbrev pub ltb_ℤ : ℤ → ℤ → Bool
ltb_ℤ a b = ltb (pos_part a + neg_part b) (pos_part b + neg_part a)

abbrev pub eq_ℤ : ℤ → ℤ → Bool
eq_ℤ a b = pos_part a + neg_part b == pos_part b + neg_part a

-- The digits of a number before `out`, with fuel.
digits : ℕ → ℕ → Bytes → Bytes
digits zero n out = out
digits (suc f) n out =
    let rest = digits f (n / 10) ((b'0' + n % 10) ∷ out) in
    if n / 10 == 0 then (b'0' + n % 10) ∷ out else rest

unfoldable pub itoa_ℕ : ℕ → Bytes
unfolding digits
itoa_ℕ n = digits (suc n) n []

unfoldable pub itoa : ℤ → Bytes
unfolding itoa_ℕ
itoa (pos n) = itoa_ℕ n
itoa (negsuc n) = b'-' ∷ itoa_ℕ (suc n)

-- The number that digits spell behind `n`.
abbrev pub value_from : ℕ → Bytes → ℕ
value_from n [] = n
value_from n (c ∷ s) = value_from (n * 10 + (c - b'0')) s

value_from-digits :
    (f n : ℕ) (out : Bytes) → n < f → value_from 0 (digits f n out) ≡ value_from n out
unfolding digits
value_from-digits zero n out h = elim h [ ]
value_from-digits (suc f) n out h =
    ground (arith, value_from-digits f (n / 10) ((b'0' + n % 10) ∷ out))

-- The fuel is enough: the digits spell the number.
pub value_from-itoa_ℕ : (n : ℕ) → value_from 0 (itoa_ℕ n) ≡ n
unfolding itoa_ℕ
value_from-itoa_ℕ n = value_from-digits (suc n) n [] (omega arith)

-- A minus sign or a digit.
abbrev pub IsNumeral : ℕ → Type 0
IsNumeral b = (b'-' ≤ b) × (b ≤ b'9')

digits-IsNumeral : (f n : ℕ) (out : Bytes) → All IsNumeral out → All IsNumeral (digits f n out)
unfolding digits
digits-IsNumeral zero n out h = h
digits-IsNumeral (suc f) n out h = elim (Bool-cases (n / 10 == 0)) [
  | inl e ↦ rw e (omega arith, h)
  | inr e ↦ rw e (digits-IsNumeral f (n / 10) ((b'0' + n % 10) ∷ out) (omega arith, h))
]

abbrev pub IsDigit : ℕ → Type 0
IsDigit b = (b'0' ≤ b) × (b ≤ b'9')

digits-IsDigit : (f n : ℕ) (out : Bytes) → All IsDigit out → All IsDigit (digits f n out)
unfolding digits
digits-IsDigit zero n out h = h
digits-IsDigit (suc f) n out h = elim (Bool-cases (n / 10 == 0)) [
  | inl e ↦ rw e (omega arith, h)
  | inr e ↦ rw e (digits-IsDigit f (n / 10) ((b'0' + n % 10) ∷ out) (omega arith, h))
]

pub itoa_ℕ-IsDigit : (n : ℕ) → All IsDigit (itoa_ℕ n)
unfolding itoa_ℕ
itoa_ℕ-IsDigit n = digits-IsDigit (suc n) n [] tt

pub itoa-IsNumeral : (z : ℤ) → All IsNumeral (itoa z)
unfolding itoa
itoa-IsNumeral (pos n) = digits-IsNumeral (suc n) n [] tt
itoa-IsNumeral (negsuc n) = (omega arith, digits-IsNumeral (suc (suc n)) (suc n) [] tt)

digits-longer : (f n c : ℕ) (out : Bytes) → (d : ℕ) × (s : Bytes) × (digits f n (c ∷ out) ≡ d ∷ s)
unfolding digits
digits-longer zero n c out = (c, out, refl)
digits-longer (suc f) n c out = elim (Bool-cases (n / 10 == 0)) [
  | inl e ↦ rw e (b'0' + n % 10, c ∷ out, refl)
  | inr e ↦ rw e (digits-longer f (n / 10) (b'0' + n % 10) (c ∷ out))
]

-- A number is written as at least one byte.
pub itoa-longer : (z : ℤ) → (d : ℕ) × (s : Bytes) × (itoa z ≡ d ∷ s)
unfolding itoa itoa_ℕ digits
itoa-longer (pos n) = elim (Bool-cases (n / 10 == 0)) [
  | inl e ↦ rw e (b'0' + n % 10, [], refl)
  | inr e ↦ rw e (digits-longer n (n / 10) (b'0' + n % 10) [])
]
itoa-longer (negsuc n) = (b'-', itoa_ℕ (suc n), refl)
