-- ===== src/K8s/Tail/Marks.antt =====
-- Reading the number of a line that was shown with its count.
use pv_migrate.Common.{
  ℕ, ◌+◌, ◌*◌, ◌-◌, [], ◌∷◌, ◌++◌, Bytes, codes, Option, some, none, cut_prefix, itoa_ℕ, value_from,
  value_from-itoa_ℕ, IsDigit, itoa_ℕ-IsDigit, All, Bool, ◌&&◌, not, leb, ltb, ◌==◌, if◌then◌else◌,
  ◌≡◌, refl, arith, Bool-cases, inl, inr, ap, ◌∙◌, is_empty, trim_space,
}
use pv_migrate.K8s.Tail.{with_count}

abbrev is_digit : ℕ → Bool
is_digit c = leb b'0' c && leb c b'9'

-- The number that digits spell behind `n`, up to a parenthesis that ends the text.
unfoldable pub read_number : ℕ → Bytes → Option ℕ
read_number n [] = none
read_number n (c ∷ []) = if c == b')' then some n else none
read_number n (c ∷ d ∷ s) =
    let rest = read_number (n * 10 + (c - b'0')) (d ∷ s) in if is_digit c then rest else none

-- The number of a text that is a count's mark: ` (x`, digits, and a parenthesis.
unfoldable pub read_mark : Bytes → Option ℕ
read_mark s = elim (cut_prefix s (codes " (x")) [ none ↦ none | some rest ↦ read_number 0 rest ]

-- A line as it is shown, and how often it stands for its text: once where it has no mark.
unfoldable pub read_shown : Bytes → Bytes × ℕ
read_shown [] = ([], 1)
read_shown (c ∷ s) =
    let rest = read_shown s in
    elim (read_mark (c ∷ s)) [ some n ↦ ([], n) | none ↦ (c ∷ rest.0, rest.1) ]

read_number-digits :
    (n : ℕ) (ds : Bytes) → All IsDigit ds → read_number n (ds ++ b')' ∷ []) ≡ some (value_from n ds)
unfolding read_number
read_number-digits n [] h = refl
read_number-digits n (c ∷ []) ((low, high), h) = ground (arith, low, high)
read_number-digits n (c ∷ d ∷ ds) ((low, high), h) =
    let rest = read_number-digits (n * 10 + (c - b'0')) (d ∷ ds) h in
    ground (arith, low, high, rest)

read_number-blank : (n : ℕ) (a b : Bytes) → read_number n (a ++ b' ' ∷ b) ≡ none
unfolding read_number
read_number-blank n [] [] = refl
read_number-blank n [] (d ∷ b) = refl
read_number-blank n (c ∷ []) b =
    let rest = read_number-blank (n * 10 + (c - b'0')) [] b in ground (arith, rest)
read_number-blank n (c ∷ d ∷ a) b =
    let rest = read_number-blank (n * 10 + (c - b'0')) (d ∷ a) b in ground (arith, rest)

abbrev mark : ℕ → Bytes
mark n = codes " (x" ++ (itoa_ℕ n ++ codes ")")

read_mark-mark : (n : ℕ) → read_mark (mark n) ≡ some n
unfolding read_mark cut_prefix
read_mark-mark n =
    read_number-digits 0 (itoa_ℕ n) (itoa_ℕ-IsDigit n) ∙ ap some (value_from-itoa_ℕ n)

-- A mark is read only where it is the rest of the text.
read_mark-earlier : (c : ℕ) (l : Bytes) (n : ℕ) → read_mark (c ∷ (l ++ mark n)) ≡ none
unfolding read_mark cut_prefix
read_mark-earlier c [] n = ground arith
read_mark-earlier c (d ∷ []) n = ground arith
read_mark-earlier c (d ∷ e ∷ l) n =
    ground (arith, read_number-blank 0 l (codes "(x" ++ (itoa_ℕ n ++ codes ")")))

read_shown-mark : (l : Bytes) (n : ℕ) → read_shown (l ++ mark n) ≡ (l, n)
unfolding read_shown
read_shown-mark [] n = ground (arith, read_mark-mark n)
read_shown-mark (c ∷ l) n = ground (arith, read_mark-earlier c l n, read_shown-mark l n)

-- A line of a log that is not read as one with a count.
abbrev pub IsUnmarked : Bytes → Type 0
IsUnmarked line = read_shown line ≡ (line, 1)

abbrev pub is_blank : Bytes → Bool
is_blank line = is_empty (trim_space line)

-- A blank line shows no count.
abbrev pub shown_number : Bytes → ℕ → ℕ
shown_number line n = if ltb 1 n && not (is_blank line) then n else 1

pub read_shown-with_count :
    (line : Bytes) (n : ℕ)
    → IsUnmarked line
    → read_shown (with_count line n) ≡ (line, shown_number line n)
unfolding with_count
read_shown-with_count line n h = elim (Bool-cases (ltb 1 n && not (is_blank line))) [
  | inl marked ↦ ground (arith, marked, read_shown-mark line n)
  | inr bare ↦ ground (arith, bare, h)
]
