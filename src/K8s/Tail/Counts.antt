-- ===== src/K8s/Tail/Counts.antt =====
-- The counts of a rendered tail, read back.
use pv_migrate.K8s.Tail.Marks.{
  IsUnmarked, is_blank, shown_number, read_shown, read_shown-with_count,
}
use pv_migrate.Common.{
  ℕ, zero, suc, ◌+◌, ◌*◌, min, List, [], ◌∷◌, ◌++◌, map, Bytes, str_eq, str_eq_sound, ltb,
  if◌then◌else◌, ◌≡◌, refl, arith, Bool-cases, inl, inr, ap, sym, ◌∙◌, All,
}
use pv_migrate.K8s.Tail.{count, first_occurrences, with_count, counted_lines}

-- A line is shown once if it is there and was not met before.
count-first_occurrences :
    (line : Bytes) (seen lines : List Bytes)
    → count line (first_occurrences seen lines)
      ≡ (if ltb 0 (count line seen) then 0 else min 1 (count line lines))
unfolding first_occurrences count
count-first_occurrences line seen [] = ground arith
count-first_occurrences line seen (l ∷ lines) =
    let rest = count-first_occurrences line (l ∷ seen) lines in
    let skipped = count-first_occurrences line seen lines in
    elim (Bool-cases (str_eq line l)) [
      | inl same ↦ ground (arith, rest, skipped, ap (λ x. count x seen) (str_eq_sound line l same))
      | inr other ↦ ground (arith, rest, skipped)
    ]

first_count :
    (line : Bytes) (lines : List Bytes)
    → count line (first_occurrences [] lines) ≡ min 1 (count line lines)
unfolding count
first_count line lines = count-first_occurrences line [] lines

abbrev pub repeated : Bytes → ℕ → List Bytes
repeated line zero = []
repeated line (suc n) = line ∷ repeated line n

-- The lines that counted lines stand for.
abbrev pub expanded : List (Bytes × ℕ) → List Bytes
expanded [] = []
expanded ((line, n) ∷ ps) = repeated line n ++ expanded ps

count-append :
    (line : Bytes) (xs ys : List Bytes) → count line (xs ++ ys) ≡ count line xs + count line ys
unfolding count
count-append line [] ys = omega arith
count-append line (x ∷ xs) ys = omega (arith, count-append line xs ys)

count-repeated :
    (line l : Bytes) (n : ℕ) → count line (repeated l n) ≡ (if str_eq line l then n else 0)
unfolding count
count-repeated line l zero = ground arith
count-repeated line l (suc n) = ground (arith, count-repeated line l n)

count-expanded :
    (f : Bytes → ℕ) (line : Bytes) (lines : List Bytes)
    → count line (expanded (map (λ l. (l, f l)) lines)) ≡ count line lines * f line
unfolding count
count-expanded f line [] = omega arith
count-expanded f line (l ∷ lines) =
    let split = count-append line (repeated l (f l)) (expanded (map (λ m. (m, f m)) lines)) in
    let first = count-repeated line l (f l) in
    let rest = count-expanded f line lines in
    elim (Bool-cases (str_eq line l)) [
      | inl same ↦
          let here : f l ≡ f line = ap f (sym (str_eq_sound line l same)) in
          split ∙ (rw (first, same, rest, here) (omega arith))
      | inr other ↦ split ∙ (rw (first, other, rest) (omega arith))
    ]

first_occurrences-All :
    (P : Bytes → Type 0) (seen lines : List Bytes)
    → All P lines
    → All P (first_occurrences seen lines)
unfolding first_occurrences
first_occurrences-All P seen [] h = tt
first_occurrences-All P seen (l ∷ lines) (hl, h) = elim (Bool-cases (ltb 0 (count l seen))) [
  | inl met ↦ rw met (first_occurrences-All P seen lines h)
  | inr new ↦ rw new (hl, first_occurrences-All P (l ∷ seen) lines h)
]

-- Lines shown with a number each, read back.
read_shown-map :
    (g : Bytes → ℕ) (ls : List Bytes)
    → All IsUnmarked ls
    → map read_shown (map (λ l. with_count l (g l)) ls) ≡ map (λ l. (l, shown_number l (g l))) ls
read_shown-map g [] h = refl
read_shown-map g (l ∷ ls) (hl, h) =
    ap (λ p. p ∷ map read_shown (map (λ m. with_count m (g m)) ls))
      (read_shown-with_count l (g l) hl)
    ∙ ap (λ ps. (l, shown_number l (g l)) ∷ ps) (read_shown-map g ls h)

once_each :
    (line : Bytes) (n : ℕ) → min 1 n * shown_number line n ≡ (if is_blank line then min 1 n else n)
once_each line zero = ground arith
once_each line (suc n) =
    let least : min 1 (suc n) ≡ 1 = omega arith in
    elim (Bool-cases (is_blank line)) [
      | inl blank ↦ rw (least, blank) (ground (arith, blank))
      | inr filled ↦ rw (least, filled) (ground (arith, filled))
    ]

-- The rendered tail loses no line that is not blank: where no line of the log reads as one with a count itself,
-- the lines shown are read back, each as often as its count says, and give every line that is not blank as often as
-- the log has it, and a blank line once if the log has it.
pub counted_lines-read_shown :
    (line : Bytes) (lines : List Bytes)
    → All IsUnmarked lines
    → count line (expanded (map read_shown (counted_lines lines)))
      ≡ (if is_blank line then min 1 (count line lines) else count line lines)
unfolding counted_lines
counted_lines-read_shown line lines h =
    let firsts = first_occurrences [] lines in
    ap (λ ps. count line (expanded ps))
      (read_shown-map (λ l. count l lines) firsts (first_occurrences-All IsUnmarked [] lines h))
    ∙ count-expanded (λ l. shown_number l (count l lines)) line firsts
    ∙ ap (λ n. n * shown_number line (count line lines)) (first_count line lines)
    ∙ once_each line (count line lines)
