-- ===== src/Console/Erase.antt =====
-- A writer that erases the line keeps what a writer promises.
use pv_migrate.Common.{
  ◌++◌, ◌≤◌, none, Bytes, length, ◌≡◌, arith, ◌≢◌, Option-cases, inl, inr, ℤ, pos, negsuc, min, ltb,
  Bool-cases, ℕ, subst, sym, ap, true, false, some, ◌==◌, ◌∙◌,
}
use pv_migrate.Console.{Written, erase_line_write, erase_line, less_erase_line, short_write}

-- A count of at most `n` bytes, which is not negative.
abbrev pub IsWithin : ℤ → ℕ → Type 0
IsWithin (pos k) n = k ≤ n
IsWithin (negsuc k) n = ⊥

-- An answer to `n` bytes: no more than they are, and an error where it is less.
abbrev pub Answers : Written → ℕ → Type 0
Answers w n = IsWithin w.count n × (w.count ≢ pos n → w.error ≢ none)

-- The promise of `io.Writer`: it takes no more than it is given, and says why when it takes less.
abbrev pub KeepsPromise : (Bytes → Written) → Type 0
KeepsPromise write = (s : Bytes) → Answers (write s) (length s)

module _ (write : Bytes → Written) (s : Bytes) where
  abbrev taken : ℕ
  taken = min (less_erase_line (write (erase_line ++ s)).count) (length s)

  cut_short :
      (write (erase_line ++ s)).error ≡ none
      → ltb taken (length s) ≡ true
      → erase_line_write write s ≡ record { count = pos taken; error = some short_write }
  unfolding erase_line_write
  cut_short fine short = ground (arith, fine, short)

  all_taken :
      (write (erase_line ++ s)).error ≡ none
      → ltb taken (length s) ≡ false
      → erase_line_write write s ≡ record { count = pos taken; error = none }
  unfolding erase_line_write
  all_taken fine whole = ground (arith, fine, whole)

  passed_on :
      (e : Bytes)
      → (write (erase_line ++ s)).error ≡ some e
      → erase_line_write write s ≡ record { count = pos taken; error = some e }
  unfolding erase_line_write
  passed_on e failed = ground (arith, failed)

  not_short : ltb taken (length s) ≡ false → taken ≡ length s
  not_short whole = ground (arith, whole)

-- Over any writer, whether or not it keeps the promise itself, and whatever count it answers, the promise is
-- kept.
pub erase_line_write-KeepsPromise :
    (write : Bytes → Written) → KeepsPromise (erase_line_write write)
unfolding erase_line_write less_erase_line
erase_line_write-KeepsPromise write s =
    let taken = min (less_erase_line (write (erase_line ++ s)).count) (length s) in
    let in_range : taken ≤ length s = omega arith in
    elim (Option-cases (write (erase_line ++ s)).error) [
      | inl fine ↦ elim (Bool-cases (ltb taken (length s))) [
        | inl short ↦
            subst (λ w. Answers w (length s)) (sym (cut_short write s fine short))
              (in_range, λ h. ground arith)
        | inr whole ↦
            subst (λ w. Answers w (length s)) (sym (all_taken write s fine whole))
              (in_range, λ h. absurd (h (ap pos (not_short write s whole))))
      ]
      | inr (e, failed) ↦
          subst (λ w. Answers w (length s)) (sym (passed_on write s e failed))
            (in_range, λ h. ground arith)
    ]

full : (c : ℤ) (n : ℕ) → IsWithin c n → ((c ≢ pos n) → ⊥) → c ≡ pos n
full (pos k) n h f = elim (Bool-cases (k == n)) [
  | inl same ↦ ap pos (ground (arith, same))
  | inr other ↦ absurd (f (λ e. ground (arith, e, other)))
]
full (negsuc k) n h f = absurd h

-- A record is written whole exactly when the writer below has taken it whole, the erased line before it.
pub erase_line_write-whole :
    (write : Bytes → Written) (s : Bytes)
    → KeepsPromise write
    → (write (erase_line ++ s)).error ≡ none
    → (erase_line_write write s ≡ record { count = pos (length s); error = none })
unfolding erase_line_write less_erase_line
erase_line_write-whole write s promise fine =
    let (bounded, explained) = promise (erase_line ++ s) in
    let all_of_it =
      full (write (erase_line ++ s)).count (length (erase_line ++ s)) bounded
        (λ short. explained short fine) in
    all_taken write s fine (ground (arith, all_of_it))
    ∙ ap (λ n. record { count = pos n; error = none }) (ground (arith, all_of_it))
