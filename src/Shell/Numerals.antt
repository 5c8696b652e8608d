-- ===== src/Shell/Numerals.antt =====
-- Numbers as words of a command line.
use pv_migrate.Common.{
  ℕ, ◌++◌, List, [], ◌∷◌, Bytes, ◌≡◌, refl, ap, sym, subst, ◌∙◌, arith, All, IsNumeral, ℤ, itoa,
  itoa-longer, itoa-IsNumeral, Option, none, some, append_assoc, append-nil,
}
use pv_migrate.Shell.Lexer.{Token, word, Mode, gap, bare, next, run, prepend, and_then}
use pv_migrate.Shell.Words.{IsBareWord}

next-numeral : (w : Bytes) (c : ℕ) → IsNumeral c → next (bare w) c ≡ some (bare (w ++ c ∷ []), [])
unfolding next
next-numeral w c h = ground arith

next-first : (c : ℕ) → IsNumeral c → next gap c ≡ some (bare (c ∷ []), [])
unfolding next
next-first c h = ground arith

prepend-nil : (o : Option (Mode × List Token)) → prepend [] o ≡ o
prepend-nil none = refl
prepend-nil (some (m, ts)) = refl

run-numeral :
    (s w : Bytes) → All IsNumeral s → run (bare w) (s ++ b' ' ∷ []) ≡ some (gap, word (w ++ s) ∷ [])
unfolding run
run-numeral [] w h = ap (λ v. some (gap, word v ∷ [])) (sym (append-nil w))
run-numeral (c ∷ s) w (h, hs) =
    ap (λ o. and_then o (λ m. run m (s ++ b' ' ∷ []))) (next-numeral w c h)
    ∙ prepend-nil _
    ∙ run-numeral s (w ++ c ∷ []) hs
    ∙ ap (λ v. some (gap, word v ∷ [])) (append_assoc w (c ∷ []) s)

numeral-IsBareWord : (c : ℕ) (s : Bytes) → All IsNumeral (c ∷ s) → IsBareWord (c ∷ s)
unfolding run
numeral-IsBareWord c s (h, hs) =
    ap (λ o. and_then o (λ m. run m (s ++ b' ' ∷ []))) (next-first c h)
    ∙ prepend-nil _
    ∙ run-numeral s (c ∷ []) hs

-- A number is one word.
pub itoa-IsBareWord : (z : ℤ) → IsBareWord (itoa z)
itoa-IsBareWord z =
    let (c, s, e) = itoa-longer z in
    subst IsBareWord (sym e) (numeral-IsBareWord c s (subst (All IsNumeral) e (itoa-IsNumeral z)))
