-- ===== src/Strategy/LineTail/Stream.antt =====
-- The lines of a whole stream, cut a byte at a time, and the loop of `Write` against them.
use pv_migrate.Common.{
  ℕ, zero, suc, ◌<◌, ◌++◌, false, List, [], ◌∷◌, none, some, Bytes, length, if◌then◌else◌, ◌≡◌,
  refl, ap, ◌∙◌, arith, All, inl, inr, Option-cases, append-nil, append_assoc, Bool-cases,
}
use pv_migrate.Strategy.LineTail.{is_break, break_line, keep_line, write_loop}

-- The terminated lines of a stream, and the unterminated text behind the last of them.
unfoldable pub cut_lines : Bytes → Bytes → List Bytes × Bytes
cut_lines cur [] = ([], cur)
cut_lines cur (c ∷ s) =
    let closed = cut_lines [] s in
    let open_line = cut_lines (cur ++ c ∷ []) s in
    if is_break c then (cur ∷ closed.0, closed.1) else open_line

-- A stream in two parts.
pub cut_lines-append :
    (s t cur : Bytes)
    → cut_lines cur (s ++ t) ≡ (
      (cut_lines cur s).0 ++ (cut_lines (cut_lines cur s).1 t).0,
      (cut_lines (cut_lines cur s).1 t).1,
    )
unfolding cut_lines
cut_lines-append [] t cur = refl
cut_lines-append (c ∷ s) t cur =
    ground (arith, cut_lines-append s t [], cut_lines-append s t (cur ++ c ∷ []))

abbrev Unbroken : Bytes → Type 0
Unbroken = All (λ c. is_break c ≡ false)

Unbroken-snoc : (s : Bytes) (c : ℕ) → Unbroken s → is_break c ≡ false → Unbroken (s ++ c ∷ [])
Unbroken-snoc [] c h k = (k, tt)
Unbroken-snoc (d ∷ s) c (h, hs) k = (h, Unbroken-snoc s c hs k)

-- What is left over holds no line break, so it is all one open line.
cut_lines-Unbroken : (s cur : Bytes) → Unbroken cur → Unbroken (cut_lines cur s).1
unfolding cut_lines
cut_lines-Unbroken [] cur h = h
cut_lines-Unbroken (c ∷ s) cur h = elim (Bool-cases (is_break c)) [
  | inl e ↦ rw e (cut_lines-Unbroken s [] tt)
  | inr e ↦ rw e (cut_lines-Unbroken s (cur ++ c ∷ []) (Unbroken-snoc cur c h e))
]

Unbroken-cut_lines : (s cur : Bytes) → Unbroken s → cut_lines cur s ≡ ([], cur ++ s)
unfolding cut_lines
Unbroken-cut_lines [] cur h = rw append-nil
Unbroken-cut_lines (c ∷ s) cur (h, hs) =
    ground (arith, Unbroken-cut_lines s (cur ++ c ∷ []) hs, append_assoc cur (c ∷ []) s)

-- The text left over, read again with what follows it, is the open line.
pub cut_lines-resume :
    (s t : Bytes) → cut_lines [] ((cut_lines [] s).1 ++ t) ≡ cut_lines (cut_lines [] s).1 t
cut_lines-resume s t =
    let r = (cut_lines [] s).1 in
    cut_lines-append r t []
    ∙ ap (λ q. (q.0 ++ (cut_lines q.1 t).0, (cut_lines q.1 t).1))
        (Unbroken-cut_lines r [] (cut_lines-Unbroken s [] tt))

abbrev pub keep_all : ℕ → List Bytes → List Bytes → List Bytes
keep_all limit lines [] = lines
keep_all limit lines (raw ∷ raws) = keep_all limit (keep_line limit lines raw) raws

break_line-none : (s cur : Bytes) → break_line s ≡ none → cut_lines cur s ≡ ([], cur ++ s)
unfolding break_line cut_lines
break_line-none [] cur h = rw append-nil
break_line-none (c ∷ s) cur h =
    ground (arith, break_line-none s (cur ++ c ∷ []), append_assoc cur (c ∷ []) s)

break_line-some :
    (s cur raw rest : Bytes)
    → break_line s ≡ some (raw, rest)
    → (cut_lines cur s ≡ ((cur ++ raw) ∷ (cut_lines [] rest).0, (cut_lines [] rest).1))
      × (length rest < length s)
unfolding break_line cut_lines
break_line-some [] cur raw rest h = cc
break_line-some (c ∷ s) cur raw rest h = elim (Bool-cases (is_break c)) [
  | inl b ↦ ground (arith, append-nil cur)
  | inr b ↦ elim (Option-cases (break_line s)) [
    | inl e ↦ absurd (ground arith)
    | inr ((line, r), e) ↦
        ground (arith, break_line-some s (cur ++ c ∷ []) line r e, append_assoc cur (c ∷ []) line)
  ]
]

-- With fuel for the whole text the loop of `Write` keeps each terminated line, and leaves the rest.
pub write_loop_lem :
    (fuel limit : ℕ) (partial : Bytes) (lines : List Bytes)
    → length partial < fuel
    → write_loop fuel limit partial lines
      ≡ ((cut_lines [] partial).1, keep_all limit lines (cut_lines [] partial).0)
unfolding write_loop
write_loop_lem zero limit partial lines h = elim h [ ]
write_loop_lem (suc fuel) limit partial lines h = elim (Option-cases (break_line partial)) [
  | inl e ↦ ground (arith, break_line-none partial [] e)
  | inr ((raw, rest), e) ↦
      let (cuts, shorter) = break_line-some partial [] raw rest e in
      ground (arith, cuts, write_loop_lem fuel limit rest (keep_line limit lines raw) (omega arith))
]
