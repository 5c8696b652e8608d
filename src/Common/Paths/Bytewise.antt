-- ===== src/Common/Paths/Bytewise.antt =====
-- A path function adds no byte but slashes and dots.
use Prim.Native.Nat.{ℕ}
use mathlib.Core.Logic.{inl, inr}
use mathlib.Core.Bool.{Bool, true, false, ◌||◌}
use mathlib.Core.List.{List, [], ◌∷◌}
use pv_migrate.Common.Tests.{◌==◌, if◌then◌else◌, Bool-cases}
use pv_migrate.Common.Lists.{All, All-append}
use pv_migrate.Common.Text.{Bytes, codes, str_eq, is_empty, join}
use pv_migrate.Common.Paths.{
  slash, cons_head, split_byte, rev_onto, dot_dot, pop_part, push_part, push_parts, or_dot, clean,
}

pub if-All :
    (P : ℕ → Type 0) (b : Bool) (x y : Bytes) → All P x → All P y → All P (if b then x else y)
if-All P true x y h k = h
if-All P false x y h k = k

module _ (P : ℕ → Type 0) (on_slash : P slash) (on_dot : P b'.') where
  split_byte-All : (s : Bytes) → All P s → All (All P) (split_byte slash s)
  unfolding split_byte
  split_byte-All [] h = (tt, tt)
  split_byte-All (c ∷ s) (h, hs) = elim (Bool-cases (c == slash)) [
    | inl e ↦ rw e (tt, split_byte-All s hs)
    | inr e ↦ rw e (head (split_byte slash s) (split_byte-All s hs) h)
  ]
    where
      head : (ps : List Bytes) → All (All P) ps → P c → All (All P) (cons_head c ps)
      head [] k p = ((p, tt), tt)
      head (q ∷ qs) (k, ks) p = ((p, k), ks)

  pop_part-All :
      (rooted : Bool) (st : List Bytes) → All (All P) st → All (All P) (pop_part rooted st)
  unfolding pop_part
  pop_part-All true [] h = tt
  pop_part-All false [] h = ((on_dot, (on_dot, tt)), tt)
  pop_part-All true (t ∷ st) (h, hs) = elim (Bool-cases (str_eq t dot_dot)) [
    | inl e ↦ rw e ((on_dot, (on_dot, tt)), (h, hs))
    | inr e ↦ rw e hs
  ]
  pop_part-All false (t ∷ st) (h, hs) = elim (Bool-cases (str_eq t dot_dot)) [
    | inl e ↦ rw e ((on_dot, (on_dot, tt)), (h, hs))
    | inr e ↦ rw e hs
  ]

  push_part-All :
      (rooted : Bool) (st : List Bytes) (p : Bytes)
      → All (All P) st
      → All P p
      → All (All P) (push_part rooted st p)
  unfolding push_part
  push_part-All rooted st p h k = elim (Bool-cases (is_empty p || str_eq p (codes "."))) [
    | inl e ↦ rw e h
    | inr e ↦ rw e (elim (Bool-cases (str_eq p dot_dot)) [
      | inl d ↦ rw d (pop_part-All rooted st h)
      | inr d ↦ rw d (k, h)
    ])
  ]

  push_parts-All :
      (rooted : Bool) (st ps : List Bytes)
      → All (All P) st
      → All (All P) ps
      → All (All P) (push_parts rooted st ps)
  unfolding push_parts
  push_parts-All rooted st [] h k = h
  push_parts-All rooted st (p ∷ ps) h (k, ks) =
      push_parts-All rooted (push_part rooted st p) ps (push_part-All rooted st p h k) ks

  rev_onto-All :
      (xs acc : List Bytes) → All (All P) xs → All (All P) acc → All (All P) (rev_onto xs acc)
  unfolding rev_onto
  rev_onto-All [] acc h k = k
  rev_onto-All (x ∷ xs) acc (h, hs) k = rev_onto-All xs (x ∷ acc) hs (h, k)

  join-All : (ps : List Bytes) → All (All P) ps → All P (join (slash ∷ []) ps)
  unfolding join
  join-All [] h = tt
  join-All (p ∷ []) (h, hs) = h
  join-All (p ∷ q ∷ ps) (h, hs) = All-append P p _ h (on_slash, join-All (q ∷ ps) hs)

  or_dot-All : (s : Bytes) → All P s → All P (or_dot s)
  or_dot-All [] h = (on_dot, tt)
  or_dot-All (c ∷ s) h = h

  -- A cleaned path has the bytes of the path, slashes and dots.
  pub clean-All : (s : Bytes) → All P s → All P (clean s)
  unfolding clean
  clean-All [] h = (on_dot, tt)
  clean-All (c ∷ s) h =
      let inside =
        push_parts-All false [] (split_byte slash (c ∷ s)) tt (split_byte-All (c ∷ s) h) in
      let below = push_parts-All true [] (split_byte slash s) tt (split_byte-All s h.1) in
      if-All P (c == slash) _ _ (on_slash, join-All _ (rev_onto-All _ [] below tt))
        (or_dot-All _ (join-All _ (rev_onto-All _ [] inside tt)))
