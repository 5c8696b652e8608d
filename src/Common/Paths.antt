-- ===== src/Common/Paths.antt =====
-- Go's `path` package as the code uses it: `Clean`, `Dir` and `Join`, lexically, over the parts
-- between the slashes.
pub mod Bytewise
use Prim.Native.Nat.{ℕ}
use mathlib.Core.Path.{◌≡◌, refl, ap, ◌∙◌}
use mathlib.Core.Logic.{◌≢◌, inl, inr}
use mathlib.Core.Bool.{Bool, true, false, ◌||◌}
use mathlib.Core.List.{List, [], ◌∷◌, ◌++◌, append-nil}
use native.Mathlib.Omega.{arith}
use pv_migrate.Common.Tests.{◌==◌, if◌then◌else◌, Bool-cases}
use pv_migrate.Common.Lists.{All}
use pv_migrate.Common.Text.{Bytes, codes, str_eq, is_empty, join}

abbrev pub slash : ℕ
slash = b'/'

abbrev pub cons_head : ℕ → List Bytes → List Bytes
cons_head c [] = (c ∷ []) ∷ []
cons_head c (p ∷ ps) = (c ∷ p) ∷ ps

-- `strings.Split` at one byte: at least one part.
unfoldable pub split_byte : ℕ → Bytes → List Bytes
split_byte sep [] = [] ∷ []
split_byte sep (c ∷ s) = if c == sep then [] ∷ split_byte sep s else cons_head c (split_byte sep s)

-- `xs` reversed, before `acc`.
unfoldable pub rev_onto {ℓ} : {A : Type ℓ} → List A → List A → List A
rev_onto [] acc = acc
rev_onto (x ∷ xs) acc = rev_onto xs (x ∷ acc)

abbrev pub dot_dot : Bytes
dot_dot = codes ".."

-- `..` takes the last part away; above a relative path it stays, and above the root it is dropped.
pop_part : Bool → List Bytes → List Bytes
unfolding str_eq
pop_part true [] = []
pop_part false [] = dot_dot ∷ []
pop_part rooted (t ∷ st) = if str_eq t dot_dot then dot_dot ∷ t ∷ st else st

-- One part of the path, on the parts so far, the last one first.
push_part : Bool → List Bytes → Bytes → List Bytes
unfolding pop_part
push_part rooted st p =
    if is_empty p || str_eq p (codes ".")
    then st
    else if str_eq p dot_dot
    then pop_part rooted st
    else p ∷ st

push_parts : Bool → List Bytes → List Bytes → List Bytes
unfolding push_part
push_parts rooted st [] = st
push_parts rooted st (p ∷ ps) = push_parts rooted (push_part rooted st p) ps

abbrev pub rooted_path : List Bytes → Bytes
rooted_path ps = slash ∷ join (slash ∷ []) ps

abbrev or_dot : Bytes → Bytes
or_dot [] = codes "."
or_dot (c ∷ s) = c ∷ s

-- `path.Clean`
unfoldable pub clean : Bytes → Bytes
unfolding push_parts split_byte rev_onto join
clean [] = codes "."
clean (c ∷ s) =
    if c == slash
    then rooted_path (rev_onto (push_parts true [] (split_byte slash s)) [])
    else or_dot (join (slash ∷ []) (rev_onto (push_parts false [] (split_byte slash (c ∷ s))) []))

abbrev pub LacksSlash : Bytes → Type 0
LacksSlash = All (λ c. c ≢ slash)

-- A part that names an entry of a directory.
pub record IsName (p : Bytes) : Type 0 where
  pub not_empty : is_empty p ≡ false
  pub not_dot : str_eq p (codes ".") ≡ false
  pub not_dot_dot : str_eq p dot_dot ≡ false
  pub no_slash : LacksSlash p

split_byte-LacksSlash : (s : Bytes) → All LacksSlash (split_byte slash s)
unfolding split_byte
split_byte-LacksSlash [] = (tt, tt)
split_byte-LacksSlash (c ∷ s) = elim (Bool-cases (c == slash)) [
  | inl e ↦ rw e (tt, split_byte-LacksSlash s)
  | inr e ↦ rw e (head (split_byte slash s) (ground arith) (split_byte-LacksSlash s))
]
  where
    head : (ps : List Bytes) → c ≢ slash → All LacksSlash ps → All LacksSlash (cons_head c ps)
    head [] h hs = ((h, tt), tt)
    head (p ∷ ps) h (hp, hs) = ((h, hp), hs)

pop_part-IsName : (st : List Bytes) → All IsName st → All IsName (pop_part true st)
unfolding pop_part
pop_part-IsName [] h = tt
pop_part-IsName (t ∷ st) (h, hs) = rw h.not_dot_dot hs

push_part-IsName :
    (st : List Bytes) (p : Bytes) → All IsName st → LacksSlash p → All IsName (push_part true st p)
unfolding push_part
push_part-IsName st p h k = elim (Bool-cases (is_empty p || str_eq p (codes "."))) [
  | inl e ↦ rw e h
  | inr e ↦ rw e (elim (Bool-cases (str_eq p dot_dot)) [
    | inl d ↦ rw d (pop_part-IsName st h)
    | inr d ↦ rw d (
      record { not_empty = ground arith; not_dot = ground arith; not_dot_dot = d; no_slash = k },
      h,
    )
  ])
]

push_parts-IsName :
    (st ps : List Bytes) → All IsName st → All LacksSlash ps → All IsName (push_parts true st ps)
unfolding push_parts
push_parts-IsName st [] h k = h
push_parts-IsName st (p ∷ ps) h (k, ks) =
    push_parts-IsName (push_part true st p) ps (push_part-IsName st p h k) ks

rev_onto-All {ℓ κ} :
    {A : Type ℓ} (P : A → Type κ) (xs acc : List A) → All P xs → All P acc → All P (rev_onto xs acc)
unfolding rev_onto
rev_onto-All P [] acc h k = k
rev_onto-All P (x ∷ xs) acc (h, hs) k = rev_onto-All P xs (x ∷ acc) hs (h, k)

-- A path that begins at the root is cleaned to names only.
pub clean-rooted :
    (s : Bytes) → (ps : List Bytes) × (clean (slash ∷ s) ≡ rooted_path ps) × All IsName ps
unfolding clean
clean-rooted s = (
  rev_onto (push_parts true [] (split_byte slash s)) [],
  refl,
  rev_onto-All IsName _ [] (push_parts-IsName [] _ tt (split_byte-LacksSlash s)) tt,
)

-- Names are kept as they are.
push_part-name :
    (st : List Bytes) (p : Bytes) (rooted : Bool) → IsName p → push_part rooted st p ≡ p ∷ st
unfolding push_part
push_part-name st p rooted h = rw (h.not_empty, h.not_dot, h.not_dot_dot)

push_parts-names :
    (st ps : List Bytes) (rooted : Bool) → All IsName ps → push_parts rooted st ps ≡ rev_onto ps st
unfolding push_parts rev_onto
push_parts-names st [] rooted h = refl
push_parts-names st (p ∷ ps) rooted (h, hs) =
    ap (λ t. push_parts rooted t ps) (push_part-name st p rooted h)
    ∙ push_parts-names (p ∷ st) ps rooted hs

rev_onto-rev_onto {ℓ} :
    {A : Type ℓ} (xs ys zs : List A) → rev_onto (rev_onto xs ys) zs ≡ rev_onto ys (xs ++ zs)
unfolding rev_onto
rev_onto-rev_onto [] ys zs = refl
rev_onto-rev_onto (x ∷ xs) ys zs = rev_onto-rev_onto xs (x ∷ ys) zs

split_byte-name :
    (p s : Bytes) → LacksSlash p → split_byte slash (p ++ slash ∷ s) ≡ p ∷ split_byte slash s
unfolding split_byte
split_byte-name [] s h = refl
split_byte-name (c ∷ p) s (h, hs) = ground (arith, split_byte-name p s hs)

split_byte-alone : (p : Bytes) → LacksSlash p → split_byte slash p ≡ p ∷ []
unfolding split_byte
split_byte-alone [] h = refl
split_byte-alone (c ∷ p) (h, hs) = ground (arith, split_byte-alone p hs)

split_byte-join :
    (p : Bytes) (ps : List Bytes)
    → All LacksSlash (p ∷ ps)
    → split_byte slash (join (slash ∷ []) (p ∷ ps)) ≡ p ∷ ps
unfolding join
split_byte-join p [] (h, hs) = split_byte-alone p h
split_byte-join p (q ∷ ps) (h, hs) =
    split_byte-name p _ h ∙ ap (λ r. p ∷ r) (split_byte-join q ps hs)

names-LacksSlash : (ps : List Bytes) → All IsName ps → All LacksSlash ps
names-LacksSlash [] h = tt
names-LacksSlash (p ∷ ps) (h, hs) = (h.no_slash, names-LacksSlash ps hs)

-- A rooted path of names is clean.
pub clean-names :
    (p : Bytes) (ps : List Bytes)
    → All IsName (p ∷ ps)
    → clean (rooted_path (p ∷ ps)) ≡ rooted_path (p ∷ ps)
unfolding clean rev_onto
clean-names p ps h = ap rooted_path (
    ap (λ r. rev_onto (push_parts true [] r) [])
      (split_byte-join p ps (names-LacksSlash (p ∷ ps) h))
    ∙ ap (λ r. rev_onto r []) (push_parts-names [] (p ∷ ps) true h)
    ∙ rev_onto-rev_onto (p ∷ ps) [] []
    ∙ append-nil (p ∷ ps))
