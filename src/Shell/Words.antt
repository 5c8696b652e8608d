-- ===== src/Shell/Words.antt =====
-- A quoted value is one word of the shell.
use pv_migrate.Common.{
  arith, All, map, List, [], ◌∷◌, ◌++◌, Option, none, some, Bytes, ◌≡◌, refl, sym, ◌∙◌, ap,
  Bool-cases, ==_iff, join, inl, inr, append-nil, append_assoc, replace_byte, ◌==◌,
}
use mathlib.Core.Path.{fun_ext}
use mathlib.Core.List.{flatten}
use pv_migrate.Shell.Lexer.{
  finish, Token, word, Mode, gap, bare, single, next, run, prepend, and_then, tokens, close,
}
use pv_migrate.Shell.{quote, quote_mark, quoted_mark}

prepend-append :
    (ts us : List Token) (o : Option (Mode × List Token))
    → prepend (ts ++ us) o ≡ prepend ts (prepend us o)
prepend-append ts us none = refl
prepend-append ts us (some (m, vs)) = rw append_assoc

and_then_assoc :
    (o : Option (Mode × List Token)) (f g : Mode → Option (Mode × List Token))
    → and_then (and_then o f) g ≡ and_then o (λ m. and_then (f m) g)
and_then_assoc none f g = refl
and_then_assoc (some (m, ts)) f g =
    elim (f m) as (λ o. and_then (prepend ts o) g ≡ prepend ts (and_then o g)) [
      | none ↦ refl
      | some (m', us) ↦ prepend-append ts us (g m')
    ]

prepend-nil : (o : Option (Mode × List Token)) → prepend [] o ≡ o
prepend-nil none = refl
prepend-nil (some (m, ts)) = refl

-- Reading a text in two parts.
pub run-append : (s t : Bytes) (m : Mode) → run m (s ++ t) ≡ and_then (run m s) (λ m'. run m' t)
unfolding run
run-append [] t m = sym (prepend-nil (run m t))
run-append (c ∷ s) t m =
    ap (and_then (next m c)) (fun_ext (λ m'. run-append s t m'))
    ∙ sym (and_then_assoc (next m c) (λ m'. run m' s) (λ m'. run m' t))

run-replace_byte :
    (s w rest : Bytes)
    → run (single w) (replace_byte quote_mark quoted_mark s ++ (quote_mark ∷ rest))
      ≡ run (bare (w ++ s)) rest
unfolding run replace_byte
run-replace_byte [] w rest = simp (append-nil, prepend-nil)
run-replace_byte (c ∷ s) w rest = elim (Bool-cases (c == 39)) [
  | inl e ↦ rw ((==_iff c 39).0 e) (simp (prepend-nil, run-replace_byte s, append_assoc))
  | inr e ↦ rw e (rw e (simp (prepend-nil, run-replace_byte s, append_assoc)))
]

-- After a quoted value the shell is inside one word, which is the value, whatever it holds.
pub run-quote : (v rest : Bytes) → run gap (quote v ++ rest) ≡ run (bare v) rest
unfolding run quote
run-quote [] rest = simp prepend-nil
run-quote (c ∷ v) rest =
    prepend-nil _
    ∙ ap (run (single []))
        (append_assoc (replace_byte quote_mark quoted_mark (c ∷ v)) (quote_mark ∷ []) rest)
    ∙ run-replace_byte (c ∷ v) [] rest

run-quote_alone : (v : Bytes) → run gap (quote v) ≡ some (bare v, [])
unfolding run
run-quote_alone v = ap (run gap) (sym (append-nil (quote v))) ∙ run-quote v []

-- The quoted value alone is one token.
pub tokens-quote : (v : Bytes) → tokens (quote v) ≡ some (word v ∷ [])
unfolding tokens
tokens-quote v = ap close (run-quote_alone v)

-- The text is read, up to the blank behind it, as these tokens.
abbrev pub Splits : Bytes → List Token → Type 0
Splits t ts = run gap (t ++ b' ' ∷ []) ≡ some (gap, ts)

pub quote-Splits : (v : Bytes) → Splits (quote v) (word v ∷ [])
unfolding run
quote-Splits v = run-quote v (b' ' ∷ [])

abbrev pub AllSplit : List Bytes → List (List Token) → Type 0
AllSplit [] [] = Unit
AllSplit [] (ts ∷ tss) = ⊥
AllSplit (t ∷ texts) [] = ⊥
AllSplit (t ∷ texts) (ts ∷ tss) = Splits t ts × AllSplit texts tss

Splits-run :
    (t : Bytes) (ts : List Token) (rest : Bytes)
    → Splits t ts
    → run gap (t ++ b' ' ∷ rest) ≡ prepend ts (run gap rest)
Splits-run t ts rest h =
    ap (run gap) (sym (append_assoc t (b' ' ∷ []) rest))
    ∙ run-append (t ++ b' ' ∷ []) rest gap
    ∙ ap (λ o. and_then o (λ m. run m rest)) h

-- Texts joined by blanks are read one after the other.
pub run-join :
    (t : Bytes) (texts : List Bytes) (ts : List Token) (tss : List (List Token)) (rest : Bytes)
    → Splits t ts
    → AllSplit texts tss
    → run gap (join (b' ' ∷ []) (t ∷ texts) ++ b' ' ∷ rest)
      ≡ prepend (ts ++ flatten tss) (run gap rest)
unfolding join flatten
run-join t [] ts [] rest h hs = rw append-nil (Splits-run t ts rest h)
run-join t (t' ∷ texts) ts (ts' ∷ tss) rest h (h', hs) =
    ap (run gap) (append_assoc t _ (b' ' ∷ rest))
    ∙ Splits-run t ts _ h
    ∙ ap (prepend ts) (run-join t' texts ts' tss rest h' hs)
    ∙ sym (prepend-append ts (ts' ++ flatten tss) (run gap rest))
run-join t [] ts (ts' ∷ tss) rest h hs = absurd hs
run-join t (t' ∷ texts) ts [] rest h hs = absurd hs

-- A command whose last two words are quoted values.
pub tokens-command :
    (t : Bytes) (texts : List Bytes) (ts : List Token) (tss : List (List Token)) (v w : Bytes)
    → Splits t ts
    → AllSplit texts tss
    → tokens (join (b' ' ∷ []) (t ∷ texts) ++ b' ' ∷ (quote v ++ b' ' ∷ quote w))
      ≡ some ((ts ++ flatten tss) ++ word v ∷ word w ∷ [])
unfolding tokens
tokens-command t texts ts tss v w h hs =
    ap close (
      run-join t texts ts tss _ h hs
      ∙ ap (prepend (ts ++ flatten tss))
          (Splits-run (quote v) (word v ∷ []) (quote w) (quote-Splits v))
      ∙ ap (λ o. prepend (ts ++ flatten tss) (prepend (word v ∷ []) o)) (run-quote_alone w))
    ∙ ap some (append_assoc (ts ++ flatten tss) (word v ∷ []) (word w ∷ []))

-- A command whose last word is a quoted value.
pub tokens-last :
    (t : Bytes) (texts : List Bytes) (ts : List Token) (tss : List (List Token)) (v : Bytes)
    → Splits t ts
    → AllSplit texts tss
    → tokens (join (b' ' ∷ []) (t ∷ texts) ++ b' ' ∷ quote v)
      ≡ some ((ts ++ flatten tss) ++ word v ∷ [])
unfolding tokens
tokens-last t texts ts tss v h hs =
    ap close (
      run-join t texts ts tss (quote v) h hs ∙ ap (prepend (ts ++ flatten tss)) (run-quote_alone v))
    ∙ ap (λ us. some (us ++ word v ∷ [])) (append-nil (ts ++ flatten tss))

-- A text that the shell reads as itself.
abbrev pub IsBareWord : Bytes → Type 0
IsBareWord t = Splits t (word t ∷ [])

abbrev pub singles : List Bytes → List (List Token)
singles [] = []
singles (t ∷ texts) = (word t ∷ []) ∷ singles texts

pub All-AllSplit : (texts : List Bytes) → All IsBareWord texts → AllSplit texts (singles texts)
All-AllSplit [] h = tt
All-AllSplit (t ∷ texts) (h, hs) = (h, All-AllSplit texts hs)

pub AllSplit-append :
    (xs ys : List Bytes) (tss uss : List (List Token))
    → AllSplit xs tss
    → AllSplit ys uss
    → AllSplit (xs ++ ys) (tss ++ uss)
AllSplit-append [] ys [] uss h k = k
AllSplit-append [] ys (ts ∷ tss) uss h k = absurd h
AllSplit-append (x ∷ xs) ys [] uss h k = absurd h
AllSplit-append (x ∷ xs) ys (ts ∷ tss) uss (h, hs) k = (h, AllSplit-append xs ys tss uss hs k)

pub flatten-singles :
    (texts : List Bytes) (tss : List (List Token))
    → flatten (singles texts ++ tss) ≡ map word texts ++ flatten tss
unfolding flatten
flatten-singles [] tss = refl
flatten-singles (t ∷ texts) tss = ap (λ r. word t ∷ r) (flatten-singles texts tss)

pub flatten-singles_only : (texts : List Bytes) → flatten (singles texts) ≡ map word texts
unfolding flatten
flatten-singles_only [] = refl
flatten-singles_only (t ∷ texts) = ap (λ r. word t ∷ r) (flatten-singles_only texts)

pub nil-Splits : (ts : List Token) → Splits [] ts → ts ≡ []
unfolding run
nil-Splits ts h = ground arith

-- One token for each text.
abbrev pub ones : List Token → List (List Token)
ones [] = []
ones (t ∷ ts) = (t ∷ []) ∷ ones ts

pub flatten-ones : (ts : List Token) → flatten (ones ts) ≡ ts
unfolding flatten
flatten-ones [] = refl
flatten-ones (t ∷ ts) = ap (λ us. t ∷ us) (flatten-ones ts)

-- Texts that are one token each, with a quoted value behind them.
pub tokens-ones :
    (t : Bytes) (texts : List Bytes) (k : Token) (ks : List Token) (v : Bytes)
    → Splits t (k ∷ [])
    → AllSplit texts (ones ks)
    → tokens (join (b' ' ∷ []) (t ∷ texts) ++ b' ' ∷ quote v) ≡ some (k ∷ (ks ++ word v ∷ []))
tokens-ones t texts k ks v h hs =
    tokens-last t texts (k ∷ []) (ones ks) v h hs
    ∙ ap (λ us. some (k ∷ (us ++ word v ∷ []))) (flatten-ones ks)

some-append :
    (us vs : List Token) (o : Option (List Token)) {ts : List Token}
    → elim o [ none ↦ none | some ws ↦ some (vs ++ ws) ] ≡ some ts
    → elim o [ none ↦ none | some ws ↦ some ((us ++ vs) ++ ws) ] ≡ some (us ++ ts)
some-append us vs none h = absurd (cc)
some-append us vs (some ws) {ts} h =
    ap some (append_assoc us vs ws) ∙ ap (λ o. elim o [ none ↦ none | some x ↦ some (us ++ x) ]) h

close-prepend :
    (us : List Token) (o : Option (Mode × List Token)) {ts : List Token}
    → close o ≡ some ts
    → close (prepend us o) ≡ some (us ++ ts)
close-prepend us none h = absurd (cc)
close-prepend us (some (m, vs)) {ts} h = some-append us vs (finish m) h

-- Texts that are one token each, before a text that is read on its own.
pub tokens-ones_then :
    (t : Bytes) (texts : List Bytes) (k : Token) (ks ts : List Token) (rest : Bytes)
    → Splits t (k ∷ [])
    → AllSplit texts (ones ks)
    → tokens rest ≡ some ts
    → tokens (join (b' ' ∷ []) (t ∷ texts) ++ b' ' ∷ rest) ≡ some (k ∷ (ks ++ ts))
unfolding tokens
tokens-ones_then t texts k ks ts rest h hs e =
    ap close (run-join t texts (k ∷ []) (ones ks) rest h hs)
    ∙ close-prepend (k ∷ flatten (ones ks)) (run gap rest) e
    ∙ ap (λ us. some (k ∷ (us ++ ts))) (flatten-ones ks)

-- A text that is cut into words before a blank, and what follows the blank.
pub tokens-Splits_then :
    (t : Bytes) (ts us : List Token) (rest : Bytes)
    → Splits t ts
    → tokens rest ≡ some us
    → tokens (t ++ b' ' ∷ rest) ≡ some (ts ++ us)
unfolding tokens
tokens-Splits_then t ts us rest h e =
    ap close (Splits-run t ts rest h) ∙ close-prepend ts (run gap rest) e
