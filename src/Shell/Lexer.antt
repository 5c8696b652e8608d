-- ===== src/Shell/Lexer.antt =====
-- How a POSIX shell cuts a command line into words: the description that the command builders are
-- held against. Expansions, redirections and the other operators are refused.
use pv_migrate.Common.{
  ℕ, Bool, ◌||◌, List, [], ◌∷◌, ◌++◌, Option, none, some, Bytes, ◌==◌, if◌then◌else◌,
}

pub data Token : Type 0 where
  word : Bytes → Token
  and_if pipe : Token

-- Between two words, behind one `&` or `|`, or inside a word.
pub data Mode : Type 0 where
  gap amp bar : Mode
  bare single double : Bytes → Mode

abbrev is_blank : ℕ → Bool
is_blank c = c == b' ' || c == 9

-- What means itself inside double quotes too.
abbrev is_dollar : ℕ → Bool
is_dollar c = c == b'$' || (c == b'`' || c == b'\\')

-- What the shell reads for itself where nothing is quoted.
abbrev is_special : ℕ → Bool
is_special c =
    is_dollar c
    || (c == 10
        || (c == b';'
            || (c == b'&'
                || (c == b'|'
                    || (c == b'<'
                        || (c == b'>'
                            || (c == b'('
                                || (c == b')'
                                    || (c == b'#'
                                        || (c == b'*'
                                            || (c == b'?' || (c == b'[' || c == b'~'))))))))))))

unfoldable pub next : Mode → ℕ → Option (Mode × List Token)
next gap c =
    if is_blank c
    then some (gap, [])
    else if c == 39
    then some (single [], [])
    else if c == 34
    then some (double [], [])
    else if c == b'&'
    then some (amp, [])
    else if c == b'|'
    then some (bar, [])
    else if is_special c
    then none
    else some (bare (c ∷ []), [])
next amp c = if c == b'&' then some (gap, and_if ∷ []) else none
next bar c = if is_blank c then some (gap, pipe ∷ []) else none
next (bare w) c =
    if is_blank c
    then some (gap, word w ∷ [])
    else if c == 39
    then some (single w, [])
    else if c == 34
    then some (double w, [])
    else if is_special c
    then none
    else some (bare (w ++ c ∷ []), [])
next (single w) c = if c == 39 then some (bare w, []) else some (single (w ++ c ∷ []), [])
next (double w) c =
    if c == 34
    then some (bare w, [])
    else if is_dollar c
    then none
    else some (double (w ++ c ∷ []), [])

abbrev pub prepend : List Token → Option (Mode × List Token) → Option (Mode × List Token)
prepend out none = none
prepend out (some (m, ts)) = some (m, out ++ ts)

-- The tokens so far, and the tokens of what follows.
abbrev pub and_then :
    Option (Mode × List Token) → (Mode → Option (Mode × List Token)) → Option (Mode × List Token)
and_then none f = none
and_then (some (m, ts)) f = prepend ts (f m)

unfoldable pub run : Mode → Bytes → Option (Mode × List Token)
unfolding next
run m [] = some (m, [])
run m (c ∷ s) = and_then (next m c) (λ m'. run m' s)

-- The end of the line closes a word, and nothing else.
unfoldable pub finish : Mode → Option (List Token)
finish gap = some []
finish (bare w) = some (word w ∷ [])
finish _ = none

abbrev pub close : Option (Mode × List Token) → Option (List Token)
close none = none
close (some (m, ts)) = elim (finish m) [ none ↦ none | some us ↦ some (ts ++ us) ]

unfoldable pub tokens : Bytes → Option (List Token)
unfolding run finish
tokens s = close (run gap s)
