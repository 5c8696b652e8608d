-- ===== src/Shell/Tests.antt =====
-- Runs of internal/shell/quote.go.
use pv_migrate.Common.{[], ◌∷◌, ◌≡◌, refl, Bytes, codes, ok, err, some}
use pv_migrate.Shell.{quote, check_single_line, bad_character, invalid_utf8}
use pv_migrate.Shell.Lexer.{tokens, word}
use pv_migrate.Shell.Words.{tokens-quote}

abbrev tricky : Bytes
tricky = codes "it's $HOME; `x`"

quoted : quote (codes "a'b") ≡ codes "'a'\"'\"'b'"
unfolding quote
quoted = refl

tokens-quote_example : tokens (quote tricky) ≡ some (word tricky ∷ [])
tokens-quote_example = tokens-quote tricky

tricky-passes : check_single_line (codes "--path") tricky ≡ ok tt
unfolding check_single_line
tricky-passes = refl

line_break_refused :
    check_single_line (codes "--path") (97 ∷ 10 ∷ []) ≡ err (bad_character (codes "--path") 10)
unfolding check_single_line
line_break_refused = refl

-- U+0085, the next-line character, in UTF-8.
next_line_refused :
    check_single_line (codes "--path") (0xc2 ∷ 0x85 ∷ [])
    ≡ err (bad_character (codes "--path") 0x85)
unfolding check_single_line
next_line_refused = refl

lone_byte_refused :
    check_single_line (codes "--path") (0xff ∷ []) ≡ err (invalid_utf8 (codes "--path"))
unfolding check_single_line
lone_byte_refused = refl
