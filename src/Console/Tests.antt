-- ===== src/Console/Tests.antt =====
-- Tests and examples of the console's writers.
use pv_migrate.Common.{◌++◌, ◌∷◌, none, some, Bytes, codes, ◌≡◌, refl, true, pos, negsuc}
use pv_migrate.Console.{Written, erase_line_write, wrap, bad}
use pv_migrate.Console.Erase.{KeepsPromise, erase_line_write-KeepsPromise}

-- A writer that takes seven bytes at most, and does not say that it took less.
abbrev silent : Bytes → Written
silent s = record { count = pos 7; error = none }

erase_line_write-KeepsPromise_example : KeepsPromise (erase_line_write silent)
erase_line_write-KeepsPromise_example = erase_line_write-KeepsPromise silent

two_taken :
    erase_line_write silent (codes "abc")
    ≡ record { count = pos 2; error = some (codes "short write") }
unfolding erase_line_write
two_taken = refl

red : bad (record { enabled = true }) (codes "x") ≡ 27 ∷ codes "[31mx" ++ 27 ∷ codes "[0m"
unfolding wrap
red = refl

-- A writer that answers a count below zero.
none_taken :
    erase_line_write (λ s. record { count = negsuc 0; error = none }) (codes "abc")
    ≡ record { count = pos 0; error = some (codes "short write") }
unfolding erase_line_write
none_taken = refl
