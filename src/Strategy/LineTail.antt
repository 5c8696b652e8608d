-- ===== src/Strategy/LineTail.antt =====
-- internal/strategy/linetail.go: a writer that keeps the last lines written through it. Each
-- method holds the mutex, so a method is one step.
pub mod Stream
pub mod Last
mod Tests
use pv_migrate.Common.{
  ℕ, zero, suc, ◌-◌, ◌++◌, ◌||◌, ◌==◌, Bool, List, [], ◌∷◌, Option, none, some, Bytes, length, drop,
  take, if◌then◌else◌, is_empty, trim_space,
}

pub record LineTail : Type 0 where
  pub limit : ℕ
  pub partial : Bytes
  pub lines : List Bytes

abbrev pub is_break : ℕ → Bool
is_break c = c == 13 || c == 10

-- `bytes.IndexAny(t.partial, "\r\n")`, with the texts on the two sides of the index.
unfoldable pub break_line : Bytes → Option (Bytes × Bytes)
break_line [] = none
break_line (c ∷ s) =
    let found = break_line s in
    if is_break c
    then some ([], s)
    else elim found [ none ↦ none | some (line, rest) ↦ some (c ∷ line, rest) ]

-- `copy(t.lines, t.lines[1:])`
abbrev shift_down : List Bytes → List Bytes
shift_down lines = drop 1 lines ++ drop (length (drop 1 lines)) lines

-- `record`
unfoldable pub record_line : ℕ → List Bytes → Bytes → List Bytes
record_line limit lines line =
    (if length lines == limit then take (limit - 1) (shift_down lines) else lines) ++ line ∷ []

-- What the loop does with one line.
unfoldable pub keep_line : ℕ → List Bytes → Bytes → List Bytes
unfolding record_line trim_space
keep_line limit lines raw =
    let line = trim_space raw in if is_empty line then lines else record_line limit lines line

-- The loop of `Write`. A round takes at least one byte off `partial`.
unfoldable pub write_loop : ℕ → ℕ → Bytes → List Bytes → Bytes × List Bytes
unfolding break_line keep_line
write_loop zero limit partial lines = (partial, lines)
write_loop (suc fuel) limit partial lines = elim (break_line partial) [
  | none ↦ (partial, lines)
  | some (raw, rest) ↦ write_loop fuel limit rest (keep_line limit lines raw)
]

-- `Write`
unfoldable pub write : Bytes → LineTail → LineTail
unfolding write_loop
write buf t =
    let partial : Bytes = t.partial ++ buf in
    let (rest, lines) = write_loop (suc (length partial)) t.limit partial t.lines in
    record t { partial = rest; lines = lines }

-- `Lines`
unfoldable pub get_lines : LineTail → List Bytes
unfolding trim_space
get_lines t =
    let rest = trim_space t.partial in if is_empty rest then t.lines else t.lines ++ rest ∷ []
