-- ===== src/Strategy/LineTail/Tests.antt =====
-- Runs of internal/strategy/linetail.go.
use pv_migrate.Common.{◌++◌, List, [], ◌∷◌, ◌≡◌, refl, Bytes, codes, arith}
use pv_migrate.Strategy.LineTail.{get_lines, write}
use pv_migrate.Strategy.LineTail.Stream.{cut_lines}
use pv_migrate.Strategy.LineTail.Last.{
  write_all, new_tail, last, nonblank, concat, get_lines-write_all,
}

-- Two writes that cut a line in two, with a blank line and a carriage return between.
abbrev chunks : List Bytes
chunks =
    (codes "one" ++ 10 ∷ codes "tw")
    ∷ (codes "o" ++ 13 ∷ 10 ∷ codes "three" ++ 10 ∷ codes " end ")
    ∷ []

reported :
    get_lines (write_all chunks (new_tail 2)) ≡ codes "two" ∷ codes "three" ∷ codes "end" ∷ []
unfolding get_lines write
reported = refl

get_lines-write_all_example :
    get_lines (write_all chunks (new_tail 2))
    ≡ last 2 (nonblank (cut_lines [] (concat chunks)).0)
      ++ nonblank ((cut_lines [] (concat chunks)).1 ∷ [])
get_lines-write_all_example = get_lines-write_all 2 chunks (omega arith)
