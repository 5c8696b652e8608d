-- ===== src/Common/Dirs.antt =====
-- `Dir`, `Base` and `Join` of Go's `path` package.
pub mod Bytewise
use mathlib.Core.Bool.{◌&&◌}
use mathlib.Core.List.{[], ◌∷◌, ◌++◌}
use pv_migrate.Common.Tests.{◌==◌, if◌then◌else◌}
use pv_migrate.Common.Text.{Bytes, codes, is_empty}
use pv_migrate.Common.Paths.{slash, clean}

-- The path up to its last slash, and what is behind it.
unfoldable pub split_last : Bytes → Bytes × Bytes
split_last [] = ([], [])
split_last (c ∷ s) =
    let (dir, file) = split_last s in
    if is_empty dir
    then (if c == slash then (slash ∷ [], file) else ([], c ∷ file))
    else (c ∷ dir, file)

unfoldable pub drop_slashes : Bytes → Bytes
drop_slashes [] = []
drop_slashes (c ∷ s) =
    let rest = drop_slashes s in if is_empty rest && c == slash then [] else c ∷ rest

-- `path.Dir`
unfoldable pub path_dir : Bytes → Bytes
unfolding split_last clean
path_dir p = clean (split_last p).0

-- `path.Base`
unfoldable pub path_base : Bytes → Bytes
unfolding split_last drop_slashes
path_base p =
    if is_empty p
    then codes "."
    else if is_empty (drop_slashes p)
    then slash ∷ []
    else (split_last (drop_slashes p)).1

-- `path.Join` of two elements
unfoldable pub path_join : Bytes → Bytes → Bytes
unfolding clean
path_join a b =
    if is_empty a && is_empty b
    then []
    else if is_empty a
    then clean b
    else if is_empty b
    then clean a
    else clean (a ++ (slash ∷ b))
