-- ===== src/Common/Dirs/Bytewise.antt =====
-- `Dir`, `Base` and `Join` add no byte but slashes and dots.
use Prim.Native.Nat.{ℕ}
use mathlib.Core.Bool.{Bool, true, false, ◌&&◌}
use mathlib.Core.List.{[], ◌∷◌, ◌++◌}
use pv_migrate.Common.Tests.{◌==◌, if◌then◌else◌}
use pv_migrate.Common.Lists.{All, All-append}
use pv_migrate.Common.Text.{Bytes, codes, is_empty}
use pv_migrate.Common.Paths.{slash}
use pv_migrate.Common.Paths.Bytewise.{clean-All, if-All}
use pv_migrate.Common.Dirs.{split_last, drop_slashes, path_dir, path_base, path_join}

module _ (P : ℕ → Type 0) (on_slash : P slash) (on_dot : P b'.') where
  abbrev AllBoth : Bytes × Bytes → Type 0
  AllBoth p = All P p.0 × All P p.1

  if-AllBoth :
      (b : Bool) (p q : Bytes × Bytes) → AllBoth p → AllBoth q → AllBoth (if b then p else q)
  if-AllBoth true p q h k = h
  if-AllBoth false p q h k = k

  split_last-AllBoth : (s : Bytes) → All P s → AllBoth (split_last s)
  unfolding split_last
  split_last-AllBoth [] h = (tt, tt)
  split_last-AllBoth (c ∷ s) (h, hs) =
      let (dir, file) = split_last-AllBoth s hs in
      if-AllBoth (is_empty (split_last s).0)
        (if c == slash then (slash ∷ [], (split_last s).1) else ([], c ∷ (split_last s).1))
        (c ∷ (split_last s).0, (split_last s).1)
        (if-AllBoth (c == slash) (slash ∷ [], (split_last s).1) ([], c ∷ (split_last s).1)
          ((on_slash, tt), file) (tt, (h, file)))
        ((h, dir), file)

  drop_slashes-All : (s : Bytes) → All P s → All P (drop_slashes s)
  unfolding drop_slashes
  drop_slashes-All [] h = tt
  drop_slashes-All (c ∷ s) (h, hs) =
      if-All P (is_empty (drop_slashes s) && c == slash) [] (c ∷ drop_slashes s) tt
        (h, drop_slashes-All s hs)

  pub path_dir-All : (s : Bytes) → All P s → All P (path_dir s)
  unfolding path_dir
  path_dir-All s h = clean-All P on_slash on_dot (split_last s).0 (split_last-AllBoth s h).0

  pub path_base-All : (s : Bytes) → All P s → All P (path_base s)
  unfolding path_base
  path_base-All s h =
      if-All P (is_empty s) (codes ".")
        (if is_empty (drop_slashes s) then slash ∷ [] else (split_last (drop_slashes s)).1)
        (on_dot, tt)
        (if-All P (is_empty (drop_slashes s)) (slash ∷ []) (split_last (drop_slashes s)).1
          (on_slash, tt) (split_last-AllBoth (drop_slashes s) (drop_slashes-All s h)).1)

  pub path_join-All : (a b : Bytes) → All P a → All P b → All P (path_join a b)
  unfolding path_join
  path_join-All [] [] h k = tt
  path_join-All [] (d ∷ b) h k = clean-All P on_slash on_dot (d ∷ b) k
  path_join-All (c ∷ a) [] h k = clean-All P on_slash on_dot (c ∷ a) h
  path_join-All (c ∷ a) (d ∷ b) h k =
      clean-All P on_slash on_dot (c ∷ a ++ slash ∷ d ∷ b) (All-append P (c ∷ a) _ h (on_slash, k))
