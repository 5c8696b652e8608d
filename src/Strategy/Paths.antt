-- ===== src/Strategy/Paths.antt =====
-- internal/strategy/paths.go: the PVC paths of a request inside the mover's container.
pub mod Safety
mod Tests
use pv_migrate.Common.{
  ℕ, ◌++◌, ◌||◌, ◌&&◌, Bool, true, false, not, List, [], ◌∷◌, Bytes, codes, str_eq, has_prefix,
  has_suffix, if◌then◌else◌, Result, ok, err, ◌>>=◌, map_err, clean, slash,
}

pub data PathError : Type 0 where
  -- the path, and the mount point that it leaves
  escapes : Bytes → Bytes → PathError
  -- the flag that the path came by
  invalid : Bytes → PathError → PathError

abbrev pub src_mount_path : Bytes
src_mount_path = codes "/source"

abbrev pub dest_mount_path : Bytes
dest_mount_path = codes "/dest"

-- `wantsContents`
unfoldable pub wants_contents : Bytes → Bool
unfolding has_suffix
wants_contents sub =
    has_suffix sub (codes "/") || (has_suffix sub (codes "/.") || str_eq sub (codes "."))

-- The path that `mountSubPath` resolves, before its checks.
unfoldable pub resolve : Bytes → Bytes → Bytes
unfolding clean
resolve mount sub = clean (mount ++ (slash ∷ sub))

-- The trailing slash that `mountSubPath` puts behind the root and behind contents.
abbrev pub with_slash : Bool → Bytes → Bytes
with_slash contents r = if contents then r ++ slash ∷ [] else r

-- `mountSubPath`
unfoldable pub mount_sub_path : Bytes → Bytes → Result PathError Bytes
unfolding resolve wants_contents has_prefix str_eq
mount_sub_path mount sub =
    let resolved = resolve mount sub in
    if not (str_eq resolved mount) && not (has_prefix resolved (mount ++ slash ∷ []))
    then err (escapes sub mount)
    else ok (with_slash (str_eq resolved mount || wants_contents sub) resolved)

-- `resolveMountPaths`, on the two paths of the request.
unfoldable pub resolve_mount_paths : Bytes → Bytes → Result PathError (Bytes × Bytes)
unfolding mount_sub_path
resolve_mount_paths source_path dest_path = do
  src ← map_err (invalid (codes "--source-path")) (mount_sub_path src_mount_path source_path)
  dest ← map_err (invalid (codes "--dest-path")) (mount_sub_path dest_mount_path dest_path)
  ok (src, dest)

-- `ValidatePaths`
unfoldable pub validate_paths : Bytes → Bytes → Result PathError (Unit {0})
unfolding resolve_mount_paths
validate_paths source_path dest_path = do paths ← resolve_mount_paths source_path dest_path; ok tt
