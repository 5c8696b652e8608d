-- ===== src/Strategy/Paths/Tests.antt =====
-- Runs of internal/strategy/paths.go.
use pv_migrate.Common.{
  str_eq, ◌++◌, ◌||◌, List, [], ◌≡◌, refl, Bytes, codes, ok, err, All, IsName, arith,
}
use pv_migrate.Strategy.Paths.{
  resolve_mount_paths, mount_sub_path, with_slash, wants_contents, src_mount_path, dest_mount_path,
  escapes,
}
use pv_migrate.Strategy.Paths.Safety.{below, is_root, resolve_mount_paths-below}

abbrev source_path : Bytes
source_path = codes "a/../b/"

resolved : resolve_mount_paths source_path [] ≡ ok (codes "/source/b/", codes "/dest/")
unfolding resolve_mount_paths
resolved = refl

escape_refused :
    mount_sub_path dest_mount_path (codes "../etc") ≡ err (escapes (codes "../etc") dest_mount_path)
unfolding mount_sub_path
escape_refused = refl

contents : mount_sub_path src_mount_path source_path ≡ ok (codes "/source/b/")
unfolding mount_sub_path
contents = refl

source-IsName : IsName (codes "source")
unfolding str_eq
source-IsName = record {
  not_empty = refl;
  not_dot = refl;
  not_dot_dot = refl;
  no_slash = omega arith;
}

letter-IsName : IsName (codes "a")
unfolding str_eq
letter-IsName = record {
  not_empty = refl;
  not_dot = refl;
  not_dot_dot = refl;
  no_slash = omega arith;
}

resolve_mount_paths-below_example :
    (s_parts : List Bytes) × (d_parts : List Bytes) × All IsName s_parts
    × All IsName d_parts
    × (codes "/source/b/"
        ≡ with_slash
            (is_root s_parts || wants_contents source_path)
            (src_mount_path ++ below s_parts))
    × (codes "/dest/"
        ≡ with_slash (is_root d_parts || wants_contents []) (dest_mount_path ++ below d_parts))
resolve_mount_paths-below_example = resolve_mount_paths-below source_path [] resolved
