-- ===== src/Rclone.antt =====
-- internal/rclone/cmd.go and exitcode.go: the rclone command line of a backup or a restore, the
-- remote paths, and what rclone's exit codes mean.
pub mod Words
pub mod Paths
pub mod Config
mod Tests
use pv_migrate.Common.{
  ℕ, ◌++◌, ◌&&◌, not, Bool, true, false, List, [], ◌∷◌, Bytes, codes, str_eq, if◌then◌else◌,
  is_empty, Result, ok, err, ◌>>=◌, ◌>>◌, map_err, ◌==◌, has_prefix, drop,
}
use pv_migrate.Shell.{quote, LineError, check_fields}

pub record Cmd : Type 0 where
  pub direction : Bytes
  pub remote_path : Bytes
  pub local_path : Bytes
  pub config_path : Bytes
  pub extra_args : Bytes
  pub delete : Bool

pub data BuildError : Type 0 where
  bad_line : LineError → BuildError
  invalid_direction : Bytes → BuildError

abbrev pub backup : Bytes
backup = codes "backup"

abbrev pub restore : Bytes
restore = codes "restore"

-- The fields that `Build` goes through.
abbrev pub fields : Cmd → List (Bytes × Bytes)
fields c =
    (codes "--path", c.local_path)
    ∷ (codes "remote path", c.remote_path)
    ∷ (codes "rclone config path", c.config_path)
    ∷ []

-- The source and the destination.
unfoldable pub ends : Cmd → Result BuildError (Bytes × Bytes)
unfolding str_eq
ends c =
    if str_eq c.direction backup
    then ok (c.local_path, c.remote_path)
    else if str_eq c.direction restore
    then ok (c.remote_path, c.local_path)
    else err (invalid_direction c.direction)

-- What rclone is told to do.
unfoldable pub action : Cmd → Bytes
unfolding str_eq
action c = if str_eq c.direction restore && not c.delete then codes "copy" else codes "sync"

-- The text that `Build` writes, with the source and the destination.
unfoldable pub command_line : Cmd → Bytes → Bytes → Bytes
unfolding action quote
command_line c src dest =
    codes "rclone "
    ++ (action c
        ++ ((if is_empty c.config_path then [] else codes " --config " ++ quote c.config_path)
            ++ (codes " --stats 1s --stats-log-level NOTICE --use-json-log --stats-one-line"
                ++ (b' '
                    ∷ (quote src
                        ++ (b' '
                            ∷ (quote dest
                                ++ (if is_empty c.extra_args
                                    then []
                                    else b' ' ∷ c.extra_args))))))))

-- `Build`
unfoldable pub build : Cmd → Result BuildError Bytes
unfolding ends command_line
build c = do
  map_err bad_line (check_fields (fields c))
  paths ← ends c
  ok (command_line c paths.0 paths.1)

-- `BuildRemotePath`
unfoldable pub build_remote_path : Bytes → Bytes → Bytes → Bytes
build_remote_path bucket prefix name =
    if is_empty prefix
    then codes "remote:" ++ (bucket ++ (b'/' ∷ (name ++ codes "/")))
    else codes "remote:" ++ (bucket ++ (b'/' ∷ (prefix ++ (b'/' ∷ (name ++ codes "/")))))

-- `BuildMetadataRemotePath`
unfoldable pub build_metadata_remote_path : Bytes → Bytes → Bytes → Bytes
build_metadata_remote_path bucket prefix name =
    if is_empty prefix
    then codes "remote:" ++ (bucket ++ (b'/' ∷ (name ++ codes ".meta.yaml")))
    else codes "remote:" ++ (bucket ++ (b'/' ∷ (prefix ++ (b'/' ∷ (name ++ codes ".meta.yaml")))))

-- `BuildObjectPath`
unfoldable pub build_object_path : Bytes → Bytes → Bytes
unfolding has_prefix
build_object_path bucket key =
    codes "remote:" ++ (bucket ++ (b'/' ∷ (if has_prefix key (codes "/") then drop 1 key else key)))

-- `Interpret` of rclone
unfoldable pub interpret : ℕ → Bytes
interpret code =
    if code == 3
    then codes "rclone documents this exit code as: Directory not found"
    else if code == 4
    then codes "rclone documents this exit code as: File not found"
    else []
