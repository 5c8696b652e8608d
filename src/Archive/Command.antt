-- ===== src/Archive/Command.antt =====
-- internal/archive/cmd.go: the commands of an archive job, on a claim and as a stream.
pub mod Words
pub mod Streams
pub mod Chunks
use pv_migrate.Common.{
  ℕ, ◌++◌, ◌+◌, ◌*◌, ◌/◌, ◌&&◌, Bool, List, [], ◌∷◌, Bytes, codes, str_eq, if◌then◌else◌, is_empty,
  Result, ok, err, ◌>>=◌, ◌>>◌, map_err, ℤ, path_dir, ltb,
}
use pv_migrate.Shell.{quote, LineError, check_single_line}
use pv_migrate.Archive.{LevelError, compress_program, decompress_program}
use pv_migrate.Archive.Transfer.{clean_cmd, prepare_path, program_option}

abbrev pub backup : Bytes
backup = codes "backup"

abbrev pub restore : Bytes
restore = codes "restore"

-- `Cmd`
pub record Cmd : Type 0 where
  pub direction : Bytes
  pub archive_path : Bytes
  pub data_path : Bytes
  pub compression : Bytes
  pub level : ℤ
  pub clean : Bool

-- `StreamCmd`
pub record StreamCmd : Type 0 where
  pub direction : Bytes
  pub remote_path : Bytes
  pub data_path : Bytes
  pub config_path : Bytes
  pub compression : Bytes
  pub level : ℤ
  pub extra_args : Bytes
  pub clean : Bool

-- The errors of both builders.
pub data BuildError : Type 0 where
  empty_field : Bytes → BuildError
  bad_line : LineError → BuildError
  bad_level : LevelError → BuildError
  invalid_direction : Bytes → BuildError

-- The switch of both builders over the direction.
unfoldable pub by_direction : Bytes → Bytes → Bytes → Result BuildError Bytes
unfolding str_eq
by_direction direction backed_up restored =
    if str_eq direction backup
    then ok backed_up
    else if str_eq direction restore
    then ok restored
    else err (invalid_direction direction)

-- The loop of `checkPaths` and of the stream's `Build`
unfoldable pub check_values : List (Bytes × Bytes) → Result BuildError (Unit {0})
check_values [] = ok tt
check_values ((name, value) ∷ fields) =
    if is_empty value
    then err (empty_field name)
    else (do map_err bad_line (check_single_line name value); check_values fields)

-- `checkPaths`
unfoldable pub check_paths : Cmd → Result BuildError (Unit {0})
unfolding check_values
check_paths c = check_values ((codes "--name", c.archive_path) ∷ (codes "--path", c.data_path) ∷ [])

-- The ends of both lines: the archive and the directory.
abbrev at_paths : Cmd → Bytes
at_paths c = codes " -f " ++ (quote c.archive_path ++ (codes " -C " ++ quote c.data_path))

-- The line of a backup
unfoldable pub backup_line : Cmd → Bytes → Bytes
unfolding quote path_dir
backup_line c program =
    codes "mkdir -p "
    ++ (quote (path_dir c.archive_path)
        ++ (codes " && tar -c --numeric-owner --xattrs --sparse --exclude=./lost+found"
            ++ (program_option program ++ (at_paths c ++ codes " ."))))

-- The line of a restore
unfoldable pub restore_line : Cmd → Bytes
unfolding prepare_path quote
restore_line c =
    prepare_path c.data_path c.clean
    ++ (codes "tar -x --numeric-owner --xattrs --exclude=./lost+found" ++ at_paths c)

-- `Build` of `Cmd`
unfoldable pub build : Cmd → Result BuildError Bytes
unfolding check_paths compress_program backup_line restore_line by_direction
build c = do
  check_paths c
  program ← map_err bad_level (compress_program c.compression c.level)
  by_direction c.direction (backup_line c program) (restore_line c)

-- The command that the stream's `Build` puts before rclone's action.
unfoldable pub rclone_command : StreamCmd → Bytes
unfolding quote
rclone_command c =
    codes "rclone --config "
    ++ (quote c.config_path
        ++ codes " --stats 1s --stats-log-level NOTICE --use-json-log --stats-one-line")

-- `chunkSizing`
unfoldable pub chunk_sizing : Bytes → Bytes
unfolding quote
chunk_sizing data_path =
    codes "used=$(df -B1 "
    ++ (quote data_path
        ++ (codes " | awk 'NR==2{print $3}'); "
            ++ (codes "chunk=$(( (used * 5 / 4 / 9000 / 1048576) + 1 )); "
                ++ codes "[ \"$chunk\" -lt 5 ] && chunk=5; ")))

-- The extra arguments, as they are given.
abbrev extra : StreamCmd → Bytes
extra c = if is_empty c.extra_args then [] else b' ' ∷ c.extra_args

-- The tar of a streamed backup
unfoldable pub stream_create : Bytes → Bytes → Bytes
unfolding quote
stream_create program data_path =
    codes "tar -c --numeric-owner --xattrs --sparse --exclude=./lost+found"
    ++ (program_option program ++ (codes " -f - -C " ++ (quote data_path ++ codes " .")))

-- The rclone of a streamed backup
unfoldable pub stream_upload : StreamCmd → Bytes
unfolding rclone_command quote
stream_upload c =
    rclone_command c
    ++ (codes " rcat "
        ++ (quote c.remote_path ++ (codes " --s3-chunk-size \"${chunk}M\"" ++ extra c)))

-- `buildBackup`
unfoldable pub build_backup : StreamCmd → Bytes → Bytes
unfolding chunk_sizing stream_create stream_upload
build_backup c program =
    codes "set -o pipefail; "
    ++ (chunk_sizing c.data_path
        ++ (stream_create program c.data_path ++ (codes " | " ++ stream_upload c)))

-- The rclone of a streamed restore
unfoldable pub stream_download : StreamCmd → Bytes
unfolding rclone_command quote
stream_download c = rclone_command c ++ (codes " cat " ++ (quote c.remote_path ++ extra c))

-- The tar of a streamed restore
unfoldable pub stream_extract : StreamCmd → Bytes
unfolding decompress_program quote
stream_extract c =
    codes "tar -x --numeric-owner --xattrs --exclude=./lost+found"
    ++ (program_option (decompress_program c.compression)
        ++ (codes " -f - -C " ++ quote c.data_path))

-- `buildRestore`
unfoldable pub build_restore : StreamCmd → Bytes
unfolding prepare_path stream_download stream_extract
build_restore c =
    codes "set -o pipefail; "
    ++ (prepare_path c.data_path c.clean
        ++ (stream_download c ++ (codes " | " ++ stream_extract c)))

-- `Build` of `StreamCmd`
unfoldable pub build_stream : StreamCmd → Result BuildError Bytes
unfolding check_values compress_program build_backup build_restore by_direction
build_stream c = do
  check_values (
      (codes "--archive-file", c.remote_path)
      ∷ (codes "--path", c.data_path)
      ∷ (codes "rclone config path", c.config_path)
      ∷ [])
  program ← map_err bad_level (compress_program c.compression c.level)
  by_direction c.direction (build_backup c program) (build_restore c)
