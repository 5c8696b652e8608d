-- ===== src/Archive.antt =====
-- internal/archive: tar archives and tar transfers. This file has the compressions of cmd.go and the
-- exit codes of exitcode.go.
pub mod Levels
pub mod Transfer
pub mod Target
pub mod Command
mod Tests
use pv_migrate.Common.{
  ℕ, ◌++◌, ◌||◌, Bool, true, false, List, [], ◌∷◌, Bytes, codes, str_eq, if◌then◌else◌, is_empty,
  Result, ok, err, ◌>>=◌, ◌>>◌, ℤ, pos, itoa, eq_ℤ, ltb_ℤ, ◌==◌,
}

-- The errors of building a command; a level's with the compression and the largest level.
pub data LevelError : Type 0 where
  not_for_none : LevelError
  out_of_range : ℤ → Bytes → ℤ → LevelError
  unsupported : Bytes → LevelError

abbrev pub compression_none : Bytes
compression_none = codes "none"

abbrev pub compression_zstd : Bytes
compression_zstd = codes "zstd"

abbrev pub compression_gzip : Bytes
compression_gzip = codes "gzip"

-- `Compressions`
abbrev pub compressions : List Bytes
compressions = compression_none ∷ compression_zstd ∷ compression_gzip ∷ []

-- `Extension`
unfoldable pub extension : Bytes → Result LevelError Bytes
unfolding str_eq
extension compression =
    if str_eq compression compression_none
    then ok (codes ".tar")
    else if str_eq compression compression_zstd
    then ok (codes ".tar.zst")
    else if str_eq compression compression_gzip
    then ok (codes ".tar.gz")
    else err (unsupported compression)

-- `DefaultLevel`
unfoldable pub default_level_of : Bytes → ℤ
unfolding str_eq
default_level_of compression =
    if str_eq compression compression_zstd
    then pos 3
    else if str_eq compression compression_gzip
    then pos 6
    else pos 0

-- `checkLevel`
unfoldable pub check_level_range : Bytes → ℤ → ℤ → Result LevelError (Unit {0})
check_level_range compression level maximum =
    if ltb_ℤ level (pos 1) || ltb_ℤ maximum level
    then err (out_of_range level compression maximum)
    else ok tt

abbrev pub or_default : ℤ → ℤ → ℤ
or_default level default = if eq_ℤ level (pos 0) then default else level

-- `compressProgram`
unfoldable pub compress_program : Bytes → ℤ → Result LevelError Bytes
unfolding str_eq check_level_range itoa
compress_program compression level =
    if str_eq compression compression_none
    then (if eq_ℤ level (pos 0) then ok [] else err not_for_none)
    else if str_eq compression compression_zstd
    then (do
      check_level_range compression_zstd (or_default level (pos 3)) (pos 19)
      ok (codes "zstd -T4 -" ++ itoa (or_default level (pos 3))))
    else if str_eq compression compression_gzip
    then (do
      check_level_range compression_gzip (or_default level (pos 6)) (pos 9)
      ok (codes "pigz -p 4 -" ++ itoa (or_default level (pos 6))))
    else err (unsupported compression)

-- `CheckLevel`
unfoldable pub check_level : Bytes → ℤ → Result LevelError (Unit {0})
unfolding compress_program
check_level compression level = do program ← compress_program compression level; ok tt

-- `decompressProgram`
unfoldable pub decompress_program : Bytes → Bytes
unfolding str_eq
decompress_program compression =
    if str_eq compression compression_zstd
    then codes "zstd"
    else if str_eq compression compression_gzip
    then codes "pigz -p 4"
    else []

-- `ToleratedExitCodes` and `NoRetryExitCodes` of tar
abbrev pub tolerated_exit_codes : List ℕ
tolerated_exit_codes = 1 ∷ []

abbrev pub no_retry_exit_codes : List ℕ
no_retry_exit_codes = []

abbrev pub tolerated_marker : Bytes
tolerated_marker = codes "pv-migrate: some files changed while tar was reading them"

-- `Interpret` of tar
unfoldable pub interpret : ℕ → Bytes
interpret code =
    if code == 0
    then []
    else if code == 1
    then codes "some files changed while tar was reading them, or differ from the archive"
    else if code == 2
    then codes "tar hit a fatal error, such as a path it could not open or a truncated stream"
    else []
