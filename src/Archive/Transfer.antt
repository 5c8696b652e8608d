-- ===== src/Archive/Transfer.antt =====
-- internal/archive/transfer.go: the pipeline that copies one volume into another with tar at both
-- ends.
pub mod Words
pub mod Pieces
pub mod Line
mod Tests
use pv_migrate.Common.{
  ℕ, ◌++◌, ◌||◌, not, Bool, true, false, List, [], ◌∷◌, Bytes, codes, str_eq, if◌then◌else◌,
  is_empty, Result, ok, err, ◌>>=◌, ◌>>◌, map_err, ℤ, pos, itoa, eq_ℤ, join, has_suffix, path_dir,
  path_base, path_join,
}
use pv_migrate.Shell.{quote, LineError, check_single_line}
use pv_migrate.Archive.{
  LevelError, compression_none, compression_zstd, compress_program, decompress_program,
}

pub record TransferCmd : Type 0 where
  pub push : Bool
  pub ssh_user : Bytes
  pub ssh_host : Bytes
  pub port : ℤ
  pub src_path : Bytes
  pub dest_path : Bytes
  pub compression : Bytes
  pub level : ℤ
  pub clean_dest : Bool
  pub local : Bool

pub data TransferError : Type 0 where
  empty_field : Bytes → TransferError
  bad_line : LineError → TransferError
  bad_level : LevelError → TransferError

-- `sshOptions`
abbrev pub ssh_options : List Bytes
ssh_options =
    codes "-o"
    ∷ codes "StrictHostKeyChecking=no"
    ∷ codes "-o"
    ∷ codes "UserKnownHostsFile=/dev/null"
    ∷ codes "-o"
    ∷ codes "ConnectTimeout=5"
    ∷ codes "-o"
    ∷ codes "ServerAliveInterval=10"
    ∷ codes "-o"
    ∷ codes "ServerAliveCountMax=3"
    ∷ []

-- The fields that `check` goes through.
abbrev pub checked_fields : TransferCmd → List (Bytes × Bytes)
checked_fields c =
    (codes "--source-path", c.src_path)
    ∷ (codes "--dest-path", c.dest_path)
    ∷ (if c.local then [] else (codes "ssh user", c.ssh_user) ∷ (codes "ssh host", c.ssh_host) ∷ [])

-- The loop of `check`
unfoldable pub check_each : List (Bytes × Bytes) → Result TransferError (Unit {0})
check_each [] = ok tt
check_each ((name, value) ∷ fields) =
    if is_empty value
    then err (empty_field name)
    else (do map_err bad_line (check_single_line name value); check_each fields)

-- `check`
unfoldable pub check : TransferCmd → Result TransferError (Unit {0})
unfolding check_each
check c = check_each (checked_fields c)

-- `sshPrefix`, less the target: ssh and its options.
unfoldable pub ssh_words : TransferCmd → List Bytes
unfolding itoa
ssh_words c =
    codes "ssh"
    ∷ (ssh_options ++ (if eq_ℤ c.port (pos 0) then [] else codes "-p" ∷ itoa c.port ∷ []))

abbrev pub ssh_target : TransferCmd → Bytes
ssh_target c = c.ssh_user ++ (b'@' ∷ c.ssh_host)

-- `sshPrefix`
unfoldable pub ssh_prefix : TransferCmd → Bytes
unfolding ssh_words quote join
ssh_prefix c = join (codes " ") (ssh_words c) ++ (b' ' ∷ quote (ssh_target c))

-- `cleanCmd` of internal/archive/cmd.go
unfoldable pub clean_cmd : Bytes → Bytes
unfolding quote path_join
clean_cmd data_path =
    codes "find "
    ++ (quote data_path
        ++ (codes " -mindepth 1 -not -path "
            ++ (quote (path_join data_path (codes "lost+found"))
                ++ (codes " -not -path "
                    ++ (quote (path_join data_path (codes "lost+found") ++ codes "/*")
                        ++ codes " -delete")))))

-- `preparePath`
unfoldable pub prepare_path : Bytes → Bool → Bytes
unfolding clean_cmd quote
prepare_path path clean_dest =
    (codes "mkdir -p " ++ (quote path ++ codes " && "))
    ++ (if clean_dest then clean_cmd path ++ codes " && " else [])

-- `tarSource`
unfoldable pub tar_source : Bytes → Bytes × Bytes
unfolding has_suffix path_dir path_base
tar_source src_path =
    if has_suffix src_path (codes "/")
    then (src_path, codes ".")
    else (path_dir src_path, path_base src_path)

-- The ` -I` option of a compressor, where there is one.
abbrev pub program_option : Bytes → Bytes
program_option program = if is_empty program then [] else codes " -I " ++ quote program

-- `tarCreate`
unfoldable pub tar_create : Bytes → Bytes → Bytes
unfolding tar_source quote
tar_create program src_path =
    let source = tar_source src_path in
    codes "printf 'pv-migrate-bytes-total: %s\\n' \"$(df -B1 "
    ++ (quote src_path
        ++ (codes " | awk 'NR==2{print $3}')\" >&2; "
            ++ (codes "tar -c --numeric-owner --xattrs --sparse --exclude=./lost+found"
                ++ (program_option program
                    ++ (codes " -f - -C " ++ (quote source.0 ++ (b' ' ∷ quote source.1)))))))

-- `tarExtract`
unfoldable pub tar_extract : Bytes → Bytes → Bytes
unfolding quote
tar_extract decompressor path =
    codes "tar -x --numeric-owner --xattrs --exclude=./lost+found"
    ++ (program_option decompressor ++ (codes " -f - -C " ++ quote path))

-- The compression and the level that `Build` settles on.
abbrev pub used_compression : TransferCmd → Bytes
used_compression c =
    if c.local
    then compression_none
    else if is_empty c.compression
    then compression_zstd
    else c.compression

abbrev pub used_level : TransferCmd → ℤ
used_level c =
    if str_eq (used_compression c) compression_none
    then pos 0
    else if eq_ℤ c.level (pos 0)
    then pos 1
    else c.level

-- The pipeline that `Build` formats, with the compressor.
unfoldable pub pipeline : TransferCmd → Bytes → Bytes
unfolding tar_create prepare_path tar_extract decompress_program ssh_prefix quote
pipeline c program =
    let create = tar_create program c.src_path in
    let prepare = prepare_path c.dest_path c.clean_dest in
    let extract = tar_extract (decompress_program (used_compression c)) c.dest_path in
    if c.local
    then codes "set -o pipefail; " ++ (prepare ++ (create ++ (codes " | " ++ extract)))
    else if c.push
    then (codes "set -o pipefail; "
        ++ (create ++ (codes " | " ++ (ssh_prefix c ++ (b' ' ∷ quote (prepare ++ extract))))))
    else (codes "set -o pipefail; "
        ++ (prepare ++ (ssh_prefix c ++ (b' ' ∷ (quote create ++ (codes " | " ++ extract))))))

abbrev pub progress_option : TransferCmd → Bytes
progress_option c = if str_eq (used_compression c) compression_zstd then codes " --progress" else []

-- `Build`
unfoldable pub build : TransferCmd → Result TransferError Bytes
unfolding check compress_program pipeline
build c = do
  check c
  program ← map_err bad_level (compress_program (used_compression c) (used_level c))
  ok (pipeline c (program ++ progress_option c))
