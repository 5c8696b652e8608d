-- ===== src/Rsync.antt =====
-- internal/rsync/cmd.go and exitcode.go: the rsync command line of a job, and what rsync's exit
-- codes mean.
pub mod Words
pub mod Flags
pub mod Line
mod Tests
use pv_migrate.Common.{
  ℕ, ◌++◌, ◌||◌, ◌≡◌, arith, ◌&&◌, ◌==◌, Bool, true, false, List, [], ◌∷◌, Option, none, some,
  Bytes, codes, if◌then◌else◌, is_empty, join, Result, ok, err, ◌>>=◌, ◌>>◌, map_err, ℤ, pos, itoa,
  eq_ℤ,
}
use pv_migrate.Shell.{quote, LineError, check_fields}

pub record Cmd : Type 0 where
  pub port : ℤ
  pub no_chown : Bool
  pub non_root : Bool
  pub delete : Bool
  pub src_use_ssh : Bool
  pub dest_use_ssh : Bool
  pub src_ssh_user : Bytes
  pub src_ssh_host : Bytes
  pub src_path : Bytes
  pub dest_ssh_user : Bytes
  pub dest_ssh_host : Bytes
  pub dest_path : Bytes
  pub compress : Bool
  pub extra_args : Bytes

-- `ToleratedExitCodes` and `NoRetryExitCodes` of exitcode.go
abbrev pub tolerated_exit_codes : List ℕ
tolerated_exit_codes = 24 ∷ []

abbrev pub no_retry_exit_codes : List ℕ
no_retry_exit_codes = 1 ∷ []

abbrev pub vanished_files_marker : Bytes
vanished_files_marker = codes "pv-migrate: some source files vanished during the transfer"

-- `exitCodeMeanings`
abbrev pub exit_code_meanings : List (ℕ × Bytes)
exit_code_meanings =
    (1, codes "Syntax or usage error")
    ∷ (2, codes "Protocol incompatibility")
    ∷ (3, codes "Errors selecting input/output files, dirs")
    ∷ (4, codes "Requested action not supported")
    ∷ (5, codes "Error starting client-server protocol")
    ∷ (6, codes "Daemon unable to append to log-file")
    ∷ (10, codes "Error in socket I/O")
    ∷ (11, codes "Error in file I/O")
    ∷ (12, codes "Error in rsync protocol data stream")
    ∷ (13, codes "Errors with program diagnostics")
    ∷ (14, codes "Error in IPC code")
    ∷ (20, codes "Received SIGUSR1 or SIGINT")
    ∷ (21, codes "Some error returned by waitpid()")
    ∷ (22, codes "Error allocating core memory buffers")
    ∷ (23, codes "Partial transfer due to error")
    ∷ (24, codes "Partial transfer due to vanished source files")
    ∷ (25, codes "The --max-delete limit stopped deletions")
    ∷ (30, codes "Timeout in data send/receive")
    ∷ (35, codes "Timeout waiting for daemon connection")
    ∷ []

meaning_of : ℕ → List (ℕ × Bytes) → Option Bytes
meaning_of code [] = none
meaning_of code ((c, meaning) ∷ rest) =
    let later = meaning_of code rest in if code == c then some meaning else later

-- `Interpret`
unfoldable pub interpret : ℕ → Bytes
unfolding meaning_of
interpret code =
    if code == 255
    then (codes
          "255 is not an rsync exit value: rsync passes through the status of the remote shell, "
        ++ codes "and ssh uses 255 for its own errors")
    else elim (meaning_of code exit_code_meanings) [
      | none ↦ []
      | some meaning ↦ codes "rsync documents this exit code as: " ++ meaning
    ]

pub data BuildError : Type 0 where
  both_ssh : BuildError
  bad_line : LineError → BuildError

-- `sshUser`
unfoldable pub ssh_user : Bytes → Bytes
ssh_user user = if is_empty user then codes "root" else user

-- `buildSrc`
unfoldable pub build_src : Cmd → Bytes
unfolding ssh_user
build_src c =
    if c.src_use_ssh
    then ssh_user c.src_ssh_user ++ (b'@' ∷ (c.src_ssh_host ++ (b':' ∷ c.src_path)))
    else c.src_path

-- `buildDest`
unfoldable pub build_dest : Cmd → Bytes
unfolding ssh_user
build_dest c =
    if c.dest_use_ssh
    then ssh_user c.dest_ssh_user ++ (b'@' ∷ (c.dest_ssh_host ++ (b':' ∷ c.dest_path)))
    else c.dest_path

-- The fields that `validate` goes through.
abbrev pub fields : Cmd → List (Bytes × Bytes)
fields c =
    (codes "--source-path", c.src_path)
    ∷ (codes "--dest-path", c.dest_path)
    ∷ (codes "ssh host", c.src_ssh_host)
    ∷ (codes "ssh host", c.dest_ssh_host)
    ∷ []

-- `validate`
unfoldable pub validate : Cmd → Result LineError (Unit {0})
unfolding check_fields
validate c = check_fields (fields c)

-- What `sshArgs` begins with.
abbrev pub ssh_fixed : List Bytes
ssh_fixed =
    codes "ssh"
    ∷ codes "-o"
    ∷ codes "StrictHostKeyChecking=no"
    ∷ codes "-o"
    ∷ codes "UserKnownHostsFile=/dev/null"
    ∷ codes "-o"
    ∷ codes "ConnectTimeout=5"
    ∷ codes "-o"
    ∷ codes "ServerAliveInterval=10"
    ∷ codes "-o"
    ∷ codes "ServerAliveCountMax=3"
    ∷ []

-- `sshArgs`
unfoldable pub ssh_args : Cmd → List Bytes
unfolding itoa
ssh_args c = ssh_fixed ++ (if eq_ℤ c.port (pos 0) then [] else codes "-p" ∷ itoa c.port ∷ [])

abbrev pub compress_flags : List Bytes
compress_flags =
    codes "--compress" ∷ codes "--compress-choice=zstd" ∷ codes "--compress-level=1" ∷ []

abbrev pub owner_flags : List Bytes
owner_flags = codes "--no-o" ∷ codes "--no-g" ∷ []

abbrev pub times_flags : List Bytes
times_flags = codes "--omit-dir-times" ∷ []

abbrev pub delete_flags : List Bytes
delete_flags = codes "--delete" ∷ []

-- The flags that `args` appends for the options of the command, before the extra arguments.
unfoldable pub option_flags : Cmd → List Bytes
option_flags c =
    (if c.compress then compress_flags else [])
    ++ ((if c.no_chown || c.non_root then owner_flags else [])
        ++ ((if c.non_root then times_flags else []) ++ (if c.delete then delete_flags else [])))

-- What `args` begins with.
abbrev pub fixed_flags : List Bytes
fixed_flags =
    codes "-av"
    ∷ codes "--info=progress2,misc0,flist0"
    ∷ codes "--no-inc-recursive"
    ∷ codes "-e"
    ∷ []

-- `args`
unfoldable pub args : Cmd → List Bytes
unfolding option_flags ssh_args
args c =
    fixed_flags
    ++ (quote (join (codes " ") (ssh_args c))
        ∷ codes "--exclude=/lost+found"
        ∷ (option_flags c ++ (if is_empty c.extra_args then [] else c.extra_args ∷ [])))

-- The text that `Build` formats once the command is valid.
unfoldable pub command_line : Cmd → Bytes
unfolding args build_src build_dest
command_line c =
    codes "rsync "
    ++ (join (codes " ") (args c)
        ++ (b' ' ∷ (quote (build_src c) ++ (b' ' ∷ quote (build_dest c)))))

-- `Build`
unfoldable pub build : Cmd → Result BuildError Bytes
unfolding validate command_line
build c =
    if c.src_use_ssh && c.dest_use_ssh
    then err both_ssh
    else (do map_err bad_line (validate c); ok (command_line c))

pub build-ok : (c : Cmd) {s : Bytes} → build c ≡ ok s → s ≡ command_line c
unfolding build
build-ok c e = ground arith

pub build-valid : (c : Cmd) {s : Bytes} → build c ≡ ok s → validate c ≡ ok tt
unfolding build
build-valid c e = ground arith
