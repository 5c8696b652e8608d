-- ===== src/Strategy/Mover.antt =====
-- internal/strategy/mover.go: which program moves the bytes, the command it is given, and how its
-- exit status is read. The rsync commands are those of topology.go, mount.go and local.go.
pub mod Flags
pub mod Paths
mod Tests
use pv_migrate.Common.{
  ℕ, ◌++◌, ◌||◌, not, Bool, true, false, List, [], ◌∷◌, Bytes, codes, str_eq, if◌then◌else◌,
  is_empty, Result, ok, err, ◌>>=◌, ◌>>◌, map_err, ℤ, pos, itoa, itoa_ℕ, join, map, ◌==◌,
}
use pv_migrate.Rsync
use pv_migrate.Archive
use pv_migrate.Archive.Transfer.{TransferCmd, TransferError}
use pv_migrate.Archive.Transfer
use pv_migrate.Strategy.Paths.{PathError, resolve_mount_paths}

pub data Kind : Type 0 where
  rsync tar : Kind

pub data MoverError : Type 0 where
  unknown_mover : Bytes → MoverError
  rsync_args_with_tar : MoverError
  bad_path : PathError → MoverError
  bad_rsync : Rsync.BuildError → MoverError
  bad_tar : TransferError → MoverError

-- `moverPolicy`
pub record Policy : Type 0 where
  pub tolerated : List ℕ
  pub no_retry : List ℕ
  pub marker : Bytes
  pub interpret : ℕ → Bytes

-- `moverCommand`
pub record MoverCommand : Type 0 where
  pub command : Bytes
  pub policy : Policy

-- `slices.Contains`
unfoldable pub has_code : List ℕ → ℕ → Bool
has_code [] code = false
has_code (c ∷ cs) code = c == code || has_code cs code

-- `tolerates`
unfoldable pub tolerates : Policy → ℕ → Bool
unfolding has_code
tolerates p code = has_code p.tolerated code

-- `shellPattern`
unfoldable pub shell_pattern : List ℕ → Bytes
unfolding itoa_ℕ join
shell_pattern cs = join (codes "|") (map itoa_ℕ cs)

-- `rsyncPolicy`
unfoldable pub rsync_policy : Policy
rsync_policy = record {
  tolerated = Rsync.tolerated_exit_codes;
  no_retry = Rsync.no_retry_exit_codes;
  marker = Rsync.vanished_files_marker ++ codes "; treated as success";
  interpret = Rsync.interpret;
}

-- `tarPolicy`
unfoldable pub tar_policy : Policy
tar_policy = record {
  tolerated = Archive.tolerated_exit_codes;
  no_retry = Archive.no_retry_exit_codes;
  marker = Archive.tolerated_marker ++ codes "; treated as success";
  interpret = Archive.interpret;
}

-- The fields of the request that the movers read.
pub record MoverRequest : Type 0 where
  pub mover : Bytes
  pub rsync_extra_args : Bytes
  pub source_path : Bytes
  pub dest_path : Bytes
  pub no_chown : Bool
  pub non_root : Bool
  pub delete_extraneous_files : Bool
  pub no_compress : Bool
  pub ssh_reverse_tunnel_port : ℤ

-- `sshUser` of strategy.go
unfoldable pub ssh_user : Bool → Bytes
ssh_user non_root = if non_root then codes "pvmigrate" else codes "root"

-- `moverKind`
unfoldable pub mover_kind : Bytes → Result MoverError Kind
unfolding str_eq
mover_kind mover =
    if is_empty mover || str_eq mover (codes "rsync")
    then ok rsync
    else if str_eq mover (codes "tar")
    then ok tar
    else err (unknown_mover mover)

-- `checkTarFlags`
unfoldable pub check_tar_flags : Bytes → Result MoverError (Unit {0})
check_tar_flags rsync_extra_args =
    if is_empty rsync_extra_args then ok tt else err rsync_args_with_tar

-- What each kind refuses.
abbrev pub flags_of : Bytes → Kind → Result MoverError (Unit {0})
flags_of rsync_extra_args rsync = ok tt
flags_of rsync_extra_args tar = check_tar_flags rsync_extra_args

-- `CheckMoverFlags`, on the mover and the extra arguments.
unfoldable pub check_mover_flags : Bytes → Bytes → Result MoverError (Unit {0})
unfolding mover_kind check_tar_flags
check_mover_flags mover rsync_extra_args = do
  kind ← mover_kind mover
  flags_of rsync_extra_args kind

-- `tarCompression`
unfoldable pub tar_compression : MoverRequest → Bytes
tar_compression r = if r.no_compress then Archive.compression_none else Archive.compression_zstd

-- What the three rsync commands share.
abbrev pub base_rsync : MoverRequest → Bytes → Bytes → Rsync.Cmd
base_rsync r src dest = record {
  port = pos 0;
  no_chown = r.no_chown;
  non_root = r.non_root;
  delete = r.delete_extraneous_files;
  src_use_ssh = false;
  dest_use_ssh = false;
  src_ssh_user = [];
  src_ssh_host = [];
  src_path = src;
  dest_ssh_user = [];
  dest_ssh_host = [];
  dest_path = dest;
  compress = not r.no_compress;
  extra_args = r.rsync_extra_args;
}

-- The command of `buildRsyncCmdString` (topology.go), on the resolved paths.
abbrev pub rsync_over_ssh : MoverRequest → Bool → Bytes → ℤ → Bytes → Bytes → Rsync.Cmd
rsync_over_ssh r push host port src dest =
    if push
    then record (base_rsync r src dest) {
      port = port;
      dest_use_ssh = true;
      dest_ssh_host = host;
      dest_ssh_user = ssh_user r.non_root;
    }
    else record (base_rsync r src dest) {
      port = port;
      src_use_ssh = true;
      src_ssh_host = host;
      src_ssh_user = ssh_user r.non_root;
    }

-- The command of `buildRsyncCmdMount` (mount.go).
abbrev pub rsync_mounted : MoverRequest → Bytes → Bytes → Rsync.Cmd
rsync_mounted r src dest = record (base_rsync r src dest) { compress = false }

-- The command of `buildRsyncCmdLocal` (local.go).
abbrev pub rsync_in_session : MoverRequest → Bytes → Bytes → Rsync.Cmd
rsync_in_session r src dest = record (base_rsync r src dest) {
  port = r.ssh_reverse_tunnel_port;
  dest_use_ssh = true;
  dest_ssh_host = codes "localhost";
  dest_ssh_user = ssh_user r.non_root;
}

abbrev pub base_tar : MoverRequest → Bytes → Bytes → TransferCmd
base_tar r src dest = record {
  push = false;
  ssh_user = [];
  ssh_host = [];
  port = pos 0;
  src_path = src;
  dest_path = dest;
  compression = [];
  level = pos 0;
  clean_dest = r.delete_extraneous_files;
  local = false;
}

-- The transfer of `buildMoverCmdSSH`, and of `buildMoverCmdSSHSession`.
abbrev pub tar_over_ssh : MoverRequest → Bool → Bytes → ℤ → Bytes → Bytes → TransferCmd
tar_over_ssh r push host port src dest = record (base_tar r src dest) {
  push = push;
  ssh_user = ssh_user r.non_root;
  ssh_host = host;
  port = port;
  compression = tar_compression r;
}

-- The transfer of `buildMoverCmdLocal`.
abbrev pub tar_mounted : MoverRequest → Bytes → Bytes → TransferCmd
tar_mounted r src dest = record (base_tar r src dest) { local = true }

-- An rsync command on the resolved paths, with rsync's policy.
abbrev pub rsync_mover : MoverRequest → (Bytes → Bytes → Rsync.Cmd) → Result MoverError MoverCommand
rsync_mover r cmd = do
  paths ← map_err bad_path (resolve_mount_paths r.source_path r.dest_path)
  built ← map_err bad_rsync (Rsync.build (cmd paths.0 paths.1))
  ok (record { command = built; policy = rsync_policy })

-- A tar transfer of the resolved paths, with tar's policy.
abbrev pub tar_mover : MoverRequest → (Bytes → Bytes → TransferCmd) → Result MoverError MoverCommand
tar_mover r cmd = do
  check_tar_flags r.rsync_extra_args
  paths ← map_err bad_path (resolve_mount_paths r.source_path r.dest_path)
  built ← map_err bad_tar (Transfer.build (cmd paths.0 paths.1))
  ok (record { command = built; policy = tar_policy })

abbrev pub by_kind :
    MoverRequest
    → (Bytes → Bytes → Rsync.Cmd)
    → (Bytes → Bytes → TransferCmd)
    → Kind
    → Result MoverError MoverCommand
by_kind r rsync_cmd tar_cmd rsync = rsync_mover r rsync_cmd
by_kind r rsync_cmd tar_cmd tar = tar_mover r tar_cmd

-- `buildMoverCmdSSH`
unfoldable pub build_mover_cmd_ssh :
    MoverRequest → Bool → Bytes → ℤ → Result MoverError MoverCommand
build_mover_cmd_ssh r push host port = do
  kind ← mover_kind r.mover
  by_kind r (rsync_over_ssh r push host port) (tar_over_ssh r push host port) kind

-- `buildMoverCmdLocal`
unfoldable pub build_mover_cmd_local : MoverRequest → Result MoverError MoverCommand
build_mover_cmd_local r = do
  kind ← mover_kind r.mover
  by_kind r (rsync_mounted r) (tar_mounted r) kind

-- `buildMoverCmdSSHSession`
unfoldable pub build_mover_cmd_ssh_session : MoverRequest → Result MoverError MoverCommand
build_mover_cmd_ssh_session r = do
  kind ← mover_kind r.mover
  by_kind r (rsync_in_session r) (tar_over_ssh r true (codes "localhost") r.ssh_reverse_tunnel_port)
      kind
