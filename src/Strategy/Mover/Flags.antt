-- ===== src/Strategy/Mover/Flags.antt =====
-- What the check of the mover's flags settles before any strategy is tried.
use pv_migrate.Common.{
  ◌||◌, Bool, true, false, Bytes, codes, Result, ok, err, ◌>>=◌, ◌≡◌, ℤ, arith, >>=-eq-ok, str_eq,
  is_empty, ◌&&◌, ◌↔◌,
}
use pv_migrate.Rsync
use pv_migrate.Archive.Transfer.{TransferCmd}
use pv_migrate.Strategy.Mover.{
  flags_of, rsync_mover, tar_mover, Kind, rsync, tar, MoverRequest, MoverCommand, MoverError,
  unknown_mover, rsync_args_with_tar, bad_path, bad_rsync, bad_tar, mover_kind, check_tar_flags,
  check_mover_flags, by_kind, rsync_over_ssh, tar_over_ssh, rsync_mounted, tar_mounted,
  rsync_in_session, build_mover_cmd_ssh, build_mover_cmd_local, build_mover_cmd_ssh_session,
}

-- An error that is the flags', not the paths' or the command's.
abbrev pub is_flag_error : MoverError → Bool
is_flag_error (unknown_mover name) = true
is_flag_error rsync_args_with_tar = true
is_flag_error (bad_path e) = false
is_flag_error (bad_rsync e) = false
is_flag_error (bad_tar e) = false

-- The flags are accepted exactly if the mover is rsync, by name or by default, or it is tar and
-- there are no extra arguments for rsync.
pub check_mover_flags-ok :
    (mover extra : Bytes)
    → (check_mover_flags mover extra ≡ ok tt) ↔ (
        (is_empty mover || str_eq mover (codes "rsync"))
          || (str_eq mover (codes "tar") && is_empty extra)
        ≡ true)
unfolding check_mover_flags mover_kind check_tar_flags
check_mover_flags-ok mover extra = (λ h. ground arith, λ h. ground arith)

-- How a command failed, if it did.
abbrev pub fails_on_flags : Result MoverError MoverCommand → Bool
fails_on_flags (ok m) = false
fails_on_flags (err e) = is_flag_error e

rsync_mover-flags :
    (r : MoverRequest) (cmd : Bytes → Bytes → Rsync.Cmd)
    → fails_on_flags (rsync_mover r cmd) ≡ false
rsync_mover-flags r cmd = ground arith

tar_mover-flags :
    (r : MoverRequest) (cmd : Bytes → Bytes → TransferCmd)
    → check_tar_flags r.rsync_extra_args ≡ ok tt
    → fails_on_flags (tar_mover r cmd) ≡ false
tar_mover-flags r cmd h = ground arith

by_kind-flags :
    (r : MoverRequest) (rsync_cmd : Bytes → Bytes → Rsync.Cmd)
    (tar_cmd : Bytes → Bytes → TransferCmd)
    → check_mover_flags r.mover r.rsync_extra_args ≡ ok tt
    → fails_on_flags (mover_kind r.mover >>= by_kind r rsync_cmd tar_cmd) ≡ false
unfolding check_mover_flags
by_kind-flags r rsync_cmd tar_cmd h =
    let (kind, k, flags) = >>=-eq-ok (mover_kind r.mover) _ h in rw k (at kind flags)
  where
    at :
        (kind : Kind)
        → flags_of r.rsync_extra_args kind ≡ ok tt
        → fails_on_flags (by_kind r rsync_cmd tar_cmd kind) ≡ false
    at rsync flags = rsync_mover-flags r rsync_cmd
    at tar flags = tar_mover-flags r tar_cmd flags

-- Once the flags are accepted, none of the three commands fails on a flag: what is left to fail are
-- the paths and the fields of the command.
pub build_mover_cmds-flags :
    (r : MoverRequest) (push : Bool) (host : Bytes) (port : ℤ)
    → check_mover_flags r.mover r.rsync_extra_args ≡ ok tt
    → (fails_on_flags (build_mover_cmd_ssh r push host port) ≡ false)
      × (fails_on_flags (build_mover_cmd_local r) ≡ false)
      × (fails_on_flags (build_mover_cmd_ssh_session r) ≡ false)
unfolding build_mover_cmd_ssh build_mover_cmd_local build_mover_cmd_ssh_session
build_mover_cmds-flags r push host port h = (
  by_kind-flags r (rsync_over_ssh r push host port) (tar_over_ssh r push host port) h,
  by_kind-flags r (rsync_mounted r) (tar_mounted r) h,
  by_kind-flags r (rsync_in_session r)
      (tar_over_ssh r true (codes "localhost") r.ssh_reverse_tunnel_port) h,
)
