-- ===== src/Strategy/Mover/Tests.antt =====
-- Runs of internal/strategy/mover.go.
use pv_migrate.Common.{[], ◌∷◌, ◌≡◌, refl, codes, ok, err, pos, true, false}
use pv_migrate.Shell.{check_single_line}
use pv_migrate.Rsync
use pv_migrate.Archive.Transfer
use pv_migrate.Strategy.Paths.{resolve_mount_paths}
use pv_migrate.Strategy.Mover.{
  MoverRequest, MoverCommand, mover_kind, check_tar_flags, rsync_args_with_tar, check_mover_flags,
  shell_pattern, tolerates, rsync_policy, tar_policy, rsync_over_ssh, tar_over_ssh, tar_mounted,
  rsync_in_session, build_mover_cmd_ssh, build_mover_cmd_local, build_mover_cmd_ssh_session,
}
use pv_migrate.Strategy.Mover.Paths.{IsSafe, build_mover_cmd_ssh-IsSafe}

abbrev request : MoverRequest
request = record {
  mover = [];
  rsync_extra_args = [];
  source_path = codes "a/../b/";
  dest_path = codes "c";
  no_chown = false;
  non_root = true;
  delete_extraneous_files = true;
  no_compress = false;
  ssh_reverse_tunnel_port = pos 50000;
}

vanished_pattern : shell_pattern (24 ∷ 1 ∷ []) ≡ codes "24|1"
unfolding shell_pattern
vanished_pattern = refl

-- rsync's 24 is a success with caveats and tar's is not; with 1 it is the other way round.
policies :
    (tolerates rsync_policy 24 ≡ true)
    × (tolerates tar_policy 24 ≡ false)
    × (tolerates rsync_policy 1 ≡ false)
    × (tolerates tar_policy 1 ≡ true)
unfolding tolerates rsync_policy tar_policy
policies = (refl, refl, refl, refl)

extra_with_tar : check_mover_flags (codes "tar") (codes "-z") ≡ err rsync_args_with_tar
unfolding check_mover_flags
extra_with_tar = refl

abbrev over_ssh : MoverCommand
over_ssh = record {
  command =
      Rsync.command_line
        (rsync_over_ssh request true (codes "h") (pos 22) (codes "/source/b/") (codes "/dest/c"));
  policy = rsync_policy;
}

over_ssh-built : build_mover_cmd_ssh request true (codes "h") (pos 22) ≡ ok over_ssh
unfolding build_mover_cmd_ssh mover_kind resolve_mount_paths Rsync.build check_single_line
over_ssh-built = refl

build_mover_cmd_ssh-IsSafe_example :
    IsSafe request
      (rsync_over_ssh request true (codes "h") (pos 22))
      (tar_over_ssh request true (codes "h") (pos 22))
      over_ssh
build_mover_cmd_ssh-IsSafe_example =
    build_mover_cmd_ssh-IsSafe request true (codes "h") (pos 22) over_ssh-built

abbrev tar_request : MoverRequest
tar_request = record request { mover = codes "tar" }

abbrev in_pod : MoverCommand
in_pod = record {
  command = Transfer.pipeline (tar_mounted tar_request (codes "/source/b/") (codes "/dest/c")) [];
  policy = tar_policy;
}

in_pod-built : build_mover_cmd_local tar_request ≡ ok in_pod
unfolding build_mover_cmd_local mover_kind check_tar_flags resolve_mount_paths Transfer.build
    check_single_line
in_pod-built = refl

abbrev in_session : MoverCommand
in_session = record {
  command = Rsync.command_line (rsync_in_session request (codes "/source/b/") (codes "/dest/c"));
  policy = rsync_policy;
}

in_session-built : build_mover_cmd_ssh_session request ≡ ok in_session
unfolding build_mover_cmd_ssh_session mover_kind resolve_mount_paths Rsync.build check_single_line
in_session-built = refl

flags-settled : check_mover_flags (codes "tar") [] ≡ ok tt
unfolding check_mover_flags
flags-settled = refl
