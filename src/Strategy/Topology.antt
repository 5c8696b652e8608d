-- ===== src/Strategy/Topology.antt =====
-- internal/strategy/topology.go: which component runs on which side of a migration, and the names of
-- the two releases.
pub mod Sides
mod Tests
use pv_migrate.Common.{◌++◌, not, Bool, true, false, Bytes, codes, if◌then◌else◌}
use pv_migrate.Pvc.{Info}
use pv_migrate.Strategy.Paths.{src_mount_path, dest_mount_path}

-- `componentSide`
pub record ComponentSide (Q : Type 0) : Type 0 where
  pub info : Info Q
  pub mount_path : Bytes
  pub read_only : Bool

-- `topology`
pub record Topology (Q : Type 0) : Type 0 where
  pub sshd : ComponentSide Q
  pub rsync : ComponentSide Q
  pub push : Bool

module _ {Q : Type 0} where
  -- `resolveTopology`, on the two options and the two claims.
  unfoldable pub resolve_topology : Bool → Bool → Info Q → Info Q → Topology Q
  resolve_topology push source_mount_read_write src dst =
      let source : ComponentSide Q = record {
        info = src;
        mount_path = src_mount_path;
        read_only = not source_mount_read_write;
      } in
      let dest : ComponentSide Q = record {
        info = dst;
        mount_path = dest_mount_path;
        read_only = false;
      } in
      if push
      then record { sshd = dest; rsync = source; push = true }
      else record { sshd = source; rsync = dest; push = false }

  -- `releaseNames`: sshd's, then rsync's.
  unfoldable pub release_names : Topology Q → Bytes → Bytes × Bytes
  release_names t prefix =
      if t.push
      then (prefix ++ codes "-dest", prefix ++ codes "-src")
      else (prefix ++ codes "-src", prefix ++ codes "-dest")
