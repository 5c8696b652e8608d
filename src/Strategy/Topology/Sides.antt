-- ===== src/Strategy/Topology/Sides.antt =====
-- The sides that the two components of a migration run on.
use pv_migrate.Common.{◌++◌, not, Bool, true, false, Bytes, codes, ◌≡◌, ◌⊎◌, refl, inl, inr}
use pv_migrate.Pvc.{Info}
use pv_migrate.Strategy.Paths.{src_mount_path, dest_mount_path}
use pv_migrate.Strategy.Topology.{ComponentSide, resolve_topology, release_names}

-- The side has the source claim at its mount, or the destination claim at its mount.
abbrev pub IsSource : {Q : Type 0} → Bool → Info Q → ComponentSide Q → Type 0
IsSource writable src s =
    (s.info ≡ src) × (s.mount_path ≡ src_mount_path) × (s.read_only ≡ not writable)

abbrev pub IsDest : {Q : Type 0} → Info Q → ComponentSide Q → Type 0
IsDest dst s = (s.info ≡ dst) × (s.mount_path ≡ dest_mount_path) × (s.read_only ≡ false)

-- One component runs on each side: rsync on the source for a push and on the destination otherwise; the
-- destination is writable, the source is read only unless asked otherwise; and the name of the
-- release on the source ends in `-src`, that of the one on the destination in `-dest`.
pub resolve_topology-covers :
    {Q : Type 0} (push writable : Bool) (src dst : Info Q) (prefix : Bytes)
    → let t = resolve_topology push writable src dst in
      ((push ≡ true)
        × IsSource writable src t.rsync
        × IsDest dst t.sshd
        × (release_names t prefix ≡ (prefix ++ codes "-dest", prefix ++ codes "-src")))
      ⊎ ((push ≡ false)
          × IsSource writable src t.sshd
          × IsDest dst t.rsync
          × (release_names t prefix ≡ (prefix ++ codes "-src", prefix ++ codes "-dest")))
unfolding resolve_topology release_names
resolve_topology-covers true writable src dst prefix =
    inl (refl, (refl, refl, refl), (refl, refl, refl), refl)
resolve_topology-covers false writable src dst prefix =
    inr (refl, (refl, refl, refl), (refl, refl, refl), refl)
