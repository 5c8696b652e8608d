-- ===== src/Strategy/Topology/Tests.antt =====
-- Runs of internal/strategy/topology.go.
use pv_migrate.Common.{refl, ℕ, true, false, [], ◌∷◌, none, ◌≡◌, codes}
use pv_migrate.Pvc.{Info, read_write_once}
use pv_migrate.Strategy.Topology.{resolve_topology, release_names}

abbrev source_info : Info ℕ
source_info = record {
  claim = record {
    namespace = codes "db";
    name = codes "data";
    access_modes = read_write_once ∷ [];
    capacity = none;
    requested = 8;
    provisioner_annotation = [];
    beta_provisioner_annotation = [];
    storage_class_name = none;
    volume_name = [];
  };
  mounted_node = [];
  allowed_nodes = none;
  pinned_nodes = none;
  mounted_pod = [];
  affinity = none;
  supports_rwo = true;
  supports_rox = false;
  supports_rwx = false;
}

abbrev dest_info : Info ℕ
dest_info = record source_info { mounted_node = codes "n1" }

pushed_sides :
    ((resolve_topology true false source_info dest_info).rsync.info ≡ source_info)
    × ((resolve_topology true false source_info dest_info).rsync.read_only ≡ true)
    × ((resolve_topology true false source_info dest_info).sshd.info ≡ dest_info)
    × (release_names (resolve_topology true false source_info dest_info) (codes "p")
        ≡ (codes "p-dest", codes "p-src"))
unfolding resolve_topology release_names
pushed_sides = (refl, refl, refl, refl)
