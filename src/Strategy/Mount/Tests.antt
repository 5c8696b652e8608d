-- ===== src/Strategy/Mount/Tests.antt =====
-- Runs of internal/strategy/mount.go.
use pv_migrate.Common.{ℕ, true, false, [], ◌∷◌, none, ◌≡◌, refl, codes}
use pv_migrate.Pvc.{Info, read_write_once}
use pv_migrate.Strategy.Mount.{Sides, cannot_do_reason, determine_target_node}
use pv_migrate.Strategy.Mount.Place.{IsReachable, determine_target_node-IsReachable}

abbrev held_info : Info ℕ
held_info = record {
  claim = record {
    namespace = codes "db";
    name = codes "data";
    access_modes = read_write_once ∷ [];
    capacity = none;
    requested = 8;
    provisioner_annotation = [];
    beta_provisioner_annotation = [];
    storage_class_name = none;
    volume_name = codes "pv-1";
  };
  mounted_node = codes "n2";
  allowed_nodes = none;
  pinned_nodes = none;
  mounted_pod = codes "live";
  affinity = none;
  supports_rwo = true;
  supports_rox = false;
  supports_rwx = false;
}

abbrev sides : Sides ℕ
sides = record {
  source_host = codes "https://a";
  dest_host = codes "https://a";
  source = record held_info { mounted_node = [] };
  dest = held_info;
}

applies : cannot_do_reason sides ≡ []
unfolding cannot_do_reason
applies = refl

target : determine_target_node sides ≡ codes "n2"
unfolding determine_target_node
target = refl

determine_target_node-IsReachable_example :
    (codes "https://a" ≡ codes "https://a")
    × (codes "db" ≡ codes "db")
    × IsReachable sides.source (determine_target_node sides)
    × IsReachable sides.dest (determine_target_node sides)
determine_target_node-IsReachable_example = determine_target_node-IsReachable sides applies
