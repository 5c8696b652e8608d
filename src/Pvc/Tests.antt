-- ===== src/Pvc/Tests.antt =====
-- Runs of internal/pvc/info.go.
use pv_migrate.Common.{
  ℕ, ◌&&◌, not, true, false, List, [], ◌∷◌, none, some, ◌≡◌, ◌≢◌, refl, Bytes, codes, ok, err,
  is_empty, str_eq,
}
use pv_migrate.Pvc.{
  AccessMode, read_write_once, read_write_once_pod, read_write_many, running, succeeded, Claim, Pod,
  not_found, Cluster, Info, build_affinity, new_info, elem,
}
use pv_migrate.Pvc.Nodes.{allows, schedules}
use pv_migrate.Pvc.Resolve.{new_info_lem, any, is_once_pod}

abbrev data_claim : Claim ℕ
data_claim = record {
  namespace = codes "db";
  name = codes "data";
  access_modes = read_write_once ∷ [];
  capacity = some 10;
  requested = 8;
  provisioner_annotation = [];
  beta_provisioner_annotation = [];
  storage_class_name = none;
  volume_name = codes "pv-1";
}

abbrev done_pod : Pod
done_pod = record {
  pod_name = codes "old";
  node_name = codes "n1";
  phase = succeeded;
  volume_claims = some (codes "data") ∷ [];
}

abbrev live_pod : Pod
live_pod = record {
  pod_name = codes "live";
  node_name = codes "n2";
  phase = running;
  volume_claims = none ∷ some (codes "data") ∷ [];
}

-- A cluster of two nodes, whose one volume is pinned to the second.
abbrev two_nodes : Cluster ℕ
two_nodes = record {
  Affinity = Bytes;
  Selector = Bytes;
  Node = Bytes;
  claim_of = λ ns name. ok data_claim;
  pods_of = λ ns. ok (done_pod ∷ live_pod ∷ []);
  volume_of = λ v. ok (some (codes "n2"));
  selector_of = λ a. ok a;
  nodes = ok (codes "n1" ∷ codes "n2" ∷ []);
  name_of = λ n. n;
  matches = λ s n. str_eq s n;
  provisioner_of = λ c. err not_found;
}

abbrev data_info : Info ℕ
data_info = record {
  claim = data_claim;
  mounted_node = codes "n2";
  allowed_nodes = some (codes "n2" ∷ []);
  pinned_nodes = some (codes "n2" ∷ []);
  mounted_pod = codes "live";
  affinity = build_affinity (codes "n2") (some (codes "n2" ∷ []));
  supports_rwo = true;
  supports_rox = false;
  supports_rwx = false;
}

data-resolved : new_info two_nodes (codes "db") (codes "data") true ≡ ok data_info
unfolding new_info
data-resolved = refl

new_info_lem_example :
    (two_nodes.claim_of (codes "db") (codes "data") ≡ ok data_claim)
    × (data_info.allowed_nodes ≢ some [])
    × (schedules data_info.affinity (codes "n1")
        ≡ (allows data_info.allowed_nodes (codes "n1") && elem (codes "n1") (codes "n2" ∷ [])))
    × ((true && (any is_once_pod data_claim.access_modes && not (is_empty data_info.mounted_node)))
        ≡ false)
new_info_lem_example =
    new_info_lem two_nodes (codes "db") (codes "data") true (codes "n1") data-resolved

abbrev both_modes : List AccessMode
both_modes = read_write_many ∷ read_write_once_pod ∷ []
