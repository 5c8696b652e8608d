-- ===== src/Migrator/Fixtures.antt =====
-- The request, the cluster and the strategies of the runs of internal/migrator in Tests.
use pv_migrate.Common.{
  ℕ, suc, true, false, [], ◌∷◌, none, some, Bytes, codes, ok, err, if◌then◌else◌, str_eq, leb, ◌==◌,
}
use pv_migrate.Pvc.{read_write_once, Claim, Cluster, Info, not_found}
use pv_migrate.Migrator.{PvcRef, Request, declined_with, failure}
use pv_migrate.Migrator.Checks.{Quantities}
use pv_migrate.Migrator.Ladder.{World}
use pv_migrate.Migrator.Run.{Site}

abbrev pub plain_ref : PvcRef
plain_ref = record {
  kubeconfig_path = [];
  context = [];
  namespace = [];
  name = codes "data";
  path = [];
}

abbrev pub request : Request
request = record {
  id = codes "able-cat";
  source = plain_ref;
  dest = record plain_ref { name = codes "copy" };
  ignore_mounted = false;
  ignore_sizes = false;
  detach = false;
  no_cleanup = false;
  no_cleanup_on_failure = false;
  structured_logs = false;
  strategies = codes "mount" ∷ codes "clusterip" ∷ codes "mount" ∷ codes "loadbalancer" ∷ [];
  mover = [];
  rsync_extra_args = [];
}

-- The state outside counts the strategies run.
abbrev pub world : World ℕ
world = record {
  run = λ name a w.
      if str_eq name (codes "mount")
      then ((a, some (declined_with (codes "two clusters"))), suc w)
      else if str_eq name (codes "clusterip")
      then (
        (record a { release_names = a.release_prefix ∷ [] }, some (failure (codes "timeout"))),
        suc w,
      )
      else ((record a { release_names = a.release_prefix ∷ [] }, none), suc w);
  collect_diagnostics = λ a w. (codes "no pod is ready", w);
  cleanup = λ a w. (none, w);
  is_cancelled = λ w. false;
}

abbrev pub quantities : Quantities
quantities = record { Quantity = ℕ; is_zero = λ n. n == 0; at_least = λ m n. leb n m }

abbrev pub free_claim : Bytes → Claim ℕ
free_claim name = record {
  namespace = codes "db";
  name = name;
  access_modes = read_write_once ∷ [];
  capacity = none;
  requested = 8;
  provisioner_annotation = codes "ebs";
  beta_provisioner_annotation = [];
  storage_class_name = none;
  volume_name = [];
}

abbrev pub cluster : Cluster ℕ
cluster = record {
  Affinity = Bytes;
  Selector = Bytes;
  Node = Bytes;
  claim_of = λ ns name. ok (free_claim name);
  pods_of = λ ns. ok [];
  volume_of = λ v. ok none;
  selector_of = λ a. ok a;
  nodes = ok [];
  name_of = λ n. n;
  matches = λ s n. str_eq s n;
  provisioner_of = λ c. err not_found;
}

abbrev pub site : Site quantities Bytes Bytes
site = record {
  get_client = λ path context. ok context;
  ns_in_context = λ c. codes "db";
  cluster_of = λ c. cluster;
  chart = ok tt;
  generated_id = codes "keen-fox";
}

abbrev pub free_info : Bytes → Info ℕ
free_info name = record {
  claim = free_claim name;
  mounted_node = [];
  allowed_nodes = none;
  pinned_nodes = none;
  mounted_pod = [];
  affinity = none;
  supports_rwo = true;
  supports_rox = false;
  supports_rwx = false;
}
