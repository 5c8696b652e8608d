-- ===== src/Migrator/Checks.antt =====
-- The checks of internal/migrator/migrator.go on the two claims before a migration is tried.
pub mod Sizes
use pv_migrate.Common.{
  ℕ, ◌++◌, ◌||◌, ◌&&◌, Bool, true, false, not, List, [], ◌∷◌, Option, none, some, Bytes, codes,
  str_eq, contains, to_lower, if◌then◌else◌, is_empty, Result, ok, err, ◌>>=◌, ◌>>◌, map_err,
  fail_if,
}
use pv_migrate.Pvc.{Cluster, Claim, Info, InfoError, ApiError, new, provisioner, size}
use pv_migrate.Migrator.{Request, PvcRef}

-- Storage quantities: `resource.Quantity`, of which the code asks whether it is zero and whether one
-- is at least another.
pub record Quantities : Type 1 where
  pub Quantity : Type 0
  pub is_zero : Quantity → Bool
  pub at_least : Quantity → Quantity → Bool

pub data CheckError : Type 0 where
  chart_failure : Bytes → CheckError
  source_claim dest_claim : InfoError → CheckError
  -- the node and the claim
  mounted_on : Bytes → Bytes → CheckError
  not_writable : CheckError
  -- namespace and name of the destination and of the source
  too_small : Bytes → Bytes → Bytes → Bytes → CheckError

-- `resolvedNamespaces`, for one side.
unfoldable pub resolved_namespace : PvcRef → Bytes → Bytes
resolved_namespace ref ns_in_context =
    if is_empty ref.namespace then ns_in_context else ref.namespace

-- The second client is made only for another kubeconfig or another context.
unfoldable pub same_client : Request → Bool
unfolding str_eq
same_client r =
    str_eq r.source.kubeconfig_path r.dest.kubeconfig_path && str_eq r.source.context r.dest.context

-- `getClusterClients`, over the function that makes a client.
unfoldable pub get_cluster_clients {ℓ κ} :
    {C : Type ℓ} {E : Type κ} → (Bytes → Bytes → Result E C) → Request → Result E (C × C)
unfolding same_client
get_cluster_clients get r = do
  source ← get r.source.kubeconfig_path r.source.context
  dest ← (if same_client r then ok source else get r.dest.kubeconfig_path r.dest.context)
  ok (source, dest)

-- `capacityEnforced`
unfoldable pub capacity_enforced : Bytes → Bool
unfolding to_lower contains str_eq
capacity_enforced [] = true
capacity_enforced (c ∷ s) =
    let p = to_lower (c ∷ s) in
    not (
      contains p (codes "local-path")
      || (contains p (codes "hostpath") || str_eq p (codes "openebs.io/local")))

-- The name that `handleSizes` goes on with: empty where the lookup failed.
abbrev pub name_or_empty : Result InfoError Bytes → Bytes
name_or_empty (ok p) = p
name_or_empty (err e) = []

-- `handleMounted`
unfoldable pub handle_mounted : {Q : Type 0} → Info Q → Bool → Result CheckError (Unit {0})
handle_mounted i ignore_mounted =
    if is_empty i.mounted_node
    then ok tt
    else if ignore_mounted
    then ok tt
    else err (mounted_on i.mounted_node i.claim.name)

-- `handleMountedPVCs`
unfoldable pub handle_mounted_pvcs :
    {Q : Type 0} → Request → Info Q → Info Q → Result CheckError (Unit {0})
unfolding handle_mounted
handle_mounted_pvcs r source dest = do
  handle_mounted source r.ignore_mounted
  handle_mounted dest r.ignore_mounted

-- A claim with the answers of its cluster for storage classes.
pub record Side (Q : Type 0) : Type 0 where
  pub info : Info Q
  pub class_of : Bytes → Result ApiError Bytes

module _ (q : Quantities) where
  open q use {Quantity, is_zero, at_least}

  unfoldable pub side_provisioner : Side Quantity → Bytes
  unfolding provisioner
  side_provisioner s = name_or_empty (provisioner s.class_of s.info.claim)

  -- `handleSizes`
  unfoldable pub handle_sizes :
      Request → Side Quantity → Side Quantity → Result CheckError (Unit {0})
  handle_sizes r source dest =
      let source_size = size is_zero source.info.claim in
      let dest_size = size is_zero dest.info.claim in
      if r.ignore_sizes
      then ok tt
      else if is_zero source_size || is_zero dest_size
      then ok tt
      else if at_least dest_size source_size
      then ok tt
      else if not (capacity_enforced (side_provisioner source))
      then ok tt
      else if not (capacity_enforced (side_provisioner dest))
      then ok tt
      else err (
          too_small dest.info.claim.namespace dest.info.claim.name source.info.claim.namespace
            source.info.claim.name)

  -- `validatePVCs`; both claims are there, since `buildMigrationWithClients` resolved them.
  unfoldable pub validate_pvcs :
      Request → Side Quantity → Side Quantity → Result CheckError (Unit {0})
  unfolding handle_sizes
  validate_pvcs r source dest =
      if not dest.info.supports_rwo && not dest.info.supports_rwx
      then err not_writable
      else handle_sizes r source dest

  -- `buildMigrationWithClients`, over the answers of the two clusters and the loaded chart.
  unfoldable pub build_migration :
      Cluster Quantity
      → Cluster Quantity
      → Bytes
      → Bytes
      → Result Bytes (Unit {0})
      → Request
      → Result CheckError (Info Quantity × Info Quantity)
  build_migration source_cluster dest_cluster source_ns dest_ns chart r = do
    map_err chart_failure chart
    source ←
        map_err source_claim
          (new source_cluster (resolved_namespace r.source source_ns) r.source.name)
    dest ← map_err dest_claim (new dest_cluster (resolved_namespace r.dest dest_ns) r.dest.name)
    handle_mounted_pvcs r source dest
    validate_pvcs r (record { info = source; class_of = source_cluster.provisioner_of })
        (record { info = dest; class_of = dest_cluster.provisioner_of })
    ok (source, dest)
