-- ===== src/Strategy/Mount/Place.antt =====
-- Where the pod of the mount strategy goes.
use pv_migrate.Common.{false, [], Bytes, str_eq_iff, ◌≡◌, ◌≢◌, arith, is_empty_iff}
use pv_migrate.Pvc.{Info}
use pv_migrate.Strategy.Mount.{Sides, cannot_do_reason, determine_target_node}

-- The volume is attached to a node, and cannot be attached to a second one.
abbrev pub IsHeld : {Q : Type 0} → Info Q → Type 0
IsHeld i = (i.mounted_node ≢ []) × (i.supports_rox ≡ false) × (i.supports_rwx ≡ false)

-- A node where the claim's volume can be attached.
abbrev pub IsReachable : {Q : Type 0} → Info Q → Bytes → Type 0
IsReachable i node = IsHeld i → node ≡ i.mounted_node

module _ {Q : Type 0} (t : Sides Q) where
  -- Where the mount strategy does not decline, both claims are in one namespace of one cluster, and
  -- the node that it picks is one where both volumes can be attached: a volume that a single node holds is
  -- used from that node.
  pub determine_target_node-IsReachable :
      cannot_do_reason t ≡ []
      → (t.source_host ≡ t.dest_host)
        × (t.source.claim.namespace ≡ t.dest.claim.namespace)
        × IsReachable t.source (determine_target_node t)
        × IsReachable t.dest (determine_target_node t)
  unfolding cannot_do_reason determine_target_node
  determine_target_node-IsReachable h =
      let hosts = str_eq_iff t.source_host t.dest_host in
      let namespaces = str_eq_iff t.source.claim.namespace t.dest.claim.namespace in
      let nodes = str_eq_iff t.source.mounted_node t.dest.mounted_node in
      let source_empty = is_empty_iff t.source.mounted_node in
      let dest_empty = is_empty_iff t.dest.mounted_node in
      (ground arith, ground arith, λ held. ground arith, λ held. ground arith)
