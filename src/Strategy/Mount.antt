-- ===== src/Strategy/Mount.antt =====
-- internal/strategy/mount.go: the strategy of one pod that mounts both claims.
pub mod Place
mod Tests
use pv_migrate.Common.{
  ℕ, ◌||◌, ◌&&◌, Bool, true, false, not, List, [], ◌∷◌, Option, none, some, Bytes, codes, str_eq,
  if◌then◌else◌, is_empty,
}
use pv_migrate.Pvc.{Info}

-- The two sides of a migration, with the API server host that each side's cluster has.
pub record Sides (Q : Type 0) : Type 0 where
  pub source_host : Bytes
  pub dest_host : Bytes
  pub source : Info Q
  pub dest : Info Q

module _ {Q : Type 0} where
  -- `cannotDoReason`: why one pod cannot mount both claims, empty where it can.
  unfoldable pub cannot_do_reason : Sides Q → Bytes
  unfolding str_eq
  cannot_do_reason t =
      let same_node = str_eq t.source.mounted_node t.dest.mounted_node in
      let one_unmounted = is_empty t.source.mounted_node || is_empty t.dest.mounted_node in
      if not (str_eq t.source_host t.dest_host)
      then codes "source and destination are on different clusters"
      else if not (str_eq t.source.claim.namespace t.dest.claim.namespace)
      then codes "source and destination are in different namespaces"
      else if same_node
          || (one_unmounted
              || (t.source.supports_rox || (t.source.supports_rwx || t.dest.supports_rwx)))
      then []
      else codes "PVCs are mounted on different nodes and do not support multi-access modes"

  -- `determineTargetNode`
  unfoldable pub determine_target_node : Sides Q → Bytes
  determine_target_node t =
      let source = t.source in
      let dest = t.dest in
      if not (is_empty source.mounted_node) && (not source.supports_rox && not source.supports_rwx)
      then source.mounted_node
      else if not (is_empty dest.mounted_node) && (not dest.supports_rox && not dest.supports_rwx)
      then dest.mounted_node
      else if not (is_empty source.mounted_node)
      then source.mounted_node
      else dest.mounted_node
