-- ===== src/Migrator/Checks/Sizes.antt =====
-- What the checks refuse.
use pv_migrate.Common.{
  ◌||◌, ◌&&◌, Bool, true, not, Bytes, ◌≡◌, ◌↔◌, subst, arith, is_empty, Result, ok, >>=-eq-ok,
  map_err, map_err-eq-ok, ok-injective,
}
use pv_migrate.Pvc.{Cluster, Info, size, new}
use pv_migrate.Migrator.{Request}
use pv_migrate.Migrator.Checks.{
  Quantities, Side, capacity_enforced, side_provisioner, handle_sizes, validate_pvcs,
  handle_mounted, handle_mounted_pvcs, build_migration, resolved_namespace, chart_failure,
  source_claim, dest_claim,
}

both-left : (a b : Bool) → (a && b) ≡ true → a ≡ true
both-left a b h = ground arith

both-right : (a b : Bool) → (a && b) ≡ true → b ≡ true
both-right a b h = ground arith

module _ (q : Quantities) where
  open q use {Quantity, is_zero, at_least}

  -- The destination is known to be too small: both sizes are known, it is the smaller, and the
  -- provisioners of both claims enforce the capacity.
  abbrev pub is_too_small : Side Quantity → Side Quantity → Bool
  is_too_small source dest =
      not (is_zero (size is_zero source.info.claim))
      && (not (is_zero (size is_zero dest.info.claim))
          && (not (at_least (size is_zero dest.info.claim) (size is_zero source.info.claim))
              && (capacity_enforced (side_provisioner q source)
                  && capacity_enforced (side_provisioner q dest))))

  -- The two claims pass exactly if the destination can be written and, unless sizes are ignored,
  -- is not known to be too small.
  pub validate_pvcs-ok :
      (r : Request) (source dest : Side Quantity)
      → (validate_pvcs q r source dest ≡ ok tt) ↔ (
          (dest.info.supports_rwo || dest.info.supports_rwx)
            && (r.ignore_sizes || not (is_too_small source dest))
          ≡ true)
  unfolding validate_pvcs handle_sizes
  validate_pvcs-ok r source dest = (λ h. ground arith, λ h. ground arith)

  -- The check of mounted claims passes exactly if mounts are ignored or neither claim has a node.
  pub handle_mounted_pvcs-ok :
      (r : Request) (source dest : Info Quantity)
      → (handle_mounted_pvcs r source dest ≡ ok tt)
        ↔ (r.ignore_mounted || (is_empty source.mounted_node && is_empty dest.mounted_node) ≡ true)
  unfolding handle_mounted_pvcs handle_mounted
  handle_mounted_pvcs-ok r source dest = (λ h. ground arith, λ h. ground arith)

  -- A migration that is built is of the two claims that were asked for, each in its resolved
  -- namespace, and both have passed every check.
  pub build_migration-ok :
      (source_cluster dest_cluster : Cluster Quantity) (source_ns dest_ns : Bytes)
      (chart : Result Bytes (Unit {0})) (r : Request) {source dest : Info Quantity}
      → build_migration q source_cluster dest_cluster source_ns dest_ns chart r ≡ ok (source, dest)
      → (new source_cluster (resolved_namespace r.source source_ns) r.source.name ≡ ok source)
        × (new dest_cluster (resolved_namespace r.dest dest_ns) r.dest.name ≡ ok dest)
        × (r.ignore_mounted || (is_empty source.mounted_node && is_empty dest.mounted_node) ≡ true)
        × (dest.supports_rwo || dest.supports_rwx ≡ true)
        × (r.ignore_sizes
              || not (
                  is_too_small
                    (record { info = source; class_of = source_cluster.provisioner_of })
                    (record { info = dest; class_of = dest_cluster.provisioner_of }))
            ≡ true)
  unfolding build_migration
  build_migration-ok sc dc source_ns dest_ns chart r {source} {dest} h =
      let (u, e, h₁) = >>=-eq-ok (map_err chart_failure chart) _ h in
      let (s, e₁, h₂) =
        >>=-eq-ok
          (map_err source_claim (new sc (resolved_namespace r.source source_ns) r.source.name)) _
          h₁ in
      let (d, e₂, h₃) =
        >>=-eq-ok (map_err dest_claim (new dc (resolved_namespace r.dest dest_ns) r.dest.name)) _
          h₂ in
      let (u₁, e₃, h₄) = >>=-eq-ok (handle_mounted_pvcs r s d) _ h₃ in
      let s_side : Side Quantity = record { info = s; class_of = sc.provisioner_of } in
      let d_side : Side Quantity = record { info = d; class_of = dc.provisioner_of } in
      let (u₂, e₄, h₅) = >>=-eq-ok (validate_pvcs q r s_side d_side) _ h₄ in
      let same : ◌≡◌ {A = Info Quantity × Info Quantity} (s, d) (source, dest) = ok-injective h₅ in
      let mounts = (handle_mounted_pvcs-ok r s d).0 e₃ in
      let sizes = (validate_pvcs-ok r s_side d_side).0 e₄ in
      subst
        (λ (p : Info Quantity × Info Quantity).
          (new sc (resolved_namespace r.source source_ns) r.source.name ≡ ok p.0)
          × (new dc (resolved_namespace r.dest dest_ns) r.dest.name ≡ ok p.1)
          × (r.ignore_mounted || (is_empty p.0.mounted_node && is_empty p.1.mounted_node) ≡ true)
          × (p.1.supports_rwo || p.1.supports_rwx ≡ true)
          × (r.ignore_sizes
                || not (
                    is_too_small (record { info = p.0; class_of = sc.provisioner_of })
                      (record { info = p.1; class_of = dc.provisioner_of }))
              ≡ true))
        same
        (
          map_err-eq-ok source_claim _ e₁,
          map_err-eq-ok dest_claim _ e₂,
          mounts,
          both-left _ _ sizes,
          both-right _ _ sizes,
        )
