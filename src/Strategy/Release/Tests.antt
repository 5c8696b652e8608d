-- ===== src/Strategy/Release/Tests.antt =====
-- Tests and examples of releases.
use pv_migrate.Common.{
  Bool, true, false, ◌&&◌, ◌||◌, List, [], ◌∷◌, Bytes, codes, ok, ◌≡◌, refl, All, if◌then◌else◌,
  str_eq, arith, inl, inr, str_eq_refl,
}
use pv_migrate.Helm.{text, flag, table, Table, empty, entry, get, enabled_component}
use pv_migrate.Strategy.Release.{
  Side, source, dest, removed, not_found, refused, Helm, cleanup, sshd_component, Installer,
  run_install, installed, cleanup_side, cleanup_for_pvc, describe_release,
}
use pv_migrate.Strategy.Release.Removal.{Removes, cleanup-gone, cleanup-removable}
use pv_migrate.Strategy.Release.Values.{Waited, run_install-Waited}

-- The releases of the two sides.
abbrev Clusters : Type 0
Clusters = Side → Bytes → Bool

abbrev same_side : Side → Side → Bool
same_side source source = true
same_side dest dest = true
same_side _ _ = false

-- Helm on clusters that keep one release from being removed.
abbrev without : Side → Bytes → Clusters → Clusters
without side name w other release =
    if same_side side other && str_eq name release then false else w other release

unfoldable helm_keeping : Bytes → Helm Clusters
helm_keeping kept = record {
  init = λ side. ok tt;
  uninstall = λ side name w.
      if str_eq name kept
      then (refused (codes "locked"), w)
      else (if w side name then removed else not_found, without side name w);
}

same_side_refl : (side : Side) → same_side side side ≡ true
same_side_refl source = refl
same_side_refl dest = refl

helm_keeping-Removes : (kept : Bytes) → Removes (helm_keeping kept) (λ w. w)
unfolding helm_keeping
helm_keeping-Removes kept = record {
  gone = λ side name w h. ground (arith, h, same_side_refl side, str_eq_refl name);
  creates_none = λ side other name release w h. ground (arith, h);
}

abbrev two_releases : Clusters
two_releases side name = str_eq name (codes "m-src") || str_eq name (codes "m-dest")

abbrev release_names : List Bytes
release_names = codes "m-src" ∷ codes "m-dest" ∷ []

cleanup-gone_example :
    All
      (λ name.
        (cleanup (helm_keeping (codes "x")) release_names two_releases).1 source name ≡ false)
      release_names
    × All
        (λ name.
          (cleanup (helm_keeping (codes "x")) release_names two_releases).1 dest name ≡ false)
        release_names
unfolding cleanup helm_keeping cleanup_side cleanup_for_pvc str_eq
cleanup-gone_example =
    cleanup-gone (helm_keeping (codes "x")) (λ w. w) (helm_keeping-Removes (codes "x"))
      release_names two_releases refl

-- One release cannot be removed; the other is, all the same.
cleanup-removable_example :
    ((cleanup (helm_keeping (codes "m-src")) release_names two_releases).1 source (codes "m-dest")
      ≡ false)
    × ((cleanup (helm_keeping (codes "m-src")) release_names two_releases).1 dest (codes "m-dest")
        ≡ false)
unfolding helm_keeping str_eq
cleanup-removable_example =
    cleanup-removable (helm_keeping (codes "m-src")) (λ w. w) (helm_keeping-Removes (codes "m-src"))
      (codes "m-dest") release_names two_releases (refl, λ w. ground arith)
      (refl, λ w. ground arith) (inr (inl refl))

abbrev balanced : Table
balanced =
    entry sshd_component
      (table (
        entry (codes "enabled") (flag true) (
          entry (codes "namespace") (text (codes "ns")) (
            entry (codes "service")
              (table (entry (codes "type") (text (codes "LoadBalancer")) empty)) empty))))
      empty

abbrev installer : Installer
installer = record {
  init = ok tt;
  can_create = λ ns. ok true;
  merge_user_values = λ sets. ok empty;
  merge_maps = λ base user. base;
  run = λ strategy values. installed;
  wait_for_pod_ready = λ ns. ok tt;
}

run_install-Waited_example :
    Waited installer balanced (run_install installer (codes "1m") balanced).0
unfolding run_install describe_release enabled_component get str_eq
run_install-Waited_example = run_install-Waited installer (codes "1m") balanced refl
