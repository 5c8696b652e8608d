-- ===== src/Strategy/Runs/Recorded.antt =====
-- Every release that a run installs is one that its attempt names.
use pv_migrate.Common.{
  Bool, true, false, ◌&&◌, ◌||◌, List, [], ◌∷◌, Bytes, Result, ok, err, ◌≡◌, refl, arith, str_eq,
  str_eq_refl,
}
use pv_migrate.Strategy.Release.{Side, source, dest}
use pv_migrate.Strategy.Target.{SshTarget}
use pv_migrate.Strategy.Runs.{
  Event, names_set, installing, target_added, detached_set, RunRequest, Parts, wait_for_rsync_job,
  run_mount, run_cluster_ip, run_two_releases, run_local, Strategy, mount, cluster_ip, two_releases,
  local, run, run_rsync_release, at_target, source_release, dest_release, sshd_release,
  rsync_release,
}

abbrev pub is_named : Bytes → List Bytes → Bool
is_named name [] = false
is_named name (n ∷ ns) = str_eq n name || is_named name ns

abbrev pub is_unset : List Bytes → Bool
is_unset [] = true
is_unset (n ∷ ns) = false

-- An install of a release that is not among the names is out of order; so is setting the names again once a
-- release has been installed.
abbrev pub is_recorded : List Bytes → List Event → Bool
is_recorded names [] = true
is_recorded names (names_set ns ∷ es) = is_unset names && is_recorded ns es
is_recorded names (installing side name ∷ es) = is_named name names && is_recorded names es
is_recorded names (target_added side name ∷ es) = is_named name names && is_recorded names es
is_recorded names (detached_set ∷ es) = is_recorded names es

module _ (p : Parts) (r : RunRequest) where
  wait-is_recorded :
      (names : List Bytes) (side : Side) (release : Bytes)
      → is_recorded names (wait_for_rsync_job p r side release).0 ≡ true
  unfolding wait_for_rsync_job
  wait-is_recorded names side release = ground arith

  mount-is_recorded : (reason : Bytes) → is_recorded [] (run_mount p r reason).0 ≡ true
  unfolding run_mount
  mount-is_recorded reason =
      ground (arith, str_eq_refl r.prefix, wait-is_recorded (r.prefix ∷ []) source r.prefix)

  cluster_ip-is_recorded :
      (same_cluster same_namespace : Bool) (host : Bytes)
      → is_recorded [] (run_cluster_ip p r same_cluster same_namespace host).0 ≡ true
  unfolding run_cluster_ip
  cluster_ip-is_recorded same_cluster same_namespace host = ground (
    arith,
    str_eq_refl r.prefix,
    wait-is_recorded (r.prefix ∷ []) source r.prefix,
    wait-is_recorded (r.prefix ∷ []) dest r.prefix,
  )

  abbrev both_names : List Bytes
  both_names = sshd_release r ∷ rsync_release r ∷ []

  rsync_release-is_recorded :
      (t : SshTarget) → is_recorded both_names (run_rsync_release p r t).0 ≡ true
  rsync_release-is_recorded t = ground (
    arith,
    str_eq_refl (source_release r),
    str_eq_refl (dest_release r),
    wait-is_recorded both_names source (source_release r),
    wait-is_recorded both_names dest (dest_release r),
  )

  at_target-is_recorded :
      (t : Result Bytes SshTarget) → is_recorded both_names (at_target p r t).0 ≡ true
  at_target-is_recorded (err e) = refl
  at_target-is_recorded (ok t) = rsync_release-is_recorded t

  two_releases-is_recorded : is_recorded [] (run_two_releases p r).0 ≡ true
  unfolding run_two_releases
  two_releases-is_recorded = ground (
    arith,
    str_eq_refl (source_release r),
    str_eq_refl (dest_release r),
    at_target-is_recorded (p.target (sshd_release r)),
  )

  local-is_recorded : is_recorded [] (run_local p r).0 ≡ true
  unfolding run_local
  local-is_recorded = ground (arith, str_eq_refl (source_release r), str_eq_refl (dest_release r))

  -- Whatever fails, a strategy names its releases before it installs the first, once, and installs no other,
  -- so that a cleanup of the attempt's names covers all that it installed.
  pub run-is_recorded : (s : Strategy) → is_recorded [] (run s p r).0 ≡ true
  unfolding run
  run-is_recorded (mount reason) = mount-is_recorded reason
  run-is_recorded (cluster_ip same_cluster same_namespace host) =
      cluster_ip-is_recorded same_cluster same_namespace host
  run-is_recorded two_releases = two_releases-is_recorded
  run-is_recorded local = local-is_recorded
