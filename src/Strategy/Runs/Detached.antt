-- ===== src/Strategy/Runs/Detached.antt =====
-- When a run leaves its attempt detached, and that a strategy that declines has done nothing.
use pv_migrate.Common.{
  Bool, true, false, ◌&&◌, List, [], ◌∷◌, Bytes, Result, ok, err, ◌≡◌, refl, arith,
}
use pv_migrate.Strategy.Release.{Side, source, dest}
use pv_migrate.Strategy.Target.{SshTarget}
use pv_migrate.Strategy.Runs.{
  Event, detached_set, Ran, RunRequest, Parts, StrategyError, declined, wait_for_rsync_job,
  run_mount, run_cluster_ip, run_two_releases, run_local, Strategy, mount, cluster_ip, two_releases,
  local, run, run_rsync_release, at_target, sshd_release, rsync_release,
}

abbrev pub is_detached : List Event → Bool
is_detached [] = false
is_detached (detached_set ∷ es) = true
is_detached (e ∷ es) = is_detached es

abbrev pub is_success : Result StrategyError (Unit {0}) → Bool
is_success (ok done) = true
is_success (err e) = false

abbrev pub is_declined : Result StrategyError (Unit {0}) → Bool
is_declined (err (declined reason)) = true
is_declined _ = false

abbrev pub is_nil : List Event → Bool
is_nil [] = true
is_nil (e ∷ es) = false

-- Detached exactly if that was asked for and nothing failed; declined only with nothing done.
abbrev pub EndsWell : RunRequest → Ran → Type 0
EndsWell r (es, result) =
    (is_detached es ≡ (r.detach && is_success result)) × (is_declined result ≡ true → es ≡ [])

module _ (p : Parts) (r : RunRequest) where
  -- A part of a run that is not its beginning declines nothing.
  abbrev Continues : Ran → Type 0
  Continues (es, result) =
      (is_detached es ≡ (r.detach && is_success result)) × (is_declined result ≡ false)

  wait-Continues : (side : Side) (release : Bytes) → Continues (wait_for_rsync_job p r side release)
  unfolding wait_for_rsync_job
  wait-Continues side release = (ground arith, ground arith)

  mount-EndsWell : (reason : Bytes) → EndsWell r (run_mount p r reason)
  unfolding run_mount
  mount-EndsWell reason =
      let (waited, failed) = wait-Continues source r.prefix in
      (ground (arith, waited), ground (arith, failed))

  cluster_ip-EndsWell :
      (same_cluster same_namespace : Bool) (host : Bytes)
      → EndsWell r (run_cluster_ip p r same_cluster same_namespace host)
  unfolding run_cluster_ip
  cluster_ip-EndsWell same_cluster same_namespace host =
      let (at_source, failed_there) = wait-Continues source r.prefix in
      let (at_dest, failed_here) = wait-Continues dest r.prefix in
      (ground (arith, at_source, at_dest), ground (arith, failed_there, failed_here))

  rsync_release-Continues : (t : SshTarget) → Continues (run_rsync_release p r t)
  rsync_release-Continues t =
      let (at_source, failed_there) = wait-Continues source (rsync_release r) in
      let (at_dest, failed_here) = wait-Continues dest (rsync_release r) in
      (ground (arith, at_source, at_dest), ground (arith, failed_there, failed_here))

  at_target-Continues : (t : Result Bytes SshTarget) → Continues (at_target p r t)
  at_target-Continues (err e) = (ground arith, refl)
  at_target-Continues (ok t) = rsync_release-Continues t

  two_releases-EndsWell : EndsWell r (run_two_releases p r)
  unfolding run_two_releases
  two_releases-EndsWell =
      let (reached, failed) = at_target-Continues (p.target (sshd_release r)) in
      (ground (arith, reached), ground (arith, failed))

  local-EndsWell : EndsWell r (run_local p r)
  unfolding run_local
  local-EndsWell = (ground arith, ground arith)

  -- A run leaves its attempt detached exactly if that was asked for and the run is a success, and a strategy
  -- that declines has named, installed and changed nothing.
  pub run-EndsWell : (s : Strategy) → EndsWell r (run s p r)
  unfolding run
  run-EndsWell (mount reason) = mount-EndsWell reason
  run-EndsWell (cluster_ip same_cluster same_namespace host) =
      cluster_ip-EndsWell same_cluster same_namespace host
  run-EndsWell two_releases = two_releases-EndsWell
  run-EndsWell local = local-EndsWell
