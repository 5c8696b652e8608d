-- ===== src/Strategy/Runs/Tests.antt =====
-- Tests and examples of runs.
use pv_migrate.Common.{true, false, [], ◌∷◌, none, some, codes, ok, err, ◌≡◌, refl}
use pv_migrate.Strategy.Release.{source, dest}
use pv_migrate.Strategy.Runs.{
  names_set, installing, Parts, RunRequest, failure, run, two_releases, run_two_releases,
}
use pv_migrate.Strategy.Runs.Detached.{EndsWell, run-EndsWell}
use pv_migrate.Strategy.Runs.Recorded.{is_recorded, run-is_recorded}

-- The second install fails.
abbrev parts : Parts
parts = record {
  keys = none;
  install = λ side name. elim side [ source ↦ none | dest ↦ some (codes "no room") ];
  command = λ host port. none;
  job_start = λ side job. none;
  job_completion = λ side job. none;
  target = λ release. ok (record { host = codes "10.0.0.7"; port = 30022 });
  sshd_pod = λ side. none;
  local_migration = none;
  host_override = λ host. host;
}

abbrev request : RunRequest
request = record { prefix = codes "m"; detach = false; push = false; dest_host_override = [] }

second_fails : run two_releases parts request ≡ (
  names_set (codes "m-src" ∷ codes "m-dest" ∷ [])
      ∷ installing source (codes "m-src")
      ∷ installing dest (codes "m-dest")
      ∷ [],
  err (failure (codes "failed to install rsync job: no room")),
)
unfolding run run_two_releases
second_fails = refl

run-is_recorded_example : is_recorded [] (run two_releases parts request).0 ≡ true
run-is_recorded_example = run-is_recorded parts request two_releases

run-EndsWell_example : EndsWell request (run two_releases parts request)
run-EndsWell_example = run-EndsWell parts request two_releases
