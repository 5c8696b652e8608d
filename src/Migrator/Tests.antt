-- ===== src/Migrator/Tests.antt =====
-- Runs of internal/migrator: a ladder whose first strategy declines, whose second fails after it
-- installed a release, and whose third succeeds.
use pv_migrate.Common.{
  ℕ, ◌++◌, ◌||◌, ◌&&◌, not, true, false, List, [], ◌∷◌, some, ◌≡◌, ◌⊎◌, refl, Bytes, codes, ok, err,
  str_eq,
}
use pv_migrate.Pvc.{size, Info, not_found, new}
use pv_migrate.Strategy.Mover.{check_mover_flags}
use pv_migrate.Migrator.{
  record_failed_attempt, Request, Attempt, AttemptError, declined_with, failure, mem, dedup,
  Outcome,
}
use pv_migrate.Migrator.Checks.{
  Side, get_cluster_clients, handle_sizes, build_migration, validate_pvcs, handle_mounted_pvcs,
  resolved_namespace,
}
use pv_migrate.Migrator.Checks.Sizes.{is_too_small, build_migration-ok}
use pv_migrate.Migrator.Ladder.{climb, run_attempt, new_attempt, after_run, finish, cleanup_attempt}
use pv_migrate.Migrator.Ladder.Exact.{attempted, names_of}
use pv_migrate.Migrator.Ladder.Protocol.{idle, follow, ends_well, is_success, climb-ends_well}
use pv_migrate.Migrator.Ladder.Cleanup.{any_removal, run_attempt-removes}
use pv_migrate.Opid.{validate}
use pv_migrate.Strategy.Topology.{Topology, resolve_topology}
use pv_migrate.Migrator.Run.{
  strategy_names, RunError, run, prepare, preflight, strategy_not_found, ladder_exhausted,
}
use pv_migrate.Migrator.Run.Ends.{all_known, run-succeeded, run-failed}
use pv_migrate.Migrator.Fixtures.{
  plain_ref, request, world, quantities, free_claim, cluster, site, free_info,
}

third-wins : (run site world request 0).result ≡ ok tt
unfolding run prepare preflight check_mover_flags get_cluster_clients build_migration new
    resolved_namespace handle_mounted_pvcs validate_pvcs handle_sizes climb run_attempt after_run
    finish cleanup_attempt dedup size
third-wins = refl

-- A run with a strategy that is none.
abbrev bad_request : Request
bad_request = record request { strategies = codes "teleport" ∷ [] }

bad_strategy-refused :
    (run site world bad_request 0).result ≡ err (strategy_not_found (codes "teleport"))
unfolding run prepare preflight check_mover_flags get_cluster_clients build_migration new
    resolved_namespace handle_mounted_pvcs validate_pvcs handle_sizes climb run_attempt after_run
    finish cleanup_attempt dedup size
bad_strategy-refused = refl

run-succeeded_example :
    (check_mover_flags [] [] ≡ ok tt)
    × (all_known request.strategies ≡ true)
    × ((claims : Info ℕ × Info ℕ) × (prepare site world request ≡ ok claims))
    × ((before : List Bytes) × (name : Bytes) × (rest : List Bytes) × (dedup request.strategies
          ≡ (before ++ name ∷ []) ++ rest)
        × (attempted (run site world request 0).events ≡ before ++ name ∷ []))
run-succeeded_example = run-succeeded site world request 0 third-wins

run-failed_example :
    ((attempted (run site world bad_request 0).events ≡ [])
      × ((run site world bad_request 0).world ≡ 0))
    ⊎ ((errors : List (Bytes × AttemptError)) × (rest : List Bytes) × (◌≡◌ {A = RunError Bytes}
          (strategy_not_found (codes "teleport"))
          (ladder_exhausted errors))
        × (dedup bad_request.strategies ≡ names_of errors ++ rest)
        × (attempted (run site world bad_request 0).events ≡ names_of errors)
        × ((rest ≡ []) ⊎ (world.is_cancelled (run site world bad_request 0).world ≡ true)))
run-failed_example = run-failed site world bad_request 0 bad_strategy-refused

abbrev three : List Bytes
three = codes "mount" ∷ codes "clusterip" ∷ codes "loadbalancer" ∷ []

abbrev two : List Bytes
two = codes "mount" ∷ codes "clusterip" ∷ []

abbrev winner : Attempt
winner = record {
  attempt_id = codes "able-cat";
  release_prefix = codes "pv-migrate-able-cat-loadbalancer";
  detached = false;
  release_names = codes "pv-migrate-able-cat-loadbalancer" ∷ [];
  diagnostics = [];
}

three-wins :
    (climb world request (codes "able-cat") [] three 0).result ≡ ok (codes "loadbalancer", winner)
unfolding climb run_attempt after_run finish cleanup_attempt new_attempt str_eq
three-wins = refl

abbrev lost : List Outcome
lost =
    record {
      strategy = codes "mount";
      is_declined = true;
      error = some (declined_with (codes "two clusters"));
      report = [];
    }
    ∷ record {
      strategy = codes "clusterip";
      is_declined = false;
      error = some (failure (codes "timeout"));
      report = codes "no pod is ready";
    }
    ∷ []

two-lose : (climb world request (codes "able-cat") [] two 0).result ≡ err lost
unfolding climb run_attempt after_run finish cleanup_attempt new_attempt record_failed_attempt
    str_eq
two-lose = refl

climb-ends_well_example :
    ends_well
      (is_success (climb world request (codes "able-cat") [] three 0).result)
      (follow idle (climb world request (codes "able-cat") [] three 0).events)
    ≡ true
climb-ends_well_example = climb-ends_well world request (codes "able-cat") three 0

run_attempt-removes_example :
    any_removal
      (run_attempt world request
        (codes "clusterip")
        false
        (new_attempt (codes "able-cat") (codes "clusterip"))
        0).events
    ≡ true
unfolding str_eq new_attempt
run_attempt-removes_example =
    run_attempt-removes world request (codes "clusterip") false
      (new_attempt (codes "able-cat") (codes "clusterip")) 0

abbrev keeping : Request
keeping = record request { no_cleanup = true }

abbrev side : ℕ → Side ℕ
side n = record {
  info = record (free_info (codes "data")) {
    claim = record (free_claim (codes "data")) { requested = n };
  };
  class_of = λ c. err not_found;
}

built :
    build_migration quantities cluster cluster (codes "db") (codes "db") (ok tt) request
    ≡ ok (free_info (codes "data"), free_info (codes "copy"))
unfolding build_migration new resolved_namespace handle_mounted_pvcs validate_pvcs handle_sizes size
built = refl

build_migration-ok_example :
    (new cluster (resolved_namespace plain_ref (codes "db")) (codes "data")
      ≡ ok (free_info (codes "data")))
    × (new cluster (resolved_namespace request.dest (codes "db")) (codes "copy")
        ≡ ok (free_info (codes "copy")))
    × (false || (true && true) ≡ true)
    × (true || false ≡ true)
    × (false
          || not (
              is_too_small quantities
                (record { info = free_info (codes "data"); class_of = cluster.provisioner_of })
                (record { info = free_info (codes "copy"); class_of = cluster.provisioner_of }))
        ≡ true)
build_migration-ok_example =
    build_migration-ok quantities cluster cluster (codes "db") (codes "db") (ok tt) request built

abbrev pulling : Topology ℕ
pulling = resolve_topology false false (free_info (codes "data")) (free_info (codes "copy"))

accepted_id : validate (codes "able-cat") ≡ ok tt
unfolding validate
accepted_id = refl

known_name : mem (codes "loadbalancer") strategy_names ≡ true
unfolding str_eq
known_name = refl
