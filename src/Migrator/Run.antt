-- ===== src/Migrator/Run.antt =====
-- The whole run of internal/migrator/migrator.go: the preflight, the clients, the checks and the
-- ladder.
pub mod Ends
pub mod Names
use pv_migrate.Common.{
  ℕ, ◌++◌, ◌||◌, Bool, true, false, List, [], ◌∷◌, Option, none, some, Bytes, codes, if◌then◌else◌,
  is_empty, Result, ok, err, ◌>>=◌, ◌>>◌, map_err,
}
use pv_migrate.Strategy.Mover.{MoverError, check_mover_flags}
use pv_migrate.Pvc.{Cluster, Info}
use pv_migrate.Migrator.{Request, Attempt, AttemptError, Outcome, exhausted_errors, mem, dedup}
use pv_migrate.Migrator.Checks.{Quantities, CheckError, get_cluster_clients, build_migration}
use pv_migrate.Migrator.Ladder.{World, Event, End, climb}

-- The keys of `nameToStrategy` of internal/strategy/strategy.go.
abbrev pub strategy_names : List Bytes
strategy_names =
    codes "mount" ∷ codes "clusterip" ∷ codes "loadbalancer" ∷ codes "local" ∷ codes "nodeport" ∷ []

-- `GetStrategiesMapForNames`, which refuses the first name that it does not know.
unfoldable pub get_strategies : List Bytes → Result Bytes (Unit {0})
get_strategies [] = ok tt
get_strategies (name ∷ names) =
    let rest = get_strategies names in if mem name strategy_names then rest else err name

pub data RunError (E : Type 0) : Type 0 where
  bad_flags : MoverError → RunError E
  strategy_not_found : Bytes → RunError E
  no_client : E → RunError E
  refused : CheckError → RunError E
  ladder_exhausted : List (Bytes × AttemptError) → RunError E

-- What `Run` finds before the ladder: how a client is made and what it answers, the chart, and the
-- identifier that would be generated.
pub record Site (q : Quantities) (C E : Type 0) : Type 1 where
  pub get_client : Bytes → Bytes → Result E C
  pub ns_in_context : C → Bytes
  pub cluster_of : C → Cluster q.Quantity
  pub chart : Result Bytes (Unit {0})
  pub generated_id : Bytes

-- The end of a run: the strategy that a detached run names, and the outcomes reported.
pub record Finish (E W : Type 0) : Type 0 where
  pub result : Result (RunError E) (Unit {0})
  pub events : List Event
  pub told_detached : Option Bytes
  pub reported : List Outcome
  pub world : W

-- `preflight`, less the default of the writer.
unfoldable pub preflight : {E : Type 0} → Request → Result (RunError E) (Unit {0})
unfolding get_strategies
preflight r = do
  map_err bad_flags (check_mover_flags r.mover r.rsync_extra_args)
  map_err strategy_not_found (get_strategies r.strategies)

module _ {q : Quantities} {C E W : Type 0} (site : Site q C E) (env : World W) where
  -- `Run` up to the ladder.
  unfoldable pub prepare : Request → Result (RunError E) (Info q.Quantity × Info q.Quantity)
  prepare r = do
    preflight r
    clients ← map_err no_client (get_cluster_clients site.get_client r)
    map_err refused (
        build_migration q (site.cluster_of clients.0) (site.cluster_of clients.1)
          (site.ns_in_context clients.0) (site.ns_in_context clients.1) site.chart r)

  abbrev pub migration_id : Request → Bytes
  migration_id r = if is_empty r.id then site.generated_id else r.id

  -- What `Run` makes of the ladder's end.
  abbrev pub conclude : Request → End W → Finish E W
  conclude r end = elim end.result [
    | ok p ↦ record {
      result = ok tt;
      events = end.events;
      told_detached = if r.detach then some p.0 else none;
      reported = [];
      world = end.world;
    }
    | err outcomes ↦ record {
      result = err (ladder_exhausted (exhausted_errors outcomes));
      events = end.events;
      told_detached = none;
      reported = outcomes;
      world = end.world;
    }
  ]

  -- `Run`
  unfoldable pub run : Request → W → Finish E W
  run r w = elim (prepare r) [
    | err e ↦ record { result = err e; events = []; told_detached = none; reported = []; world = w }
    | ok claims ↦ conclude r (climb env r (migration_id r) [] (dedup r.strategies) w)
  ]
