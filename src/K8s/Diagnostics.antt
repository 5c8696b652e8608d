-- ===== src/K8s/Diagnostics.antt =====
-- What a cluster reports of a release's resources (internal/k8s/diagnostics.go). The lists that the API
-- returns or refuses are arguments.
pub mod Facts
pub mod Shadowed
pub mod EventCap
use pv_migrate.Common.{
  ◌++◌, ℕ, Bool, true, false, ◌&&◌, ◌||◌, not, List, [], ◌∷◌, Option, none, some, Bytes, codes,
  is_empty, Result, ok, err, if◌then◌else◌, str_eq, join, itoa_ℕ, ltb, leb, length, has_prefix,
  ◌==◌, drop, map,
}
use pv_migrate.Console.{Palette, dim, warn}
use pv_migrate.K8s.Diagnostics.Facts.{
  WorkloadFacts, Deployment, ReplicaSet, pod_facts, service_facts, job_facts, deployment_facts,
  replica_set_facts, EventRecord, format_event,
}
use pv_migrate.K8s.Pods.{Pod, Job}
use pv_migrate.K8s.Service.{Service}

abbrev max_events_per_object : ℕ
max_events_per_object = 3

-- The map of the events by the object they are about.
abbrev pub ByUid : Type 0
ByUid = Bytes → List Bytes

abbrev pub no_events : ByUid
no_events uid = []

-- `byUID[uid] = append(byUID[uid], line)`
abbrev pub append_at : Bytes → Bytes → ByUid → ByUid
append_at uid line by_uid other =
    if str_eq other uid then by_uid other ++ (line ∷ []) else by_uid other

-- The loop of `warningEventsByUID`.
unfoldable pub events_from : ByUid → List EventRecord → ByUid
events_from by_uid [] = by_uid
events_from by_uid (e ∷ es) =
    if not e.is_warning || (is_empty e.uid || leb max_events_per_object (length (by_uid e.uid)))
    then events_from by_uid es
    else events_from (append_at e.uid (format_event e) by_uid) es

-- `warningEventsByUID`
unfoldable pub warning_events_by_uid : Result Bytes (List EventRecord) → ByUid
warning_events_by_uid (err e) = no_events
warning_events_by_uid (ok es) = events_from no_events es

-- `hasPodOfWorkload`
unfoldable pub has_pod_of_workload : Bytes → List WorkloadFacts → Bool
has_pod_of_workload name [] = false
has_pod_of_workload name (f ∷ fs) =
    (str_eq f.kind (codes "pod") && has_prefix f.name (name ++ codes "-"))
    || has_pod_of_workload name fs

-- The fact as it is kept: one that is kept for its events alone has no counters.
abbrev pub kept_fact : ByUid → WorkloadFacts → WorkloadFacts
kept_fact events f =
    if f.quiet && (ltb 0 (length (events f.uid)) && not (is_empty f.bare_title))
    then record f { title = f.bare_title }
    else f

-- The loop of `dropShadowedQuietFacts`, which keeps the facts in the array it reads: what it has kept so
-- far stands over the first of the facts.
unfoldable pub drop_shadowed_from :
    ByUid → (facts kept rest : List WorkloadFacts) → List WorkloadFacts
drop_shadowed_from events facts kept [] = kept
drop_shadowed_from events facts kept (f ∷ fs) =
    let array = kept ++ drop (length kept) facts in
    if f.quiet && (length (events f.uid) == 0 && has_pod_of_workload f.name array)
    then drop_shadowed_from events facts kept fs
    else drop_shadowed_from events facts (kept ++ (kept_fact events f ∷ [])) fs

-- `dropShadowedQuietFacts`
unfoldable pub drop_shadowed_quiet_facts : List WorkloadFacts → ByUid → List WorkloadFacts
drop_shadowed_quiet_facts facts events = drop_shadowed_from events facts [] facts

-- What the API answers.
pub record Listing : Type 0 where
  pub pods : Result Bytes (List Pod)
  pub services : Result Bytes (List Service)
  pub jobs : Result Bytes (List Job)
  pub deployments : Result Bytes (List Deployment)
  pub replica_sets : Result Bytes (List ReplicaSet)
  pub events : Result Bytes (List EventRecord)

abbrev pub facts_of {ℓ} :
    {A : Type ℓ} → (A → WorkloadFacts) → Result Bytes (List A) → List WorkloadFacts
facts_of f (err e) = []
facts_of f (ok xs) = map f xs

abbrev pub is_listed {ℓ} : {A : Type ℓ} → Result Bytes A → Bool
is_listed (err e) = false
is_listed (ok x) = true

-- `listWorkloads`
unfoldable pub list_workloads : Palette → Listing → List WorkloadFacts × Bool
list_workloads p l = (
  facts_of (pod_facts p) l.pods
      ++ (facts_of (service_facts p) l.services
          ++ (facts_of (job_facts p) l.jobs
              ++ (facts_of (deployment_facts p) l.deployments
                  ++ facts_of (replica_set_facts p) l.replica_sets))),
  is_listed l.pods
      || (is_listed l.services
          || (is_listed l.jobs || (is_listed l.deployments || is_listed l.replica_sets))),
)

abbrev indented_lines : (Bytes → Bytes) → List Bytes → Bytes
indented_lines colour [] = []
indented_lines colour (line ∷ lines) =
    codes "      " ++ (colour line ++ (10 ∷ indented_lines colour lines))

abbrev pub object_lines : Palette → ByUid → List WorkloadFacts → Bytes
object_lines p events [] = []
object_lines p events (f ∷ fs) =
    codes "    "
    ++ (f.title
        ++ (10
            ∷ (indented_lines (λ line. line) f.details
                ++ (indented_lines (warn p) (events f.uid) ++ object_lines p events fs))))

-- `WriteWorkloadDiagnostics`
unfoldable pub write_workload_diagnostics : Palette → Listing → Bytes
write_workload_diagnostics p l =
    let (objects, listed_any) = list_workloads p l in
    let events = warning_events_by_uid l.events in
    if not listed_any
    then codes "    " ++ (warn p (codes "Could not read the cluster's resources") ++ (10 ∷ []))
    else elim objects [
      | [] ↦ codes "    " ++ (dim p (codes "no resources found") ++ (10 ∷ []))
      | f ∷ fs ↦ object_lines p events (drop_shadowed_quiet_facts (f ∷ fs) events)
    ]
