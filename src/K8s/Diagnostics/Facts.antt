-- ===== src/K8s/Diagnostics/Facts.antt =====
-- What is said of one resource (internal/k8s/diagnostics.go).
use pv_migrate.Common.{
  ◌++◌, ℕ, Bool, false, ◌&&◌, not, List, [], ◌∷◌, none, some, Bytes, codes, is_empty, if◌then◌else◌,
  str_eq, join, itoa_ℕ, ltb, trim_space, cut_prefix, ◌==◌,
}
use pv_migrate.Console.{Palette, dim, warn, bad, good}
use pv_migrate.K8s.Exit.{generic_termination_reason, labelled}
use pv_migrate.K8s.Pods.{
  Pod, PodPhase, pending, running, succeeded, failed, unknown, other_phase, Job, ContainerStatus,
  TerminatedState,
}
use pv_migrate.K8s.Service.{Service, Ingress, load_balancer}
use pv_migrate.K8s.Watch.{describe_waiting}

-- `workloadFacts`
pub record WorkloadFacts : Type 0 where
  pub uid : Bytes
  pub kind : Bytes
  pub name : Bytes
  pub title : Bytes
  pub details : List Bytes
  pub quiet : Bool
  pub bare_title : Bytes

pub record Deployment : Type 0 where
  pub uid : Bytes
  pub name : Bytes
  pub ready_replicas : ℕ
  pub replicas : ℕ

pub record ReplicaSet : Type 0 where
  pub uid : Bytes
  pub name : Bytes
  pub ready_replicas : ℕ
  pub replicas : ℕ

-- An event: the object it is about, and whether its type is the one for warnings.
pub record EventRecord : Type 0 where
  pub uid : Bytes
  pub is_warning : Bool
  pub reason : Bytes
  pub message : Bytes
  pub count : ℕ

-- `describeTerminatedBriefly`
unfoldable pub describe_terminated_briefly : TerminatedState → Bytes
describe_terminated_briefly t = join (codes ", ") (
    (codes "exit code " ++ itoa_ℕ t.exit_code)
    ∷ ((if t.signal == 0 then [] else (codes "signal " ++ itoa_ℕ t.signal) ∷ [])
        ++ ((if str_eq t.reason generic_termination_reason
              then []
              else labelled (codes "reason: ") t.reason)
            ++ labelled (codes "message: ") (trim_space t.message))))

-- `colorPhase`
unfoldable pub color_phase : Palette → PodPhase → Bytes
color_phase p failed = bad p (codes "Failed")
color_phase p pending = warn p (codes "Pending")
color_phase p unknown = warn p (codes "Unknown")
color_phase p running = good p (codes "Running")
color_phase p succeeded = good p (codes "Succeeded")
color_phase p (other_phase phase) = phase

-- What one container's status adds.
abbrev pub container_details : Palette → ContainerStatus → List Bytes
container_details p s = elim s.waiting [
  | some w ↦
      warn p (codes "container " ++ (s.name ++ (codes " waiting: " ++ describe_waiting w)))
      ∷ (elim s.last_terminated [
        | none ↦ []
        | some t ↦
            warn p (
              codes "container "
              ++ (s.name ++ (codes " previously terminated: " ++ describe_terminated_briefly t)))
            ∷ []
      ])
  | none ↦ elim s.terminated [
    | none ↦ []
    | some t ↦
        (let line =
            codes "container "
            ++ (s.name ++ (codes " terminated: " ++ describe_terminated_briefly t)) in
          if not (t.exit_code == 0) then bad p line else dim p line)
        ∷ []
  ]
]

abbrev all_details : Palette → List ContainerStatus → List Bytes
all_details p [] = []
all_details p (s ∷ ss) = container_details p s ++ all_details p ss

-- `podFacts`
unfoldable pub pod_facts : Palette → Pod → WorkloadFacts
pod_facts p pod = record {
  uid = pod.uid;
  kind = codes "pod";
  name = pod.name;
  title = codes "pod " ++ (pod.name ++ (codes ": " ++ color_phase p pod.phase));
  details = all_details p pod.container_statuses;
  quiet = false;
  bare_title = [];
}

abbrev pub addresses : List Ingress → List Bytes
addresses [] = []
addresses (i ∷ rest) =
    (if is_empty i.ip then [] else i.ip ∷ [])
    ++ ((if is_empty i.hostname then [] else i.hostname ∷ []) ++ addresses rest)

-- `serviceFacts`
unfoldable pub service_facts : Palette → Service → WorkloadFacts
service_facts p s = record {
  uid = s.uid;
  kind = codes "service";
  name = s.name;
  title = dim p (codes "service " ++ (s.name ++ (codes ": " ++ s.type)));
  details =
      if str_eq s.type load_balancer
      then elim (addresses s.ingress) [
        | [] ↦ bad p (codes "no external address assigned") ∷ []
        | a ∷ rest ↦ good p (codes "external address: " ++ join (codes ", ") (a ∷ rest)) ∷ []
      ]
      else [];
  quiet = false;
  bare_title = [];
}

-- `jobFacts`
unfoldable pub job_facts : Palette → Job → WorkloadFacts
job_facts p j =
    let title =
      codes "job "
      ++ (j.name
          ++ (codes ": "
              ++ (itoa_ℕ j.active
                  ++ (codes " active, "
                      ++ (itoa_ℕ j.succeeded
                          ++ (codes " succeeded, " ++ (itoa_ℕ j.failed ++ codes " failed"))))))) in
    record {
      uid = j.uid;
      kind = codes "job";
      name = j.name;
      title =
          if ltb 0 j.failed
          then bad p title
          else if ltb 0 j.succeeded
          then good p title
          else dim p title;
      details = [];
      quiet = (j.succeeded == 0) && (j.failed == 0);
      bare_title = dim p (codes "job " ++ (j.name ++ codes ":"));
    }

-- `colorReadiness`
unfoldable pub color_readiness : Palette → Bytes → ℕ → ℕ → Bytes
color_readiness p line ready desired =
    if ltb 0 desired && ltb ready desired
    then warn p line
    else if ltb 0 desired
    then good p line
    else dim p line

abbrev readiness : Bytes → Bytes → ℕ → ℕ → Bytes
readiness kind name ready desired =
    kind
    ++ (name ++ (codes ": " ++ (itoa_ℕ ready ++ (codes "/" ++ (itoa_ℕ desired ++ codes " ready")))))

-- `deploymentFacts`
unfoldable pub deployment_facts : Palette → Deployment → WorkloadFacts
deployment_facts p d = record {
  uid = d.uid;
  kind = codes "deployment";
  name = d.name;
  title =
      color_readiness p (readiness (codes "deployment ") d.name d.ready_replicas d.replicas)
        d.ready_replicas d.replicas;
  details = [];
  quiet = false;
  bare_title = [];
}

-- `replicaSetFacts`
unfoldable pub replica_set_facts : Palette → ReplicaSet → WorkloadFacts
replica_set_facts p r = record {
  uid = r.uid;
  kind = codes "replicaset";
  name = r.name;
  title =
      color_readiness p (readiness (codes "replicaset ") r.name r.ready_replicas r.replicas)
        r.ready_replicas r.replicas;
  details = [];
  quiet = false;
  bare_title = [];
}

-- `formatEvent`
unfoldable pub format_event : EventRecord → Bytes
format_event e =
    let trimmed = trim_space e.message in
    let message : Bytes = elim (cut_prefix trimmed (codes "Error: ")) [
      | none ↦ trimmed
      | some rest ↦ rest
    ] in
    codes "warning "
    ++ (e.reason
        ++ (codes ": "
            ++ (message
                ++ (if ltb 1 e.count then codes " (x" ++ (itoa_ℕ e.count ++ codes ")") else []))))
