-- ===== src/K8s/Watch.antt =====
-- The waits for a pod (internal/k8s/pod.go), over the events a watch delivers in their order: a pod, or an
-- object that is none. Getting events, and the end of a watch that is not met by one, are client-go's.
pub mod First
use pv_migrate.Common.{
  ◌++◌, Bool, true, false, ◌&&◌, ◌||◌, not, List, [], ◌∷◌, Option, none, some, Bytes, codes,
  is_empty, Result, ok, err, if◌then◌else◌, str_eq, join, trim_space,
}
use pv_migrate.K8s.Pods.{
  Pod, PodPhase, pending, is_running, Condition, ContainerStatus, WaitingState,
}

-- `podStarted`
abbrev pub pod_started : Pod → Bool
pod_started pod = elim pod.phase [ pending ↦ false | _ ↦ true ]

abbrev some_ready : List Condition → Bool
some_ready [] = false
some_ready (c ∷ cs) = if str_eq c.type (codes "Ready") && c.status then true else some_ready cs

-- `podReady`
unfoldable pub pod_ready : Pod → Bool
pod_ready pod = some_ready pod.conditions

-- `benignWaitingReasons`
abbrev pub is_benign : Bytes → Bool
is_benign reason =
    str_eq reason (codes "ContainerCreating") || str_eq reason (codes "PodInitializing")

-- `describeWaiting`
unfoldable pub describe_waiting : WaitingState → Bytes
describe_waiting w =
    let message = trim_space w.message in
    if not (is_empty message) then w.reason ++ (codes ": " ++ message) else w.reason

-- The texts of the containers that wait for a reason that is not benign.
abbrev pub waiting_parts : List ContainerStatus → List Bytes
waiting_parts [] = []
waiting_parts (s ∷ ss) = elim s.waiting [
  | none ↦ waiting_parts ss
  | some w ↦
      if is_empty w.reason || is_benign w.reason
      then waiting_parts ss
      else (s.name ++ (codes ": " ++ describe_waiting w)) ∷ waiting_parts ss
]

-- `describePodWaiting`
unfoldable pub describe_pod_waiting : Pod → Bytes
describe_pod_waiting pod = join (codes ", ") (waiting_parts pod.container_statuses)

-- How the watch ends when the condition never holds: its error, and whether the time is over.
pub record WatchEnd : Type 0 where
  pub error : Bytes
  pub expired : Bool

abbrev pub PodEvent : Type 0
PodEvent = Option Pod

-- The part of a wait that differs between its callers.
pub record Wait : Type 0 where
  pub ns : Bytes
  pub label_selector : Bytes
  pub timeout : Bytes
  pub done : Pod → Bool

abbrev pub wait_error : Wait → WatchEnd → Bytes
wait_error w end =
    if end.expired
    then codes "timed out after "
      ++ (w.timeout
          ++ (codes " waiting for a pod (selector "
              ++ (w.label_selector ++ (codes "): " ++ end.error))))
    else codes "failed to wait for pod: " ++ end.error

abbrev pub type_error : Wait → Bytes
type_error w =
    codes "unexpected type while watching pods: ns: "
    ++ (w.ns ++ (codes ", labelSelector: " ++ w.label_selector))

-- `waitForPod` behind the first events: the reasons it warns of and the pod; `last_waiting` is the last
-- that it warned of.
unfoldable pub wait_for_pod :
    Wait → WatchEnd → (last_waiting : Bytes) → List PodEvent → List Bytes × Result Bytes Pod
wait_for_pod w end last_waiting [] = ([], err (wait_error w end))
wait_for_pod w end last_waiting (none ∷ events) =
    ([], err (codes "failed to wait for pod: " ++ type_error w))
wait_for_pod w end last_waiting (some pod ∷ events) =
    let waiting = describe_pod_waiting pod in
    let warned = not (is_empty waiting) && not (str_eq waiting last_waiting) in
    let later = wait_for_pod w end (if warned then waiting else last_waiting) events in
    let warning = if warned then waiting ∷ [] else [] in
    if w.done pod then (warning, ok pod) else (warning ++ later.0, later.1)

-- The watch of `waitForPodTermination`.
unfoldable pub until_terminated : Bytes → Bytes → WatchEnd → List PodEvent → Result Bytes Pod
until_terminated ns name end [] = err (codes "failed to wait for pod termination: " ++ end.error)
until_terminated ns name end (none ∷ events) = err (
    codes "failed to wait for pod termination: unexpected type while watching pods: "
    ++ (ns ++ (codes "/" ++ name)))
until_terminated ns name end (some pod ∷ events) =
    if not (is_running pod.phase) then ok pod else until_terminated ns name end events

-- `waitForPodTermination`: the pod is read, and watched while it runs.
unfoldable pub wait_for_pod_termination :
    Bytes → Bytes → Result Bytes Pod → WatchEnd → List PodEvent → Result Bytes Pod
wait_for_pod_termination ns name (err e) end events = err (codes "failed to get pod: " ++ e)
wait_for_pod_termination ns name (ok pod) end events =
    if not (is_running pod.phase) then ok pod else until_terminated ns name end events
