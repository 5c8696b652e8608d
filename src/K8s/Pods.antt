-- ===== src/K8s/Pods.antt =====
-- Pods and jobs as the code reads them, and the choice of one among those the cluster lists
-- (internal/k8s/job.go).
pub mod Terminal
pub mod Search
use pv_migrate.Common.{
  ◌++◌, ℕ, zero, suc, Bool, true, false, ◌&&◌, ◌||◌, not, List, [], ◌∷◌, Option, none, some, Bytes,
  codes, has_prefix, has_suffix, is_empty, Result, ok, err, if◌then◌else◌, ltb, str_eq,
}

pub data PodPhase : Type 0 where
  pending running succeeded failed unknown : PodPhase
  other_phase : Bytes → PodPhase

abbrev pub is_running : PodPhase → Bool
is_running running = true
is_running _ = false

abbrev pub is_succeeded : PodPhase → Bool
is_succeeded succeeded = true
is_succeeded _ = false

abbrev pub is_failed : PodPhase → Bool
is_failed failed = true
is_failed _ = false

pub record TerminatedState : Type 0 where
  pub exit_code : ℕ
  pub signal : ℕ
  pub reason : Bytes
  pub message : Bytes

pub record WaitingState : Type 0 where
  pub reason : Bytes
  pub message : Bytes

pub record ContainerStatus : Type 0 where
  pub name : Bytes
  pub terminated : Option TerminatedState
  pub waiting : Option WaitingState
  pub last_terminated : Option TerminatedState

-- A condition of a pod or a job; `status` is whether it is `True`.
pub record Condition : Type 0 where
  pub type : Bytes
  pub status : Bool
  pub message : Bytes

pub record Pod : Type 0 where
  pub uid : Bytes
  pub namespace : Bytes
  pub name : Bytes
  pub phase : PodPhase
  pub reason : Bytes
  pub message : Bytes
  pub conditions : List Condition
  pub container_statuses : List ContainerStatus

pub record Job : Type 0 where
  pub uid : Bytes
  pub namespace : Bytes
  pub name : Bytes
  pub images : List Bytes
  pub active : ℕ
  pub succeeded : ℕ
  pub failed : ℕ
  pub conditions : List Condition

-- The first running pod.
abbrev pub first_running : List Pod → Option Pod
first_running [] = none
first_running (p ∷ ps) = if is_running p.phase then some p else first_running ps

-- `FindJobPod`
unfoldable pub find_job_pod : Bytes → Result Bytes (List Pod) → Result Bytes Pod
find_job_pod job_name (err e) =
    err (codes "failed to list pods for job " ++ (job_name ++ (codes ": " ++ e)))
find_job_pod job_name (ok pods) = elim (first_running pods) [
  | some p ↦ ok p
  | none ↦ elim pods [ [] ↦ err (codes "no pods found for job " ++ job_name) | p ∷ ps ↦ ok p ]
]

abbrev pub rsync_job_suffix : Bytes
rsync_job_suffix = codes "-rsync"

abbrev pub rclone_job_suffix : Bytes
rclone_job_suffix = codes "-rclone"

abbrev pub tar_job_suffix : Bytes
tar_job_suffix = codes "-tar"

abbrev pub job_suffixes : List Bytes
job_suffixes = rsync_job_suffix ∷ rclone_job_suffix ∷ tar_job_suffix ∷ []

abbrev pub has_some_suffix : Bytes → List Bytes → Bool
has_some_suffix s [] = false
has_some_suffix s (x ∷ xs) = has_suffix s x || has_some_suffix s xs

-- The first listed job of the release that a data mover's suffix ends.
unfoldable pub first_mover : Bytes → List Job → Option Job
first_mover release_prefix [] = none
first_mover release_prefix (j ∷ js) =
    if not (has_prefix j.name release_prefix)
    then first_mover release_prefix js
    else if has_some_suffix j.name job_suffixes
    then some j
    else first_mover release_prefix js

-- `FindDataMoverJob`, whose call of itself with no namespace is counted by fuel; `list_jobs` lists the
-- jobs that Helm manages in a namespace, or in all of them.
unfoldable pub find_data_mover_job :
    (list_jobs : Bytes → Result Bytes (List Job)) → ℕ → Bytes → Bytes → Option (Result Bytes Job)
find_data_mover_job list_jobs zero ns release_prefix = none
find_data_mover_job list_jobs (suc fuel) ns release_prefix =
    let everywhere = find_data_mover_job list_jobs fuel [] release_prefix in
    elim (list_jobs ns) [
      | err e ↦ some (err (codes "failed to list jobs: " ++ e))
      | ok jobs ↦ elim (first_mover release_prefix jobs) [
        | some j ↦ some (ok j)
        | none ↦
            if not (is_empty ns)
            then everywhere
            else some (err (codes "no job found for migration " ++ release_prefix))
      ]
    ]

-- `JobImage`
unfoldable pub job_image : Result Bytes Job → Bytes
job_image (err e) = codes "unknown"
job_image (ok j) = elim j.images [ [] ↦ codes "unknown" | image ∷ images ↦ image ]

-- The loop of `findTerminalJobPod`: none when it meets a pod that has not ended.
unfoldable pub terminal_from : Option Pod → List Pod → Option (Option Pod)
terminal_from terminal [] = some terminal
terminal_from terminal (p ∷ ps) = elim p.phase [
  | pending ↦ none
  | running ↦ none
  | succeeded ↦ terminal_from (some p) ps
  | failed ↦ terminal_from (elim terminal [ none ↦ some p | some t ↦ some t ]) ps
  | unknown ↦ terminal_from terminal ps
  | other_phase phase ↦ terminal_from terminal ps
]

abbrev pub any_pods : List Pod → Bool
any_pods [] = false
any_pods (p ∷ ps) = true

-- `findTerminalJobPod`: the pod, if one is over, and whether there are any.
unfoldable pub find_terminal_job_pod :
    Bytes → Result Bytes (List Pod) → Result Bytes (Option Pod × Bool)
find_terminal_job_pod job_name (err e) =
    err (codes "failed to list pods for job " ++ (job_name ++ (codes ": " ++ e)))
find_terminal_job_pod job_name (ok pods) = elim (terminal_from none pods) [
  | none ↦ ok (none, true)
  | some terminal ↦ ok (terminal, any_pods pods)
]

-- The message of the first condition that says why the job failed.
abbrev pub failed_message : List Condition → Bytes
failed_message [] = []
failed_message (c ∷ cs) =
    if str_eq c.type (codes "Failed") && c.status && not (is_empty c.message)
    then codes ": " ++ c.message
    else failed_message cs

-- `finishedJobWithoutPods`: none while the job is not known to be over, and its errors otherwise.
unfoldable pub finished_job_without_pods : Bytes → Bytes → Result Bytes Job → Option (List Bytes)
finished_job_without_pods ns name (err e) = none
finished_job_without_pods ns name (ok j) =
    if ltb 0 j.succeeded
    then some []
    else if ltb 0 j.failed
    then some (
        (codes "job "
          ++ (ns
              ++ (codes "/"
                  ++ (name
                      ++ (codes " failed and its pod is gone" ++ failed_message j.conditions)))))
        ∷ [])
    else none
