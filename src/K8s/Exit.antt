-- ===== src/K8s/Exit.antt =====
-- What is said of a failed pod: the terminated state of the data mover's own container, or what the
-- pod's status says (internal/k8s/exitcode.go).
pub mod Names
use pv_migrate.Common.{
  ◌++◌, ℕ, Bool, true, false, ◌&&◌, ◌||◌, not, List, [], ◌∷◌, Option, none, some, Bytes, codes,
  has_suffix, is_empty, Result, ok, err, if◌then◌else◌, str_eq, join, trim_space, itoa_ℕ, ◌==◌,
}
use pv_migrate.K8s.Pods.{
  Pod, Job, ContainerStatus, TerminatedState, rsync_job_suffix, rclone_job_suffix, tar_job_suffix,
  is_failed, find_terminal_job_pod,
}
use pv_migrate.Rsync as rsync
use pv_migrate.Rclone as rclone
use pv_migrate.Archive as archive

-- `dataMoverContainer`
unfoldable pub data_mover_container : Bytes → Bytes
data_mover_container job_name =
    if has_suffix job_name rsync_job_suffix
    then codes "rsync"
    else if has_suffix job_name rclone_job_suffix || has_suffix job_name tar_job_suffix
    then codes "rclone"
    else []

-- `interpretExitCode`
unfoldable pub interpret_exit_code : Bytes → ℕ → Bytes
interpret_exit_code job_name code =
    if has_suffix job_name rsync_job_suffix
    then rsync.interpret code
    else if has_suffix job_name rclone_job_suffix
    then rclone.interpret code
    else if has_suffix job_name tar_job_suffix
    then archive.interpret code
    else []

-- The first terminated container of the name.
abbrev pub terminated_named : Bytes → List ContainerStatus → Option TerminatedState
terminated_named name [] = none
terminated_named name (s ∷ ss) = elim s.terminated [
  | none ↦ terminated_named name ss
  | some t ↦ if str_eq s.name name then some t else terminated_named name ss
]

-- The first terminated container.
abbrev pub first_terminated : List ContainerStatus → Option TerminatedState
first_terminated [] = none
first_terminated (s ∷ ss) = elim s.terminated [ none ↦ first_terminated ss | some t ↦ some t ]

-- `terminatedContainerState`
unfoldable pub terminated_container_state : Pod → Bytes → Option TerminatedState
terminated_container_state pod job_name =
    let name = data_mover_container job_name in
    if not (is_empty name)
    then terminated_named name pod.container_statuses
    else first_terminated pod.container_statuses

-- `parts = append(parts, label+text)` where there is a text.
abbrev pub labelled : Bytes → Bytes → List Bytes
labelled label text = if is_empty text then [] else (label ++ text) ∷ []

abbrev pub generic_termination_reason : Bytes
generic_termination_reason = codes "Error"

-- `describeTerminated`
unfoldable pub describe_terminated : Bytes → TerminatedState → Bytes
describe_terminated job_name t =
    let parts =
      (codes "the data mover exited with code " ++ itoa_ℕ t.exit_code)
      ∷ ((if t.signal == 0 then [] else (codes "killed by signal " ++ itoa_ℕ t.signal) ∷ [])
          ++ ((if str_eq t.reason generic_termination_reason
                then []
                else labelled (codes "reason: ") t.reason)
              ++ labelled (codes "message: ") (trim_space t.message))) in
    let meaning = interpret_exit_code job_name t.exit_code in
    join (codes ", ") parts
    ++ (if is_empty meaning then [] else codes " (" ++ (meaning ++ codes ")"))

-- `podStatusDetail`
unfoldable pub pod_status_detail : Pod → Bytes
pod_status_detail pod =
    let parts =
      labelled (codes "reason: ") pod.reason
      ++ labelled (codes "message: ") (trim_space pod.message) in
    elim parts [ [] ↦ [] | p ∷ ps ↦ codes ": " ++ join (codes ", ") (p ∷ ps) ]

-- `failedPodError`; `fresh` is the pod as it is read again.
unfoldable pub failed_pod_error : (fresh : Result Bytes Pod) → Bytes → Pod → Bytes
failed_pod_error fresh job_name pod =
    let said : Pod → Option TerminatedState → Bytes = λ p terminated.
      codes "pod "
      ++ (p.namespace
          ++ (codes "/"
              ++ (p.name ++ elim terminated [
                | none ↦ codes " failed" ++ pod_status_detail p
                | some t ↦ codes " failed: " ++ describe_terminated job_name t
              ]))) in
    elim (terminated_container_state pod job_name) [
      | some t ↦ said pod (some t)
      | none ↦ elim fresh [
        | err e ↦ said pod none
        | ok p ↦ said p (terminated_container_state p job_name)
      ]
    ]

-- `DescribeJobFailure`
unfoldable pub describe_job_failure :
    (fresh : Result Bytes Pod) → Result Bytes (List Pod) → Job → Bytes
describe_job_failure fresh pods j = elim (find_terminal_job_pod j.name pods) [
  | err e ↦ []
  | ok (none, some_pods) ↦ []
  | ok (some p, some_pods) ↦ if is_failed p.phase then failed_pod_error fresh j.name p else []
]
