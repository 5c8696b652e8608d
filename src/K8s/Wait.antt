-- ===== src/K8s/Wait.antt =====
-- The wait for a job (internal/k8s/job.go). What the cluster and the progress logger answer is a record;
-- the result is what was done in its order, and the errors that are joined.
pub mod Order
pub mod Errors
use pv_migrate.Common.{
  ◌++◌, ℕ, Bool, true, false, ◌&&◌, not, List, [], ◌∷◌, Option, none, some, Bytes, codes, is_empty,
  Result, ok, err, if◌then◌else◌,
}
use pv_migrate.K8s.Pods.{
  Pod, Job, find_terminal_job_pod, finished_job_without_pods, is_running, is_succeeded,
}
use pv_migrate.K8s.Exit.{failed_pod_error}
use pv_migrate.K8s.Tail.{JsonRecord, recent_pod_logs, warn_if_source_files_vanished, write_tail}

-- What is asked once in a wait, and answered: the job's pods, the job, `WaitForPod`,
-- `waitForPodTermination`, the failed pod read again, its log's tail; the follower's error and whether it
-- drew the bar; the error of `MarkAsComplete`.
pub record Answers : Type 0 where
  pub pods : Result Bytes (List Pod)
  pub job : Result Bytes Job
  pub started : Result Bytes Pod
  pub final : Result Bytes Pod
  pub fresh : Result Bytes Pod
  pub log : Option Bytes
  pub follow : List Bytes
  pub rendered : Bool
  pub mark : Option Bytes

pub record Options : Type 0 where
  pub ns : Bytes
  pub name : Bytes
  pub show_progress_bar : Bool
  pub structured_logs : Bool
  pub dim : Bytes → Bytes
  pub unmarshal : Bytes → Option JsonRecord

pub data Event : Type 0 where
  follower_started : Event
  follower_joined : Event
  bar_line_ended : Event
  bar_finished : Event
  tail_written : Bytes → Event
  tail_logged : Bytes → Event
  vanished_warned : Option ℕ → Event

abbrev pub Errors : Type 0
Errors = List Bytes

-- `showBar`
abbrev pub show_bar : Bool → Bool → Bool
show_bar requested structured_logs = requested && not structured_logs

-- `writeFailureTail`
unfoldable pub write_failure_tail : Answers → Options → Pod → List Event
write_failure_tail answers options pod =
    let tail = recent_pod_logs answers.log in
    if is_empty tail
    then []
    else if options.structured_logs
    then tail_logged tail ∷ []
    else tail_written (write_tail options.dim options.unmarshal pod options.name tail) ∷ []

abbrev pub vanished_warning : Bytes → List Event
vanished_warning tail = elim (warn_if_source_files_vanished tail) [
  | none ↦ []
  | some count ↦ vanished_warned count ∷ []
]

-- `finishTerminalPod`
unfoldable pub finish_terminal_pod : Answers → Options → Pod → List Event × Errors
finish_terminal_pod answers options pod =
    if not (is_succeeded pod.phase)
    then (
      write_failure_tail answers options pod,
      failed_pod_error answers.fresh options.name pod ∷ [],
    )
    else (vanished_warning (recent_pod_logs answers.log), [])

-- What `resolveRunningJobPod` comes to: a wait that is over, or a pod to follow.
pub data Resolution : Type 0 where
  handled : List Event × Errors → Resolution
  follow_pod : Pod → Resolution

abbrev pub start_job : Answers → Options → Resolution
start_job answers options = elim answers.started [
  | err e ↦ handled ([], e ∷ [])
  | ok pod ↦
      if not (is_running pod.phase)
      then handled (finish_terminal_pod answers options pod)
      else follow_pod pod
]

-- `resolveRunningJobPod`
unfoldable pub resolve_running_job_pod : Answers → Options → Resolution
resolve_running_job_pod answers options = elim (find_terminal_job_pod options.name answers.pods) [
  | err e ↦ handled ([], e ∷ [])
  | ok (some pod, any) ↦ handled (finish_terminal_pod answers options pod)
  | ok (none, true) ↦ start_job answers options
  | ok (none, false) ↦ elim (finished_job_without_pods options.ns options.name answers.job) [
    | some errs ↦ handled ([], errs)
    | none ↦ start_job answers options
  ]
]

-- The variables `stopFollower` reads.
pub record Follower : Type 0 where
  pub stopped : Bool
  pub bar_open : Bool

abbrev pub new_follower : Bool → Follower
new_follower shown = record { stopped = false; bar_open = shown }

-- `stopFollower`
unfoldable pub stop_follower : Answers → Follower → (List Event × Errors) × Follower
stop_follower answers f = if f.stopped then (([], []), f) else (
  (
    follower_joined ∷ (if f.bar_open && answers.rendered then bar_line_ended ∷ [] else []),
    answers.follow,
  ),
  record f { stopped = true },
)

-- The body of `WaitForJobCompletion` behind the start of the follower, with what it leaves for the
-- deferred call.
unfoldable pub follow_job : Answers → Options → Follower → (List Event × Errors) × Follower
follow_job answers options f = elim answers.final [
  | err e ↦ (([], e ∷ []), f)
  | ok final_pod ↦
      if not (is_succeeded final_pod.phase)
      then (let stop = stop_follower answers f in
          (
            (
              stop.0.0 ++ write_failure_tail answers options final_pod,
              failed_pod_error answers.fresh options.name final_pod ∷ stop.0.1,
            ),
            stop.1,
          ))
      else elim answers.mark [
        | some e ↦ (([], (codes "failed to mark progress logger as complete: " ++ e) ∷ []), f)
        | none ↦
            let stop = stop_follower answers (record f { bar_open = false }) in
            elim stop.0.1 [
              | e ∷ errs ↦ ((stop.0.0, e ∷ errs), stop.1)
              | [] ↦ (
                (stop.0.0 ++ (bar_finished ∷ vanished_warning (recent_pod_logs answers.log)), []),
                stop.1,
              )
            ]
      ]
]

-- `WaitForJobCompletion`: what it does and the errors it returns; none is its `nil`.
unfoldable pub wait_for_job_completion : Answers → Options → List Event × Errors
wait_for_job_completion answers options = elim (resolve_running_job_pod answers options) [
  | handled result ↦ result
  | follow_pod pod ↦
      let f : Follower = record {
        stopped = false;
        bar_open = show_bar options.show_progress_bar options.structured_logs;
      } in
      let body = follow_job answers options f in
      let deferred = stop_follower answers body.1 in
      (follower_started ∷ (body.0.0 ++ deferred.0.0), body.0.1 ++ deferred.0.1)
]
