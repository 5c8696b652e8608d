-- ===== src/K8s/Tests.antt =====
-- Tests and examples of the waits on a cluster.
use pv_migrate.K8s.Tail.Marks.{IsUnmarked, read_shown, read_mark, is_blank}
use pv_migrate.Rsync.{interpret}
use pv_migrate.Common.{
  ◌++◌, true, false, List, [], ◌∷◌, none, some, Bytes, codes, Result, ok, err, ◌≡◌, refl, map,
  str_eq, if◌then◌else◌, is_empty, has_prefix, has_suffix, join, itoa_ℕ, trim_space, replace_byte,
  All, min, cut_prefix,
}
use pv_migrate.K8s.Diagnostics.{
  Listing, list_workloads, drop_shadowed_quiet_facts, no_events, drop_shadowed_from,
  has_pod_of_workload,
}
use pv_migrate.K8s.Diagnostics.Facts.{EventRecord, WorkloadFacts, pod_facts, job_facts}
use pv_migrate.K8s.Diagnostics.Shadowed.{drop_shadowed_quiet_facts-list_workloads, unshadowed}
use pv_migrate.K8s.Exit.{
  data_mover_container, failed_pod_error, terminated_container_state, describe_terminated,
  interpret_exit_code,
}
use pv_migrate.K8s.Exit.Names.{SomeEnded, terminated_container_state-SomeEnded}
use pv_migrate.K8s.Pods.{
  Pod, Job, PodPhase, pending, running, succeeded, failed, ContainerStatus, TerminatedState,
  find_data_mover_job, find_terminal_job_pod, first_mover, terminal_from,
}
use pv_migrate.K8s.Pods.Search.{find_data_mover_job_terminates, namespaces, search_in}
use pv_migrate.K8s.Pods.Terminal.{find_terminal_job_pod-ended_pod}
use pv_migrate.K8s.Tail.{
  count, first_occurrences, recent_pod_logs, render_tail, split_byte, trim_right_byte, replace_crlf,
  counted_lines, tail_lines, with_count,
}
use pv_migrate.K8s.Tail.Counts.{counted_lines-read_shown, expanded}
use pv_migrate.K8s.Wait.{
  Answers, Options, wait_for_job_completion, resolve_running_job_pod, follow_job, stop_follower,
}
use pv_migrate.K8s.Wait.Errors.{
  follows, is_nil, quiet, wait_for_job_completion-follow, wait_for_job_completion-went_well,
  went_well,
}
use pv_migrate.K8s.Wait.Order.{is_orderly, nobody, run, wait_for_job_completion-is_orderly}
use pv_migrate.K8s.Watch.{
  PodEvent, Wait, WatchEnd, describe_pod_waiting, pod_started, wait_for_pod, describe_waiting,
}
use pv_migrate.K8s.Watch.First.{changes, first_done, found, met, said, wait_for_pod-first_done}

abbrev pod_in : Bytes → PodPhase → Pod
pod_in name phase = record {
  uid = codes "u-" ++ name;
  namespace = codes "ns";
  name = name;
  phase = phase;
  reason = [];
  message = [];
  conditions = [];
  container_statuses = [];
}

abbrev out_of_memory : TerminatedState
out_of_memory = record { exit_code = 137; signal = 9; reason = codes "OOMKilled"; message = [] }

abbrev sidecar_error : TerminatedState
sidecar_error = record { exit_code = 1; signal = 0; reason = codes "Error"; message = [] }

abbrev ended : Bytes → TerminatedState → ContainerStatus
ended name t = record { name = name; terminated = some t; waiting = none; last_terminated = none }

abbrev killed_pod : Pod
killed_pod = record (pod_in (codes "a-rsync-x") failed) {
  container_statuses =
      ended (codes "istio") sidecar_error ∷ ended (codes "rsync") out_of_memory ∷ [];
}

abbrev job_named : Bytes → Job
job_named name = record {
  uid = codes "u-" ++ name;
  namespace = codes "ns";
  name = name;
  images = [];
  active = 1;
  succeeded = 0;
  failed = 0;
  conditions = [];
}

-- A job that lives in another namespace than the one asked for.
abbrev list_jobs : Bytes → Result Bytes (List Job)
list_jobs ns =
    if is_empty ns
    then ok (job_named (codes "pvm-ab-sshd") ∷ job_named (codes "pvm-ab-dest-rsync") ∷ [])
    else ok (job_named (codes "pvm-cd-rsync") ∷ [])

find_data_mover_job_terminates_example :
    find_data_mover_job list_jobs 2 (codes "a") (codes "pvm-ab")
    ≡ some (search_in list_jobs (codes "pvm-ab") (namespaces (codes "a")))
find_data_mover_job_terminates_example =
    find_data_mover_job_terminates list_jobs 0 (codes "a") (codes "pvm-ab")

found_everywhere :
    find_data_mover_job list_jobs 2 (codes "a") (codes "pvm-ab")
    ≡ some (ok (job_named (codes "pvm-ab-dest-rsync")))
unfolding find_data_mover_job first_mover has_prefix has_suffix
found_everywhere = refl

find_terminal_job_pod-ended_pod_example :
    find_terminal_job_pod
      (codes "j")
      (ok (pod_in (codes "a") failed ∷ pod_in (codes "b") succeeded ∷ []))
    ≡ ok (some (pod_in (codes "b") succeeded), true)
find_terminal_job_pod-ended_pod_example =
    find_terminal_job_pod-ended_pod (codes "j")
      (pod_in (codes "a") failed ∷ pod_in (codes "b") succeeded ∷ [])

killed :
    failed_pod_error (err []) (codes "a-rsync") killed_pod
    ≡ codes
        "pod ns/a-rsync-x failed: the data mover exited with code 137, killed by signal 9, reason: OOMKilled"
unfolding failed_pod_error terminated_container_state data_mover_container has_suffix
    describe_terminated join itoa_ℕ trim_space interpret_exit_code interpret
killed = refl

terminated_container_state-SomeEnded_example :
    SomeEnded (data_mover_container (codes "a-rsync")) out_of_memory killed_pod.container_statuses
unfolding has_suffix terminated_container_state data_mover_container
terminated_container_state-SomeEnded_example =
    terminated_container_state-SomeEnded killed_pod (codes "a-rsync") out_of_memory refl refl

abbrev log_lines : List Bytes
log_lines = codes "b" ∷ codes "a" ∷ codes "b" ∷ []

rendered : render_tail (λ line. none) (codes "a-rsync") (codes "b\na\nb\n") ≡ codes "b (x2)\na\n"
unfolding render_tail join counted_lines first_occurrences tail_lines has_suffix split_byte
    trim_right_byte count with_count trim_space itoa_ℕ
rendered = refl

log_lines-IsUnmarked : All IsUnmarked log_lines
unfolding read_shown read_mark cut_prefix
log_lines-IsUnmarked = (refl, (refl, (refl, tt)))

counted_lines-read_shown_example :
    count (codes "b") (expanded (map read_shown (counted_lines log_lines))) ≡ (
      if is_blank (codes "b")
      then min 1 (count (codes "b") log_lines)
      else count (codes "b") log_lines)
counted_lines-read_shown_example =
    counted_lines-read_shown (codes "b") log_lines log_lines-IsUnmarked

blank_lines : counted_lines ([] ∷ codes "a" ∷ [] ∷ []) ≡ [] ∷ codes "a" ∷ []
unfolding counted_lines first_occurrences count with_count trim_space str_eq
blank_lines = refl

log_read : recent_pod_logs (some (codes "10%\r20%\r\ndone\r\n")) ≡ codes "10%\n20%\ndone\n"
unfolding recent_pod_logs replace_byte replace_crlf
log_read = refl

-- A job whose pod is found running, is followed, and fails, while the follower fails too.
abbrev failing : Answers
failing = record {
  pods = ok (pod_in (codes "a-rsync-x") running ∷ []);
  job = ok (job_named (codes "a-rsync"));
  started = ok (pod_in (codes "a-rsync-x") running);
  final = ok killed_pod;
  fresh = ok killed_pod;
  log = some (codes "boom\n");
  follow = codes "stream ended" ∷ [];
  rendered = true;
  mark = none;
}

abbrev plainly : Options
plainly = record {
  ns = codes "ns";
  name = codes "a-rsync";
  show_progress_bar = true;
  structured_logs = false;
  dim = λ text. text;
  unmarshal = λ line. none;
}

wait_for_job_completion-went_well_example :
    is_nil (wait_for_job_completion failing plainly).1
    ≡ went_well failing (find_terminal_job_pod (codes "a-rsync") failing.pods)
wait_for_job_completion-went_well_example = wait_for_job_completion-went_well failing plainly

both_errors :
    (wait_for_job_completion failing plainly).1
    ≡ codes
        "pod ns/a-rsync-x failed: the data mover exited with code 137, killed by signal 9, reason: OOMKilled"
      ∷ codes "stream ended"
      ∷ []
unfolding wait_for_job_completion resolve_running_job_pod find_terminal_job_pod terminal_from
    follow_job failed_pod_error stop_follower terminated_container_state data_mover_container
    has_suffix describe_terminated join itoa_ℕ trim_space interpret_exit_code interpret
both_errors = refl

wait_for_job_completion-follow_example :
    (wait_for_job_completion failing plainly).1
    ≡ (wait_for_job_completion (quiet failing) plainly).1
      ++ (if follows (resolve_running_job_pod failing plainly) then failing.follow else [])
wait_for_job_completion-follow_example = wait_for_job_completion-follow failing plainly

wait_for_job_completion-is_orderly_example :
    is_orderly (run nobody (wait_for_job_completion failing plainly).0) ≡ true
wait_for_job_completion-is_orderly_example = wait_for_job_completion-is_orderly failing plainly

-- A pod that cannot pull its image at first.
abbrev pulling : Pod
pulling = record (pod_in (codes "p") pending) {
  container_statuses =
      record {
        name = codes "rsync";
        terminated = none;
        waiting = some (record { reason = codes "ErrImagePull"; message = [] });
        last_terminated = none;
      }
      ∷ [];
}

abbrev pod_wait : Wait
pod_wait = record {
  ns = codes "ns";
  label_selector = codes "job-name=j";
  timeout = codes "2m0s";
  done = pod_started;
}

abbrev no_end : WatchEnd
no_end = record { error = codes "timed out"; expired = true }

abbrev pod_events : List PodEvent
pod_events = some pulling ∷ some pulling ∷ some (pod_in (codes "p") running) ∷ []

wait_for_pod-first_done_example :
    (found (wait_for_pod pod_wait no_end [] pod_events).1
      ≡ first_done pod_started (met pod_started pod_events))
    × ((wait_for_pod pod_wait no_end [] pod_events).0
        ≡ changes [] (said (map describe_pod_waiting (met pod_started pod_events))))
wait_for_pod-first_done_example = wait_for_pod-first_done pod_wait no_end [] pod_events

warned_once :
    wait_for_pod pod_wait no_end [] pod_events
    ≡ (codes "rsync: ErrImagePull" ∷ [], ok (pod_in (codes "p") running))
unfolding wait_for_pod describe_pod_waiting join str_eq describe_waiting trim_space
warned_once = refl

abbrev listing : Listing
listing = record {
  pods = ok (pod_in (codes "a-x") running ∷ []);
  services = err (codes "forbidden");
  jobs = ok (job_named (codes "a") ∷ job_named (codes "b") ∷ []);
  deployments = ok [];
  replica_sets = ok [];
  events = ok [];
}

abbrev listed : List WorkloadFacts
listed = (list_workloads (record { enabled = false }) listing).0

drop_shadowed_quiet_facts-list_workloads_example :
    drop_shadowed_quiet_facts listed no_events ≡ unshadowed no_events listed listed
drop_shadowed_quiet_facts-list_workloads_example =
    drop_shadowed_quiet_facts-list_workloads (record { enabled = false }) listing no_events

shadowed_names :
    map (λ f. f.name) (drop_shadowed_quiet_facts listed no_events) ≡ codes "a-x" ∷ codes "b" ∷ []
unfolding drop_shadowed_quiet_facts list_workloads drop_shadowed_from pod_facts job_facts
    has_pod_of_workload str_eq has_prefix
shadowed_names = refl

abbrev pull_event : EventRecord
pull_event = record {
  uid = codes "u-p";
  is_warning = true;
  reason = codes "Failed";
  message = codes "Error: ImagePullBackOff";
  count = 4;
}

abbrev four_events : List EventRecord
four_events = pull_event ∷ pull_event ∷ pull_event ∷ pull_event ∷ []
