-- ===== src/K8s/Wait/Errors.antt =====
-- What the wait for a job returns.
use pv_migrate.Common.{
  ◌++◌, Bool, true, false, ◌&&◌, [], ◌∷◌, Option, none, some, Bytes, Result, ok, err, ◌≡◌, refl,
  arith, if◌then◌else◌, Result-cases, Option-cases, Bool-cases, inl, inr, ltb, append-nil,
}
use pv_migrate.K8s.Pods.{
  Pod, find_terminal_job_pod, finished_job_without_pods, is_succeeded, is_running,
}
use pv_migrate.K8s.Wait.{
  Answers, Options, finish_terminal_pod, Resolution, handled, follow_pod, start_job,
  resolve_running_job_pod, stop_follower, follow_job, wait_for_job_completion, Errors, show_bar,
  write_failure_tail, new_follower,
}
use pv_migrate.K8s.Wait.Order.{Resolution-cases}

-- Whether the wait comes to a pod that it follows.
abbrev pub follows : Resolution → Bool
follows (handled result) = false
follows (follow_pod p) = true

-- The answers, but with a follower that fails in no way.
abbrev pub quiet : Answers → Answers
quiet a = record a { follow = [] }

module _ (a : Answers) (o : Options) (shown : Bool) where
  abbrev followed_errors : Answers → Errors
  followed_errors b =
      let body = follow_job b o (new_follower shown) in body.0.1 ++ (stop_follower b body.1).0.1

  followed_errors-quiet : followed_errors a ≡ followed_errors (quiet a) ++ a.follow
  unfolding follow_job stop_follower
  followed_errors-quiet = elim (Result-cases a.final) [
    | inl (e, h) ↦ ground (arith, h)
    | inr (p, h) ↦ elim (Bool-cases (is_succeeded p.phase)) [
      | inl succ ↦ ground (arith, h, succ, append-nil a.follow)
      | inr fail ↦ ground (arith, h, fail, append-nil a.follow)
    ]
  ]

resolve-quiet :
    (a : Answers) (o : Options) → resolve_running_job_pod (quiet a) o ≡ resolve_running_job_pod a o
unfolding resolve_running_job_pod finish_terminal_pod write_failure_tail
resolve-quiet a o = refl

-- The error of the follower is returned once, behind the error that the wait itself has, if the wait
-- followed a pod; otherwise there is no such error.
pub wait_for_job_completion-follow :
    (a : Answers) (o : Options)
    → (wait_for_job_completion a o).1
      ≡ (wait_for_job_completion (quiet a) o).1
        ++ (if follows (resolve_running_job_pod a o) then a.follow else [])
unfolding wait_for_job_completion
wait_for_job_completion-follow a o = elim (Resolution-cases (resolve_running_job_pod a o)) [
  | inl (result, h) ↦ ground (arith, h, resolve-quiet a o, append-nil result.1)
  | inr (p, h) ↦
      let shown = show_bar o.show_progress_bar o.structured_logs in
      ground (arith, h, resolve-quiet a o, followed_errors-quiet a o shown)
]

abbrev pub has_succeeded : Result Bytes Pod → Bool
has_succeeded (err e) = false
has_succeeded (ok p) = is_succeeded p.phase

abbrev pub is_nil : Errors → Bool
is_nil [] = true
is_nil (e ∷ es) = false

abbrev pub is_absent : Option Bytes → Bool
is_absent none = true
is_absent (some e) = false

-- A pod that the follower was started for has to succeed, and so have the logger and the follower; a pod
-- that was over when it was found has to have succeeded.
abbrev pub started_well : Answers → Bool
started_well a = elim a.started [
  | err e ↦ false
  | ok p ↦
      if is_running p.phase
      then has_succeeded a.final && (is_absent a.mark && is_nil a.follow)
      else is_succeeded p.phase
]

-- With no pods, a job that is over tells; else a pod is waited for.
abbrev pub podless_well : Answers → Bool
podless_well a = elim a.job [
  | err e ↦ started_well a
  | ok j ↦ if ltb 0 j.succeeded then true else if ltb 0 j.failed then false else started_well a
]

-- When a wait comes to a good end.
abbrev pub went_well : Answers → Result Bytes (Option Pod × Bool) → Bool
went_well a (err e) = false
went_well a (ok (some p, any)) = is_succeeded p.phase
went_well a (ok (none, true)) = started_well a
went_well a (ok (none, false)) = podless_well a

-- Whether the wait is over with no error, or, as told, once the pod is followed.
abbrev returns_nil : Bool → Resolution → Bool
returns_nil after (handled result) = is_nil result.1
returns_nil after (follow_pod p) = after

abbrev followed_well : Answers → Bool
followed_well a = has_succeeded a.final && (is_absent a.mark && is_nil a.follow)

finish_terminal_pod-success :
    (a : Answers) (o : Options) (p : Pod)
    → is_nil (finish_terminal_pod a o p).1 ≡ is_succeeded p.phase
unfolding finish_terminal_pod
finish_terminal_pod-success a o p = ground arith

start_job-success :
    (a : Answers) (o : Options) → returns_nil (followed_well a) (start_job a o) ≡ started_well a
start_job-success a o = elim (Result-cases a.started) [
  | inl (e, r) ↦ ground (arith, r)
  | inr (p, r) ↦ ground (arith, r, finish_terminal_pod-success a o p)
]

podless-success :
    (a : Answers) (o : Options)
    → returns_nil (followed_well a) (elim (finished_job_without_pods o.ns o.name a.job) [
      | some errs ↦ handled ([], errs)
      | none ↦ start_job a o
    ])
      ≡ podless_well a
unfolding finished_job_without_pods
podless-success a o = elim (Result-cases a.job) [
  | inl (e, r) ↦ ground (arith, r, start_job-success a o)
  | inr (j, r) ↦ ground (arith, r, start_job-success a o)
]

resolve-success :
    (a : Answers) (o : Options)
    → returns_nil (followed_well a) (resolve_running_job_pod a o)
      ≡ went_well a (find_terminal_job_pod o.name a.pods)
unfolding resolve_running_job_pod
resolve-success a o = elim (Result-cases (find_terminal_job_pod o.name a.pods)) [
  | inl (e, r) ↦ ground (arith, r)
  | inr (found, r) ↦ elim (Option-cases found.0) [
    | inl none_ended ↦ elim (Bool-cases found.1) [
      | inl any ↦ ground (arith, r, none_ended, any, start_job-success a o)
      | inr no_pods ↦ ground (arith, r, none_ended, no_pods, podless-success a o)
    ]
    | inr (p, ended) ↦ ground (arith, r, ended, finish_terminal_pod-success a o p)
  ]
]

module _ (a : Answers) (o : Options) (shown : Bool) where
  followed-success : is_nil (followed_errors a o shown a) ≡ followed_well a
  unfolding follow_job stop_follower
  followed-success = elim (Result-cases a.final) [
    | inl (e, r) ↦ ground (arith, r)
    | inr (p, r) ↦ elim (Bool-cases (is_succeeded p.phase)) [
      | inl succ ↦ ground (arith, r, succ)
      | inr fail ↦ ground (arith, r, fail)
    ]
  ]

-- The wait returns no error exactly when it went well: a pod that failed, a job that failed with no pods
-- left, a follower or a logger with an error, and whatever cannot be read are all errors.
pub wait_for_job_completion-went_well :
    (a : Answers) (o : Options)
    → is_nil (wait_for_job_completion a o).1 ≡ went_well a (find_terminal_job_pod o.name a.pods)
unfolding wait_for_job_completion
wait_for_job_completion-went_well a o = elim (Resolution-cases (resolve_running_job_pod a o)) [
  | inl (result, r) ↦ ground (arith, r, resolve-success a o)
  | inr (p, r) ↦
      let shown = show_bar o.show_progress_bar o.structured_logs in
      ground (arith, r, resolve-success a o, followed-success a o shown)
]
