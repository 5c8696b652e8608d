-- ===== src/K8s/Wait/Order.antt =====
-- The follower owns the writer while it runs: an independent machine over what the wait does.
use pv_migrate.Common.{
  ◌++◌, Bool, true, false, List, [], ◌∷◌, Option, none, some, Bytes, ◌≡◌, refl, arith, Result-cases,
  Option-cases, Bool-cases, ◌⊎◌, inl, inr,
}
use pv_migrate.K8s.Pods.{Pod, find_terminal_job_pod, is_succeeded}
use pv_migrate.K8s.Tail.{recent_pod_logs}
use pv_migrate.K8s.Wait.{
  Answers, Options, Event, follower_started, follower_joined, bar_line_ended, bar_finished,
  tail_written, tail_logged, vanished_warned, write_failure_tail, vanished_warning,
  finish_terminal_pod, Resolution, handled, follow_pod, start_job, resolve_running_job_pod,
  stop_follower, follow_job, wait_for_job_completion, Errors, show_bar, new_follower,
}

-- Before a follower is started, while it runs, and once it is joined.
pub data Owner : Type 0 where
  nobody following joined : Owner

-- One event; none where it is out of order.
abbrev pub advance : Owner → Event → Option Owner
advance nobody follower_started = some following
advance following follower_joined = some joined
advance joined bar_line_ended = some joined
advance joined bar_finished = some joined
advance nobody (tail_written text) = some nobody
advance nobody (tail_logged text) = some nobody
advance nobody (vanished_warned count) = some nobody
advance joined (tail_written text) = some joined
advance joined (tail_logged text) = some joined
advance joined (vanished_warned count) = some joined
advance _ _ = none

abbrev pub run : Owner → List Event → Option Owner
run owner [] = some owner
run owner (e ∷ es) = elim (advance owner e) [ none ↦ none | some next ↦ run next es ]

-- At its end no follower runs.
abbrev pub is_orderly : Option Owner → Bool
is_orderly (some nobody) = true
is_orderly (some joined) = true
is_orderly _ = false

run-failure_tail :
    (a : Answers) (o : Options) (p : Pod)
    → (run nobody (write_failure_tail a o p) ≡ some nobody)
      × (run joined (write_failure_tail a o p) ≡ some joined)
unfolding write_failure_tail
run-failure_tail a o p = ground arith

run-vanished :
    (tail : Bytes)
    → (run nobody (vanished_warning tail) ≡ some nobody)
      × (run joined (bar_finished ∷ vanished_warning tail) ≡ some joined)
run-vanished tail = ground arith

finish_terminal_pod-is_orderly :
    (a : Answers) (o : Options) (p : Pod)
    → is_orderly (run nobody (finish_terminal_pod a o p).0) ≡ true
unfolding finish_terminal_pod
finish_terminal_pod-is_orderly a o p =
    ground (arith, run-failure_tail a o p, run-vanished (recent_pod_logs a.log))

-- What a wait that is over did.
abbrev is_over_orderly : Resolution → Bool
is_over_orderly (handled result) = is_orderly (run nobody result.0)
is_over_orderly (follow_pod p) = true

start_job-is_orderly : (a : Answers) (o : Options) → is_over_orderly (start_job a o) ≡ true
start_job-is_orderly a o = elim (Result-cases a.started) [
  | inl (e, h) ↦ ground (arith, h)
  | inr (p, h) ↦ ground (arith, h, finish_terminal_pod-is_orderly a o p)
]

resolve-is_orderly :
    (a : Answers) (o : Options) → is_over_orderly (resolve_running_job_pod a o) ≡ true
unfolding resolve_running_job_pod
resolve-is_orderly a o = elim (Result-cases (find_terminal_job_pod o.name a.pods)) [
  | inl (e, h) ↦ ground (arith, h)
  | inr (found, h) ↦ elim (Option-cases found.0) [
    | inl none_ended ↦ ground (arith, h, start_job-is_orderly a o)
    | inr (p, ended) ↦ ground (arith, h, finish_terminal_pod-is_orderly a o p)
  ]
]

step-onto :
    (stepped : Option Owner) (q : Owner) (es fs : List Event)
    → ((next : Owner) → run next es ≡ some q → run next (es ++ fs) ≡ run q fs)
    → elim stepped [ none ↦ none | some next ↦ run next es ] ≡ some q
    → elim stepped [ none ↦ none | some next ↦ run next (es ++ fs) ] ≡ run q fs
step-onto none q es fs further h = ground (arith, h)
step-onto (some next) q es fs further h = further next h

run-onto : (p q : Owner) (es fs : List Event) → run p es ≡ some q → run p (es ++ fs) ≡ run q fs
run-onto p q [] fs h = ground (arith, h)
run-onto p q (e ∷ es) fs h = step-onto (advance p e) q es fs (λ next. run-onto next q es fs) h

module _ (a : Answers) (o : Options) (shown : Bool) where
  abbrev followed : List Event
  followed =
      let body = follow_job a o (new_follower shown) in body.0.0 ++ (stop_follower a body.1).0.0

  run-followed : run following followed ≡ some joined
  unfolding follow_job stop_follower
  run-followed = elim (Result-cases a.final) [
    | inl (e, h) ↦ ground (arith, h)
    | inr (p, h) ↦ elim (Bool-cases (is_succeeded p.phase)) [
      | inl succ ↦ ground (
        arith,
        h,
        succ,
        run-onto joined joined (bar_finished ∷ vanished_warning (recent_pod_logs a.log)) []
            (run-vanished (recent_pod_logs a.log)).1,
      )
      | inr fail ↦ ground (
        arith,
        h,
        fail,
        run-onto joined joined (write_failure_tail a o p) [] (run-failure_tail a o p).1,
      )
    ]
  ]

pub Resolution-cases :
    (r : Resolution)
    → ((result : List Event × Errors) × (r ≡ handled result)) ⊎ ((p : Pod) × (r ≡ follow_pod p))
Resolution-cases (handled result) = inl (result, refl)
Resolution-cases (follow_pod p) = inr (p, refl)

-- Whatever the cluster answers, a follower that is started is joined, once, and nothing is written or
-- logged while it runs.
pub wait_for_job_completion-is_orderly :
    (a : Answers) (o : Options) → is_orderly (run nobody (wait_for_job_completion a o).0) ≡ true
unfolding wait_for_job_completion
wait_for_job_completion-is_orderly a o = elim (Resolution-cases (resolve_running_job_pod a o)) [
  | inl (result, h) ↦ ground (arith, h, resolve-is_orderly a o)
  | inr (p, h) ↦
      let shown = show_bar o.show_progress_bar o.structured_logs in
      ground (arith, h, run-followed a o shown)
]
