-- ===== src/K8s/Watch/First.antt =====
-- Which pod a wait returns, and what it warns of, by independent descriptions.
use pv_migrate.Common.{
  Bool, not, List, [], ◌∷◌, Option, none, some, Bytes, is_empty, Result, ok, err, if◌then◌else◌,
  str_eq, ◌≡◌, refl, arith, map,
}
use pv_migrate.K8s.Pods.{Pod, is_running}
use pv_migrate.K8s.Watch.{
  PodEvent, Wait, WatchEnd, wait_for_pod, describe_pod_waiting, until_terminated,
  wait_for_pod_termination,
}

-- The pods up to the first that satisfies the test, that one included, or up to an object that is no pod.
abbrev pub met : (Pod → Bool) → List PodEvent → List Pod
met done [] = []
met done (none ∷ events) = []
met done (some p ∷ events) = p ∷ (if done p then [] else met done events)

-- The first of the pods that satisfies the test.
abbrev pub first_done : (Pod → Bool) → List Pod → Option Pod
first_done done [] = none
first_done done (p ∷ ps) = if done p then some p else first_done done ps

-- The texts that are not empty.
abbrev pub said : List Bytes → List Bytes
said [] = []
said (t ∷ ts) = if is_empty t then said ts else t ∷ said ts

-- The texts but those that repeat the one right before them, of which the first is given.
abbrev pub changes : Bytes → List Bytes → List Bytes
changes last [] = []
changes last (t ∷ ts) = if str_eq t last then changes last ts else t ∷ changes t ts

abbrev pub found : Result Bytes Pod → Option Pod
found (err e) = none
found (ok p) = some p

-- The wait returns the first pod that it is for, and an error when there is none. It warns of each
-- reason for waiting that differs from the one it warned of before, and of no other.
pub wait_for_pod-first_done :
    (w : Wait) (end : WatchEnd) (last : Bytes) (events : List PodEvent)
    → (found (wait_for_pod w end last events).1 ≡ first_done w.done (met w.done events))
      × ((wait_for_pod w end last events).0
          ≡ changes last (said (map describe_pod_waiting (met w.done events))))
unfolding wait_for_pod
wait_for_pod-first_done w end last [] = (refl, refl)
wait_for_pod-first_done w end last (none ∷ events) = (refl, refl)
wait_for_pod-first_done w end last (some p ∷ events) =
    let same = wait_for_pod-first_done w end last events in
    let changed = wait_for_pod-first_done w end (describe_pod_waiting p) events in
    (ground (arith, same.0, changed.0), ground (arith, same.1, changed.1))

until_terminated-first_done :
    (ns name : Bytes) (end : WatchEnd) (events : List PodEvent)
    → found (until_terminated ns name end events)
      ≡ first_done (λ q. not (is_running q.phase)) (met (λ q. not (is_running q.phase)) events)
unfolding until_terminated
until_terminated-first_done ns name end [] = refl
until_terminated-first_done ns name end (none ∷ events) = refl
until_terminated-first_done ns name end (some p ∷ events) =
    ground (arith, until_terminated-first_done ns name end events)

-- The pod that a wait for the end returns does not run, and it is the first such among the pod that was
-- read and those the watch delivered.
pub wait_for_pod_termination-first_done :
    (ns name : Bytes) (p : Pod) (end : WatchEnd) (events : List PodEvent)
    → found (wait_for_pod_termination ns name (ok p) end events)
      ≡ first_done
          (λ q. not (is_running q.phase))
          (met (λ q. not (is_running q.phase)) (some p ∷ events))
unfolding wait_for_pod_termination
wait_for_pod_termination-first_done ns name p end events =
    ground (arith, until_terminated-first_done ns name end events)
