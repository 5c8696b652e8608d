-- ===== src/K8s/Pods/Terminal.antt =====
-- Which pod of a job is taken for its end, by an independent description.
use pv_migrate.Common.{
  Bool, true, false, ◌||◌, List, [], ◌∷◌, Option, none, some, ◌≡◌, refl, arith, if◌then◌else◌,
  Bytes, ok,
}
use pv_migrate.K8s.Pods.{
  PodPhase, pending, running, Pod, is_failed, is_succeeded, terminal_from, find_terminal_job_pod,
  any_pods,
}

abbrev is_active : PodPhase → Bool
is_active pending = true
is_active running = true
is_active _ = false

abbrev pub some_active : List Pod → Bool
some_active [] = false
some_active (p ∷ ps) = is_active p.phase || some_active ps

abbrev pub or_else : Option Pod → Option Pod → Option Pod
or_else (some p) q = some p
or_else none q = q

abbrev pub last_succeeded : List Pod → Option Pod
last_succeeded [] = none
last_succeeded (p ∷ ps) =
    or_else (last_succeeded ps) (if is_succeeded p.phase then some p else none)

abbrev pub first_failed : List Pod → Option Pod
first_failed [] = none
first_failed (p ∷ ps) = if is_failed p.phase then some p else first_failed ps

-- No pod while one may still run; else the last that succeeded; else the first that failed.
-- The loop, with the pod it has taken so far.
abbrev ended_after : Option Pod → List Pod → Option (Option Pod)
ended_after t ps =
    if some_active ps
    then none
    else some (or_else (last_succeeded ps) (or_else t (first_failed ps)))

terminal_from-ended_after : (t : Option Pod) (ps : List Pod) → terminal_from t ps ≡ ended_after t ps
unfolding terminal_from
terminal_from-ended_after none [] = refl
terminal_from-ended_after (some q) [] = refl
terminal_from-ended_after none (p ∷ ps) =
    ground (arith, terminal_from-ended_after (some p) ps, terminal_from-ended_after none ps)
terminal_from-ended_after (some q) (p ∷ ps) =
    ground (arith, terminal_from-ended_after (some p) ps, terminal_from-ended_after (some q) ps)

-- The pod that `findTerminalJobPod` returns, and whether there is one at all.
pub find_terminal_job_pod-ended_pod :
    (job_name : Bytes) (pods : List Pod)
    → find_terminal_job_pod job_name (ok pods)
      ≡ ok (
          if some_active pods
          then (none, true)
          else (or_else (last_succeeded pods) (first_failed pods), any_pods pods))
unfolding find_terminal_job_pod
find_terminal_job_pod-ended_pod job_name pods = ground (arith, terminal_from-ended_after none pods)
