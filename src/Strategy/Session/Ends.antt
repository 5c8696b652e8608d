-- ===== src/Strategy/Session/Ends.antt =====
-- When a session is a success, by what each goroutine ends with.
use pv_migrate.Common.{
  Bool, true, false, ◌&&◌, ◌||◌, List, [], ◌∷◌, Option, none, some, Bytes, Result, ok, err, ◌≡◌,
  refl, arith, if◌then◌else◌, Option-cases, inl, inr,
}
use pv_migrate.Strategy.Mover.{Policy}
use pv_migrate.Strategy.Session.{
  RunError, is_tolerated_exit, complete_mover_session, bar_finished, vanished_warned,
  finish_mover_session, Ended, watcher, forwarder, progress, runner, first_error, some_vanished,
  run_mover_session, ended_error, saw_vanished,
}

abbrev is_absent {ℓ} : {A : Type ℓ} → Option A → Bool
is_absent none = true
is_absent (some a) = false

-- The mover ended well, or on a status that it calls a success with caveats.
abbrev pub is_success_run : Policy → Option RunError → Bool
is_success_run policy none = true
is_success_run policy (some e) = is_tolerated_exit policy e

abbrev pub is_fine : Policy → Ended → Bool
is_fine policy watcher = true
is_fine policy (forwarder e) = is_absent e
is_fine policy (progress e) = is_absent e
is_fine policy (runner run mark) = is_success_run policy run && is_absent mark

abbrev pub all_fine : Policy → List Ended → Bool
all_fine policy [] = true
all_fine policy (e ∷ es) = is_fine policy e && all_fine policy es

-- The mover ended on a tolerated status.
abbrev pub is_caveat : Policy → Ended → Bool
is_caveat policy (runner (some e) mark) = is_tolerated_exit policy e
is_caveat policy _ = false

abbrev pub some_caveat : Policy → List Ended → Bool
some_caveat policy [] = false
some_caveat policy (e ∷ es) = is_caveat policy e || some_caveat policy es

ended-is_fine :
    (policy : Policy) (e : Ended)
    → (is_absent (ended_error policy e) ≡ is_fine policy e)
      × (saw_vanished policy e ≡ is_caveat policy e)
unfolding complete_mover_session
ended-is_fine policy watcher = (refl, refl)
ended-is_fine policy (forwarder none) = (refl, refl)
ended-is_fine policy (forwarder (some e)) = (refl, refl)
ended-is_fine policy (progress none) = (refl, refl)
ended-is_fine policy (progress (some e)) = (refl, refl)
ended-is_fine policy (runner none none) = (refl, refl)
ended-is_fine policy (runner none (some m)) = (refl, refl)
ended-is_fine policy (runner (some e) none) = (ground arith, ground arith)
ended-is_fine policy (runner (some e) (some m)) = (ground arith, ground arith)

first_error-all_fine :
    (policy : Policy) (es : List Ended)
    → (is_absent (first_error policy es) ≡ all_fine policy es)
      × (some_vanished policy es ≡ some_caveat policy es)
first_error-all_fine policy [] = (refl, refl)
first_error-all_fine policy (e ∷ es) =
    let (fine, caveat) = ended-is_fine policy e in
    let (rest, later) = first_error-all_fine policy es in
    (ground (arith, fine, rest), ground (arith, caveat, later))

abbrev pub succeeds : Result Bytes (Unit {0}) → Bool
succeeds (ok done) = true
succeeds (err e) = false

-- The session is a success exactly when every goroutine ends well, in whatever order they end, and a
-- tolerated exit counts as one; that one is warned of, after the bar is finished, and nothing is said at a
-- failure.
pub run_mover_session-all_fine :
    (policy : Policy) (ends : List Ended) (chunks : List Bytes)
    → (succeeds (run_mover_session policy ends chunks).1 ≡ all_fine policy ends)
      × ((run_mover_session policy ends chunks).0 ≡ (
          if all_fine policy ends
          then bar_finished ∷ (if some_caveat policy ends then vanished_warned ∷ [] else [])
          else []))
unfolding run_mover_session finish_mover_session
run_mover_session-all_fine policy ends chunks =
    let (fine, caveat) = first_error-all_fine policy ends in
    elim (Option-cases (first_error policy ends)) [
      | inl none_there ↦
          (ground (arith, fine, none_there), ground (arith, fine, caveat, none_there))
      | inr (e, there) ↦ (ground (arith, fine, there), ground (arith, fine, there))
    ]
