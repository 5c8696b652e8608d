-- ===== src/Migrator/Ladder/Cleanup.antt =====
-- When the ladder removes what an attempt installed.
use pv_migrate.Common.{
  ◌++◌, ◌||◌, ◌&&◌, not, Bool, true, false, List, [], ◌∷◌, Option, none, some, Bytes, ◌≡◌, refl, ap,
  ◌∙◌, arith, inl, inr, if◌then◌else◌, Bool-cases,
}
use pv_migrate.Migrator.{
  Request, Attempt, AttemptError, is_unaccepted, declined_with, unaccepted, failure, Outcome,
  record_failed_attempt,
}
use pv_migrate.Migrator.Ladder.{
  World, Event, attempting, does_not_apply, failed, succeeded, diagnosed, kept_as_asked,
  kept_for_inspection, cleaned, narrate_failed_attempt, End, cleanup_attempt, finish, after_run,
  run_attempt, is_last, new_attempt, rung, climb, is_error,
}

abbrev pub removes : Event → Bool
removes (attempting name) = false
removes (does_not_apply reason) = false
removes (failed text) = false
removes (succeeded name) = false
removes (diagnosed report) = false
removes kept_as_asked = false
removes kept_for_inspection = false
removes (cleaned names problem) = true

-- Some event removes what was installed.
abbrev pub any_removal : List Event → Bool
any_removal [] = false
any_removal (e ∷ es) = removes e || any_removal es

abbrev pub is_none_installed : List Bytes → Bool
is_none_installed [] = true
is_none_installed (n ∷ ns) = false

any_removal-append :
    (es fs : List Event) → any_removal (es ++ fs) ≡ any_removal es || any_removal fs
any_removal-append [] fs = refl
any_removal-append (e ∷ es) fs = let rest = any_removal-append es fs in ground arith

module _ {W : Type 0} (env : World W) (r : Request) where
  -- The releases of the attempt are to go: some were installed, and neither the request nor a
  -- detached or, where asked, a failed attempt keeps them.
  abbrev pub is_to_go : Attempt → Option AttemptError → Bool
  is_to_go a e =
      not (is_none_installed a.release_names)
      && (not (r.no_cleanup || a.detached) && not (r.no_cleanup_on_failure && is_error e))

  cleanup-removes :
      (a : Attempt) (e : Option AttemptError) (w : W)
      → any_removal (cleanup_attempt env r a e w).0 ≡ is_to_go a e
  unfolding cleanup_attempt
  cleanup-removes a e w = ground arith

  finish-removes :
      (a : Attempt) (e : Option AttemptError) (said : List Event) (w : W)
      → any_removal said ≡ false
      → any_removal (finish env r a e said w).events ≡ is_to_go a e
  unfolding finish
  finish-removes a e said w h =
      let both = any_removal-append said (cleanup_attempt env r a e w).0 in
      let clean = cleanup-removes a e w in
      both ∙ ap (λ b. b || any_removal (cleanup_attempt env r a e w).0) h ∙ clean

  narrate-keeps :
      (e : AttemptError) (last : Bool) (es : List Event)
      → any_removal (narrate_failed_attempt e last r.structured_logs ∷ es) ≡ any_removal es
  unfolding narrate_failed_attempt
  narrate-keeps (declined_with reason) last es = refl
  narrate-keeps unaccepted last es = refl
  narrate-keeps (failure text) last es = ground arith

  after_run-removes :
      (name : Bytes) (last : Bool) (a : Attempt) (e : Option AttemptError) (w : W)
      → any_removal (after_run env r name last a e w).events ≡ is_to_go a e
  unfolding after_run
  after_run-removes name last a none w =
      finish-removes a none (if a.detached then [] else succeeded name ∷ []) w (ground arith)
  after_run-removes name last a (some e) w =
      let d = env.collect_diagnostics a w in
      let told = narrate_failed_attempt e last r.structured_logs in
      let one = finish-removes a (some e) (told ∷ []) w (narrate-keeps e last []) in
      let two =
        finish-removes (record a { diagnostics = d.0 }) (some e) (told ∷ diagnosed d.0 ∷ []) d.1
          (narrate-keeps e last (diagnosed d.0 ∷ [])) in
      elim (Bool-cases (is_unaccepted e)) [ inl h ↦ ground arith | inr h ↦ ground arith ]

  -- An attempt is cleaned up exactly if the strategy installed releases, did not detach, cleanup is
  -- not switched off, and it is not switched off for failures while the attempt failed.
  pub run_attempt-removes :
      (name : Bytes) (last : Bool) (a : Attempt) (w : W)
      → let ran = env.run name a w in
        any_removal (run_attempt env r name last a w).events ≡ is_to_go ran.0.0 ran.0.1
  unfolding run_attempt
  run_attempt-removes name last a w = after_run-removes name last _ _ _

  rung-keeps :
      (name : Bytes) (outcomes : List Outcome) (a : Attempt) (e : Option AttemptError)
      (es : List Event) (w : W) (next : List Outcome → End W)
      → ((noted : List Outcome) → any_removal (next noted).events ≡ false)
      → any_removal
          (rung env r name outcomes
            (record { attempt = a; error = e; events = es; world = w })
            next).events
        ≡ false
  rung-keeps name outcomes a none es w next ih = refl
  rung-keeps name outcomes a (some e) es w next ih =
      let rest = ih (outcomes ++ record_failed_attempt name a e ∷ []) in
      elim (Bool-cases (env.is_cancelled w)) [
        | inl c ↦ rw (rung, c) refl
        | inr c ↦ rw (rung, c) rest
      ]

  -- With cleanup switched off, no attempt of the whole ladder is cleaned up.
  pub climb-keeps :
      (id : Bytes) (outcomes : List Outcome) (names : List Bytes) (w : W)
      → r.no_cleanup ≡ true
      → any_removal (climb env r id outcomes names w).events ≡ false
  unfolding climb
  climb-keeps id outcomes [] w h = refl
  climb-keeps id outcomes (name ∷ names) w h =
      let ran = run_attempt env r name (is_last names) (new_attempt id name) w in
      let more : List Outcome → End W = λ noted. climb env r id noted names ran.world in
      let end = rung env r name outcomes ran more in
      let here = run_attempt-removes name (is_last names) (new_attempt id name) w in
      let later =
        rung-keeps name outcomes ran.attempt ran.error ran.events ran.world more
          (λ noted. climb-keeps id noted names ran.world h) in
      let both = any_removal-append ran.events end.events in ground arith
