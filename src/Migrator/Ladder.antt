-- ===== src/Migrator/Ladder.antt =====
-- The ladder of strategies of internal/migrator/migrator.go: one attempt after another, with the
-- narration, the diagnostics and the cleanup of each.
pub mod Exact
pub mod Protocol
pub mod Cleanup
use pv_migrate.Common.{
  ℕ, ◌++◌, ◌||◌, ◌&&◌, Bool, true, false, not, List, [], ◌∷◌, Option, none, some, Bytes, codes,
  if◌then◌else◌, Result, ok, err,
}
use pv_migrate.Migrator.{
  Request, Attempt, AttemptError, declined_with, unaccepted, failure, is_unaccepted, error_text,
  Outcome, record_failed_attempt,
}

-- The cluster and the strategies as one attempt sees them: running a strategy, which may note
-- release names and its detachment in the attempt, collecting diagnostics, removing what the attempt
-- installed, and whether the context is cancelled. `W` is the state of everything outside.
pub record World (W : Type 0) : Type 0 where
  pub run : Bytes → Attempt → W → (Attempt × Option AttemptError) × W
  pub collect_diagnostics : Attempt → W → Bytes × W
  pub cleanup : Attempt → W → Option Bytes × W
  pub is_cancelled : W → Bool

-- What an attempt says and does, in order.
pub data Event : Type 0 where
  attempting : Bytes → Event
  -- with the reason, where there is one
  does_not_apply : Option Bytes → Event
  -- with the error's text unless the summary repeats it
  failed : Option Bytes → Event
  succeeded : Bytes → Event
  diagnosed : Bytes → Event
  kept_as_asked : Event
  kept_for_inspection : Event
  -- the releases, and the error of removing them
  cleaned : List Bytes → Option Bytes → Event

abbrev pub is_error : Option AttemptError → Bool
is_error none = false
is_error (some e) = true

-- `narrateFailedAttempt`
unfoldable pub narrate_failed_attempt : AttemptError → Bool → Bool → Event
unfolding error_text
narrate_failed_attempt (declined_with reason) last structured = does_not_apply (some reason)
narrate_failed_attempt unaccepted last structured = does_not_apply none
narrate_failed_attempt (failure text) last structured =
    if last && not structured then failed none else failed (some text)

-- An attempt after it ran: the attempt, its error, what was said, and the state outside.
pub record Ran (W : Type 0) : Type 0 where
  pub attempt : Attempt
  pub error : Option AttemptError
  pub events : List Event
  pub world : W

-- The ladder's end: the strategy that succeeded with its attempt, or the outcomes of all tried.
pub record End (W : Type 0) : Type 0 where
  pub result : Result (List Outcome) (Bytes × Attempt)
  pub events : List Event
  pub world : W

abbrev pub is_last : List Bytes → Bool
is_last [] = true
is_last (n ∷ ns) = false

-- The attempt that `Run` makes for a strategy.
unfoldable pub new_attempt : Bytes → Bytes → Attempt
new_attempt id name = record {
  attempt_id = id;
  release_prefix = codes "pv-migrate-" ++ id ++ codes "-" ++ name;
  detached = false;
  release_names = [];
  diagnostics = [];
}

abbrev pub preceded : {W : Type 0} → List Event → End W → End W
preceded es end = record end { events = es ++ end.events }

module _ {W : Type 0} (env : World W) (r : Request) where
  -- `cleanupAttempt`
  unfoldable pub cleanup_attempt : Attempt → Option AttemptError → W → List Event × W
  cleanup_attempt a e w = elim a.release_names [
    | [] ↦ ([], w)
    | n ∷ ns ↦
        let removed = env.cleanup a w in
        if r.no_cleanup || a.detached
        then (kept_as_asked ∷ [], w)
        else if r.no_cleanup_on_failure && is_error e
        then (kept_for_inspection ∷ [], w)
        else (cleaned (n ∷ ns) removed.0 ∷ [], removed.1)
  ]

  -- The cleanup that `runAttempt` defers, after what was said so far.
  unfoldable pub finish : Attempt → Option AttemptError → List Event → W → Ran W
  finish a e said w =
      let c = cleanup_attempt a e w in
      record { attempt = a; error = e; events = said ++ c.0; world = c.1 }

  -- `runAttempt`, from the strategy's return on.
  unfoldable pub after_run : Bytes → Bool → Attempt → Option AttemptError → W → Ran W
  after_run name last a none w = finish a none (if a.detached then [] else succeeded name ∷ []) w
  after_run name last a (some e) w =
      let told = narrate_failed_attempt e last r.structured_logs in
      let d = env.collect_diagnostics a w in
      if is_unaccepted e
      then finish a (some e) (told ∷ []) w
      else finish (record a { diagnostics = d.0 }) (some e) (told ∷ diagnosed d.0 ∷ []) d.1

  -- `runAttempt`
  unfoldable pub run_attempt : Bytes → Bool → Attempt → W → Ran W
  run_attempt name last a w =
      let ran = env.run name a w in after_run name last ran.0.0 ran.0.1 ran.1

  -- What the loop does with an attempt's end: it returns on success, stops once cancelled, and
  -- otherwise goes on with the outcome noted.
  abbrev pub rung : Bytes → List Outcome → Ran W → (List Outcome → End W) → End W
  rung name outcomes ran next = elim ran.error [
    | none ↦ record { result = ok (name, ran.attempt); events = []; world = ran.world }
    | some e ↦
        let noted = outcomes ++ record_failed_attempt name ran.attempt e ∷ [] in
        elim (env.is_cancelled ran.world) [
          | true ↦ record { result = err noted; events = []; world = ran.world }
          | false ↦ next noted
        ]
  ]

  -- The loop of `Run` over the strategies, with the outcomes so far.
  unfoldable pub climb : Bytes → List Outcome → List Bytes → W → End W
  climb id outcomes [] w = record { result = err outcomes; events = []; world = w }
  climb id outcomes (name ∷ names) w =
      let ran = run_attempt name (is_last names) (new_attempt id name) w in
      preceded (attempting name ∷ ran.events)
        (rung name outcomes ran (λ noted. climb id noted names ran.world))
