-- ===== src/Migrator.antt =====
-- internal/migrator: one migration, from the request to the end of the ladder of strategies.
-- This file has the request, the attempts and their outcomes; the checks, the ladder and the whole
-- run are in the modules below.
pub mod Dedup
pub mod Checks
pub mod Ladder
pub mod Run
mod Fixtures
mod Tests
use pv_migrate.Common.{
  ℕ, ◌++◌, ◌||◌, ◌&&◌, Bool, true, false, not, List, [], ◌∷◌, Option, none, some, Bytes, codes,
  str_eq, if◌then◌else◌, is_empty,
}

-- `PVCInfo` of internal/migration/types.go
pub record PvcRef : Type 0 where
  pub kubeconfig_path : Bytes
  pub context : Bytes
  pub namespace : Bytes
  pub name : Bytes
  pub path : Bytes

-- The fields of `Request` that the migrator itself reads.
pub record Request : Type 0 where
  pub id : Bytes
  pub source : PvcRef
  pub dest : PvcRef
  pub ignore_mounted : Bool
  pub ignore_sizes : Bool
  pub detach : Bool
  pub no_cleanup : Bool
  pub no_cleanup_on_failure : Bool
  pub structured_logs : Bool
  pub strategies : List Bytes
  pub mover : Bytes
  pub rsync_extra_args : Bytes

-- `Attempt`, less the migration that all attempts share.
pub record Attempt : Type 0 where
  pub attempt_id : Bytes
  pub release_prefix : Bytes
  pub detached : Bool
  pub release_names : List Bytes
  pub diagnostics : Bytes

-- The error of an attempt: a `DeclinedError` with its reason, a bare `ErrUnaccepted`, or another.
pub data AttemptError : Type 0 where
  declined_with : Bytes → AttemptError
  unaccepted : AttemptError
  failure : Bytes → AttemptError

-- `errors.Is(err, strategy.ErrUnaccepted)`
abbrev pub is_unaccepted : AttemptError → Bool
is_unaccepted (declined_with reason) = true
is_unaccepted unaccepted = true
is_unaccepted (failure text) = false

-- `err.Error()`
unfoldable pub error_text : AttemptError → Bytes
error_text (declined_with reason) = reason ++ codes ": unaccepted"
error_text unaccepted = codes "unaccepted"
error_text (failure text) = text

-- `attemptOutcome`
pub record Outcome : Type 0 where
  pub strategy : Bytes
  pub is_declined : Bool
  pub error : Option AttemptError
  pub report : Bytes

-- `recordFailedAttempt`
unfoldable pub record_failed_attempt : Bytes → Attempt → AttemptError → Outcome
record_failed_attempt name attempt e =
    if is_unaccepted e
    then record { strategy = name; is_declined = true; error = some e; report = [] }
    else record {
      strategy = name;
      is_declined = false;
      error = some e;
      report = attempt.diagnostics;
    }

-- `status`
unfoldable pub status : Outcome → Bytes
status o = if o.is_declined then codes "declined" else codes "failed"

abbrev reason_or_text : AttemptError → Bytes
reason_or_text (declined_with []) = error_text (declined_with [])
reason_or_text (declined_with (c ∷ reason)) = c ∷ reason
reason_or_text unaccepted = error_text unaccepted
reason_or_text (failure text) = error_text (failure text)

-- `message`
unfoldable pub message : Outcome → Bytes
unfolding error_text
message o = elim o.error [ none ↦ [] | some e ↦ reason_or_text e ]

-- `newLadderExhaustedError`: the errors it wraps, each behind its strategy's name.
unfoldable pub exhausted_errors : List Outcome → List (Bytes × AttemptError)
exhausted_errors [] = []
exhausted_errors (o ∷ os) =
    let rest = exhausted_errors os in elim o.error [ none ↦ rest | some e ↦ (o.strategy, e) ∷ rest ]

abbrev pub mem : Bytes → List Bytes → Bool
mem x [] = false
mem x (y ∷ ys) = str_eq x y || mem x ys

dedup_from : List Bytes → List Bytes → List Bytes → List Bytes
unfolding str_eq
dedup_from seen result [] = result
dedup_from seen result (v ∷ s) =
    let repeated = dedup_from seen result s in
    let fresh = dedup_from (v ∷ seen) (result ++ v ∷ []) s in if mem v seen then repeated else fresh

-- `dedup`, with the map of the values seen as a list.
unfoldable pub dedup : List Bytes → List Bytes
unfolding dedup_from
dedup s = dedup_from [] [] s
