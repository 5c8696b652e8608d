-- ===== src/Migrator/Ladder/Protocol.antt =====
-- The order in which the ladder says and does things: an independent machine over the events.
use pv_migrate.Common.{
  ◌++◌, Bool, true, false, List, [], ◌∷◌, Option, none, some, Bytes, Result, ok, err, ◌≡◌, refl, ap,
  sym, ◌∙◌, arith, inl, inr, if◌then◌else◌, Bool-cases, subst, append-nil,
}
use pv_migrate.Migrator.{
  Request, Attempt, AttemptError, is_unaccepted, declined_with, unaccepted, failure, Outcome,
  record_failed_attempt,
}
use pv_migrate.Migrator.Ladder.{
  World, Event, attempting, does_not_apply, failed, succeeded, diagnosed, kept_as_asked,
  kept_for_inspection, cleaned, narrate_failed_attempt, End, cleanup_attempt, finish, after_run,
  run_attempt, is_last, new_attempt, rung, climb,
}

-- `idle`: nothing has failed to be said; `running`: an attempt runs; `broken`: it failed and has to be
-- diagnosed; `beaten`: it failed or declined and may be cleaned up; `won`: it succeeded; `over`: and its
-- resources are seen to.
pub data Phase : Type 0 where
  idle running broken beaten won over : Phase

-- One event; none where it is out of order.
unfoldable pub advance : Phase → Event → Option Phase
advance idle (attempting name) = some running
advance beaten (attempting name) = some running
advance running (does_not_apply reason) = some beaten
advance running (failed text) = some broken
advance running (succeeded name) = some won
advance running kept_as_asked = some over
advance broken (diagnosed report) = some beaten
advance beaten kept_as_asked = some idle
advance beaten kept_for_inspection = some idle
advance beaten (cleaned names problem) = some idle
advance won kept_as_asked = some over
advance won (cleaned names problem) = some over
advance _ _ = none

unfoldable pub follow : Phase → List Event → Option Phase
unfolding advance
follow p [] = some p
follow p (e ∷ es) = elim (advance p e) [ none ↦ none | some q ↦ follow q es ]

-- The phases at which a ladder that succeeded, or one that was exhausted, may end.
abbrev pub fits : Bool → Phase → Bool
fits true idle = false
fits true running = true
fits true broken = false
fits true beaten = false
fits true won = true
fits true over = true
fits false idle = true
fits false running = false
fits false broken = false
fits false beaten = true
fits false won = false
fits false over = false

abbrev pub ends_well : Bool → Option Phase → Bool
ends_well success none = false
ends_well success (some q) = fits success q

abbrev pub is_success : Result (List Outcome) (Bytes × Attempt) → Bool
is_success (ok p) = true
is_success (err os) = false

abbrev is_none : Option AttemptError → Bool
is_none none = true
is_none (some e) = false

abbrev and_then : Option Phase → (Phase → Option Phase) → Option Phase
and_then none k = none
and_then (some q) k = k q

and_then_lem :
    (o : Option Phase) (f g h : Phase → Option Phase)
    → ((q : Phase) → f q ≡ and_then (g q) h)
    → elim o [ none ↦ none | some q ↦ f q ] ≡ and_then (elim o [ none ↦ none | some q ↦ g q ]) h
and_then_lem none f g h e = refl
and_then_lem (some q) f g h e = e q

follow-append :
    (p : Phase) (es fs : List Event)
    → follow p (es ++ fs) ≡ and_then (follow p es) (λ q. follow q fs)
unfolding follow
follow-append p [] fs = refl
follow-append p (e ∷ es) fs =
    and_then_lem (advance p e) (λ q. follow q (es ++ fs)) (λ q. follow q es) (λ q. follow q fs)
      (λ q. follow-append q es fs)

-- The first events may be followed by the rest if they end where the rest starts.
follow-onto :
    (p q : Phase) (es fs : List Event) → follow p es ≡ some q → follow p (es ++ fs) ≡ follow q fs
follow-onto p q es fs h = follow-append p es fs ∙ ap (λ o. and_then o (λ x. follow x fs)) h

module _ {W : Type 0} (env : World W) (r : Request) where
  cleanup-failed :
      (a : Attempt) (e : AttemptError) (w : W)
      → ends_well false (follow beaten (cleanup_attempt env r a (some e) w).0) ≡ true
  unfolding follow advance cleanup_attempt
  cleanup-failed a e w = ground arith

  cleanup-won :
      (a : Attempt) (w : W) → ends_well true (follow won (cleanup_attempt env r a none w).0) ≡ true
  unfolding follow advance cleanup_attempt
  cleanup-won a w = ground arith

  cleanup-detached :
      (a : Attempt) (w : W)
      → a.detached ≡ true
      → ends_well true (follow running (cleanup_attempt env r a none w).0) ≡ true
  unfolding follow advance cleanup_attempt
  cleanup-detached a w h = ground arith

  narrated :
      (e : AttemptError) (last : Bool)
      → advance running (narrate_failed_attempt e last r.structured_logs)
        ≡ some (if is_unaccepted e then beaten else broken)
  unfolding advance narrate_failed_attempt
  narrated (declined_with reason) last = refl
  narrated unaccepted last = refl
  narrated (failure text) last = ground arith

  after_run-ends_well :
      (name : Bytes) (last : Bool) (a : Attempt) (e : Option AttemptError) (w : W)
      → ends_well
          (is_none (after_run env r name last a e w).error)
          (follow running (after_run env r name last a e w).events)
        ≡ true
  unfolding after_run finish follow advance
  after_run-ends_well name last a none w =
      let won_lem = cleanup-won a w in
      elim (Bool-cases a.detached) [
        | inl h ↦ (let gone = cleanup-detached a w h in ground arith)
        | inr h ↦ ground arith
      ]
  after_run-ends_well name last a (some e) w =
      let d = env.collect_diagnostics a w in
      let told = narrated e last in
      let one = cleanup-failed a e w in
      let two = cleanup-failed (record a { diagnostics = d.0 }) e d.1 in
      elim (Bool-cases (is_unaccepted e)) [ inl h ↦ ground arith | inr h ↦ ground arith ]

  attempt-next :
      (p : Phase) (name : Bytes) (es : List Event)
      → fits false p ≡ true
      → follow running es ≡ follow p (attempting name ∷ es)
  unfolding advance follow
  attempt-next idle name es h = refl
  attempt-next running name es h = ground arith
  attempt-next broken name es h = ground arith
  attempt-next beaten name es h = refl
  attempt-next won name es h = ground arith
  attempt-next over name es h = ground arith

  ended :
      (b : Bool) (o : Option Phase)
      → ends_well b o ≡ true
      → (q : Phase) × (o ≡ some q) × (fits b q ≡ true)
  ended b none h = absurd (ground arith)
  ended b (some q) h = (q, refl, h)

  rung-ends_well :
      (p : Phase) (name : Bytes) (outcomes : List Outcome) (a : Attempt) (e : Option AttemptError)
      (es : List Event) (w : W) (next : List Outcome → End W)
      → fits false p ≡ true
      → ends_well (is_none e) (follow running es) ≡ true
      → ((q : Phase) (noted : List Outcome)
          → fits false q ≡ true
          → ends_well (is_success (next noted).result) (follow q (next noted).events) ≡ true)
      → ends_well
          (is_success
            (rung env r name outcomes
              (record { attempt = a; error = e; events = es; world = w })
              next).result)
          (follow running (
            es
            ++ (rung env r name outcomes
                (record { attempt = a; error = e; events = es; world = w })
                next).events))
        ≡ true
  unfolding follow
  rung-ends_well p name outcomes a none es w next h run ih =
      subst (λ xs. ends_well true (follow running xs) ≡ true) (sym (append-nil es)) run
  rung-ends_well p name outcomes a (some e) es w next h run ih =
      let noted = outcomes ++ record_failed_attempt name a e ∷ [] in
      let (q, at, fit) = ended false (follow running es) run in
      elim (Bool-cases (env.is_cancelled w)) [
        | inl c ↦
            rw (rung, c)
              (subst (λ xs. ends_well false (follow running xs) ≡ true) (sym (append-nil es)) run)
        | inr c ↦
            rw (rung, c) (rw (follow-onto running q es (next noted).events at) (ih q noted fit))
      ]

  climb-from :
      (id : Bytes) (p : Phase) (outcomes : List Outcome) (names : List Bytes) (w : W)
      → fits false p ≡ true
      → ends_well
          (is_success (climb env r id outcomes names w).result)
          (follow p (climb env r id outcomes names w).events)
        ≡ true
  unfolding climb follow run_attempt
  climb-from id p outcomes [] w h = h
  climb-from id p outcomes (name ∷ names) w h =
      let ran = run_attempt env r name (is_last names) (new_attempt id name) w in
      let more : List Outcome → End W = λ noted. climb env r id noted names ran.world in
      let end = rung env r name outcomes ran more in
      subst (λ o. ends_well (is_success end.result) o ≡ true)
        (attempt-next p name (ran.events ++ end.events) h)
        (rung-ends_well p name outcomes ran.attempt ran.error ran.events ran.world more h
          (after_run-ends_well name (is_last names) _ _ _)
          (λ q noted. climb-from id q noted names ran.world))

  -- Every ladder keeps to the order of the phases: an attempt starts only after the one before it
  -- failed or declined, a failure is diagnosed before its cleanup, a decline is never diagnosed,
  -- nothing starts after a success, and it ends in success or failure as its result says.
  pub climb-ends_well :
      (id : Bytes) (names : List Bytes) (w : W)
      → ends_well
          (is_success (climb env r id [] names w).result)
          (follow idle (climb env r id [] names w).events)
        ≡ true
  climb-ends_well id names w = climb-from id idle [] names w refl
