-- ===== src/Migrator/Ladder/Exact.antt =====
-- Which strategies the ladder tries, and what it reports of them.
use pv_migrate.Common.{
  append_assoc, append-nil, subst, ◌++◌, Bool, true, List, [], ◌∷◌, Option, none, some, Bytes,
  Result, ok, err, ◌≡◌, refl, ap, sym, ◌∙◌, arith, ◌⊎◌, inl, inr, if◌then◌else◌, Bool-cases,
}
use pv_migrate.Migrator.{
  Request, Attempt, AttemptError, is_unaccepted, unaccepted, declined_with, failure, Outcome,
  record_failed_attempt, exhausted_errors,
}
use pv_migrate.Migrator.Ladder.{
  World, Event, attempting, does_not_apply, failed, succeeded, diagnosed, kept_as_asked,
  kept_for_inspection, cleaned, narrate_failed_attempt, End, cleanup_attempt, finish, after_run,
  run_attempt, is_last, new_attempt, preceded, rung, climb,
}

-- The strategies that were attempted, in order.
unfoldable pub attempted : List Event → List Bytes
attempted [] = []
attempted (attempting name ∷ es) = name ∷ attempted es
attempted (does_not_apply reason ∷ es) = attempted es
attempted (failed text ∷ es) = attempted es
attempted (succeeded name ∷ es) = attempted es
attempted (diagnosed report ∷ es) = attempted es
attempted (kept_as_asked ∷ es) = attempted es
attempted (kept_for_inspection ∷ es) = attempted es
attempted (cleaned names problem ∷ es) = attempted es

-- The strategies whose errors the exhausted ladder wraps.
abbrev pub names_of : List (Bytes × AttemptError) → List Bytes
names_of [] = []
names_of ((name, e) ∷ es) = name ∷ names_of es

attempted-append : (es fs : List Event) → attempted (es ++ fs) ≡ attempted es ++ attempted fs
unfolding attempted
attempted-append [] fs = refl
attempted-append (attempting name ∷ es) fs = ap (λ xs. name ∷ xs) (attempted-append es fs)
attempted-append (does_not_apply reason ∷ es) fs = attempted-append es fs
attempted-append (failed text ∷ es) fs = attempted-append es fs
attempted-append (succeeded name ∷ es) fs = attempted-append es fs
attempted-append (diagnosed report ∷ es) fs = attempted-append es fs
attempted-append (kept_as_asked ∷ es) fs = attempted-append es fs
attempted-append (kept_for_inspection ∷ es) fs = attempted-append es fs
attempted-append (cleaned names problem ∷ es) fs = attempted-append es fs

exhausted_errors-snoc :
    (os : List Outcome) (name : Bytes) (a : Attempt) (e : AttemptError)
    → names_of (exhausted_errors (os ++ record_failed_attempt name a e ∷ []))
      ≡ names_of (exhausted_errors os) ++ name ∷ []
unfolding exhausted_errors record_failed_attempt
exhausted_errors-snoc [] name a e = ground arith
exhausted_errors-snoc (o ∷ os) name a e =
    let rest = exhausted_errors-snoc os name a e in ground arith

module _ {W : Type 0} (env : World W) (r : Request) where
  cleanup-silent :
      (a : Attempt) (e : Option AttemptError) (w : W)
      → attempted (cleanup_attempt env r a e w).0 ≡ []
  unfolding cleanup_attempt attempted
  cleanup-silent a e w = ground arith

  finish-silent :
      (a : Attempt) (e : Option AttemptError) (said : List Event) (w : W)
      → attempted said ≡ []
      → attempted (finish env r a e said w).events ≡ []
  unfolding finish
  finish-silent a e said w h =
      let both = attempted-append said (cleanup_attempt env r a e w).0 in
      let clean = cleanup-silent a e w in
      both ∙ (ap (λ xs. xs ++ attempted (cleanup_attempt env r a e w).0) h ∙ clean)

  narrate-silent :
      (e : AttemptError) (last : Bool) (es : List Event)
      → attempted (narrate_failed_attempt e last r.structured_logs ∷ es) ≡ attempted es
  unfolding narrate_failed_attempt attempted
  narrate-silent (declined_with reason) last es = refl
  narrate-silent unaccepted last es = refl
  narrate-silent (failure text) last es = ground arith

  after_run-silent :
      (name : Bytes) (last : Bool) (a : Attempt) (e : Option AttemptError) (w : W)
      → attempted (after_run env r name last a e w).events ≡ []
  unfolding after_run attempted
  after_run-silent name last a none w =
      finish-silent a none (if a.detached then [] else succeeded name ∷ []) w (ground arith)
  after_run-silent name last a (some e) w =
      let d = env.collect_diagnostics a w in
      let told = narrate_failed_attempt e last r.structured_logs in
      let one = finish-silent a (some e) (told ∷ []) w (narrate-silent e last []) in
      let two =
        finish-silent (record a { diagnostics = d.0 }) (some e) (told ∷ diagnosed d.0 ∷ []) d.1
          (narrate-silent e last (diagnosed d.0 ∷ [])) in
      elim (Bool-cases (is_unaccepted e)) [ inl h ↦ ground arith | inr h ↦ ground arith ]

  abbrev Verdict :
      Result (List Outcome) (Bytes × Attempt) → List Outcome → List Bytes → List Bytes → W → Type 0
  Verdict (ok p) outcomes tried rest w = (before : List Bytes) × tried ≡ before ++ p.0 ∷ []
  Verdict (err os) outcomes tried rest w =
      (names_of (exhausted_errors os) ≡ names_of (exhausted_errors outcomes) ++ tried)
      × ((rest ≡ []) ⊎ (env.is_cancelled w ≡ true))

  -- What the ladder's end says of the strategies it had and the outcomes it started with.
  abbrev Climbed : List Bytes → List Outcome → End W → Type 0
  Climbed names outcomes end =
      (rest : List Bytes) × (names ≡ attempted end.events ++ rest)
      × Verdict end.result outcomes (attempted end.events) rest end.world

  quiet : (es fs : List Event) → attempted es ≡ [] → attempted (es ++ fs) ≡ attempted fs
  quiet es fs h = attempted-append es fs ∙ ap (λ xs. xs ++ attempted fs) h

  Verdict-cons :
      (v : Result (List Outcome) (Bytes × Attempt)) (outcomes noted : List Outcome) (name : Bytes)
      (tried rest : List Bytes) (w : W)
      → names_of (exhausted_errors noted) ≡ names_of (exhausted_errors outcomes) ++ name ∷ []
      → Verdict v noted tried rest w
      → Verdict v outcomes (name ∷ tried) rest w
  Verdict-cons (ok p) outcomes noted name tried rest w h (before, e) =
      (name ∷ before, ap (λ xs. name ∷ xs) e)
  Verdict-cons (err os) outcomes noted name tried rest w h (e, why) = (
    e
        ∙ (ap (λ xs. xs ++ tried) h
            ∙ ground
                (arith, append_assoc (names_of (exhausted_errors outcomes)) (name ∷ []) tried)),
    why,
  )

  preceded-Climbed :
      (name : Bytes) (outcomes noted : List Outcome) (names : List Bytes) (es : List Event)
      (end : End W)
      → attempted es ≡ []
      → names_of (exhausted_errors noted) ≡ names_of (exhausted_errors outcomes) ++ name ∷ []
      → Climbed names noted end
      → Climbed (name ∷ names) outcomes (preceded (attempting name ∷ es) end)
  unfolding attempted
  preceded-Climbed name outcomes noted names es end silent snoc (rest, split, verdict) =
      let only = quiet es end.events silent in
      let tried = attempted end.events in
      (
        rest,
        ap (λ xs. name ∷ xs) (split ∙ ap (λ xs. xs ++ rest) (sym only)),
        subst (λ xs. Verdict end.result outcomes (name ∷ xs) rest end.world) (sym only)
            (Verdict-cons end.result outcomes noted name tried rest end.world snoc verdict),
      )

  rung-Climbed :
      (name : Bytes) (outcomes : List Outcome) (names : List Bytes) (a : Attempt)
      (e : Option AttemptError) (es : List Event) (w : W) (next : List Outcome → End W)
      → attempted es ≡ []
      → ((noted : List Outcome) → Climbed names noted (next noted))
      → Climbed (name ∷ names) outcomes (
          preceded (attempting name ∷ es) (
            rung env r name outcomes
              (record { attempt = a; error = e; events = es; world = w })
              next))
  unfolding attempted
  rung-Climbed name outcomes names a none es w next silent ih =
      let only = quiet es [] silent in
      (names, ap (λ xs. name ∷ (xs ++ names)) (sym only), ([], ap (λ xs. name ∷ xs) only))
  rung-Climbed name outcomes names a (some e) es w next silent ih =
      let noted = outcomes ++ record_failed_attempt name a e ∷ [] in
      let snoc = exhausted_errors-snoc outcomes name a e in
      let stop : End W = record { result = err noted; events = []; world = w } in
      elim (Bool-cases (env.is_cancelled w)) [
        | inl h ↦
            rw (rung, h)
              (preceded-Climbed name outcomes noted names es stop silent snoc
                (names, refl, (sym (append-nil _), inr h)))
        | inr h ↦
            rw (rung, h)
              (preceded-Climbed name outcomes noted names es (next noted) silent snoc (ih noted))
      ]

  climb-Climbed :
      (id : Bytes) (outcomes : List Outcome) (names : List Bytes) (w : W)
      → Climbed names outcomes (climb env r id outcomes names w)
  unfolding climb attempted run_attempt
  climb-Climbed id outcomes [] w = ([], refl, (sym (append-nil _), inl refl))
  climb-Climbed id outcomes (name ∷ names) w =
      let ran = run_attempt env r name (is_last names) (new_attempt id name) w in
      rung-Climbed name outcomes names ran.attempt ran.error ran.events ran.world
        (λ noted. climb env r id noted names ran.world)
        (after_run-silent name (is_last names) _ _ _)
        (λ noted. climb-Climbed id noted names ran.world)

  -- If the ladder succeeds, it attempted the strategies of the list in order up to the one that
  -- succeeded, and none after it.
  pub climb-succeeded :
      (id : Bytes) (names : List Bytes) (w : W) {name : Bytes} {a : Attempt}
      → (climb env r id [] names w).result ≡ ok (name, a)
      → (before : List Bytes) × (rest : List Bytes) × (names ≡ (before ++ name ∷ []) ++ rest)
        × (attempted (climb env r id [] names w).events ≡ before ++ name ∷ [])
  climb-succeeded id names w {name} {a} h =
      let (rest, split, verdict) = climb-Climbed id [] names w in
      let end = climb env r id [] names w in
      let (before, tried) =
        subst (λ v. Verdict v [] (attempted end.events) rest end.world) h verdict in
      (before, rest, split ∙ ap (λ xs. xs ++ rest) tried, tried)

  -- If the ladder is exhausted, it attempted a prefix of the strategies in order, its error wraps
  -- one error of each of them, in that order, and the prefix is the whole list unless the run was
  -- cancelled.
  pub climb-exhausted :
      (id : Bytes) (names : List Bytes) (w : W) {os : List Outcome}
      → (climb env r id [] names w).result ≡ err os
      → (rest : List Bytes) × (names ≡ names_of (exhausted_errors os) ++ rest)
        × (attempted (climb env r id [] names w).events ≡ names_of (exhausted_errors os))
        × ((rest ≡ []) ⊎ (env.is_cancelled (climb env r id [] names w).world ≡ true))
  unfolding exhausted_errors
  climb-exhausted id names w {os} h =
      let (rest, split, verdict) = climb-Climbed id [] names w in
      let end = climb env r id [] names w in
      let (tried, why) =
        subst (λ v. Verdict v [] (attempted end.events) rest end.world) h verdict in
      (rest, split ∙ ap (λ xs. xs ++ rest) (sym tried), sym tried, why)
