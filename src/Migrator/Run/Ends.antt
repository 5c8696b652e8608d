-- ===== src/Migrator/Run/Ends.antt =====
-- How a run may end.
use pv_migrate.Common.{
  ◌++◌, ◌&&◌, Bool, true, List, [], ◌∷◌, none, Bytes, Result, ok, err, map_err, ◌≡◌, refl, ap, sym,
  ◌∙◌, subst, ◌⊎◌, inl, inr, >>=-eq-ok, map_err-eq-ok, arith,
}
use pv_migrate.Strategy.Mover.{check_mover_flags}
use pv_migrate.Pvc.{Info}
use pv_migrate.Migrator.{Request, Attempt, AttemptError, Outcome, exhausted_errors, mem, dedup}
use pv_migrate.Migrator.Checks.{Quantities}
use pv_migrate.Migrator.Ladder.{World, Event, climb}
use pv_migrate.Migrator.Ladder.Exact.{attempted, climb-succeeded, climb-exhausted, names_of}
use pv_migrate.Migrator.Run.{
  get_strategies, strategy_names, RunError, bad_flags, strategy_not_found, ladder_exhausted, Site,
  Finish, preflight, prepare, migration_id, conclude, run,
}

-- Every name is a strategy's.
abbrev pub all_known : List Bytes → Bool
all_known [] = true
all_known (n ∷ ns) = mem n strategy_names && all_known ns

-- Names that are found are all strategies'.
pub get_strategies-ok : (names : List Bytes) → get_strategies names ≡ ok tt → all_known names ≡ true
unfolding get_strategies
get_strategies-ok [] h = refl
get_strategies-ok (n ∷ names) h = let rest = get_strategies-ok names in ground arith

Result-cases {ℓ κ} :
    {A : Type ℓ} {B : Type κ} (x : Result A B) → ((b : B) × (x ≡ ok b)) ⊎ ((a : A) × (x ≡ err a))
Result-cases (ok b) = inl (b, refl)
Result-cases (err a) = inr (a, refl)

module _ {q : Quantities} {C E W : Type 0} (site : Site q C E) (env : World W) where
  prepare-preflight :
      (r : Request) {claims : Info q.Quantity × Info q.Quantity}
      → prepare site env r ≡ ok claims
      → (check_mover_flags r.mover r.rsync_extra_args ≡ ok tt) × (all_known r.strategies ≡ true)
  unfolding prepare preflight
  prepare-preflight r h =
      let (u, e, h₁) = >>=-eq-ok (preflight r) _ h in
      let (u₁, e₁, h₂) =
        >>=-eq-ok (map_err bad_flags (check_mover_flags r.mover r.rsync_extra_args)) _ e in
      (
        map_err-eq-ok bad_flags _ e₁,
        get_strategies-ok r.strategies (map_err-eq-ok strategy_not_found _ h₂),
      )

  conclude-events :
      (r : Request) (v : Result (List Outcome) (Bytes × Attempt)) (es : List Event) (w : W)
      → let end = conclude site env r (record { result = v; events = es; world = w }) in
        (end.events ≡ es) × (end.world ≡ w)
  conclude-events r (ok p) es w = (refl, refl)
  conclude-events r (err os) es w = (refl, refl)

  conclude-ok :
      (r : Request) (v : Result (List Outcome) (Bytes × Attempt)) (es : List Event) (w : W)
      → (conclude site env r (record { result = v; events = es; world = w })).result ≡ ok tt
      → (p : Bytes × Attempt) × (v ≡ ok p)
  conclude-ok r (ok p) es w h = (p, refl)
  conclude-ok r (err os) es w h = absurd (cc)

  conclude-err :
      (r : Request) (v : Result (List Outcome) (Bytes × Attempt)) (es : List Event) (w : W)
      {e : RunError E}
      → (conclude site env r (record { result = v; events = es; world = w })).result ≡ err e
      → (os : List Outcome) × (v ≡ err os) × (e ≡ ladder_exhausted (exhausted_errors os))
  conclude-err r (ok p) es w h = absurd (cc)
  conclude-err r (err os) es w h = (os, refl, cc)

  run-prepared :
      (r : Request) (w : W) {claims : Info q.Quantity × Info q.Quantity}
      → prepare site env r ≡ ok claims
      → run site env r w
        ≡ conclude site env r (climb env r (migration_id site env r) [] (dedup r.strategies) w)
  unfolding run
  run-prepared r w p = rw (run, p) refl

  run-unprepared :
      (r : Request) (w : W) {e : RunError E}
      → prepare site env r ≡ err e
      → run site env r w
        ≡ record { result = err e; events = []; told_detached = none; reported = []; world = w }
  unfolding run
  run-unprepared r w p = rw (run, p) refl

  -- A run that returns without an error had flags that are accepted, strategies that are all known and
  -- a migration that passed every check, and it attempted the strategies of the request in order, without
  -- repetitions, up to one of them and none after it.
  pub run-succeeded :
      (r : Request) (w : W)
      → (run site env r w).result ≡ ok tt
      → (check_mover_flags r.mover r.rsync_extra_args ≡ ok tt)
        × (all_known r.strategies ≡ true)
        × ((claims : Info q.Quantity × Info q.Quantity) × (prepare site env r ≡ ok claims))
        × ((before : List Bytes) × (name : Bytes) × (rest : List Bytes) × (dedup r.strategies
              ≡ (before ++ name ∷ []) ++ rest)
            × (attempted (run site env r w).events ≡ before ++ name ∷ []))
  run-succeeded r w h = elim (Result-cases (prepare site env r)) [
    | inr (e, p) ↦
        let stop = ap (λ (f : Finish E W). f.result) (run-unprepared r w p) in absurd (cc)
    | inl (claims, p) ↦
        let end = climb env r (migration_id site env r) [] (dedup r.strategies) w in
        let same = run-prepared r w p in
        let (tried, still) = conclude-events r end.result end.events end.world in
        let (winner, v) =
          conclude-ok r end.result end.events end.world
            (ap (λ (f : Finish E W). f.result) (sym same) ∙ h) in
        let (before, rest, split, all) =
          climb-succeeded env r (migration_id site env r) (dedup r.strategies) w {name = winner.0}
            {a = winner.1} v in
        let (flags, known) = prepare-preflight r p in
        (
          flags,
          known,
          (claims, p),
          (
            before,
            winner.0,
            rest,
            split,
            ap (λ (f : Finish E W). attempted f.events) same ∙ ap attempted tried ∙ all,
          ),
        )
  ]

  -- A run that fails has either attempted nothing and left everything as it was, or it exhausted
  -- the ladder: its error wraps one error of each strategy it attempted, in order, and those are all the
  -- strategies of the request, without repetitions, unless the run was cancelled.
  pub run-failed :
      (r : Request) (w : W) {e : RunError E}
      → (run site env r w).result ≡ err e
      → ((attempted (run site env r w).events ≡ []) × ((run site env r w).world ≡ w))
        ⊎ ((errors : List (Bytes × AttemptError)) × (rest : List Bytes) × (e
              ≡ ladder_exhausted errors)
            × (dedup r.strategies ≡ names_of errors ++ rest)
            × (attempted (run site env r w).events ≡ names_of errors)
            × ((rest ≡ []) ⊎ (env.is_cancelled (run site env r w).world ≡ true)))
  unfolding attempted
  run-failed r w {e} h = elim (Result-cases (prepare site env r)) [
    | inr (e', p) ↦
        let same = run-unprepared r w p in
        inl
          (ap (λ (f : Finish E W). attempted f.events) same, ap (λ (f : Finish E W). f.world) same)
    | inl (claims, p) ↦
        let end = climb env r (migration_id site env r) [] (dedup r.strategies) w in
        let same = run-prepared r w p in
        let (tried, still) = conclude-events r end.result end.events end.world in
        let (os, v, why) =
          conclude-err r end.result end.events end.world
            (ap (λ (f : Finish E W). f.result) (sym same) ∙ h) in
        let (rest, split, all, stop) =
          climb-exhausted env r (migration_id site env r) (dedup r.strategies) w v in
        let here : (run site env r w).world ≡ end.world =
          ap (λ (f : Finish E W). f.world) same ∙ still in
        inr (
          exhausted_errors os,
          rest,
          why,
          split,
          ap (λ (f : Finish E W). attempted f.events) same ∙ ap attempted tried ∙ all,
          subst (λ x. (rest ≡ []) ⊎ (env.is_cancelled x ≡ true)) (sym here) stop,
        )
  ]
