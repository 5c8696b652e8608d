-- ===== src/K8s/Diagnostics/Shadowed.antt =====
-- The rows that are dropped, by a filter that writes over nothing.
use pv_migrate.Console.{Palette}
use pv_migrate.Common.{
  ◌++◌, ℕ, ◌≤◌, Bool, true, false, ◌&&◌, ◌||◌, List, [], ◌∷◌, Bytes, if◌then◌else◌, ◌==◌, length,
  drop, drop-append, length-append, append-nil, append_assoc, ◌≡◌, refl, arith, Bool-cases, inl,
  inr, ap, sym, ◌∙◌, All, suc, zero, str_eq, codes, subst, Result, ok, err, All-append, map,
}
use pv_migrate.K8s.Diagnostics.{
  ByUid, kept_fact, drop_shadowed_from, drop_shadowed_quiet_facts, has_pod_of_workload, Listing,
  list_workloads, facts_of,
}
use pv_migrate.K8s.Diagnostics.Facts.{
  WorkloadFacts, pod_facts, service_facts, job_facts, deployment_facts, replica_set_facts,
}

-- A row that repeats what its pods say: quiet, with no events, and with a pod among the facts.
abbrev pub is_shadowed : ByUid → List WorkloadFacts → WorkloadFacts → Bool
is_shadowed events facts f =
    f.quiet && (length (events f.uid) == 0 && has_pod_of_workload f.name facts)

abbrev pub unshadowed : ByUid → (facts rest : List WorkloadFacts) → List WorkloadFacts
unshadowed events facts [] = []
unshadowed events facts (f ∷ fs) =
    if is_shadowed events facts f
    then unshadowed events facts fs
    else kept_fact events f ∷ unshadowed events facts fs

-- Only owners' rows are quiet.
abbrev pub PodsSpeak : List WorkloadFacts → Type 0
PodsSpeak = All (λ f. str_eq f.kind (codes "pod") ≡ true → f.quiet ≡ false)

has_pod-append :
    (name : Bytes) (fs gs : List WorkloadFacts)
    → has_pod_of_workload name (fs ++ gs)
      ≡ (has_pod_of_workload name fs || has_pod_of_workload name gs)
unfolding has_pod_of_workload
has_pod-append name [] gs = refl
has_pod-append name (f ∷ fs) gs = ground (arith, has_pod-append name fs gs)

has_pod-drop :
    (name : Bytes) (n : ℕ) (fs : List WorkloadFacts)
    → has_pod_of_workload name (drop n fs) ≡ true
    → has_pod_of_workload name fs ≡ true
unfolding has_pod_of_workload
has_pod-drop name zero fs h = h
has_pod-drop name (suc n) [] h = h
has_pod-drop name (suc n) (f ∷ fs) h = ground (arith, has_pod-drop name n fs h)

-- The array that is read while it is written holds the pods of the facts.
has_pod-array :
    (name : Bytes) (seen kept rest : List WorkloadFacts)
    → length kept ≤ length seen
    → has_pod_of_workload name kept ≡ has_pod_of_workload name seen
    → has_pod_of_workload name (kept ++ drop (length kept) (seen ++ rest))
      ≡ has_pod_of_workload name (seen ++ rest)
has_pod-array name seen kept rest shorter same =
    ap (λ fs. has_pod_of_workload name (kept ++ fs)) (drop-append (length kept) seen rest shorter)
    ∙ has_pod-append name kept (drop (length kept) seen ++ rest)
    ∙ ground (
      arith,
      same,
      has_pod-append name (drop (length kept) seen) rest,
      has_pod-drop name (length kept) seen,
      has_pod-append name seen rest,
    )

-- What has been kept says of each workload what was seen does.
abbrev SamePods : List WorkloadFacts → List WorkloadFacts → Type 0
SamePods kept seen = (name : Bytes) → has_pod_of_workload name kept ≡ has_pod_of_workload name seen

has_pod-kept_fact :
    (name : Bytes) (events : ByUid) (f : WorkloadFacts) (fs : List WorkloadFacts)
    → has_pod_of_workload name (kept_fact events f ∷ fs) ≡ has_pod_of_workload name (f ∷ fs)
unfolding has_pod_of_workload
has_pod-kept_fact name events f fs = ground arith

SamePods-quiet :
    (kept seen : List WorkloadFacts) (f : WorkloadFacts)
    → SamePods kept seen
    → (str_eq f.kind (codes "pod") ≡ true → f.quiet ≡ false)
    → f.quiet ≡ true
    → SamePods kept (seen ++ f ∷ [])
unfolding has_pod_of_workload
SamePods-quiet kept seen f same speaks quiet name =
    ground (arith, same name, speaks, quiet, has_pod-append name seen (f ∷ []))

SamePods-kept :
    (events : ByUid) (kept seen : List WorkloadFacts) (f : WorkloadFacts)
    → SamePods kept seen
    → SamePods (kept ++ kept_fact events f ∷ []) (seen ++ f ∷ [])
SamePods-kept events kept seen f same name = ground (
  arith,
  same name,
  has_pod-append name seen (f ∷ []),
  has_pod-append name kept (kept_fact events f ∷ []),
  has_pod-kept_fact name events f [],
)

drop_shadowed_from-unshadowed :
    (events : ByUid) (facts seen kept rest : List WorkloadFacts)
    → facts ≡ seen ++ rest
    → length kept ≤ length seen
    → SamePods kept seen
    → PodsSpeak rest
    → drop_shadowed_from events facts kept rest ≡ kept ++ unshadowed events facts rest
unfolding drop_shadowed_from
drop_shadowed_from-unshadowed events facts seen kept [] e shorter same speak = sym (append-nil kept)
drop_shadowed_from-unshadowed events facts seen kept (f ∷ fs) e shorter same (speaks, speak) =
    let array : (has_pod_of_workload f.name (kept ++ drop (length kept) facts)
        ≡ has_pod_of_workload f.name facts) =
      subst
        (λ gs.
          has_pod_of_workload f.name (kept ++ drop (length kept) gs)
          ≡ has_pod_of_workload f.name gs)
        (sym e) (has_pod-array f.name seen kept (f ∷ fs) shorter (same f.name)) in
    let seen_now : facts ≡ (seen ++ f ∷ []) ++ fs = e ∙ sym (append_assoc seen (f ∷ []) fs) in
    let longer = length-append seen (f ∷ []) in
    elim (Bool-cases (is_shadowed events facts f)) [
      | inl shadowed ↦
          let rest =
            drop_shadowed_from-unshadowed events facts (seen ++ f ∷ []) kept fs seen_now
              (omega (arith, longer, shorter))
              (SamePods-quiet kept seen f same speaks (ground (arith, shadowed))) speak in
          ground (arith, shadowed, array, rest)
      | inr shown ↦
          let rest =
            drop_shadowed_from-unshadowed events facts (seen ++ f ∷ [])
              (kept ++ kept_fact events f ∷ []) fs seen_now
              (omega (arith, longer, shorter, length-append kept (kept_fact events f ∷ [])))
              (SamePods-kept events kept seen f same) speak in
          ground (
            arith,
            shown,
            array,
            rest,
            append_assoc kept (kept_fact events f ∷ []) (unshadowed events facts fs),
          )
    ]

drop_shadowed_quiet_facts-unshadowed :
    (facts : List WorkloadFacts) (events : ByUid)
    → PodsSpeak facts
    → drop_shadowed_quiet_facts facts events ≡ unshadowed events facts facts
unfolding drop_shadowed_quiet_facts
drop_shadowed_quiet_facts-unshadowed facts events speak =
    drop_shadowed_from-unshadowed events facts [] [] facts refl (omega arith) (λ name. refl) speak

map-PodsSpeak {ℓ} :
    {A : Type ℓ} (f : A → WorkloadFacts) (xs : List A)
    → ((x : A) → str_eq (f x).kind (codes "pod") ≡ true → (f x).quiet ≡ false)
    → PodsSpeak (map f xs)
map-PodsSpeak f [] h = tt
map-PodsSpeak f (x ∷ xs) h = (h x, map-PodsSpeak f xs h)

facts_of-PodsSpeak {ℓ} :
    {A : Type ℓ} (f : A → WorkloadFacts) (xs : Result Bytes (List A))
    → ((x : A) → str_eq (f x).kind (codes "pod") ≡ true → (f x).quiet ≡ false)
    → PodsSpeak (facts_of f xs)
facts_of-PodsSpeak f (err e) h = tt
facts_of-PodsSpeak f (ok xs) h = map-PodsSpeak f xs h

PodsSpeak-append : (fs gs : List WorkloadFacts) → PodsSpeak fs → PodsSpeak gs → PodsSpeak (fs ++ gs)
PodsSpeak-append = All-append (λ f. str_eq f.kind (codes "pod") ≡ true → f.quiet ≡ false)

-- The facts of a release.
list_workloads-PodsSpeak : (p : Palette) (l : Listing) → PodsSpeak (list_workloads p l).0
unfolding list_workloads pod_facts service_facts job_facts deployment_facts replica_set_facts str_eq
list_workloads-PodsSpeak p l =
    PodsSpeak-append _ _ (facts_of-PodsSpeak (pod_facts p) l.pods (λ x h. refl)) (
      PodsSpeak-append _ _ (facts_of-PodsSpeak (service_facts p) l.services (λ x h. refl)) (
        PodsSpeak-append _ _ (facts_of-PodsSpeak (job_facts p) l.jobs (λ x h. cc)) (
          PodsSpeak-append _ _ (facts_of-PodsSpeak (deployment_facts p) l.deployments (λ x h. refl))
            (facts_of-PodsSpeak (replica_set_facts p) l.replica_sets (λ x h. refl)))))

-- Filtering the facts in place drops the same rows as filtering a copy, and keeps the others in their
-- order: what is written over is no pod that a later row is looked up by.
pub drop_shadowed_quiet_facts-list_workloads :
    (p : Palette) (l : Listing) (events : ByUid)
    → let facts = (list_workloads p l).0 in
      drop_shadowed_quiet_facts facts events ≡ unshadowed events facts facts
drop_shadowed_quiet_facts-list_workloads p l events =
    drop_shadowed_quiet_facts-unshadowed (list_workloads p l).0 events
      (list_workloads-PodsSpeak p l)
