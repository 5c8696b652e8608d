-- ===== src/K8s/Pods/Search.antt =====
-- Where the data mover's job is looked for, by an independent description.
use pv_migrate.Common.{
  ◌++◌, ℕ, zero, suc, Bool, true, ◌&&◌, List, [], ◌∷◌, none, some, Bytes, codes, has_prefix, Result,
  ok, err, ◌≡◌, arith, Result-cases, inl, inr,
}
use pv_migrate.K8s.Pods.{Job, first_mover, find_data_mover_job, has_some_suffix, job_suffixes}

-- The namespaces to list, in their order: the given one, then all of them.
abbrev pub namespaces : Bytes → List Bytes
namespaces [] = [] ∷ []
namespaces (c ∷ ns) = (c ∷ ns) ∷ [] ∷ []

-- The job in the first of the lists that holds one; a list that cannot be had ends the search.
abbrev pub search_in : (Bytes → Result Bytes (List Job)) → Bytes → List Bytes → Result Bytes Job
search_in list_jobs release_prefix [] = err (codes "no job found for migration " ++ release_prefix)
search_in list_jobs release_prefix (ns ∷ nss) = elim (list_jobs ns) [
  | err e ↦ err (codes "failed to list jobs: " ++ e)
  | ok jobs ↦ elim (first_mover release_prefix jobs) [
    | some j ↦ ok j
    | none ↦ search_in list_jobs release_prefix nss
  ]
]

-- The search ends within two listings, and looks in the namespace before it looks everywhere.
pub find_data_mover_job_terminates :
    (list_jobs : Bytes → Result Bytes (List Job)) (fuel : ℕ) (ns release_prefix : Bytes)
    → find_data_mover_job list_jobs (suc (suc fuel)) ns release_prefix
      ≡ some (search_in list_jobs release_prefix (namespaces ns))
unfolding find_data_mover_job
find_data_mover_job_terminates list_jobs fuel [] release_prefix = ground arith
find_data_mover_job_terminates list_jobs fuel (c ∷ ns) release_prefix = ground arith

abbrev pub is_mover_of : Bytes → Job → Bool
is_mover_of release_prefix j =
    has_prefix j.name release_prefix && has_some_suffix j.name job_suffixes

first_mover-is_mover_of :
    (release_prefix : Bytes) (js : List Job) (j : Job)
    → first_mover release_prefix js ≡ some j
    → is_mover_of release_prefix j ≡ true
unfolding first_mover
first_mover-is_mover_of release_prefix [] j h = cc
first_mover-is_mover_of release_prefix (k ∷ js) j h =
    ground (arith, first_mover-is_mover_of release_prefix js j)

-- A job that is found belongs to the release and to a data mover.
pub find_data_mover_job-is_mover_of :
    (list_jobs : Bytes → Result Bytes (List Job)) (fuel : ℕ) (ns release_prefix : Bytes) (j : Job)
    → find_data_mover_job list_jobs fuel ns release_prefix ≡ some (ok j)
    → is_mover_of release_prefix j ≡ true
unfolding find_data_mover_job
find_data_mover_job-is_mover_of list_jobs zero ns release_prefix j h = cc
find_data_mover_job-is_mover_of list_jobs (suc fuel) ns release_prefix j h =
    let everywhere = find_data_mover_job-is_mover_of list_jobs fuel [] release_prefix j in
    elim (Result-cases (list_jobs ns)) [
      | inl (e, failed) ↦ ground arith
      | inr (js, listed) ↦ ground (arith, first_mover-is_mover_of release_prefix js j)
    ]
