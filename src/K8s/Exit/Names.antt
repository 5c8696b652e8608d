-- ===== src/K8s/Exit/Names.antt =====
-- Whose terminated state explains a failed pod.
use pv_migrate.Common.{
  true, false, List, [], ◌∷◌, some, Bytes, str_eq, is_empty, ◌≡◌, arith, Bool-cases, inl, inr, ◌⊎◌,
  str_eq_sound, Option-cases,
}
use pv_migrate.K8s.Pods.{Pod, ContainerStatus, TerminatedState, has_some_suffix, job_suffixes}
use pv_migrate.K8s.Exit.{data_mover_container, terminated_container_state, terminated_named}

-- A container of the list has the name and ended in the state.
abbrev pub SomeEnded : Bytes → TerminatedState → List ContainerStatus → Type 0
SomeEnded name t [] = ⊥
SomeEnded name t (s ∷ ss) = ((s.name ≡ name) × (s.terminated ≡ some t)) ⊎ SomeEnded name t ss

terminated_named-SomeEnded :
    (name : Bytes) (ss : List ContainerStatus) (t : TerminatedState)
    → terminated_named name ss ≡ some t
    → SomeEnded name t ss
terminated_named-SomeEnded name [] t h = cc
terminated_named-SomeEnded name (s ∷ ss) t h =
    let further = terminated_named-SomeEnded name ss t in
    elim (Option-cases s.terminated) [
      | inl e ↦ inr (further (ground arith))
      | inr (u, e) ↦ elim (Bool-cases (str_eq s.name name)) [
        | inl same ↦ inl (str_eq_sound s.name name same, ground arith)
        | inr other ↦ inr (further (ground arith))
      ]
    ]

data_mover_container-nonempty :
    (job_name : Bytes)
    → has_some_suffix job_name job_suffixes ≡ true
    → is_empty (data_mover_container job_name) ≡ false
unfolding data_mover_container
data_mover_container-nonempty job_name h = ground arith

-- With a data mover's name, only a container of that name is ever read; another's exit code is not.
pub terminated_container_state-SomeEnded :
    (pod : Pod) (job_name : Bytes) (t : TerminatedState)
    → has_some_suffix job_name job_suffixes ≡ true
    → terminated_container_state pod job_name ≡ some t
    → SomeEnded (data_mover_container job_name) t pod.container_statuses
unfolding terminated_container_state
terminated_container_state-SomeEnded pod job_name t mover h =
    terminated_named-SomeEnded (data_mover_container job_name) pod.container_statuses t
      (ground (arith, data_mover_container-nonempty job_name mover))
