-- ===== src/Strategy/Release/Values.antt =====
-- The values of a release, and what its install waits for.
use pv_migrate.Common.{
  Bool, true, false, List, [], ◌∷◌, some, Bytes, codes, Result, ok, err, ◌≡◌, refl, arith, str_eq,
  Bool-cases, Option-cases, inl, inr, ap, ◌∙◌, ◌⊎◌, pos,
}
use pv_migrate.Helm.{
  table, number, Table, get, put, as_table, enabled_component, component_namespace, text,
}
use pv_migrate.Helm.Asked.{get-put, get-put_other}
use pv_migrate.Strategy.Release.{
  sshd_component, rsync_component, ssh_port, change_section, non_root_section, non_root_sshd,
  apply_non_root_values, installs_load_balancer, legacy, hook_only, Installer, run_install,
  describe_release, wait_strategy, Step, helm_waits, sshd_pod_waits, non_root_security_context,
  non_root_pod_security_context, installed, Installed, deadline_exceeded, install_failed,
}

-- A release with a load balancer's service has the sshd component.
installs_load_balancer-sshd :
    (values : Table)
    → installs_load_balancer values ≡ true
    → (sshd : Table) × (enabled_component values sshd_component ≡ some sshd)
unfolding installs_load_balancer enabled_component
installs_load_balancer-sshd values h = elim (Option-cases (as_table (get values sshd_component))) [
  | inl missing ↦ let no : ⊥ = ground (arith, h, missing) in elim no [ ]
  | inr (sshd, there) ↦ (sshd, ground (arith, h, there))
]

abbrev pub succeeds : Result Bytes (Unit {0}) → Bool
succeeds (ok done) = true
succeeds (err e) = false

Installed-cases :
    (x : Installed)
    → (x ≡ installed)
      ⊎ (((e : Bytes) × (x ≡ deadline_exceeded e)) ⊎ ((e : Bytes) × (x ≡ install_failed e)))
Installed-cases installed = inl refl
Installed-cases (deadline_exceeded e) = inr (inl (e, refl))
Installed-cases (install_failed e) = inr (inr (e, refl))

-- An install without an error is one that Helm made.
succeeds-installed :
    (i : Installer) (timeout : Bytes) (values : Table)
    → succeeds (run_install i timeout values).1 ≡ true
    → i.run (wait_strategy values) values ≡ installed
unfolding run_install
succeeds-installed i timeout values h =
    elim (Installed-cases (i.run (wait_strategy values) values)) [
      | inl done ↦ done
      | inr (inl (e, late)) ↦ let no : ⊥ = ground (arith, h, late) in elim no [ ]
      | inr (inr (e, broken)) ↦ let no : ⊥ = ground (arith, h, broken) in elim no [ ]
    ]

-- Helm installed the release having been told to wait for its resources; or, for a load balancer's service, having
-- been told to wait for its hooks only, and then the sshd pod of the release was waited for until it was ready.
abbrev pub Waited : Installer → Table → List Step → Type 0
Waited i values steps =
    ((rest : List Step) × (installs_load_balancer values ≡ false)
      × (i.run legacy values ≡ installed)
      × (steps ≡ helm_waits legacy ∷ rest))
    ⊎ ((sshd : Table) × (installs_load_balancer values ≡ true)
        × (enabled_component values sshd_component ≡ some sshd)
        × (i.run hook_only values ≡ installed)
        × (steps ≡ helm_waits hook_only ∷ sshd_pod_waits (component_namespace sshd) ∷ [])
        × (succeeds (i.wait_for_pod_ready (component_namespace sshd)) ≡ true))

-- No release that is installed goes without a wait: without a load balancer's service, Helm installed it having
-- been told to wait for its resources; with one, Helm installed it having been told to wait for its hooks only, the
-- release has an sshd component, and its pod was then waited for and seen ready.
pub run_install-Waited :
    (i : Installer) (timeout : Bytes) (values : Table)
    → succeeds (run_install i timeout values).1 ≡ true
    → Waited i values (run_install i timeout values).0
unfolding run_install describe_release
run_install-Waited i timeout values h = elim (Bool-cases (installs_load_balancer values)) [
  | inr other ↦
      let done = succeeds-installed i timeout values h in
      inl (
        (describe_release i values).0,
        other,
        ground (arith, other, done),
        ground (arith, other, done),
      )
  | inl balanced ↦
      let (sshd, there) = installs_load_balancer-sshd values balanced in
      let done = succeeds-installed i timeout values h in
      inr (
        sshd,
        balanced,
        there,
        ground (arith, balanced, done),
        ground (arith, h, balanced, there, done),
        ground (arith, h, balanced, there, done),
      )
]

get-change_section :
    (change : Table → Table) (component : Bytes) (values section : Table)
    → as_table (get values component) ≡ some section
    → as_table (get (change_section change component values) component) ≡ some (change section)
get-change_section change component values section there =
    let put_there = get-put component (table (change section)) values in
    ground (arith, there, put_there)

get-change_section_other :
    (change : Table → Table) (component other : Bytes) (values : Table)
    → str_eq component other ≡ false
    → get (change_section change component values) other ≡ get values other
get-change_section_other change component other values apart =
    elim (Option-cases (as_table (get values component))) [
      | inl missing ↦ ground (arith, missing)
      | inr (section, there) ↦
          ground (arith, there, get-put_other component other (table (change section)) values apart)
    ]

-- What a non-root run gives the sshd component, where it is there: the port that the strategies connect to,
-- and an account that is not root.
pub apply_non_root_values-sshd :
    (values section : Table)
    → as_table (get values sshd_component) ≡ some section
    → (sshd : Table) × (as_table (get (apply_non_root_values true values) sshd_component)
        ≡ some sshd)
      × (get sshd (codes "containerPort") ≡ some (number (pos (ssh_port true))))
      × (get sshd (codes "securityContext") ≡ some (table non_root_security_context))
unfolding apply_non_root_values ssh_port str_eq
apply_non_root_values-sshd values section there =
    let first = change_section non_root_section sshd_component values in
    let second = change_section non_root_section rsync_component first in
    let sshd = non_root_sshd (non_root_section section) in
    let in_first = get-change_section non_root_section sshd_component values section there in
    let in_second : as_table (get second sshd_component) ≡ some (non_root_section section) =
      ap as_table
        (get-change_section_other non_root_section rsync_component sshd_component first refl)
      ∙ in_first in
    let ports =
      get-put_other (codes "publicKeyMountPath") (codes "containerPort")
        (text (codes "/home/pvmigrate/.ssh/authorized_keys"))
        (put (codes "containerPort") (number (pos 2222)) (non_root_section section)) refl in
    (
      sshd,
      get-change_section non_root_sshd sshd_component second (non_root_section section) in_second,
      ports ∙ get-put (codes "containerPort") (number (pos 2222)) (non_root_section section),
      get-put_other (codes "publicKeyMountPath") (codes "securityContext")
            (text (codes "/home/pvmigrate/.ssh/authorized_keys"))
            (put (codes "containerPort") (number (pos 2222)) (non_root_section section)) refl
          ∙ get-put_other (codes "containerPort") (codes "securityContext") (number (pos 2222))
              (non_root_section section) refl
          ∙ get-put_other (codes "podSecurityContext") (codes "securityContext")
              (table non_root_pod_security_context)
              (put (codes "securityContext") (table non_root_security_context) section) refl
          ∙ get-put (codes "securityContext") (table non_root_security_context) section,
    )
