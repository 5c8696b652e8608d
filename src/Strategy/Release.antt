-- ===== src/Strategy/Release.antt =====
-- internal/strategy/strategy.go: what is put into a Helm release, its install and its removal. Helm itself, and
-- the merging of maps that is its own, are arguments.
pub mod Removal
pub mod Values
mod Tests
use pv_migrate.Common.{
  ◌++◌, ℕ, Bool, true, false, ◌&&◌, ◌||◌, not, List, [], ◌∷◌, Option, none, some, Bytes, codes,
  is_empty, Result, ok, err, if◌then◌else◌, str_eq, ℤ, pos, ◌>>=◌, ◌>>◌, map_err,
}
use pv_migrate.Helm.{
  Value, text, flag, number, table, Table, empty, entry, get, put, as_table, is_flag, as_text,
  key_enabled, enabled_component, component_namespace, disable_network_policies,
}

-- The source's or the destination's cluster and namespace.
pub data Side : Type 0 where
  source dest : Side

-- What uninstalling answers.
pub data Uninstalled : Type 0 where
  removed : Uninstalled
  not_found : Uninstalled
  refused : Bytes → Uninstalled

-- Helm, over a state of the clusters.
pub record Helm (W : Type 0) : Type 0 where
  pub init : Side → Result Bytes (Unit {0})
  pub uninstall : Side → Bytes → W → Uninstalled × W

module _ {W : Type 0} (helm : Helm W) where
  -- `cleanupForPVC`: whether there was one to remove.
  unfoldable pub cleanup_for_pvc : Bytes → Side → W → Result Bytes Bool × W
  cleanup_for_pvc name side w = elim (helm.init side) [
    | err e ↦ (err (codes "failed to initialize helm action config: " ++ e), w)
    | ok done ↦
        (let (answer, next) = helm.uninstall side name w in
          (
            elim answer [
              | removed ↦ ok true
              | not_found ↦ ok false
              | refused e ↦
                  err (codes "failed to uninstall helm release " ++ (name ++ (codes ": " ++ e)))
            ],
            next,
          ))
  ]

  -- The narrated removals, and the errors.
  abbrev pub Report : Type 0
  Report = List (Side × Bytes) × List Bytes

  abbrev pub reported : Side → Bytes → Result Bytes Bool → Report → Report
  reported side name (err e) (told, errors) = (told, e ∷ errors)
  reported side name (ok true) (told, errors) = ((side, name) ∷ told, errors)
  reported side name (ok false) report = report

  -- The loop over the releases, on one side.
  unfoldable pub cleanup_side : Side → List Bytes → W → Report × W
  cleanup_side side [] w = (([], []), w)
  cleanup_side side (name ∷ names) w =
      let (answer, next) = cleanup_for_pvc name side w in
      let (report, last) = cleanup_side side names next in (reported side name answer report, last)

  -- `Cleanup`: the errors that it joins; none is its `nil`.
  unfoldable pub cleanup : List Bytes → W → Report × W
  cleanup names w =
      let (at_source, next) = cleanup_side source names w in
      let (at_dest, last) = cleanup_side dest names next in
      ((at_source.0 ++ at_dest.0, at_source.1 ++ at_dest.1), last)

abbrev pub sshd_component : Bytes
sshd_component = codes "sshd"

abbrev pub rsync_component : Bytes
rsync_component = codes "rsync"

-- `sshPort`
unfoldable pub ssh_port : Bool → ℕ
ssh_port non_root = if non_root then 2222 else 22

abbrev non_root_uid : Value
non_root_uid = number (pos 10000)

abbrev pub non_root_security_context : Table
non_root_security_context = put (codes "runAsNonRoot") (flag true) (
    put (codes "runAsUser") non_root_uid (
      put (codes "runAsGroup") non_root_uid
        (put (codes "allowPrivilegeEscalation") (flag false) empty)))

abbrev pub non_root_pod_security_context : Table
non_root_pod_security_context = put (codes "fsGroup") non_root_uid empty

-- A component's section is changed where it is there.
abbrev pub change_section : (Table → Table) → Bytes → Table → Table
change_section change component values = elim (as_table (get values component)) [
  | none ↦ values
  | some section ↦ put component (table (change section)) values
]

abbrev pub non_root_section : Table → Table
non_root_section section =
    put (codes "podSecurityContext") (table non_root_pod_security_context)
      (put (codes "securityContext") (table non_root_security_context) section)

abbrev pub non_root_sshd : Table → Table
non_root_sshd section =
    put (codes "publicKeyMountPath") (text (codes "/home/pvmigrate/.ssh/authorized_keys"))
      (put (codes "containerPort") (number (pos 2222)) section)

-- `applyNonRootValues`
unfoldable pub apply_non_root_values : Bool → Table → Table
apply_non_root_values non_root values =
    if not non_root
    then values
    else change_section non_root_sshd sshd_component (
        change_section non_root_section rsync_component
          (change_section non_root_section sshd_component values))

-- The `--set` values of `getMergedHelmValues`: the image tags stand before the user's.
unfoldable pub helm_set_values : (image_tag : Bytes) → List Bytes → List Bytes
helm_set_values image_tag helm_values =
    if is_empty image_tag
    then helm_values
    else (codes "rsync.image.tag=" ++ image_tag)
      ∷ (codes "sshd.image.tag=" ++ image_tag)
      ∷ helm_values

-- `installsLoadBalancer`
unfoldable pub installs_load_balancer : Table → Bool
installs_load_balancer values = elim (as_table (get values sshd_component)) [
  | none ↦ false
  | some sshd ↦
      if not (is_flag true (get sshd key_enabled))
      then false
      else elim (as_table (get sshd (codes "service"))) [
        | none ↦ false
        | some service ↦ str_eq (as_text (get service (codes "type"))) (codes "LoadBalancer")
      ]
]

pub data WaitStrategy : Type 0 where
  legacy hook_only : WaitStrategy

pub data Installed : Type 0 where
  installed : Installed
  deadline_exceeded : Bytes → Installed
  install_failed : Bytes → Installed

-- What an install needs of Helm and of the cluster.
pub record Installer : Type 0 where
  pub init : Result Bytes (Unit {0})
  pub can_create : Bytes → Result Bytes Bool
  pub merge_user_values : List Bytes → Result Bytes Table
  pub merge_maps : Table → Table → Table
  pub run : WaitStrategy → Table → Installed
  pub wait_for_pod_ready : Bytes → Result Bytes (Unit {0})

-- `getMergedHelmValues`
unfoldable pub get_merged_helm_values :
    Installer → (image_tag : Bytes) → List Bytes → Table → Result Bytes Table
get_merged_helm_values i image_tag helm_values base =
    elim (i.merge_user_values (helm_set_values image_tag helm_values)) [
      | err e ↦ err (codes "failed to merge helm values: " ++ e)
      | ok user ↦ ok (i.merge_maps base user)
    ]

-- What an install does: the wait of Helm that it asks for, and the wait for the sshd pod of a namespace.
pub data Step : Type 0 where
  helm_waits : WaitStrategy → Step
  sshd_pod_waits : Bytes → Step

-- `describeRelease`, but for what it narrates.
unfoldable pub describe_release : Installer → Table → List Step × Result Bytes (Unit {0})
describe_release i values = elim (enabled_component values sshd_component) [
  | none ↦ ([], ok tt)
  | some sshd ↦
      let ns = component_namespace sshd in
      (
        sshd_pod_waits ns ∷ [],
        map_err
            (λ e.
              codes "failed to wait for the sshd pod to become ready (see --helm-timeout): " ++ e)
            (i.wait_for_pod_ready ns),
      )
]

abbrev pub wait_strategy : Table → WaitStrategy
wait_strategy values = if installs_load_balancer values then hook_only else legacy

-- `installHelmChart` on the merged values.
unfoldable pub run_install : Installer → Bytes → Table → List Step × Result Bytes (Unit {0})
run_install i timeout values = elim (i.run (wait_strategy values) values) [
  | deadline_exceeded e ↦ (
    helm_waits (wait_strategy values) ∷ [],
    err (
        codes "timed out after "
        ++ (timeout
            ++ (codes " waiting for the release's resources to become ready (see --helm-timeout): "
                ++ e))),
  )
  | install_failed e ↦
      (helm_waits (wait_strategy values) ∷ [], err (codes "failed to install helm chart: " ++ e))
  | installed ↦
      let (steps, result) = describe_release i values in
      (helm_waits (wait_strategy values) ∷ steps, result)
]

-- The request's part in an install.
pub record InstallRequest : Type 0 where
  pub non_root : Bool
  pub image_tag : Bytes
  pub helm_values : List Bytes
  pub helm_timeout : Bytes

-- `installHelmChart`: the diagnostic target it records first, what it does, and its error.
unfoldable pub install_helm_chart :
    Installer
    → InstallRequest
    → Side
    → Bytes
    → Table
    → (Bytes × Side) × List Step × Result Bytes (Unit {0})
install_helm_chart i req side name values = elim i.init [
  | err e ↦ (
    (name, side),
    [],
    err (codes "failed to init helm action config: failed to initialize helm action config: " ++ e),
  )
  | ok done ↦
      let own =
        (disable_network_policies i.can_create (apply_non_root_values req.non_root values) []).0 in
      elim (get_merged_helm_values i req.image_tag req.helm_values own) [
        | err e ↦ ((name, side), [], err (codes "failed to get merged helm values: " ++ e))
        | ok merged ↦
            let (steps, result) = run_install i req.helm_timeout merged in
            ((name, side), steps, result)
      ]
]
