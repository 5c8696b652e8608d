-- ===== src/Strategy/Runs.antt =====
-- The `Run` of each strategy (internal/strategy: mount.go, clusterip.go, loadbalancer.go, nodeport.go and
-- topology.go, local.go): what it does to its attempt and in which order. What an install, a wait or a session
-- answers is an argument.
pub mod Recorded
pub mod Detached
mod Tests
use pv_migrate.Common.{
  ◌++◌, ℕ, Bool, true, false, not, List, [], ◌∷◌, Option, none, some, Bytes, codes, is_empty,
  Result, ok, err, if◌then◌else◌,
}
use pv_migrate.Strategy.Release.{Side, source, dest}
use pv_migrate.Strategy.Target.{SshTarget}

-- What happens to an attempt: its release names are set, an install of a release begins (which adds it to
-- the targets of the diagnostics), a further target is added, it is detached.
pub data Event : Type 0 where
  names_set : List Bytes → Event
  installing : Side → Bytes → Event
  target_added : Side → Bytes → Event
  detached_set : Event

-- The error of a `Run`.
pub data StrategyError : Type 0 where
  declined : Bytes → StrategyError
  failure : Bytes → StrategyError

abbrev pub Ran : Type 0
Ran = List Event × Result StrategyError (Unit {0})

-- What the request says.
pub record RunRequest : Type 0 where
  pub prefix : Bytes
  pub detach : Bool
  pub push : Bool
  pub dest_host_override : Bytes

-- What the parts of a run answer: the error of the keys, the installs, the mover's command for a host and a
-- port, `WaitForJobStart`, `WaitForJobCompletion`, the target, the pods of the local strategy and its session.
pub record Parts : Type 0 where
  pub keys : Option Bytes
  pub install : Side → Bytes → Option Bytes
  pub command : Bytes → ℕ → Option Bytes
  pub job_start : Side → Bytes → Option Bytes
  pub job_completion : Side → Bytes → Option Bytes
  pub target : Bytes → Result Bytes SshTarget
  pub sshd_pod : Side → Option Bytes
  pub local_migration : Option Bytes
  pub host_override : Bytes → Bytes

abbrev pub fine : Ran
fine = ([], ok tt)

-- `if err != nil { return fmt.Errorf(prefix + "%w", err) }`
abbrev pub check : Bytes → Option Bytes → Ran
check prefix none = fine
check prefix (some e) = ([], err (failure (prefix ++ e)))

abbrev pub does : Event → Ran
does e = (e ∷ [], ok tt)

infixr 6 ◌then◌
abbrev pub ◌then◌ : Ran → Ran → Ran
(es, err e) then next = (es, err e)
(es, ok done) then (fs, result) = (es ++ fs, result)

-- `installHelmChart`
abbrev pub install : Parts → Bytes → Side → Bytes → Ran
install p context side name = does (installing side name) then check context (p.install side name)

-- `waitForRsyncJob`
unfoldable pub wait_for_rsync_job : Parts → RunRequest → Side → Bytes → Ran
wait_for_rsync_job p r side release =
    let job = release ++ codes "-rsync" in
    if r.detach
    then check (codes "failed to wait for job to start: ") (p.job_start side job)
    then does detached_set
    else check [] (p.job_completion side job)

-- `Mount.Run`; `reason` is its `cannotDoReason`.
unfoldable pub run_mount : Parts → RunRequest → (reason : Bytes) → Ran
run_mount p r reason =
    if not (is_empty reason)
    then ([], err (declined reason))
    else check (codes "failed to build rsync command: ") (p.command [] 0)
      then does (names_set (r.prefix ∷ []))
      then install p [] source r.prefix
      then wait_for_rsync_job p r source r.prefix

abbrev pub rsync_side : RunRequest → Side
rsync_side r = if r.push then source else dest

abbrev pub sshd_side : RunRequest → Side
sshd_side r = if r.push then dest else source

-- `ClusterIP.Run`; `host` is the name of the service, before the override.
unfoldable pub run_cluster_ip :
    Parts → RunRequest → (same_cluster same_namespace : Bool) → (host : Bytes) → Ran
run_cluster_ip p r same_cluster same_namespace host =
    let target =
      if is_empty r.dest_host_override then host else p.host_override r.dest_host_override in
    if not same_cluster
    then ([], err (declined (codes "source and destination are on different clusters")))
    else does (names_set (r.prefix ∷ []))
      then check (codes "failed to build helm values: ") p.keys
      then check (codes "failed to build helm values: ") (p.command target 0)
      then install p [] dest r.prefix
      then (if same_namespace then fine else does (target_added source r.prefix))
      then wait_for_rsync_job p r (rsync_side r) r.prefix

abbrev pub source_release : RunRequest → Bytes
source_release r = r.prefix ++ codes "-src"

abbrev pub dest_release : RunRequest → Bytes
dest_release r = r.prefix ++ codes "-dest"

abbrev pub sshd_release : RunRequest → Bytes
sshd_release r = if r.push then dest_release r else source_release r

abbrev pub rsync_release : RunRequest → Bytes
rsync_release r = if r.push then source_release r else dest_release r

abbrev pub target_host : Parts → RunRequest → SshTarget → Bytes
target_host p r t =
    if is_empty r.dest_host_override then t.host else p.host_override r.dest_host_override

-- `installRsyncJob` and the wait for it
abbrev pub run_rsync_release : Parts → RunRequest → SshTarget → Ran
run_rsync_release p r t =
    check (codes "failed to install rsync job: ") (p.command (target_host p r t) t.port)
    then install p (codes "failed to install rsync job: ") (rsync_side r) (rsync_release r)
    then wait_for_rsync_job p r (rsync_side r) (rsync_release r)

abbrev pub at_target : Parts → RunRequest → Result Bytes SshTarget → Ran
at_target p r (err e) = ([], err (failure e))
at_target p r (ok t) = run_rsync_release p r t

-- `runTwoReleaseStrategy`, the run of the load balancer's and of the node port's strategy.
unfoldable pub run_two_releases : Parts → RunRequest → Ran
run_two_releases p r =
    check [] p.keys
    then does (names_set (sshd_release r ∷ rsync_release r ∷ []))
    then install p (codes "failed to install sshd: ") (sshd_side r) (sshd_release r)
    then at_target p r (p.target (sshd_release r))

-- `Local.Run`
unfoldable pub run_local : Parts → RunRequest → Ran
run_local p r =
    if r.detach
    then (
      [],
      err (
          declined
            (codes "local strategy requires a persistent connection through the local machine")),
    )
    else check [] p.keys
      then does (names_set (source_release r ∷ dest_release r ∷ []))
      then install p (codes "failed to install on source: ") source (source_release r)
      then install p (codes "failed to install on dest: ") dest (dest_release r)
      then check (codes "failed to get source sshd pod: ") (p.sshd_pod source)
      then check (codes "failed to get dest sshd pod: ") (p.sshd_pod dest)
      then check [] p.local_migration

-- One of the strategies, with what it asks of the two sides.
pub data Strategy : Type 0 where
  mount : (reason : Bytes) → Strategy
  cluster_ip : (same_cluster same_namespace : Bool) → (host : Bytes) → Strategy
  two_releases : Strategy
  local : Strategy

-- The `Run` of a strategy.
unfoldable pub run : Strategy → Parts → RunRequest → Ran
run (mount reason) p r = run_mount p r reason
run (cluster_ip same_cluster same_namespace host) p r =
    run_cluster_ip p r same_cluster same_namespace host
run two_releases p r = run_two_releases p r
run local p r = run_local p r
