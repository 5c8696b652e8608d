-- ===== src/Lib.antt =====
-- pv-migrate copies the contents of one PersistentVolumeClaim into another. A migration is a ladder: the
-- requested strategies are tried in order until one succeeds, and each attempt runs a mover, rsync or
-- tar, in pods that a Helm release creates.
--
-- The parts, the code they model (paths from the repository's root), and how they meet:
--
-- Common: Go's values as the models use them. Strings are lists of bytes, a Go `(value, error)` pair is
--   a `Result`, `int` is ℤ where the code can see a negative number and ℕ for exit codes and lengths.
--   `path.Clean`, `Dir`, `Base`, `Join`, `strings.Join`, `HasPrefix`, `TrimSpace` and `strconv.Itoa` are
--   written out.
-- Shell: internal/shell/quote.go. `Quote` is `quote`, `CheckSingleLine` is `check_single_line`, over the
--   UTF-8 decoder in Shell/Utf8. Shell/Lexer describes independently how a POSIX shell cuts a line into
--   words; it is what the command builders are held against.
-- Rsync: internal/rsync/cmd.go (`Build` is `build`) and exitcode.go.
-- Rclone: internal/rclone/cmd.go (`Build` is `build`) and exitcode.go, and config.go in Config
--   (`GenerateConfig` is `generate_config`, with the compaction of JSON as a parameter).
-- Opid: internal/opid/opid.go (`Validate` is `validate`; its regular expression is the automaton
--   `matches_valid`).
-- Archive: internal/archive. Archive is the compressions and levels of cmd.go and exitcode.go, Command the
--   commands of cmd.go (`Cmd.Build` is `build`, `StreamCmd.Build` is `build_stream`), Target is target.go
--   (`ParseTarget` is `parse_target`, with the clock's format as a parameter), and Transfer is transfer.go
--   (`TransferCmd.Build` is `build`).
-- Strategy: internal/strategy. Paths is paths.go, LineTail is linetail.go, Mount is the decisions of
--   mount.go, Mover is mover.go with the rsync commands of topology.go, mount.go and local.go, and Topology is the
--   sides and release names of topology.go. Mover calls
--   Paths, Rsync and Archive/Transfer as the code does. Release is the releases of strategy.go
--   (`Cleanup` is `cleanup`, `installHelmChart` is `run_install`), Session is the mover's session over
--   SSH of local.go with its goroutines as answers, Target is the addresses that loadbalancer.go and
--   nodeport.go wait for, and Runs is the runs of the strategies, from the release names to the job's end.
-- Console: internal/console, the writer that erases the terminal's line.
-- Helm: internal/helm, the values that switch a chart's network policies off.
-- K8s: internal/k8s. Pods is the states of a job's pods and the searches for a job and a pod, Exit the
--   end of a container, Tail the log's tail, Wait the wait for a job, Watch the waits for a pod, Service
--   the addresses of a service, Diagnostics the facts that are gathered of a release.
-- Pvc: internal/pvc/info.go. A cluster is a record of answers, `newInfo` is `new_info`.
-- Migrator: internal/migrator. Checks is what `buildMigrationWithClients` does before the ladder, Ladder is
--   `runAttempt`, `cleanupAttempt` and the loop of `Run`, Run is `Run` as a whole.
--   The ladder takes the strategies as parameters; the movers' commands are proved on their own.
--
-- State: the ladder passes the state of everything outside (`W`) explicitly, and what is narrated, diagnosed
-- and cleaned up is a list of events in order. The strategies, the diagnostics, the cleanup and the
-- cancellation are the fields of `World`, of which nothing is assumed. A strategy
-- returns its changed attempt, which is how the code's mutation of `attempt` shows.
--
-- The Kubernetes API, Helm and the goroutines' results are records of answers, one field for each call the
-- code makes, of which nothing is assumed but what a theorem names; what the code
-- does to them is a list of events in order.
--
-- Fuel: `write_loop` of LineTail runs on the length of the buffer plus one, and each round takes a byte off;
-- the digits of `itoa` run on the number plus one, and each round divides by ten. The search for a data
-- mover's job lists the jobs of a namespace and then those of all: two listings are enough. `count_from`
-- of Tail runs on the length of the log's tail, and each round takes a byte off.
--
-- Not modelled: the texts of the narration and of the detach message, and the elapsed times (a success is
-- an event, its line is not). Of internal/k8s, the evidence files and the text of a described service; of
-- internal/strategy, the Helm values of topology.go, mount.go and clusterip.go; of internal/helm and
-- internal/ssh, the calls of their libraries. Whole parts that are left out: internal/bucketstorage,
-- internal/snapshot, internal/flush and the progress parsers; the terminal output of
-- internal/narrate and the summary of migrator/outcome.go; the command line of internal/app and the
-- public API of pvmigrate.
mod Common
pub mod Shell
pub mod Rsync
pub mod Rclone
pub mod Opid
pub mod Archive
pub mod Console
pub mod Helm
pub mod K8s
pub mod Strategy
pub mod Pvc
pub mod Migrator
