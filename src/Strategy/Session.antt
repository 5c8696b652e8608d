-- ===== src/Strategy/Session.antt =====
-- internal/strategy/local.go: the session that runs the data mover in the source's pod, the tunnel to the
-- destination, and how their ends become the attempt's. Connections, and the goroutines' own work, are
-- arguments: what each answers, and the order in which the goroutines end.
pub mod Ends
pub mod Closed
mod Tests
use pv_migrate.Common.{
  ◌++◌, ℕ, Bool, true, false, ◌&&◌, ◌||◌, not, List, [], ◌∷◌, Option, none, some, Bytes, codes,
  is_empty, Result, ok, err, if◌then◌else◌, itoa_ℕ, join, suc,
}
use pv_migrate.Strategy.LineTail as tail
use pv_migrate.Strategy.Mover.{Policy, tolerates}

-- The error of a session's run: an exit status of the remote command with its text, or another.
pub data RunError : Type 0 where
  exit_status : ℕ → Bytes → RunError
  other_failure : Bytes → RunError

abbrev pub run_error_text : RunError → Bytes
run_error_text (exit_status code text) = text
run_error_text (other_failure text) = text

-- An error of the group: the session's own (`moverRunError`), or another goroutine's.
pub data GroupError : Type 0 where
  mover_run : RunError → GroupError
  other_error : Bytes → GroupError

-- `isToleratedExit`
unfoldable pub is_tolerated_exit : Policy → RunError → Bool
is_tolerated_exit policy (exit_status code text) = tolerates policy code
is_tolerated_exit policy (other_failure text) = false

-- What the mover's goroutine ends with: its error, whether files vanished, and whether the progress logger
-- was told that the transfer is done.
pub record Completed : Type 0 where
  pub error : Option GroupError
  pub vanished : Bool
  pub marked : Bool

abbrev pub mark_as_complete : Option Bytes → Bool → Completed
mark_as_complete none vanished = record { error = none; vanished = vanished; marked = true }
mark_as_complete (some e) vanished = record {
  error = some (other_error e);
  vanished = vanished;
  marked = true;
}

-- `completeMoverSession`; `mark` is the error of `MarkAsComplete`.
unfoldable pub complete_mover_session : Policy → Option RunError → (mark : Option Bytes) → Completed
complete_mover_session policy none mark = mark_as_complete mark false
complete_mover_session policy (some e) mark =
    if not (is_tolerated_exit policy e)
    then record { error = some (mover_run e); vanished = false; marked = false }
    else mark_as_complete mark true

abbrev pub meaning_of : Policy → RunError → Bytes
meaning_of policy (exit_status code text) = policy.interpret code
meaning_of policy (other_failure text) = []

-- `moverSessionError`
unfoldable pub mover_session_error : Policy → RunError → List Bytes → Bytes
mover_session_error policy e recent_lines =
    let meaning = meaning_of policy e in
    codes "data mover session failed: "
    ++ (run_error_text e
        ++ ((if is_empty meaning then [] else codes " (" ++ (meaning ++ codes ")"))
            ++ elim recent_lines [
              | [] ↦ []
              | line ∷ lines ↦
                  (10 ∷ codes "last lines of rsync output:") ++ (10 ∷ join (10 ∷ []) (line ∷ lines))
            ]))

-- What is said at a good end.
pub data Said : Type 0 where
  bar_finished vanished_warned : Said

-- `finishMoverSession`
unfoldable pub finish_mover_session :
    Policy
    → Option GroupError
    → (vanished : Bool) → List Bytes
    → List Said × Result Bytes (Unit {0})
finish_mover_session policy (some (mover_run e)) vanished lines =
    ([], err (mover_session_error policy e lines))
finish_mover_session policy (some (other_error e)) vanished lines = ([], err e)
finish_mover_session policy none vanished lines =
    (bar_finished ∷ (if vanished then vanished_warned ∷ [] else []), ok tt)

-- A goroutine of the session, as it ends.
pub data Ended : Type 0 where
  watcher : Ended
  forwarder : Option Bytes → Ended
  progress : Option Bytes → Ended
  runner : Option RunError → (mark : Option Bytes) → Ended

abbrev pub plain_error : Option Bytes → Option GroupError
plain_error none = none
plain_error (some e) = some (other_error e)

abbrev pub ended_error : Policy → Ended → Option GroupError
ended_error policy watcher = none
ended_error policy (forwarder e) = plain_error e
ended_error policy (progress e) = plain_error e
ended_error policy (runner run mark) = (complete_mover_session policy run mark).error

abbrev pub saw_vanished : Policy → Ended → Bool
saw_vanished policy (runner run mark) = (complete_mover_session policy run mark).vanished
saw_vanished policy _ = false

-- `eg.Wait()`: the first error.
abbrev pub first_error : Policy → List Ended → Option GroupError
first_error policy [] = none
first_error policy (e ∷ es) = elim (ended_error policy e) [
  | some problem ↦ some problem
  | none ↦ first_error policy es
]

abbrev pub some_vanished : Policy → List Ended → Bool
some_vanished policy [] = false
some_vanished policy (e ∷ es) = saw_vanished policy e || some_vanished policy es

-- The tail after the writes of the session.
abbrev pub written : List Bytes → tail.LineTail → tail.LineTail
written [] t = t
written (chunk ∷ chunks) t = written chunks (tail.write chunk t)

abbrev pub session_tail_lines : ℕ
session_tail_lines = 20

-- `runMoverSession`: the goroutines in the order of their ends, and what the session wrote.
unfoldable pub run_mover_session :
    Policy → List Ended → List Bytes → List Said × Result Bytes (Unit {0})
run_mover_session policy ends chunks =
    let empty_tail : tail.LineTail = record {
      limit = session_tail_lines;
      partial = [];
      lines = [];
    } in
    finish_mover_session policy (first_error policy ends) (some_vanished policy ends)
      (tail.get_lines (written chunks empty_tail))

-- What is opened and closed.
pub data Resource : Type 0 where
  client listener session : Resource

pub data Use : Type 0 where
  opened closed : Resource → Use

-- The answers to what `runMoverOverSSH` asks for.
pub record Connection : Type 0 where
  pub parse_key : Option Bytes
  pub dial : Option Bytes
  pub listen : Option Bytes
  pub build_command : Result Bytes Policy
  pub new_session : Option Bytes
  pub cancelled : Bool
  pub ends : List Ended
  pub chunks : List Bytes

abbrev pub Ran : Type 0
Ran = List Use × Result Bytes (Unit {0})

-- `logClose(tunnelListener)` and the return of an error.
abbrev close_listener : Bytes → Ran
close_listener problem = (closed listener ∷ [], err problem)

-- The session and its deferred close. The mover's goroutine closes the listener; a context that is cancelled
-- closes the session before that.
abbrev pub over_session : Connection → Policy → Ran
over_session c policy = elim c.new_session [
  | some e ↦ close_listener (codes "failed to create SSH session: " ++ e)
  | none ↦ (
    opened session
        ∷ ((if c.cancelled then closed session ∷ [] else [])
            ++ (closed listener ∷ closed session ∷ [])),
    (run_mover_session policy c.ends c.chunks).1,
  )
]

abbrev pub over_listener : Connection → Ran
over_listener c = elim c.build_command [
  | err e ↦ close_listener (codes "failed to build the data mover command: " ++ e)
  | ok policy ↦ over_session c policy
]

abbrev pub over_client : Connection → (port : ℕ) → Ran
over_client c port = elim c.listen [
  | some e ↦ (
    [],
    err (codes "failed to open reverse tunnel on port " ++ (itoa_ℕ port ++ (codes ": " ++ e))),
  )
  | none ↦ let (uses, result) = over_listener c in (opened listener ∷ uses, result)
]

-- `runMoverOverSSH`
unfoldable pub run_mover_over_ssh : Connection → (port : ℕ) → Ran
run_mover_over_ssh c port = elim c.parse_key [
  | some e ↦ ([], err (codes "failed to parse private key: " ++ e))
  | none ↦ elim c.dial [
    | some e ↦ ([], err (codes "failed to connect to source pod: " ++ e))
    | none ↦
        let (uses, result) = over_client c port in
        (opened client ∷ (uses ++ (closed client ∷ [])), result)
  ]
]

-- `waitAndRunMover`: the ports, where they come in time.
unfoldable pub wait_and_run_mover :
    (source_port dest_port : Option ℕ) → (timeout : Bytes) → Connection → (port : ℕ) → Ran
wait_and_run_mover none dest_port timeout c port =
    ([], err (codes "waiting for source port-forward: " ++ timeout))
wait_and_run_mover (some s) none timeout c port =
    ([], err (codes "waiting for dest port-forward: " ++ timeout))
wait_and_run_mover (some s) (some d) timeout c port = run_mover_over_ssh c port

-- What accepting a connection of the tunnel answers.
pub data Accepted : Type 0 where
  connection : Accepted
  listener_closed : Accepted
  accept_failed : Bytes → Accepted

-- The loop of `forwardTunnelConnections`: the connections that are proxied and the error; none while the
-- listener goes on answering.
unfoldable pub forward_tunnel_connections : List Accepted → Option (ℕ × Option Bytes)
forward_tunnel_connections [] = none
forward_tunnel_connections (listener_closed ∷ answers) = some (0, none)
forward_tunnel_connections (accept_failed e ∷ answers) =
    some (0, some (codes "tunnel listener accept error: " ++ e))
forward_tunnel_connections (connection ∷ answers) = elim (forward_tunnel_connections answers) [
  | none ↦ none
  | some (n, problem) ↦ some (suc n, problem)
]
