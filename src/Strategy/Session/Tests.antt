-- ===== src/Strategy/Session/Tests.antt =====
-- Tests and examples of sessions.
use pv_migrate.Common.{
  true, false, List, [], ◌∷◌, none, some, codes, ok, err, ◌≡◌, refl, if◌then◌else◌,
}
use pv_migrate.Strategy.Mover.{rsync_policy, tolerates}
use pv_migrate.Strategy.Session.{
  Connection, listener, client, Ended, watcher, forwarder, progress, runner, exit_status,
  run_mover_session, run_mover_over_ssh, bar_finished, vanished_warned, opened, closed,
  finish_mover_session, complete_mover_session, is_tolerated_exit,
}
use pv_migrate.Strategy.Session.Closed.{is_at_rest, life, run_mover_over_ssh-is_at_rest, unopened}
use pv_migrate.Strategy.Session.Ends.{all_fine, run_mover_session-all_fine, some_caveat, succeeds}

-- Source files vanished, and everything else went well.
abbrev with_caveat : List Ended
with_caveat =
    runner (some (exit_status 24 (codes "exited with 24"))) none
    ∷ forwarder none
    ∷ progress none
    ∷ watcher
    ∷ []

run_mover_session-all_fine_example :
    (succeeds (run_mover_session rsync_policy with_caveat []).1 ≡ all_fine rsync_policy with_caveat)
    × ((run_mover_session rsync_policy with_caveat []).0 ≡ (
        if all_fine rsync_policy with_caveat
        then bar_finished
          ∷ (if some_caveat rsync_policy with_caveat then vanished_warned ∷ [] else [])
        else []))
run_mover_session-all_fine_example = run_mover_session-all_fine rsync_policy with_caveat []

warned :
    run_mover_session rsync_policy with_caveat [] ≡ (bar_finished ∷ vanished_warned ∷ [], ok tt)
unfolding run_mover_session rsync_policy finish_mover_session complete_mover_session
    is_tolerated_exit tolerates
warned = refl

abbrev no_session : Connection
no_session = record {
  parse_key = none;
  dial = none;
  listen = none;
  build_command = ok rsync_policy;
  new_session = some (codes "refused");
  cancelled = false;
  ends = [];
  chunks = [];
}

run_mover_over_ssh-is_at_rest_example :
    is_at_rest (life listener unopened (run_mover_over_ssh no_session 2222).0) ≡ true
run_mover_over_ssh-is_at_rest_example = run_mover_over_ssh-is_at_rest no_session 2222 listener

all_closed : run_mover_over_ssh no_session 2222 ≡ (
  opened client ∷ opened listener ∷ closed listener ∷ closed client ∷ [],
  err (codes "failed to create SSH session: refused"),
)
unfolding run_mover_over_ssh
all_closed = refl
