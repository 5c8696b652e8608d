-- ===== src/Rsync/Tests.antt =====
-- Runs of internal/rsync/cmd.go.
use pv_migrate.Common.{true, false, [], ◌∷◌, ◌≡◌, refl, codes, ok, err, some, pos}
use pv_migrate.Shell.Lexer.{tokens, word, run}
use pv_migrate.Shell.Words.{Splits}
use pv_migrate.Shell.{check_single_line}
use pv_migrate.Rsync.{Cmd, build, command_line, both_ssh, interpret}
use pv_migrate.Rsync.Words.{argv, tokens-build}

-- A push of a path with a blank and a quote, with one extra argument.
abbrev push_cmd : Cmd
push_cmd = record {
  port = pos 2222;
  no_chown = false;
  non_root = true;
  delete = true;
  src_use_ssh = false;
  dest_use_ssh = true;
  src_ssh_user = [];
  src_ssh_host = [];
  src_path = codes "/source/a 'b'/";
  dest_ssh_user = codes "pvmigrate";
  dest_ssh_host = codes "10.0.0.7";
  dest_path = codes "/dest/";
  compress = true;
  extra_args = codes "--bwlimit=100";
}

push_cmd-build : build push_cmd ≡ ok (command_line push_cmd)
unfolding build check_single_line
push_cmd-build = refl

push_cmd-extra : Splits push_cmd.extra_args (word (codes "--bwlimit=100") ∷ [])
unfolding run
push_cmd-extra = refl

tokens-build_example :
    tokens (command_line push_cmd) ≡ some (argv push_cmd (word (codes "--bwlimit=100") ∷ []))
tokens-build_example =
    tokens-build push_cmd (word (codes "--bwlimit=100") ∷ []) push_cmd-extra push_cmd-build

both_ssh_refused : build (record push_cmd { src_use_ssh = true }) ≡ err both_ssh
unfolding build
both_ssh_refused = refl

vanished_files :
    interpret 24
    ≡ codes "rsync documents this exit code as: Partial transfer due to vanished source files"
unfolding interpret
vanished_files = refl

undocumented_code : interpret 99 ≡ []
unfolding interpret
undocumented_code = refl
