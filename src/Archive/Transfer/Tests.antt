-- ===== src/Archive/Transfer/Tests.antt =====
-- Runs of internal/archive/transfer.go.
use pv_migrate.Common.{◌++◌, [], ◌∷◌, ◌≡◌, refl, codes, ok, err, some, pos, true, false}
use pv_migrate.Shell.{check_single_line}
use pv_migrate.Shell.Lexer.{tokens, word}
use pv_migrate.Archive.Transfer.{
  TransferCmd, empty_field, build, tar_source, prepare_path, tar_extract, pipeline,
}
use pv_migrate.Archive.Transfer.Words.{mkdir_tokens, find_tokens, extract_tokens, tokens-script}

abbrev push_cmd : TransferCmd
push_cmd = record {
  push = true;
  ssh_user = codes "root";
  ssh_host = codes "10.0.0.7";
  port = pos 22;
  src_path = codes "/source/a";
  dest_path = codes "/dest/a b/";
  compression = codes "zstd";
  level = pos 0;
  clean_dest = true;
  local = false;
}

push_cmd-build : build push_cmd ≡ ok (pipeline push_cmd (codes "zstd -T4 -1 --progress"))
unfolding build check_single_line
push_cmd-build = refl

no_host : build (record push_cmd { ssh_host = [] }) ≡ err (empty_field (codes "ssh host"))
unfolding build check_single_line
no_host = refl

directory_itself : tar_source (codes "/source/a") ≡ (codes "/source", codes "a")
unfolding tar_source
directory_itself = refl

directory_contents : tar_source (codes "/source/a/") ≡ (codes "/source/a/", codes ".")
unfolding tar_source
directory_contents = refl

tokens-script_example :
    tokens
      (prepare_path (codes "/dest/a b/") true ++ tar_extract (codes "zstd") (codes "/dest/a b/"))
    ≡ some (
        mkdir_tokens (codes "/dest/a b/")
        ++ (find_tokens (codes "/dest/a b/")
            ++ (extract_tokens (codes "zstd") ++ word (codes "/dest/a b/") ∷ [])))
tokens-script_example = tokens-script (codes "/dest/a b/") true (codes "zstd")
