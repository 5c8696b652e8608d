-- ===== src/Rclone/Tests.antt =====
-- Runs of internal/rclone/cmd.go, config.go and exitcode.go.
use pv_migrate.Rclone.Config.Backends.{config_lines, has_half_pair, generate_config-lines}
use pv_migrate.Rclone.Config.Lines.{is_one_line}
use pv_migrate.Rclone.Config.{ConfigOptions, backend_s3, generate_config, half_key_pair, line_break}
use pv_migrate.Common.{
  ◌++◌, false, [], ◌∷◌, ◌≡◌, refl, Bytes, codes, ok, err, some, Result, true, if◌then◌else◌, none,
  split_byte, Bool-cases, inl, inr, arith,
}
use pv_migrate.Shell.{check_fields, check_single_line}
use pv_migrate.Shell.Lexer.{tokens, word}
use pv_migrate.Rclone.{
  Cmd, build, ends, command_line, restore, invalid_direction, build_remote_path,
  build_metadata_remote_path, build_object_path, interpret,
}
use pv_migrate.Rclone.Words.{tokens_to, tokens-build_rclone}

abbrev restore_cmd : Cmd
restore_cmd = record {
  direction = restore;
  remote_path = codes "remote:b/p/n/";
  local_path = codes "/data/a b/";
  config_path = codes "/etc/rclone.conf";
  extra_args = codes "--transfers 4";
  delete = false;
}

abbrev restore_line : Bytes
restore_line = command_line restore_cmd (codes "remote:b/p/n/") (codes "/data/a b/")

restore_cmd-build : build restore_cmd ≡ ok restore_line
unfolding build check_fields check_single_line
restore_cmd-build = refl

unknown_direction :
    build (record restore_cmd { direction = codes "move" }) ≡ err (invalid_direction (codes "move"))
unfolding build check_fields check_single_line
unknown_direction = refl

extra-tokens :
    tokens (codes "--transfers 4") ≡ some (word (codes "--transfers") ∷ word (codes "4") ∷ [])
unfolding tokens
extra-tokens = refl

tokens-build_rclone_example :
    (src : Bytes) × (dest : Bytes) × (ends restore_cmd ≡ ok (src, dest))
    × (tokens restore_line
        ≡ some (
            word (codes "rclone")
            ∷ (tokens_to restore_cmd src
                ++ word dest ∷ word (codes "--transfers") ∷ word (codes "4") ∷ [])))
tokens-build_rclone_example =
    tokens-build_rclone restore_cmd (word (codes "--transfers") ∷ word (codes "4") ∷ [])
      extra-tokens restore_cmd-build

plain_remote : build_remote_path (codes "b") [] (codes "n") ≡ codes "remote:b/n/"
unfolding build_remote_path
plain_remote = refl

metadata_remote :
    build_metadata_remote_path (codes "b") (codes "p") (codes "n") ≡ codes "remote:b/p/n.meta.yaml"
unfolding build_metadata_remote_path
metadata_remote = refl

object_remote : build_object_path (codes "b") (codes "/k") ≡ codes "remote:b/k"
unfolding build_object_path
object_remote = refl

missing_directory : interpret 3 ≡ codes "rclone documents this exit code as: Directory not found"
unfolding interpret
missing_directory = refl

-- A compaction that takes only what is one line already.
abbrev one_line_only : Bytes → Result Bytes Bytes
one_line_only json = if is_one_line json then ok json else err (codes "not one line")

one_line_only-IsOneLine : (json s : Bytes) → one_line_only json ≡ ok s → is_one_line s ≡ true
one_line_only-IsOneLine json s h = elim (Bool-cases (is_one_line json)) [
  | inl e ↦ ground arith
  | inr e ↦ ground arith
]

abbrev no_options : ConfigOptions
no_options = record {
  backend = [];
  provider = [];
  endpoint = [];
  region = [];
  access_key = [];
  secret_key = [];
  storage_account = [];
  storage_key = [];
  gcs_service_account_json = [];
  gcs_bucket_policy_only = none;
}

abbrev s3_options : ConfigOptions
s3_options = record no_options {
  backend = backend_s3;
  region = codes "eu";
  access_key = codes "a";
  secret_key = codes "s";
}

abbrev s3_text : Bytes
s3_text =
    codes
      "[remote]\ntype = s3\nprovider = Other\nregion = eu\naccess_key_id = a\nsecret_access_key = s\nno_check_bucket = true\n"

generate_config-lines_example :
    (split_byte 10 s3_text ≡ config_lines one_line_only s3_options)
    × (has_half_pair s3_options ≡ false)
generate_config-lines_example =
    generate_config-lines one_line_only one_line_only-IsOneLine s3_options s3_text
      (unfold generate_config in refl)

half_pair :
    generate_config one_line_only (record s3_options { secret_key = [] }) ≡ err half_key_pair
unfolding generate_config
half_pair = refl

line_break_in_region :
    generate_config one_line_only (record s3_options { region = codes "eu\nprovider = AWS" })
    ≡ err (line_break (codes "region"))
unfolding generate_config
line_break_in_region = refl
