-- ===== src/Archive/Tests.antt =====
-- Runs of internal/archive/cmd.go, target.go and exitcode.go.
use pv_migrate.Shell.{check_single_line, quote}
use pv_migrate.Shell.Lexer.{tokens, word, run}
use pv_migrate.Archive.Command.Streams.{restore_tokens, tokens-build_stream}
use pv_migrate.Archive.Command.Words.{command_tokens, tokens-build_archive}
use pv_migrate.Archive.Command.Chunks.{chunk_sizing-fits, chunk_rule, rule_text, rule_value}
use pv_migrate.Archive.Command.{
  Cmd, StreamCmd, backup, restore, build, build_stream, build_restore, backup_line, chunk_sizing,
}
use pv_migrate.Archive.Target.{Target, parse_target, unknown_token}
use pv_migrate.Common.{
  [], ◌≡◌, refl, codes, ok, err, pos, negsuc, Bytes, ◌∷◌, ◌++◌, ◌||◌, ◌+◌, ◌*◌, ◌/◌, ◌≤◌, str_eq,
  true, false, some, ℕ, none, arith, ◌^◌,
}
use pv_migrate.Archive.{
  compression_zstd, compression_none, compress_program, extension, not_for_none, out_of_range,
  interpret, compression_gzip, default_level_of,
}

default_level : compress_program compression_zstd (pos 0) ≡ ok (codes "zstd -T4 -3")
unfolding compress_program
default_level = refl

level_for_none : compress_program compression_none (pos 1) ≡ err not_for_none
unfolding compress_program
level_for_none = refl

negative_level :
    compress_program compression_zstd (negsuc 0)
    ≡ err (out_of_range (negsuc 0) compression_zstd (pos 19))
unfolding compress_program
negative_level = refl

zstd_extension : extension compression_zstd ≡ ok (codes ".tar.zst")
unfolding extension
zstd_extension = refl

default_of_gzip : default_level_of compression_gzip ≡ pos 6
unfolding default_level_of
default_of_gzip = refl

tar_success : interpret 0 ≡ []
unfolding interpret
tar_success = refl

-- A clock whose layouts are their own texts.
abbrev clock : Bytes → Bytes
clock layout = layout

abbrev on_claim : Target
on_claim = record {
  claim = codes "backups";
  bucket = [];
  path = codes "db/2006.tar.zst";
  compression = compression_zstd;
}

in_bucket_target :
    parse_target clock (codes "s3://b/k.tgz")
    ≡ ok (record {
      claim = [];
      bucket = codes "b";
      path = codes "k.tgz";
      compression = compression_gzip;
    })
unfolding parse_target
in_bucket_target = refl

slash_before_colon :
    parse_target clock (codes "a/b:c.tar")
    ≡ ok (record {
      claim = [];
      bucket = [];
      path = codes "a/b:c.tar";
      compression = compression_none;
    })
unfolding parse_target
slash_before_colon = refl

unknown_token_q : parse_target clock (codes "a%q.tar") ≡ err (unknown_token b'q')
unfolding parse_target
unknown_token_q = refl

chunk_sizing-fits_example :
    (chunk_sizing (codes "/d")
      ≡ codes "used=$(df -B1 "
        ++ (quote (codes "/d") ++ (codes " | awk 'NR==2{print $3}'); " ++ rule_text chunk_rule)))
    × (chunk : ℕ) × (rule_value chunk_rule 100000000000 ≡ some chunk)
    × (100000000000 + 100000000000 / 4 ≤ 9000 * (chunk * 1048576))
    × (5 ≤ chunk)
chunk_sizing-fits_example = chunk_sizing-fits (codes "/d") 100000000000 (omega arith)

big_chunk : rule_value chunk_rule 100000000000 ≡ some 14
unfolding rule_value
big_chunk = refl

-- Where five times the used bytes leave 64 bits, the arithmetic wraps.
wrapped_chunk : rule_value chunk_rule (2 ^ 62) ≡ none
unfolding rule_value
wrapped_chunk = refl

abbrev backup_cmd : Cmd
backup_cmd = record {
  direction = backup;
  archive_path = codes "/a/my db.tar.zst";
  data_path = codes "/d";
  compression = compression_zstd;
  level = pos 0;
  clean = false;
}

tokens-build_archive_example :
    (program : Bytes) × (compress_program backup_cmd.compression backup_cmd.level ≡ ok program)
    × (str_eq backup_cmd.direction backup || str_eq backup_cmd.direction restore ≡ true)
    × (tokens (backup_line backup_cmd (codes "zstd -T4 -3"))
        ≡ some (command_tokens backup_cmd program))
unfolding check_single_line
tokens-build_archive_example = tokens-build_archive backup_cmd (unfold build in refl)

abbrev restore_stream : StreamCmd
restore_stream = record {
  direction = restore;
  remote_path = codes "remote:b/k.tar.zst";
  data_path = codes "/d";
  config_path = codes "/c";
  compression = compression_zstd;
  level = pos 0;
  extra_args = codes "--fast";
  clean = true;
}

tokens-build_stream_example :
    (line : Bytes) × (build_restore restore_stream ≡ codes "set -o pipefail; " ++ line)
    × (tokens line ≡ some (restore_tokens restore_stream (word (codes "--fast") ∷ [])))
unfolding check_single_line
tokens-build_stream_example =
    tokens-build_stream restore_stream (word (codes "--fast") ∷ []) (unfold run in refl)
      (unfold str_eq in refl) (unfold build_stream in refl)
