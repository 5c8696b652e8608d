-- ===== src/Archive/Command/Streams.antt =====
-- The commands of a streamed archive, as the shell reads them.
use pv_migrate.Common.{
  ◌++◌, Bool, true, false, List, [], ◌∷◌, ◌≡◌, refl, ap, ◌∙◌, append_assoc, Bytes, codes, join,
  if◌then◌else◌, is_empty, ok, some, str_eq, >>=-eq-ok, map_err,
}
use pv_migrate.Shell.{quote}
use pv_migrate.Shell.Lexer.{Token, word, and_if, pipe, run, tokens}
use pv_migrate.Shell.Words.{
  AllSplit, Splits, quote-Splits, ones, tokens-quote, tokens-ones_then, tokens-Splits_then,
  nil-Splits,
}
use pv_migrate.Archive.{compress_program, decompress_program}
use pv_migrate.Archive.Transfer.{prepare_path, clean_cmd, program_option}
use pv_migrate.Archive.Transfer.Words.{
  mkdir_texts, mkdir_tokens, find_texts, find_tokens, find_split,
}
use pv_migrate.Archive.Command.{
  StreamCmd, backup, build_backup, build_stream, build_restore, check_values, stream_download,
  stream_extract, rclone_command, bad_level,
}
use pv_migrate.Archive.Command.Words.{program_texts, program_tokens, program_split, by_direction-ok}

abbrev download_texts : StreamCmd → List Bytes
download_texts c =
    codes "rclone"
    ∷ codes "--config"
    ∷ quote c.config_path
    ∷ codes "--stats"
    ∷ codes "1s"
    ∷ codes "--stats-log-level"
    ∷ codes "NOTICE"
    ∷ codes "--use-json-log"
    ∷ codes "--stats-one-line"
    ∷ codes "cat"
    ∷ quote c.remote_path
    ∷ []

abbrev pub download_tokens : StreamCmd → List Token
download_tokens c =
    word (codes "rclone")
    ∷ word (codes "--config")
    ∷ word c.config_path
    ∷ word (codes "--stats")
    ∷ word (codes "1s")
    ∷ word (codes "--stats-log-level")
    ∷ word (codes "NOTICE")
    ∷ word (codes "--use-json-log")
    ∷ word (codes "--stats-one-line")
    ∷ word (codes "cat")
    ∷ word c.remote_path
    ∷ []

abbrev unpack_texts : Bytes → List Bytes
unpack_texts program =
    codes "tar"
    ∷ codes "-x"
    ∷ codes "--numeric-owner"
    ∷ codes "--xattrs"
    ∷ codes "--exclude=./lost+found"
    ∷ (program_texts program ++ codes "-f" ∷ codes "-" ∷ codes "-C" ∷ [])

-- The tar that unpacks a stream, up to the directory it changes to.
abbrev pub unpack_tokens : Bytes → List Token
unpack_tokens program =
    word (codes "tar")
    ∷ word (codes "-x")
    ∷ word (codes "--numeric-owner")
    ∷ word (codes "--xattrs")
    ∷ word (codes "--exclude=./lost+found")
    ∷ (program_tokens program ++ word (codes "-f") ∷ word (codes "-") ∷ word (codes "-C") ∷ [])

-- Behind the pipe
abbrev unpack_line : StreamCmd → Bytes
unpack_line c = codes "| " ++ stream_extract c

abbrev behind_remote : StreamCmd → Bytes → Bytes
behind_remote c extra = if is_empty extra then unpack_line c else extra ++ (b' ' ∷ unpack_line c)

abbrev before_remote : StreamCmd → Bool → List Bytes
before_remote c clean =
    mkdir_texts c.data_path ++ ((if clean then find_texts c.data_path else []) ++ download_texts c)

restore-join :
    (c : StreamCmd) (clean : Bool) (extra : Bytes)
    → prepare_path c.data_path clean
        ++ ((rclone_command c
              ++ (codes " cat "
                  ++ (quote c.remote_path ++ (if is_empty extra then [] else b' ' ∷ extra))))
            ++ (codes " | " ++ stream_extract c))
      ≡ join (codes " ") (before_remote c clean) ++ (b' ' ∷ behind_remote c extra)
unfolding prepare_path clean_cmd join rclone_command
restore-join c false [] = simp append_assoc
restore-join c true [] = simp append_assoc
restore-join c false (d ∷ s) = simp append_assoc
restore-join c true (d ∷ s) = simp append_assoc

unpack-join :
    (p program : Bytes)
    → codes "| tar -x --numeric-owner --xattrs --exclude=./lost+found"
        ++ (program_option program ++ (codes " -f - -C " ++ quote p))
      ≡ join (codes " ") (codes "|" ∷ unpack_texts program) ++ (b' ' ∷ quote p)
unfolding join
unpack-join p [] = simp append_assoc
unpack-join p (d ∷ s) = simp append_assoc

tokens-unpack_line :
    (c : StreamCmd)
    → tokens (unpack_line c)
      ≡ some (pipe ∷ (unpack_tokens (decompress_program c.compression) ++ word c.data_path ∷ []))
unfolding stream_extract run
tokens-unpack_line c =
    let program = decompress_program c.compression in
    ap tokens (unpack-join c.data_path program)
    ∙ tokens-ones_then (codes "|") (unpack_texts program) pipe (unpack_tokens program)
        (word c.data_path ∷ []) (quote c.data_path) refl
        (refl, (refl, (refl, (refl, (refl, program_split program _ _ (refl, (refl, (refl, tt))))))))
        (tokens-quote c.data_path)

tokens-behind_remote :
    (c : StreamCmd) (extra : Bytes) (ts : List Token)
    → Splits extra ts
    → tokens (behind_remote c extra)
      ≡ some
          (ts ++ pipe ∷ (unpack_tokens (decompress_program c.compression) ++ word c.data_path ∷ []))
tokens-behind_remote c [] ts h = rw (nil-Splits ts h) (tokens-unpack_line c)
tokens-behind_remote c (d ∷ s) ts h =
    tokens-Splits_then (d ∷ s) ts _ (unpack_line c) h (tokens-unpack_line c)

download_split : (c : StreamCmd) → AllSplit (download_texts c) (ones (download_tokens c))
unfolding run
download_split c = (
  refl,
  (
    refl,
    (
      quote-Splits c.config_path,
      (refl, (refl, (refl, (refl, (refl, (refl, (refl, (quote-Splits c.remote_path, tt)))))))),
    ),
  ),
)

cleaned_split :
    (c : StreamCmd) (clean : Bool)
    → AllSplit
        ((if clean then find_texts c.data_path else []) ++ download_texts c)
        (ones ((if clean then find_tokens c.data_path else []) ++ download_tokens c))
cleaned_split c false = download_split c
cleaned_split c true =
    find_split c.data_path (download_texts c) (download_tokens c) (download_split c)

-- The two sides of a streamed restore, with the words of the extra arguments.
abbrev pub restore_tokens : StreamCmd → List Token → List Token
restore_tokens c ts =
    mkdir_tokens c.data_path
    ++ (((if c.clean then find_tokens c.data_path else []) ++ download_tokens c)
        ++ (ts
            ++ pipe ∷ (unpack_tokens (decompress_program c.compression) ++ word c.data_path ∷ [])))

-- The line of a streamed restore, after the option that makes a pipe fail with its first part.
abbrev restored : StreamCmd → Bytes
restored c =
    prepare_path c.data_path c.clean ++ (stream_download c ++ (codes " | " ++ stream_extract c))

tokens-restored :
    (c : StreamCmd) (ts : List Token)
    → Splits c.extra_args ts
    → tokens (restored c) ≡ some (restore_tokens c ts)
unfolding stream_download
tokens-restored c ts h =
    let cleaning = if c.clean then find_tokens c.data_path else [] in
    let finding = if c.clean then find_texts c.data_path else [] in
    ap tokens (restore-join c c.clean c.extra_args)
    ∙ tokens-ones_then (codes "mkdir")
        (codes "-p" ∷ quote c.data_path ∷ codes "&&" ∷ (finding ++ download_texts c))
        (word (codes "mkdir"))
        (word (codes "-p") ∷ word c.data_path ∷ and_if ∷ (cleaning ++ download_tokens c)) _
        (behind_remote c c.extra_args) (unfold run in refl)
        (
          unfold run in refl,
          (quote-Splits c.data_path, (unfold run in refl, cleaned_split c c.clean)),
        )
        (tokens-behind_remote c c.extra_args ts h)

-- A streamed restore that `Build` accepts lets the pipe fail with either of its parts, and the shell reads the
-- rest, whatever the paths hold: make the data path, empty it where that is asked for, fetch the
-- object with rclone and the extra arguments, and unpack what comes out with the decompressor into the path.
pub tokens-build_stream :
    (c : StreamCmd) (extra : List Token) {s : Bytes}
    → Splits c.extra_args extra
    → str_eq c.direction backup ≡ false
    → build_stream c ≡ ok s
    → (line : Bytes) × (s ≡ codes "set -o pipefail; " ++ line)
      × (tokens line ≡ some (restore_tokens c extra))
unfolding build_stream build_restore
tokens-build_stream c extra {s} h not_backup built =
    let (u, f, h₁) =
      >>=-eq-ok
        (check_values (
          (codes "--archive-file", c.remote_path)
          ∷ (codes "--path", c.data_path)
          ∷ (codes "rclone config path", c.config_path)
          ∷ []))
        _ built in
    let (program, p, h₂) =
      >>=-eq-ok (map_err bad_level (compress_program c.compression c.level)) _ h₁ in
    let (direction, line) = by_direction-ok c.direction _ (build_restore c) s h₂ in
    (
      restored c,
      line ∙ ap (λ b. if b then build_backup c program else build_restore c) not_backup,
      tokens-restored c extra h,
    )
