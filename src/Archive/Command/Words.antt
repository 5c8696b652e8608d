-- ===== src/Archive/Command/Words.antt =====
-- The command of an archive on a claim, as the shell reads it.
use pv_migrate.Common.{
  ◌++◌, ◌||◌, Bool, true, false, List, [], ◌∷◌, ◌≡◌, refl, ap, ◌∙◌, arith, append_assoc, Bytes,
  codes, join, if◌then◌else◌, is_empty, ok, some, str_eq, Bool-cases, inl, inr, >>=-eq-ok, map_err,
  map_err-eq-ok, path_dir,
}
use pv_migrate.Shell.{quote}
use pv_migrate.Shell.Lexer.{Token, word, and_if, run, finish, tokens}
use pv_migrate.Shell.Words.{AllSplit, quote-Splits, ones, tokens-quote, tokens-ones_then}
use pv_migrate.Archive.{compress_program}
use pv_migrate.Archive.Transfer.{prepare_path, clean_cmd}
use pv_migrate.Archive.Transfer.Words.{
  mkdir_texts, mkdir_tokens, find_texts, find_tokens, find_split,
}
use pv_migrate.Archive.Command.{
  Cmd, backup, restore, build, backup_line, restore_line, by_direction, check_paths, bad_level,
}

abbrev pub program_texts : Bytes → List Bytes
program_texts program = if is_empty program then [] else codes "-I" ∷ quote program ∷ []

abbrev pub program_tokens : Bytes → List Token
program_tokens program = if is_empty program then [] else word (codes "-I") ∷ word program ∷ []

pub program_split :
    (program : Bytes) (texts : List Bytes) (ks : List Token)
    → AllSplit texts (ones ks)
    → AllSplit (program_texts program ++ texts) (ones (program_tokens program ++ ks))
unfolding run
program_split [] texts ks h = h
program_split (c ∷ s) texts ks h = (refl, (quote-Splits (c ∷ s), h))

abbrev create_texts : Bytes → Bytes → Bytes → List Bytes
create_texts program archive_path data_path =
    codes "tar"
    ∷ codes "-c"
    ∷ codes "--numeric-owner"
    ∷ codes "--xattrs"
    ∷ codes "--sparse"
    ∷ codes "--exclude=./lost+found"
    ∷ (program_texts program ++ codes "-f" ∷ quote archive_path ∷ codes "-C" ∷ quote data_path ∷ [])

-- The tar of a backup, up to the name of what it packs.
abbrev pub create_tokens : Bytes → Bytes → Bytes → List Token
create_tokens program archive_path data_path =
    word (codes "tar")
    ∷ word (codes "-c")
    ∷ word (codes "--numeric-owner")
    ∷ word (codes "--xattrs")
    ∷ word (codes "--sparse")
    ∷ word (codes "--exclude=./lost+found")
    ∷ (program_tokens program
        ++ word (codes "-f") ∷ word archive_path ∷ word (codes "-C") ∷ word data_path ∷ [])

abbrev extract_texts : Bytes → List Bytes
extract_texts archive_path =
    codes "tar"
    ∷ codes "-x"
    ∷ codes "--numeric-owner"
    ∷ codes "--xattrs"
    ∷ codes "--exclude=./lost+found"
    ∷ codes "-f"
    ∷ quote archive_path
    ∷ codes "-C"
    ∷ []

-- The tar of a restore, up to the directory it changes to.
abbrev pub extract_tokens : Bytes → List Token
extract_tokens archive_path =
    word (codes "tar")
    ∷ word (codes "-x")
    ∷ word (codes "--numeric-owner")
    ∷ word (codes "--xattrs")
    ∷ word (codes "--exclude=./lost+found")
    ∷ word (codes "-f")
    ∷ word archive_path
    ∷ word (codes "-C")
    ∷ []

backup_line-join :
    (c : Cmd) (program : Bytes)
    → backup_line c program
      ≡ join
          (codes " ")
          (mkdir_texts (path_dir c.archive_path) ++ create_texts program c.archive_path c.data_path)
        ++ (b' ' ∷ codes ".")
unfolding backup_line join
backup_line-join c [] = simp append_assoc
backup_line-join c (d ∷ s) = simp append_assoc

restore_line-join :
    (c : Cmd) (clean : Bool)
    → prepare_path c.data_path clean
        ++ (codes "tar -x --numeric-owner --xattrs --exclude=./lost+found"
            ++ (codes " -f " ++ (quote c.archive_path ++ (codes " -C " ++ quote c.data_path))))
      ≡ join (codes " ") (
          mkdir_texts c.data_path
          ++ ((if clean then find_texts c.data_path else []) ++ extract_texts c.archive_path))
        ++ (b' ' ∷ quote c.data_path)
unfolding prepare_path clean_cmd join
restore_line-join c false = simp append_assoc
restore_line-join c true = simp append_assoc

dot : tokens (codes ".") ≡ some (word (codes ".") ∷ [])
unfolding tokens run finish
dot = refl

create_split :
    (program archive_path data_path : Bytes)
    → AllSplit
        (create_texts program archive_path data_path)
        (ones (create_tokens program archive_path data_path))
unfolding run
create_split program archive_path data_path = (
  refl,
  (
    refl,
    (
      refl,
      (
        refl,
        (
          refl,
          (
            refl,
            program_split program _ _
                (refl, (quote-Splits archive_path, (refl, (quote-Splits data_path, tt)))),
          ),
        ),
      ),
    ),
  ),
)

extract_split :
    (archive_path : Bytes)
    → AllSplit (extract_texts archive_path) (ones (extract_tokens archive_path))
unfolding run
extract_split archive_path =
    (refl, (refl, (refl, (refl, (refl, (refl, (quote-Splits archive_path, (refl, tt))))))))

tokens-backup_line :
    (c : Cmd) (program : Bytes)
    → tokens (backup_line c program)
      ≡ some (
          mkdir_tokens (path_dir c.archive_path)
          ++ (create_tokens program c.archive_path c.data_path ++ word (codes ".") ∷ []))
tokens-backup_line c program =
    let dir = path_dir c.archive_path in
    let packing = create_tokens program c.archive_path c.data_path in
    ap tokens (backup_line-join c program)
    ∙ tokens-ones_then (codes "mkdir") _ (word (codes "mkdir"))
        (word (codes "-p") ∷ word dir ∷ and_if ∷ packing) (word (codes ".") ∷ []) (codes ".")
        (unfold run in refl)
        (
          unfold run in refl,
          (quote-Splits dir, (unfold run in refl, create_split program c.archive_path c.data_path)),
        )
        dot

cleaned_split :
    (c : Cmd) (clean : Bool)
    → AllSplit
        ((if clean then find_texts c.data_path else []) ++ extract_texts c.archive_path)
        (ones ((if clean then find_tokens c.data_path else []) ++ extract_tokens c.archive_path))
cleaned_split c false = extract_split c.archive_path
cleaned_split c true =
    find_split c.data_path (extract_texts c.archive_path) (extract_tokens c.archive_path)
      (extract_split c.archive_path)

tokens-restore_line :
    (c : Cmd)
    → tokens (restore_line c)
      ≡ some (
          mkdir_tokens c.data_path
          ++ (((if c.clean then find_tokens c.data_path else []) ++ extract_tokens c.archive_path)
              ++ word c.data_path ∷ []))
unfolding restore_line
tokens-restore_line c =
    let cleaning = if c.clean then find_tokens c.data_path else [] in
    ap tokens (restore_line-join c c.clean)
    ∙ tokens-ones_then (codes "mkdir")
        (codes "-p"
          ∷ quote c.data_path
          ∷ codes "&&"
          ∷ ((if c.clean then find_texts c.data_path else []) ++ extract_texts c.archive_path))
        (word (codes "mkdir"))
        (word (codes "-p")
          ∷ word c.data_path
          ∷ and_if
          ∷ (cleaning ++ extract_tokens c.archive_path))
        (word c.data_path ∷ []) (quote c.data_path) (unfold run in refl)
        (
          unfold run in refl,
          (quote-Splits c.data_path, (unfold run in refl, cleaned_split c c.clean)),
        )
        (tokens-quote c.data_path)

-- What the shell makes of a command, with the compressor that the compression and the level name.
abbrev tokens_in : Cmd → Bytes → Bool → List Token
tokens_in c program is_backup =
    if is_backup
    then mkdir_tokens (path_dir c.archive_path)
      ++ (create_tokens program c.archive_path c.data_path ++ word (codes ".") ∷ [])
    else mkdir_tokens c.data_path
      ++ (((if c.clean then find_tokens c.data_path else []) ++ extract_tokens c.archive_path)
          ++ word c.data_path ∷ [])

pub by_direction-ok :
    (direction backed_up restored s : Bytes)
    → by_direction direction backed_up restored ≡ ok s
    → (str_eq direction backup || str_eq direction restore ≡ true)
      × (s ≡ (if str_eq direction backup then backed_up else restored))
unfolding by_direction
by_direction-ok direction backed_up restored s h = elim (Bool-cases (str_eq direction backup)) [
  | inl e ↦ ground arith
  | inr e ↦ ground arith
]

tokens-lines :
    (c : Cmd) (program : Bytes) (b : Bool)
    → tokens (if b then backup_line c program else restore_line c) ≡ some (tokens_in c program b)
tokens-lines c program true = tokens-backup_line c program
tokens-lines c program false = tokens-restore_line c

abbrev pub command_tokens : Cmd → Bytes → List Token
command_tokens c program = tokens_in c program (str_eq c.direction backup)

-- A command that `Build` accepts is a backup or a restore, and the shell reads it so, whatever the paths
-- hold: a backup makes the directory above the archive and packs the data path's content into
-- the archive with the compressor; a restore makes the data path, empties it where that is asked for, and
-- unpacks the archive into it. Each step runs only if those before it went well.
pub tokens-build_archive :
    (c : Cmd) {s : Bytes}
    → build c ≡ ok s
    → (program : Bytes) × (compress_program c.compression c.level ≡ ok program)
      × (str_eq c.direction backup || str_eq c.direction restore ≡ true)
      × (tokens s ≡ some (command_tokens c program))
unfolding build by_direction
tokens-build_archive c {s} h =
    let (u, f, h₁) = >>=-eq-ok (check_paths c) _ h in
    let (program, p, h₂) =
      >>=-eq-ok (map_err bad_level (compress_program c.compression c.level)) _ h₁ in
    let known = map_err-eq-ok bad_level (compress_program c.compression c.level) p in
    let (direction, line) =
      by_direction-ok c.direction (backup_line c program) (restore_line c) s h₂ in
    (program, known, direction, ap tokens line ∙ tokens-lines c program (str_eq c.direction backup))
