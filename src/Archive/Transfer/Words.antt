-- ===== src/Archive/Transfer/Words.antt =====
-- The remote side of a transfer, as the shells on both hosts read it.
use pv_migrate.Common.{
  ◌++◌, Bool, true, false, List, [], ◌∷◌, ◌≡◌, refl, ◌∙◌, ap, map, append_assoc, append-nil, All,
  Bytes, codes, join, if◌then◌else◌, is_empty, some, itoa, pos, eq_ℤ, path_join,
}
use pv_migrate.Shell.{quote}
use pv_migrate.Shell.Lexer.{Token, word, and_if, run, tokens}
use pv_migrate.Shell.Words.{
  AllSplit, IsBareWord, singles, All-AllSplit, quote-Splits, tokens-command, tokens-ones, ones,
  flatten-singles_only,
}
use pv_migrate.Shell.Numerals.{itoa-IsBareWord}
use pv_migrate.Archive.Transfer.{
  ssh_options, TransferCmd, clean_cmd, prepare_path, tar_extract, ssh_prefix, ssh_words, ssh_target,
}

abbrev pub mkdir_texts : Bytes → List Bytes
mkdir_texts p = codes "mkdir" ∷ codes "-p" ∷ quote p ∷ codes "&&" ∷ []

abbrev pub mkdir_tokens : Bytes → List Token
mkdir_tokens p = word (codes "mkdir") ∷ word (codes "-p") ∷ word p ∷ and_if ∷ []

abbrev pub find_texts : Bytes → List Bytes
find_texts p =
    codes "find"
    ∷ quote p
    ∷ codes "-mindepth"
    ∷ codes "1"
    ∷ codes "-not"
    ∷ codes "-path"
    ∷ quote (path_join p (codes "lost+found"))
    ∷ codes "-not"
    ∷ codes "-path"
    ∷ quote (path_join p (codes "lost+found") ++ codes "/*")
    ∷ codes "-delete"
    ∷ codes "&&"
    ∷ []

-- The cleaning of a directory: everything below it but `lost+found`.
abbrev pub find_tokens : Bytes → List Token
find_tokens p =
    word (codes "find")
    ∷ word p
    ∷ word (codes "-mindepth")
    ∷ word (codes "1")
    ∷ word (codes "-not")
    ∷ word (codes "-path")
    ∷ word (path_join p (codes "lost+found"))
    ∷ word (codes "-not")
    ∷ word (codes "-path")
    ∷ word (path_join p (codes "lost+found") ++ codes "/*")
    ∷ word (codes "-delete")
    ∷ and_if
    ∷ []

abbrev extract_texts : Bytes → List Bytes
extract_texts program =
    codes "tar"
    ∷ codes "-x"
    ∷ codes "--numeric-owner"
    ∷ codes "--xattrs"
    ∷ codes "--exclude=./lost+found"
    ∷ ((if is_empty program then [] else codes "-I" ∷ quote program ∷ [])
        ++ codes "-f" ∷ codes "-" ∷ codes "-C" ∷ [])

-- The extraction, up to the directory it changes to.
abbrev pub extract_tokens : Bytes → List Token
extract_tokens program =
    word (codes "tar")
    ∷ word (codes "-x")
    ∷ word (codes "--numeric-owner")
    ∷ word (codes "--xattrs")
    ∷ word (codes "--exclude=./lost+found")
    ∷ ((if is_empty program then [] else word (codes "-I") ∷ word program ∷ [])
        ++ word (codes "-f") ∷ word (codes "-") ∷ word (codes "-C") ∷ [])

abbrev script_texts : Bytes → Bool → Bytes → List Bytes
script_texts p clean_dest program =
    mkdir_texts p ++ ((if clean_dest then find_texts p else []) ++ extract_texts program)

script-join :
    (p : Bytes) (clean_dest : Bool) (program : Bytes)
    → prepare_path p clean_dest ++ tar_extract program p
      ≡ join (codes " ") (script_texts p clean_dest program) ++ (b' ' ∷ quote p)
unfolding prepare_path tar_extract clean_cmd join
script-join p false [] = simp (append_assoc, append-nil)
script-join p true [] = simp append_assoc
script-join p false (c ∷ s) = simp append_assoc
script-join p true (c ∷ s) = simp append_assoc

extract_split : (program : Bytes) → AllSplit (extract_texts program) (ones (extract_tokens program))
unfolding run
extract_split [] = (refl, (refl, (refl, (refl, (refl, (refl, (refl, (refl, tt))))))))
extract_split (c ∷ s) = (
  refl,
  (refl, (refl, (refl, (refl, (refl, (quote-Splits (c ∷ s), (refl, (refl, (refl, tt))))))))),
)

pub find_split :
    (p : Bytes) (texts : List Bytes) (ks : List Token)
    → AllSplit texts (ones ks)
    → AllSplit (find_texts p ++ texts) (ones (find_tokens p ++ ks))
unfolding run
find_split p texts ks h =
    let lost = path_join p (codes "lost+found") in
    (
      refl,
      (
        quote-Splits p,
        (
          refl,
          (
            refl,
            (
              refl,
              (
                refl,
                (
                  quote-Splits lost,
                  (refl, (refl, (quote-Splits (lost ++ codes "/*"), (refl, (refl, h))))),
                ),
              ),
            ),
          ),
        ),
      ),
    )

script_split :
    (p : Bytes) (clean_dest : Bool) (program : Bytes)
    → AllSplit
        ((if clean_dest then find_texts p else []) ++ extract_texts program)
        (ones ((if clean_dest then find_tokens p else []) ++ extract_tokens program))
script_split p false program = extract_split program
script_split p true program =
    find_split p (extract_texts program) (extract_tokens program) (extract_split program)

-- Whatever the path and the decompressor are, the script that prepares a destination and extracts
-- into it is `mkdir -p` of the path, the cleaning of the path where it is asked for, and `tar -x` into
-- the path, chained by `&&`: the path is one word each time.
pub tokens-script :
    (p : Bytes) (clean_dest : Bool) (program : Bytes)
    → tokens (prepare_path p clean_dest ++ tar_extract program p)
      ≡ some (
          mkdir_tokens p
          ++ ((if clean_dest then find_tokens p else [])
              ++ (extract_tokens program ++ word p ∷ [])))
tokens-script p clean_dest program =
    let cleaning = if clean_dest then find_tokens p else [] in
    ap tokens (script-join p clean_dest program)
    ∙ tokens-ones (codes "mkdir") _ (word (codes "mkdir"))
        (word (codes "-p") ∷ word p ∷ and_if ∷ (cleaning ++ extract_tokens program)) p
        (unfold run in refl)
        (
          unfold run in refl,
          (quote-Splits p, (unfold run in refl, script_split p clean_dest program)),
        )
    ∙ ap (λ us. some (mkdir_tokens p ++ us))
        (append_assoc cleaning (extract_tokens program) (word p ∷ []))

bare_options : (c : TransferCmd) → All IsBareWord (ssh_words c)
unfolding ssh_words run
bare_options c = (
  refl,
  (
    refl,
    (
      refl,
      (
        refl,
        (refl, (refl, (refl, (refl, (refl, (refl, (refl, port_words (eq_ℤ c.port (pos 0))))))))),
      ),
    ),
  ),
)
  where
    port_words : (b : Bool) → All IsBareWord (if b then [] else codes "-p" ∷ itoa c.port ∷ [])
    port_words true = tt
    port_words false = (refl, (itoa-IsBareWord c.port, tt))

-- A push hands its remote script to ssh as one word, whatever the script, the user and the host hold.
pub tokens-ssh :
    (c : TransferCmd) (script : Bytes)
    → tokens (ssh_prefix c ++ (b' ' ∷ quote script))
      ≡ some (map word (ssh_words c) ++ word (ssh_target c) ∷ word script ∷ [])
unfolding ssh_prefix ssh_words
tokens-ssh c script =
    let options =
      ssh_options ++ (if eq_ℤ c.port (pos 0) then [] else codes "-p" ∷ itoa c.port ∷ []) in
    ap tokens (
      append_assoc (join (codes " ") (ssh_words c)) (b' ' ∷ quote (ssh_target c))
        (b' ' ∷ quote script))
    ∙ tokens-command (codes "ssh") options (word (codes "ssh") ∷ []) (singles options)
        (ssh_target c) script (unfold run in refl) (All-AllSplit options (bare_options c).1)
    ∙ ap (λ us. some (word (codes "ssh") ∷ (us ++ word (ssh_target c) ∷ word script ∷ [])))
        (flatten-singles_only options)
