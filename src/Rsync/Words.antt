-- ===== src/Rsync/Words.antt =====
-- The command line that `Build` writes, as the shell reads it.
use mathlib.Core.List.{flatten}
use pv_migrate.Common.{
  ◌++◌, Bool, true, false, List, [], ◌∷◌, ◌≡◌, refl, sym, ◌∙◌, ap, map, append_assoc, append-nil,
  All, All-append, Bytes, codes, join, if◌then◌else◌, is_empty, ok, ◌||◌, some,
}
use pv_migrate.Shell.Lexer.{Token, word, run, tokens}
use pv_migrate.Shell.Words.{
  Splits, AllSplit, IsBareWord, singles, All-AllSplit, AllSplit-append, flatten-singles, nil-Splits,
  quote-Splits, tokens-command,
}
use pv_migrate.Rsync.{
  Cmd, build, build_src, build_dest, args, ssh_args, option_flags, command_line, build-ok,
}

All-if {ℓ κ} :
    {A : Type ℓ} (P : A → Type κ) (b : Bool) (xs : List A) → All P xs → All P (if b then xs else [])
All-if P true xs h = h
All-if P false xs h = tt

option_flags-IsBareWord : (c : Cmd) → All IsBareWord (option_flags c)
unfolding option_flags run
option_flags-IsBareWord c =
    All-append IsBareWord _ _ (All-if IsBareWord c.compress _ (refl, (refl, (refl, tt)))) (
      All-append IsBareWord _ _ (All-if IsBareWord (c.no_chown || c.non_root) _ (refl, (refl, tt)))
        (All-append IsBareWord _ _ (All-if IsBareWord c.non_root _ (refl, tt))
          (All-if IsBareWord c.delete _ (refl, tt))))

-- The words that rsync is started with.
abbrev pub argv : Cmd → List Token → List Token
argv c extra =
    word (codes "rsync")
    ∷ word (codes "-av")
    ∷ word (codes "--info=progress2,misc0,flist0")
    ∷ word (codes "--no-inc-recursive")
    ∷ word (codes "-e")
    ∷ word (join (codes " ") (ssh_args c))
    ∷ word (codes "--exclude=/lost+found")
    ∷ (map word (option_flags c) ++ (extra ++ word (build_src c) ∷ word (build_dest c) ∷ []))

abbrev flag_words : Cmd → List Bytes
flag_words c =
    codes "-av"
    ∷ codes "--info=progress2,misc0,flist0"
    ∷ codes "--no-inc-recursive"
    ∷ codes "-e"
    ∷ join (codes " ") (ssh_args c)
    ∷ codes "--exclude=/lost+found"
    ∷ option_flags c

abbrev arg_tokens : Cmd → List Token → List (List Token)
arg_tokens c extra = singles (flag_words c) ++ (if is_empty c.extra_args then [] else extra ∷ [])

texts-AllSplit :
    (c : Cmd) (extra : List Token)
    → Splits c.extra_args extra
    → AllSplit (args c) (arg_tokens c extra)
unfolding args run
texts-AllSplit c extra h = (
  refl,
  (
    refl,
    (
      refl,
      (
        refl,
        (
          quote-Splits _,
          (
            refl,
            AllSplit-append (option_flags c) _ _ _ (All-AllSplit _ (option_flags-IsBareWord c))
                (extra_split c.extra_args extra h),
          ),
        ),
      ),
    ),
  ),
)
  where
    extra_split :
        (e : Bytes) (ts : List Token)
        → Splits e ts
        → AllSplit (if is_empty e then [] else e ∷ []) (if is_empty e then [] else ts ∷ [])
    extra_split [] ts k = tt
    extra_split (c' ∷ e) ts k = (k, tt)

extra-flatten :
    (e : Bytes) (ts : List Token) → Splits e ts → flatten (if is_empty e then [] else ts ∷ []) ≡ ts
unfolding flatten
extra-flatten [] ts h = sym (nil-Splits ts h)
extra-flatten (c ∷ e) ts h = append-nil ts

-- The command line is the words of `argv`.
pub tokens-command_line :
    (c : Cmd) (extra : List Token)
    → Splits c.extra_args extra
    → tokens (command_line c) ≡ some (argv c extra)
unfolding command_line args join
tokens-command_line c extra h =
    tokens-command (codes "rsync") (args c) (word (codes "rsync") ∷ []) (arg_tokens c extra)
      (build_src c) (build_dest c) (unfold run in refl) (texts-AllSplit c extra h)
    ∙ ap some
        (rw (flatten-singles (flag_words c) _, extra-flatten c.extra_args extra h, append_assoc))

-- Whatever the paths and hosts hold, a command that `Build` accepts is read by the shell as rsync,
-- its flags, the extra arguments and exactly two more words, the source and the destination,
-- where the extra arguments stand for the words that the shell reads in them.
pub tokens-build :
    (c : Cmd) (extra : List Token) {s : Bytes}
    → Splits c.extra_args extra
    → build c ≡ ok s
    → tokens s ≡ some (argv c extra)
tokens-build c extra {s} h e = ap tokens (build-ok c e) ∙ tokens-command_line c extra h
